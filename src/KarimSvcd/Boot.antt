-- ===== src/KarimSvcd/Boot.antt =====
-- The services that cmd/karim-svcd/main.go starts at boot.
use a_from_scratch_linux_use.Base.Maps.{lookup}
use a_from_scratch_linux_use.Svcd.Config.Lines.{parsed}
use a_from_scratch_linux_use.KarimSvcd.Store.Maps.{some-injective}
use a_from_scratch_linux_use.Svcd.Graph.Result.{resolve-IsStartOrder, IsStartOrder}
use a_from_scratch_linux_use.Svcd.Supervisor.Run.{started, happen-Counts}
use a_from_scratch_linux_use.Svcd.Graph.Build.{new_dependency_graph-IsGraph, IsGraph}
use a_from_scratch_linux_use.Svcd.Graph.Order.{Enumerates}
use a_from_scratch_linux_use.Svcd.Spec.{ServiceSpec}
use a_from_scratch_linux_use.Svcd.Graph.{
  out_of_fuel, cyclic, ok, resolve_topological_sort, new_dependency_graph, Sorted, Services,
}
use a_from_scratch_linux_use.KarimSvcd.Consistent.{
  new_managed_service-IsValid, add_service-IsConsistent, happen_at-IsConsistent, start_at-happen,
  started_or, IsConsistent,
}
use a_from_scratch_linux_use.KarimSvcd.Main.{supervising, ordered, start_up, start_all}
use a_from_scratch_linux_use.KarimSvcd.Bridge.{Calls}
use a_from_scratch_linux_use.Svcd.Supervisor.{start, new_managed_service, ManagedService, Os}
use a_from_scratch_linux_use.KarimSvcd.Store.{add_service, start_at, set_at, State, deref}
use a_from_scratch_linux_use.Base.{
  append_assoc, arith, append-nil, none, zero, sym, refl, subst, ◌∙◌, suc, length, ap, Option, ◌∷◌,
  map, some, Bytes, Bool, ◌++◌, ◌≡◌, [], List, ℕ,
}

set_at-map :
    {A B : Type 0} (f : A → B) (xs : List A) (i : ℕ) (a b : A)
    → deref xs i ≡ some a
    → f b ≡ f a
    → map f (set_at xs i b) ≡ map f xs
unfolding deref set_at
set_at-map f [] i a b h e = refl
set_at-map f (x ∷ xs) zero a b h e = ap (λ y. y ∷ map f xs) (e ∙ ap f (sym (some-injective x a h)))
set_at-map f (x ∷ xs) (suc i) a b h e = ap (λ r. f x ∷ r) (set_at-map f xs i a b h e)

abbrev pub specs_of : {F : Type 0} → List (ManagedService F) → List (ServiceSpec F)
specs_of services = map (λ ms. ms.spec) services

specs_of-append :
    {F : Type 0} (xs ys : List (ManagedService F))
    → specs_of (xs ++ ys) ≡ specs_of xs ++ specs_of ys
specs_of-append [] ys = refl
specs_of-append (x ∷ xs) ys = ap (λ r. x.spec ∷ r) (specs_of-append xs ys)

module _ {F W : Type 0} (os : Os F W) where
  start_at-specs_of :
      (i : ℕ) (st : State F W) → specs_of (start_at os i st).0.services ≡ specs_of st.services
  unfolding start_at
  start_at-specs_of i st = branch (deref st.services i) refl
    where
      branch :
          (o : Option (ManagedService F))
          → deref st.services i ≡ o
          → specs_of (started_or os i st o).0.services ≡ specs_of st.services
      branch none h = refl
      branch (some ms) h =
          set_at-map (λ m. m.spec) st.services i ms (start os ms st.world).0 h
            (happen-Counts os started ms st.world).0

  start_all-specs_of :
      (has_cgroup : Bool) (specs : List (ServiceSpec F)) (st : State F W)
      → specs_of (start_all os has_cgroup specs st).services ≡ specs_of st.services ++ specs
  unfolding start_all add_service new_managed_service
  start_all-specs_of has_cgroup [] st = sym (append-nil (specs_of st.services))
  start_all-specs_of has_cgroup (spec ∷ specs) st =
      let ms = new_managed_service spec has_cgroup in
      let next = (start_at os (length st.services) (add_service ms st)).0 in
      start_all-specs_of has_cgroup specs next
      ∙ ap (λ l. l ++ specs)
          (start_at-specs_of (length st.services) (add_service ms st)
            ∙ specs_of-append st.services (ms ∷ []))
      ∙ append_assoc (specs_of st.services) (spec ∷ []) specs

  start_all-IsConsistent :
      (has_cgroup : Bool) (specs : List (ServiceSpec F)) (st : State F W)
      → IsConsistent st
      → IsConsistent (start_all os has_cgroup specs st)
  unfolding start_all
  start_all-IsConsistent has_cgroup [] st h = h
  start_all-IsConsistent has_cgroup (spec ∷ specs) st h =
      let ms = new_managed_service spec has_cgroup in
      let added = add_service ms st in
      start_all-IsConsistent has_cgroup specs (start_at os (length st.services) added).0 (
        subst IsConsistent (sym (start_at-happen os (length st.services) added)) (
          happen_at-IsConsistent os started (length st.services) added
            (add_service-IsConsistent st ms h (new_managed_service-IsValid spec has_cgroup))))

abbrev no_services : {F W : Type 0} → W → State F W
no_services w = record { services = []; managed = []; world = w }

no_services-IsConsistent : {F W : Type 0} (w : W) → IsConsistent (no_services {F = F} {W = W} w)
unfolding lookup deref
no_services-IsConsistent w = record { named = λ name i h. cc; valid = λ i ms h. cc }

supervising-injective : {F W : Type 0} (x y : State F W) → supervising x ≡ supervising y → x ≡ y
supervising-injective x y h = ground arith

module _ {F W H : Type 0} (c : Calls F W H) where
  abbrev first : W → State F W
  first w = no_services (c.new_cgroup_manager w).0

  ordered-IsStartOrder :
      (g : Services F) (range : List Bytes) (has_cgroup : Bool) (w : W) (r : Sorted F)
      (st : State F W)
      → IsGraph g
      → Enumerates g range
      → resolve_topological_sort g range ≡ r
      → ordered c.os has_cgroup r (no_services w) ≡ supervising st
      → IsConsistent st × IsStartOrder g [] (specs_of st.services)
  ordered-IsStartOrder g range has_cgroup w (ok order) st graph all e h =
      let same = supervising-injective (start_all c.os has_cgroup order (no_services w)) st h in
      (
        subst IsConsistent same (
            start_all-IsConsistent c.os has_cgroup order (no_services w)
              (no_services-IsConsistent w)),
        subst (λ t. IsStartOrder g [] (specs_of t.services)) same
            (subst (IsStartOrder g [])
              (sym (start_all-specs_of c.os has_cgroup order (no_services w)))
              (resolve-IsStartOrder g range order graph all e).0),
      )
  ordered-IsStartOrder g range has_cgroup w (cyclic n m) st graph all e h = cc
  ordered-IsStartOrder g range has_cgroup w out_of_fuel st graph all e h = cc

  -- The boot, in whatever order the maps are walked: a supervisor that goes on to supervise is
  -- consistent, and has made its services in an order in which each of them comes behind its
  -- dependencies.
  pub start_up-IsStartOrder :
      (spec : ServiceSpec F) (specs : List (ServiceSpec F)) (range : Services F → List Bytes)
      (w : W) (st : State F W)
      → Enumerates
          (new_dependency_graph (spec ∷ specs))
          (range (new_dependency_graph (spec ∷ specs)))
      → start_up c (parsed (spec ∷ specs)) range w ≡ supervising st
      → IsConsistent st
        × IsStartOrder (new_dependency_graph (spec ∷ specs)) [] (specs_of st.services)
  unfolding start_up
  start_up-IsStartOrder spec specs range w st all h =
      let g = new_dependency_graph (spec ∷ specs) in
      let r = c.new_cgroup_manager w in
      ordered-IsStartOrder g (range g) r.1 r.0 (resolve_topological_sort g (range g)) st
        (new_dependency_graph-IsGraph (spec ∷ specs)) all refl h
