-- ===== src/Svcd/Graph/Result.antt =====
-- ResolveTopologicalSort returns an order to start in, or finds that there is none.
use a_from_scratch_linux_use.Base.{
  ℕ, ◌≤◌, ◌<◌, ◌≡◌, ◌≢◌, sym, subst, ◌∙◌, Bool, true, false, some, List, [], ◌∷◌, ◌++◌, arith,
  Bytes, length, str_eq, str_eq_iff, str_eq_refl, Bool-cases, inl, inr, All,
}
use a_from_scratch_linux_use.Svcd.Spec.{ServiceSpec}
use a_from_scratch_linux_use.Svcd.Graph.{
  Services, find, exists, ok, cyclic, out_of_fuel, check_count, resolve_topological_sort,
}
use a_from_scratch_linux_use.Svcd.Graph.Build.{keys, IsGraph}
use a_from_scratch_linux_use.Svcd.Graph.Count.{occ, occ-append, occ-eq_of_length}
use a_from_scratch_linux_use.Svcd.Graph.Edges.{pending, pending-append, dep_edges, edges}
use a_from_scratch_linux_use.Svcd.Graph.Loop.{Respects}
use a_from_scratch_linux_use.Svcd.Graph.Order.{
  names, length-names, length-keys, key, Complete, Enumerates, resolve-Complete,
}

All-occ {κ} : (P : Bytes → Type κ) (x : Bytes) (ys : List Bytes) → 0 < occ x ys → All P ys → P x
All-occ P x [] h a = elim h [ ]
All-occ P x (y ∷ ys) h a = elim (Bool-cases (str_eq x y)) [
  | inl p ↦ subst P (sym ((str_eq_iff x y).0 p)) a.0
  | inr p ↦ All-occ P x ys (ground arith) a.1
]

module _ {F : Type 0} where
  -- In this order every service is one of the graph, and comes behind those of its dependencies
  -- that are in the graph; `seen` has started before it.
  abbrev pub IsStartOrder : Services F → List Bytes → List (ServiceSpec F) → Type 0
  IsStartOrder g seen [] = Unit
  IsStartOrder g seen (s ∷ order) =
      (find g s.name ≡ some s)
      × All (λ dep. exists (find g dep) ≡ true → 0 < occ dep seen) s.after
      × IsStartOrder g (seen ++ s.name ∷ []) order

  dep_edges_seen :
      (g : Services F) (name : Bytes) (deps seen : List Bytes)
      → pending (dep_edges g name deps) seen name ≡ 0
      → All (λ dep. exists (find g dep) ≡ true → 0 < occ dep seen) deps
  dep_edges_seen g name [] seen h = tt
  dep_edges_seen g name (dep ∷ deps) seen h = (
    λ e. ground (arith, str_eq_refl name),
    dep_edges_seen g name deps seen (ground (arith, str_eq_refl name)),
  )

  edges_seen :
      (g rest : Services F) (seen : List Bytes) (x : Bytes) (s : ServiceSpec F)
      → find rest x ≡ some s
      → pending (edges g rest) seen x ≡ 0
      → pending (dep_edges g x s.after) seen x ≡ 0
  unfolding find
  edges_seen g [] seen x s f h = cc
  edges_seen g ((k, spec) ∷ rest) seen x s f h = ground (
    arith,
    pending-append (dep_edges g k spec.after) (edges g rest) seen x,
    edges_seen g rest seen x s,
    str_eq_iff k x,
  )

  Respects-IsStartOrder :
      (g : Services F) (seen : List Bytes) (order : List (ServiceSpec F))
      → All (λ s. find g s.name ≡ some s) order
      → Respects (edges g g) seen (names order)
      → IsStartOrder g seen order
  Respects-IsStartOrder g seen [] found h = tt
  Respects-IsStartOrder g seen (s ∷ order) found h = (
    found.0,
    dep_edges_seen g s.name s.after seen (edges_seen g g seen s.name s found.0 h.0),
    Respects-IsStartOrder g (seen ++ s.name ∷ []) order found.1 h.1,
  )

  pub Complete-occ :
      (g : Services F) (r : List (ServiceSpec F))
      → IsGraph g
      → Complete g (edges g g) r
      → (x : Bytes) → occ x (names r) ≤ occ x (keys g)
  Complete-occ g r graph done x = ground (arith, done.placed x, graph.once x)

  check_ok :
      (g : Services F) (r sorted : List (ServiceSpec F))
      → check_count g (some r) ≡ ok sorted
      → (r ≡ sorted) × (length r ≡ length g)
  check_ok g r sorted e = ground arith

  pub check_cyclic :
      (g : Services F) (r : List (ServiceSpec F)) (n m : ℕ)
      → check_count g (some r) ≡ cyclic n m
      → (length r ≢ length g) × (n ≡ length r) × (m ≡ length g)
  check_cyclic g r n m e = ground arith

  -- On success every service of the graph is in the order exactly once, as the graph has it, and
  -- behind all of its dependencies that are in the graph, whatever order the maps are walked in.
  pub resolve-IsStartOrder :
      (g : Services F) (range : List Bytes) (sorted : List (ServiceSpec F))
      → IsGraph g
      → Enumerates g range
      → resolve_topological_sort g range ≡ ok sorted
      → IsStartOrder g [] sorted × ((x : Bytes) → occ x (names sorted) ≡ occ x (keys g))
  resolve-IsStartOrder g range sorted graph all e =
      let (r, run, done) = resolve-Complete g range graph all in
      let (same, size) = check_ok g r sorted (sym run ∙ e) in
      subst (λ t. IsStartOrder g [] t × ((x : Bytes) → occ x (names t) ≡ occ x (keys g))) same
        (
          Respects-IsStartOrder g [] r done.found done.respects,
          occ-eq_of_length (names r) (keys g) (Complete-occ g r graph done)
              (omega (arith, length-names r, length-keys g)),
        )

  -- Services of the graph, at least one, each of which has a dependency among them: following the
  -- dependencies from one of them goes round in a cycle.
  pub record HasCycle (g : Services F) : Type 0 where
    pub stuck : Bytes → Bool
    pub member : Bytes
    pub member_is_key : key g member ≡ true
    pub member_is_stuck : stuck member ≡ true
    pub blocked :
        (x : Bytes) (s : ServiceSpec F)
        → find g x ≡ some s
        → stuck x ≡ true
        → (dep : Bytes) × (0 < occ dep s.after) × (key g dep ≡ true) × (stuck dep ≡ true)

  head_not_stuck :
      (g : Services F) (c : HasCycle g) (seen : List Bytes) (s : ServiceSpec F)
      → ((x : Bytes) → 0 < occ x seen → c.stuck x ≡ false)
      → find g s.name ≡ some s
      → All (λ dep. exists (find g dep) ≡ true → 0 < occ dep seen) s.after
      → c.stuck s.name ≡ false
  head_not_stuck g c seen s h found after = elim (Bool-cases (c.stuck s.name)) [
    | inr free ↦ free
    | inl t ↦
        let (dep, inside, known, held) = c.blocked s.name s found t in
        cc (
          held,
          h dep (
              All-occ (λ d. exists (find g d) ≡ true → 0 < occ d seen) dep s.after inside after
                known),
        )
  ]

  not_stuck :
      (g : Services F) (c : HasCycle g) (seen : List Bytes) (order : List (ServiceSpec F))
      → ((x : Bytes) → 0 < occ x seen → c.stuck x ≡ false)
      → IsStartOrder g seen order
      → (x : Bytes) → 0 < occ x (names order)
      → c.stuck x ≡ false
  not_stuck g c seen [] h o x has = elim has [ ]
  not_stuck g c seen (s ∷ order) h o x has =
      let free = head_not_stuck g c seen s h o.0 o.1 in
      ground (
        arith,
        free,
        str_eq_iff x s.name,
        not_stuck g c (seen ++ s.name ∷ []) order
            (λ z k. ground (arith, h z, free, occ-append z seen (s.name ∷ []), str_eq_iff z s.name))
            o.2 x,
      )

  -- A graph with a cycle is never put in order.
  pub HasCycle-not_ok :
      (g : Services F) (range : List Bytes) (sorted : List (ServiceSpec F))
      → IsGraph g
      → Enumerates g range
      → HasCycle g
      → resolve_topological_sort g range ≢ ok sorted
  HasCycle-not_ok g range sorted graph all c e =
      let (start, once) = resolve-IsStartOrder g range sorted graph all e in
      let free =
        not_stuck g c [] sorted (λ x h. elim h [ ]) start c.member
          (ground (arith, once c.member, graph.once c.member, c.member_is_key)) in
      cc (free, c.member_is_stuck)

  -- The loop never runs out of fuel.
  pub resolve_terminates :
      (g : Services F) (range : List Bytes)
      → IsGraph g
      → Enumerates g range
      → resolve_topological_sort g range ≢ out_of_fuel
  resolve_terminates g range graph all e =
      let (r, run, done) = resolve-Complete g range graph all in ground (arith, run)
