-- ===== src/Svcd/Graph/Build.antt =====
-- NewDependencyGraph builds a map: one entry for each name, under the name of its service.
use a_from_scratch_linux_use.Base.{
  ◌+◌, ◌≡◌, refl, ◌&&◌, some, List, [], ◌∷◌, ◌==◌, if◌then◌else◌, arith, Bytes, str_eq, str_eq_iff,
}
use a_from_scratch_linux_use.Svcd.Spec.{ServiceSpec}
use a_from_scratch_linux_use.Svcd.Graph.{Services, find, exists, put, put_all, new_dependency_graph}
use a_from_scratch_linux_use.Svcd.Graph.Count.{occ}

module _ {F : Type 0} where
  abbrev pub keys : Services F → List Bytes
  keys [] = []
  keys ((k, spec) ∷ g) = k ∷ keys g

  -- The entries of a map from the names of services to the services.
  pub record IsGraph (g : Services F) : Type 0 where
    pub once : (x : Bytes) → occ x (keys g) ≡ (if exists (find g x) then 1 else 0)
    pub named : (x : Bytes) (spec : ServiceSpec F) → find g x ≡ some spec → spec.name ≡ x

  pub find-put :
      (g : Services F) (name x : Bytes) (spec : ServiceSpec F)
      → find (put g name spec) x ≡ (if str_eq name x then some spec else find g x)
  unfolding find put
  find-put [] name x spec = ground arith
  find-put ((k, old) ∷ g) name x spec =
      ground (arith, find-put g name x spec, str_eq_iff k name, str_eq_iff k x, str_eq_iff name x)

  keys-put :
      (g : Services F) (name x : Bytes) (spec : ServiceSpec F)
      → occ x (keys (put g name spec))
        ≡ occ x (keys g) + (if str_eq x name && occ name (keys g) == 0 then 1 else 0)
  unfolding put
  keys-put [] name x spec = ground arith
  keys-put ((k, old) ∷ g) name x spec =
      ground (arith, keys-put g name x spec, str_eq_iff k name, str_eq_iff name k)

  put-IsGraph : (g : Services F) (spec : ServiceSpec F) → IsGraph g → IsGraph (put g spec.name spec)
  put-IsGraph g spec h = record {
    once = λ x. ground (
      arith,
      keys-put g spec.name x spec,
      find-put g spec.name x spec,
      h.once x,
      h.once spec.name,
      str_eq_iff x spec.name,
      str_eq_iff spec.name x,
    );
    named =
        λ x s e. ground (arith, find-put g spec.name x spec, h.named x s, str_eq_iff spec.name x);
  }

  put_all-IsGraph :
      (g : Services F) (specs : List (ServiceSpec F)) → IsGraph g → IsGraph (put_all g specs)
  put_all-IsGraph g [] h = h
  put_all-IsGraph g (spec ∷ specs) h =
      put_all-IsGraph (put g spec.name spec) specs (put-IsGraph g spec h)

  pub new_dependency_graph-IsGraph :
      (specs : List (ServiceSpec F)) → IsGraph (new_dependency_graph specs)
  unfolding new_dependency_graph find
  new_dependency_graph-IsGraph specs =
      put_all-IsGraph [] specs (record { once = λ x. refl; named = λ x s e. cc })
