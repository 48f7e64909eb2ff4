-- ===== src/Svcd/Graph/Cycle.antt =====
-- When ResolveTopologicalSort fails, the services left over block one another.
use a_from_scratch_linux_use.Base.{
  ℕ, ◌≤◌, ◌<◌, ◌≡◌, sym, ◌∙◌, ◌⊎◌, true, ◌&&◌, some, List, [], ◌∷◌, ◌==◌, arith, Bytes, length,
  str_eq_iff, str_eq_refl, Bool-cases, inl, inr,
}
use a_from_scratch_linux_use.Svcd.Spec.{ServiceSpec}
use a_from_scratch_linux_use.Svcd.Graph.{Services, find, exists, cyclic, resolve_topological_sort}
use a_from_scratch_linux_use.Svcd.Graph.Build.{keys, IsGraph}
use a_from_scratch_linux_use.Svcd.Graph.Count.{occ, occ-le_length}
use a_from_scratch_linux_use.Svcd.Graph.Edges.{pending, pending-append, dep_edges, edges}
use a_from_scratch_linux_use.Svcd.Graph.Order.{
  names, length-names, length-keys, key, Complete, Enumerates, resolve-Complete, key_of_occ,
  dep_edges_keyed, edges_keyed,
}
use a_from_scratch_linux_use.Svcd.Graph.Result.{HasCycle, Complete-occ, check_cyclic}

-- Either some name of `ks` does not occur in `xs`, or they all do.
missing_or_all :
    (ks xs : List Bytes)
    → ((x : Bytes) × (0 < occ x ks) × (occ x xs ≡ 0)) ⊎ ((x : Bytes) → 0 < occ x ks → 0 < occ x xs)
missing_or_all [] xs = inr (λ x h. elim h [ ])
missing_or_all (k ∷ ks) xs = elim (missing_or_all ks xs) [
  | inl (x, h, e) ↦ inl (x, omega arith, e)
  | inr rest ↦ elim (Bool-cases (occ k xs == 0)) [
    | inl gone ↦ inl (k, ground (arith, str_eq_refl k), ground arith)
    | inr here ↦ inr (λ x h. ground (arith, rest x, str_eq_iff x k))
  ]
]

module _ {F : Type 0} where
  missing_key :
      (g : Services F) (r : List (ServiceSpec F))
      → IsGraph g
      → Complete g (edges g g) r
      → length (names r) < length (keys g)
      → (x : Bytes) × (key g x ≡ true) × (occ x (names r) ≡ 0)
  missing_key g r graph done h = elim (missing_or_all (keys g) (names r)) [
    | inl (x, k, e) ↦ (x, key_of_occ g graph x k, e)
    | inr every ↦ absurd (
        omega
          (arith, occ-le_length (keys g) (names r) (λ x. ground (arith, graph.once x, every x))))
  ]

  -- An edge that is still open is an `After` entry whose service has not started.
  open_dep :
      (g : Services F) (name : Bytes) (deps seen : List Bytes) (x : Bytes)
      → 0 < pending (dep_edges g name deps) seen x
      → (dep : Bytes) × (0 < occ dep deps) × (key g dep ≡ true) × (occ dep seen ≡ 0)
  open_dep g name [] seen x h = elim h [ ]
  open_dep g name (dep ∷ deps) seen x h =
      elim (Bool-cases (exists (find g dep) && occ dep seen == 0)) [
        | inl p ↦ (dep, ground (arith, str_eq_refl dep), ground arith, ground arith)
        | inr p ↦
            let (d, i, k, o) = open_dep g name deps seen x (ground arith) in (d, omega arith, k, o)
      ]

  open_edge :
      (g rest : Services F) (seen : List Bytes) (x : Bytes) (s : ServiceSpec F)
      → occ x (keys rest) ≤ 1
      → find rest x ≡ some s
      → 0 < pending (edges g rest) seen x
      → 0 < pending (dep_edges g x s.after) seen x
  unfolding find
  open_edge g [] seen x s u f h = elim h [ ]
  open_edge g ((k, spec) ∷ rest) seen x s u f h = ground (
    arith,
    pending-append (dep_edges g k spec.after) (edges g rest) seen x,
    open_edge g rest seen x s,
    str_eq_iff k x,
    str_eq_iff x k,
    dep_edges_keyed g k spec.after seen x,
    edges_keyed g rest seen x,
  )

  left_over :
      (g : Services F) (r : List (ServiceSpec F))
      → IsGraph g
      → Complete g (edges g g) r
      → ((x : Bytes) × (key g x ≡ true) × (occ x (names r) ≡ 0))
      → HasCycle g
  left_over g r graph done (x, k, e) = record {
    stuck = λ z. occ z (names r) == 0;
    member = x;
    member_is_key = k;
    member_is_stuck = ground arith;
    blocked = λ z s f t.
        let (d, i, kd, o) = open_dep g z s.after (names r) z (
          open_edge g g (names r) z s (ground (arith, graph.once z)) f
            (ground (arith, done.placed z))) in
        (d, i, kd, ground arith);
  }

  -- When the count does not match, the error's counts are those of the services that could be
  -- ordered and of all services, the first is the smaller, and the graph has a cycle.
  pub resolve-cyclic-HasCycle :
      (g : Services F) (range : List Bytes) (n m : ℕ)
      → IsGraph g
      → Enumerates g range
      → resolve_topological_sort g range ≡ cyclic n m
      → (n < m) × (m ≡ length g) × HasCycle g
  resolve-cyclic-HasCycle g range n m graph all e =
      let (r, run, done) = resolve-Complete g range graph all in
      let (differ, counted, total) = check_cyclic g r n m (sym run ∙ e) in
      let short = occ-le_length (names r) (keys g) (Complete-occ g r graph done) in
      let missing = missing_key g r graph done (omega (arith, length-names r, length-keys g)) in
      (omega (arith, length-names r, length-keys g), total, left_over g r graph done missing)
