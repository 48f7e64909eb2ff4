-- ===== src/Svcd/Graph/Order.antt =====
-- ResolveTopologicalSort returns an order to start in, or finds that there is none.
use a_from_scratch_linux_use.Base.{
  ℕ, zero, suc, ◌+◌, ◌≤◌, ◌<◌, ◌≡◌, refl, sym, ap, subst, ◌∙◌, Bool, true, ◌&&◌, Option, some, none,
  List, [], ◌∷◌, ◌++◌, ◌==◌, if◌then◌else◌, arith, Bytes, length, length-append, str_eq_iff,
  str_eq_refl, All, All-append,
}
use a_from_scratch_linux_use.Base.Int.{ℤ}
use a_from_scratch_linux_use.Svcd.Spec.{ServiceSpec}
use a_from_scratch_linux_use.Svcd.Graph.{
  Services, find, exists, is_zero, link_all, no_links, ready, relax, append_spec, kahn, check_count,
  resolve_topological_sort,
}
use a_from_scratch_linux_use.Svcd.Graph.Build.{keys, IsGraph}
use a_from_scratch_linux_use.Svcd.Graph.Count.{occ, occ-append, occ-le_length}
use a_from_scratch_linux_use.Svcd.Graph.Edges.{
  Edges, pending, targets, pending-append, dep_edges, edges, links-Represents,
}
use a_from_scratch_linux_use.Svcd.Graph.Loop.{Respects, Inv, front_is_ready, relax-Inv}

occ-ready :
    (degree : Bytes → ℤ) (order : List Bytes) (x : Bytes)
    → occ x (ready degree order) ≡ (if is_zero (degree x) then occ x order else 0)
unfolding ready
occ-ready degree [] x = ground arith
occ-ready degree (n ∷ order) x = ground (arith, occ-ready degree order x, str_eq_iff x n)

module _ {F : Type 0} where
  abbrev pub names : List (ServiceSpec F) → List Bytes
  names [] = []
  names (s ∷ ss) = s.name ∷ names ss

  names-append : (xs ys : List (ServiceSpec F)) → names (xs ++ ys) ≡ names xs ++ names ys
  names-append [] ys = refl
  names-append (x ∷ xs) ys = ap (◌∷◌ x.name) (names-append xs ys)

  pub length-names : (xs : List (ServiceSpec F)) → length (names xs) ≡ length xs
  length-names [] = refl
  length-names (x ∷ xs) = ap suc (length-names xs)

  pub length-keys : (g : Services F) → length (keys g) ≡ length g
  length-keys [] = refl
  length-keys ((k, s) ∷ g) = ap suc (length-keys g)

  abbrev pub key : Services F → Bytes → Bool
  key g x = exists (find g x)

  pub exists_some :
      (o : Option (ServiceSpec F)) → exists o ≡ true → (s : ServiceSpec F) × (o ≡ some s)
  exists_some none h = cc
  exists_some (some s) h = (s, refl)

  -- What the loop ends with.
  pub record Complete (g : Services F) (e : Edges) (order : List (ServiceSpec F)) : Type 0 where
    pub placed :
        (x : Bytes)
        → occ x (names order) ≡ (if key g x && pending e (names order) x == 0 then 1 else 0)
    pub respects : Respects e [] (names order)
    pub found : All (λ s. find g s.name ≡ some s) order

  kahn_step :
      (g : Services F) (adj : Bytes → List Bytes) (fuel : ℕ) (degree : Bytes → ℤ) (c : Bytes)
      (queue : List Bytes) (ordered : List (ServiceSpec F)) (s : ServiceSpec F) {ns : List Bytes}
      → adj c ≡ ns
      → find g c ≡ some s
      → kahn g adj (suc fuel) degree (c ∷ queue) ordered
        ≡ kahn g adj fuel (relax ns degree queue).0 (relax ns degree queue).1 (ordered ++ s ∷ [])
  unfolding kahn
  kahn_step g adj fuel degree c queue ordered s {ns} same found =
      ap
        (λ t.
          kahn g adj fuel (relax t degree queue).0 (relax t degree queue).1
            (append_spec ordered (find g c)))
        same
      ∙ ap
          (λ o.
            kahn g adj fuel (relax ns degree queue).0 (relax ns degree queue).1
              (append_spec ordered o))
          found

  module _ (g : Services F) (graph : IsGraph g) (e : Edges) (adj : Bytes → List Bytes)
      (targeted : (c : Bytes) → adj c ≡ targets e c)
      (keyed : (x : Bytes) → 0 < pending e [] x → key g x ≡ true) where
    taken_fits :
        (degree : Bytes → ℤ) (queue taken : List Bytes)
        → Inv e (key g) degree queue taken
        → length (taken ++ queue) ≤ length g
    taken_fits degree queue taken inv = omega (
      arith,
      length-keys g,
      occ-le_length (taken ++ queue) (keys g)
          (λ x. ground (arith, occ-append x taken queue, inv.placed x, graph.once x)),
    )

    kahn_runs :
        (fuel : ℕ) (degree : Bytes → ℤ) (queue : List Bytes) (ordered : List (ServiceSpec F))
        → Inv e (key g) degree queue (names ordered)
        → All (λ s. find g s.name ≡ some s) ordered
        → length g ≤ fuel + length ordered
        → (r : List (ServiceSpec F)) × (kahn g adj fuel degree queue ordered ≡ some r)
          × Complete g e r
    unfolding kahn
    kahn_runs fuel degree [] ordered inv all h = (
      ordered,
      refl,
      record { placed = λ x. omega (arith, inv.placed x); respects = inv.respects; found = all },
    )
    kahn_runs zero degree (c ∷ queue) ordered inv all h = absurd (
        omega (
          arith,
          taken_fits degree (c ∷ queue) (names ordered) inv,
          length-names ordered,
          length-append (names ordered) (c ∷ queue),
        ))
    kahn_runs (suc fuel) degree (c ∷ queue) ordered inv all h =
        let front = front_is_ready e (key g) degree c queue (names ordered) inv in
        let (s, found) = exists_some (find g c) front.1 in
        let next = relax-Inv e (key g) degree c queue (names ordered) inv keyed in
        let named : names ordered ++ c ∷ [] ≡ names (ordered ++ s ∷ []) =
          ap (λ n. names ordered ++ n ∷ []) (sym (graph.named c s found))
          ∙ sym (names-append ordered (s ∷ [])) in
        let (r, run, done) =
          kahn_runs fuel (relax (targets e c) degree queue).0 (relax (targets e c) degree queue).1
            (ordered ++ s ∷ [])
            (subst
              (λ t.
                Inv e (key g) (relax (targets e c) degree queue).0
                  (relax (targets e c) degree queue).1 t)
              named next)
            (All-append (λ t. find g t.name ≡ some t) ordered (s ∷ []) all
              (subst (λ n. find g n ≡ some s) (sym (graph.named c s found)) found, tt))
            (omega (arith, length-append ordered (s ∷ []))) in
        (r, kahn_step g adj fuel degree c queue ordered s (targeted c) found ∙ run, done)

  -- The names that a `range` over inDegree yields: each key of the map once.
  abbrev pub Enumerates : Services F → List Bytes → Type 0
  Enumerates g order = (x : Bytes) → occ x order ≡ occ x (keys g)

  pub dep_edges_keyed :
      (g : Services F) (name : Bytes) (deps before : List Bytes) (x : Bytes)
      → 0 < pending (dep_edges g name deps) before x
      → x ≡ name
  dep_edges_keyed g name [] before x h = elim h [ ]
  dep_edges_keyed g name (dep ∷ deps) before x h =
      ground (arith, dep_edges_keyed g name deps before x, str_eq_iff x name)

  pub edges_keyed :
      (g rest : Services F) (before : List Bytes) (x : Bytes)
      → 0 < pending (edges g rest) before x
      → 0 < occ x (keys rest)
  edges_keyed g [] before x h = elim h [ ]
  edges_keyed g ((name, spec) ∷ rest) before x h = ground (
    arith,
    pending-append (dep_edges g name spec.after) (edges g rest) before x,
    dep_edges_keyed g name spec.after before x,
    edges_keyed g rest before x,
    str_eq_refl name,
  )

  start-Inv :
      (g : Services F) (order : List Bytes)
      → IsGraph g
      → Enumerates g order
      → Inv
          (edges g g)
          (key g)
          (link_all g g no_links).in_degree
          (ready (link_all g g no_links).in_degree order)
          []
  start-Inv g order graph all =
      let l = link_all g g no_links in
      record {
        degrees = (links-Represents g).degrees;
        placed = λ x. ground (
          arith,
          occ-ready l.in_degree order x,
          (links-Represents g).degrees x,
          all x,
          graph.once x,
        );
        respects = tt;
      }

  pub key_of_occ : (g : Services F) → IsGraph g → (x : Bytes) → 0 < occ x (keys g) → key g x ≡ true
  key_of_occ g graph x h = ground (arith, graph.once x)

  -- The loop always ends, and its result is complete.
  pub resolve-Complete :
      (g : Services F) (order : List Bytes)
      → IsGraph g
      → Enumerates g order
      → (r : List (ServiceSpec F)) × (resolve_topological_sort g order ≡ check_count g (some r))
        × Complete g (edges g g) r
  resolve-Complete g order graph all =
      let l = link_all g g no_links in
      let keyed = λ (x : Bytes) (h : 0 < pending (edges g g) [] x).
        key_of_occ g graph x (edges_keyed g g [] x h) in
      let (r, run, done) =
        kahn_runs g graph (edges g g) l.adj (links-Represents g).targeted keyed (length g)
          l.in_degree (ready l.in_degree order) [] (start-Inv g order graph all) tt (omega arith) in
      (r, unfold resolve_topological_sort in ap (check_count g) run, done)
