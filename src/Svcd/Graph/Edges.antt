-- ===== src/Svcd/Graph/Edges.antt =====
-- The dependencies between the services as a list of edges, and the maps inDegree and adj as views
-- of it.
use a_from_scratch_linux_use.Base.{
  ℕ, ◌+◌, ◌≡◌, refl, subst, Bool, true, false, ◌&&◌, List, [], ◌∷◌, ◌++◌, ◌==◌, if◌then◌else◌,
  arith, Bytes, str_eq, str_eq_iff, append_assoc, append-nil, Bool-cases, inl, inr,
}
use a_from_scratch_linux_use.Base.Int.{pos}
use a_from_scratch_linux_use.Svcd.Graph.{
  Services, Links, find, exists, link, link_deps, link_all, no_links,
}
use a_from_scratch_linux_use.Svcd.Graph.Count.{occ, occ-append}

-- An edge from a dependency to a service that is to start after it.
abbrev pub Edges : Type 0
Edges = List (Bytes × Bytes)

abbrev counts : Bytes → List Bytes → Bytes → Bytes → Bool
counts d before n x = str_eq x n && occ d before == 0

-- How many edges lead to `x` from services that are not in `before`.
abbrev pub pending : Edges → List Bytes → Bytes → ℕ
pending [] before x = 0
pending ((d, n) ∷ e) before x = (if counts d before n x then 1 else 0) + pending e before x

-- The services with an edge from `c`, in order.
abbrev pub targets : Edges → Bytes → List Bytes
targets [] c = []
targets ((d, n) ∷ e) c = let rest = targets e c in if str_eq c d then n ∷ rest else rest

pub pending-append :
    (e f : Edges) (before : List Bytes) (x : Bytes)
    → pending (e ++ f) before x ≡ pending e before x + pending f before x
pending-append [] f before x = omega arith
pending-append ((d, n) ∷ e) f before x = omega (arith, pending-append e f before x)

targets-append : (e f : Edges) (c : Bytes) → targets (e ++ f) c ≡ targets e c ++ targets f c
targets-append [] f c = refl
targets-append ((d, n) ∷ e) f c = elim (Bool-cases (str_eq c d)) [
  | inl p ↦ rw (p, targets-append e f c)
  | inr p ↦ rw (p, targets-append e f c)
]

-- Starting `c` satisfies the edges from it.
pub pending-step :
    (e : Edges) (before : List Bytes) (c x : Bytes)
    → occ c before ≡ 0
    → pending e before x ≡ pending e (before ++ c ∷ []) x + occ x (targets e c)
pending-step [] before c x h = omega arith
pending-step ((d, n) ∷ e) before c x h = ground (
  arith,
  pending-step e before c x h,
  occ-append d before (c ∷ []),
  str_eq_iff d c,
  str_eq_iff c d,
)

module _ {F : Type 0} where
  abbrev pub dep_edges : Services F → Bytes → List Bytes → Edges
  dep_edges g name [] = []
  dep_edges g name (dep ∷ deps) =
      let rest = dep_edges g name deps in if exists (find g dep) then (dep, name) ∷ rest else rest

  -- The edges of the services `rest` of `g`: those `After` entries that name a service.
  abbrev pub edges : Services F → Services F → Edges
  edges g [] = []
  edges g ((name, spec) ∷ rest) = dep_edges g name spec.after ++ edges g rest

-- The two maps say what the edges say.
pub record Represents (l : Links) (e : Edges) : Type 0 where
  pub degrees : (x : Bytes) → l.in_degree x ≡ pos (pending e [] x)
  pub targeted : (c : Bytes) → l.adj c ≡ targets e c

module _ {F : Type 0} where
  link-Represents :
      (g : Services F) (name dep : Bytes) (l : Links) (e : Edges)
      → exists (find g dep) ≡ true
      → Represents l e
      → Represents (link g name dep l) (e ++ (dep, name) ∷ [])
  unfolding link
  link-Represents g name dep l e p r = record {
    degrees = λ x. ground (
      arith,
      r.degrees x,
      r.degrees name,
      pending-append e ((dep, name) ∷ []) [] x,
      str_eq_iff x name,
    );
    targeted = λ c. ground (
      arith,
      r.targeted c,
      r.targeted dep,
      targets-append e ((dep, name) ∷ []) c,
      str_eq_iff c dep,
      append-nil (targets e c),
    );
  }

  link-none :
      (g : Services F) (name dep : Bytes) (l : Links)
      → exists (find g dep) ≡ false
      → link g name dep l ≡ l
  unfolding link
  link-none g name dep l p = rw p

  link_deps-Represents :
      (g : Services F) (name : Bytes) (deps : List Bytes) (l : Links) (e : Edges)
      → Represents l e
      → Represents (link_deps g name deps l) (e ++ dep_edges g name deps)
  unfolding link_deps
  link_deps-Represents g name [] l e r = rw append-nil r
  link_deps-Represents g name (dep ∷ deps) l e r = elim (Bool-cases (exists (find g dep))) [
    | inl p ↦ rw p (
        subst (λ z. Represents (link_deps g name deps (link g name dep l)) z)
          (append_assoc e ((dep, name) ∷ []) (dep_edges g name deps))
          (link_deps-Represents g name deps (link g name dep l) (e ++ (dep, name) ∷ [])
            (link-Represents g name dep l e p r)))
    | inr p ↦ rw (p, link-none g name dep l p) (link_deps-Represents g name deps l e r)
  ]

  link_all-Represents :
      (g rest : Services F) (l : Links) (e : Edges)
      → Represents l e
      → Represents (link_all g rest l) (e ++ edges g rest)
  unfolding link_all
  link_all-Represents g [] l e r = rw append-nil r
  link_all-Represents g ((name, spec) ∷ rest) l e r =
      rw (← append_assoc)
        (link_all-Represents g rest _ _ (link_deps-Represents g name spec.after l e r))

  pub links-Represents : (g : Services F) → Represents (link_all g g no_links) (edges g g)
  links-Represents g =
      link_all-Represents g g no_links [] (record { degrees = λ x. refl; targeted = λ c. refl })
