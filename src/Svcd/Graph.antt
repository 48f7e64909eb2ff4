-- ===== src/Svcd/Graph.antt =====
-- internal/svcd/graph.go. A Go map is an association list in the order in which one `range` over
-- it runs; the order of the `range` over inDegree is an argument of its own.
pub mod Count
pub mod Edges
pub mod Loop
pub mod Build
pub mod Order
pub mod Result
pub mod Cycle
use a_from_scratch_linux_use.Base.{
  ℕ, zero, suc, ◌≡◌, Bool, true, false, Option, none, some, List, [], ◌∷◌, ◌++◌, ◌==◌,
  if◌then◌else◌, Bytes, length, str_eq, map,
}
use a_from_scratch_linux_use.Base.Int.{ℤ, pos, negsuc}
use a_from_scratch_linux_use.Svcd.Spec.{ServiceSpec}

abbrev pub succ : ℤ → ℤ
succ (pos n) = pos (suc n)
succ (negsuc zero) = pos 0
succ (negsuc (suc n)) = negsuc n

abbrev pub pred : ℤ → ℤ
pred (pos zero) = negsuc 0
pred (pos (suc n)) = pos n
pred (negsuc n) = negsuc (suc n)

abbrev pub is_zero : ℤ → Bool
is_zero (pos zero) = true
is_zero (pos (suc n)) = false
is_zero (negsuc n) = false

-- m[k] = v on a map that is read with a default.
abbrev pub update {ℓ} : {V : Type ℓ} → (Bytes → V) → Bytes → V → Bytes → V
update m k v j = if str_eq j k then v else m j

-- The maps inDegree and adj.
pub record Links : Type 0 where
  pub in_degree : Bytes → ℤ
  pub adj : Bytes → List Bytes

-- DependencyGraph, by its field `services`.
abbrev pub Services : Type 0 → Type 0
Services F = List (Bytes × ServiceSpec F)

module _ {F : Type 0} where
  -- `g.services[name]`
  unfoldable pub find : Services F → Bytes → Option (ServiceSpec F)
  find [] name = none
  find ((k, spec) ∷ g) name = if str_eq k name then some spec else find g name

  -- `g.services[name] = spec`
  unfoldable pub put : Services F → Bytes → ServiceSpec F → Services F
  put [] name spec = (name, spec) ∷ []
  put ((k, old) ∷ g) name spec = if str_eq k name then (k, spec) ∷ g else (k, old) ∷ put g name spec

  abbrev put_all : Services F → List (ServiceSpec F) → Services F
  put_all g [] = g
  put_all g (spec ∷ specs) = put_all (put g spec.name spec) specs

  -- NewDependencyGraph
  unfoldable pub new_dependency_graph : List (ServiceSpec F) → Services F
  unfolding put
  new_dependency_graph specs = put_all [] specs

  abbrev pub exists : Option (ServiceSpec F) → Bool
  exists none = false
  exists (some spec) = true

  -- One dependency of one service: `adj[dep] = append(adj[dep], name); inDegree[name]++`.
  unfoldable pub link : Services F → Bytes → Bytes → Links → Links
  link g name dep l =
      if exists (find g dep)
      then record {
        in_degree = update l.in_degree name (succ (l.in_degree name));
        adj = update l.adj dep (l.adj dep ++ name ∷ []);
      }
      else l

  unfoldable pub link_deps : Services F → Bytes → List Bytes → Links → Links
  link_deps g name [] l = l
  link_deps g name (dep ∷ deps) l = link_deps g name deps (link g name dep l)

  -- `for name, spec := range g.services`, on the services that are left.
  unfoldable pub link_all : Services F → Services F → Links → Links
  unfolding link_deps
  link_all g [] l = l
  link_all g ((name, spec) ∷ rest) l = link_all g rest (link_deps g name spec.after l)

-- inDegree[name] = 0, adj[name] = []string{}
abbrev pub no_links : Links
no_links = record { in_degree = λ name. pos 0; adj = λ name. [] }

-- The names of in-degree 0, in the order of the `range` over inDegree.
unfoldable pub ready : (Bytes → ℤ) → List Bytes → List Bytes
ready degree [] = []
ready degree (name ∷ names) =
    let rest = ready degree names in if is_zero (degree name) then name ∷ rest else rest

-- `for _, neighbor := range adj[curr]`
unfoldable pub relax : List Bytes → (Bytes → ℤ) → List Bytes → (Bytes → ℤ) × List Bytes
relax [] degree queue = (degree, queue)
relax (n ∷ ns) degree queue =
    relax ns (update degree n (pred (degree n)))
      (if is_zero (pred (degree n)) then queue ++ n ∷ [] else queue)

-- `if spec, exists := g.services[curr]; exists { ordered = append(ordered, spec) }`
abbrev pub append_spec :
    {F : Type 0} → List (ServiceSpec F) → Option (ServiceSpec F) → List (ServiceSpec F)
append_spec ordered none = ordered
append_spec ordered (some spec) = ordered ++ spec ∷ []

module _ {F : Type 0} (g : Services F) (adj : Bytes → List Bytes) where
  -- `for len(queue) > 0`; none when the fuel runs out.
  unfoldable pub kahn :
      ℕ → (Bytes → ℤ) → List Bytes → List (ServiceSpec F) → Option (List (ServiceSpec F))
  kahn fuel degree [] ordered = some ordered
  kahn zero degree (curr ∷ queue) ordered = none
  kahn (suc fuel) degree (curr ∷ queue) ordered =
      let (degree', queue') = relax (adj curr) degree queue in
      kahn fuel degree' queue' (append_spec ordered (find g curr))

-- The result: the order, or ErrCyclicDependency with the two counts of its message.
pub data Sorted (F : Type 0) : Type 0 where
  ok : List (ServiceSpec F) → Sorted F
  cyclic : ℕ → ℕ → Sorted F
  out_of_fuel : Sorted F

module _ {F : Type 0} where
  abbrev check_count : Services F → Option (List (ServiceSpec F)) → Sorted F
  check_count g none = out_of_fuel
  check_count g (some ordered) =
      if length ordered == length g then ok ordered else cyclic (length ordered) (length g)

  -- ResolveTopologicalSort, with the order of the `range` over inDegree; one round for each
  -- service is fuel enough.
  unfoldable pub resolve_topological_sort : Services F → List Bytes → Sorted F
  unfolding link_all ready kahn
  resolve_topological_sort g names =
      let l = link_all g g no_links in
      check_count g (kahn g l.adj (length g) l.in_degree (ready l.in_degree names) [])
