-- ===== src/Svcd/Tests.antt =====
-- Concrete graphs of services, and the theorems about them at concrete inputs.
use a_from_scratch_linux_use.Base.{
  ℕ, ◌<◌, ◌≡◌, ◌≢◌, refl, subst, true, List, [], ◌∷◌, arith, Bytes, str, length, str_eq,
}
use a_from_scratch_linux_use.Base.Int.{pos}
use a_from_scratch_linux_use.Svcd.Spec.{ServiceSpec}
use a_from_scratch_linux_use.Svcd.Graph.{
  Services, find, link, relax, ok, cyclic, out_of_fuel, new_dependency_graph,
  resolve_topological_sort,
}
use a_from_scratch_linux_use.Svcd.Graph.Build.{keys, IsGraph, new_dependency_graph-IsGraph}
use a_from_scratch_linux_use.Svcd.Graph.Count.{occ}
use a_from_scratch_linux_use.Svcd.Graph.Order.{names, Enumerates}
use a_from_scratch_linux_use.Svcd.Graph.Result.{
  IsStartOrder, HasCycle, resolve-IsStartOrder, resolve_terminates,
}
use a_from_scratch_linux_use.Svcd.Graph.Cycle.{resolve-cyclic-HasCycle}

abbrev service : Bytes → List Bytes → ServiceSpec ℕ
service n deps = record {
  name = n;
  exec = str "/bin/true";
  args = [];
  env = [];
  directory = [];
  root_dir = [];
  after = deps;
  memory_limit = pos 0;
  cpu_quota = 0;
  restart = str "never";
  max_restarts = pos 0;
  seccomp_profile = str "strict";
  capabilities_add = [];
  capabilities_drop = [];
  no_new_privs = true;
}

abbrev web : ServiceSpec ℕ
web = service (str "web") (str "db" ∷ str "nosuch" ∷ str "db" ∷ [])

abbrev db : ServiceSpec ℕ
db = service (str "db") []

abbrev sample : Services ℕ
sample = (str "web", web) ∷ (str "db", db) ∷ []

abbrev sample_range : List Bytes
sample_range = str "db" ∷ str "web" ∷ []

sample_built : new_dependency_graph (web ∷ db ∷ []) ≡ sample
unfolding new_dependency_graph str_eq
sample_built = refl

sample-IsGraph : IsGraph sample
sample-IsGraph = subst IsGraph sample_built (new_dependency_graph-IsGraph (web ∷ db ∷ []))

sample-Enumerates : Enumerates sample sample_range
sample-Enumerates x = omega arith

sample_sorted : resolve_topological_sort sample sample_range ≡ ok (db ∷ web ∷ [])
unfolding resolve_topological_sort link find relax str_eq
sample_sorted = refl

resolve-IsStartOrder_example :
    IsStartOrder sample [] (db ∷ web ∷ [])
    × ((x : Bytes) → occ x (names (db ∷ web ∷ [])) ≡ occ x (keys sample))
resolve-IsStartOrder_example =
    resolve-IsStartOrder sample sample_range (db ∷ web ∷ []) sample-IsGraph sample-Enumerates
      sample_sorted

resolve_terminates_example : resolve_topological_sort sample sample_range ≢ out_of_fuel
resolve_terminates_example = resolve_terminates sample sample_range sample-IsGraph sample-Enumerates

-- Two services that wait for one another, and one that waits for them.
abbrev left : ServiceSpec ℕ
left = service (str "left") (str "right" ∷ [])

abbrev right : ServiceSpec ℕ
right = service (str "right") (str "left" ∷ [])

abbrev tied : Services ℕ
tied = (str "left", left) ∷ (str "db", db) ∷ (str "right", right) ∷ []

abbrev tied_range : List Bytes
tied_range = str "left" ∷ str "db" ∷ str "right" ∷ []

tied_built : new_dependency_graph (left ∷ db ∷ right ∷ []) ≡ tied
unfolding new_dependency_graph str_eq
tied_built = refl

tied-IsGraph : IsGraph tied
tied-IsGraph = subst IsGraph tied_built (new_dependency_graph-IsGraph (left ∷ db ∷ right ∷ []))

tied-Enumerates : Enumerates tied tied_range
tied-Enumerates x = refl

tied_cyclic : resolve_topological_sort tied tied_range ≡ cyclic 1 3
unfolding resolve_topological_sort link find relax str_eq
tied_cyclic = refl

resolve-cyclic-HasCycle_example : (1 < 3) × (◌≡◌ {A = ℕ} 3 (length tied)) × HasCycle tied
resolve-cyclic-HasCycle_example =
    resolve-cyclic-HasCycle tied tied_range 1 3 tied-IsGraph tied-Enumerates tied_cyclic
