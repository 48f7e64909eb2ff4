-- ===== src/KarimSvcd/Main.antt =====
-- main of cmd/karim-svcd/main.go: the start of the services of a directory, the reaper and the
-- shutdown. The set-up of storage and network and the listeners in front of it are left out.
use a_from_scratch_linux_use.Svcd.Graph.{
  resolve_topological_sort, new_dependency_graph, out_of_fuel, cyclic, ok, Services, Sorted,
}
use a_from_scratch_linux_use.Svcd.Spec.{ServiceSpec}
use a_from_scratch_linux_use.Svcd.Config.Lines.{panicked, parsed, rejected, Outcome}
use a_from_scratch_linux_use.KarimSvcd.Bridge.{Calls}
use a_from_scratch_linux_use.Svcd.Supervisor.{
  new_managed_service, record_exit_status, ManagedService, Os,
}
use a_from_scratch_linux_use.KarimSvcd.Store.{start_at, stop_at, add_service, set_at, deref, State}
use a_from_scratch_linux_use.Base.Int.{pos, ℤ}
use a_from_scratch_linux_use.Base.{
  length, [], if◌then◌else◌, ◌∷◌, ◌==◌, none, false, ◌+◌, some, Bytes, Bool, List, Option, ℕ,
}

-- syscall.WaitStatus of a child that has ended.
pub data WaitStatus : Type 0 where
  exit_status : ℤ → WaitStatus
  signaled : ℕ → WaitStatus

-- The exit code that is recorded.
unfoldable pub recorded_code : WaitStatus → ℤ
recorded_code (exit_status code) = code
recorded_code (signaled signal) = pos (128 + signal)

-- What becomes of the program before its loop.
pub data Startup (F W : Type 0) : Type 0 where
  supervising : State F W → Startup F W
  exit_one : Startup F W
  crashed : Startup F W
  no_order : Startup F W

abbrev has_pid : {F : Type 0} → ℕ → Option (ManagedService F) → Bool
has_pid pid none = false
has_pid pid (some ms) = elim ms.cmd [ none ↦ false | some q ↦ q == pid ]

-- The loop over the map for a process id: the service that has it.
unfoldable pub service_of_pid :
    {F : Type 0} → List (ManagedService F) → List (Bytes × ℕ) → ℕ → Option ℕ
service_of_pid services [] pid = none
service_of_pid services ((name, i) ∷ managed) pid =
    if has_pid pid (deref services i) then some i else service_of_pid services managed pid

module _ {F W : Type 0} where
  abbrev pub record_at : WaitStatus → Option ℕ → State F W → State F W
  record_at status none st = st
  record_at status (some i) st = elim (deref st.services i) [
    | none ↦ st
    | some ms ↦ record st {
      services = set_at st.services i (record_exit_status (recorded_code status) ms);
    }
  ]

  -- SIGCHLD: the children that Wait4 returns, up to the first that is none.
  unfoldable pub reap : List (ℕ × WaitStatus) → State F W → State F W
  reap [] st = st
  reap ((pid, status) ∷ children) st =
      reap children (record_at status (service_of_pid st.services st.managed pid) st)

  module _ (os : Os F W) where
    -- The loop over the services in their order.
    unfoldable pub start_all : Bool → List (ServiceSpec F) → State F W → State F W
    start_all has_cgroup [] st = st
    start_all has_cgroup (spec ∷ specs) st =
        let added = add_service (new_managed_service spec has_cgroup) st in
        start_all has_cgroup specs (start_at os (length st.services) added).0

    -- SIGINT and SIGTERM: every service of the map.
    unfoldable pub stop_all : List (Bytes × ℕ) → State F W → State F W
    stop_all [] st = st
    stop_all ((name, i) ∷ managed) st = stop_all managed (stop_at os i st)

    abbrev pub ordered : Bool → Sorted F → State F W → Startup F W
    ordered has_cgroup (ok specs) st = supervising (start_all has_cgroup specs st)
    ordered has_cgroup (cyclic n m) st = exit_one
    ordered has_cgroup out_of_fuel st = no_order

    abbrev pub started_up :
        Bool → Outcome (List (ServiceSpec F)) → (Services F → List Bytes) → W → Startup F W
    started_up has_cgroup panicked range w = crashed
    started_up has_cgroup (rejected e) range w =
        supervising (record { services = []; managed = []; world = w })
    started_up has_cgroup (parsed []) range w =
        supervising (record { services = []; managed = []; world = w })
    started_up has_cgroup (parsed (spec ∷ specs)) range w =
        let g = new_dependency_graph (spec ∷ specs) in
        ordered has_cgroup (resolve_topological_sort g (range g))
          (record { services = []; managed = []; world = w })

  -- Steps 3 to 7 of main over what LoadServiceDir returns; `range` is the order in which one range
  -- over a map runs.
  unfoldable pub start_up :
      {H : Type 0}
      → Calls F W H
      → Outcome (List (ServiceSpec F))
      → (Services F → List Bytes)
      → W
      → Startup F W
  start_up c specs range w =
      let (w', has_cgroup) = c.new_cgroup_manager w in started_up c.os has_cgroup specs range w'
