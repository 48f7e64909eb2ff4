-- ===== src/Svcd/Supervisor/Run.antt =====
-- The life of one service: any sequence of the calls of internal/svcd/supervisor.go on it.
use a_from_scratch_linux_use.Base.{
  ℕ, suc, ◌+◌, ◌-◌, ◌≤◌, Bool, true, false, Option, none, some, List, [], ◌∷◌, ◌≡◌, ◌⊎◌, inl, inr,
  refl, sym, ap, subst, ◌∙◌, arith, if◌then◌else◌,
}
use a_from_scratch_linux_use.Base.Int.{ℤ, pos}
use a_from_scratch_linux_use.Svcd.Supervisor.{
  ManagedService, Os, Wait, Next, finished, restart_after, monitor, start, stop, stop_process,
  record_exit_status, terminated, stopped, starting, running, stopping, ProcessState, StartError,
  already_running, executable_not_found, no_stdout, no_stderr, not_spawned, is_running,
}
use a_from_scratch_linux_use.Svcd.Supervisor.Start.{StartResult, start-StartResult}
use a_from_scratch_linux_use.Svcd.Supervisor.Restart.{Within, MonitorResult, monitor-MonitorResult}

-- What may happen to a service: a call of Start or of Stop, the record of an exit status by the
-- reaper, and an exit that monitor handles.
pub data Event : Type 0 where
  started ended : Event
  recorded : ℤ → Event
  exited : Wait → Event

abbrev restarts : Next → ℕ
restarts finished = 0
restarts (restart_after s) = 1

-- A service in its world, and how often monitor has decided to start it again.
abbrev Life : Type 0 → Type 0 → Type 0
Life F W = ManagedService F × W × ℕ

-- A service that runs, or is being stopped, has a process.
abbrev pub HasProcess : ProcessState → Option ℕ → Type 0
HasProcess running none = ⊥
HasProcess stopping none = ⊥
HasProcess running (some pid) = Unit
HasProcess stopping (some pid) = Unit
HasProcess stopped cmd = Unit
HasProcess starting cmd = Unit
HasProcess terminated cmd = Unit

abbrev pub IsValid : {F : Type 0} → ManagedService F → Type 0
IsValid ms = HasProcess ms.state ms.cmd

module _ {F W : Type 0} (os : Os F W) where
  abbrev after_exit : W → ManagedService F × Next → Life F W
  after_exit w (ms, next) = (ms, w, restarts next)

  abbrev after_start : ManagedService F × W × Option StartError → Life F W
  after_start (ms, w, e) = (ms, w, 0)

  abbrev after_stop : ManagedService F × W → Life F W
  after_stop (ms, w) = (ms, w, 0)

  -- One event; the number is 1 if monitor decides to start the service again.
  abbrev pub happen : Event → ManagedService F → W → Life F W
  happen started ms w = after_start (start os ms w)
  happen ended ms w = after_stop (stop os ms w)
  happen (recorded code) ms w = (record_exit_status code ms, w, 0)
  happen (exited x) ms w = after_exit w (monitor ms x)

  -- All the events, one after the other.
  unfoldable pub run : List Event → ManagedService F → W → Life F W
  run [] ms w = (ms, w, 0)
  run (e ∷ es) ms w =
      let now = happen e ms w in let rest = run es now.0 now.1 in (rest.0, rest.1, now.2 + rest.2)

  -- How the restart count and the specification develop over one event.
  abbrev pub Counts : ManagedService F → Life F W → Type 0
  Counts ms (ms', w', n) =
      (ms'.spec ≡ ms.spec)
      × (((n ≡ 0) × (ms.restart_count ≤ ms'.restart_count))
          ⊎ ((n ≡ 1)
              × (ms'.restart_count ≡ ms.restart_count + 1)
              × Within ms.spec.max_restarts (ms.restart_count + 1)))

  monitor-Counts :
      (ms : ManagedService F) (w : W) (x : Wait) (r : ManagedService F × Next)
      → MonitorResult ms x r
      → Counts ms (after_exit w r)
  monitor-Counts ms w x (ms', finished) (inl h) =
      subst (λ t. Counts ms (t, w, 0)) (sym h.1) (refl, inl (refl, omega arith))
  monitor-Counts ms w x (ms', finished) (inr h) =
      subst (λ t. Counts ms (t, w, 0)) (sym h.1) (refl, inl (refl, omega arith))
  monitor-Counts ms w x (ms', restart_after s) (wanted, allowed, e, f) =
      subst (λ t. Counts ms (t, w, 1)) (sym e) (refl, inr (refl, refl, allowed))

  start-Counts :
      (ms : ManagedService F) (w : W) (r : ManagedService F × W × Option StartError)
      → StartResult os ms w r
      → Counts ms (after_start r)
  start-Counts ms w (ms', w', none) (h, (path, u, pid, found, spawned, e)) =
      subst (λ t. Counts ms (t, w', 0)) (sym e) (refl, inl (refl, omega arith))
  start-Counts ms w (ms', w', some already_running) h =
      subst (λ t. Counts ms (t, w', 0)) (sym h.1) (refl, inl (refl, omega arith))
  start-Counts ms w (ms', w', some executable_not_found) (h, found, k, e) =
      subst (λ t. Counts ms (t, w', 0)) (sym e) (refl, inl (refl, omega arith))
  start-Counts ms w (ms', w', some no_stdout) h =
      subst (λ t. Counts ms (t, w', 0)) (sym h.1) (refl, inl (refl, omega arith))
  start-Counts ms w (ms', w', some no_stderr) h =
      subst (λ t. Counts ms (t, w', 0)) (sym h.1) (refl, inl (refl, omega arith))
  start-Counts ms w (ms', w', some not_spawned) h =
      subst (λ t. Counts ms (t, w', 0)) (sym h.1) (refl, inl (refl, omega arith))

  stop_process-Counts :
      (ms : ManagedService F) (w : W) (cmd : Option ℕ)
      → Counts ms (after_stop (stop_process os ms w cmd))
  unfolding stop_process
  stop_process-Counts ms w none = (refl, inl (refl, omega arith))
  stop_process-Counts ms w (some pid) = (refl, inl (refl, omega arith))

  stop-Counts : (ms : ManagedService F) (w : W) → Counts ms (after_stop (stop os ms w))
  unfolding stop
  stop-Counts ms w = branch (is_running ms.state)
    where
      branch :
          (b : Bool) → Counts ms (after_stop (if b then stop_process os ms w ms.cmd else (ms, w)))
      branch true = stop_process-Counts ms w ms.cmd
      branch false = (refl, inl (refl, omega arith))

  pub happen-Counts : (e : Event) (ms : ManagedService F) (w : W) → Counts ms (happen e ms w)
  unfolding record_exit_status
  happen-Counts started ms w = start-Counts ms w (start os ms w) (start-StartResult os ms w)
  happen-Counts ended ms w = stop-Counts ms w
  happen-Counts (recorded code) ms w = (refl, inl (refl, omega arith))
  happen-Counts (exited x) ms w = monitor-Counts ms w x (monitor ms x) (monitor-MonitorResult ms x)

  Within-limit :
      (limit : ℤ) (n count : ℕ) → limit ≡ pos (suc n) → Within limit count → count ≤ suc n
  Within-limit limit n count h k = omega (arith, subst (λ z. Within z count) h k)

  -- With a limit of n > 0, monitor decides at most n times in the whole life of a service to start
  -- it again, less the restarts counted before, whatever happens and in whatever order: neither
  -- time nor a start by hand gives a new budget.
  pub run-restarts_le :
      (es : List Event) (ms : ManagedService F) (w : W) (n : ℕ)
      → ms.spec.max_restarts ≡ pos (suc n)
      → (run es ms w).2 ≤ suc n - ms.restart_count
  unfolding run
  run-restarts_le [] ms w n h = omega arith
  run-restarts_le (e ∷ es) ms w n h =
      let now = happen e ms w in
      let step = happen-Counts e ms w in
      let rest = run-restarts_le es now.0 now.1 n (ap (λ s. s.max_restarts) step.0 ∙ h) in
      elim step.1 [
        | inl quiet ↦ omega (arith, quiet, rest)
        | inr again ↦ omega (
          arith,
          again,
          rest,
          Within-limit ms.spec.max_restarts n (ms.restart_count + 1) h again.2,
        )
      ]

  monitor-IsValid :
      (ms : ManagedService F) (w : W) (x : Wait) (r : ManagedService F × Next)
      → MonitorResult ms x r
      → IsValid (after_exit w r).0
  monitor-IsValid ms w x (ms', finished) (inl h) = subst IsValid (sym h.1) tt
  monitor-IsValid ms w x (ms', finished) (inr h) = subst IsValid (sym h.1) tt
  monitor-IsValid ms w x (ms', restart_after s) (wanted, allowed, e, f) = subst IsValid (sym e) tt

  start-IsValid :
      (ms : ManagedService F) (w : W) (r : ManagedService F × W × Option StartError)
      → IsValid ms
      → StartResult os ms w r
      → IsValid (after_start r).0
  start-IsValid ms w (ms', w', none) v (h, (path, u, pid, found, spawned, e)) =
      subst IsValid (sym e) tt
  start-IsValid ms w (ms', w', some already_running) v h = subst IsValid (sym h.1) v
  start-IsValid ms w (ms', w', some executable_not_found) v (h, found, k, e) =
      subst IsValid (sym e) tt
  start-IsValid ms w (ms', w', some no_stdout) v h = subst IsValid (sym h.1) tt
  start-IsValid ms w (ms', w', some no_stderr) v h = subst IsValid (sym h.1) tt
  start-IsValid ms w (ms', w', some not_spawned) v h = subst IsValid (sym h.1) tt

  stop_process-IsValid :
      (ms : ManagedService F) (w : W) (cmd : Option ℕ)
      → ms.cmd ≡ cmd
      → IsValid ms
      → IsValid (stop_process os ms w cmd).0
  unfolding stop_process
  stop_process-IsValid ms w none e v = v
  stop_process-IsValid ms w (some pid) e v = subst (HasProcess stopping) (sym e) tt

  stop-IsValid : (ms : ManagedService F) (w : W) → IsValid ms → IsValid (stop os ms w).0
  unfolding stop
  stop-IsValid ms w v = branch (is_running ms.state)
    where
      branch : (b : Bool) → IsValid (if b then stop_process os ms w ms.cmd else (ms, w)).0
      branch true = stop_process-IsValid ms w ms.cmd refl v
      branch false = v

  pub happen-IsValid :
      (e : Event) (ms : ManagedService F) (w : W) → IsValid ms → IsValid (happen e ms w).0
  unfolding record_exit_status
  happen-IsValid started ms w v = start-IsValid ms w (start os ms w) v (start-StartResult os ms w)
  happen-IsValid ended ms w v = stop-IsValid ms w v
  happen-IsValid (recorded code) ms w v = v
  happen-IsValid (exited x) ms w v =
      monitor-IsValid ms w x (monitor ms x) (monitor-MonitorResult ms x)
