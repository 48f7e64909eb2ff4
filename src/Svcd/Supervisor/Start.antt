-- ===== src/Svcd/Supervisor/Start.antt =====
-- What Start of internal/svcd/supervisor.go leaves behind on each of its branches.
use a_from_scratch_linux_use.Base.{
  ℕ, Bool, true, false, Option, none, some, Bytes, ◌≡◌, ◌≢◌, refl, sym, ap, subst, ◌⊎◌, inl, inr,
  if◌then◌else◌,
}
use a_from_scratch_linux_use.Base.Int.{pos}
use a_from_scratch_linux_use.Svcd.Supervisor.{
  ProcessState, stopped, starting, running, stopping, terminated, ManagedService, Command, Os,
  StartError, already_running, executable_not_found, no_stdout, no_stderr, not_spawned, wrap,
  command_of, find_executable, find_secd, launched, with_stderr, with_stdout, launch, start,
  is_running,
}

is_running_cases :
    (s : ProcessState)
    → ((s ≡ running) × (is_running s ≡ true)) ⊎ ((s ≢ running) × (is_running s ≡ false))
is_running_cases stopped = inr (cc, refl)
is_running_cases starting = inr (cc, refl)
is_running_cases running = inl (refl, refl)
is_running_cases stopping = inr (cc, refl)
is_running_cases terminated = inr (cc, refl)

module _ {F W : Type 0} (os : Os F W) where
  -- The service that Start of `ms` in `w` leaves where it succeeds.
  abbrev pub Launched : ManagedService F → W → ManagedService F → Type 0
  Launched ms w ms' =
      (exec_path : Bytes) × (w' : W) × (pid : ℕ) × (find_executable os ms.spec w ≡ some exec_path)
      × ((os.spawn (command_of ms.spec (wrap ms.spec (find_secd os w) exec_path)) w').1 ≡ some pid)
      × (ms' ≡ record ms {
        state = running;
        cmd = some pid;
        exit_code_recorded = false;
        recorded_exit_code = pos 0;
      })

  -- What Start of `ms` in `w` gives, by its error.
  abbrev pub StartResult : ManagedService F → W → ManagedService F × W × Option StartError → Type 0
  StartResult ms w (ms', w', none) = (ms.state ≢ running) × Launched ms w ms'
  StartResult ms w (ms', w', some already_running) = (ms.state ≡ running) × (ms' ≡ ms) × (w' ≡ w)
  StartResult ms w (ms', w', some executable_not_found) =
      (ms.state ≢ running)
      × (find_executable os ms.spec w ≡ none)
      × (w' ≡ w)
      × (ms'
          ≡ record ms { state = stopped; exit_code_recorded = false; recorded_exit_code = pos 0 })
  StartResult ms w (ms', w', some no_stdout) =
      (ms.state ≢ running)
      × (ms'
          ≡ record ms { state = stopped; exit_code_recorded = false; recorded_exit_code = pos 0 })
  StartResult ms w (ms', w', some no_stderr) =
      (ms.state ≢ running)
      × (ms'
          ≡ record ms { state = stopped; exit_code_recorded = false; recorded_exit_code = pos 0 })
  StartResult ms w (ms', w', some not_spawned) =
      (ms.state ≢ running)
      × (ms'
          ≡ record ms { state = stopped; exit_code_recorded = false; recorded_exit_code = pos 0 })

  abbrev begun : ManagedService F → ManagedService F
  begun ms = record ms { exit_code_recorded = false; recorded_exit_code = pos 0; state = starting }

  abbrev command_for : ManagedService F → W → Bytes → Command
  command_for ms w path = command_of ms.spec (wrap ms.spec (find_secd os w) path)

  launched-StartResult :
      (ms : ManagedService F) (w w' : W) (path : Bytes) (r : W × Option ℕ)
      → ms.state ≢ running
      → find_executable os ms.spec w ≡ some path
      → os.spawn (command_for ms w path) w' ≡ r
      → StartResult ms w (launched os (begun ms) r)
  unfolding launched
  launched-StartResult ms w w' path (w2, none) h found e = (h, refl)
  launched-StartResult ms w w' path (w2, some pid) h found e =
      (h, (path, w', pid, found, ap (λ t. t.1) e, refl))

  with_stderr-StartResult :
      (ms : ManagedService F) (w : W) (path : Bytes) (r : W × Bool)
      → ms.state ≢ running
      → find_executable os ms.spec w ≡ some path
      → StartResult ms w (with_stderr os (begun ms) (command_for ms w path) r)
  unfolding with_stderr
  with_stderr-StartResult ms w path (w', false) h found = (h, refl)
  with_stderr-StartResult ms w path (w', true) h found =
      launched-StartResult ms w w' path (os.spawn (command_for ms w path) w') h found refl

  with_stdout-StartResult :
      (ms : ManagedService F) (w : W) (path : Bytes) (r : W × Bool)
      → ms.state ≢ running
      → find_executable os ms.spec w ≡ some path
      → StartResult ms w (with_stdout os (begun ms) (command_for ms w path) r)
  unfolding with_stdout
  with_stdout-StartResult ms w path (w', false) h found = (h, refl)
  with_stdout-StartResult ms w path (w', true) h found =
      with_stderr-StartResult ms w path (os.stderr_pipe w') h found

  launch-StartResult :
      (ms : ManagedService F) (w : W) (found : Option Bytes)
      → ms.state ≢ running
      → find_executable os ms.spec w ≡ found
      → StartResult ms w (launch os (begun ms) w found)
  unfolding launch
  launch-StartResult ms w none h e = (h, e, refl, refl)
  launch-StartResult ms w (some path) h e = with_stdout-StartResult ms w path (os.stdout_pipe w) h e

  abbrev Branch : ManagedService F → W → Bool → Type 0
  Branch ms w b = StartResult ms w (
      if b
      then (ms, w, some already_running)
      else launch os (begun ms) w (find_executable os ms.spec w))

  -- Start on every branch: a running service is left alone, any other error, a failed launch
  -- included, leaves the service stopped with the process it had, and without an error it runs
  -- under the process id that the spawn of its command returned.
  pub start-StartResult : (ms : ManagedService F) (w : W) → StartResult ms w (start os ms w)
  unfolding start
  start-StartResult ms w = elim (is_running_cases ms.state) [
    | inl h ↦ subst (Branch ms w) (sym h.1) (h.0, refl, refl)
    | inr h ↦
        subst (Branch ms w) (sym h.1)
          (launch-StartResult ms w (find_executable os ms.spec w) h.0 refl)
  ]
