-- ===== src/Svcd/Supervisor/Halts.antt =====
-- What a Start that succeeds, and a Stop, leave behind.
use a_from_scratch_linux_use.Svcd.Supervisor.Start.{start-StartResult, StartResult}
use a_from_scratch_linux_use.Svcd.Supervisor.Run.{HasProcess, IsValid}
use a_from_scratch_linux_use.Svcd.Supervisor.{
  terminated, running, stopping, starting, stopped, stop_process, ProcessState, is_running,
  StartError, start, stop, ManagedService, Os,
}
use a_from_scratch_linux_use.Base.{
  subst, refl, ap, some, if◌then◌else◌, Bool, true, false, none, ◌≡◌, Option, ℕ,
}

false_ne_true : false ≡ true → ⊥
false_ne_true h = cc

module _ {F W : Type 0} (os : Os F W) where
  running-of :
      (ms : ManagedService F) (w : W) (r : ManagedService F × W × Option StartError)
      → StartResult os ms w r
      → r.2 ≡ none
      → (r.0.spec ≡ ms.spec) × (is_running r.0.state ≡ true)
  running-of ms w (ms', w', some e) h k = cc
  running-of ms w (ms', w', none) (h, (path, u, pid, found, spawned, e)) k =
      (ap (λ m. m.spec) e, ap (λ m. is_running m.state) e)

  -- A start without an error leaves the service running.
  pub start-running :
      (ms : ManagedService F) (w : W)
      → (start os ms w).2 ≡ none
      → ((start os ms w).0.spec ≡ ms.spec) × (is_running (start os ms w).0.state ≡ true)
  start-running ms w k = running-of ms w (start os ms w) (start-StartResult os ms w) k

  running-process : (s : ProcessState) → is_running s ≡ true → HasProcess s none → ⊥
  running-process running r v = v
  running-process stopped r v = elim (false_ne_true r) [ ]
  running-process starting r v = elim (false_ne_true r) [ ]
  running-process stopping r v = v
  running-process terminated r v = elim (false_ne_true r) [ ]

  stop_process-halts :
      (ms : ManagedService F) (w : W) (o : Option ℕ)
      → ms.cmd ≡ o
      → is_running ms.state ≡ true
      → IsValid ms
      → is_running (stop_process os ms w o).0.state ≡ false
  unfolding stop_process
  stop_process-halts ms w none e r v =
      elim (running-process ms.state r (subst (HasProcess ms.state) e v)) [ ]
  stop_process-halts ms w (some pid) e r v = refl

  -- A valid service is not in the state running behind a Stop.
  pub stop-halts :
      (ms : ManagedService F) (w : W) → IsValid ms → is_running (stop os ms w).0.state ≡ false
  unfolding stop
  stop-halts ms w v = branch (is_running ms.state) refl
    where
      branch :
          (b : Bool)
          → is_running ms.state ≡ b
          → is_running (if b then stop_process os ms w ms.cmd else (ms, w)).0.state ≡ false
      branch true e = stop_process-halts ms w ms.cmd refl e v
      branch false e = e
