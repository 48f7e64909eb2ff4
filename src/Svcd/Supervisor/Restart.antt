-- ===== src/Svcd/Supervisor/Restart.antt =====
-- The restart policy of monitor in internal/svcd/supervisor.go, over one exit and over a run.
use a_from_scratch_linux_use.Base.{
  ℕ, zero, suc, ◌+◌, ◌*◌, ◌≤◌, min, Bool, true, false, Option, none, some, Bytes, str, str_eq_iff,
  ◌≡◌, ◌≢◌, ◌⊎◌, ◌↔◌, inl, inr, refl, if◌then◌else◌, arith, sym, ap, ap₂, subst, ◌∙◌, not,
}
use a_from_scratch_linux_use.Base.Int.{ℤ, pos, negsuc}
use a_from_scratch_linux_use.Svcd.Spec.{ServiceSpec}
use a_from_scratch_linux_use.Svcd.Supervisor.{
  ManagedService, Os, Wait, Next, finished, restart_after, backoff, monitor, should_restart, stop,
  exceeded, exit_code, terminated, stop_process, is_running, stop_process, is_running,
}

backoff_late : (n : ℕ) → backoff (suc (suc (suc (suc (suc (suc n)))))) ≡ 30
unfolding backoff
backoff_late n = ground arith

-- The first wait before a restart is one second, and the wait doubles from one attempt to the next
-- until it reaches half a minute, where it stays.
pub backoff_schedule :
    (n : ℕ) → (backoff 1 ≡ 1) × (backoff (suc (suc n)) ≡ min (2 * backoff (suc n)) 30)
unfolding backoff
backoff_schedule zero = (refl, refl)
backoff_schedule (suc zero) = (refl, refl)
backoff_schedule (suc (suc zero)) = (refl, refl)
backoff_schedule (suc (suc (suc zero))) = (refl, refl)
backoff_schedule (suc (suc (suc (suc zero)))) = (refl, refl)
backoff_schedule (suc (suc (suc (suc (suc n))))) =
    (refl, omega (arith, backoff_late n, backoff_late (suc n)))

false-true : false ≡ true → ⊥
false-true h = cc

-- The policies that start a service again behind an exit with this code.
abbrev pub Wanted : Bytes → ℤ → Type 0
Wanted policy code = (policy ≡ str "always") ⊎ ((policy ≡ str "on-failure") × (code ≢ pos 0))

-- The limit allows this many restarts; a limit of 0 or less allows any number.
abbrev pub Within : ℤ → ℕ → Type 0
Within (pos n) count = (n ≡ 0) ⊎ (count ≤ n)
Within (negsuc n) count = Unit

should_restart_iff :
    (policy : Bytes) (code : ℤ) → (should_restart policy code ≡ true) ↔ Wanted policy code
unfolding should_restart
should_restart_iff policy (pos zero) =
    ground (arith, str_eq_iff policy (str "always"), str_eq_iff policy (str "on-failure"))
should_restart_iff policy (pos (suc n)) =
    ground (arith, str_eq_iff policy (str "always"), str_eq_iff policy (str "on-failure"))
should_restart_iff policy (negsuc n) =
    ground (arith, str_eq_iff policy (str "always"), str_eq_iff policy (str "on-failure"))

exceeded_iff : (limit : ℤ) (count : ℕ) → (exceeded limit count ≡ false) ↔ Within limit count
exceeded_iff (pos n) count = ground arith
exceeded_iff (negsuc n) count = (λ h. tt, λ h. refl)

module _ {F : Type 0} where
  abbrev LimitAllows : ManagedService F → Type 0
  LimitAllows ms = Within ms.spec.max_restarts (ms.restart_count + 1)

  abbrev ended : ManagedService F → ManagedService F
  ended ms = record ms { state = terminated }

  abbrev counted : ManagedService F → ManagedService F
  counted ms = record ms { state = terminated; restart_count = ms.restart_count + 1 }

  -- What monitor gives, by what it does next.
  abbrev pub MonitorResult : ManagedService F → Wait → ManagedService F × Next → Type 0
  MonitorResult ms w (ms', finished) =
      ((¬ Wanted ms.spec.restart (exit_code ms w)) × (ms' ≡ ended ms))
      ⊎ ((¬ LimitAllows ms) × (ms' ≡ counted ms))
  MonitorResult ms w (ms', restart_after s) =
      Wanted ms.spec.restart (exit_code ms w)
      × LimitAllows ms
      × (ms' ≡ counted ms)
      × (s ≡ backoff (ms.restart_count + 1))

  branch-MonitorResult :
      (ms : ManagedService F) (w : Wait) (wanted too_many : Bool)
      → (wanted ≡ true) ↔ Wanted ms.spec.restart (exit_code ms w)
      → (too_many ≡ false) ↔ LimitAllows ms
      → MonitorResult ms w (
          if not wanted
          then (ended ms, finished)
          else if too_many
          then (counted ms, finished)
          else (counted ms, restart_after (backoff (ms.restart_count + 1))))
  branch-MonitorResult ms w false c h k = inl ((λ x. false-true (h.1 x)), refl)
  branch-MonitorResult ms w true true h k = inr ((λ x. false-true (sym (k.1 x))), refl)
  branch-MonitorResult ms w true false h k = (h.0 refl, k.0 refl, refl, refl)

  -- After an exit, one that Stop has asked for included, the service is terminated, and it is
  -- started again, after the backoff, exactly where the policy wants it and the limit on all
  -- restarts since the service was made allows one more.
  pub monitor-MonitorResult : (ms : ManagedService F) (w : Wait) → MonitorResult ms w (monitor ms w)
  unfolding monitor
  monitor-MonitorResult ms w =
      branch-MonitorResult ms w (should_restart ms.spec.restart (exit_code ms w))
        (exceeded ms.spec.max_restarts (ms.restart_count + 1))
        (should_restart_iff ms.spec.restart (exit_code ms w))
        (exceeded_iff ms.spec.max_restarts (ms.restart_count + 1))

  always_next :
      (ms : ManagedService F) (x : Wait) (r : ManagedService F × Next)
      → ms.spec.restart ≡ str "always"
      → LimitAllows ms
      → MonitorResult ms x r
      → r.1 ≡ restart_after (backoff (ms.restart_count + 1))
  always_next ms x (ms', finished) h k (inl u) = elim (u.0 (inl h)) [ ]
  always_next ms x (ms', finished) h k (inr u) = elim (u.0 k) [ ]
  always_next ms x (ms', restart_after s) h k u = ap restart_after u.3

module _ {F W : Type 0} (os : Os F W) where
  abbrev Same : ManagedService F → ManagedService F → Type 0
  Same ms ms' = (ms'.spec ≡ ms.spec) × (ms'.restart_count ≡ ms.restart_count)

  stop_process-Same :
      (ms : ManagedService F) (w : W) (cmd : Option ℕ) → Same ms (stop_process os ms w cmd).0
  unfolding stop_process
  stop_process-Same ms w none = (refl, refl)
  stop_process-Same ms w (some pid) = (refl, refl)

  stop-Same : (ms : ManagedService F) (w : W) → Same ms (stop os ms w).0
  unfolding stop
  stop-Same ms w = branch (is_running ms.state)
    where
      branch : (b : Bool) → Same ms (if b then stop_process os ms w ms.cmd else (ms, w)).0
      branch true = stop_process-Same ms w ms.cmd
      branch false = (refl, refl)

  -- Stop does not suspend the policy: a service with the policy "always" that was asked to stop is
  -- started again after its exit, as long as the limit allows it.
  pub stop-always_restarts :
      (ms : ManagedService F) (w : W) (x : Wait)
      → ms.spec.restart ≡ str "always"
      → Within ms.spec.max_restarts (ms.restart_count + 1)
      → (monitor (stop os ms w).0 x).1 ≡ restart_after (backoff (ms.restart_count + 1))
  stop-always_restarts ms w x h k =
      let ms' = (stop os ms w).0 in
      let same = stop-Same ms w in
      always_next ms' x (monitor ms' x) (ap (λ s. s.restart) same.0 ∙ h)
        (subst {A = ServiceSpec F × ℕ} (λ t. Within t.0.max_restarts (t.1 + 1))
          (sym (ap₂ (λ a b. (a, b)) same.0 same.1)) k)
        (monitor-MonitorResult ms' x)
      ∙ ap (λ n. restart_after (backoff (n + 1))) same.1
