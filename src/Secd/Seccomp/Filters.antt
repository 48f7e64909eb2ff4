-- ===== src/Secd/Seccomp/Filters.antt =====
-- What the compiled filters do on a machine that runs them.
use a_from_scratch_linux_use.Base.{
  mem, ℕ, suc, ◌+◌, ◌-◌, ◌%◌, ◌<◌, ◌≡◌, refl, ap, ◌∙◌, some, List, [], ◌∷◌, ◌++◌, ◌==◌,
  if◌then◌else◌, arith, length, drop, Bool-cases, inl, inr,
}
use a_from_scratch_linux_use.Secd.Unix.{Unix, SockFilter, SeccompData, Machine}
use a_from_scratch_linux_use.Secd.Seccomp.{
  prologue, tests, epilogue, action_allow, action_kill_process, compile_whitelist_filter,
  compile_blacklist_filter,
}

drop-length_two {ℓ} :
    {A : Type ℓ} (xs : List A) (a b : A) → drop (suc (length xs)) (xs ++ a ∷ b ∷ []) ≡ b ∷ []
drop-length_two [] a b = refl
drop-length_two (x ∷ xs) a b = drop-length_two xs a b

module _ (u : Unix) where
  length-tests : (n i : ℕ) (nums : List ℕ) → length (tests u n i nums) ≡ length nums
  unfolding tests
  length-tests n i [] = refl
  length-tests n i (num ∷ nums) = ap suc (length-tests n (i + 1) nums)

  drop-tests :
      (n i : ℕ) (nums : List ℕ) (un ma : SockFilter)
      → drop (suc (length nums)) (tests u n i nums ++ un ∷ ma ∷ []) ≡ ma ∷ []
  drop-tests n i nums un ma =
      rw (← length-tests n i nums) (drop-length_two (tests u n i nums) un ma)

module _ {u : Unix} (m : Machine u) where
  -- The tests and the two returns behind them, where the jumps fit in a uint8.
  exec-tests :
      (n i : ℕ) (nums : List ℕ) (d : SeccompData) (a un ma : ℕ)
      → i + length nums ≡ n
      → length nums < 256
      → m.exec (tests u n i nums ++ epilogue u un ma) d a ≡ some (if mem a nums then ma else un)
  unfolding tests
  exec-tests n i [] d a un ma e h = m.exec_return _ d a un
  exec-tests n i (num ∷ nums) d a un ma e h =
      let jump =
        m.exec_jump (tests u n (i + 1) nums ++ epilogue u un ma) d a ((n - i) % 256) 0 num in
      let far : (n - i) % 256 ≡ suc (length nums) = omega arith in
      elim (Bool-cases (a == num)) [
        | inl hit ↦ rw hit (jump ∙ rw (hit, far, drop-tests) (m.exec_return [] d a ma))
        | inr miss ↦
            rw miss
              (jump ∙ rw miss (exec-tests n (i + 1) nums d a un ma (omega arith) (omega arith)))
      ]

  -- The prologue kills the process on another architecture, and goes on with the syscall number.
  exec-prologue :
      (rest : List SockFilter) (d : SeccompData) (a : ℕ)
      → m.exec (prologue u ++ rest) d a ≡ (
          if d.arch == u.audit_arch_x86_64
          then m.exec rest d d.nr
          else some (action_kill_process u))
  exec-prologue rest d a =
      m.exec_load_arch _ d a
      ∙ m.exec_jump _ d d.arch 1 0 u.audit_arch_x86_64
      ∙ elim (Bool-cases (d.arch == u.audit_arch_x86_64)) [
        | inl same ↦ rw same (m.exec_load_nr rest d d.arch)
        | inr other ↦ rw other (m.exec_return _ d d.arch (action_kill_process u))
      ]

  -- A whitelist of at most 255 syscalls, run on any syscall: another architecture is killed, a
  -- syscall of the list is allowed, and every other one gets the default action.
  pub exec-compile_whitelist_filter :
      (allowed : List ℕ) (default_action : ℕ) (d : SeccompData) (a : ℕ)
      → length allowed < 256
      → m.exec (compile_whitelist_filter u allowed default_action) d a
        ≡ some (
            if d.arch == u.audit_arch_x86_64
            then (if mem d.nr allowed then action_allow u else default_action)
            else action_kill_process u)
  unfolding compile_whitelist_filter
  exec-compile_whitelist_filter allowed default_action d a h =
      exec-prologue _ d a
      ∙ rw
          (exec-tests (length allowed) 0 allowed d d.nr default_action (action_allow u)
            (omega arith) h)
          (ground arith)

  -- A blacklist of at most 255 syscalls: another architecture is killed, a syscall of the list
  -- gets the denied action, and every other one is allowed.
  pub exec-compile_blacklist_filter :
      (denied : List ℕ) (denied_action : ℕ) (d : SeccompData) (a : ℕ)
      → length denied < 256
      → m.exec (compile_blacklist_filter u denied denied_action) d a
        ≡ some (
            if d.arch == u.audit_arch_x86_64
            then (if mem d.nr denied then denied_action else action_allow u)
            else action_kill_process u)
  unfolding compile_blacklist_filter
  exec-compile_blacklist_filter denied denied_action d a h =
      exec-prologue _ d a
      ∙ rw
          (exec-tests (length denied) 0 denied d d.nr (action_allow u) denied_action (omega arith)
            h)
          (ground arith)
