-- ===== src/Secd/Policy/Sandbox.antt =====
-- When the filter of internal/secd/secd.go is in force.
use a_from_scratch_linux_use.Secd.Policy.{get_profile_filter}
use a_from_scratch_linux_use.Secd.Unix.{SockFilter, Unix}
use a_from_scratch_linux_use.Base.{◌∷◌, some, true, ◌≡◌, List, Bytes, ℕ}
use a_from_scratch_linux_use.Secd.Policy.Process.{Process}

module _ (cap : Bytes → ℕ) where
  module _ (u : Unix) where
    abbrev InForce : Bytes → Process → Type 0
    InForce profile p =
        (f : List SockFilter) × (older : List (List SockFilter)) × (get_profile_filter u profile
            u.seccomp_ret_kill_process
          ≡ some f)
        × (p.filters ≡ f ∷ older)
        × (p.no_new_privs ≡ true)
