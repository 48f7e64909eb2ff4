-- ===== src/Secd/Seccomp.antt =====
-- internal/secd/seccomp.go: the compilers of seccomp filters, and the profiles.
pub mod Filters
pub mod Profiles
use Prim.Native.Nat.{bit_or}
use a_from_scratch_linux_use.Base.{
  mem, ℕ, suc, ◌+◌, ◌-◌, ◌%◌, Bool, true, false, ◌||◌, Option, none, some, List, [], ◌∷◌, ◌++◌,
  ◌==◌, if◌then◌else◌, Bytes, str, length, one_of, str_eq, to_lower, trim_space,
}
use a_from_scratch_linux_use.Secd.Unix.{Unix, SockFilter, ld_w, jmp_eq, ret_k}
use a_from_scratch_linux_use.Secd.Names.{
  syscall_names, strict_names, app_default_names, net_service_names,
}

module _ (u : Unix) where
  -- `SyscallMap[name]`
  unfoldable pub syscall_map : Bytes → Option ℕ
  syscall_map name = if one_of name syscall_names then some (u.sys name) else none

  -- ActionAllow, ActionKillProcess, ActionTrap and ActionErrno
  abbrev pub action_allow : ℕ
  action_allow = u.seccomp_ret_allow

  abbrev pub action_kill_process : ℕ
  action_kill_process = u.seccomp_ret_kill_process

  -- The first four instructions of both compilers: the check of the architecture, and the load
  -- of the syscall number.
  abbrev pub prologue : List SockFilter
  prologue =
      record { code = ld_w u; jt = 0; jf = 0; k = 4 }
      ∷ record { code = jmp_eq u; jt = 1; jf = 0; k = u.audit_arch_x86_64 }
      ∷ record { code = ret_k u; jt = 0; jf = 0; k = action_kill_process }
      ∷ record { code = ld_w u; jt = 0; jf = 0; k = 0 }
      ∷ []

  -- The loop over the syscalls from index `i`, with `n` of them in all; a jump is a uint8.
  unfoldable pub tests : ℕ → ℕ → List ℕ → List SockFilter
  tests n i [] = []
  tests n i (num ∷ nums) =
      record { code = jmp_eq u; jt = (n - i) % 256; jf = 0; k = num } ∷ tests n (i + 1) nums

  abbrev pub epilogue : ℕ → ℕ → List SockFilter
  epilogue unmatched matched =
      record { code = ret_k u; jt = 0; jf = 0; k = unmatched }
      ∷ record { code = ret_k u; jt = 0; jf = 0; k = matched }
      ∷ []

  -- CompileWhitelistFilter
  unfoldable pub compile_whitelist_filter : List ℕ → ℕ → List SockFilter
  unfolding tests
  compile_whitelist_filter allowed default_action =
      (prologue ++ tests (length allowed) 0 allowed) ++ epilogue default_action action_allow

  -- CompileBlacklistFilter
  unfoldable pub compile_blacklist_filter : List ℕ → ℕ → List SockFilter
  unfolding tests
  compile_blacklist_filter denied denied_action =
      (prologue ++ tests (length denied) 0 denied) ++ epilogue action_allow denied_action

  -- `if sysNum, ok := SyscallMap[...]; ok { if !seen[sysNum] {...} }`; the numbers seen are
  -- those of `nums`.
  unfoldable pub add_number : List ℕ → Option ℕ → List ℕ
  add_number nums none = nums
  add_number nums (some num) = if mem num nums then nums else nums ++ num ∷ []

  -- The loop of compileFromNames.
  unfoldable pub collect : List ℕ → List Bytes → List ℕ
  unfolding syscall_map add_number
  collect nums [] = nums
  collect nums (n ∷ names) = collect (add_number nums (syscall_map (to_lower (trim_space n)))) names

  -- compileFromNames
  unfoldable pub compile_from_names : List Bytes → ℕ → List SockFilter
  unfolding collect compile_whitelist_filter
  compile_from_names names default_action =
      compile_whitelist_filter (collect [] names) default_action

  -- GetProfileFilter; none is the error of an unknown profile.
  unfoldable pub get_profile_filter : Bytes → ℕ → Option (List SockFilter)
  get_profile_filter profile_name default_action =
      let name = to_lower (trim_space profile_name) in
      if one_of name (str "unrestricted" ∷ str "disabled" ∷ str "none" ∷ [] ∷ [])
      then some (record { code = ret_k u; jt = 0; jf = 0; k = action_allow } ∷ [])
      else if str_eq name (str "strict")
      then some (compile_from_names strict_names default_action)
      else if str_eq name (str "app-default")
      then some (compile_from_names app_default_names default_action)
      else if str_eq name (str "net-service")
      then some (compile_from_names net_service_names default_action)
      else none
