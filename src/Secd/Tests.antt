-- ===== src/Secd/Tests.antt =====
-- Concrete runs of the seccomp filters, and the theorems about them at concrete inputs.
use a_from_scratch_linux_use.Base.{
  ℕ, zero, suc, ◌≡◌, refl, true, Option, none, some, List, [], ◌∷◌, ◌==◌, if◌then◌else◌, arith,
  Bytes, str, drop, one_of, str_eq, str_eq_iff, to_lower, trim_space,
}
use a_from_scratch_linux_use.Secd.Unix.{Unix, SockFilter, SeccompData, Machine}
use a_from_scratch_linux_use.Secd.Names.{syscall_names, strict_names}
use a_from_scratch_linux_use.Secd.Seccomp.{
  compile_whitelist_filter, compile_blacklist_filter, compile_from_names, get_profile_filter,
  syscall_map,
}
use a_from_scratch_linux_use.Secd.Seccomp.Filters.{
  exec-compile_whitelist_filter, exec-compile_blacklist_filter,
}
use a_from_scratch_linux_use.Secd.Seccomp.Profiles.{
  named, exec-compile_from_names, profile_denies_admin,
}

-- The place of a name in a list.
pub place : List Bytes → Bytes → ℕ
place [] s = 0
place (n ∷ names) s = if str_eq s n then 0 else suc (place names s)

place_injective :
    (names : List Bytes) (a b : Bytes)
    → one_of a names ≡ true
    → one_of b names ≡ true
    → place names a ≡ place names b
    → a ≡ b
unfolding place one_of
place_injective [] a b ha hb e = cc
place_injective (n ∷ names) a b ha hb e =
    ground (arith, str_eq_iff a n, str_eq_iff b n, place_injective names a b)

abbrev pub linux : Unix
linux = record {
  bpf_ld = 0;
  bpf_w = 0;
  bpf_abs = 0x20;
  bpf_jmp = 5;
  bpf_jeq = 0x10;
  bpf_k = 0;
  bpf_ret = 6;
  audit_arch_x86_64 = 0xC000003E;
  seccomp_ret_allow = 0x7fff0000;
  seccomp_ret_kill_process = 0x80000000;
  seccomp_ret_trap = 0x30000;
  seccomp_ret_errno = 0x50000;
  sys = place syscall_names;
}

-- An interpreter that skips `k` instructions first.
interpret : List SockFilter → ℕ → SeccompData → ℕ → Option ℕ
interpret [] k d a = none
interpret (i ∷ p) (suc k) d a = interpret p k d a
interpret (i ∷ p) zero d a =
    let next =
      interpret p (if i.code == 0x15 then (if a == i.k then i.jt else i.jf) else 0) d
        (if i.code == 0x20 then (if i.k == 4 then d.arch else d.nr) else a) in
    if i.code == 6 then some i.k else next

interpret-drop :
    (p : List SockFilter) (k : ℕ) (d : SeccompData) (a : ℕ)
    → interpret p k d a ≡ interpret (drop k p) zero d a
unfolding interpret
interpret-drop [] zero d a = refl
interpret-drop [] (suc k) d a = refl
interpret-drop (i ∷ p) zero d a = refl
interpret-drop (i ∷ p) (suc k) d a = interpret-drop p k d a

abbrev interpreter : Machine linux
unfolding interpret
interpreter = record {
  exec = λ p d a. interpret p 0 d a;
  exec_load_nr = λ p d a. refl;
  exec_load_arch = λ p d a. refl;
  exec_jump = λ p d a t f c. interpret-drop p (if a == c then t else f) d a;
  exec_return = λ p d a c. refl;
}

abbrev call : ℕ → SeccompData
call n = record { nr = n; arch = 0xC000003E }

exec-compile_whitelist_filter_example :
    interpreter.exec (compile_whitelist_filter linux (1 ∷ 3 ∷ []) 9) (call 3) 0 ≡ some 0x7fff0000
exec-compile_whitelist_filter_example =
    exec-compile_whitelist_filter interpreter (1 ∷ 3 ∷ []) 9 (call 3) 0 (omega arith)

exec-compile_blacklist_filter_example :
    interpreter.exec (compile_blacklist_filter linux (1 ∷ 3 ∷ []) 9) (call 3) 0 ≡ some 9
exec-compile_blacklist_filter_example =
    exec-compile_blacklist_filter interpreter (1 ∷ 3 ∷ []) 9 (call 3) 0 (omega arith)

exec-compile_from_names_example :
    interpreter.exec (compile_from_names linux (str " READ" ∷ str "nosuch" ∷ []) 9) (call 0) 0
    ≡ some (if named linux 0 (str " READ" ∷ str "nosuch" ∷ []) then 0x7fff0000 else 9)
exec-compile_from_names_example =
    exec-compile_from_names interpreter (str " READ" ∷ str "nosuch" ∷ []) 9 (call 0) 0 (omega arith)

named_read : named linux 0 (str " READ" ∷ str "nosuch" ∷ []) ≡ true
unfolding syscall_map syscall_names one_of str_eq to_lower trim_space place
named_read = refl

strict_filter :
    get_profile_filter linux (str " Strict") 9 ≡ some (compile_from_names linux strict_names 9)
unfolding get_profile_filter one_of str_eq to_lower trim_space
strict_filter = refl

profile_denies_admin_example :
    interpreter.exec (compile_from_names linux strict_names 9) (call (linux.sys (str "ptrace"))) 0
    ≡ some 9
unfolding one_of str_eq to_lower trim_space
profile_denies_admin_example =
    profile_denies_admin interpreter (str " Strict") (str "ptrace") 9
      (compile_from_names linux strict_names 9) (call (linux.sys (str "ptrace"))) 0
      (place_injective syscall_names) strict_filter refl refl refl refl
