-- ===== src/Secd/Unix.antt =====
-- What internal/secd takes from golang.org/x/sys/unix and from the kernel, as parameters: the
-- constants, and a machine for classic BPF programs with its documented behaviour.
use Prim.Native.Nat.{bit_or}
use a_from_scratch_linux_use.Base.{
  ℕ, ◌≡◌, Option, some, List, ◌∷◌, ◌==◌, if◌then◌else◌, Bytes, drop,
}

-- The constants. `sys name` is unix.SYS_<NAME>.
pub record Unix : Type 0 where
  pub bpf_ld : ℕ
  pub bpf_w : ℕ
  pub bpf_abs : ℕ
  pub bpf_jmp : ℕ
  pub bpf_jeq : ℕ
  pub bpf_k : ℕ
  pub bpf_ret : ℕ
  pub audit_arch_x86_64 : ℕ
  pub seccomp_ret_allow : ℕ
  pub seccomp_ret_kill_process : ℕ
  pub seccomp_ret_trap : ℕ
  pub seccomp_ret_errno : ℕ
  pub sys : Bytes → ℕ

-- unix.SockFilter
pub record SockFilter : Type 0 where
  pub code : ℕ
  pub jt : ℕ
  pub jf : ℕ
  pub k : ℕ

-- The fields of struct seccomp_data that a filter here reads: nr at offset 0, arch at offset 4.
pub record SeccompData : Type 0 where
  pub nr : ℕ
  pub arch : ℕ

-- bpfLdW, bpfJmpEq and bpfRetK
abbrev pub ld_w : Unix → ℕ
ld_w u = bit_or (bit_or u.bpf_ld u.bpf_w) u.bpf_abs

abbrev pub jmp_eq : Unix → ℕ
jmp_eq u = bit_or (bit_or u.bpf_jmp u.bpf_jeq) u.bpf_k

abbrev pub ret_k : Unix → ℕ
ret_k u = bit_or u.bpf_ret u.bpf_k

-- A machine that runs what is left of a program on an accumulator. Jumps go forward only, so a
-- program is followed by dropping what it jumps over.
pub record Machine (u : Unix) : Type 0 where
  pub exec : List SockFilter → SeccompData → ℕ → Option ℕ
  pub exec_load_nr :
      (p : List SockFilter) (d : SeccompData) (a : ℕ)
      → exec (record { code = ld_w u; jt = 0; jf = 0; k = 0 } ∷ p) d a ≡ exec p d d.nr
  pub exec_load_arch :
      (p : List SockFilter) (d : SeccompData) (a : ℕ)
      → exec (record { code = ld_w u; jt = 0; jf = 0; k = 4 } ∷ p) d a ≡ exec p d d.arch
  pub exec_jump :
      (p : List SockFilter) (d : SeccompData) (a t f c : ℕ)
      → exec (record { code = jmp_eq u; jt = t; jf = f; k = c } ∷ p) d a
        ≡ exec (drop (if a == c then t else f) p) d a
  pub exec_return :
      (p : List SockFilter) (d : SeccompData) (a c : ℕ)
      → exec (record { code = ret_k u; jt = 0; jf = 0; k = c } ∷ p) d a ≡ some c
