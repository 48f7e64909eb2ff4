-- ===== src/Secd/Policy/Process.antt =====
-- A thread and its kernel, for internal/secd: what the calls of a policy change, and which of them
-- work. A call that does not work changes nothing. On Linux these calls act on the calling thread:
-- a Process stands for one thread, which makes all of them.
use a_from_scratch_linux_use.Base.Bits.{test_bit}
use a_from_scratch_linux_use.Secd.Capabilities.{CapUserData}
use a_from_scratch_linux_use.Base.{
  ◌∷◌, ◌-◌, ◌==◌, ◌&&◌, false, not, true, ltb, if◌then◌else◌, List, ℕ, Bool,
}
use a_from_scratch_linux_use.Secd.Policy.{SockFilter, CapKernel, Kernel}

-- Which calls work.
pub record Works : Type 0 where
  pub isolation : Bool
  pub no_new_privs : Bool
  pub capset : Bool
  pub seccomp : Bool

pub record Process : Type 0 where
  pub works : Works
  pub effective : ℕ → Bool
  pub permitted : ℕ → Bool
  pub inheritable : ℕ → Bool
  pub bounding : ℕ → Bool
  pub no_new_privs : Bool
  pub filters : List (List SockFilter)

abbrev in_words : ℕ → ℕ → ℕ → Bool
in_words low high j = if ltb j 32 then test_bit low j else test_bit high (j - 32)

abbrev pub with_caps : CapUserData → CapUserData → Process → Process
with_caps l h p = record p {
  effective = in_words l.effective h.effective;
  permitted = in_words l.permitted h.permitted;
  inheritable = in_words l.inheritable h.inheritable;
}

abbrev pub if_works : Bool → Process → Process → Process × Bool
if_works true p' p = (p', true)
if_works false p' p = (p, false)

abbrev set_filter : List SockFilter → Process → Process × Bool
set_filter f p =
    if_works (p.works.seccomp && p.no_new_privs) (record p { filters = f ∷ p.filters }) p

abbrev set_privs : Process → Process × Bool
set_privs p = if_works p.works.no_new_privs (record p { no_new_privs = true }) p

-- Mounts and directories are not part of a process here.
abbrev isolate : Process → Process × Bool
isolate p = (p, p.works.isolation)

abbrev pub process_caps : CapKernel Process
process_caps = record {
  capset = λ l h p. if_works p.works.capset (with_caps l h p) p;
  capbset_drop = λ c p. record p { bounding = λ j. not (c == j) && p.bounding j };
}

abbrev pub process_kernel : Kernel Process
process_kernel = record {
  caps = process_caps;
  unshare_mounts = isolate;
  make_private = isolate;
  bind_mount = λ d. isolate;
  mkdir_all = λ d. isolate;
  pivot_root = λ d o. isolate;
  chdir = λ d. isolate;
  mount_pseudo = λ s d t. isolate;
  detach = λ d. isolate;
  remove = λ d. isolate;
  set_no_new_privs = set_privs;
  watch_sigsys = λ p. p;
  set_seccomp = set_filter;
}
