-- ===== src/Svcd/Spec.antt =====
-- ServiceSpec of internal/svcd/config.go. The float64 of the CPU quota is a type `F`.
use a_from_scratch_linux_use.Base.{Bool, List, Bytes}
use a_from_scratch_linux_use.Base.Int.{ℤ}

pub record ServiceSpec (F : Type 0) : Type 0 where
  pub name : Bytes
  pub exec : Bytes
  pub args : List Bytes
  pub env : List Bytes
  pub directory : Bytes
  pub root_dir : Bytes
  pub after : List Bytes
  pub memory_limit : ℤ
  pub cpu_quota : F
  pub restart : Bytes
  pub max_restarts : ℤ
  pub seccomp_profile : Bytes
  pub capabilities_add : List Bytes
  pub capabilities_drop : List Bytes
  pub no_new_privs : Bool
