-- ===== src/Pkgd/OciSpec.antt =====
-- internal/pkgd/oci_spec.go: the part of the OCI runtime specification that a bundle carries, and
-- the bundle. A pointer that may be nil is an Option.
use a_from_scratch_linux_use.Base.{ℕ, Bool, Option, List, Bytes}
use a_from_scratch_linux_use.Base.Int.{ℤ}

pub record Root : Type 0 where
  pub path : Bytes
  pub readonly : Bool

pub record User : Type 0 where
  pub uid : ℕ
  pub gid : ℕ

pub record Rlimit : Type 0 where
  pub kind : Bytes
  pub hard : ℕ
  pub soft : ℕ

pub record LinuxCapabilities : Type 0 where
  pub bounding : List Bytes
  pub effective : List Bytes
  pub inheritable : List Bytes
  pub permitted : List Bytes
  pub ambient : List Bytes

pub record OciProcess : Type 0 where
  pub terminal : Bool
  pub user : User
  pub args : List Bytes
  pub env : List Bytes
  pub cwd : Bytes
  pub capabilities : Option LinuxCapabilities
  pub rlimits : List Rlimit
  pub no_new_privileges : Bool

pub record Mount : Type 0 where
  pub destination : Bytes
  pub kind : Bytes
  pub source : Bytes
  pub options : List Bytes

pub record LinuxNamespace : Type 0 where
  pub kind : Bytes
  pub path : Bytes

pub record LinuxSeccomp : Type 0 where
  pub default_action : Bytes
  pub profile_name : Bytes

-- LinuxMemory and LinuxCPU have one field each.
pub record LinuxResources : Type 0 where
  pub memory : Option (Option ℤ)
  pub cpu : Option (Option ℤ)

pub record Linux : Type 0 where
  pub namespaces : List LinuxNamespace
  pub seccomp : Option LinuxSeccomp
  pub resources : Option LinuxResources

pub record OciSpec : Type 0 where
  pub version : Option Bytes
  pub root : Option Root
  pub process : Option OciProcess
  pub hostname : Bytes
  pub mounts : List Mount
  pub linux : Option Linux

pub record ContainerBundle : Type 0 where
  pub bundle_id : Bytes
  pub spec : Option OciSpec
  pub lower_dirs : List Bytes
  pub rootfs_tar : Bytes
  pub restart : Bytes
