-- ===== src/Secd/Policy.antt =====
-- internal/secd/secd.go, and ApplySeccompFilter of seccomp.go. The calls of the kernel and of
-- package os are a record on a world `W`.
pub mod Process
pub mod Sandbox
mod Dropping
mod Tests
use a_from_scratch_linux_use.Base.{
  ℕ, Bool, true, false, not, ◌&&◌, ◌||◌, Option, none, some, List, [], ◌∷◌, if◌then◌else◌, Bytes,
  str, str_eq, is_nil,
}
use a_from_scratch_linux_use.Base.Path.{join_path}
use a_from_scratch_linux_use.Base.Io.{
  Io, ok, err, pure, raise, call, ignoring, modify, when, or_raise, ◌>>=◌, ◌>>◌,
}
use a_from_scratch_linux_use.Secd.Unix.{Unix, SockFilter}
use a_from_scratch_linux_use.Secd.Seccomp.{get_profile_filter}
use a_from_scratch_linux_use.Secd.Capabilities.{
  CapKernel, SecdError, unshare_failed, private_failed, bind_failed, old_root_failed, pivot_failed,
  chdir_failed, no_new_privs_failed, seccomp_failed, invalid_profile, drop_capabilities,
  drop_capability_bounding_set,
}

-- SecurityPolicy; MountNS is read by nothing.
pub record SecurityPolicy : Type 0 where
  pub seccomp_profile : Bytes
  pub caps_add : List Bytes
  pub caps_drop : List Bytes
  pub no_new_privs : Bool
  pub rootfs : Bytes

-- The calls that a policy makes. `mount source target fstype` leaves out the flags, which the
-- three calls of the source tell apart by name.
pub record Kernel (W : Type 0) : Type 0 where
  pub caps : CapKernel W
  pub unshare_mounts : W → W × Bool
  pub make_private : W → W × Bool
  pub bind_mount : Bytes → W → W × Bool
  pub mkdir_all : Bytes → W → W × Bool
  pub pivot_root : Bytes → Bytes → W → W × Bool
  pub chdir : Bytes → W → W × Bool
  pub mount_pseudo : Bytes → Bytes → Bytes → W → W × Bool
  pub detach : Bytes → W → W × Bool
  pub remove : Bytes → W → W × Bool
  pub set_no_new_privs : W → W × Bool
  pub watch_sigsys : W → W
  pub set_seccomp : List SockFilter → W → W × Bool

-- DefaultSecurityPolicy
unfoldable pub default_security_policy : SecurityPolicy
default_security_policy = record {
  seccomp_profile = str "app-default";
  caps_add = [];
  caps_drop = str "ALL" ∷ [];
  no_new_privs = true;
  rootfs = [];
}

module _ {W : Type 0} (k : Kernel W) where
  -- A pseudo file system on a directory of the new root; both results are not looked at.
  abbrev mount_at : Bytes → Bytes → Io W SecdError (Unit {0})
  mount_at fs dir = do ignoring (k.mkdir_all dir); ignoring (k.mount_pseudo fs dir fs)

  -- PivotRoot
  unfoldable pub pivot_root : Bytes → Io W SecdError (Unit {0})
  pivot_root new_root = if is_nil new_root then pure tt else do
    call k.unshare_mounts unshare_failed
    call k.make_private private_failed
    call (k.bind_mount new_root) bind_failed
    let put_old = join_path new_root (str ".oldroot")
    call (k.mkdir_all put_old) old_root_failed
    call (k.pivot_root new_root put_old) pivot_failed
    call (k.chdir (str "/")) chdir_failed
    mount_at (str "proc") (str "/proc")
    mount_at (str "sysfs") (str "/sys")
    mount_at (str "devtmpfs") (str "/dev")
    ignoring (k.detach (str "/.oldroot"))
    ignoring (k.remove (str "/.oldroot"))

  -- ApplySeccompFilter
  unfoldable pub apply_seccomp_filter : List SockFilter → Io W SecdError (Unit {0})
  apply_seccomp_filter filter = if is_nil filter then pure tt else do
    call k.set_no_new_privs no_new_privs_failed
    call (k.set_seccomp filter) seccomp_failed

  module _ (cap : Bytes → ℕ) (u : Unix) where
    -- The second step of EnforceSecurityPolicy. Neither error is looked at.
    unfoldable pub drop_privileges : SecurityPolicy → Io W SecdError (Unit {0})
    unfolding drop_capabilities drop_capability_bounding_set
    drop_privileges p = if is_nil p.caps_drop && is_nil p.caps_add then pure tt else do
      modify (drop_capability_bounding_set cap k.caps p.caps_add)
      ignoring (drop_capabilities cap k.caps p.caps_add)

    -- The third step.
    unfoldable pub filter_syscalls : Bytes → Io W SecdError (Unit {0})
    unfolding apply_seccomp_filter
    filter_syscalls profile =
        if is_nil profile || str_eq profile (str "unrestricted") then pure tt else do
          modify k.watch_sigsys
          filter ←
              or_raise (get_profile_filter u profile u.seccomp_ret_kill_process)
                (invalid_profile profile)
          apply_seccomp_filter filter

    -- EnforceSecurityPolicy, on a policy that is not nil.
    unfoldable pub enforce_security_policy : SecurityPolicy → Io W SecdError (Unit {0})
    unfolding pivot_root drop_privileges filter_syscalls
    enforce_security_policy p = do
      pivot_root p.rootfs
      when p.no_new_privs (call k.set_no_new_privs no_new_privs_failed)
      drop_privileges p
      filter_syscalls p.seccomp_profile
