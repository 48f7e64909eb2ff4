-- ===== src/Stored/Root.antt =====
-- PrepareAndMountRootOverlay and MountDynamicOverlay of internal/stored/stored.go.
use a_from_scratch_linux_use.Base.{
  join, ◌&&◌, str_eq, if◌then◌else◌, not, false, [], true, is_nil, ◌∷◌, str, List, Bytes,
}
use a_from_scratch_linux_use.Base.Path.{join_path}
use a_from_scratch_linux_use.Base.Io.{
  Io, ok, err, call, raise_if, pure, gets, when, ignoring, for_each, modify, ◌>>=◌, ◌>>◌,
}
use a_from_scratch_linux_use.Stored.{
  dynamic_failed, dynamic_target, mount_overlay, no_overlay_directories,
  prepare_overlay_directories, no_lower_dirs, no_overlay_base, no_container_id, is_mount_point,
  mount_squashfs_device, known_mounted, StoreError, OverlayConfig, Mounts,
}
use a_from_scratch_linux_use.Stored.Link.{link_lower_dir_to_root, LinkCalls, Tree}

abbrev writable_dirs : List Bytes
writable_dirs = str "/var" ∷ str "/tmp" ∷ str "/run" ∷ []

abbrev tmpfs_options : Bytes
tmpfs_options = str "size=64M,mode=0755"

abbrev containers_run_dir : Bytes
containers_run_dir = str "/run/karim/containers"

-- The wording of an error by the caller.
abbrev rewrapped :
    {W A : Type 0} → (StoreError → StoreError) → Io W StoreError A → Io W StoreError A
rewrapped f m w = let r = m w in (r.0, elim r.1 [ ok a ↦ ok a | err e ↦ err (f e) ])

module _ {W : Type 0} (k : Mounts W) (files : LinkCalls W) where
  -- An error that is only printed.
  abbrev printed : Io W StoreError (Unit {0}) → Io W StoreError (Unit {0})
  printed m w = ((m w).0, ok tt)

  abbrev mount_tmpfs : Bytes → Io W StoreError (Unit {0})
  mount_tmpfs target = ignoring (k.mount (str "tmpfs") target (str "tmpfs") tmpfs_options)

  -- A directory that is to be writable.
  unfoldable pub ensure_writable : Bytes → Io W StoreError (Unit {0})
  ensure_writable directory = do
    ignoring (k.make_all directory)
    there ← gets (λ w. known_mounted k (is_mount_point k directory w))
    when (not there) (mount_tmpfs directory)

  -- PrepareAndMountRootOverlay; `tree` is what the lower directory holds once the device is
  -- mounted.
  unfoldable pub prepare_and_mount_root_overlay :
      (W → Tree) → Bytes → Bytes → Bytes → Io W StoreError OverlayConfig
  prepare_and_mount_root_overlay tree lower base_dir target = do
    printed (mount_squashfs_device k lower)
    for_each writable_dirs ensure_writable
    modify (λ w. (link_lower_dir_to_root files lower (tree w) w).0)
    call (k.make_all base_dir) (no_overlay_base base_dir)
    there ← gets (λ w. known_mounted k (is_mount_point k base_dir w))
    when (not there) (mount_tmpfs base_dir)
    dirs ← prepare_overlay_directories k base_dir
    let cfg : OverlayConfig = record {
      lower_dir = lower;
      upper_dir = dirs.0;
      work_dir = dirs.1;
      target_dir = target;
    }
    lower_there ← gets (k.exists lower)
    when (not (str_eq target (str "/")) && lower_there) (printed (mount_overlay k cfg))
    pure cfg

  -- Where containers are kept, with the temporary directory in place of /run.
  abbrev container_base : Io W StoreError Bytes
  container_base w =
      let r = k.make_all containers_run_dir w in
      elim r.1 [
        | true ↦ (r.0, ok containers_run_dir)
        | false ↦
            let other = join_path k.temp_dir (str "karim_containers") in
            ((k.make_all other r.0).0, ok other)
      ]

  -- MountDynamicOverlay
  unfoldable pub mount_dynamic_overlay : Bytes → List Bytes → Bytes → Io W StoreError OverlayConfig
  mount_dynamic_overlay id lowers given = do
    raise_if (is_nil id) no_container_id
    raise_if (is_nil lowers) no_lower_dirs
    base_dir ← container_base
    let home = join_path base_dir id
    let target = if is_nil given then join_path home (str "rootfs") else given
    dirs ←
        rewrapped no_overlay_directories
          (prepare_overlay_directories k (join_path home (str "overlay")))
    let cfg : OverlayConfig = record {
      lower_dir = join lowers (str ":");
      upper_dir = dirs.0;
      work_dir = dirs.1;
      target_dir = target;
    }
    call (k.make_all target) (dynamic_target target)
    rewrapped dynamic_failed (mount_overlay k cfg)
    pure cfg
