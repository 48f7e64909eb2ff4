-- ===== src/Stored.antt =====
-- internal/stored/stored.go: the overlay of the root and of containers. The calls of the kernel and
-- of package os are a record on a world `W`.
pub mod Link
pub mod Missing
mod Tests
pub mod Root
use a_from_scratch_linux_use.Base.{
  fields_from, [], str_eq, ◌∷◌, ◌||◌, ◌==◌, none, ◌++◌, some, not, is_nil, false, if◌then◌else◌,
  true, str, ℕ, Bool, Option, List, Bytes,
}
use a_from_scratch_linux_use.Base.Path.{join_path, clean, dir}
use a_from_scratch_linux_use.Base.Scanner.{Scanned}
use a_from_scratch_linux_use.Base.Io.{
  Io, Result, ok, err, call, raise_if, pure, gets, when, ignoring, ◌>>=◌, ◌>>◌,
}

-- OverlayConfig
pub record OverlayConfig : Type 0 where
  pub lower_dir : Bytes
  pub upper_dir : Bytes
  pub work_dir : Bytes
  pub target_dir : Bytes

-- What unix.Mount and unix.Unmount give.
pub data Mounted : Type 0 where
  mounted mount_busy mount_invalid mount_failed : Mounted

-- `mount` has the source, the target, the type and the options; `mount_read_only` is that of a
-- squashfs. `mounts` is the scan of /proc/mounts, none if it does not open. `device` is the st_dev
-- of unix.Stat.
pub record Mounts (W : Type 0) : Type 0 where
  pub make_all : Bytes → W → W × Bool
  pub exists : Bytes → W → Bool
  pub mount : Bytes → Bytes → Bytes → Bytes → W → W × Mounted
  pub mount_read_only : Bytes → Bytes → W → W × Mounted
  pub detach : Bytes → W → W × Mounted
  pub is_root_user : Bool
  pub mounts : W → Option Scanned
  pub device : Bytes → W → Option ℕ
  pub temp_dir : Bytes

pub data StoreError : Type 0 where
  no_upper no_work no_target no_lower no_overlay_base : Bytes → StoreError
  incomplete : OverlayConfig → StoreError
  overlay_failed : Bytes → StoreError
  no_squashfs_mounted no_squashfs_device : Bytes → StoreError
  not_unmounted : Bytes → StoreError
  no_container_id no_lower_dirs : StoreError
  no_overlay_directories : StoreError → StoreError
  dynamic_target : Bytes → StoreError
  dynamic_failed : StoreError → StoreError

-- BuildOverlayOptions
unfoldable pub build_overlay_options : Bytes → Bytes → Bytes → Bytes
build_overlay_options lower upper work =
    str "lowerdir=" ++ (lower ++ (str ",upperdir=" ++ (upper ++ (str ",workdir=" ++ work))))

abbrev pub is_mounted : Mounted → Bool
is_mounted mounted = true
is_mounted m = false

-- One line of /proc/mounts, for a path that is clean.
abbrev names_mount : Bytes → List Bytes → Bool
names_mount path (source ∷ target ∷ rest) = str_eq (clean target) path
names_mount path short = false

-- The loop of IsMountPoint, with the error of the scanner; none is an error.
unfoldable pub find_mount : Bytes → Bool → List Bytes → Option Bool
find_mount path failed [] = if failed then none else some false
find_mount path failed (line ∷ lines) =
    let later = find_mount path failed lines in
    if names_mount path (fields_from [] line) then some true else later

module _ {W : Type 0} (k : Mounts W) where
  abbrev other_device : Option ℕ → Option ℕ → Option Bool
  other_device none p = none
  other_device (some d) none = none
  other_device (some d) (some e) = some (not (d == e))

  -- isMountPointStat; none is an error, with which false is returned.
  unfoldable pub is_mount_point_stat : Bytes → W → Option Bool
  is_mount_point_stat path w = other_device (k.device path w) (k.device (dir path) w)

  abbrev scanned_mounts : Bytes → W → Option Scanned → Option Bool
  scanned_mounts path w none = is_mount_point_stat path w
  scanned_mounts path w (some s) = find_mount (clean path) s.failed s.lines

  -- IsMountPoint
  unfoldable pub is_mount_point : Bytes → W → Option Bool
  is_mount_point path w = scanned_mounts path w (k.mounts w)

  -- `mounted, _ := IsMountPoint(path)`, and `err != nil || !mounted`
  abbrev pub known_mounted : Option Bool → Bool
  known_mounted none = false
  known_mounted (some b) = b

  -- PrepareOverlayDirectories
  unfoldable pub prepare_overlay_directories : Bytes → Io W StoreError (Bytes × Bytes)
  prepare_overlay_directories base_dir = do
    let upper = join_path base_dir (str "upper")
    let work = join_path base_dir (str "work")
    call (k.make_all upper) (no_upper upper)
    call (k.make_all work) (no_work work)
    pure (upper, work)

  -- A failed mount is passed over for another user than root.
  abbrev overlay_mounted : Bytes → W × Mounted → W × Result StoreError (Unit {0})
  overlay_mounted target (w, m) =
      if is_mounted m || not k.is_root_user then (w, ok tt) else (w, err (overlay_failed target))

  -- MountOverlay
  unfoldable pub mount_overlay : OverlayConfig → Io W StoreError (Unit {0})
  mount_overlay cfg = do
    let missing =
        is_nil cfg.lower_dir
        || (is_nil cfg.upper_dir || (is_nil cfg.work_dir || is_nil cfg.target_dir))
    raise_if missing (incomplete cfg)
    call (k.make_all cfg.target_dir) (no_target cfg.target_dir)
    let options = build_overlay_options cfg.lower_dir cfg.upper_dir cfg.work_dir
    λ w.
        overlay_mounted cfg.target_dir
          (k.mount (str "overlay") cfg.target_dir (str "overlay") options w)

  -- The loop of MountSquashFSDevice; `tried` says whether a mount has failed before.
  unfoldable pub try_devices : Bytes → Bool → List Bytes → Io W StoreError (Unit {0})
  try_devices lower tried [] w =
      (w, err (if tried then no_squashfs_mounted lower else no_squashfs_device lower))
  try_devices lower tried (device ∷ devices) w = elim (k.exists device w) [
    | false ↦ try_devices lower tried devices w
    | true ↦
        let r = k.mount_read_only device lower w in
        elim (is_mounted r.1) [ true ↦ (r.0, ok tt) | false ↦ try_devices lower true devices r.0 ]
  ]

  -- MountSquashFSDevice
  unfoldable pub mount_squashfs_device : Bytes → Io W StoreError (Unit {0})
  mount_squashfs_device lower = do
    call (k.make_all lower) (no_lower lower)
    there ← gets (λ w. known_mounted (is_mount_point lower w))
    when (not there)
        (try_devices lower false (str "/dev/vda" ∷ str "/dev/sda" ∷ str "/dev/initrd" ∷ []))

  -- UnmountOverlay
  unfoldable pub unmount_overlay : Bytes → Io W StoreError (Unit {0})
  unmount_overlay target w =
      let r = k.detach target w in
      elim r.1 [
        | mounted ↦ (r.0, ok tt)
        | mount_invalid ↦ (r.0, ok tt)
        | mount_busy ↦ (r.0, err (not_unmounted target))
        | mount_failed ↦ (r.0, err (not_unmounted target))
      ]
