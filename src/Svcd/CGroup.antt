-- ===== src/Svcd/CGroup.antt =====
-- internal/svcd/cgroup.go: the cgroup of a service. The writes are a record on a world `W`; the
-- float64 of a quota, and how strconv prints numbers, are parameters.
use a_from_scratch_linux_use.Base.{◌++◌, str, ℕ, Bool, Bytes}
use a_from_scratch_linux_use.Base.Int.{ℤ, pos, positive}
use a_from_scratch_linux_use.Base.Path.{join_path}
use a_from_scratch_linux_use.Base.Io.{when, Io, call, ignoring, pure, ◌>>◌}
use a_from_scratch_linux_use.Svcd.Spec.{ServiceSpec}

abbrev pub cgroup_base_dir : Bytes
cgroup_base_dir = str "/sys/fs/cgroup/karim"

pub record CGroupManager : Type 0 where
  pub base_path : Bytes

-- `above_zero` is the comparison of a float64 with 0, and `quota_of` is
-- int(q * float64(period) / 100.0).
pub record CGroupCalls (W F : Type 0) : Type 0 where
  pub make_all : Bytes → W → W × Bool
  pub write_file : Bytes → Bytes → W → W × Bool
  pub above_zero : F → Bool
  pub quota_of : F → ℕ → ℤ
  pub format_int : ℤ → Bytes

pub data CGroupError : Type 0 where
  no_base_directory no_service_cgroup not_attached : Bytes → CGroupError

abbrev cpu_period : ℕ
cpu_period = 100000

module _ {W F : Type 0} (k : CGroupCalls W F) where
  -- enableSubtreeControllers
  unfoldable pub enable_subtree_controllers : Bytes → Bytes → W → W × Bool
  enable_subtree_controllers parent controllers =
      k.write_file (join_path parent (str "cgroup.subtree_control")) controllers

  -- NewCGroupManager
  unfoldable pub new_cgroup_manager : Io W CGroupError CGroupManager
  new_cgroup_manager = do
    call (k.make_all cgroup_base_dir) (no_base_directory cgroup_base_dir)
    ignoring (enable_subtree_controllers (str "/sys/fs/cgroup") (str "+memory +cpu"))
    ignoring (enable_subtree_controllers cgroup_base_dir (str "+memory +cpu"))
    pure (record { base_path = cgroup_base_dir })

  -- "quota period"
  abbrev cpu_text : F → Bytes
  cpu_text q = k.format_int (k.quota_of q cpu_period) ++ (str " " ++ k.format_int (pos cpu_period))

  -- CreateServiceCGroup; a limit that cannot be written is only printed.
  unfoldable pub create_service_cgroup : CGroupManager → ServiceSpec F → Io W CGroupError Bytes
  create_service_cgroup cm spec = do
    let path = join_path cm.base_path spec.name
    call (k.make_all path) (no_service_cgroup path)
    when (positive spec.memory_limit) (
        ignoring
          (k.write_file (join_path path (str "memory.max")) (k.format_int spec.memory_limit)))
    when (k.above_zero spec.cpu_quota)
        (ignoring (k.write_file (join_path path (str "cpu.max")) (cpu_text spec.cpu_quota)))
    pure path

  -- AttachProcess
  unfoldable pub attach_process : CGroupManager → Bytes → ℤ → Io W CGroupError (Unit {0})
  attach_process cm name pid =
      let path = join_path (join_path cm.base_path name) (str "cgroup.procs") in
      call (k.write_file path (k.format_int pid)) (not_attached path)
