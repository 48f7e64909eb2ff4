-- ===== src/Stored/Tests.antt =====
-- A root with "/etc" in it, below a lower directory; mounts that fail for one device.
use a_from_scratch_linux_use.Base.Path.{clean, join_path}
use a_from_scratch_linux_use.Stored.Root.{mount_dynamic_overlay}
use a_from_scratch_linux_use.Base.{
  join, fields_from, false, some, str_eq, ◌≡◌, none, [], ◌∷◌, one_of, true, str, if◌then◌else◌,
  List, Bytes, refl,
}
use a_from_scratch_linux_use.Base.Io.{ok}
use a_from_scratch_linux_use.Stored.{
  mount_overlay, prepare_overlay_directories, try_devices, find_mount, mount_busy, mount_failed,
  mounted, is_mount_point, mount_squashfs_device, Mounts,
}
use a_from_scratch_linux_use.Stored.Link.{
  link_directory_contents, link_root_entry, link_root_entries, link_lower_dir_to_root, LinkCalls,
  Tree, plain_entry, directory_entry, unread_tree, read_tree, no_entries, entry, absent,
  found_directory,
}
use a_from_scratch_linux_use.Stored.Missing.{
  OnlyMissing, noted_calls, link_lower_dir_to_root-OnlyMissing,
}

-- The world is the list of the paths that there are.
abbrev root : LinkCalls (List Bytes)
root = record {
  lstat = λ p w. if one_of p w then found_directory else absent;
  eval_symlinks = λ p w. none;
  make_symlink = λ source p w. (p ∷ w, true);
  make_all = λ p w. (p ∷ w, true);
}

abbrev squashfs : Tree
squashfs = read_tree (
    entry (str "proc") (directory_entry unread_tree) (
      entry (str "init") plain_entry (
        entry (str "etc")
          (directory_entry (
            read_tree (
              entry (str "ssl")
                (directory_entry (read_tree (entry (str "ca") plain_entry no_entries)))
                (entry (str "hosts") plain_entry no_entries))))
          no_entries)))

linked_paths :
    link_lower_dir_to_root root (str "/mnt/lower") squashfs (str "/etc" ∷ str "/etc/hosts" ∷ [])
    ≡ (str "/etc/ssl/ca" ∷ str "/etc/ssl" ∷ str "/init" ∷ str "/etc" ∷ str "/etc/hosts" ∷ [], true)
unfolding link_lower_dir_to_root link_root_entries one_of str_eq link_root_entry
    link_directory_contents join_path
linked_paths = refl

link_lower_dir_to_root-OnlyMissing_example :
    OnlyMissing
      (link_lower_dir_to_root
        (noted_calls root)
        (str "/mnt/lower")
        squashfs
        (str "/etc" ∷ [], [])).0.1
link_lower_dir_to_root-OnlyMissing_example =
    link_lower_dir_to_root-OnlyMissing root (str "/mnt/lower") squashfs (str "/etc" ∷ [])

-- The world is the mounts so far; "/dev/vda" cannot be mounted.
abbrev kernel : Mounts (List Bytes)
kernel = record {
  make_all = λ p w. (w, true);
  exists = λ p w. true;
  mount = λ source p kind options w. (p ∷ w, mounted);
  mount_read_only = λ device p w.
      if str_eq device (str "/dev/vda") then (w, mount_failed) else (device ∷ w, mounted);
  detach = λ p w. (w, mount_busy);
  is_root_user = true;
  mounts = λ w.
      some (record { lines = str "tmpfs /run tmpfs rw 0 0" ∷ str "proc" ∷ []; failed = false });
  device = λ p w. none;
  temp_dir = str "/tmp";
}

second_device : mount_squashfs_device kernel (str "/mnt/lower") [] ≡ (str "/dev/sda" ∷ [], ok tt)
unfolding mount_squashfs_device is_mount_point find_mount fields_from str_eq clean try_devices
second_device = refl

run_is_mounted : is_mount_point kernel (str "/run/") [] ≡ some true
unfolding is_mount_point find_mount fields_from str_eq clean
run_is_mounted = refl

container_mounted :
    (mount_dynamic_overlay kernel root (str "web") (str "/a" ∷ str "/b" ∷ []) [] []).1
    ≡ ok (record {
      lower_dir = str "/a:/b";
      upper_dir = str "/run/karim/containers/web/overlay/upper";
      work_dir = str "/run/karim/containers/web/overlay/work";
      target_dir = str "/run/karim/containers/web/rootfs";
    })
unfolding mount_dynamic_overlay prepare_overlay_directories mount_overlay join join_path str_eq
container_mounted = refl
