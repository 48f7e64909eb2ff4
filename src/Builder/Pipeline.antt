-- ===== src/Builder/Pipeline.antt =====
-- internal/builder/builder.go and squashfs.go: the staging of the two trees, and their packing. The
-- world `W` has the files; `S`, `R` and `H` are streams, files that are read and files that are
-- written.
use a_from_scratch_linux_use.Builder.Contents.{
  group_content, daemons, passwd_content, workloads, applets, init_dirs,
}
use a_from_scratch_linux_use.Pkgd.Merge.{wrapped}
use a_from_scratch_linux_use.Base.{
  not, false, ◌^◌, ◌&&◌, true, none, ◌%◌, is_nil, str_eq, ◌++◌, ◌∷◌, some, if◌then◌else◌, [], str,
  ℕ, Bool, Option, List, Bytes,
}
use a_from_scratch_linux_use.Base.Int.{pos, ℤ, bits64}
use a_from_scratch_linux_use.Base.Path.{join_path, dir, rel}
use a_from_scratch_linux_use.Base.Io.{
  Io, Result, ok, err, asks, call, raise, raise_if, pure, gets, when, ignoring, for_each, or_raise,
  ◌>>=◌, ◌>>◌,
}
use a_from_scratch_linux_use.Builder.Cpio.{pack_cpio_initramfs, Item, CpioError}
use a_from_scratch_linux_use.Builder.Manifest.{ArtifactChecksum, BuildManifest, Mismatch}
use a_from_scratch_linux_use.Builder.Manifest.Saved.{ManifestFiles, ManifestError}
use a_from_scratch_linux_use.Pkgd.Layer.{
  crashed, load_layer_config, loaded, refused, LayerFiles, LayerConfig, Loaded,
}
use a_from_scratch_linux_use.Pkgd.Merge.Layers.{
  merge_layer_config, CopyCalls, LayerError, Visit, walk_error, visit,
}
pub mod Image

pub record BuildConfig : Type 0 where
  pub init_bin_path : Bytes
  pub svcd_bin_path : Bytes
  pub services_dir : Bytes
  pub layers_file : Bytes
  pub kernel_path : Bytes
  pub output_dir : Bytes
  pub source_date_epoch : ℤ

-- DefaultBuildConfig
unfoldable pub default_build_config : Bytes → BuildConfig
default_build_config work = record {
  init_bin_path = join_path work (str "build/init");
  svcd_bin_path = join_path work (str "build/karim-svcd");
  services_dir = join_path work (str "config/services");
  layers_file = join_path work (str "config/layers.toml");
  kernel_path = join_path work (str "dist/bzImage");
  output_dir = join_path work (str "dist");
  source_date_epoch = pos 0;
}

-- `absent` is os.IsNotExist of a Stat. `staged_items` is what Walk finds for the archive.
-- `run` is exec.Command with the epoch in the environment.
pub record BuildCalls (W S R H : Type 0) : Type 0 where
  pub copies : CopyCalls W S R H
  pub layer_files : LayerFiles W
  pub manifest_files : ManifestFiles W
  pub temp_dir : W → W × Option Bytes
  pub remove_all : Bytes → W → W × Bool
  pub remove : Bytes → W → W × Bool
  pub absent : Bytes → W → Bool
  pub make_symlink : Bytes → Bytes → W → W × Bool
  pub create_archive : Bytes → W → W × Option H
  pub staged_items : Bytes → W → Option (List Item)
  pub write_archive : H → Bytes → W → W × Bool
  pub close_archive : H → W → W × Bool
  pub look_path : Bytes → W → Option Bytes
  pub run : Bytes → List Bytes → Bytes → W → W × Bool
  pub read_bytes : Bytes → W → Option Bytes
  pub sha256_hex : Bytes → Bytes
  pub format_timestamp : ℤ → Bytes
  pub format_int : ℤ → Bytes

pub data BuildError : Type 0 where
  no_output_dir no_temp_dir : BuildError
  not_staged not_copied not_merged : Bytes → BuildError
  services_not_copied archive_not_created : BuildError
  layers_not_loaded layers_crashed : BuildError
  merge_failed : LayerError → BuildError
  not_packed : CpioError → BuildError
  no_mksquashfs no_squashfs_dir mksquashfs_failed : BuildError
  no_checksum : Bytes → BuildError
  not_saved : ManifestError → BuildError
  differs : Mismatch → BuildError

module _ {W S R H : Type 0} (k : BuildCalls W S R H) where
  abbrev Build : Type 0 → Type 0
  Build A = Io W BuildError A

  -- copyFileWithPerm; the error says which file.
  unfoldable pub copy_file_with_perm : Bytes → Bytes → ℕ → Build (Unit {0})
  copy_file_with_perm from to perm = do
    source ← asks (k.copies.open_source from) (not_copied from)
    call (k.copies.make_all (dir to)) (not_copied to)
    file ← asks (k.copies.create to perm) (not_copied to)
    call (k.copies.copy_all file source) (not_copied to)

  abbrev copy_executable : Bytes → Bytes → Build (Unit {0})
  copy_executable from to = copy_file_with_perm from to 493

  -- What is done only if a path is there; an error of it is passed over.
  abbrev if_there : Bytes → Build (Unit {0}) → Build (Unit {0})
  if_there path m = gets (k.copies.exists path) >>= λ there. when there m

  abbrev quietly : Build (Unit {0}) → Build (Unit {0})
  quietly m w = ((m w).0, ok tt)

  -- The directories of a staging tree.
  unfoldable pub stage_dirs : Bytes → List Bytes → Build (Unit {0})
  stage_dirs staging dirs =
      for_each dirs λ d. call (k.copies.make_all (join_path staging d)) (not_staged d)

  abbrev below_or_empty : Option Bytes → Bytes
  below_or_empty none = []
  below_or_empty (some p) = p

  -- One visit of the walk over the service definitions.
  unfoldable pub copy_service : Bytes → Bytes → Visit → Build (Unit {0})
  copy_service services staging walk_error = raise services_not_copied
  copy_service services staging (visit path true) = pure tt
  copy_service services staging (visit path false) =
      copy_file_with_perm path
        (join_path (join_path staging (str "etc/karim/services"))
          (below_or_empty (rel services path)))
        420

  unfoldable pub copy_services : Bytes → Bytes → Build (Unit {0})
  copy_services services staging =
      gets (k.copies.walk services) >>= λ visits. for_each visits (copy_service services staging)

  abbrev daemon_source : BuildConfig → Bytes → Bytes
  daemon_source cfg d =
      if str_eq d (str "karim-svcd") && not (is_nil cfg.svcd_bin_path)
      then cfg.svcd_bin_path
      else join_path (dir cfg.init_bin_path) d

  -- The initramfs: its directories, init, the daemons and the service definitions.
  unfoldable pub stage_initramfs : BuildConfig → Bytes → Build (Unit {0})
  stage_initramfs cfg staging = do
    stage_dirs staging init_dirs
    copy_executable cfg.init_bin_path (join_path staging (str "init"))
    for_each daemons λ d. if_there (daemon_source cfg d) (
        quietly
          (copy_executable (daemon_source cfg d) (join_path (join_path staging (str "sbin")) d)))
    if_there cfg.services_dir (quietly (copy_services cfg.services_dir staging))

  -- One applet of BusyBox.
  unfoldable pub link_applet : Bytes → Bytes → Build (Unit {0})
  link_applet staging applet = do
    let path = join_path (join_path staging (str "bin")) applet
    ignoring (k.remove path)
    ignoring (k.make_symlink (str "/bin/busybox") path)

  unfoldable pub stage_busybox : Bytes → Bytes → Build (Unit {0})
  stage_busybox source staging = do
    quietly (copy_executable source (join_path staging (str "bin/busybox")))
    for_each applets (link_applet staging)

  -- The workloads and BusyBox, in both trees.
  unfoldable pub stage_programs : BuildConfig → Bytes → Bytes → Build (Unit {0})
  stage_programs cfg init root = do
    let build_dir = dir cfg.init_bin_path
    let busybox = join_path build_dir (str "busybox")
    for_each workloads λ b.
        let source = join_path build_dir b in
        if_there source (
          quietly (copy_executable source (join_path (join_path init (str "bin")) b))
          >> quietly (copy_executable source (join_path (join_path root (str "bin")) b)))
    if_there busybox (stage_busybox busybox init >> stage_busybox busybox root)

  abbrev merged : Bytes → Bytes → Loaded → Build (Unit {0})
  merged file root (refused e) = raise layers_not_loaded
  merged file root crashed = raise layers_crashed
  merged file root (loaded cfg) =
      wrapped merge_failed (merge_layer_config k.copies (some cfg) (dir file) root)

  -- The package layers.
  unfoldable pub merge_file : Bytes → Bytes → Build (Unit {0})
  merge_file file root =
      if is_nil file
      then pure tt
      else if_there file (λ w. merged file root (load_layer_config k.layer_files file w) w)

  -- A file that a layer has not brought.
  unfoldable pub default_file : Bytes → Bytes → Build (Unit {0})
  default_file path content =
      gets (k.absent path) >>= λ gone. when gone (ignoring (k.layer_files.write_file path content))

  unfoldable pub default_accounts : Bytes → Build (Unit {0})
  default_accounts staging = do
    default_file (join_path staging (str "etc/passwd")) passwd_content
    default_file (join_path staging (str "etc/group")) group_content

  abbrev packed : H → W × Option CpioError → W × Result BuildError (Unit {0})
  packed file (w, none) = ((k.close_archive file w).0, ok tt)
  packed file (w, some e) = ((k.close_archive file w).0, err (not_packed e))

  -- The initramfs archive; uint32 of the fixed time.
  unfoldable pub pack_initramfs : BuildConfig → Bytes → Bytes → Build (Unit {0})
  pack_initramfs cfg staging path = do
    file ← asks (k.create_archive path) archive_not_created
    λ w. packed file (
        pack_cpio_initramfs (k.write_archive file) (bits64 cfg.source_date_epoch % 2 ^ 32)
          (k.staged_items staging w) w)
