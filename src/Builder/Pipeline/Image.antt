-- ===== src/Builder/Pipeline/Image.antt =====
-- internal/builder/builder.go and squashfs.go: the image of a build, its manifest, and the check
-- that two builds agree.
use a_from_scratch_linux_use.Builder.Contents.{root_dirs}
use a_from_scratch_linux_use.Builder.Manifest.Saved.{save_manifest, hashed_manifest}
use a_from_scratch_linux_use.Base.{
  ◌++◌, false, none, true, [], if◌then◌else◌, some, ◌∷◌, str, ℕ, Bool, Option, List, Bytes,
}
use a_from_scratch_linux_use.Base.Int.{pos, ℤ}
use a_from_scratch_linux_use.Base.Path.{join_path, dir}
use a_from_scratch_linux_use.Base.Io.{
  modify, Io, Result, ok, err, asks, call, raise, raise_if, pure, gets, when, ignoring, for_each,
  or_raise, ◌>>=◌, ◌>>◌,
}
use a_from_scratch_linux_use.Builder.Manifest.{
  compare_manifests, new_artifact_checksum, ArtifactChecksum, BuildManifest, Mismatch,
}
use a_from_scratch_linux_use.Builder.Pipeline.{
  pack_initramfs, default_accounts, merge_file, copy_services, stage_programs, copy_file_with_perm,
  mksquashfs_failed, not_saved, differs, stage_dirs, wrapped, no_squashfs_dir, no_temp_dir,
  stage_initramfs, no_checksum, no_mksquashfs, no_output_dir, BuildCalls, BuildConfig, BuildError,
}
pub mod Packed
pub mod Reproduced
mod Tests

pub record SquashFsOptions : Type 0 where
  pub compression : Bytes
  pub source_dir : Bytes
  pub output_file : Bytes
  pub fixed_time : ℤ
  pub enable_fragments : Bool

-- DefaultSquashFSOptions
unfoldable pub default_squashfs_options : Bytes → Bytes → SquashFsOptions
default_squashfs_options source output = record {
  compression = str "xz";
  source_dir = source;
  output_file = output;
  fixed_time = pos 0;
  enable_fragments = false;
}

-- The arguments of mksquashfs.
unfoldable pub squashfs_args : SquashFsOptions → List Bytes
squashfs_args o =
    o.source_dir
    ∷ o.output_file
    ∷ str "-noappend"
    ∷ str "-comp"
    ∷ o.compression
    ∷ str "-all-root"
    ∷ str "-no-recovery"
    ∷ str "-no-exports"
    ∷ (if o.enable_fragments then [] else str "-no-fragments" ∷ [])

-- An artifact in a map, where its checksum could be taken.
abbrev with_artifact :
    Bytes
    → Option ArtifactChecksum
    → List (Bytes × ArtifactChecksum)
    → List (Bytes × ArtifactChecksum)
with_artifact key none rest = rest
with_artifact key (some a) rest = (key, a) ∷ rest

-- The two outputs.
abbrev pub outputs_of : ArtifactChecksum → ArtifactChecksum → List (Bytes × ArtifactChecksum)
outputs_of cpio squash = (str "initramfs.cpio", cpio) ∷ (str "rootfs.sqsh", squash) ∷ []

module _ {W S R H : Type 0} (k : BuildCalls W S R H) where
  -- BuildHermeticSquashFS
  unfoldable pub build_hermetic_squashfs : SquashFsOptions → Io W BuildError (Unit {0})
  build_hermetic_squashfs o = do
    tool ← (λ w. or_raise (k.look_path (str "mksquashfs") w) no_mksquashfs w)
    ignoring (k.remove o.output_file)
    call (k.copies.make_all (dir o.output_file)) no_squashfs_dir
    let epoch = str "SOURCE_DATE_EPOCH=" ++ k.format_int o.fixed_time
    call (k.run tool (squashfs_args o) epoch) mksquashfs_failed

  abbrev pub checksum : Bytes → Bytes → W → Option ArtifactChecksum
  checksum name path w = new_artifact_checksum k.sha256_hex name path (k.read_bytes path w)

  -- The checksums of the inputs that can be read; the range over the map is in one order.
  unfoldable pub input_artifacts_of : BuildConfig → W → List (Bytes × ArtifactChecksum)
  input_artifacts_of cfg w =
      let one = λ (key path : Bytes). with_artifact key (checksum key path w) in
      one (str "init_binary") cfg.init_bin_path (
        one (str "svcd_binary") cfg.svcd_bin_path (
          if k.copies.exists cfg.kernel_path w
          then one (str "kernel_bzimage") cfg.kernel_path []
          else []))

  -- The manifest of what was packed, as SaveManifest leaves it.
  unfoldable pub manifest_of :
      BuildConfig
      → List (Bytes × ArtifactChecksum)
      → ArtifactChecksum
      → ArtifactChecksum
      → BuildManifest
  manifest_of cfg inputs cpio squash = hashed_manifest k.sha256_hex k.manifest_files (record {
    project_name = str "karim-microvm-os";
    version = str "1.0.0-hermetic";
    build_timestamp = k.format_timestamp cfg.source_date_epoch;
    hermetic = true;
    source_date_epoch = cfg.source_date_epoch;
    input_artifacts = inputs;
    output_artifacts = outputs_of cpio squash;
    combined_build_hash = [];
  })

  abbrev pub cpio_path : BuildConfig → Bytes
  cpio_path cfg = join_path cfg.output_dir (str "initramfs.cpio")

  abbrev pub squash_path : BuildConfig → Bytes
  squash_path cfg = join_path cfg.output_dir (str "rootfs.sqsh")

  -- The checksum of an output, which has to be there.
  abbrev pub output_checksum : Bytes → Bytes → Io W BuildError ArtifactChecksum
  output_checksum name path w = or_raise (checksum name path w) (no_checksum name) w

  abbrev pub saved_as : BuildConfig → BuildManifest → Io W BuildError BuildManifest
  saved_as cfg manifest =
      wrapped not_saved (
        save_manifest k.sha256_hex k.manifest_files manifest
          (join_path cfg.output_dir (str "manifest.json")))
      >> pure manifest

  -- From the two packed files on.
  unfoldable pub write_manifest : BuildConfig → Io W BuildError BuildManifest
  write_manifest cfg = do
    inputs ← gets (input_artifacts_of cfg)
    cpio ← output_checksum (str "initramfs.cpio") (cpio_path cfg)
    squash ← output_checksum (str "rootfs.sqsh") (squash_path cfg)
    saved_as cfg (manifest_of cfg inputs cpio squash)

  -- What is done in the temporary directory before the manifest.
  unfoldable pub prepare_image : BuildConfig → Bytes → Io W BuildError (Unit {0})
  prepare_image cfg temp = do
    let init = join_path temp (str "initramfs_root")
    let root = join_path temp (str "rootfs_tree")
    stage_initramfs k cfg init
    stage_dirs k root root_dirs
    copy_file_with_perm k cfg.svcd_bin_path (join_path root (str "sbin/karim-svcd")) 493
    stage_programs k cfg init root
    there ← gets (k.copies.exists cfg.services_dir)
    when there (copy_services k cfg.services_dir root)
    merge_file k cfg.layers_file root
    default_accounts k root
    default_accounts k init
    pack_initramfs k cfg init (cpio_path cfg)
    build_hermetic_squashfs (record (default_squashfs_options root (squash_path cfg)) {
      fixed_time = cfg.source_date_epoch;
    })

  abbrev pub build_in : BuildConfig → Bytes → Io W BuildError BuildManifest
  build_in cfg temp = prepare_image cfg temp >> write_manifest cfg

  -- `defer os.RemoveAll(tmpBuild)`
  abbrev pub removing : Bytes → Io W BuildError BuildManifest → Io W BuildError BuildManifest
  removing temp m w = let r = m w in ((k.remove_all temp r.0).0, r.1)

  -- BuildImagePipeline
  unfoldable pub build_image_pipeline : BuildConfig → Io W BuildError BuildManifest
  build_image_pipeline cfg = do
    call (k.copies.make_all cfg.output_dir) no_output_dir
    temp ← asks k.temp_dir no_temp_dir
    removing temp (build_in cfg temp)

  abbrev pub same_or_differs : Option Mismatch → Io W BuildError (Unit {0})
  same_or_differs none = pure tt
  same_or_differs (some e) = raise (differs e)

  -- The outputs of the first build go before the second.
  unfoldable pub wipe_outputs : BuildConfig → W → W
  wipe_outputs cfg w = (k.remove (squash_path cfg) (k.remove (cpio_path cfg) w).0).0

  -- VerifyReproducibility
  unfoldable pub verify_reproducibility : BuildConfig → Io W BuildError (Unit {0})
  verify_reproducibility cfg = do
    m1 ← build_image_pipeline cfg
    modify (wipe_outputs cfg)
    m2 ← build_image_pipeline cfg
    same_or_differs (compare_manifests m1 m2)
