-- ===== src/Builder/Pipeline/Image/Tests.antt =====
-- Two builds in a world that writes down what is packed and removed.
use a_from_scratch_linux_use.Base.Path.{dir, join_path}
use a_from_scratch_linux_use.Builder.Cpio.{pack_cpio_initramfs, header_text, hex8}
use a_from_scratch_linux_use.Builder.Manifest.{
  check_artifacts, compare_manifests, sort_keys, hashed_bytes,
}
use a_from_scratch_linux_use.Builder.Pipeline.Image.{
  default_squashfs_options, manifest_of, input_artifacts_of, write_manifest,
  build_hermetic_squashfs, prepare_image, build_image_pipeline, wipe_outputs,
  verify_reproducibility,
}
use a_from_scratch_linux_use.Base.{
  false, ◌≡◌, ◌∷◌, str_eq, true, [], str, none, some, ℕ, List, Bytes, refl,
}
use a_from_scratch_linux_use.Base.Int.{pos}
use a_from_scratch_linux_use.Base.Maps.{lookup}
use a_from_scratch_linux_use.Base.Io.{ok}
use a_from_scratch_linux_use.Builder.Manifest.{
  hashed_bytes, calculate_combined_build_hash, calculate_file_sha256, new_artifact_checksum,
  BuildManifest,
}
use a_from_scratch_linux_use.Builder.Manifest.Saved.{save_manifest, hashed_manifest}
use a_from_scratch_linux_use.Pkgd.Extract.{end_of_archive}
use a_from_scratch_linux_use.Pkgd.Inspect.{image_end}
use a_from_scratch_linux_use.Pkgd.Layer.{not_exist}
use a_from_scratch_linux_use.Pkgd.Merge.Layers.{CopyCalls}
use a_from_scratch_linux_use.Pkgd.Paths.{Files, missing, no_directory}
use a_from_scratch_linux_use.Builder.Pipeline.{
  pack_initramfs, pack_initramfs, default_file, default_accounts, merge_file, stage_programs,
  copy_file_with_perm, stage_dirs, stage_initramfs, BuildCalls, BuildConfig,
}
use a_from_scratch_linux_use.Builder.Pipeline.Image.Reproduced.{
  SameOutput, emptied, Builds, verify_reproducibility-SameHash,
}

abbrev Log : Type 0
Log = List Bytes

abbrev works : {A : Type 0} → A → Log → Log × A
works a w = (w, a)

abbrev files : Files Log ℕ
files = record {
  abs = λ p. some p;
  lstat = λ p w. missing;
  eval_symlinks = λ p w. none;
  read_dir = λ p w. no_directory;
  open_directory = λ p w. none;
  open_beneath = λ d p flags mode. works none;
  open_file = λ p flags mode. works (some 0);
  copy = λ h. works true;
  mkdir_all = λ p. works true;
  remove = λ p. works true;
  remove_all = λ p. works true;
  make_symlink = λ link p. works true;
  make_link = λ from p. works true;
}

-- Only the supervisor is there to be copied.
abbrev copies : CopyCalls Log ℕ ℕ ℕ
copies = record {
  image = record {
    open_stream = λ p w. none;
    gunzip = λ s. none;
    of_bytes = λ b. 0;
    entries = λ s. image_end;
    archive = λ s. end_of_archive;
    files = λ s. files;
    docker_manifest = λ b. none;
  };
  exists = λ p w. str_eq p (str "build/karim-svcd");
  walk = λ p w. [];
  make_all = λ p. works true;
  open_source = λ p. works (some 0);
  mode_of = λ r. works (some 493);
  create = λ p mode. works (some 0);
  copy_all = λ h r. works true;
}

abbrev calls : BuildCalls Log ℕ ℕ ℕ
calls = record {
  copies = copies;
  layer_files = record {
    read_file = λ p w. not_exist;
    open_scanner = λ p w. none;
    mkdir_all = λ p. works true;
    write_file = λ p b. works true;
    json_unmarshal = λ b. none;
    json_marshal = λ c. none;
    quote = λ s. s;
  };
  manifest_files = record {
    marshal = λ m. some m.combined_build_hash;
    unmarshal = λ b. none;
    write_file = λ p b. works true;
    read_file = λ p w. none;
  };
  temp_dir = works (some (str "/t"));
  remove_all = λ p w. (p ∷ w, true);
  remove = λ p. works true;
  absent = λ p w. false;
  make_symlink = λ link p. works true;
  create_archive = λ p. works (some 0);
  staged_items = λ p w. some [];
  write_archive = λ h b. works true;
  close_archive = λ h. works true;
  look_path = λ n w. some n;
  run = λ tool args epoch w. (tool ∷ w, true);
  read_bytes = λ p w. some p;
  sha256_hex = λ b. b;
  format_timestamp = λ z. [];
  format_int = λ z. str "0";
}

abbrev cfg : BuildConfig
cfg = record {
  init_bin_path = str "build/init";
  svcd_bin_path = str "build/karim-svcd";
  services_dir = [];
  layers_file = [];
  kernel_path = [];
  output_dir = str "dist";
  source_date_epoch = pos 0;
}

abbrev end_log : Log
end_log = str "/t" ∷ str "mksquashfs" ∷ str "/t" ∷ str "mksquashfs" ∷ []

verified : verify_reproducibility calls cfg [] ≡ (end_log, ok tt)
unfolding verify_reproducibility build_image_pipeline prepare_image stage_initramfs stage_dirs
    copy_file_with_perm str_eq join_path dir stage_programs merge_file default_accounts default_file
    pack_initramfs pack_cpio_initramfs header_text hex8 build_hermetic_squashfs write_manifest
    input_artifacts_of new_artifact_checksum calculate_file_sha256 manifest_of hashed_manifest
    calculate_combined_build_hash hashed_bytes sort_keys lookup save_manifest wipe_outputs
    compare_manifests check_artifacts default_squashfs_options
verified = refl

verify_reproducibility-SameHash_example :
    (m1 m2 : BuildManifest) × (p1 p2 w1 w2 : Log) × Builds calls cfg [] p1 w1 m1
    × Builds calls cfg (emptied calls cfg w1) p2 w2 m2
    × SameOutput calls cfg p1 p2 m1 m2 (str "initramfs.cpio")
    × SameOutput calls cfg p1 p2 m1 m2 (str "rootfs.sqsh")
verify_reproducibility-SameHash_example =
    verify_reproducibility-SameHash calls cfg [] end_log verified
