-- ===== src/Pkgd/Merge/Layers.antt =====
-- internal/pkgd/merger.go: MergeLayerConfig, and the copies of directories and binaries.
-- filepath.Walk gives its visits in order; the handles of files that are read are `R`.
use Prim.Native.Nat.{bit_and}
use a_from_scratch_linux_use.Base.{
  [], suc, str, none, ◌∷◌, not, is_nil, str_eq, ◌==◌, some, if◌then◌else◌, ℕ, Bool, Option, List,
  Bytes,
}
use a_from_scratch_linux_use.Base.Path.{join_path, base, dir, rel, is_abs}
use a_from_scratch_linux_use.Base.Io.{
  pure, gets, or_raise, Io, Result, err, asks, call, for_each, raise, raise_if, ◌>>=◌, ◌>>◌,
}
use a_from_scratch_linux_use.Pkgd.Extract.{ExtractError}
use a_from_scratch_linux_use.Pkgd.Inspect.{is_gzip_name, unzipped, ImageCalls}
use a_from_scratch_linux_use.Pkgd.Layer.{
  layer_type_binary, layer_type_directory, layer_type_tarball, layer_type_oci_archive, LayerConfig,
  LayerSpec,
}
use a_from_scratch_linux_use.Pkgd.Merge.{
  extract_stream, unpack_oci_archive, MergeError, wrapped, reads,
}

-- One call of the function that Walk is given.
pub data Visit : Type 0 where
  walk_error : Visit
  visit : Bytes → Bool → Visit

-- The calls of package os and of io.Copy; `create` is os.OpenFile with O_CREATE, O_WRONLY and
-- O_TRUNC.
pub record CopyCalls (W S R H : Type 0) : Type 0 where
  pub image : ImageCalls W S H
  pub exists : Bytes → W → Bool
  pub walk : Bytes → W → List Visit
  pub make_all : Bytes → W → W × Bool
  pub open_source : Bytes → W → W × Option R
  pub mode_of : R → W → W × Option ℕ
  pub create : Bytes → ℕ → W → W × Option H
  pub copy_all : H → R → W → W × Bool

pub data CopyError : Type 0 where
  source_failed mode_failed copy_broken : Bytes → CopyError
  directory_failed create_failed : Bytes → CopyError
  walk_failed : CopyError
  unrelated : Bytes → CopyError

pub data LayerError : Type 0 where
  source_missing : ℕ → Bytes → LayerError
  target_failed : LayerError
  archive_failed : Bytes → MergeError → LayerError
  tarball_not_opened tarball_not_gzip : Bytes → LayerError
  tarball_failed : Bytes → ExtractError → LayerError
  directory_layer_failed binary_layer_failed : Bytes → CopyError → LayerError
  unsupported : Bytes → Bytes → LayerError

module _ {W S R H : Type 0} (k : CopyCalls W S R H) where
  -- copyExecutableFile
  unfoldable pub copy_executable_file : Bytes → Bytes → Io W CopyError (Unit {0})
  copy_executable_file from to = do
    source ← asks (k.open_source from) (source_failed from)
    bits ← asks (k.mode_of source) (mode_failed from)
    let mode = if bit_and bits 73 == 0 then 420 else 493
    call (k.make_all (dir to)) (directory_failed (dir to))
    file ← asks (k.create to mode) (create_failed to)
    call (k.copy_all file source) (copy_broken from)

  -- An entry at a path relative to the source.
  abbrev pub copy_below : Bytes → Bytes → Bytes → Bool → Io W CopyError (Unit {0})
  copy_below to below path is_dir =
      if str_eq below (str ".")
      then pure tt
      else if is_dir
      then call (k.make_all (join_path to below)) (directory_failed (join_path to below))
      else copy_executable_file path (join_path to below)

  -- The function that copyDirectoryTree gives to Walk.
  unfoldable pub copy_visit : Bytes → Bytes → Visit → Io W CopyError (Unit {0})
  copy_visit from to walk_error = raise walk_failed
  copy_visit from to (visit path is_dir) =
      or_raise (rel from path) (unrelated path) >>= λ below. copy_below to below path is_dir

  -- copyDirectoryTree
  unfoldable pub copy_directory_tree : Bytes → Bytes → Io W CopyError (Unit {0})
  copy_directory_tree from to = do visits ← gets (k.walk from); for_each visits (copy_visit from to)

  abbrev opened_tarball : LayerSpec → Bytes → Option S → Result LayerError S
  opened_tarball l path none = err (tarball_not_opened l.name)
  opened_tarball l path (some s) = unzipped k.image (is_gzip_name path) (tarball_not_gzip l.name) s

  -- The switch over the type of a layer.
  unfoldable pub apply_layer : LayerSpec → Bytes → Bytes → Io W LayerError (Unit {0})
  apply_layer l path target =
      if str_eq l.kind layer_type_oci_archive
      then wrapped (archive_failed l.name) (unpack_oci_archive k.image path target)
      else if str_eq l.kind layer_type_tarball
      then (reads (λ w. opened_tarball l path (k.image.open_stream path w)) >>= λ s.
          wrapped (tarball_failed l.name) (extract_stream k.image target s))
      else if str_eq l.kind layer_type_directory
      then wrapped (directory_layer_failed l.name) (copy_directory_tree path target)
      else if str_eq l.kind layer_type_binary
      then wrapped (binary_layer_failed l.name)
          (copy_executable_file path (join_path target (base path)))
      else raise (unsupported l.kind l.name)

  -- Where a layer comes from, and where it goes.
  abbrev pub source_path : Bytes → LayerSpec → Bytes
  source_path base_dir l = if is_abs l.path then l.path else join_path base_dir l.path

  unfoldable pub target_path : Bytes → LayerSpec → Bytes
  target_path root l = if is_nil l.target_dir then root else join_path root l.target_dir

  -- One turn of the loop of MergeLayerConfig, for the layer number `idx`.
  unfoldable pub merge_layer : Bytes → Bytes → ℕ → LayerSpec → Io W LayerError (Unit {0})
  merge_layer base_dir root idx l = do
    there ← gets (k.exists (source_path base_dir l))
    raise_if (not there) (source_missing idx l.name)
    call (k.make_all (target_path root l)) target_failed
    apply_layer l (source_path base_dir l) (target_path root l)

  -- The loop of MergeLayerConfig.
  unfoldable pub merge_layers : Bytes → Bytes → ℕ → List LayerSpec → Io W LayerError (Unit {0})
  merge_layers base_dir root idx [] = pure tt
  merge_layers base_dir root idx (l ∷ ls) = do
    merge_layer base_dir root idx l
    merge_layers base_dir root (suc idx) ls

  -- MergeLayerConfig
  unfoldable pub merge_layer_config :
      Option LayerConfig → Bytes → Bytes → Io W LayerError (Unit {0})
  merge_layer_config none base_dir root = pure tt
  merge_layer_config (some cfg) base_dir root = merge_layers base_dir root 0 cfg.layers
