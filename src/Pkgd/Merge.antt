-- ===== src/Pkgd/Merge.antt =====
-- internal/pkgd/merger.go: the layers of an image archive, and those of a configuration, applied to
-- a root. filepath.Walk gives its visits in order; the handles of files that are read are `R`.
use Prim.Native.Nat.{bit_and}
use a_from_scratch_linux_use.Base.{
  true, [], ◌&&◌, suc, ◌==◌, one_of, none, is_nil, ◌||◌, ◌∷◌, some, false, map, ℕ, Bool, Option,
  List, Bytes,
}
use a_from_scratch_linux_use.Base.Path.{clean, join_path, base, dir, rel, is_abs}
use a_from_scratch_linux_use.Base.Maps.{lookup, store}
use a_from_scratch_linux_use.Base.Io.{
  pure, Io, Result, ok, err, asks, call, for_each, raise, raise_if, ◌>>=◌, ◌>>◌,
}
use a_from_scratch_linux_use.Pkgd.Paths.{Files}
use a_from_scratch_linux_use.Pkgd.Extract.{extract_layer_tarball, ExtractError, Archive}
use a_from_scratch_linux_use.Pkgd.Inspect.{
  image_broken, image_end, open_tar, is_gzip_name, image_entry, inspect_oci_archive, unzipped,
  ImageEntries, ArchiveError, ImageCalls,
}
use a_from_scratch_linux_use.Pkgd.Layer.{LayerSpec}
pub mod Layers
pub mod Confined
mod Tests

pub data MergeError : Type 0 where
  not_inspected : ArchiveError → MergeError
  no_layers : Bytes → MergeError
  not_reopened : ArchiveError → MergeError
  entry_unread : MergeError
  payload_unread : Bytes → MergeError
  payload_missing : Bytes → MergeError
  layer_not_gzip : Bytes → MergeError
  layer_failed : ℕ → Bytes → ExtractError → MergeError

-- The set of the cleaned paths of the layers.
abbrev layer_set : List Bytes → List Bytes
layer_set ps = map clean ps

-- The bodies of the layers, by their cleaned names; the last entry of a name counts.
unfoldable pub cache_layers :
    List Bytes → List (Bytes × Bytes) → ImageEntries → Result MergeError (List (Bytes × Bytes))
cache_layers ps cached image_end = ok cached
cache_layers ps cached image_broken = err entry_unread
cache_layers ps cached (image_entry name body rest) = elim (one_of (clean name) (layer_set ps)) [
  | false ↦ cache_layers ps cached rest
  | true ↦ elim body [
    | none ↦ err (payload_unread (clean name))
    | some bytes ↦ cache_layers ps (store cached (clean name) bytes) rest
  ]
]

-- The first two bytes of gzip.
abbrev pub is_gzip_data : Bytes → Bool
is_gzip_data [] = false
is_gzip_data (a ∷ []) = false
is_gzip_data (a ∷ b ∷ rest) = a == 0x1f && b == 0x8b

-- An answer that leaves the world as it is.
abbrev pub reads : {W E A : Type 0} → (W → Result E A) → Io W E A
reads f w = (w, f w)

abbrev pub reworded : {E F A : Type 0} → (E → F) → Result E A → Result F A
reworded f (ok a) = ok a
reworded f (err e) = err (f e)

-- An error, as the caller words it.
abbrev pub wrapped : {W E F A : Type 0} → (E → F) → Io W E A → Io W F A
wrapped f m w = let r = m w in (r.0, reworded f r.1)

module _ {W S H : Type 0} (k : ImageCalls W S H) where
  -- The reader of one layer's body.
  abbrev pub layer_stream : Bytes → Bytes → Result MergeError S
  layer_stream path bytes =
      unzipped k (is_gzip_data bytes || is_gzip_name path) (layer_not_gzip path) (k.of_bytes bytes)

  abbrev pub found_layer : Bytes → Option Bytes → Result MergeError S
  found_layer path none = err (payload_missing path)
  found_layer path (some bytes) = layer_stream path bytes

  -- ExtractLayerTarball of a stream.
  abbrev pub extract_stream : Bytes → S → Io W ExtractError (Unit {0})
  extract_stream root s = extract_layer_tarball (k.files s) root (k.archive s)

  -- One turn of the loop over the layers, for the layer number `idx`.
  unfoldable pub unpack_layer :
      Bytes → List (Bytes × Bytes) → ℕ → Bytes → Io W MergeError (Unit {0})
  unpack_layer root cached idx path = do
    s ← reads (λ w. found_layer path (lookup cached (clean path)))
    wrapped (layer_failed idx path) (extract_stream root s)

  -- The loop over the layers, in their order.
  unfoldable pub unpack_layers :
      Bytes → List (Bytes × Bytes) → ℕ → List Bytes → Io W MergeError (Unit {0})
  unpack_layers root cached idx [] = pure tt
  unpack_layers root cached idx (p ∷ ps) = do
    unpack_layer root cached idx p
    unpack_layers root cached (suc idx) ps

  -- UnpackOCIArchive
  unfoldable pub unpack_oci_archive : Bytes → Bytes → Io W MergeError (Unit {0})
  unpack_oci_archive path root = do
    info ← reads (λ w. reworded not_inspected (inspect_oci_archive k path w))
    raise_if (is_nil info.layer_paths) (no_layers path)
    s ← reads (λ w. reworded not_reopened (open_tar k path w))
    cached ← reads (λ w. cache_layers info.layer_paths [] (k.entries s))
    unpack_layers root cached 0 info.layer_paths
