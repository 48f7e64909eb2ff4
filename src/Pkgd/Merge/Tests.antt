-- ===== src/Pkgd/Merge/Tests.antt =====
-- Concrete images and layers, in a world that writes down what is made and created.
use a_from_scratch_linux_use.Base.Maps.{lookup, store}
use a_from_scratch_linux_use.Base.{
  has_prefix, one_of, has_suffix, str_eq, ◌≡◌, ◌==◌, false, [], if◌then◌else◌, none, str, true, ◌∷◌,
  some, ℕ, List, Bytes, refl,
}
use a_from_scratch_linux_use.Base.Path.{split_path, dir, base, rel, join_path, clean}
use a_from_scratch_linux_use.Base.Io.{err, ok}
use a_from_scratch_linux_use.Pkgd.Paths.{
  check_parents, in_root, is_traversal, clean_below, safe_path_clean, safe_path_clean, traversal,
  Files, missing, no_directory,
}
use a_from_scratch_linux_use.Pkgd.Extract.{
  extract_kind, extract_entry, extract_layer_tarball, rejected, Archive, entry, end_of_archive,
  type_dir,
}
use a_from_scratch_linux_use.Pkgd.Inspect.{
  find_manifest, inspect_oci_archive, image_end, image_entry, ImageCalls,
}
use a_from_scratch_linux_use.Pkgd.Layer.{LayerSpec}
use a_from_scratch_linux_use.Pkgd.Merge.{
  unpack_layer, unpack_layers, cache_layers, layer_failed, unpack_oci_archive,
}
use a_from_scratch_linux_use.Pkgd.Merge.Layers.{
  target_path, copy_executable_file, copy_visit, copy_directory_tree, apply_layer, merge_layer,
  merge_layers, visit, merge_layer_config, CopyCalls,
}

-- The paths made, the last one first.
abbrev Trail : Type 0
Trail = List Bytes

abbrev disk : Files Trail ℕ
disk = record {
  abs = λ p. some p;
  lstat = λ p w. missing;
  eval_symlinks = λ p w. none;
  read_dir = λ p w. no_directory;
  open_directory = λ p w. none;
  open_beneath = λ d p flags mode w. (w, none);
  open_file = λ p flags mode w. (p ∷ w, some 0);
  copy = λ h w. (w, true);
  mkdir_all = λ p w. (p ∷ w, true);
  remove = λ p w. (w, false);
  remove_all = λ p w. (w, true);
  make_symlink = λ link p w. (w, true);
  make_link = λ from p w. (w, false);
}

-- A stream is the bytes of a file; the layer "b" is one directory, and any other is empty.
abbrev layer_of : Bytes → Archive
layer_of [] = end_of_archive
layer_of (c ∷ s) =
    if c == b'b'
    then entry (record { name = str "../etc"; typeflag = type_dir; mode = 493; linkname = [] })
        end_of_archive
    else entry (record { name = str "bin"; typeflag = type_dir; mode = 493; linkname = [] })
        end_of_archive

abbrev image : ImageCalls Trail Bytes ℕ
image = record {
  open_stream = λ p w. some (str "image");
  gunzip = λ s. none;
  of_bytes = λ b. b;
  entries = λ s. image_entry (str "./a.tar") (some (str "a")) (
      image_entry (str "b.tar") (some (str "b"))
        (image_entry (str "manifest.json") (some (str "{}")) image_end));
  archive = layer_of;
  files = λ s. disk;
  docker_manifest = λ b.
      some (record { config = []; repo_tags = []; layers = str "a.tar" ∷ str "b.tar" ∷ [] } ∷ []);
}

-- The first layer is extracted; the second one leaves the root and is rejected.
second_rejected : unpack_oci_archive image (str "/img.tar") (str "/root") [] ≡ (
  str "/root/bin" ∷ [],
  err (layer_failed 1 (str "b.tar") (rejected (str "../etc") (traversal (str "../etc")))),
)
unfolding unpack_oci_archive inspect_oci_archive has_suffix find_manifest clean cache_layers one_of
    unpack_layers unpack_layer extract_layer_tarball extract_entry safe_path_clean clean_below
    is_traversal in_root extract_kind check_parents base dir has_prefix str_eq join_path split_path
    lookup store
second_rejected = refl

abbrev calls : CopyCalls Trail Bytes ℕ ℕ
calls = record {
  image = image;
  exists = λ p w. true;
  walk = λ p w.
      visit p true
      ∷ visit (join_path p (str "bin")) true
      ∷ visit (join_path p (str "bin/sh")) false
      ∷ [];
  make_all = λ p w. (p ∷ w, true);
  open_source = λ p w. (w, some 0);
  mode_of = λ r w. (w, some 493);
  create = λ p mode w. (p ∷ w, some 0);
  copy_all = λ h r w. (w, true);
}

abbrev layer_of_kind : Bytes → Bytes → Bytes → LayerSpec
layer_of_kind kind path target = record {
  name = str "l";
  kind = kind;
  path = path;
  target_dir = target;
  sha256 = [];
}

-- A directory, and a binary whose target directory leaves the root: nothing refuses it.
target_escapes :
    merge_layer_config calls
      (some (record {
        layers =
            layer_of_kind (str "directory") (str "tree") []
            ∷ layer_of_kind (str "binary") (str "/bin/app") (str "../usr")
            ∷ [];
      }))
      (str "/conf")
      (str "/root")
      []
    ≡ (
      str "/usr/app"
          ∷ str "/usr"
          ∷ str "/usr"
          ∷ str "/root/bin/sh"
          ∷ str "/root/bin"
          ∷ str "/root/bin"
          ∷ str "/root"
          ∷ [],
      ok tt,
    )
unfolding merge_layer_config merge_layers merge_layer apply_layer str_eq copy_directory_tree
    copy_visit rel join_path copy_executable_file target_path base dir
target_escapes = refl
