-- ===== src/Pkgd/Tests.antt =====
-- Runs of internal/pkgd on files of which every parent is a link to "/srv/root".
use a_from_scratch_linux_use.Pkgd.Parents.{safe_path_clean-parents, below, LeadsInto}
use a_from_scratch_linux_use.Pkgd.Confined.{logged}
use a_from_scratch_linux_use.Pkgd.Touched.{removes, symlinks, makes, opens_beneath, opens}
use a_from_scratch_linux_use.Base.Path.{dir, rel, base, join_path, split_path, clean}
use a_from_scratch_linux_use.Pkgd.Extract.{
  broken_entry, end_of_archive, type_link, type_reg, type_symlink, extract_kind, type_dir, Header,
  extract_entry, entry, Typeflag, extract_layer_tarball, Archive,
}
use a_from_scratch_linux_use.Pkgd.Paths.{
  open_in, safe_open_file, link_destination, validate_symlink_target, in_root, traversal, names,
  is_traversal, check_parents, symlink, clean_below, safe_path_clean, Files,
}
use a_from_scratch_linux_use.Base.Io.{ok, err}
use a_from_scratch_linux_use.Base.{
  str_eq, has_prefix, true, none, ltb, if◌then◌else◌, ◌++◌, ◌+◌, refl, false, [], ◌∷◌, str, some,
  ◌≡◌, Bytes, ℕ,
}

-- The world counts the calls; the third call of Openat2 or OpenFile and those behind it fail.
abbrev disk : Files ℕ ℕ
disk = record {
  abs = λ p. some p;
  lstat = λ p w. symlink;
  eval_symlinks = λ p w. some (str "/srv/root");
  read_dir = λ p w. names (str "old" ∷ []);
  open_directory = λ p w. some 0;
  open_beneath = λ d p flags mode w. (w + 1, if ltb w 3 then some w else none);
  open_file = λ p flags mode w. (w + 1, if ltb w 3 then some w else none);
  copy = λ h w. (w + 1, true);
  mkdir_all = λ p w. (w + 1, true);
  remove = λ p w. (w + 1, false);
  remove_all = λ p w. (w + 1, true);
  make_symlink = λ link p w. (w + 1, true);
  make_link = λ from p w. (w + 1, false);
}

abbrev file : Bytes → Typeflag → Bytes → Header
file name t link = record { name = name; typeflag = t; mode = 420; linkname = link }

abbrev layer : Archive
layer = entry (file (str "etc") type_dir []) (
    entry (file (str "etc/.wh.passwd") type_reg []) (
      entry (file (str "etc/app/.wh..wh..opq") type_reg []) (
        entry (file (str "bin/sh") type_symlink (str "/bin/busybox")) (
          entry (file (str "bin/ls") type_link (str "bin/sh"))
            (entry (file (str "etc/../x") type_reg []) broken_entry)))))

-- An entry "." that is a link takes the place of the destination, and what follows is opened
-- beneath the directory that the link leads to.
root_is_replaced :
    (extract_layer_tarball
      (logged disk)
      (str "/srv/root")
      (entry
        (file (str ".") type_symlink (str "/etc"))
        (entry (file (str "shadow") type_reg []) end_of_archive))
      (0, [])).0.1
    ≡ opens (str "/srv/root/shadow")
      ∷ opens_beneath (str "shadow")
      ∷ makes (str "/srv/root")
      ∷ symlinks (str "/etc") (str "/srv/root")
      ∷ removes (str "/srv/root")
      ∷ makes (str "/srv")
      ∷ []
unfolding extract_layer_tarball extract_entry extract_kind safe_path_clean clean_below is_traversal
    has_prefix clean str_eq in_root join_path check_parents base validate_symlink_target
    link_destination safe_open_file open_in rel dir
root_is_replaced = refl

abbrev accepted : Bytes
accepted = str "/srv/root/usr/lib/x"

accepted-ok : safe_path_clean disk (str "/srv/root/") (str "usr//lib/./x") 0 ≡ ok accepted
unfolding safe_path_clean clean_below check_parents is_traversal has_prefix clean str_eq in_root
    join_path
accepted-ok = refl

accepted-parts :
    split_path (clean (str "usr//lib/./x")) ≡ (str "usr" ∷ []) ++ str "lib" ∷ str "x" ∷ []
unfolding clean split_path str_eq
accepted-parts = refl

safe_path_clean-parents_example :
    (accepted ≡ join_path (clean (str "/srv/root/")) (clean (str "usr//lib/./x")))
    × (is_traversal (clean (str "usr//lib/./x")) ≡ false)
    × LeadsInto disk
        (clean (str "/srv/root/"))
        (join_path (below (clean (str "/srv/root/")) (str "usr" ∷ [])) (str "lib"))
        0
unfolding str_eq
safe_path_clean-parents_example =
    safe_path_clean-parents disk (str "/srv/root/") (str "/srv/root/") (str "usr//lib/./x") accepted
      (str "usr" ∷ []) (str "lib") (str "x") [] 0 refl accepted-ok accepted-parts
      (refl, (λ h. cc), tt) refl refl

traversal_rejected :
    safe_path_clean disk (str "/srv/root") (str "a/../../x") 0 ≡ err (traversal (str "a/../../x"))
unfolding safe_path_clean clean_below check_parents is_traversal has_prefix clean str_eq
traversal_rejected = refl
