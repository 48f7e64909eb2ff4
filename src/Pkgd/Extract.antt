-- ===== src/Pkgd/Extract.antt =====
-- internal/pkgd/oci.go: the unpacking of one layer. An archive is what tar.Reader.Next gives: the
-- headers of its entries, then the end of the archive or an error.
use Prim.Native.Nat.{bit_and}
use a_from_scratch_linux_use.Base.Path.{base, dir, join_path}
use a_from_scratch_linux_use.Pkgd.Paths.{
  unlisted, no_directory, names, validate_symlink_target, safe_open_file, Listing, safe_path_clean,
  Files, PathError,
}
use a_from_scratch_linux_use.Base.{
  ◌&&◌, not, trim_prefix, ◌==◌, has_prefix, false, none, str_eq, true, some, if◌then◌else◌, Bool,
  Option, str, Bytes, ℕ,
}
use a_from_scratch_linux_use.Base.Io.{
  when, ignoring, asks, call, for_each, raise, pure, Io, Result, ok, err, ◌>>=◌, ◌>>◌,
}

pub data Typeflag : Type 0 where
  type_dir type_reg type_symlink type_link type_other : Typeflag

-- tar.Header; tar.TypeRegA is a type_reg.
pub record Header : Type 0 where
  pub name : Bytes
  pub typeflag : Typeflag
  pub mode : ℕ
  pub linkname : Bytes

pub data Archive : Type 0 where
  end_of_archive : Archive
  broken_entry : Archive
  entry : Header → Archive → Archive

pub data ExtractError : Type 0 where
  bad_entry : ExtractError
  rejected : Bytes → PathError → ExtractError
  opaque_rejected file_rejected : PathError → ExtractError
  not_cleared : Bytes → ExtractError
  dir_failed parent_failed open_failed copy_failed : Bytes → ExtractError
  symlink_rejected link_rejected : Bytes → Bytes → PathError → ExtractError
  symlink_failed : Bytes → Bytes → ExtractError

abbrev whiteout_prefix : Bytes
whiteout_prefix = str ".wh."

abbrev opaque_whiteout : Bytes
opaque_whiteout = str ".wh..wh..opq"

-- An error of a path, as the caller words it.
abbrev pub worded :
    {A : Type 0} → (PathError → ExtractError) → Result PathError A → Result ExtractError A
worded f (ok a) = ok a
worded f (err e) = err (f e)

-- os.O_CREATE|os.O_WRONLY|os.O_TRUNC
abbrev create_flags : ℕ
create_flags = 0x241

module _ {W H : Type 0} (k : Files W H) where
  -- A path that SafePathClean lets through.
  abbrev pub safe : (PathError → ExtractError) → Bytes → Bytes → Io W ExtractError Bytes
  safe f dest path w = (w, worded f (safe_path_clean k dest path w))

  abbrev pub attempt : {A : Type 0} → (W → W × A) → Io W ExtractError A
  attempt f w = let r = f w in (r.0, ok r.1)

  abbrev pub removed : Bytes → Listing → Io W ExtractError (Unit {0})
  removed directory no_directory = pure tt
  removed directory unlisted = raise (not_cleared directory)
  removed directory (names es) =
      for_each es λ e. call (k.remove_all (join_path directory e)) (not_cleared directory)

  -- clearDirectoryContents
  unfoldable pub clear_directory_contents : Bytes → Io W ExtractError (Unit {0})
  clear_directory_contents directory w = removed directory (k.read_dir directory w) w

  -- What a link or symlink with an accepted name finds.
  abbrev pub rejects : (PathError → ExtractError) → Option PathError → Io W ExtractError (Unit {0})
  rejects f none = pure tt
  rejects f (some e) = raise (f e)

  abbrev pub is_none : Option PathError → Bool
  is_none none = true
  is_none (some e) = false

  -- The switch of ExtractLayerTarball over the type of an entry.
  unfoldable pub extract_kind : Bytes → Bytes → Header → Typeflag → Io W ExtractError (Unit {0})
  extract_kind dest target h type_dir = call (k.mkdir_all target) (dir_failed target)
  extract_kind dest target h type_reg = do
    call (k.mkdir_all (dir target)) (parent_failed target)
    let mode = if bit_and h.mode 73 == 0 then 420 else 493
    file ← asks (safe_open_file k dest target create_flags mode) (open_failed target)
    call (k.copy file) (copy_failed target)
  extract_kind dest target h type_symlink = do
    rejects (symlink_rejected h.name h.linkname) (validate_symlink_target k dest target h.linkname)
    call (k.mkdir_all (dir target)) (parent_failed target)
    ignoring (k.remove target)
    call (k.make_symlink h.linkname target) (symlink_failed target h.linkname)
  extract_kind dest target h type_link = do
    link_target ← safe (link_rejected h.name h.linkname) dest h.linkname
    call (k.mkdir_all (dir target)) (parent_failed target)
    ignoring (k.remove target)
    linked ← attempt (k.make_link link_target target)
    when (not linked && is_none (validate_symlink_target k dest target h.linkname))
        (ignoring (k.make_symlink h.linkname target))
  extract_kind dest target h type_other = pure tt

  -- One turn of the loop of ExtractLayerTarball.
  unfoldable pub extract_entry : Bytes → Header → Io W ExtractError (Unit {0})
  extract_entry dest h = do
    target ← safe (rejected h.name) dest h.name
    let base_name = base h.name
    let dir_name = dir h.name
    if str_eq base_name opaque_whiteout
        then (safe opaque_rejected dest dir_name >>= clear_directory_contents)
        else if has_prefix base_name whiteout_prefix
        then (safe file_rejected dest (join_path dir_name (trim_prefix base_name whiteout_prefix))
            >>= λ file. ignoring (k.remove_all file))
        else extract_kind dest target h h.typeflag

  -- ExtractLayerTarball
  unfoldable pub extract_layer_tarball : Bytes → Archive → Io W ExtractError (Unit {0})
  extract_layer_tarball dest end_of_archive = pure tt
  extract_layer_tarball dest broken_entry = raise bad_entry
  extract_layer_tarball dest (entry h rest) = do
    extract_entry dest h
    extract_layer_tarball dest rest
