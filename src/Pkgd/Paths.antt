-- ===== src/Pkgd/Paths.antt =====
-- internal/pkgd/extract.go: which paths of an archive may be used. The calls of package os and of
-- the kernel are a record on a world `W`, with the handles `H` of open files.
use Prim.Native.Nat.{bit_or}
use a_from_scratch_linux_use.Base.Path.{split_path, dir, rel, join_path, clean}
use a_from_scratch_linux_use.Base.{
  false, [], true, ◌∷◌, ◌||◌, is_nil, none, str, ◌++◌, some, if◌then◌else◌, str_eq, Bool, Option,
  has_prefix, Bytes, List, ℕ,
}
use a_from_scratch_linux_use.Base.Io.{Result, ok, err}

-- What os.Lstat finds.
pub data Stat : Type 0 where
  missing : Stat
  unreadable : Stat
  symlink : Stat
  no_symlink : Stat

-- What os.ReadDir gives.
pub data Listing : Type 0 where
  no_directory : Listing
  unlisted : Listing
  names : List Bytes → Listing

-- `open_directory` is unix.Open with O_PATH, and `open_beneath` is unix.Openat2 with
-- RESOLVE_BENEATH; flags come before the mode. `copy` is io.Copy of the body of the entry that was
-- read last.
pub record Files (W H : Type 0) : Type 0 where
  pub abs : Bytes → Option Bytes
  pub lstat : Bytes → W → Stat
  pub eval_symlinks : Bytes → W → Option Bytes
  pub read_dir : Bytes → W → Listing
  pub open_directory : Bytes → W → Option H
  pub open_beneath : H → Bytes → ℕ → ℕ → W → W × Option H
  pub open_file : Bytes → ℕ → ℕ → W → W × Option H
  pub copy : H → W → W × Bool
  pub mkdir_all : Bytes → W → W × Bool
  pub remove : Bytes → W → W × Bool
  pub remove_all : Bytes → W → W × Bool
  pub make_symlink : Bytes → Bytes → W → W × Bool
  pub make_link : Bytes → Bytes → W → W × Bool

pub data PathError : Type 0 where
  empty_path : PathError
  no_destination : Bytes → PathError
  traversal : Bytes → PathError
  escapes : Bytes → Bytes → PathError
  unreadable_parent : Bytes → PathError
  unresolved : Bytes → PathError
  breakout : Bytes → Bytes → PathError
  link_escapes : Bytes → Bytes → PathError

-- The path is the root, or begins with it and a "/".
unfoldable pub in_root : Bytes → Bytes → Bool
in_root root p = has_prefix p (root ++ str "/") || str_eq p root

-- A cleaned path that leaves its directory.
unfoldable pub is_traversal : Bytes → Bool
is_traversal p = has_prefix p (str "/") || has_prefix p (str "../") || str_eq p (str "..")

-- The path that a symbolic link at `target` would lead to, with an absolute link taken below the
-- root.
unfoldable pub link_destination : Bytes → Bytes → Bytes → Bytes
link_destination root target link =
    clean (if has_prefix link (str "/") then join_path root link else join_path (dir target) link)

module _ {W H : Type 0} (k : Files W H) where
  -- The loop of SafePathClean over the components below `curr`, the last one left out: an error
  -- where a parent is a link out of the root, none otherwise. It stops at a parent that is missing.
  unfoldable pub check_parents : Bytes → Bytes → List Bytes → W → Option PathError
  check_parents root curr [] w = none
  check_parents root curr (p ∷ []) w = none
  check_parents root curr (p ∷ q ∷ ps) w = elim (is_nil p || str_eq p (str ".")) [
    | true ↦ check_parents root curr (q ∷ ps) w
    | false ↦
        let next = join_path curr p in
        elim (k.lstat next w) [
          | missing ↦ none
          | unreadable ↦ some (unreadable_parent next)
          | no_symlink ↦ check_parents root next (q ∷ ps) w
          | symlink ↦ elim (k.eval_symlinks next w) [
            | none ↦ some (unresolved next)
            | some resolved ↦ elim (in_root root resolved) [
              | true ↦ check_parents root next (q ∷ ps) w
              | false ↦ some (breakout next resolved)
            ]
          ]
        ]
  ]

  abbrev pub or_error : Option PathError → Bytes → Result PathError Bytes
  or_error none p = ok p
  or_error (some e) p = err e

  -- SafePathClean below a destination that is absolute and clean.
  unfoldable pub clean_below : Bytes → Bytes → W → Result PathError Bytes
  clean_below root path w =
      let relative = clean path in
      let target = join_path root relative in
      if is_traversal relative
      then err (traversal path)
      else if in_root root target
      then or_error (check_parents root root (split_path relative) w) target
      else err (escapes path root)

  -- SafePathClean
  unfoldable pub safe_path_clean : Bytes → Bytes → W → Result PathError Bytes
  safe_path_clean dest path w = if is_nil path then err empty_path else elim (k.abs dest) [
    | none ↦ err (no_destination dest)
    | some a ↦ clean_below (clean a) path w
  ]

  -- ValidateSymlinkTarget, none where the link is accepted.
  unfoldable pub validate_symlink_target : Bytes → Bytes → Bytes → Option PathError
  validate_symlink_target dest target link = elim (k.abs dest) [
    | none ↦ some (no_destination dest)
    | some a ↦
        if in_root (clean a) (link_destination (clean a) target link)
        then none
        else some (link_escapes link (clean a))
  ]

  -- SafeOpenFile, the first attempt. unix.O_CLOEXEC is 0x80000.
  unfoldable pub open_in : Bytes → Bytes → ℕ → ℕ → W → W × Option H
  open_in root target flags mode w = elim (k.open_directory root w) [
    | none ↦ (w, none)
    | some directory ↦ elim (rel root target) [
      | none ↦ (w, none)
      | some below ↦
          if has_prefix below (str "..")
          then (w, none)
          else k.open_beneath directory below (bit_or flags 0x80000) mode w
    ]
  ]

  abbrev pub or_open : Bytes → ℕ → ℕ → W × Option H → W × Option H
  or_open target flags mode (w, none) = k.open_file target flags mode w
  or_open target flags mode (w, some h) = (w, some h)

  -- SafeOpenFile, none where it is an error.
  unfoldable pub safe_open_file : Bytes → Bytes → ℕ → ℕ → W → W × Option H
  safe_open_file dest target flags mode w = elim (k.abs dest) [
    | none ↦ (w, none)
    | some a ↦ or_open target flags mode (open_in (clean a) target flags mode w)
  ]
