-- ===== src/Pkgd/Confined.antt =====
-- What the unpacking of a layer may touch. The calls are written down as they are made.
pub mod Entries
use Prim.Native.Nat.{bit_or, bit_and}
use a_from_scratch_linux_use.Pkgd.Touched.{
  links, symlinks, removes_all, InRoot-IsAbs, removes, link_destination-NoUp, makes, in_root-InRoot,
  opens, Allowed, InRoot, opens_beneath, IsEntryName, Touch,
}
use a_from_scratch_linux_use.Base.Path.Up.{
  clean-NoUp, dir-IsAbs, clean-IsAbs, join_path-NoUp, join_path-IsAbs, IsAbs, NoUp,
}
use a_from_scratch_linux_use.Pkgd.Extract.{
  type_other, type_link, type_symlink, type_reg, type_dir, attempt, link_rejected, copy_failed,
  open_failed, broken_entry, rejected, not_cleared, end_of_archive, file_rejected, is_none,
  symlink_failed, entry, opaque_rejected, Archive, dir_failed, symlink_rejected, parent_failed,
  removed, extract_layer_tarball, rejects, worded, extract_kind, extract_entry, Typeflag, safe,
  Header, clear_directory_contents, ExtractError,
}
use a_from_scratch_linux_use.Base.Path.{is_abs, rel, split_path, base, clean, join_path, dir}
use a_from_scratch_linux_use.Pkgd.Paths.{
  unlisted, no_directory, check_parents, names, is_traversal, escapes, or_open, Listing, or_error,
  traversal, open_in, clean_below, safe_open_file, validate_symlink_target, safe_path_clean,
  link_destination, PathError, in_root, Files,
}
use a_from_scratch_linux_use.Base.{
  str_eq_iff, append_assoc, ◌∙◌, [], ◌≢◌, ◌++◌, ◌==◌, str_eq, refl, inr, inl, ◌&&◌, trim_prefix,
  not, sym, subst, if◌then◌else◌, arith, Bool, none, All, some, false, str, has_prefix, true, ◌∷◌,
  ◌≡◌, Option, List, ◌⊎◌, Bytes, ℕ,
}
use a_from_scratch_linux_use.Base.Keeps.{
  asks-Keeps, if-Keeps, for_each-Keeps, bind-Keeps, call-Keeps, result-Keeps, Keeps,
}
use a_from_scratch_linux_use.Base.Io.{
  for_each, asks, ignoring, when, call, Io, Result, ok, err, ◌>>=◌, ◌>>◌,
}

module _ {W H : Type 0} (k : Files W H) where
  abbrev noted : {A : Type 0} → Touch → (W → W × A) → W × List Touch → (W × List Touch) × A
  noted t f s = let r = f s.0 in ((r.0, t ∷ s.1), r.1)

  -- The same calls, with a list of what they touch, the last one first.
  abbrev pub logged : Files (W × List Touch) H
  logged = record {
    abs = k.abs;
    lstat = λ p s. k.lstat p s.0;
    eval_symlinks = λ p s. k.eval_symlinks p s.0;
    read_dir = λ p s. k.read_dir p s.0;
    open_directory = λ p s. k.open_directory p s.0;
    open_beneath = λ d p flags mode. noted (opens_beneath p) (k.open_beneath d p flags mode);
    open_file = λ p flags mode. noted (opens p) (k.open_file p flags mode);
    copy = λ h s. let r = k.copy h s.0 in ((r.0, s.1), r.1);
    mkdir_all = λ p. noted (makes p) (k.mkdir_all p);
    remove = λ p. noted (removes p) (k.remove p);
    remove_all = λ p. noted (removes_all p) (k.remove_all p);
    make_symlink = λ link p. noted (symlinks link p) (k.make_symlink link p);
    make_link = λ from p. noted (links from p) (k.make_link from p);
  }

  worded-ok :
      (f : PathError → ExtractError) (r : Result PathError Bytes) (q : Bytes)
      → worded f r ≡ ok q
      → r ≡ ok q
  worded-ok f (ok p) q h = cc
  worded-ok f (err e) q h = cc

  accepted : (p q : Bytes) → ◌≡◌ {A = Result PathError Bytes} (ok p) (ok q) → p ≡ q
  accepted p q h = cc

  clean_below-InRoot :
      (root path : Bytes) (s : W × List Touch) (q : Bytes)
      → IsAbs root
      → clean_below logged root path s ≡ ok q
      → InRoot root q
  unfolding clean_below
  clean_below-InRoot root path s q r h =
      branch (is_traversal (clean path)) (in_root root (join_path root (clean path))) refl
        (check_parents logged root root (split_path (clean path)) s) h
    where
      target : Bytes
      target = join_path root (clean path)

      branch :
          (b c : Bool)
          → in_root root target ≡ c
          → (o : Option PathError)
          → (if b
              then err (traversal path)
              else if c
              then or_error logged o target
              else err (escapes path root))
            ≡ ok q
          → InRoot root q
      branch true c e o h = cc
      branch false false e o h = cc
      branch false true e none h =
          subst (InRoot root) (accepted target q h)
            (in_root-InRoot root target e (join_path-NoUp root (clean path) r))
      branch false true e (some x) h = cc

  -- What is known of package os: filepath.Abs gives an absolute path, and os.ReadDir names.
  module _ (dest a : Bytes) (found : k.abs dest ≡ some a) (absolute : IsAbs a)
      (listed : (p : Bytes) (w : W) (es : List Bytes)
        → k.read_dir p w ≡ names es
        → All IsEntryName es) where
    abbrev root : Bytes
    root = clean a

    -- Everything touched so far is allowed.
    abbrev Fine : W × List Touch → Type 0
    Fine s = All (Allowed root) s.1

    safe_path_clean-InRoot :
        (path : Bytes) (s : W × List Touch) (q : Bytes)
        → safe_path_clean logged dest path s ≡ ok q
        → InRoot root q
    unfolding safe_path_clean
    safe_path_clean-InRoot path s q h =
        clean_below-InRoot root path s q (clean-IsAbs a absolute) (ground arith)

    pub validate-InRoot :
        (target link : Bytes)
        → InRoot root target
        → validate_symlink_target logged dest target link ≡ none
        → InRoot root (link_destination root target link)
    unfolding validate_symlink_target
    validate-InRoot target link i h =
        let h' = clean-IsAbs a absolute in
        in_root-InRoot root (link_destination root target link) (ground arith)
          (link_destination-NoUp root target link h' (InRoot-IsAbs root target h' i))

    pub safe-Keeps :
        {A : Type 0} (f : PathError → ExtractError) (path : Bytes)
        (m : Bytes → Io (W × List Touch) ExtractError A)
        → ((q : Bytes) → InRoot root q → Keeps Fine (m q))
        → Keeps Fine (safe logged f dest path >>= m)
    safe-Keeps f path m h =
        result-Keeps Fine (InRoot root) (λ s. worded f (safe_path_clean logged dest path s)) m
          (λ s q e.
            safe_path_clean-InRoot path s q (worded-ok f (safe_path_clean logged dest path s) q e))
          h

    each-Keeps :
        (d : Bytes) (es : List Bytes)
        → InRoot root d
        → All IsEntryName es
        → Keeps Fine (
            for_each es
              (λ e. call {E = ExtractError} (logged.remove_all (join_path d e)) (not_cleared d)))
    each-Keeps d [] h g s p = p
    each-Keeps d (e ∷ es) h (g, gs) s p =
        let one = λ (e : Bytes).
          call {E = ExtractError} (logged.remove_all (join_path d e)) (not_cleared d) in
        bind-Keeps Fine (one e) (λ u. for_each es one)
          (call-Keeps Fine (logged.remove_all (join_path d e)) (not_cleared d)
            (λ s p. (inr (d, e, h, g, refl), p)))
          (λ u. each-Keeps d es h gs) s p

    removed-Keeps :
        (d : Bytes) (l : Listing)
        → InRoot root d
        → ((es : List Bytes) → l ≡ names es → All IsEntryName es)
        → Keeps Fine (removed logged d l)
    removed-Keeps d no_directory h g s p = p
    removed-Keeps d unlisted h g s p = p
    removed-Keeps d (names es) h g s p = each-Keeps d es h (g es refl) s p

    pub clear-Keeps : (d : Bytes) → InRoot root d → Keeps Fine (clear_directory_contents logged d)
    unfolding clear_directory_contents
    clear-Keeps d h s p = removed-Keeps d (k.read_dir d s.0) h (listed d s.0) s p

    abbrev beneath : ℕ → ℕ → W × List Touch → H → Bytes → Bool → (W × List Touch) × Option H
    beneath flags mode s d below true = (s, none)
    beneath flags mode s d below false = logged.open_beneath d below (bit_or flags 0x80000) mode s

    abbrev tried : ℕ → ℕ → W × List Touch → Option H → Option Bytes → (W × List Touch) × Option H
    tried flags mode s none r = (s, none)
    tried flags mode s (some d) none = (s, none)
    tried flags mode s (some d) (some below) =
        beneath flags mode s d below (has_prefix below (str ".."))

    beneath-Keeps :
        (flags mode : ℕ) (s : W × List Touch) (d : H) (below : Bytes) (b : Bool)
        → has_prefix below (str "..") ≡ b
        → Fine s
        → Fine (beneath flags mode s d below b).0
    beneath-Keeps flags mode s d below true e p = p
    beneath-Keeps flags mode s d below false e p = (e, p)

    tried-Keeps :
        (flags mode : ℕ) (s : W × List Touch) (o : Option H) (r : Option Bytes)
        → Fine s
        → Fine (tried flags mode s o r).0
    tried-Keeps flags mode s none r p = p
    tried-Keeps flags mode s (some d) none p = p
    tried-Keeps flags mode s (some d) (some below) p =
        beneath-Keeps flags mode s d below (has_prefix below (str "..")) refl p

    tried_lem :
        (target : Bytes) (flags mode : ℕ) (s : W × List Touch) (o : Option H) (r : Option Bytes)
        → k.open_directory root s.0 ≡ o
        → rel root target ≡ r
        → open_in logged root target flags mode s ≡ tried flags mode s o r
    unfolding open_in
    tried_lem target flags mode s none r h e = ground arith
    tried_lem target flags mode s (some d) none h e = ground arith
    tried_lem target flags mode s (some d) (some below) h e = ground arith

    open_in-Keeps :
        (target : Bytes) (flags mode : ℕ) (s : W × List Touch)
        → Fine s
        → Fine (open_in logged root target flags mode s).0
    open_in-Keeps target flags mode s p =
        let o = k.open_directory root s.0 in
        let r = rel root target in
        subst (λ x. Fine x.0) (sym (tried_lem target flags mode s o r refl refl))
          (tried-Keeps flags mode s o r p)

    or_open-Keeps :
        (target : Bytes) (flags mode : ℕ) (r : (W × List Touch) × Option H)
        → InRoot root target
        → Fine r.0
        → Fine (or_open logged target flags mode r).0
    or_open-Keeps target flags mode (s, none) h p = (h, p)
    or_open-Keeps target flags mode (s, some d) h p = p

    abbrev opened : Bytes → ℕ → ℕ → W × List Touch → Option Bytes → (W × List Touch) × Option H
    opened target flags mode s none = (s, none)
    opened target flags mode s (some b) =
        or_open logged target flags mode (open_in logged (clean b) target flags mode s)

    pub open-Keeps :
        (target : Bytes) (flags mode : ℕ) (s : W × List Touch)
        → InRoot root target
        → Fine s
        → Fine (safe_open_file logged dest target flags mode s).0
    unfolding safe_open_file
    open-Keeps target flags mode s h p =
        subst (λ o. Fine (opened target flags mode s o).0) (sym found)
          (or_open-Keeps target flags mode (open_in logged root target flags mode s) h
            (open_in-Keeps target flags mode s p))
