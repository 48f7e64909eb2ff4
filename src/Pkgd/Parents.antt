-- ===== src/Pkgd/Parents.antt =====
-- The parents of a path that SafePathClean of internal/pkgd/extract.go accepts.
use a_from_scratch_linux_use.Pkgd.Touched.{Below, in_root-Below}
use a_from_scratch_linux_use.Base.Io.{ok}
use a_from_scratch_linux_use.Base.Path.{split_path, clean, join_path}
use a_from_scratch_linux_use.Pkgd.Paths.{
  is_traversal, missing, symlink, clean_below, safe_path_clean, check_parents, Files,
}
use a_from_scratch_linux_use.Base.{
  subst, refl, Option, arith, ◌++◌, none, str, [], ◌≢◌, str_eq, ◌||◌, false, some, ◌∷◌, is_nil, ◌≡◌,
  List, Bool, Bytes,
}

abbrev skipped : Bytes → Bool
skipped p = is_nil p || str_eq p (str ".")

-- The path of components below another path.
unfoldable pub below : Bytes → List Bytes → Bytes
below curr [] = curr
below curr (n ∷ ns) = below (join_path curr n) ns

module _ {W H : Type 0} (k : Files W H) where
  -- None of the components is missing, and none is empty or ".".
  abbrev pub Exist : W → Bytes → List Bytes → Type 0
  Exist w curr [] = Unit
  Exist w curr (n ∷ ns) =
      (skipped n ≡ false) × (k.lstat (join_path curr n) w ≢ missing) × Exist w (join_path curr n) ns

  abbrev pub LeadsInto : Bytes → Bytes → W → Type 0
  LeadsInto root p w =
      (resolved : Bytes) × (k.eval_symlinks p w ≡ some resolved) × Below root resolved

  check_parents-next :
      (root curr n x : Bytes) (xs : List Bytes) (w : W)
      → skipped n ≡ false
      → k.lstat (join_path curr n) w ≢ missing
      → check_parents k root curr (n ∷ x ∷ xs) w ≡ none
      → check_parents k root (join_path curr n) (x ∷ xs) w ≡ none
  unfolding check_parents
  check_parents-next root curr n x xs w s e h = ground arith

  check_parents-here :
      (root curr n x : Bytes) (xs : List Bytes) (w : W)
      → skipped n ≡ false
      → k.lstat (join_path curr n) w ≡ symlink
      → check_parents k root curr (n ∷ x ∷ xs) w ≡ none
      → LeadsInto root (join_path curr n) w
  unfolding check_parents
  check_parents-here root curr n x xs w s e h = branch (k.eval_symlinks (join_path curr n) w) refl
    where
      branch :
          (o : Option Bytes)
          → k.eval_symlinks (join_path curr n) w ≡ o
          → LeadsInto root (join_path curr n) w
      branch none f = ground arith
      branch (some r) f = (r, f, in_root-Below root r (ground arith))

  check_parents-LeadsInto :
      (root curr : Bytes) (before : List Bytes) (p q : Bytes) (after : List Bytes) (w : W)
      → Exist w curr before
      → skipped p ≡ false
      → k.lstat (join_path (below curr before) p) w ≡ symlink
      → check_parents k root curr (before ++ p ∷ q ∷ after) w ≡ none
      → LeadsInto root (join_path (below curr before) p) w
  unfolding below
  check_parents-LeadsInto root curr [] p q after w e s l h =
      check_parents-here root curr p q after w s l h
  check_parents-LeadsInto root curr (n ∷ []) p q after w (f, g, e) s l h =
      check_parents-here root (join_path curr n) p q after w s l
        (check_parents-next root curr n p (q ∷ after) w f g h)
  check_parents-LeadsInto root curr (n ∷ m ∷ ns) p q after w (f, g, e) s l h =
      check_parents-LeadsInto root (join_path curr n) (m ∷ ns) p q after w e s l
        (check_parents-next root curr n m (ns ++ p ∷ q ∷ after) w f g h)

  clean_below-checked :
      (root path target : Bytes) (w : W)
      → clean_below k root path w ≡ ok target
      → (target ≡ join_path root (clean path))
        × (is_traversal (clean path) ≡ false)
        × (check_parents k root root (split_path (clean path)) w ≡ none)
  unfolding clean_below
  clean_below-checked root path target w h = (ground arith, ground arith, ground arith)

  -- A path that SafePathClean accepts has no ".." to leave by, and a symbolic link among its
  -- existing parents leads into the destination.
  pub safe_path_clean-parents :
      (dest a path target : Bytes) (before : List Bytes) (p q : Bytes) (after : List Bytes) (w : W)
      → k.abs dest ≡ some a
      → safe_path_clean k dest path w ≡ ok target
      → split_path (clean path) ≡ before ++ p ∷ q ∷ after
      → Exist w (clean a) before
      → skipped p ≡ false
      → k.lstat (join_path (below (clean a) before) p) w ≡ symlink
      → (target ≡ join_path (clean a) (clean path))
        × (is_traversal (clean path) ≡ false)
        × LeadsInto (clean a) (join_path (below (clean a) before) p) w
  unfolding safe_path_clean clean_below
  safe_path_clean-parents dest a path target before p q after w found h parts e s l =
      let (f, g, c) = clean_below-checked (clean a) path target w (ground arith) in
      (
        f,
        g,
        check_parents-LeadsInto (clean a) (clean a) before p q after w e s l
            (subst (λ x. check_parents k (clean a) (clean a) x w ≡ none) parts c),
      )
