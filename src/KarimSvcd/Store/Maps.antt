-- ===== src/KarimSvcd/Store/Maps.antt =====
-- What a list of services and an association list give back.
use a_from_scratch_linux_use.KarimSvcd.Store.{set_at, deref}
use a_from_scratch_linux_use.Base.{
  ap, refl, zero, suc, arith, length, ◌<◌, [], ◌==◌, if◌then◌else◌, ◌∷◌, some, ◌++◌, ◌≡◌, List, ℕ,
}

pub some-injective : {A : Type 0} (x y : A) → some x ≡ some y → x ≡ y
some-injective x y h = ground arith

module _ {A : Type 0} where
  pub deref-set_at :
      (xs : List A) (i j : ℕ) (a b : A)
      → deref xs i ≡ some b
      → deref (set_at xs i a) j ≡ (if i == j then some a else deref xs j)
  unfolding deref set_at
  deref-set_at [] i j a b h = cc
  deref-set_at (x ∷ xs) zero zero a b h = refl
  deref-set_at (x ∷ xs) zero (suc j) a b h = ground arith
  deref-set_at (x ∷ xs) (suc i) zero a b h = ground arith
  deref-set_at (x ∷ xs) (suc i) (suc j) a b h = ground (arith, deref-set_at xs i j a b h)

  pub length-set_at : (xs : List A) (i : ℕ) (a : A) → length (set_at xs i a) ≡ length xs
  unfolding set_at
  length-set_at [] i a = refl
  length-set_at (x ∷ xs) zero a = refl
  length-set_at (x ∷ xs) (suc i) a = ap suc (length-set_at xs i a)

  pub deref-append :
      (xs : List A) (a : A) (j : ℕ)
      → deref (xs ++ a ∷ []) j ≡ (if j == length xs then some a else deref xs j)
  unfolding deref
  deref-append [] a zero = refl
  deref-append [] a (suc j) = ground arith
  deref-append (x ∷ xs) a zero = ground arith
  deref-append (x ∷ xs) a (suc j) = ground (arith, deref-append xs a j)

  pub deref-lt : (xs : List A) (j : ℕ) (a : A) → deref xs j ≡ some a → j < length xs
  unfolding deref
  deref-lt [] j a h = cc
  deref-lt (x ∷ xs) zero a h = ground arith
  deref-lt (x ∷ xs) (suc j) a h = ground (arith, deref-lt xs j a h)
