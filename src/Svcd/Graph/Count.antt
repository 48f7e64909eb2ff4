-- ===== src/Svcd/Graph/Count.antt =====
-- How often a name occurs in a list.
use a_from_scratch_linux_use.Base.{
  ℕ, suc, ◌+◌, ◌≤◌, ◌<◌, ◌≡◌, refl, List, [], ◌∷◌, ◌++◌, if◌then◌else◌, arith, Bytes, length,
  str_eq, str_eq_iff, str_eq_refl,
}

abbrev pub occ : Bytes → List Bytes → ℕ
occ x [] = 0
occ x (y ∷ ys) = (if str_eq x y then 1 else 0) + occ x ys

pub occ-append : (x : Bytes) (xs ys : List Bytes) → occ x (xs ++ ys) ≡ occ x xs + occ x ys
occ-append x [] ys = omega arith
occ-append x (y ∷ xs) ys = omega (arith, occ-append x xs ys)

-- `ys` without the first `x`.
without : Bytes → List Bytes → List Bytes
without x [] = []
without x (y ∷ ys) = if str_eq x y then ys else y ∷ without x ys

occ-without :
    (x z : Bytes) (ys : List Bytes)
    → 0 < occ x ys
    → occ z ys ≡ (if str_eq z x then 1 else 0) + occ z (without x ys)
unfolding without
occ-without x z [] h = elim h [ ]
occ-without x z (y ∷ ys) h =
    ground (arith, occ-without x z ys, str_eq_iff x y, str_eq_iff z x, str_eq_iff z y)

length-without :
    (x : Bytes) (ys : List Bytes) → 0 < occ x ys → length ys ≡ suc (length (without x ys))
unfolding without
length-without x [] h = elim h [ ]
length-without x (y ∷ ys) h = ground (arith, length-without x ys)

occ-pos :
    (x : Bytes) (xs ys : List Bytes) → ((z : Bytes) → occ z (x ∷ xs) ≤ occ z ys) → 0 < occ x ys
occ-pos x xs ys h = ground (arith, h x, str_eq_refl x)

occ-le-without :
    (x : Bytes) (xs ys : List Bytes)
    → ((z : Bytes) → occ z (x ∷ xs) ≤ occ z ys)
    → 0 < occ x ys
    → (z : Bytes) → occ z xs ≤ occ z (without x ys)
occ-le-without x xs ys h has z = ground (arith, h z, occ-without x z ys has)

-- A list whose names occur no more often than in another is no longer, and if it is as long then
-- every name occurs as often.
pub occ-le_length :
    (xs ys : List Bytes) → ((x : Bytes) → occ x xs ≤ occ x ys) → length xs ≤ length ys
occ-le_length [] ys h = omega arith
occ-le_length (x ∷ xs) ys h =
    let has = occ-pos x xs ys h in
    omega (
      arith,
      length-without x ys has,
      occ-le_length xs (without x ys) (occ-le-without x xs ys h has),
    )

pub occ-eq_of_length :
    (xs ys : List Bytes)
    → ((x : Bytes) → occ x xs ≤ occ x ys)
    → length xs ≡ length ys
    → (x : Bytes) → occ x xs ≡ occ x ys
occ-eq_of_length [] [] h e z = refl
occ-eq_of_length [] (y ∷ ys) h e z = absurd (omega arith)
occ-eq_of_length (x ∷ xs) ys h e z =
    let has = occ-pos x xs ys h in
    let same =
      occ-eq_of_length xs (without x ys) (occ-le-without x xs ys h has)
        (omega (arith, length-without x ys has)) z in
    ground (arith, same, occ-without x z ys has)
