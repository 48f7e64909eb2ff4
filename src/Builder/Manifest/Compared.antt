-- ===== src/Builder/Manifest/Compared.antt =====
-- What a comparison of manifests without a difference means.
use a_from_scratch_linux_use.Base.Maps.{lookup}
use a_from_scratch_linux_use.Builder.Manifest.{
  hash_of, artifact_missing, check_artifact, Mismatch, counts_differ, BuildManifest,
  compare_manifests, key_of, ArtifactChecksum, check_artifacts,
}
use a_from_scratch_linux_use.Base.{
  inr, inl, Bool-cases, true, ◌∙◌, sym, subst, ◌==◌, str_eq_iff, if◌then◌else◌, arith, str_eq, refl,
  suc, [], ◌<◌, ap, none, some, ◌∷◌, ◌≡◌, ◌≤◌, map, length, Option, Bytes, List, ℕ,
}
use a_from_scratch_linux_use.Svcd.Graph.Count.{occ, occ-eq_of_length}

abbrev Outputs : Type 0
Outputs = List (Bytes × ArtifactChecksum)

abbrev keys : Outputs → List Bytes
keys m = map key_of m

-- A Go map: every key once.
abbrev pub IsMap : Outputs → Type 0
IsMap m = (k : Bytes) → occ k (keys m) ≤ 1

-- Two lookups of one name give the same hash, or nothing.
abbrev pub SameHash : Option ArtifactChecksum → Option ArtifactChecksum → Type 0
SameHash none none = Unit
SameHash none (some b) = ⊥
SameHash (some a) none = ⊥
SameHash (some a) (some b) = a.sha256 ≡ b.sha256

some_ne_none : {A : Type 0} (x : A) → some x ≡ none → ⊥
some_ne_none x h = cc

str_eq_sym : (a b : Bytes) → str_eq a b ≡ str_eq b a
str_eq_sym a b = grind (arith, str_eq_iff a b, str_eq_iff b a)

length-keys : (m : Outputs) → length (keys m) ≡ length m
length-keys [] = refl
length-keys (x ∷ m) = ap suc (length-keys m)

lookup-occ :
    (m : Outputs) (k : Bytes) (a : ArtifactChecksum) → lookup m k ≡ some a → 0 < occ k (keys m)
unfolding lookup
lookup-occ [] k a h = cc
lookup-occ ((j, b) ∷ m) k a h = ground (arith, lookup-occ m k a, str_eq_sym k j)

occ-lookup : (m : Outputs) (k : Bytes) → lookup m k ≡ none → occ k (keys m) ≡ 0
unfolding lookup
occ-lookup [] k h = refl
occ-lookup ((j, b) ∷ m) k h = ground (arith, occ-lookup m k, str_eq_sym k j)

check_artifact-none :
    (k : Bytes) (a : ArtifactChecksum) (o : Option ArtifactChecksum) (rest : Option Mismatch)
    → check_artifact k a o rest ≡ none
    → (b : ArtifactChecksum) × (o ≡ some b) × (a.sha256 ≡ b.sha256) × (rest ≡ none)
check_artifact-none k a none rest h = elim (some_ne_none (artifact_missing k) h) [ ]
check_artifact-none k a (some b) rest h =
    (b, refl, (str_eq_iff a.sha256 b.sha256).0 (ground arith), ground arith)

first_here :
    (k j : Bytes) (c : ArtifactChecksum) (m : Outputs) (a : ArtifactChecksum)
    → str_eq j k ≡ true
    → lookup ((j, c) ∷ m) k ≡ some a
    → some a ≡ some c
unfolding lookup
first_here k j c m a t e = ground arith

-- What the loop has checked.
check_artifacts-found :
    (m1 m2 : Outputs) (k : Bytes) (a : ArtifactChecksum)
    → check_artifacts m1 m2 ≡ none
    → lookup m1 k ≡ some a
    → (b : ArtifactChecksum) × (lookup m2 k ≡ some b) × (a.sha256 ≡ b.sha256)
unfolding check_artifacts lookup
check_artifacts-found [] m2 k a h e = cc
check_artifacts-found ((j, c) ∷ m1) m2 k a h e =
    let (b, l, same, rest) = check_artifact-none j c (lookup m2 j) (check_artifacts m1 m2) h in
    elim (Bool-cases (str_eq j k)) [
      | inl t ↦ (
        b,
        ap (lookup m2) (sym ((str_eq_iff j k).0 t)) ∙ l,
        ap (λ x. hash_of x) (first_here k j c m1 a t e) ∙ same,
      )
      | inr t ↦ check_artifacts-found m1 m2 k a rest (ground arith)
    ]

absurd_count : (n m : ℕ) → n ≡ m → n ≡ 0 → 0 < m → ⊥
absurd_count n m e z p = omega (arith, e, z, p)

check_artifacts-none :
    (o1 o2 : Outputs)
    → (if length o1 == length o2
        then check_artifacts o1 o2
        else some (counts_differ (length o1) (length o2)))
      ≡ none
    → (length o1 ≡ length o2) × (check_artifacts o1 o2 ≡ none)
check_artifacts-none o1 o2 h = (ground arith, ground arith)

first_le :
    (m1 m2 : Outputs) (x : Bytes)
    → IsMap m1
    → check_artifacts m1 m2 ≡ none
    → occ x (keys m1) ≤ occ x (keys m2)
first_le m1 m2 x once h = branch (lookup m1 x) refl
  where
    branch : (o : Option ArtifactChecksum) → lookup m1 x ≡ o → occ x (keys m1) ≤ occ x (keys m2)
    branch none l = omega (arith, occ-lookup m1 x l)
    branch (some a) l =
        let (b, e, f) = check_artifacts-found m1 m2 x a h l in
        omega (arith, once x, lookup-occ m2 x b e)

-- CompareManifests finds no difference only between builds whose outputs agree: every name has the
-- same hash in both, or is in neither.
pub compare_manifests-SameHash :
    (m1 m2 : BuildManifest) (k : Bytes)
    → IsMap m1.output_artifacts
    → compare_manifests m1 m2 ≡ none
    → SameHash (lookup m1.output_artifacts k) (lookup m2.output_artifacts k)
unfolding compare_manifests
compare_manifests-SameHash m1 m2 k once h =
    let o1 = m1.output_artifacts in
    let o2 = m2.output_artifacts in
    let checked = check_artifacts-none o1 o2 h in
    branch o1 o2 checked.1 (λ x. first_le o1 o2 x once checked.1) checked.0 (lookup o1 k)
      (lookup o2 k) refl refl
  where
    branch :
        (o1 o2 : Outputs)
        → check_artifacts o1 o2 ≡ none
        → ((x : Bytes) → occ x (keys o1) ≤ occ x (keys o2))
        → length o1 ≡ length o2
        → (r s : Option ArtifactChecksum) → lookup o1 k ≡ r
        → lookup o2 k ≡ s
        → SameHash r s
    branch o1 o2 c le size none none f g = tt
    branch o1 o2 c le size none (some b) f g =
        let same =
          occ-eq_of_length (keys o1) (keys o2) le
            (omega (arith, size, length-keys o1, length-keys o2)) k in
        elim (absurd_count (occ k (keys o1)) (occ k (keys o2)) same (occ-lookup o1 k f)
          (lookup-occ o2 k b g)) [ ]
    branch o1 o2 c le size (some a) s f g =
        let (b, e, same) = check_artifacts-found o1 o2 k a c f in
        subst (SameHash (some a)) (sym e ∙ g) same
