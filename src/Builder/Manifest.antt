-- ===== src/Builder/Manifest.antt =====
-- internal/builder/manifest.go: the identity of a build. The files are read by a call, and SHA-256
-- with its hexadecimal text is a function.
pub mod Compared
pub mod Saved
mod Tests
use a_from_scratch_linux_use.Base.Int.{ℤ}
use a_from_scratch_linux_use.Base.{
  ◌&&◌, ◌||◌, ltb, ◌==◌, false, str_eq, length, ◌++◌, true, if◌then◌else◌, none, some, map, [], ◌∷◌,
  Bool, Option, List, Bytes, ℕ,
}
use a_from_scratch_linux_use.Base.Maps.{lookup}

-- ArtifactChecksum
pub record ArtifactChecksum : Type 0 where
  pub name : Bytes
  pub path : Bytes
  pub size_bytes : ℕ
  pub sha256 : Bytes

-- BuildManifest
pub record BuildManifest : Type 0 where
  pub project_name : Bytes
  pub version : Bytes
  pub build_timestamp : Bytes
  pub hermetic : Bool
  pub source_date_epoch : ℤ
  pub input_artifacts : List (Bytes × ArtifactChecksum)
  pub output_artifacts : List (Bytes × ArtifactChecksum)
  pub combined_build_hash : Bytes

-- The order of strings, by their bytes.
unfoldable pub bytes_le : Bytes → Bytes → Bool
bytes_le [] b = true
bytes_le (x ∷ a) [] = false
bytes_le (x ∷ a) (y ∷ b) = ltb x y || (x == y && bytes_le a b)

-- sort.Strings
insert_key : Bytes → List Bytes → List Bytes
insert_key k [] = k ∷ []
insert_key k (j ∷ js) = if bytes_le k j then k ∷ j ∷ js else j ∷ insert_key k js

unfoldable pub sort_keys : List Bytes → List Bytes
unfolding insert_key bytes_le
sort_keys [] = []
sort_keys (k ∷ ks) = insert_key k (sort_keys ks)

abbrev pub key_of : Bytes × ArtifactChecksum → Bytes
key_of (k, a) = k

-- The SHA256 of an artifact, the empty text of a missing one.
abbrev pub hash_of : Option ArtifactChecksum → Bytes
hash_of none = []
hash_of (some a) = a.sha256

-- The loop over the sorted keys: what is written to the hash.
unfoldable pub hashed_bytes : List (Bytes × ArtifactChecksum) → List Bytes → Bytes
hashed_bytes outputs [] = []
hashed_bytes outputs (k ∷ ks) = hash_of (lookup outputs k) ++ hashed_bytes outputs ks

module _ (sha256_hex : Bytes → Bytes) where
  -- CalculateFileSHA256 of a file with these bytes, none where it cannot be read.
  unfoldable pub calculate_file_sha256 : Option Bytes → Option (Bytes × ℕ)
  calculate_file_sha256 none = none
  calculate_file_sha256 (some bytes) = some (sha256_hex bytes, length bytes)

  abbrev checksum_of : Bytes → Bytes → Option (Bytes × ℕ) → Option ArtifactChecksum
  checksum_of name path none = none
  checksum_of name path (some (hash, size)) =
      some (record { name = name; path = path; size_bytes = size; sha256 = hash })

  -- NewArtifactChecksum
  unfoldable pub new_artifact_checksum : Bytes → Bytes → Option Bytes → Option ArtifactChecksum
  new_artifact_checksum name path file = checksum_of name path (calculate_file_sha256 file)

  -- CalculateCombinedBuildHash
  unfoldable pub calculate_combined_build_hash : BuildManifest → Bytes
  calculate_combined_build_hash m =
      sha256_hex (hashed_bytes m.output_artifacts (sort_keys (map key_of m.output_artifacts)))

-- The errors of CompareManifests.
pub data Mismatch : Type 0 where
  counts_differ : ℕ → ℕ → Mismatch
  artifact_missing : Bytes → Mismatch
  hashes_differ : Bytes → Bytes → Bytes → Mismatch

abbrev pub check_artifact :
    Bytes → ArtifactChecksum → Option ArtifactChecksum → Option Mismatch → Option Mismatch
check_artifact k a1 none rest = some (artifact_missing k)
check_artifact k a1 (some a2) rest =
    if str_eq a1.sha256 a2.sha256 then rest else some (hashes_differ k a1.sha256 a2.sha256)

-- The loop over the artifacts of the first build.
unfoldable pub check_artifacts :
    List (Bytes × ArtifactChecksum) → List (Bytes × ArtifactChecksum) → Option Mismatch
check_artifacts [] second = none
check_artifacts ((k, a1) ∷ first) second =
    check_artifact k a1 (lookup second k) (check_artifacts first second)

-- CompareManifests, none where it finds no difference.
unfoldable pub compare_manifests : BuildManifest → BuildManifest → Option Mismatch
compare_manifests m1 m2 =
    if length m1.output_artifacts == length m2.output_artifacts
    then check_artifacts m1.output_artifacts m2.output_artifacts
    else some (counts_differ (length m1.output_artifacts) (length m2.output_artifacts))
