-- ===== src/Builder/Manifest/Tests.antt =====
-- Runs of the comparison of manifests.
use a_from_scratch_linux_use.Base.Maps.{lookup}
use a_from_scratch_linux_use.Base.Int.{pos}
use a_from_scratch_linux_use.Builder.Manifest.Compared.{IsMap}
use a_from_scratch_linux_use.Builder.Manifest.{
  check_artifacts, sort_keys, hashed_bytes, ArtifactChecksum, calculate_combined_build_hash,
  compare_manifests, BuildManifest,
}
use a_from_scratch_linux_use.Base.{
  str_eq, str_eq_iff, refl, arith, true, none, ◌≢◌, ◌∷◌, [], ◌≡◌, str, List, Bytes,
}

abbrev artifact : Bytes → Bytes → Bytes × ArtifactChecksum
artifact name hash = (name, record { name = name; path = name; size_bytes = 1; sha256 = hash })

abbrev build : List (Bytes × ArtifactChecksum) → BuildManifest
build outputs = record {
  project_name = str "karim";
  version = [];
  build_timestamp = [];
  hermetic = true;
  source_date_epoch = pos 0;
  input_artifacts = [];
  output_artifacts = outputs;
  combined_build_hash = [];
}

abbrev one : BuildManifest
one = build (artifact (str "vmlinux") (str "ab") ∷ artifact (str "initramfs") (str "cd") ∷ [])

abbrev two : BuildManifest
two = build (artifact (str "initramfs") (str "cd") ∷ artifact (str "vmlinux") (str "ab") ∷ [])

one-IsMap : IsMap one.output_artifacts
one-IsMap k =
    ground (arith, str_eq_iff k (str "vmlinux"), str_eq_iff k (str "initramfs"), different)
  where
    different : str "vmlinux" ≢ str "initramfs"
    different h = cc

one-two : compare_manifests one two ≡ none
unfolding compare_manifests check_artifacts lookup str_eq
one-two = refl

-- The combined hash does not depend on the order of the map.
one_hash : calculate_combined_build_hash (λ b. b) one ≡ calculate_combined_build_hash (λ b. b) two
unfolding calculate_combined_build_hash hashed_bytes sort_keys lookup str_eq
one_hash = refl
