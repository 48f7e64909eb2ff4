-- ===== src/Builder/Pipeline/Image/Packed.antt =====
-- What a build that succeeds has packed and hashed, for VerifyReproducibility.
use a_from_scratch_linux_use.Base.{
  [], sym, str_eq, some, ap, subst, none, ◌≡◌, str, Option, List, Bytes, refl,
}
use a_from_scratch_linux_use.Base.Maps.{lookup}
use a_from_scratch_linux_use.Base.Io.{
  asks-eq-ok, call-eq-ok, or_raise, err-ne-ok, pure, Result, ok, asks, call, ◌>>=◌, >>=-eq-ok,
}
use a_from_scratch_linux_use.Builder.Manifest.{
  calculate_file_sha256, new_artifact_checksum, ArtifactChecksum, BuildManifest,
}
use a_from_scratch_linux_use.Builder.Manifest.Saved.{hashed_manifest, save_manifest}
use a_from_scratch_linux_use.Builder.Pipeline.{
  no_checksum, no_temp_dir, no_output_dir, join_path, not_saved, wrapped, BuildCalls, BuildConfig,
}
use a_from_scratch_linux_use.Builder.Pipeline.Image.{
  checksum, prepare_image, input_artifacts_of, build_in, squash_path, removing, cpio_path,
  build_image_pipeline, output_checksum, saved_as, hashed_manifest, manifest_of, write_manifest,
}

pub ok-injective : {E A : Type 0} {a b : A} → ◌≡◌ {A = Result E A} (ok a) (ok b) → a ≡ b
ok-injective h = cc

-- A build has packed its two outputs, in its temporary directory.
abbrev pub Packs : {W S R H : Type 0} → BuildCalls W S R H → BuildConfig → W → W → Type 0
Packs {W} k cfg w packed =
    (temp : Bytes) × (made : W) × (k.temp_dir (k.copies.make_all cfg.output_dir w).0
      ≡ (made, some temp))
    × (prepare_image k cfg temp made ≡ (packed, ok tt))

-- Where a build has packed its outputs, an output has these bytes, and its entry in the manifest
-- has their hash.
abbrev pub HasHash :
    {W S R H : Type 0}
    → BuildCalls W S R H
    → BuildConfig
    → W
    → BuildManifest
    → Bytes
    → Bytes
    → Type 0
HasHash {W} k cfg packed m file hash =
    (bytes : Bytes) × (a : ArtifactChecksum) × (k.read_bytes (join_path cfg.output_dir file) packed
      ≡ some bytes)
    × (lookup m.output_artifacts file ≡ some a)
    × (a.sha256 ≡ hash)
    × (hash ≡ k.sha256_hex bytes)

or_raise-some :
    {W E A : Type 0} (o : Option A) (e : E) (w w' : W) (a : A)
    → or_raise o e w ≡ (w', ok a)
    → (w ≡ w') × (o ≡ some a)
or_raise-some none e w w' a h = elim (err-ne-ok e a (ap (λ r. r.1) h)) [ ]
or_raise-some (some b) e w w' a h = (ap (λ r. r.0) h, ap some (ok-injective (ap (λ r. r.1) h)))

some-ne-none : {A : Type 0} (a : A) → none ≡ some a → ⊥
some-ne-none a h = cc

hash_of_some : Bytes → Option ArtifactChecksum → Bytes
hash_of_some d none = d
hash_of_some d (some a) = a.sha256

checksum_of_bytes :
    (sha256_hex : Bytes → Bytes) (name path : Bytes) (o : Option Bytes) (a : ArtifactChecksum)
    → new_artifact_checksum sha256_hex name path o ≡ some a
    → (bytes : Bytes) × (o ≡ some bytes) × (a.sha256 ≡ sha256_hex bytes)
unfolding new_artifact_checksum calculate_file_sha256 hash_of_some
checksum_of_bytes sha256_hex name path none a h = elim (some-ne-none a h) [ ]
checksum_of_bytes sha256_hex name path (some b) a h = (b, refl, sym (ap (hash_of_some []) h))

module _ {W S R H : Type 0} (k : BuildCalls W S R H) (cfg : BuildConfig) where
  manifest_of-cpio :
      (inputs : List (Bytes × ArtifactChecksum)) (a b : ArtifactChecksum)
      → lookup (manifest_of k cfg inputs a b).output_artifacts (str "initramfs.cpio") ≡ some a
  unfolding manifest_of hashed_manifest lookup str_eq
  manifest_of-cpio inputs a b = refl

  manifest_of-squash :
      (inputs : List (Bytes × ArtifactChecksum)) (a b : ArtifactChecksum)
      → lookup (manifest_of k cfg inputs a b).output_artifacts (str "rootfs.sqsh") ≡ some b
  unfolding manifest_of hashed_manifest lookup str_eq
  manifest_of-squash inputs a b = refl

  output_checksum-HasHash :
      (file : Bytes) (w w' : W) (a : ArtifactChecksum) (m : BuildManifest)
      → output_checksum k file (join_path cfg.output_dir file) w ≡ (w', ok a)
      → lookup m.output_artifacts file ≡ some a
      → (w ≡ w') × HasHash k cfg w m file a.sha256
  output_checksum-HasHash file w w' a m e found =
      let path = join_path cfg.output_dir file in
      let (same, taken) = or_raise-some (checksum k file path w) (no_checksum file) w w' a e in
      let (bytes, read, hash) =
        checksum_of_bytes k.sha256_hex file path (k.read_bytes path w) a taken in
      (same, (bytes, a, read, found, refl, hash))

  -- The hashes of the two outputs.
  abbrev pub Hashed : W → BuildManifest → Type 0
  Hashed packed m =
      ((hash : Bytes) × HasHash k cfg packed m (str "initramfs.cpio") hash)
      × ((hash : Bytes) × HasHash k cfg packed m (str "rootfs.sqsh") hash)

  pub saved_as-same : (m m' : BuildManifest) (w w' : W) → saved_as k cfg m w ≡ (w', ok m') → m ≡ m'
  saved_as-same m m' w w' e =
      let (w1, u, first, second) =
        >>=-eq-ok
          (wrapped not_saved (
            save_manifest k.sha256_hex k.manifest_files m
              (join_path cfg.output_dir (str "manifest.json"))))
          (λ u. pure m) w w' m' e in
      ok-injective (ap (λ r. r.1) second)

  write_manifest-Hashed :
      (w w' : W) (m : BuildManifest) → write_manifest k cfg w ≡ (w', ok m) → Hashed w m
  unfolding write_manifest
  write_manifest-Hashed w w' m e =
      let cpio = output_checksum k (str "initramfs.cpio") (cpio_path k cfg) in
      let squash = output_checksum k (str "rootfs.sqsh") (squash_path k cfg) in
      let save = λ (i : List (Bytes × ArtifactChecksum)) (a b : ArtifactChecksum).
        saved_as k cfg (manifest_of k cfg i a b) in
      let i = input_artifacts_of k cfg w in
      let (w1, a, first, rest) = >>=-eq-ok cpio (λ a. squash >>= save i a) w w' m e in
      let (w2, b, second, last) = >>=-eq-ok squash (save i a) w1 w' m rest in
      let same = saved_as-same (manifest_of k cfg i a b) m w2 w' last in
      let (stays, h) = output_checksum-HasHash (str "initramfs.cpio") w w1 a m first (
        subst (λ t. lookup t.output_artifacts (str "initramfs.cpio") ≡ some a) same
          (manifest_of-cpio i a b)) in
      let (again, g) = output_checksum-HasHash (str "rootfs.sqsh") w1 w2 b m second (
        subst (λ t. lookup t.output_artifacts (str "rootfs.sqsh") ≡ some b) same
          (manifest_of-squash i a b)) in
      (
        (a.sha256, h),
        (b.sha256, subst (λ v. HasHash k cfg v m (str "rootfs.sqsh") b.sha256) (sym stays) g),
      )

  pub build-Packs :
      (w w' : W) (m : BuildManifest)
      → build_image_pipeline k cfg w ≡ (w', ok m)
      → (packed : W) × Packs k cfg w packed × Hashed packed m
  unfolding build_image_pipeline
  build-Packs w w' m e =
      let within = λ (temp : Bytes). removing k temp (build_in k cfg temp) in
      let make = call (k.copies.make_all cfg.output_dir) no_output_dir in
      let (w1, u, first, rest) =
        >>=-eq-ok make (λ u. asks k.temp_dir no_temp_dir >>= within) w w' m e in
      let (w2, temp, second, last) = >>=-eq-ok (asks k.temp_dir no_temp_dir) within w1 w' m rest in
      let made = call-eq-ok (k.copies.make_all cfg.output_dir) no_output_dir w w1 first in
      let (w3, v, third, written) =
        >>=-eq-ok (prepare_image k cfg temp) (λ u. write_manifest k cfg) w2
          ((build_in k cfg temp w2).0) m (ap (λ r. ((build_in k cfg temp w2).0, r.1)) last) in
      (
        w3,
        (
          temp,
          w2,
          subst (λ r. k.temp_dir r.0 ≡ (w2, some temp)) (sym made)
              (asks-eq-ok k.temp_dir no_temp_dir w1 w2 temp second),
          third,
        ),
        write_manifest-Hashed w3 ((build_in k cfg temp w2).0) m written,
      )
