-- ===== src/Builder/Pipeline/Image/Reproduced.antt =====
-- What VerifyReproducibility has found out where it succeeds.
use a_from_scratch_linux_use.Builder.Pipeline.Image.Packed.{
  build-Packs, HasHash, Packs, ok-injective,
}
use a_from_scratch_linux_use.Base.{
  ◌∙◌, sym, some, ap, subst, none, str_eq_iff, arith, ◌≢◌, ◌≡◌, str, Option, List, Bytes, refl,
}
use a_from_scratch_linux_use.Base.Maps.{lookup}
use a_from_scratch_linux_use.Base.Io.{
  err-ne-ok, pure, Io, ok, asks, call, gets, modify, ◌>>=◌, ◌>>◌, >>=-eq-ok,
}
use a_from_scratch_linux_use.Builder.Manifest.{
  Mismatch, compare_manifests, ArtifactChecksum, BuildManifest,
}
use a_from_scratch_linux_use.Builder.Manifest.Saved.{hashed_manifest, save_manifest}
use a_from_scratch_linux_use.Builder.Manifest.Compared.{SameHash, IsMap, compare_manifests-SameHash}
use a_from_scratch_linux_use.Builder.Pipeline.{
  differs, no_temp_dir, no_output_dir, join_path, not_saved, wrapped, BuildCalls, BuildConfig,
}
use a_from_scratch_linux_use.Builder.Pipeline.Image.{
  same_or_differs, prepare_image, input_artifacts_of, build_in, squash_path, wipe_outputs, removing,
  cpio_path, verify_reproducibility, build_image_pipeline, output_checksum, saved_as,
  hashed_manifest, manifest_of, outputs_of, write_manifest,
}

-- The two outputs have different names.
outputs_of-IsMap : (a b : ArtifactChecksum) → IsMap (outputs_of a b)
outputs_of-IsMap a b k =
    ground (arith, str_eq_iff k (str "initramfs.cpio"), str_eq_iff k (str "rootfs.sqsh"), different)
  where
    different : str "initramfs.cpio" ≢ str "rootfs.sqsh"
    different h = cc

-- What an action gives where it succeeds.
abbrev Gives : {W E A : Type 0} → (A → Type 0) → Io W E A → Type 0
Gives {W} {E} {A} P m = (w w' : W) (a : A) → m w ≡ (w', ok a) → P a

bind-Gives :
    {W E A B : Type 0} (P : B → Type 0) (m : Io W E A) (f : A → Io W E B)
    → ((a : A) → Gives P (f a))
    → Gives P (m >>= f)
bind-Gives P m f h w w' b e =
    let (w1, a, first, second) = >>=-eq-ok m f w w' b e in h a w1 w' b second

abbrev OutputsAreMap : BuildManifest → Type 0
OutputsAreMap m = IsMap m.output_artifacts

module _ {W S R H : Type 0} (k : BuildCalls W S R H) (cfg : BuildConfig) where
  manifest_of-IsMap :
      (inputs : List (Bytes × ArtifactChecksum)) (a b : ArtifactChecksum)
      → IsMap (manifest_of k cfg inputs a b).output_artifacts
  unfolding manifest_of hashed_manifest
  manifest_of-IsMap inputs a b = outputs_of-IsMap a b

  saved_as-Gives :
      (m : BuildManifest) → IsMap m.output_artifacts → Gives OutputsAreMap (saved_as k cfg m)
  saved_as-Gives m h w w' a e =
      let (w1, u, first, second) =
        >>=-eq-ok
          (wrapped not_saved (
            save_manifest k.sha256_hex k.manifest_files m
              (join_path cfg.output_dir (str "manifest.json"))))
          (λ u. pure m) w w' a e in
      subst OutputsAreMap (ok-injective (ap (λ r. r.1) second)) h

  write_manifest-IsMap : Gives OutputsAreMap (write_manifest k cfg)
  unfolding write_manifest
  write_manifest-IsMap =
      let cpio = output_checksum k (str "initramfs.cpio") (cpio_path k cfg) in
      let squash = output_checksum k (str "rootfs.sqsh") (squash_path k cfg) in
      let save = λ (i : List (Bytes × ArtifactChecksum)) (a b : ArtifactChecksum).
        saved_as k cfg (manifest_of k cfg i a b) in
      bind-Gives OutputsAreMap (gets (input_artifacts_of k cfg))
        (λ i. cpio >>= λ a. squash >>= save i a)
        (λ i.
          bind-Gives OutputsAreMap cpio (λ a. squash >>= save i a)
            (λ a.
              bind-Gives OutputsAreMap squash (save i a)
                (λ b. saved_as-Gives (manifest_of k cfg i a b) (manifest_of-IsMap i a b))))

  build-IsMap : Gives OutputsAreMap (build_image_pipeline k cfg)
  unfolding build_image_pipeline
  build-IsMap =
      let within = λ (temp : Bytes). removing k temp (build_in k cfg temp) in
      bind-Gives OutputsAreMap (call (k.copies.make_all cfg.output_dir) no_output_dir)
        (λ u. asks k.temp_dir no_temp_dir >>= within)
        (λ u. bind-Gives OutputsAreMap (asks k.temp_dir no_temp_dir) within (λ temp w w' m e.
          bind-Gives OutputsAreMap (prepare_image k cfg temp) (λ u. write_manifest k cfg)
            (λ u. write_manifest-IsMap) w ((build_in k cfg temp w).0) m
            (ap (λ r. ((build_in k cfg temp w).0, r.1)) e)))

same_or_differs-none :
    {W S R H : Type 0} (k : BuildCalls W S R H) (o : Option Mismatch) (w w' : W)
    → same_or_differs k o w ≡ (w', ok tt)
    → o ≡ none
same_or_differs-none k none w w' e = refl
same_or_differs-none k (some m) w w' e = elim (err-ne-ok (differs m) tt (ap (λ r. r.1) e)) [ ]

-- A build that succeeds: the world where it has packed its outputs, the one where it ends, and its
-- manifest.
abbrev pub Builds :
    {W S R H : Type 0} → BuildCalls W S R H → BuildConfig → W → W → W → BuildManifest → Type 0
Builds k cfg w packed w' m = (build_image_pipeline k cfg w ≡ (w', ok m)) × Packs k cfg w packed

-- Two manifests have the hash of one output of their builds, and it is the same hash.
abbrev pub SameOutput :
    {W S R H : Type 0}
    → BuildCalls W S R H
    → BuildConfig
    → W
    → W
    → BuildManifest
    → BuildManifest
    → Bytes
    → Type 0
SameOutput k cfg p1 p2 m1 m2 file =
    (hash : Bytes) × HasHash k cfg p1 m1 file hash × HasHash k cfg p2 m2 file hash

-- The world without the outputs of a build, as far as they can be removed.
abbrev pub emptied : {W S R H : Type 0} → BuildCalls W S R H → BuildConfig → W → W
emptied k cfg w =
    (k.remove (join_path cfg.output_dir (str "rootfs.sqsh"))
      (k.remove (join_path cfg.output_dir (str "initramfs.cpio")) w).0).0

same_output :
    {W S R H : Type 0} (k : BuildCalls W S R H) (cfg : BuildConfig) (p1 p2 : W)
    (m1 m2 : BuildManifest) (file h1 h2 : Bytes)
    → HasHash k cfg p1 m1 file h1
    → HasHash k cfg p2 m2 file h2
    → SameHash (lookup m1.output_artifacts file) (lookup m2.output_artifacts file)
    → SameOutput k cfg p1 p2 m1 m2 file
same_output k cfg p1 p2 m1 m2 file h1 h2 (b1, a1, r1, f1, e1, g1) (b2, a2, r2, f2, e2, g2) same =
    let equal : a1.sha256 ≡ a2.sha256 =
      subst (λ o. SameHash (some a1) o) f2
        (subst (λ o. SameHash o (lookup m2.output_artifacts file)) f1 same) in
    (h1, (b1, a1, r1, f1, e1, g1), (b2, a2, r2, f2, sym equal ∙ e1, sym e1 ∙ equal ∙ e2 ∙ g2))

-- Where VerifyReproducibility succeeds, it has built the image twice, the second time after the
-- removal of the two outputs of the first, whose error is not looked at; and for each of the two
-- files, the manifests of both builds have the SHA-256 of the bytes that the build had packed into
-- it, and the two hashes are equal.
pub verify_reproducibility-SameHash :
    {W S R H : Type 0} (k : BuildCalls W S R H) (cfg : BuildConfig) (w w' : W)
    → verify_reproducibility k cfg w ≡ (w', ok tt)
    → (m1 m2 : BuildManifest) × (p1 p2 w1 w2 : W) × Builds k cfg w p1 w1 m1
      × Builds k cfg (emptied k cfg w1) p2 w2 m2
      × SameOutput k cfg p1 p2 m1 m2 (str "initramfs.cpio")
      × SameOutput k cfg p1 p2 m1 m2 (str "rootfs.sqsh")
unfolding verify_reproducibility wipe_outputs
verify_reproducibility-SameHash k cfg w w' e =
    let build = build_image_pipeline k cfg in
    let compared = λ (m1 m2 : BuildManifest). same_or_differs k (compare_manifests m1 m2) in
    let (w1, m1, b1, rest) =
      >>=-eq-ok build (λ m1. modify (wipe_outputs k cfg) >> (build >>= compared m1)) w w' tt e in
    let (w2, m2, b2, none_found) = >>=-eq-ok build (compared m1) (emptied k cfg w1) w' tt rest in
    let same = λ (name : Bytes).
      compare_manifests-SameHash m1 m2 name (build-IsMap k cfg w w1 m1 b1)
        (same_or_differs-none k (compare_manifests m1 m2) w2 w' none_found) in
    let (p1, packs1, (o1, q1)) = build-Packs k cfg w w1 m1 b1 in
    let (p2, packs2, (o2, q2)) = build-Packs k cfg (emptied k cfg w1) w2 m2 b2 in
    (
      m1,
      m2,
      p1,
      p2,
      w1,
      w2,
      (b1, packs1),
      (b2, packs2),
      same_output k cfg p1 p2 m1 m2 (str "initramfs.cpio") o1.0 o2.0 o1.1 o2.1
          (same (str "initramfs.cpio")),
      same_output k cfg p1 p2 m1 m2 (str "rootfs.sqsh") q1.0 q2.0 q1.1 q2.1
          (same (str "rootfs.sqsh")),
    )
