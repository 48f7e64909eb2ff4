-- ===== src/Svcd/Bundle/Contained.antt =====
-- What a service that comes from an OCI bundle is confined to.
use a_from_scratch_linux_use.Svcd.Bundle.{
  lower_dirs, empty_id, not_mounted, spec_of_bundle, not_json, with_seccomp, LinuxSeccomp,
  non_empty, BundleError, prepare_in, base_dir, join_path, with_resources, with_limit,
  with_capabilities, with_args, parse_and_prepare_oci_bundle, ContainerBundle, OciSpec, Linux,
  LinuxResources, ℤ, OciProcess, LinuxCapabilities, BundleCalls, with_spec, with_linux,
  with_process,
}
use a_from_scratch_linux_use.Svcd.Spec.{ServiceSpec}
use a_from_scratch_linux_use.Base.{
  subst, arith, ap, [], false, inr, none, is_nil, inl, true, ◌⊎◌, ◌∙◌, ◌∷◌, some, str, Bool, Bytes,
  ◌≡◌, Option, List, refl,
}
use a_from_scratch_linux_use.Base.Io.{
  Io, Result, ◌>>=◌, call, pure, or_raise, raise_if, err-ne-ok, err-ne-ok, raise_if, >>=-eq-ok, ok,
}

module _ {F : Type 0} where
  -- What the specification inside a bundle cannot change.
  abbrev Kept : ServiceSpec F → ServiceSpec F → Type 0
  Kept s t = (t.name ≡ s.name) × (t.root_dir ≡ s.root_dir) × (t.no_new_privs ≡ s.no_new_privs)

  with_args-Kept : (args : List Bytes) (s : ServiceSpec F) → Kept s (with_args args s)
  with_args-Kept [] s = (refl, refl, refl)
  with_args-Kept (x ∷ []) s = (refl, refl, refl)
  with_args-Kept (x ∷ y ∷ args) s = (refl, refl, refl)

  with_capabilities-Kept :
      (c : Option LinuxCapabilities) (s : ServiceSpec F) → Kept s (with_capabilities c s)
  with_capabilities-Kept none s = (refl, refl, refl)
  with_capabilities-Kept (some c) s = (refl, refl, refl)

  with_process-Kept : (p : Option OciProcess) (s : ServiceSpec F) → Kept s (with_process p s)
  unfolding with_process
  with_process-Kept none s = (refl, refl, refl)
  with_process-Kept (some p) s =
      let t = with_args p.args s in
      let u = record t { env = non_empty p.env t.env; directory = non_empty p.cwd t.directory } in
      let (a, b, c) = with_capabilities-Kept p.capabilities u in
      let (d, e, f) = with_args-Kept p.args s in (a ∙ d, b ∙ e, c ∙ f)

  with_limit-Kept : (l : Option (Option ℤ)) (s : ServiceSpec F) → Kept s (with_limit l s)
  with_limit-Kept none s = (refl, refl, refl)
  with_limit-Kept (some none) s = (refl, refl, refl)
  with_limit-Kept (some (some l)) s = (refl, refl, refl)

  with_resources-Kept :
      (r : Option LinuxResources) (s : ServiceSpec F) → Kept s (with_resources r s)
  with_resources-Kept none s = (refl, refl, refl)
  with_resources-Kept (some r) s = with_limit-Kept r.memory s

  with_linux-Kept : (l : Option Linux) (s : ServiceSpec F) → Kept s (with_linux l s)
  unfolding with_linux
  with_linux-Kept none s = (refl, refl, refl)
  with_linux-Kept (some l) s = branch l.seccomp
    where
      branch : (x : Option LinuxSeccomp) → Kept s (with_resources l.resources (with_seccomp x s))
      branch none = with_resources-Kept l.resources s
      branch (some x) =
          with_resources-Kept l.resources
            (record s { seccomp_profile = non_empty x.profile_name s.seccomp_profile })

  with_spec-Kept : (o : Option OciSpec) (s : ServiceSpec F) → Kept s (with_spec o s)
  unfolding with_spec
  with_spec-Kept none s = (refl, refl, refl)
  with_spec-Kept (some o) s =
      let (a, b, c) = with_linux-Kept o.linux (with_process o.process s) in
      let (d, e, f) = with_process-Kept o.process s in (a ∙ d, b ∙ e, c ∙ f)

module _ {F W H : Type 0} (c : BundleCalls W H) (zero_quota : F) where
  -- The base directory is one of the two.
  abbrev pub IsBase : Bytes → Type 0
  IsBase base =
      (base ≡ str "/run/karim/containers") ⊎ (base ≡ join_path c.temp_dir (str "karim_containers"))

  -- The service of a bundle, below a base directory.
  abbrev pub IsOf : ServiceSpec F → ContainerBundle → Bytes → Type 0
  IsOf s bundle base =
      (s.name ≡ bundle.bundle_id)
      × (s.root_dir ≡ join_path (join_path base bundle.bundle_id) (str "rootfs"))
      × (s.no_new_privs ≡ true)

  ok-injective : {E A : Type 0} (x y : A) → ◌≡◌ {A = Result E A} (ok x) (ok y) → x ≡ y
  ok-injective x y h = ground arith

  or_raise-ok :
      (o : Option ContainerBundle) (w w' : W) (b : ContainerBundle)
      → or_raise o not_json w ≡ (w', ok b)
      → o ≡ some b
  or_raise-ok none w w' b h = elim (err-ne-ok not_json b (ap (λ t. t.1) h)) [ ]
  or_raise-ok (some x) w w' b h = ap some (ok-injective x b (ap (λ t. t.1) h))

  spec_of_bundle-IsOf :
      (bundle : ContainerBundle) (base : Bytes)
      → IsOf
          (spec_of_bundle zero_quota bundle
            (join_path (join_path base bundle.bundle_id) (str "rootfs")))
          bundle
          base
  unfolding spec_of_bundle
  spec_of_bundle-IsOf bundle base = with_spec-Kept bundle.spec _

  abbrev based : Io W BundleError Bytes
  based w =
      let r = base_dir c zero_quota (c.files.mkdir_all (str "/run/karim/containers") w) in
      (r.0, ok r.1)

  base_dir-IsBase : (r : W × Bool) → IsBase (base_dir c zero_quota r).1
  base_dir-IsBase (w, true) = inl refl
  base_dir-IsBase (w, false) = inr refl

  prepare_in-IsOf :
      (bundle : ContainerBundle) (base : Bytes) (w w' : W) (s : ServiceSpec F)
      → prepare_in c zero_quota bundle base w ≡ (w', ok s)
      → IsOf s bundle base
  prepare_in-IsOf bundle base w w' s h =
      let base' = join_path base bundle.bundle_id in
      let rootfs = join_path base' (str "rootfs") in
      let mounted = λ (dirs : List Bytes).
        call {E = BundleError}
          (c.mount_overlay bundle.bundle_id (non_empty dirs (str "/mnt/lower" ∷ [])) rootfs)
          (not_mounted bundle.bundle_id) in
      let made = spec_of_bundle zero_quota bundle rootfs in
      let (w1, dirs, e1, h1) =
        >>=-eq-ok (lower_dirs c zero_quota bundle base bundle.rootfs_tar)
          (λ dirs. mounted dirs >>= λ x. pure made) w w' s h in
      let (w2, x, e2, h2) = >>=-eq-ok (mounted dirs) (λ x. pure made) w1 w' s h1 in
      subst (λ t. IsOf t bundle base) (ok-injective made s (ap (λ t. t.1) h2))
        (spec_of_bundle-IsOf bundle base)

  raise_if-ok :
      (b : Bool) (e : BundleError) (w w' : W) (x : Unit {0})
      → raise_if b e w ≡ (w', ok x)
      → (b ≡ false)
  raise_if-ok true e w w' x h = elim (err-ne-ok e x (ap (λ t. t.1) h)) [ ]
  raise_if-ok false e w w' x h = refl

  -- Whatever an OCI bundle asks for, and whichever calls fail: a service that comes of one has its
  -- id, which is not empty, as its name, the root directory of that id, and a specification that
  -- sets no_new_privs; whether it is applied depends on the seccomp profile, which the bundle
  -- chooses.
  pub bundle-IsOf :
      (json : Bytes) (w w' : W) (s : ServiceSpec F)
      → parse_and_prepare_oci_bundle c zero_quota json w ≡ (w', ok s)
      → (bundle : ContainerBundle) × (base : Bytes) × (c.decode json ≡ some bundle)
        × (is_nil bundle.bundle_id ≡ false)
        × IsBase base
        × IsOf s bundle base
  unfolding parse_and_prepare_oci_bundle
  bundle-IsOf json w w' s h =
      let rest = λ (bundle : ContainerBundle). raise_if (is_nil bundle.bundle_id) empty_id >>= λ x.
      based >>= λ base. prepare_in c zero_quota bundle base in
      let (w1, bundle, e1, h1) = >>=-eq-ok (or_raise (c.decode json) not_json) rest w w' s h in
      let (w2, x, e2, h2) =
        >>=-eq-ok (raise_if (is_nil bundle.bundle_id) empty_id)
          (λ x. based >>= λ base. prepare_in c zero_quota bundle base) w1 w' s h1 in
      let (w3, base, e3, h3) =
        >>=-eq-ok (based) (λ base. prepare_in c zero_quota bundle base) w2 w' s h2 in
      (
        bundle,
        base,
        or_raise-ok (c.decode json) w w1 bundle e1,
        raise_if-ok (is_nil bundle.bundle_id) empty_id w1 w2 x e2,
        subst IsBase
            (ok-injective
              (base_dir c zero_quota (c.files.mkdir_all (str "/run/karim/containers") w2)).1 base
              (ap (λ t. t.1) e3))
            (base_dir-IsBase (c.files.mkdir_all (str "/run/karim/containers") w2)),
        prepare_in-IsOf bundle base w3 w' s h3,
      )
