-- ===== src/Svcd/Bundle.antt =====
-- internal/svcd/bundle.go: an OCI bundle as a service. JSON, the reader of archives and the
-- overlay of internal/stored are parameters; the files are those of internal/pkgd.
pub mod Contained
pub mod Tests
use a_from_scratch_linux_use.Base.Path.{dir, join_path}
use a_from_scratch_linux_use.Base.Int.{pos, ℤ}
use a_from_scratch_linux_use.Pkgd.Extract.{
  type_other, type_link, type_symlink, type_reg, broken_entry, type_dir, end_of_archive, entry,
  Typeflag, Header, Archive,
}
use a_from_scratch_linux_use.Pkgd.OciSpec.{
  OciSpec, Linux, LinuxResources, LinuxSeccomp, OciProcess, LinuxCapabilities, ContainerBundle,
}
use a_from_scratch_linux_use.Pkgd.Paths.{Files}
use a_from_scratch_linux_use.Base.{
  false, none, true, some, ◌++◌, [], is_nil, ◌∷◌, str, Bool, Option, List, Bytes, ℕ,
}
use a_from_scratch_linux_use.Base.Io.{
  Io, Result, ok, err, pure, raise, call, asks, or_raise, raise_if, ◌>>=◌, ◌>>◌,
}
use a_from_scratch_linux_use.Svcd.Spec.{ServiceSpec}

pub data BundleError : Type 0 where
  not_json empty_id : BundleError
  no_layer_dir not_extracted not_mounted : Bytes → BundleError

-- `mount_overlay` is stored.MountDynamicOverlay, and `temp_dir` os.TempDir().
pub record BundleCalls (W H : Type 0) : Type 0 where
  pub files : Files W H
  pub decode : Bytes → Option ContainerBundle
  pub read_tar : Bytes → Archive
  pub temp_dir : Bytes
  pub mount_overlay : Bytes → List Bytes → Bytes → W → W × Bool

abbrev containers_dir : Bytes
containers_dir = str "/run/karim/containers"

-- `if value != "" { target = value }`
abbrev pub non_empty {ℓ} : {A : Type ℓ} → List A → List A → List A
non_empty [] default = default
non_empty (x ∷ xs) default = x ∷ xs

module _ {F : Type 0} where
  abbrev pub with_args : List Bytes → ServiceSpec F → ServiceSpec F
  with_args [] s = s
  with_args (exec ∷ []) s = record s { exec = exec }
  with_args (exec ∷ arg ∷ args) s = record s { exec = exec; args = arg ∷ args }

  abbrev pub with_capabilities : Option LinuxCapabilities → ServiceSpec F → ServiceSpec F
  with_capabilities none s = s
  with_capabilities (some c) s = record s {
    capabilities_add = c.permitted;
    capabilities_drop = str "ALL" ∷ [];
  }

  -- What bundle.Spec.Process sets.
  unfoldable pub with_process : Option OciProcess → ServiceSpec F → ServiceSpec F
  with_process none s = s
  with_process (some p) s =
      let t = with_args p.args s in
      with_capabilities p.capabilities
        (record t { env = non_empty p.env t.env; directory = non_empty p.cwd t.directory })

  abbrev pub with_seccomp : Option LinuxSeccomp → ServiceSpec F → ServiceSpec F
  with_seccomp none s = s
  with_seccomp (some x) s = record s {
    seccomp_profile = non_empty x.profile_name s.seccomp_profile;
  }

  abbrev pub with_limit : Option (Option ℤ) → ServiceSpec F → ServiceSpec F
  with_limit none s = s
  with_limit (some none) s = s
  with_limit (some (some limit)) s = record s { memory_limit = limit }

  abbrev pub with_resources : Option LinuxResources → ServiceSpec F → ServiceSpec F
  with_resources none s = s
  with_resources (some r) s = with_limit r.memory s

  -- What bundle.Spec.Linux sets.
  unfoldable pub with_linux : Option Linux → ServiceSpec F → ServiceSpec F
  with_linux none s = s
  with_linux (some l) s = with_resources l.resources (with_seccomp l.seccomp s)

  unfoldable pub with_spec : Option OciSpec → ServiceSpec F → ServiceSpec F
  unfolding with_process with_linux
  with_spec none s = s
  with_spec (some o) s = with_linux o.linux (with_process o.process s)

  -- The ServiceSpec of a bundle; `zero_quota` is the float64 0.
  unfoldable pub spec_of_bundle : F → ContainerBundle → Bytes → ServiceSpec F
  unfolding with_spec
  spec_of_bundle zero_quota bundle rootfs = with_spec bundle.spec (record {
    name = bundle.bundle_id;
    exec = str "/bin/sh";
    args = [];
    env =
        str "PATH=/usr/local/sbin:/usr/local/bin:/usr/sbin:/usr/bin:/sbin:/bin"
        ∷ str "TERM=xterm"
        ∷ [];
    directory = str "/";
    root_dir = rootfs;
    after = [];
    memory_limit = pos 0;
    cpu_quota = zero_quota;
    restart = non_empty bundle.restart (str "on-failure");
    max_restarts = pos 0;
    seccomp_profile = str "app-default";
    capabilities_add = [];
    capabilities_drop = [];
    no_new_privs = true;
  })

module _ {W H : Type 0} (k : Files W H) where
  -- One entry of extractTarBytes; os.O_CREATE|os.O_RDWR|os.O_TRUNC.
  abbrev extract_one : Bytes → Header → Typeflag → Io W (Unit {0}) (Unit {0})
  extract_one target h type_dir = call (k.mkdir_all target) tt
  extract_one target h type_reg = do
    call (k.mkdir_all (dir target)) tt
    file ← asks (k.open_file target 0x242 h.mode) tt
    call (k.copy file) tt
  extract_one target h type_symlink = pure tt
  extract_one target h type_link = pure tt
  extract_one target h type_other = pure tt

  -- extractTarBytes
  unfoldable pub extract_tar_bytes : Bytes → Archive → Io W (Unit {0}) (Unit {0})
  extract_tar_bytes dest end_of_archive = pure tt
  extract_tar_bytes dest broken_entry = raise tt
  extract_tar_bytes dest (entry h rest) = do
    extract_one (join_path dest h.name) h h.typeflag
    extract_tar_bytes dest rest

module _ {F W H : Type 0} (c : BundleCalls W H) (zero_quota : F) where
  abbrev pub replaced :
      BundleError → W × Result (Unit {0}) (Unit {0}) → W × Result BundleError (Unit {0})
  replaced e (w, ok x) = (w, ok tt)
  replaced e (w, err x) = (w, err e)

  -- The directory of containers: below os.TempDir() where the first one cannot be made.
  abbrev pub base_dir : W × Bool → W × Bytes
  base_dir (w, true) = (w, containers_dir)
  base_dir (w, false) =
      let fallback = join_path c.temp_dir (str "karim_containers") in
      ((c.files.mkdir_all fallback w).0, fallback)

  -- The extraction of the root file system, if there is one: the lower directories.
  abbrev pub lower_dirs : ContainerBundle → Bytes → Bytes → Io W BundleError (List Bytes)
  lower_dirs bundle base [] = pure bundle.lower_dirs
  lower_dirs bundle base (b ∷ tar) = do
    let layer_dir = join_path (join_path base bundle.bundle_id) (str "extracted")
    call (c.files.mkdir_all layer_dir) (no_layer_dir layer_dir)
    (λ w.
        replaced (not_extracted bundle.bundle_id)
          (extract_tar_bytes c.files layer_dir (c.read_tar (b ∷ tar)) w))
    pure (bundle.lower_dirs ++ layer_dir ∷ [])

  abbrev pub prepare_in : ContainerBundle → Bytes → Io W BundleError (ServiceSpec F)
  prepare_in bundle base = do
    let rootfs = join_path (join_path base bundle.bundle_id) (str "rootfs")
    dirs ← lower_dirs bundle base bundle.rootfs_tar
    call (c.mount_overlay bundle.bundle_id (non_empty dirs (str "/mnt/lower" ∷ [])) rootfs)
        (not_mounted bundle.bundle_id)
    pure (spec_of_bundle zero_quota bundle rootfs)

  -- ParseAndPrepareOCIBundle
  unfoldable pub parse_and_prepare_oci_bundle : Bytes → Io W BundleError (ServiceSpec F)
  unfolding extract_tar_bytes spec_of_bundle
  parse_and_prepare_oci_bundle json = do
    bundle ← or_raise (c.decode json) not_json
    raise_if (is_nil bundle.bundle_id) empty_id
    base ← (λ w. let r = base_dir (c.files.mkdir_all containers_dir w) in (r.0, ok r.1))
    prepare_in bundle base
