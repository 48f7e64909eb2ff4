-- ===== src/Svcd/Bundle/Tests.antt =====
-- A run of internal/svcd/bundle.go.
use a_from_scratch_linux_use.Base.Path.{join_path}
use a_from_scratch_linux_use.Svcd.Bundle.Contained.{bundle-IsOf, IsOf, IsBase}
use a_from_scratch_linux_use.Svcd.Spec.{ServiceSpec}
use a_from_scratch_linux_use.Svcd.Bundle.{
  end_of_archive, type_dir, pos, entry, parse_and_prepare_oci_bundle, BundleCalls,
}
use a_from_scratch_linux_use.Pkgd.OciSpec.{ContainerBundle, OciProcess}
use a_from_scratch_linux_use.Pkgd.Paths.{no_directory, missing, Files}
use a_from_scratch_linux_use.Base.{
  str_eq, refl, ◌+◌, true, is_nil, ◌≡◌, none, ◌∷◌, Bytes, [], str, false, some, ℕ,
}
use a_from_scratch_linux_use.Base.Io.{ok}

abbrev files : Files ℕ ℕ
files = record {
  abs = λ p. some p;
  lstat = λ p w. missing;
  eval_symlinks = λ p w. none;
  read_dir = λ p w. no_directory;
  open_directory = λ p w. none;
  open_beneath = λ d p flags mode w. (w, none);
  open_file = λ p flags mode w. (w, some w);
  copy = λ h w. (w, true);
  mkdir_all = λ p w. (w, true);
  remove = λ p w. (w, true);
  remove_all = λ p w. (w, true);
  make_symlink = λ link p w. (w, true);
  make_link = λ from p w. (w, true);
}

abbrev shell : OciProcess
shell = record {
  terminal = false;
  user = record { uid = 0; gid = 0 };
  args = str "/bin/app" ∷ str "-v" ∷ [];
  env = [];
  cwd = str "/srv";
  capabilities = some (record {
    bounding = [];
    effective = [];
    inheritable = [];
    permitted = str "CAP_NET_BIND_SERVICE" ∷ [];
    ambient = [];
  });
  rlimits = [];
  no_new_privileges = false;
}

abbrev bundle : ContainerBundle
bundle = record {
  bundle_id = str "app";
  spec = some (record {
    version = none;
    root = none;
    process = some shell;
    hostname = [];
    mounts = [];
    linux = some (record {
      namespaces = [];
      seccomp = some (record { default_action = []; profile_name = str "strict" });
      resources = some (record { memory = some (some (pos 4096)); cpu = none });
    });
  });
  lower_dirs = [];
  rootfs_tar = 1 ∷ [];
  restart = [];
}

abbrev pub bundle_calls : BundleCalls ℕ ℕ
bundle_calls = record {
  files = files;
  decode = λ json. some bundle;
  read_tar = λ b.
      entry (record { name = str "bin"; typeflag = type_dir; mode = 0; linkname = [] })
        end_of_archive;
  temp_dir = str "/tmp";
  mount_overlay = λ i dirs target w. (w + 1, true);
}

abbrev app : ServiceSpec ℕ
app = record {
  name = str "app";
  exec = str "/bin/app";
  args = str "-v" ∷ [];
  env =
      str "PATH=/usr/local/sbin:/usr/local/bin:/usr/sbin:/usr/bin:/sbin:/bin"
      ∷ str "TERM=xterm"
      ∷ [];
  directory = str "/srv";
  root_dir = str "/run/karim/containers/app/rootfs";
  after = [];
  memory_limit = pos 4096;
  cpu_quota = 0;
  restart = str "on-failure";
  max_restarts = pos 0;
  seccomp_profile = str "strict";
  capabilities_add = str "CAP_NET_BIND_SERVICE" ∷ [];
  capabilities_drop = str "ALL" ∷ [];
  no_new_privs = true;
}

app-ok : parse_and_prepare_oci_bundle bundle_calls 0 [] 5 ≡ (6, ok app)
unfolding parse_and_prepare_oci_bundle join_path str_eq
app-ok = refl

bundle-IsOf_example :
    (b : ContainerBundle) × (base : Bytes) × (bundle_calls.decode [] ≡ some b)
    × (is_nil b.bundle_id ≡ false)
    × IsBase {F = ℕ} bundle_calls 0 base
    × IsOf bundle_calls 0 app b base
bundle-IsOf_example = bundle-IsOf bundle_calls 0 [] 5 6 app app-ok
