-- ===== src/KarimSvcd/Bridge.antt =====
-- supervisorBridge of cmd/karim-svcd/main.go: the ServiceProvider of the RPC server. A panic ends
-- the program; `none` is the state behind it.
use a_from_scratch_linux_use.Svcd.Config.Lines.{Outcome, panicked, parsed, rejected}
use a_from_scratch_linux_use.Svcd.Config.Lines.{ConfigError}
use a_from_scratch_linux_use.Svcd.Config.Values.{Floats}
use a_from_scratch_linux_use.Svcd.Config.Reader.{parse_service_spec_from_bytes}
use a_from_scratch_linux_use.Base.Path.{join_path}
use a_from_scratch_linux_use.Vsock.Protocol.{ServiceInfo}
use a_from_scratch_linux_use.Svcd.Bundle.{BundleError, parse_and_prepare_oci_bundle, BundleCalls}
use a_from_scratch_linux_use.Vsock.Server.{Provider}
use a_from_scratch_linux_use.Svcd.Spec.{ServiceSpec}
use a_from_scratch_linux_use.KarimSvcd.Store.{
  add_service, start_at, stop_at, deref, find_service, State,
}
use a_from_scratch_linux_use.Svcd.Supervisor.{
  new_managed_service, state_name, StartError, ManagedService, Os,
}
use a_from_scratch_linux_use.Base.{
  length, Bool, none, ◌∷◌, ◌++◌, some, [], str, List, Option, Bytes, ℕ,
}
use a_from_scratch_linux_use.Base.Io.{Result, ok, err}

-- What the program calls besides the services: internal/system, NewCGroupManager and package os.
-- The texts are those of the errors that the program wraps.
pub record Calls (F W H : Type 0) : Type 0 where
  pub os : Os F W
  pub bundles : BundleCalls W H
  pub floats : Floats F
  pub new_cgroup_manager : W → W × Bool
  pub freeze_filesystem : W → W × Bool
  pub thaw_filesystem : W → W × Bool
  pub reseed_entropy : W → W × Bool
  pub sync_rtc_time : W → W × Bool
  pub mkdir_all : Bytes → W → W × Bool
  pub write_file : Bytes → Bytes → W → W × Bool
  pub start_text : ServiceSpec F → StartError → Bytes
  pub config_text : ConfigError → Bytes
  pub bundle_text : BundleError → Bytes

-- fmt.Errorf("service %s not found", name)
abbrev pub not_found : Bytes → Bytes
not_found name = str "service " ++ (name ++ str " not found")

abbrev pub default_service_dir : Bytes
default_service_dir = str "/etc/karim/services"

abbrev pid_of : Option ℕ → ℕ
pid_of none = 0
pid_of (some pid) = pid

-- One element of ListServices.
unfoldable pub service_info : {F : Type 0} → ManagedService F → ServiceInfo F
service_info ms = record {
  name = ms.spec.name;
  state = state_name ms.state;
  pid = pid_of ms.cmd;
  exec = ms.spec.exec;
  memory_limit = ms.spec.memory_limit;
  cpu_quota = ms.spec.cpu_quota;
  restart = ms.spec.restart;
  seccomp_profile = ms.spec.seccomp_profile;
  after = ms.spec.after;
}

abbrev with_info :
    {F : Type 0} → Option (ManagedService F) → List (ServiceInfo F) → List (ServiceInfo F)
with_info none infos = infos
with_info (some ms) infos = service_info ms ∷ infos

-- The loop of ListServices over the map.
unfoldable pub infos :
    {F : Type 0} → List (ManagedService F) → List (Bytes × ℕ) → List (ServiceInfo F)
infos services [] = []
infos services ((name, i) ∷ managed) = with_info (deref services i) (infos services managed)

abbrev pub state_of : {F : Type 0} → Option (ManagedService F) → Bytes
state_of none = []
state_of (some ms) = state_name ms.state

module _ {F W H : Type 0} (c : Calls F W H) where
  unfoldable pub list_services : State F W → List (ServiceInfo F)
  list_services st = infos st.services st.managed

  abbrev described : ServiceSpec F → Option StartError → Option Bytes
  described s none = none
  described s (some e) = some (c.start_text s e)

  abbrev spec_at : State F W → ℕ → Option StartError → Option Bytes
  spec_at st i e = elim (deref st.services i) [ none ↦ none | some ms ↦ described ms.spec e ]

  abbrev pub start_found : Bytes → State F W → Option ℕ → State F W × Option Bytes
  start_found name st none = (st, some (not_found name))
  start_found name st (some i) = let r = start_at c.os i st in (r.0, spec_at st i r.1)

  -- StartService
  unfoldable pub start_service : Bytes → State F W → State F W × Option Bytes
  start_service name st = start_found name st (find_service st name)

  abbrev pub stop_found : Bytes → State F W → Option ℕ → State F W × Option Bytes
  stop_found name st none = (st, some (not_found name))
  stop_found name st (some i) = (stop_at c.os i st, none)

  -- StopService
  unfoldable pub stop_service : Bytes → State F W → State F W × Option Bytes
  stop_service name st = stop_found name st (find_service st name)

  -- GetServiceLogs
  unfoldable pub get_service_logs : Bytes → State F W → Bytes × Option Bytes
  get_service_logs name st = elim (find_service st name) [
    | none ↦ ([], some (not_found name))
    | some i ↦ (
      str "[karim-svcd | "
          ++ (name
              ++ (str "] Active service status: " ++ (state_of (deref st.services i) ++ 10 ∷ []))),
      none,
    )
  ]

  -- Quiesce, which reports no error.
  unfoldable pub quiesce : State F W → State F W
  quiesce st = record st { world = (c.freeze_filesystem st.world).0 }

  -- Unquiesce
  unfoldable pub unquiesce : State F W → State F W
  unquiesce st =
      let w1 = (c.thaw_filesystem st.world).0 in
      let w2 = (c.reseed_entropy w1).0 in record st { world = (c.sync_rtc_time w2).0 }

  abbrev pub stop_existing : Option ℕ → State F W → State F W
  stop_existing none st = st
  stop_existing (some i) st = stop_at c.os i st

  -- What LoadService and ApplyBundle share: a cgroup manager, the service of the same name
  -- stopped, the new one put in its place, and started. The number is the index of the new one.
  unfoldable pub replace_service : ServiceSpec F → State F W → (State F W × Option StartError) × ℕ
  replace_service spec st =
      let (w, has_cgroup) = c.new_cgroup_manager st.world in
      let ms = new_managed_service spec has_cgroup in
      let halted = stop_existing (find_service st spec.name) (record st { world = w }) in
      let added = add_service ms halted in
      (start_at c.os (length halted.services) added, length halted.services)

  -- The file of a service that was loaded; neither result is looked at.
  unfoldable pub persist : Bytes → Bytes → State F W → State F W
  persist name config st =
      let w = (c.mkdir_all default_service_dir st.world).0 in
      let path = join_path default_service_dir (name ++ str ".toml") in
      record st { world = (c.write_file path config w).0 }

  abbrev pub load_started :
      Bytes → ServiceSpec F → State F W × Option StartError → State F W × Option Bytes
  load_started config spec (st, some e) = (
    st,
    some (
        str "failed to start hot-loaded service "
        ++ (spec.name ++ (str ": " ++ c.start_text spec e))),
  )
  load_started config spec (st, none) = (persist spec.name config st, none)

  abbrev pub load_parsed :
      Bytes → State F W → Outcome (ServiceSpec F) → Option (State F W × Option Bytes)
  load_parsed config st panicked = none
  load_parsed config st (rejected e) =
      some (st, some (str "failed to parse service TOML payload: " ++ c.config_text e))
  load_parsed config st (parsed spec) = some (load_started config spec (replace_service spec st).0)

  -- LoadService, none where the parser panics.
  unfoldable pub load_service : Bytes → State F W → Option (State F W × Option Bytes)
  load_service config st = load_parsed config st (parse_service_spec_from_bytes c.floats config)

  abbrev pub applied : ServiceSpec F → State F W × Option StartError → State F W × Option Bytes
  applied spec (st, some e) = (
    st,
    some (
        str "failed to start dynamic OCI container bundle "
        ++ (spec.name ++ (str ": " ++ c.start_text spec e))),
  )
  applied spec (st, none) = (st, none)

  abbrev pub prepared :
      State F W → W × Result BundleError (ServiceSpec F) → State F W × Option Bytes
  prepared st (w, err e) =
      (record st { world = w }, some (str "failed to prepare OCI bundle: " ++ c.bundle_text e))
  prepared st (w, ok spec) = applied spec (replace_service spec (record st { world = w })).0

  -- ApplyBundle
  unfoldable pub apply_bundle : Bytes → State F W → State F W × Option Bytes
  apply_bundle json st =
      prepared st (parse_and_prepare_oci_bundle c.bundles c.floats.zero_float json st.world)

  -- An operation of a program that has not panicked.
  abbrev pub alive :
      {A : Type 0} → A → (State F W → State F W × A) → Option (State F W) → Option (State F W) × A
  alive default f none = (none, default)
  alive default f (some st) = let r = f st in (some r.0, r.1)

  abbrev pub or_panic : Option (State F W × Option Bytes) → Option (State F W) × Option Bytes
  or_panic none = (none, none)
  or_panic (some (st, e)) = (some st, e)

  abbrev pub logs_alive : Bytes → Option (State F W) → Option (State F W) × Bytes × Option Bytes
  logs_alive name none = (none, [], none)
  logs_alive name (some st) = let (logs, e) = get_service_logs name st in (some st, logs, e)

  abbrev pub load_alive : Bytes → Option (State F W) → Option (State F W) × Option Bytes
  load_alive config none = (none, none)
  load_alive config (some st) = or_panic (load_service config st)

  -- supervisorBridge as a ServiceProvider.
  unfoldable pub bridge : Provider F (Option (State F W))
  bridge = record {
    list_services = alive [] (λ st. (st, list_services st));
    start_service = λ name. alive none (start_service name);
    stop_service = λ name. alive none (stop_service name);
    get_service_logs = logs_alive;
    quiesce = alive none (λ st. (quiesce st, none));
    unquiesce = alive none (λ st. (unquiesce st, none));
    load_service = load_alive;
    apply_bundle = λ json. alive none (apply_bundle json);
  }
