-- ===== src/KarimSvcd/Tests.antt =====
-- Runs of the supervisor program, with a world that counts the processes.
use a_from_scratch_linux_use.Base.Maps.{lookup, store}
use a_from_scratch_linux_use.Svcd.Config.Values.{unquote}
use a_from_scratch_linux_use.Svcd.Supervisor.Run.{exited}
use a_from_scratch_linux_use.Svcd.Config.Lines.{strip_comment, parse_line, parse_lines, parsed}
use a_from_scratch_linux_use.Base.Int.{pos}
use a_from_scratch_linux_use.KarimSvcd.Consistent.Steps.{
  restarts, exits, loads, here, then_step, Reaches-IsConsistent,
}
use a_from_scratch_linux_use.KarimSvcd.Boot.{specs_of, start_up-IsStartOrder}
use a_from_scratch_linux_use.Svcd.Graph.Result.{IsStartOrder}
use a_from_scratch_linux_use.Svcd.Graph.Order.{Enumerates}
use a_from_scratch_linux_use.Svcd.Bundle.Tests.{bundle_calls}
use a_from_scratch_linux_use.KarimSvcd.Replaced.{load_service-Replaces, Replaces}
use a_from_scratch_linux_use.Svcd.Config.Reader.{parse_service_spec_from_bytes}
use a_from_scratch_linux_use.KarimSvcd.Consistent.{happen_at, IsConsistent}
use a_from_scratch_linux_use.KarimSvcd.Main.{supervising, start_all, start_up}
use a_from_scratch_linux_use.KarimSvcd.Store.{stop_at, set_at, add_service, deref, start_at, State}
use a_from_scratch_linux_use.Svcd.Graph.{
  relax, find, link, resolve_topological_sort, new_dependency_graph, Services,
}
use a_from_scratch_linux_use.Svcd.Spec.{ServiceSpec}
use a_from_scratch_linux_use.KarimSvcd.Bridge.{
  persist, replace_service, load_parsed, load_service, Calls,
}
use a_from_scratch_linux_use.Svcd.Supervisor.{
  stop, find_executable, start, stopping, is_running, clean, running, new_managed_service, monitor,
  Os,
}
use a_from_scratch_linux_use.Base.{
  to_lower, has_prefix, trim_space, ◌∙◌, ap, ◌+◌, refl, false, map, if◌then◌else◌, some, ◌++◌, ◌∷◌,
  true, [], none, str_eq, ◌≡◌, List, str, not, Bytes, ℕ,
}

abbrev linux : Os ℕ ℕ
linux = record {
  exists = λ p w. not (str_eq p (str "/bin/none"));
  look_path = λ p w. false;
  stdout_pipe = λ w. (w, true);
  stderr_pipe = λ w. (w, true);
  spawn = λ cmd w. (w + 1, some w);
  create_cgroup = λ s w. (w, true);
  attach_process = λ n pid w. w;
  interrupt = λ pid w. (w, true);
  kill = λ pid w. w;
}

abbrev calls : Calls ℕ ℕ ℕ
calls = record {
  os = linux;
  bundles = bundle_calls;
  floats = record { zero_float = 0; parse_float = λ s. none };
  new_cgroup_manager = λ w. (w, true);
  freeze_filesystem = λ w. (w, false);
  thaw_filesystem = λ w. (w, true);
  reseed_entropy = λ w. (w, true);
  sync_rtc_time = λ w. (w, true);
  mkdir_all = λ p w. (w, true);
  write_file = λ p b w. (w, true);
  start_text = λ s e. str "cannot start";
  config_text = λ e. str "bad file";
  bundle_text = λ e. str "bad bundle";
}

abbrev web : ServiceSpec ℕ
web = record {
  name = str "web";
  exec = str "/bin/web";
  args = [];
  env = [];
  directory = [];
  root_dir = [];
  after = str "db" ∷ [];
  memory_limit = pos 0;
  cpu_quota = 0;
  restart = str "always";
  max_restarts = pos 0;
  seccomp_profile = str "app-default";
  capabilities_add = [];
  capabilities_drop = [];
  no_new_privs = true;
}

abbrev db : ServiceSpec ℕ
db = record web { name = str "db"; after = [] }

-- The order in which a map is walked here.
range : Services ℕ → List Bytes
range [] = []
range ((name, spec) ∷ g) = name ∷ range g

booted : State ℕ ℕ
booted = record {
  services =
      record (new_managed_service db true) { state = running; cmd = some 7 }
      ∷ record (new_managed_service web true) { state = running; cmd = some 8 }
      ∷ [];
  managed = (str "db", 0) ∷ (str "web", 1) ∷ [];
  world = 9;
}

booted-supervising : start_up calls (parsed (web ∷ db ∷ [])) range 7 ≡ supervising booted
unfolding start_up start_all booted range resolve_topological_sort new_dependency_graph str_eq link
    find relax start_at deref add_service set_at start store new_managed_service find_executable
booted-supervising = refl

range-Enumerates :
    Enumerates (new_dependency_graph (web ∷ db ∷ [])) (range (new_dependency_graph (web ∷ db ∷ [])))
unfolding new_dependency_graph range
range-Enumerates x = refl

start_up-IsStartOrder_example :
    IsConsistent booted
    × IsStartOrder (new_dependency_graph (web ∷ db ∷ [])) [] (specs_of booted.services)
start_up-IsStartOrder_example =
    start_up-IsStartOrder calls web (db ∷ []) range 7 booted range-Enumerates booted-supervising

booted-IsConsistent : IsConsistent booted
booted-IsConsistent =
    (start_up-IsStartOrder calls web (db ∷ []) range 7 booted range-Enumerates booted-supervising).0

abbrev config : Bytes
config = str "name=\"web\"" ++ 10 ∷ str "exec=\"/bin/web2\""

abbrev web2 : ServiceSpec ℕ
web2 = record web { exec = str "/bin/web2"; after = []; restart = str "on-failure" }

web2-parsed : parse_service_spec_from_bytes calls.floats config ≡ parsed web2
unfolding parse_service_spec_from_bytes parse_lines parse_line trim_space has_prefix strip_comment
    str_eq to_lower unquote
web2-parsed = refl

-- "web" is stopped, and a new service has its name.
replaced : State ℕ ℕ
replaced = record {
  services =
      record (new_managed_service db true) { state = running; cmd = some 7 }
      ∷ record (new_managed_service web true) { state = stopping; cmd = some 8 }
      ∷ record (new_managed_service web2 true) { state = running; cmd = some 9 }
      ∷ [];
  managed = (str "db", 0) ∷ (str "web", 2) ∷ [];
  world = 10;
}

web-replaced : load_parsed calls config booted (parsed web2) ≡ some (replaced, none)
unfolding booted replaced replace_service start_at deref add_service lookup str_eq stop_at set_at
    start new_managed_service find_executable persist stop store
web-replaced = refl

replaced-loaded : load_service calls config booted ≡ some (replaced, none)
unfolding load_service
replaced-loaded = ap (load_parsed calls config booted) web2-parsed ∙ web-replaced

load_service-Replaces_example :
    (i : ℕ) × Replaces web2 i booted replaced
    × (lookup replaced.managed (str "db")
        ≡ (if str_eq web2.name (str "db") then some i else lookup booted.managed (str "db")))
load_service-Replaces_example =
    load_service-Replaces calls config (str "db") web2 booted replaced booted-IsConsistent
      web2-parsed replaced-loaded

-- The service that was replaced ends, and its policy starts it again, next to the new one.
abbrev exited_state : State ℕ ℕ
exited_state = happen_at linux (exited clean) 1 replaced

abbrev restarted_state : State ℕ ℕ
restarted_state = (start_at linux 1 exited_state).0

Reaches-IsConsistent_example : IsConsistent restarted_state
Reaches-IsConsistent_example =
    Reaches-IsConsistent calls booted restarted_state booted-IsConsistent (
      then_step exited_state restarted_state
        (then_step replaced exited_state
          (then_step booted replaced here (loads config replaced none replaced-loaded))
          (exits 1 clean))
        (restarts 1))

old_web_runs : map (λ ms. is_running ms.state) restarted_state.services ≡ true ∷ true ∷ true ∷ []
unfolding replaced monitor start_at deref set_at start str_eq new_managed_service find_executable
old_web_runs = refl
