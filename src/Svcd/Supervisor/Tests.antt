-- ===== src/Svcd/Supervisor/Tests.antt =====
-- A concrete operating system and service, and the theorems about the supervisor at them.
use a_from_scratch_linux_use.Base.{
  ℕ, suc, ◌+◌, ◌-◌, ◌*◌, ◌≤◌, min, true, false, none, some, List, [], ◌∷◌, str, str_eq, ◌≡◌, refl,
  inr, arith, ◌||◌,
}
use a_from_scratch_linux_use.Base.Int.{pos}
use a_from_scratch_linux_use.Svcd.Spec.{ServiceSpec}
use a_from_scratch_linux_use.Svcd.Supervisor.{
  ManagedService, Os, exit_error, clean, restart_after, backoff, running, stopped,
  new_managed_service, start, stop, monitor, find_executable,
}
use a_from_scratch_linux_use.Svcd.Supervisor.Start.{StartResult, start-StartResult}
use a_from_scratch_linux_use.Svcd.Supervisor.Restart.{
  MonitorResult, monitor-MonitorResult, backoff_schedule, stop-always_restarts,
}
use a_from_scratch_linux_use.Svcd.Supervisor.Run.{
  Event, started, ended, recorded, exited, run, run-restarts_le,
}

-- The world counts the processes; the rest of the calls do nothing.
abbrev os : Os ℕ ℕ
os = record {
  exists = λ p w. str_eq p (str "/sbin/karim-secd") || str_eq p (str "/bin/web");
  look_path = λ p w. false;
  stdout_pipe = λ w. (w, true);
  stderr_pipe = λ w. (w, true);
  spawn = λ c w. (suc w, some (100 + w));
  create_cgroup = λ s w. (w, true);
  attach_process = λ n pid w. w;
  interrupt = λ pid w. (w, true);
  kill = λ pid w. w;
}

abbrev spec : ServiceSpec ℕ
spec = record {
  name = str "web";
  exec = str "/bin/web";
  args = [];
  env = [];
  directory = [];
  root_dir = [];
  after = [];
  memory_limit = pos 0;
  cpu_quota = 0;
  restart = str "always";
  max_restarts = pos 2;
  seccomp_profile = str "strict";
  capabilities_add = [];
  capabilities_drop = [];
  no_new_privs = true;
}

abbrev fresh : ManagedService ℕ
fresh = record {
  spec = spec;
  state = stopped;
  cmd = none;
  has_cgroup = true;
  restart_count = 0;
  exit_code_recorded = false;
  recorded_exit_code = pos 0;
}

abbrev alive : ManagedService ℕ
alive = record fresh { state = running; cmd = some 100 }

fresh_is_new : new_managed_service spec true ≡ fresh
unfolding new_managed_service
fresh_is_new = refl

fresh_starts : start os fresh 0 ≡ (alive, 1, none)
unfolding start find_executable str_eq
fresh_starts = refl

start-StartResult_example : StartResult os fresh 0 (start os fresh 0)
start-StartResult_example = start-StartResult os fresh 0

monitor-MonitorResult_example :
    MonitorResult alive (exit_error (pos 3)) (monitor alive (exit_error (pos 3)))
monitor-MonitorResult_example = monitor-MonitorResult alive (exit_error (pos 3))

backoff_schedule_example : (backoff 1 ≡ 1) × (backoff 6 ≡ min (2 * backoff 5) 30)
backoff_schedule_example = backoff_schedule 4

stop-always_restarts_example : (monitor (stop os alive 1).0 clean).1 ≡ restart_after (backoff 1)
stop-always_restarts_example = stop-always_restarts os alive 1 clean refl (inr (omega arith))

abbrev life : List Event
life =
    started
    ∷ exited clean
    ∷ started
    ∷ ended
    ∷ exited clean
    ∷ started
    ∷ recorded (pos 1)
    ∷ exited clean
    ∷ []

run-restarts_le_example : (run os life fresh 0).2 ≤ 2 - 0
run-restarts_le_example = run-restarts_le os life fresh 0 1 refl
