-- ===== src/Svcd/Supervisor.antt =====
-- internal/svcd/supervisor.go, and what it calls of cgroup.go. The operating system is a record of
-- calls on a world `W`; fmt.Printf and the goroutines that copy logs change no state here.
pub mod Start
pub mod Restart
pub mod Run
pub mod Halts
mod Tests
use a_from_scratch_linux_use.Base.{
  ℕ, zero, suc, ◌+◌, ◌-◌, ◌^◌, Bool, true, false, not, ◌&&◌, ◌||◌, Option, none, some, List, [],
  ◌∷◌, ◌++◌, ◌==◌, ltb, if◌then◌else◌, Bytes, str, str_eq, one_of, join, is_nil,
}
use a_from_scratch_linux_use.Base.Int.{ℤ, pos, negsuc, positive}
use a_from_scratch_linux_use.Base.Path.{join_path, base}
use a_from_scratch_linux_use.Svcd.Spec.{ServiceSpec}

-- ProcessState
pub data ProcessState : Type 0 where
  stopped starting running stopping terminated : ProcessState

-- ProcessState.String
unfoldable pub state_name : ProcessState → Bytes
state_name stopped = str "STOPPED"
state_name starting = str "STARTING"
state_name running = str "RUNNING"
state_name stopping = str "STOPPING"
state_name terminated = str "TERMINATED"

-- ManagedService. `cmd` is the process id of Cmd.Process, none while Cmd is nil.
pub record ManagedService (F : Type 0) : Type 0 where
  pub spec : ServiceSpec F
  pub state : ProcessState
  pub cmd : Option ℕ
  pub has_cgroup : Bool
  pub restart_count : ℕ
  pub exit_code_recorded : Bool
  pub recorded_exit_code : ℤ

-- The fields that Start sets of exec.Cmd and of its SysProcAttr.
pub record Command : Type 0 where
  pub path : Bytes
  pub args : List Bytes
  pub dir : Bytes
  pub env : List Bytes
  pub chroot : Bytes

-- The calls that the supervisor makes. `true` means that a call succeeds.
pub record Os (F W : Type 0) : Type 0 where
  pub exists : Bytes → W → Bool
  pub look_path : Bytes → W → Bool
  pub stdout_pipe : W → W × Bool
  pub stderr_pipe : W → W × Bool
  pub spawn : Command → W → W × Option ℕ
  pub create_cgroup : ServiceSpec F → W → W × Bool
  pub attach_process : Bytes → ℕ → W → W
  pub interrupt : ℕ → W → W × Bool
  pub kill : ℕ → W → W

pub data StartError : Type 0 where
  already_running executable_not_found no_stdout no_stderr not_spawned : StartError

abbrev pub default_env : List Bytes
default_env =
    str "PATH=/usr/local/sbin:/usr/local/bin:/usr/sbin:/usr/bin:/sbin:/bin"
    ∷ str "LD_LIBRARY_PATH=/lib:/usr/lib:/usr/local/lib:/lib64:/usr/lib64:/usr/local/lib64"
    ∷ str "HOME=/root"
    ∷ str "TMPDIR=/tmp"
    ∷ []

-- The working directory; inside a chroot it is "/" if none is given.
abbrev pub directory_of : Bytes → Bytes → Bytes
directory_of [] [] = []
directory_of [] (c ∷ root) = str "/"
directory_of (c ∷ dir) root = c ∷ dir

abbrev pub is_running : ProcessState → Bool
is_running running = true
is_running _ = false

module _ {F : Type 0} where
  -- RecordExitStatus
  unfoldable pub record_exit_status : ℤ → ManagedService F → ManagedService F
  record_exit_status code ms = record ms { exit_code_recorded = true; recorded_exit_code = code }

  -- NewManagedService
  unfoldable pub new_managed_service : ServiceSpec F → Bool → ManagedService F
  new_managed_service s cgm = record {
    spec = s;
    state = stopped;
    cmd = none;
    has_cgroup = cgm;
    restart_count = 0;
    exit_code_recorded = false;
    recorded_exit_code = pos 0;
  }

  -- The arguments of karim-secd for one service.
  unfoldable pub secd_args : ServiceSpec F → Bytes → List Bytes
  secd_args s exec_path =
      let caps_add =
        if is_nil s.capabilities_add
        then []
        else str "-caps-add" ∷ join s.capabilities_add (str ",") ∷ [] in
      let caps_drop =
        if is_nil s.capabilities_drop
        then []
        else str "-caps-drop" ∷ join s.capabilities_drop (str ",") ∷ [] in
      let privs = if s.no_new_privs then [] else str "-no-new-privs=false" ∷ [] in
      (str "-profile" ∷ s.seccomp_profile ∷ str "-exec" ∷ exec_path ∷ [])
      ++ (caps_add ++ (caps_drop ++ (privs ++ (str "--" ∷ s.args))))

  -- The path and arguments to run, under karim-secd where it is there and the profile wants it.
  unfoldable pub wrap : ServiceSpec F → Bytes → Bytes → Bytes × List Bytes
  unfolding secd_args
  wrap s secd exec_path =
      if is_nil secd
        || one_of s.seccomp_profile (str "unrestricted" ∷ str "none" ∷ str "disabled" ∷ [])
      then (exec_path, s.args)
      else (secd, secd_args s exec_path)

  unfoldable pub command_of : ServiceSpec F → Bytes × List Bytes → Command
  command_of s (path, args) = record {
    path = path;
    args = args;
    dir = directory_of s.directory s.root_dir;
    env = default_env ++ s.env;
    chroot = s.root_dir;
  }

module _ {F W : Type 0} (os : Os F W) where
  -- The pre-flight check: the executable to run, or none.
  unfoldable pub find_executable : ServiceSpec F → W → Option Bytes
  find_executable s w =
      let target = if is_nil s.root_dir then s.exec else join_path s.root_dir s.exec in
      let fallback = join_path (str "build") (base s.exec) in
      if os.exists target w
      then some s.exec
      else if os.exists fallback w
      then some fallback
      else if os.look_path s.exec w
      then some s.exec
      else none

  -- The karim-secd binary, or the empty path.
  unfoldable pub find_secd : W → Bytes
  find_secd w =
      if os.exists (str "/sbin/karim-secd") w
      then str "/sbin/karim-secd"
      else if os.exists (str "build/karim-secd") w
      then str "build/karim-secd"
      else []

  -- What every failure after the first check does.
  abbrev failed : ManagedService F → W → StartError → ManagedService F × W × Option StartError
  failed ms w e = (record ms { state = stopped }, w, some e)

  attach : ManagedService F → ℕ → W × Bool → W
  attach ms pid (w, true) = os.attach_process ms.spec.name pid w
  attach ms pid (w, false) = w

  -- From cmd.Start on: the state, and the cgroup if there is a manager for it.
  launched : ManagedService F → W × Option ℕ → ManagedService F × W × Option StartError
  unfolding attach
  launched ms (w, none) = failed ms w not_spawned
  launched ms (w, some pid) = (
    record ms { cmd = some pid; state = running },
    if ms.has_cgroup then attach ms pid (os.create_cgroup ms.spec w) else w,
    none,
  )

  with_stderr : ManagedService F → Command → W × Bool → ManagedService F × W × Option StartError
  unfolding launched
  with_stderr ms c (w, false) = failed ms w no_stderr
  with_stderr ms c (w, true) = launched ms (os.spawn c w)

  with_stdout : ManagedService F → Command → W × Bool → ManagedService F × W × Option StartError
  unfolding with_stderr
  with_stdout ms c (w, false) = failed ms w no_stdout
  with_stdout ms c (w, true) = with_stderr ms c (os.stderr_pipe w)

  launch : ManagedService F → W → Option Bytes → ManagedService F × W × Option StartError
  unfolding with_stdout
  launch ms w none = failed ms w executable_not_found
  launch ms w (some exec_path) =
      with_stdout ms (command_of ms.spec (wrap ms.spec (find_secd w) exec_path)) (os.stdout_pipe w)

  -- Start
  unfoldable pub start : ManagedService F → W → ManagedService F × W × Option StartError
  unfolding launch
  start ms w =
      if is_running ms.state
      then (ms, w, some already_running)
      else launch
          (record ms { exit_code_recorded = false; recorded_exit_code = pos 0; state = starting }) w
          (find_executable ms.spec w)

  interrupted : ℕ → W × Bool → W
  interrupted pid (w, true) = w
  interrupted pid (w, false) = os.kill pid w

  stop_process : ManagedService F → W → Option ℕ → ManagedService F × W
  unfolding interrupted
  stop_process ms w none = (ms, w)
  stop_process ms w (some pid) =
      (record ms { state = stopping }, interrupted pid (os.interrupt pid w))

  -- Stop; it returns no error.
  unfoldable pub stop : ManagedService F → W → ManagedService F × W
  unfolding stop_process
  stop ms w = if is_running ms.state then stop_process ms w ms.cmd else (ms, w)

-- What Cmd.Wait returns: no error, an ExitError with its code, the error of a child that the
-- reaper has collected, or another.
pub data Wait : Type 0 where
  clean : Wait
  exit_error : ℤ → Wait
  no_child other_error : Wait

abbrev pub zero_code : ℤ → Bool
zero_code (pos zero) = true
zero_code (pos (suc n)) = false
zero_code (negsuc n) = false

abbrev pub wait_code : Wait → ℤ
wait_code clean = pos 0
wait_code (exit_error code) = code
wait_code no_child = pos 0
wait_code other_error = pos 1

-- `1 << min(count-1, 5)` seconds, at most 30.
unfoldable pub backoff : ℕ → ℕ
backoff count =
    let seconds = 2 ^ (if ltb (count - 1) 5 then count - 1 else 5) in
    if ltb 30 seconds then 30 else seconds

-- What monitor does behind the exit: nothing more, or a Start after so many seconds.
pub data Next : Type 0 where
  finished : Next
  restart_after : ℕ → Next

-- The restart policy.
unfoldable pub should_restart : Bytes → ℤ → Bool
should_restart policy code =
    if str_eq policy (str "always")
    then true
    else str_eq policy (str "on-failure") && not (zero_code code)

-- `ms.Spec.MaxRestarts > 0 && count > ms.Spec.MaxRestarts`
abbrev pub exceeded : ℤ → ℕ → Bool
exceeded (pos n) count = ltb 0 n && ltb n count
exceeded (negsuc n) count = false

module _ {F : Type 0} where
  abbrev pub exit_code : ManagedService F → Wait → ℤ
  exit_code ms w = if ms.exit_code_recorded then ms.recorded_exit_code else wait_code w

  -- monitor, from the return of Wait up to the sleep.
  unfoldable pub monitor : ManagedService F → Wait → ManagedService F × Next
  unfolding should_restart backoff
  monitor ms w =
      let code = exit_code ms w in
      let ended = record ms { state = terminated } in
      let count = ms.restart_count + 1 in
      let counted = record ms { state = terminated; restart_count = count } in
      if not (should_restart ms.spec.restart code)
      then (ended, finished)
      else if exceeded ms.spec.max_restarts count
      then (counted, finished)
      else (counted, restart_after (backoff count))
