-- ===== src/Qmp.antt =====
-- internal/qmp/client.go: the client of the QEMU Monitor Protocol. A connection is a record of
-- calls on a world `W`; JSON is a parameter, with the values `V` of an answer.
pub mod Snapshots
pub mod Answered
mod Tests
use a_from_scratch_linux_use.Qmp.Snapshots.{parse_snapshot_list, SnapshotInfo}
use a_from_scratch_linux_use.Base.{
  zero, trim_space, contains, none, ◌++◌, ◌&&◌, ◌||◌, trim_prefix, suc, some, str_eq, ◌∷◌, [],
  false, not, true, is_nil, has_prefix, if◌then◌else◌, List, str, Bool, Option, Bytes, ℕ,
}
use a_from_scratch_linux_use.Base.Io.{
  or_raise, pure, call, raise, raise_if, Io, Result, ok, err, ◌>>=◌, ◌>>◌,
}

-- QMPError
pub record QmpError : Type 0 where
  pub class : Bytes
  pub desc : Bytes

-- qmpResponse; an event that is not there is the empty text.
pub record Reply (V : Type 0) : Type 0 where
  pub return : Option V
  pub error : Option QmpError
  pub event : Bytes

-- VMStatus
pub record VmStatus : Type 0 where
  pub running : Bool
  pub singlestep : Bool
  pub status : Bytes

-- What fails in the client; the monitor's own error is `refused`. `out_of_fuel` is the model's.
pub data ClientError : Type 0 where
  not_connected bad_greeting client_closed not_encoded not_written not_read not_decoded :
      ClientError
  bad_status empty_tag out_of_fuel : ClientError
  refused : QmpError → ClientError

-- The connection: ReadString('\n') gives a line, or none at an error.
pub record Conn (W : Type 0) : Type 0 where
  pub read_string : W → W × Option Bytes
  pub write : Bytes → W → W × Bool
  pub close : W → W

-- encoding/json, and the verb %v.
pub record Json (V : Type 0) : Type 0 where
  pub is_greeting : Bytes → Bool
  pub encode : Bytes → List (Bytes × Bytes) → Option Bytes
  pub decode : Bytes → Option (Reply V)
  pub as_text : V → Option Bytes
  pub print : Option V → Bytes
  pub as_status : Option V → Option VmStatus

-- parseTarget: the network and the address.
unfoldable pub parse_target : Bytes → Bytes × Bytes
parse_target target =
    if has_prefix target (str "unix://")
    then (str "unix", trim_prefix target (str "unix://"))
    else if has_prefix target (str "tcp://")
    then (str "tcp", trim_prefix target (str "tcp://"))
    else (str "unix", target)

-- A line that readLine passes over: a blank one, or an event by its text.
unfoldable pub is_skipped : Bytes → Bool
is_skipped line =
    is_nil line
    || (contains line (str "\"event\":")
        && (not (contains line (str "\"return\":")) && not (contains line (str "\"error\":"))))

-- Client
pub record Client (W : Type 0) : Type 0 where
  pub conn : W
  pub closed : Bool

abbrev is_none : {A : Type 0} → Option A → Bool
is_none none = true
is_none (some a) = false

-- `resp.Event != "" && resp.Return == nil && resp.Error == nil`
abbrev pub is_event : {V : Type 0} → Reply V → Bool
is_event r = not (is_nil r.event) && (is_none r.return && is_none r.error)

-- The result of a response.
abbrev pub result_of : {V : Type 0} → Option QmpError → Option V → Result ClientError (Option V)
result_of none value = ok value
result_of (some e) value = err (refused e)

module _ {W V : Type 0} (k : Conn W) (json : Json V) where
  -- readLine, for at most `fuel` lines.
  unfoldable pub read_line : ℕ → Io W ClientError Bytes
  read_line zero w = (w, err out_of_fuel)
  read_line (suc fuel) w =
      let (w', r) = k.read_string w in
      elim r [
        | none ↦ (w', err not_read)
        | some line ↦ elim (is_skipped (trim_space line)) [
          | true ↦ read_line fuel w'
          | false ↦ (w', ok (trim_space line))
        ]
      ]

  -- The loop of Execute that waits for a response. `lines` is the fuel of each readLine.
  unfoldable pub receive : ℕ → ℕ → Io W ClientError (Option V)
  receive lines zero w = (w, err out_of_fuel)
  receive lines (suc fuel) w =
      let (w', r) = read_line lines w in
      elim r [
        | err e ↦ (w', err e)
        | ok line ↦ elim (json.decode line) [
          | none ↦ (w', err not_decoded)
          | some reply ↦ elim (is_event reply) [
            | true ↦ receive lines fuel w'
            | false ↦ (w', result_of reply.error reply.return)
          ]
        ]
      ]

  abbrev pub write_request : Option Bytes → Io W ClientError (Unit {0})
  write_request none = raise not_encoded
  write_request (some payload) = call (k.write (payload ++ 10 ∷ [])) not_written

  abbrev on_conn :
      {A : Type 0} → Client W → W × Result ClientError A → Client W × Result ClientError A
  on_conn c (w, r) = (record c { conn = w }, r)

  -- Execute
  unfoldable pub execute : ℕ → Bytes → List (Bytes × Bytes) → Io (Client W) ClientError (Option V)
  execute fuel cmd args c =
      if c.closed
      then (c, err client_closed)
      else on_conn c ((write_request (json.encode cmd args) >> receive fuel fuel) c.conn)

  -- handshake
  unfoldable pub handshake : ℕ → Io (Client W) ClientError (Unit {0})
  handshake fuel = do
    line ← (λ c. on_conn c (read_line fuel c.conn))
    raise_if (not (json.is_greeting line)) bad_greeting
    resp ← execute fuel (str "qmp_capabilities") []
    pure tt

  abbrev shaken : Client W × Result ClientError (Unit {0}) → W × Result ClientError (Client W)
  shaken (c, ok x) = (c.conn, ok c)
  shaken (c, err e) = (k.close c.conn, err e)

  -- DialTimeout behind net.DialTimeout, whose connection is none where it fails.
  unfoldable pub dial_timeout : ℕ → W × Bool → W × Result ClientError (Client W)
  dial_timeout fuel (w, false) = (w, err not_connected)
  dial_timeout fuel (w, true) = shaken (handshake fuel (record { conn = w; closed = false }))

  -- Stop and Cont
  unfoldable pub stop_machine : ℕ → Io (Client W) ClientError (Unit {0})
  stop_machine fuel = do res ← execute fuel (str "stop") []; pure tt

  unfoldable pub cont_machine : ℕ → Io (Client W) ClientError (Unit {0})
  cont_machine fuel = do res ← execute fuel (str "cont") []; pure tt

  -- QueryStatus
  unfoldable pub query_status : ℕ → Io (Client W) ClientError VmStatus
  query_status fuel = do
    res ← execute fuel (str "query-status") []
    or_raise (json.as_status res) bad_status

  abbrev text_of : Option V → Bytes
  text_of none = json.print none
  text_of (some v) = elim (json.as_text v) [ none ↦ json.print (some v) | some text ↦ text ]

  -- HumanMonitorCommand
  unfoldable pub human_monitor_command : ℕ → Bytes → Io (Client W) ClientError Bytes
  human_monitor_command fuel command_line = do
    res ← execute fuel (str "human-monitor-command") ((str "command-line", command_line) ∷ [])
    pure (text_of res)

  abbrev tagged : ℕ → Bytes → Bytes → Io (Client W) ClientError Bytes
  tagged fuel command name = do
    raise_if (is_nil name) empty_tag
    human_monitor_command fuel (command ++ name)

  -- SaveVM, LoadVM and DelVM
  unfoldable pub save_vm : ℕ → Bytes → Io (Client W) ClientError Bytes
  save_vm fuel name = tagged fuel (str "savevm ") name

  unfoldable pub load_vm : ℕ → Bytes → Io (Client W) ClientError Bytes
  load_vm fuel name = tagged fuel (str "loadvm ") name

  unfoldable pub del_vm : ℕ → Bytes → Io (Client W) ClientError Bytes
  del_vm fuel name = tagged fuel (str "delvm ") name

  -- ListSnapshots
  unfoldable pub list_snapshots : ℕ → Io (Client W) ClientError (List SnapshotInfo)
  list_snapshots fuel = do
    output ← human_monitor_command fuel (str "info snapshots")
    pure (parse_snapshot_list output)

  -- Close
  unfoldable pub close_client : Client W → Client W
  close_client c = if c.closed then c else record { conn = k.close c.conn; closed = true }

-- IsQMPSocketAvailable: `exists` is os.Stat and `dials` net.DialTimeout.
unfoldable pub is_qmp_socket_available : (Bytes → Bool) → (Bytes → Bytes → Bool) → Bytes → Bool
is_qmp_socket_available exists dials socket_path =
    let (network, addr) = parse_target socket_path in
    if str_eq network (str "unix") && not (exists addr) then false else dials network addr
