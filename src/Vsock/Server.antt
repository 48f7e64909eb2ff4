-- ===== src/Vsock/Server.antt =====
-- dispatchCommand of internal/vsockd/server.go, over the state `S` of a service provider.
pub mod Answers
pub mod Errors
pub mod Effects
use a_from_scratch_linux_use.Base.{
  ℕ, Bool, true, false, Option, none, some, List, [], ◌∷◌, ◌++◌, if◌then◌else◌, Bytes, str, length,
  one_of, str_eq, is_nil,
}
use a_from_scratch_linux_use.Vsock.Protocol.{
  Request, ServiceInfo, Metrics, Payload, nothing, text, services, metrics, foreign, Response,
  reply, refuse,
}

-- The interface ServiceProvider. `none` is a nil error, `some` the text of an error.
pub record Provider (F S : Type 0) : Type 0 where
  pub list_services : S → S × List (ServiceInfo F)
  pub start_service : Bytes → S → S × Option Bytes
  pub stop_service : Bytes → S → S × Option Bytes
  pub get_service_logs : Bytes → S → S × Bytes × Option Bytes
  pub quiesce : S → S × Option Bytes
  pub unquiesce : S → S × Option Bytes
  pub load_service : Bytes → S → S × Option Bytes
  pub apply_bundle : Bytes → S → S × Option Bytes

-- What the server asks of its surroundings while it answers: the runtime's figures, the obsd
-- daemon, system.GetSystemStatus, and the verb %q.
pub record Surroundings (X : Type 0) : Type 0 where
  pub runtime_stats : X
  pub obsd_metrics : X × Option Bytes
  pub system_status : X × Option Bytes
  pub quote : Bytes → Bytes

abbrev pub no_provider : Bytes
no_provider = str "no service provider configured"

-- `if serviceName == "" { serviceName = ... }`
abbrev named_or : Bytes → Bytes → Bytes
named_or [] d = d
named_or (c ∷ cs) d = c ∷ cs

abbrev pub answer_with : {F X : Type 0} → Bytes → X × Option Bytes → Response F X
answer_with i (x, none) = reply i (foreign x)
answer_with i (x, some e) = refuse i e

module _ {F X S : Type 0} where
  -- `if err != nil { return ...err.Error() }; return ...Data: d`
  abbrev pub answer : Bytes → Payload F X → S × Option Bytes → S × Response F X
  answer i d (s, none) = (s, reply i d)
  answer i d (s, some e) = (s, refuse i e)

  abbrev answer_logs : Bytes → S × Bytes × Option Bytes → S × Response F X
  answer_logs i (s, logs, none) = (s, reply i (text logs))
  answer_logs i (s, logs, some e) = (s, refuse i e)

  abbrev answer_list : Bytes → S × List (ServiceInfo F) → S × Response F X
  answer_list i (s, l) = (s, reply i (services l))

  -- `if s.provider == nil { ... }`
  abbrev with_provider :
      Option (Provider F S) → Request → S → (Provider F S → S × Response F X) → S × Response F X
  with_provider none r s f = (s, refuse r.id no_provider)
  with_provider (some p) r s f = f p

  -- `if value == "" { return ... }`
  abbrev require : Bytes → Bytes → Request → S → S × Response F X → S × Response F X
  require [] complaint r s k = (s, refuse r.id complaint)
  require (c ∷ cs) complaint r s k = k

module _ {F X S : Type 0} (world : Surroundings X) where
  abbrev answer_count : Bytes → S × List (ServiceInfo F) → S × Response F X
  answer_count i (s, l) =
      (s, reply i (metrics (record { runtime = world.runtime_stats; num_services = length l })))

  get_metrics : Option (Provider F S) → Request → S → S × Response F X
  get_metrics none r s = answer_count r.id (s, [])
  get_metrics (some p) r s = answer_count r.id (p.list_services s)

  -- The cases "ping" to "get_metrics" of the switch, then `others`.
  dispatch_services : Option (Provider F S) → Request → S → S × Response F X → S × Response F X
  unfolding get_metrics
  dispatch_services provider r s others =
      if str_eq r.command (str "ping")
      then (s, reply r.id (text (str "PONG")))
      else if one_of r.command (str "list_services" ∷ str "ps" ∷ [])
      then with_provider provider r s (λ p. answer_list r.id (p.list_services s))
      else if one_of r.command (str "start_service" ∷ str "start" ∷ [])
      then with_provider provider r s (λ p. require r.service (str "missing service name") r s (
          answer r.id (text (str "service " ++ r.service ++ str " started successfully"))
            (p.start_service r.service s)))
      else if one_of r.command (str "stop_service" ∷ str "stop" ∷ [])
      then with_provider provider r s (λ p. require r.service (str "missing service name") r s (
          answer r.id (text (str "service " ++ r.service ++ str " stopped successfully"))
            (p.stop_service r.service s)))
      else if one_of r.command (str "get_logs" ∷ str "logs" ∷ [])
      then with_provider provider r s (λ p.
        require r.service (str "missing service name") r s
          (answer_logs r.id (p.get_service_logs r.service s)))
      else if one_of r.command (str "get_metrics" ∷ str "metrics" ∷ [])
      then get_metrics provider r s
      else others

  -- The cases "get_obsd" to "trace".
  dispatch_system : Option (Provider F S) → Request → S → S × Response F X → S × Response F X
  dispatch_system provider r s others =
      if one_of r.command (str "get_obsd" ∷ str "obsd" ∷ [])
      then (s, answer_with r.id world.obsd_metrics)
      else if one_of r.command (str "quiesce" ∷ str "freeze" ∷ [])
      then with_provider provider r s (λ p.
        answer r.id (text (str "guest filesystem buffers synced and state quiesced")) (p.quiesce s))
      else if one_of r.command (str "unquiesce" ∷ str "thaw" ∷ [])
      then with_provider provider r s
          (λ p. answer r.id (text (str "guest state unquiesced")) (p.unquiesce s))
      else if one_of r.command (
          str "get_system_status"
          ∷ str "system"
          ∷ str "system_status"
          ∷ str "status"
          ∷ str "hardd"
          ∷ [])
      then (s, answer_with r.id world.system_status)
      else if one_of r.command (str "trace" ∷ str "stream_exec" ∷ str "execsnoop" ∷ [])
      then (s, reply r.id (text (str "STREAM_START")))
      else others

  -- The cases "load_service" to the default.
  dispatch_payload : Option (Provider F S) → Request → S → S × Response F X
  dispatch_payload provider r s =
      if one_of r.command (str "load_service" ∷ str "apply_service" ∷ [])
      then with_provider provider r s (λ p.
        require r.payload (str "missing TOML payload in request") r s (
          answer r.id
            (text (
              str "service "
              ++ named_or r.service (str "(parsed from TOML)")
              ++ str " loaded and started successfully"))
            (p.load_service r.payload s)))
      else if str_eq r.command (str "run_service")
      then with_provider provider r s (λ p.
        require r.payload (str "missing inline spec payload in request") r s (
          answer r.id (text (str "service " ++ r.service ++ str " started dynamically"))
            (p.load_service r.payload s)))
      else if one_of r.command (str "apply_bundle" ∷ str "bundle_apply" ∷ [])
      then with_provider provider r s (λ p.
        require r.payload (str "missing OCI bundle payload in request") r s (
          answer r.id
            (text (
              str "OCI container bundle "
              ++ named_or r.service (str "dynamic-oci-bundle")
              ++ str " applied and launched successfully"))
            (p.apply_bundle r.payload s)))
      else (s, refuse r.id (str "unknown command: " ++ world.quote r.command))

  -- dispatchCommand
  unfoldable pub dispatch_command : Option (Provider F S) → Request → S → S × Response F X
  unfolding dispatch_services dispatch_system dispatch_payload
  dispatch_command provider r s =
      dispatch_services provider r s (dispatch_system provider r s (dispatch_payload provider r s))
