-- ===== src/Vsock/Server/Errors.antt =====
-- The table of commands of dispatchCommand, with the error that each one gives.
use a_from_scratch_linux_use.Base.{
  Option, none, some, List, [], ◌∷◌, ◌++◌, if◌then◌else◌, Bytes, str, str_eq,
}
use a_from_scratch_linux_use.Vsock.Protocol.{Request}
use a_from_scratch_linux_use.Vsock.Server.{Provider, Surroundings, no_provider}

abbrev needs : Bytes → Bytes → Option Bytes → Option Bytes
needs [] complaint o = some complaint
needs (c ∷ cs) complaint o = o

module _ {F X S : Type 0} (world : Surroundings X) (provider : Option (Provider F S)) where
  -- One row for each name of a command: the error of a request, if there is one.
  abbrev pub Table : Type 0
  Table = List (Bytes × (Request → S → Option Bytes))

  abbrev pub provided : Option (Provider F S) → (Provider F S → Option Bytes) → Option Bytes
  provided none f = some no_provider
  provided (some p) f = f p

  abbrev pub fine : Request → S → Option Bytes
  fine r s = none

  abbrev pub listing : Request → S → Option Bytes
  listing r s = provided provider (λ p. none)

  abbrev pub starting : Request → S → Option Bytes
  starting r s =
      provided provider
        (λ p. needs r.service (str "missing service name") (p.start_service r.service s).1)

  abbrev pub stopping : Request → S → Option Bytes
  stopping r s =
      provided provider
        (λ p. needs r.service (str "missing service name") (p.stop_service r.service s).1)

  abbrev pub logging : Request → S → Option Bytes
  logging r s =
      provided provider
        (λ p. needs r.service (str "missing service name") (p.get_service_logs r.service s).2)

  abbrev pub freezing : Request → S → Option Bytes
  freezing r s = provided provider (λ p. (p.quiesce s).1)

  abbrev pub thawing : Request → S → Option Bytes
  thawing r s = provided provider (λ p. (p.unquiesce s).1)

  abbrev pub loading : Bytes → Request → S → Option Bytes
  loading complaint r s =
      provided provider (λ p. needs r.payload complaint (p.load_service r.payload s).1)

  abbrev pub applying : Request → S → Option Bytes
  applying r s = provided provider (λ p.
      needs r.payload (str "missing OCI bundle payload in request") (p.apply_bundle r.payload s).1)

  abbrev pub service_errors : Table
  service_errors =
      (str "ping", fine)
      ∷ (str "list_services", listing)
      ∷ (str "ps", listing)
      ∷ (str "start_service", starting)
      ∷ (str "start", starting)
      ∷ (str "stop_service", stopping)
      ∷ (str "stop", stopping)
      ∷ (str "get_logs", logging)
      ∷ (str "logs", logging)
      ∷ (str "get_metrics", fine)
      ∷ (str "metrics", fine)
      ∷ []

  abbrev pub watching : Request → S → Option Bytes
  watching r s = world.obsd_metrics.1

  abbrev pub looking : Request → S → Option Bytes
  looking r s = world.system_status.1

  abbrev pub stream_errors : Table
  stream_errors = (str "trace", fine) ∷ (str "stream_exec", fine) ∷ (str "execsnoop", fine) ∷ []

  abbrev pub status_errors : Table
  status_errors =
      (str "get_system_status", looking)
      ∷ (str "system", looking)
      ∷ (str "system_status", looking)
      ∷ (str "status", looking)
      ∷ (str "hardd", looking)
      ∷ stream_errors

  abbrev pub thaw_errors : Table
  thaw_errors = (str "unquiesce", thawing) ∷ (str "thaw", thawing) ∷ status_errors

  abbrev pub freeze_errors : Table
  freeze_errors = (str "quiesce", freezing) ∷ (str "freeze", freezing) ∷ thaw_errors

  abbrev pub system_errors : Table
  system_errors = (str "get_obsd", watching) ∷ (str "obsd", watching) ∷ freeze_errors

  abbrev pub payload_errors : Table
  payload_errors =
      (str "load_service", loading (str "missing TOML payload in request"))
      ∷ (str "apply_service", loading (str "missing TOML payload in request"))
      ∷ (str "run_service", loading (str "missing inline spec payload in request"))
      ∷ (str "apply_bundle", applying)
      ∷ (str "bundle_apply", applying)
      ∷ []

  -- The error of the row whose name is the request's command, or `other`.
  unfoldable pub select : Table → Request → S → Option Bytes → Option Bytes
  select [] r s other = other
  select ((name, f) ∷ table) r s other =
      if str_eq r.command name then f r s else select table r s other

  -- The error that a request gives, if it gives one.
  unfoldable pub error_of : Request → S → Option Bytes
  unfolding select
  error_of r s = select service_errors r s (
      select system_errors r s
        (select payload_errors r s (some (str "unknown command: " ++ world.quote r.command))))
