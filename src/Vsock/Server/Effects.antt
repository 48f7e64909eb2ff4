-- ===== src/Vsock/Server/Effects.antt =====
-- What a command does to the provider.
use a_from_scratch_linux_use.Base.{
  Option, none, some, List, [], ◌∷◌, if◌then◌else◌, Bytes, str, ◌≡◌, arith, one_of, str_eq,
}
use a_from_scratch_linux_use.Vsock.Protocol.{Request, Response}
use a_from_scratch_linux_use.Vsock.Server.{
  Provider, Surroundings, dispatch_services, dispatch_system, dispatch_payload, dispatch_command,
}

-- The operations of a provider that a command may ask for.
pub data Op : Type 0 where
  idle list freeze thaw : Op
  start stop logs load bundle : Bytes → Op

module _ {F S : Type 0} where
  -- The state after one operation; there is nothing to change without a provider.
  abbrev pub perform : Option (Provider F S) → Op → S → S
  perform none op s = s
  perform (some p) idle s = s
  perform (some p) list s = (p.list_services s).0
  perform (some p) freeze s = (p.quiesce s).0
  perform (some p) thaw s = (p.unquiesce s).0
  perform (some p) (start n) s = (p.start_service n s).0
  perform (some p) (stop n) s = (p.stop_service n s).0
  perform (some p) (logs n) s = (p.get_service_logs n s).0
  perform (some p) (load c) s = (p.load_service c s).0
  perform (some p) (bundle c) s = (p.apply_bundle c s).0

-- An operation with a missing argument is not made.
abbrev given : (Bytes → Op) → Bytes → Op
given f [] = idle
given f (c ∷ cs) = f (c ∷ cs)

abbrev Table : Type 0
Table = List (Bytes × (Request → Op))

abbrev service_commands : Table
service_commands =
    (str "ping", λ r. idle)
    ∷ (str "list_services", λ r. list)
    ∷ (str "ps", λ r. list)
    ∷ (str "start_service", λ r. given start r.service)
    ∷ (str "start", λ r. given start r.service)
    ∷ (str "stop_service", λ r. given stop r.service)
    ∷ (str "stop", λ r. given stop r.service)
    ∷ (str "get_logs", λ r. given logs r.service)
    ∷ (str "logs", λ r. given logs r.service)
    ∷ (str "get_metrics", λ r. list)
    ∷ (str "metrics", λ r. list)
    ∷ []

abbrev system_commands : Table
system_commands =
    (str "get_obsd", λ r. idle)
    ∷ (str "obsd", λ r. idle)
    ∷ (str "quiesce", λ r. freeze)
    ∷ (str "freeze", λ r. freeze)
    ∷ (str "unquiesce", λ r. thaw)
    ∷ (str "thaw", λ r. thaw)
    ∷ (str "get_system_status", λ r. idle)
    ∷ (str "system", λ r. idle)
    ∷ (str "system_status", λ r. idle)
    ∷ (str "status", λ r. idle)
    ∷ (str "hardd", λ r. idle)
    ∷ (str "trace", λ r. idle)
    ∷ (str "stream_exec", λ r. idle)
    ∷ (str "execsnoop", λ r. idle)
    ∷ []

abbrev payload_commands : Table
payload_commands =
    (str "load_service", λ r. given load r.payload)
    ∷ (str "apply_service", λ r. given load r.payload)
    ∷ (str "run_service", λ r. given load r.payload)
    ∷ (str "apply_bundle", λ r. given bundle r.payload)
    ∷ (str "bundle_apply", λ r. given bundle r.payload)
    ∷ []

-- The operation of the row whose name is the request's command, or `op`.
select : Table → Request → Op → Op
select [] r op = op
select ((name, f) ∷ table) r op = if str_eq r.command name then f r else select table r op

-- What a request asks of the provider.
pub requested : Request → Op
requested r = select service_commands r (select system_commands r (select payload_commands r idle))

module _ {F X S : Type 0} (world : Surroundings X) where
  services_effect :
      (provider : Option (Provider F S)) (r : Request) (s : S) (others : S × Response F X) (op : Op)
      → others.0 ≡ perform provider op s
      → (dispatch_services world provider r s others).0
        ≡ perform provider (select service_commands r op) s
  unfolding dispatch_services select one_of
  services_effect none r s others op h = ground arith
  services_effect (some p) r s others op h = ground arith

  system_effect :
      (provider : Option (Provider F S)) (r : Request) (s : S) (others : S × Response F X) (op : Op)
      → others.0 ≡ perform provider op s
      → (dispatch_system world provider r s others).0
        ≡ perform provider (select system_commands r op) s
  unfolding dispatch_system select one_of
  system_effect none r s others op h = ground arith
  system_effect (some p) r s others op h = ground arith

  payload_effect :
      (provider : Option (Provider F S)) (r : Request) (s : S)
      → (dispatch_payload world provider r s).0
        ≡ perform provider (select payload_commands r idle) s
  unfolding dispatch_payload select one_of
  payload_effect none r s = ground arith
  payload_effect (some p) r s = ground arith

  -- A request, whoever sends it, changes the provider by exactly the operation that the table of
  -- commands gives it: none for a command that only reports, for an unknown one, for one whose
  -- service or payload is empty, and without a provider.
  pub dispatch_command-requested :
      (provider : Option (Provider F S)) (r : Request) (s : S)
      → (dispatch_command world provider r s).0 ≡ perform provider (requested r) s
  unfolding dispatch_command requested
  dispatch_command-requested provider r s =
      services_effect provider r s _ _
        (system_effect provider r s _ _ (payload_effect provider r s))
