-- ===== src/Vsock/Connection/Tests.antt =====
-- A connection with two requests, and the theorem about connections at it.
use a_from_scratch_linux_use.Base.{
  ℕ, ◌++◌, none, some, Option, suc, List, [], ◌∷◌, Bytes, str, str_eq, one_of, All, ◌≡◌, ◌≢◌, refl,
  arith,
}
use a_from_scratch_linux_use.Vsock.Frame.{append_to}
use a_from_scratch_linux_use.Vsock.Protocol.{Request}
use a_from_scratch_linux_use.Vsock.Server.{Provider, Surroundings}
use a_from_scratch_linux_use.Vsock.Connection.{Codec, Obsd, handle_connection}
use a_from_scratch_linux_use.Vsock.Connection.Termination.{handle_connection_terminates}
use a_from_scratch_linux_use.Vsock.Connection.Serving.{
  requests, responses, state_behind, IsPlain, handle_connection-responses,
}

abbrev request : Bytes → Request
request c = record { id = []; command = c; service = []; args = []; payload = [] }

-- A request is encoded as its command, a response as its error.
abbrev codec : Codec ℕ ℕ
codec = record {
  decode_request = λ b. some (request b);
  encode_request = λ r. r.command;
  encode_response = λ p. (p.error, none);
  decode_error = λ b. [];
  frame_error = λ e. [];
}

abbrev obsd : Obsd
obsd = record { dial_error = some []; write_error = λ b. none; stream = λ b. [] }

abbrev world : Surroundings ℕ
world = record {
  runtime_stats = 0;
  obsd_metrics = (0, none);
  system_status = (0, none);
  quote = λ b. b;
}

-- A provider that counts the calls.
abbrev provider : Option (Provider ℕ ℕ)
provider = some (record {
  list_services = λ s. (suc s, []);
  start_service = λ n s. (suc s, none);
  stop_service = λ n s. (suc s, none);
  get_service_logs = λ n s. (suc s, [], none);
  quiesce = λ s. (suc s, none);
  unquiesce = λ s. (suc s, none);
  load_service = λ c s. (suc s, none);
  apply_bundle = λ c s. (suc s, none);
})

abbrev pair : List Request
pair = request (str "ping") ∷ request (str "ps") ∷ []

pair-IsPlain : All (IsPlain codec obsd world provider (λ r. r.command)) pair
unfolding one_of str_eq
pair-IsPlain = ((refl, omega arith, refl), ((refl, omega arith, refl), tt))

handle_connection-responses_example :
    handle_connection codec obsd world provider append_to 3
      (requests codec obsd world provider (λ r. r.command) pair)
      []
      0
    ≡ some (
      [] ++ responses codec obsd world provider (λ r. r.command) pair 0,
      state_behind codec obsd world provider (λ r. r.command) pair 0,
    )
handle_connection-responses_example =
    handle_connection-responses codec obsd world provider (λ r. r.command) 3 pair [] 0 pair-IsPlain
      (omega arith)

handle_connection_terminates_example :
    handle_connection codec obsd world provider append_to 7 (str "broken") [] 0 ≢ none
handle_connection_terminates_example =
    handle_connection_terminates codec obsd world provider append_to 7 (str "broken") [] 0
      (omega arith)
