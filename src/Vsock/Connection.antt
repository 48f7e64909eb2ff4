-- ===== src/Vsock/Connection.antt =====
-- handleConnection and handleTraceStream of internal/vsockd/server.go. A connection is the bytes
-- that the peer sends and a writer; JSON and the obsd daemon are parameters.
pub mod Serving
pub mod Termination
mod Tests
use a_from_scratch_linux_use.Base.{
  ℕ, zero, suc, Bool, true, false, Option, none, some, List, [], ◌∷◌, ◌++◌, if◌then◌else◌, Bytes,
  str, one_of, length,
}
use a_from_scratch_linux_use.Vsock.Frame.{Read, ok, err, FrameError, read_frame, write_frame}
use a_from_scratch_linux_use.Vsock.Protocol.{Request, Response, refuse}
use a_from_scratch_linux_use.Vsock.Server.{Provider, Surroundings, dispatch_command}

-- DecodeJSON of a request, none if it fails; EncodeJSON of a request and of a response, with the
-- text of the error if it fails; the texts of errors.
pub record Codec (F X : Type 0) : Type 0 where
  pub decode_request : Bytes → Option Request
  pub encode_request : Request → Bytes
  pub encode_response : Response F X → Bytes × Option Bytes
  pub decode_error : Bytes → Bytes
  pub frame_error : FrameError → Bytes

-- The obsd daemon: the error of dialing it, the error of a write to it, and the bytes that it sends
-- once it has a request.
pub record Obsd : Type 0 where
  pub dial_error : Option Bytes
  pub write_error : Bytes → Option Bytes
  pub stream : Bytes → Bytes

abbrev pub is_trace : Bytes → Bool
is_trace command = one_of command (str "trace" ∷ str "stream_exec" ∷ str "execsnoop" ∷ [])

-- The rest of a loop, unless a write has failed.
abbrev pub unless_ended : {W : Type 0} → W × Option FrameError → (W → Option W) → Option W
unless_ended (w, some e) f = some w
unless_ended (w, none) f = f w

module _ {F X S W : Type 0} (codec : Codec F X) (obsd : Obsd) (world : Surroundings X)
    (provider : Option (Provider F S)) (write : W → Bytes → W × Bool) where
  -- The bytes of a response; those of the error are taken without looking at its own encoding.
  unfoldable pub response_bytes : Bytes → Bytes × Option Bytes → Bytes
  response_bytes i (bytes, none) = bytes
  response_bytes i (bytes, some e) =
      (codec.encode_response (refuse i (str "failed encoding response: " ++ e))).0

  abbrev answer_bytes : Bytes → Response F X → Bytes
  answer_bytes i p = response_bytes i (codec.encode_response p)

  -- A frame with an error, whose own write may fail.
  abbrev pub complain : W → Bytes → Bytes → W
  complain w i e = (write_frame write w (codec.encode_response (refuse i e)).0).0

  -- The frames of the daemon, passed on until one end fails.
  unfoldable pub relay : ℕ → Bytes → W → Option W
  relay zero input w = none
  relay (suc fuel) input w = elim (read_frame input) [
    | err e ↦ some w
    | ok payload rest ↦ unless_ended (write_frame write w payload) (λ w1. relay fuel rest w1)
  ]

  first_frame : ℕ → Bytes → Read → W → Option W
  unfolding relay
  first_frame fuel i (err e) w =
      some (complain w i (str "failed reading initial response from obsd: " ++ codec.frame_error e))
  first_frame fuel i (ok payload rest) w =
      unless_ended (write_frame write w payload) (λ w1. relay fuel rest w1)

  traced : Bytes → Bytes → Option Bytes → W → Option W
  unfolding first_frame
  traced i bytes (some e) w = some (complain w i (str "failed writing to obsd socket: " ++ e))
  traced i bytes none w =
      let input = obsd.stream bytes in first_frame (suc (length input)) i (read_frame input) w

  trace_with : Bytes → Option Bytes → W → Option W
  unfolding traced
  trace_with i (some e) w =
      some (complain w i (str "obsd daemon un-reachable at /run/karim/obsd.sock: " ++ e))
  trace_with i none w =
      let bytes =
        codec.encode_request
          (record { id = i; command = str "trace"; service = []; args = []; payload = [] }) in
      traced i bytes (obsd.write_error bytes) w

  -- handleTraceStream; none when the fuel of its loop runs out.
  unfoldable pub handle_trace_stream : Request → W → Option W
  unfolding trace_with
  handle_trace_stream r w = trace_with r.id obsd.dial_error w

  abbrev pub keep : S → Option W → Option (W × S)
  keep s none = none
  keep s (some w) = some (w, s)

  -- Behind the write of a response: the loop goes on unless it failed.
  abbrev pub after_answer : S → W × Option FrameError → (W → S → Option (W × S)) → Option (W × S)
  after_answer s (w, some e) k = some (w, s)
  after_answer s (w, none) k = k w s

  -- One request; `k` is the rest of the loop.
  abbrev pub on_request : (W → S → Option (W × S)) → Request → W → S → Option (W × S)
  on_request k r w s =
      let p = dispatch_command world provider r s in
      if is_trace r.command
      then keep s (handle_trace_stream r w)
      else after_answer p.0 (write_frame write w (answer_bytes r.id p.1)) k

  abbrev pub on_payload : (W → S → Option (W × S)) → Bytes → Option Request → W → S → Option (W × S)
  on_payload k payload none w s =
      k (complain w [] (str "invalid JSON payload: " ++ codec.decode_error payload)) s
  on_payload k payload (some r) w s = on_request k r w s

  abbrev pub on_frame : (Bytes → W → S → Option (W × S)) → Read → W → S → Option (W × S)
  on_frame k (err e) w s = some (w, s)
  on_frame k (ok payload rest) w s = on_payload (k rest) payload (codec.decode_request payload) w s

  -- handleConnection; none when the fuel runs out.
  unfoldable pub handle_connection : ℕ → Bytes → W → S → Option (W × S)
  handle_connection zero input w s = none
  handle_connection (suc fuel) input w s = on_frame (handle_connection fuel) (read_frame input) w s
