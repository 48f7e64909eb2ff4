-- ===== src/Vsock/Connection/Termination.antt =====
-- The loops of handleConnection and handleTraceStream in internal/vsockd/server.go end.
use a_from_scratch_linux_use.Base.{
  ℕ, zero, suc, ◌<◌, Bool, true, false, Option, none, some, [], ◌∷◌, ◌++◌, ltb, leb, if◌then◌else◌,
  Bytes, str, length, take, drop, length-drop, arith, ◌≡◌, ◌≢◌, refl, ap, subst,
}
use a_from_scratch_linux_use.Vsock.Frame.{
  Read, FrameError, too_large, bad_payload, ok, err, read_frame, read_payload, write_frame,
  max_frame_size, uint32_of,
}
use a_from_scratch_linux_use.Vsock.Protocol.{Request}
use a_from_scratch_linux_use.Vsock.Server.{Provider, Surroundings, dispatch_command}
use a_from_scratch_linux_use.Vsock.Connection.{
  Codec, Obsd, is_trace, answer_bytes, handle_connection, keep, handle_trace_stream, on_request,
  on_payload, on_frame, after_answer, relay, first_frame, traced, trace_with, unless_ended,
  complain,
}

abbrev rest_or : Bytes → Read → Bytes
rest_or d (ok payload rest) = rest
rest_or d (err e) = d

rest_of : {p q r s : Bytes} → ok p r ≡ ok q s → r ≡ s
rest_of {p} {q} {r} {s} h = ap (rest_or r) h

-- A frame takes bytes off the input.
read_frame-shorter :
    (input payload rest : Bytes) → read_frame input ≡ ok payload rest → length rest < length input
unfolding read_frame read_payload
read_frame-shorter [] payload rest h = cc
read_frame-shorter (a ∷ []) payload rest h = cc
read_frame-shorter (a ∷ b ∷ []) payload rest h = cc
read_frame-shorter (a ∷ b ∷ c ∷ []) payload rest h = cc
read_frame-shorter (a ∷ b ∷ c ∷ d ∷ s) payload rest h =
    accepts (ltb max_frame_size (uint32_of a b c d)) (leb (uint32_of a b c d) (length s)) h
  where
    accepts :
        (big fits : Bool)
        → (if big
            then err too_large
            else if fits
            then ok (take (uint32_of a b c d) s) (drop (uint32_of a b c d) s)
            else err bad_payload)
          ≡ ok payload rest
        → length rest < suc (suc (suc (suc (length s))))
    accepts true fits e = cc
    accepts false false e = cc
    accepts false true e =
        subst (λ t. length t < suc (suc (suc (suc (length s))))) (rest_of e)
          (omega (arith, length-drop (uint32_of a b c d) s))

unless_ended-ends :
    {W : Type 0} (r : W × Option FrameError) (f : W → Option W)
    → ((w : W) → f w ≢ none)
    → unless_ended r f ≢ none
unless_ended-ends (w, some e) f h k = cc
unless_ended-ends (w, none) f h k = h w k

no_less : (input : Bytes) → length input < 0 → ⊥
no_less input h = omega (arith, h)

module _ {F X S W : Type 0} (codec : Codec F X) (obsd : Obsd) (world : Surroundings X)
    (provider : Option (Provider F S)) (write : W → Bytes → W × Bool) where
  abbrev relay_on : ℕ → Read → W → Option W
  relay_on fuel r w = elim r [
    | err e ↦ some w
    | ok payload rest ↦
        unless_ended (write_frame write w payload)
          (λ w1. relay codec obsd world provider write fuel rest w1)
  ]

  relay_on-ends :
      (fuel : ℕ) (input : Bytes) (r : Read) (w : W)
      → read_frame input ≡ r
      → length input < suc fuel
      → ((rest : Bytes) (w1 : W)
          → length rest < fuel
          → relay codec obsd world provider write fuel rest w1 ≢ none)
      → relay_on fuel r w ≢ none
  relay_on-ends fuel input (err e) w h k ih = λ c. cc
  relay_on-ends fuel input (ok payload rest) w h k ih =
      unless_ended-ends (write_frame write w payload)
        (λ w1. relay codec obsd world provider write fuel rest w1)
        (λ w1. ih rest w1 (omega (arith, k, read_frame-shorter input payload rest h)))

  relay-ends :
      (fuel : ℕ) (input : Bytes) (w : W)
      → length input < fuel
      → relay codec obsd world provider write fuel input w ≢ none
  unfolding relay
  relay-ends zero input w h = elim (no_less input h) [ ]
  relay-ends (suc fuel) input w h =
      relay_on-ends fuel input (read_frame input) w refl h (relay-ends fuel)

  first_frame-ends :
      (i input : Bytes) (r : Read) (w : W)
      → read_frame input ≡ r
      → first_frame codec obsd world provider write (suc (length input)) i r w ≢ none
  unfolding first_frame
  first_frame-ends i input (err e) w h = λ c. cc
  first_frame-ends i input (ok payload rest) w h =
      unless_ended-ends (write_frame write w payload)
        (λ w1. relay codec obsd world provider write (suc (length input)) rest w1)
        (λ w1.
          relay-ends (suc (length input)) rest w1
            (omega (arith, read_frame-shorter input payload rest h)))

  traced-ends :
      (i bytes : Bytes) (e : Option Bytes) (w : W)
      → traced codec obsd world provider write i bytes e w ≢ none
  unfolding traced
  traced-ends i bytes (some e) w = λ c. cc
  traced-ends i bytes none w =
      first_frame-ends i (obsd.stream bytes) (read_frame (obsd.stream bytes)) w refl

  trace_with-ends :
      (i : Bytes) (e : Option Bytes) (w : W)
      → trace_with codec obsd world provider write i e w ≢ none
  unfolding trace_with
  trace_with-ends i (some e) w = λ c. cc
  trace_with-ends i none w = traced-ends i _ _ w

  handle_trace_stream-ends :
      (r : Request) (w : W) → handle_trace_stream codec obsd world provider write r w ≢ none
  unfolding handle_trace_stream
  handle_trace_stream-ends r w = trace_with-ends r.id obsd.dial_error w

  keep-ends : (s : S) (o : Option W) → o ≢ none → keep codec obsd world provider write s o ≢ none
  keep-ends s none h c = h refl
  keep-ends s (some w) h c = cc

  after_answer-ends :
      (s : S) (r : W × Option FrameError) (k : W → S → Option (W × S))
      → ((w : W) (s' : S) → k w s' ≢ none)
      → after_answer codec obsd world provider write s r k ≢ none
  after_answer-ends s (w, some e) k h c = cc
  after_answer-ends s (w, none) k h c = h w s c

  on_request-ends :
      (k : W → S → Option (W × S)) (r : Request) (w : W) (s : S)
      → ((w1 : W) (s' : S) → k w1 s' ≢ none)
      → on_request codec obsd world provider write k r w s ≢ none
  on_request-ends k r w s h = branch (is_trace r.command)
    where
      branch :
          (b : Bool)
          → (if b
              then keep codec obsd world provider write s
                  (handle_trace_stream codec obsd world provider write r w)
              else after_answer codec obsd world provider write
                  (dispatch_command world provider r s).0
                  (write_frame write w (
                    answer_bytes codec obsd world provider write r.id
                      (dispatch_command world provider r s).1))
                  k)
            ≢ none
      branch true =
          keep-ends s (handle_trace_stream codec obsd world provider write r w)
            (handle_trace_stream-ends r w)
      branch false =
          after_answer-ends (dispatch_command world provider r s).0
            (write_frame write w (
              answer_bytes codec obsd world provider write r.id
                (dispatch_command world provider r s).1))
            k h

  on_payload-ends :
      (k : W → S → Option (W × S)) (payload : Bytes) (d : Option Request) (w : W) (s : S)
      → ((w1 : W) (s' : S) → k w1 s' ≢ none)
      → on_payload codec obsd world provider write k payload d w s ≢ none
  on_payload-ends k payload none w s h =
      h
        (complain codec obsd world provider write w []
          (str "invalid JSON payload: " ++ codec.decode_error payload))
        s
  on_payload-ends k payload (some r) w s h = on_request-ends k r w s h

  on_frame-ends :
      (fuel : ℕ) (input : Bytes) (r : Read) (w : W) (s : S)
      → read_frame input ≡ r
      → length input < suc fuel
      → ((rest : Bytes) (w1 : W) (s' : S)
          → length rest < fuel
          → handle_connection codec obsd world provider write fuel rest w1 s' ≢ none)
      → on_frame codec obsd world provider write
          (handle_connection codec obsd world provider write fuel)
          r
          w
          s
        ≢ none
  on_frame-ends fuel input (err e) w s h k ih = λ c. cc
  on_frame-ends fuel input (ok payload rest) w s h k ih =
      on_payload-ends (handle_connection codec obsd world provider write fuel rest) payload
        (codec.decode_request payload) w s
        (λ w1 s'. ih rest w1 s' (omega (arith, k, read_frame-shorter input payload rest h)))

  -- The loop of a connection ends, with the relay of a trace, whatever the client and the obsd
  -- daemon send and whichever calls fail: more fuel than there are bytes to read is enough.
  pub handle_connection_terminates :
      (fuel : ℕ) (input : Bytes) (w : W) (s : S)
      → length input < fuel
      → handle_connection codec obsd world provider write fuel input w s ≢ none
  unfolding handle_connection
  handle_connection_terminates zero input w s h = elim (no_less input h) [ ]
  handle_connection_terminates (suc fuel) input w s h =
      on_frame-ends fuel input (read_frame input) w s refl h (handle_connection_terminates fuel)
