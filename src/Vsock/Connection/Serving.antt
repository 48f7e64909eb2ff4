-- ===== src/Vsock/Connection/Serving.antt =====
-- A whole connection of internal/vsockd/server.go, from the frames of a client to those it gets.
use a_from_scratch_linux_use.Base.{
  ℕ, zero, suc, ◌≤◌, ◌<◌, ◌%◌, ◌^◌, Bool, true, false, Option, none, some, List, [], ◌∷◌, ◌++◌, ltb,
  leb, if◌then◌else◌, Bytes, length, All, append_assoc, append-nil, arith, ◌≡◌, refl, sym, ap, ◌∙◌,
}
use a_from_scratch_linux_use.Vsock.Frame.{
  FrameError, too_large, ok, err, read_frame, write_frame, append_to, frame, max_frame_size,
  put_uint32,
}
use a_from_scratch_linux_use.Vsock.Frame.RoundTrip.{read_frame-frame}
use a_from_scratch_linux_use.Vsock.Protocol.{Request}
use a_from_scratch_linux_use.Vsock.Server.{Provider, Surroundings, dispatch_command}
use a_from_scratch_linux_use.Vsock.Connection.{
  Codec, Obsd, is_trace, answer_bytes, handle_connection, keep, handle_trace_stream, on_request,
  on_payload, on_frame, after_answer,
}

abbrev framed : Bool → Bytes → Bytes → Bytes → Bytes × Option FrameError
framed b w header payload = if b then ((w ++ header) ++ payload, none) else (w ++ header, none)

framed_append :
    (b : Bool) (w header payload : Bytes)
    → framed b w header payload ≡ (w ++ (framed b [] header payload).0, none)
framed_append true w header payload = ap (λ t. (t, none)) (append_assoc w header payload)
framed_append false w header payload = refl

write_frame-append_to :
    (w payload : Bytes) → write_frame append_to w payload ≡ (w ++ frame payload, none)
unfolding write_frame frame
write_frame-append_to w payload =
    framed_append (ltb 0 (length payload % 2 ^ 32)) w (put_uint32 (length payload % 2 ^ 32)) payload

fits :
    (payload : Bytes) → length payload ≤ max_frame_size → leb (length payload) max_frame_size ≡ true
fits payload h = ground arith

read_whole :
    (payload rest : Bytes)
    → length payload ≤ max_frame_size
    → read_frame (frame payload ++ rest) ≡ ok payload rest
read_whole payload rest h =
    read_frame-frame payload rest (omega (arith, h))
    ∙ ap (λ b. if b then ok payload rest else err too_large) (fits payload h)

absurd : (rs : List Request) → length rs < 0 → ⊥
absurd rs h = omega (arith, h)

module _ {F X S : Type 0} (codec : Codec F X) (obsd : Obsd) (world : Surroundings X)
    (provider : Option (Provider F S)) (encode : Request → Bytes) where
  -- What a client sends.
  abbrev pub requests : List Request → Bytes
  requests [] = []
  requests (r ∷ rs) = frame (encode r) ++ requests rs

  -- What it gets: the response to each request, in order.
  abbrev pub responses : List Request → S → Bytes
  responses [] s = []
  responses (r ∷ rs) s =
      let p = dispatch_command world provider r s in
      frame (answer_bytes codec obsd world provider append_to r.id p.1) ++ responses rs p.0

  -- The state of the provider behind all of them.
  abbrev pub state_behind : List Request → S → S
  state_behind [] s = s
  state_behind (r ∷ rs) s = state_behind rs (dispatch_command world provider r s).0

  -- A request that the server reads back and answers itself.
  abbrev pub IsPlain : Request → Type 0
  IsPlain r =
      (codec.decode_request (encode r) ≡ some r)
      × (length (encode r) ≤ max_frame_size)
      × (is_trace r.command ≡ false)

  on_request-plain :
      (k : Bytes → S → Option (Bytes × S)) (r : Request) (w : Bytes) (s : S)
      → is_trace r.command ≡ false
      → on_request codec obsd world provider append_to k r w s
        ≡ k
            (w
              ++ frame (
                  answer_bytes codec obsd world provider append_to r.id
                    (dispatch_command world provider r s).1))
            (dispatch_command world provider r s).0
  on_request-plain k r w s h =
      let p = dispatch_command world provider r s in
      let bytes = answer_bytes codec obsd world provider append_to r.id p.1 in
      ap
        (λ b.
          if b
          then keep codec obsd world provider append_to s
              (handle_trace_stream codec obsd world provider append_to r w)
          else after_answer codec obsd world provider append_to p.0 (write_frame append_to w bytes)
              k)
        h
      ∙ ap (λ t. after_answer codec obsd world provider append_to p.0 t k)
          (write_frame-append_to w bytes)

  -- A connection on which a client sends any number of such requests and closes: each is answered,
  -- by one frame and in order, by what dispatchCommand gives in the state that the requests before
  -- it leave, and no fuel beyond the number of requests is needed.
  pub handle_connection-responses :
      (fuel : ℕ) (rs : List Request) (w : Bytes) (s : S)
      → All IsPlain rs
      → length rs < fuel
      → handle_connection codec obsd world provider append_to fuel (requests rs) w s
        ≡ some (w ++ responses rs s, state_behind rs s)
  unfolding handle_connection read_frame
  handle_connection-responses zero rs w s plain h = elim (absurd rs h) [ ]
  handle_connection-responses (suc fuel) [] w s plain h = ap (λ t. some (t, s)) (sym (append-nil w))
  handle_connection-responses (suc fuel) (r ∷ rs) w s plain h =
      let p = dispatch_command world provider r s in
      let bytes = answer_bytes codec obsd world provider append_to r.id p.1 in
      let loop = handle_connection codec obsd world provider append_to fuel in
      ap (λ t. on_frame codec obsd world provider append_to loop t w s)
        (read_whole (encode r) (requests rs) plain.0.1)
      ∙ ap
          (λ t.
            on_payload codec obsd world provider append_to (loop (requests rs)) (encode r) t w s)
          plain.0.0
      ∙ on_request-plain (loop (requests rs)) r w s plain.0.2
      ∙ handle_connection-responses fuel rs (w ++ frame bytes) p.0 plain.1 (omega (arith, h))
      ∙ ap (λ t. some (t, state_behind rs p.0)) (append_assoc w (frame bytes) (responses rs p.0))
