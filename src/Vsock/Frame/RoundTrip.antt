-- ===== src/Vsock/Frame/RoundTrip.antt =====
-- What WriteFrame writes, ReadFrame reads back, and nothing else.
use a_from_scratch_linux_use.Base.{
  ℕ, zero, suc, ◌+◌, ◌/◌, ◌%◌, ◌^◌, ◌≤◌, ◌<◌, ◌≡◌, refl, ◌∙◌, [], ◌∷◌, ◌++◌, ltb, leb, ◌==◌, arith,
  append_assoc, take-length-append, length-take, take-append-drop, drop-length-append, length-take,
  take-append-drop, length-append, length-take, take-append-drop, if◌then◌else◌, Bytes, length,
  take, All,
}
use a_from_scratch_linux_use.Vsock.Frame.{
  max_frame_size, eof, unexpected_eof, too_large, bad_payload, ok, err, put_uint32, uint32_of,
  read_payload, read_frame, frame,
}

-- PutUint32 then Uint32 is the identity below 2 ^ 32.
uint32_of-put_uint32 :
    (n : ℕ)
    → n < 2 ^ 32
    → uint32_of (n / 2 ^ 24 % 256) (n / 2 ^ 16 % 256) (n / 2 ^ 8 % 256) (n % 256) ≡ n
unfolding uint32_of
uint32_of-put_uint32 n h = omega arith

pub frame_lem :
    (payload : Bytes)
    → length payload < 2 ^ 32
    → frame payload ≡ put_uint32 (length payload) ++ payload
unfolding frame
frame_lem [] h = refl
frame_lem (x ∷ p) h =
    let e : suc (length p) % 4294967296 ≡ suc (length p) = omega arith in
    rw (e, frame) (ground arith)

read_payload-append :
    (payload rest : Bytes) → read_payload (length payload) (payload ++ rest) ≡ ok payload rest
unfolding read_payload
read_payload-append payload rest = ground (
  arith,
  length-append payload rest,
  take-length-append payload rest,
  drop-length-append payload rest,
)

read_frame-put_uint32 :
    (n : ℕ) (s : Bytes)
    → n < 2 ^ 32
    → read_frame (put_uint32 n ++ s)
      ≡ (if ltb max_frame_size n then err too_large else read_payload n s)
unfolding put_uint32 read_frame
read_frame-put_uint32 n s h = rw (uint32_of-put_uint32 n h)

-- For a payload that a uint32 can count, ReadFrame on the bytes that WriteFrame writes gives the
-- payload and leaves what follows; above MaxFrameSize it gives the size error instead.
pub read_frame-frame :
    (payload rest : Bytes)
    → length payload < 2 ^ 32
    → read_frame (frame payload ++ rest)
      ≡ (if leb (length payload) max_frame_size then ok payload rest else err too_large)
read_frame-frame payload rest h =
    rw (frame_lem payload h, append_assoc)
      (read_frame-put_uint32 (length payload) (payload ++ rest) h
        ∙ ground (arith, read_payload-append payload rest))

read_payload-short : (n : ℕ) (s : Bytes) → length s < n → read_payload n s ≡ err bad_payload
unfolding read_payload
read_payload-short n s h = ground arith

take-put_uint32 :
    (n k : ℕ) (s : Bytes)
    → take (suc (suc (suc (suc k)))) (put_uint32 n ++ s) ≡ put_uint32 n ++ take k s
unfolding put_uint32
take-put_uint32 n k s = refl

-- The three ways for the bytes of a frame to be cut short, each with its error.
pub read_frame-take :
    (payload : Bytes) (k : ℕ)
    → length payload ≤ max_frame_size
    → k < length payload + 4
    → read_frame (take k (frame payload))
      ≡ err (if k == 0 then eof else if ltb k 4 then unexpected_eof else bad_payload)
read_frame-take payload zero s h = unfold read_frame in refl
read_frame-take payload (suc zero) s h =
    rw (frame_lem payload (omega arith)) (unfold read_frame put_uint32 in refl)
read_frame-take payload (suc (suc zero)) s h =
    rw (frame_lem payload (omega arith)) (unfold read_frame put_uint32 in refl)
read_frame-take payload (suc (suc (suc zero))) s h =
    rw (frame_lem payload (omega arith)) (unfold read_frame put_uint32 in refl)
read_frame-take payload (suc (suc (suc (suc k)))) s h =
    rw (frame_lem payload (omega arith), take-put_uint32)
      (read_frame-put_uint32 (length payload) (take k payload) (omega arith)
        ∙ ground
            (arith, length-take k payload, read_payload-short (length payload) (take k payload)))

put_uint32-uint32_of :
    (a b c d : ℕ)
    → a < 256
    → b < 256
    → c < 256
    → d < 256
    → put_uint32 (uint32_of a b c d) ≡ a ∷ b ∷ c ∷ d ∷ []
unfolding put_uint32 uint32_of
put_uint32-uint32_of a b c d ha hb hc hd = ground arith

read_payload-ok :
    (n : ℕ) (s p r : Bytes) → read_payload n s ≡ ok p r → (s ≡ p ++ r) × (length p ≡ n)
unfolding read_payload
read_payload-ok n s p r h = ground (arith, length-take n s, take-append-drop n s)

-- Whatever ReadFrame accepts is the frame of a payload within MaxFrameSize, then the rest.
pub read_frame_sound :
    (s payload rest : Bytes)
    → All (λ b. b < 256) s
    → read_frame s ≡ ok payload rest
    → (s ≡ frame payload ++ rest) × (length payload ≤ max_frame_size)
unfolding read_frame
read_frame_sound (a ∷ b ∷ c ∷ d ∷ s) payload rest h e =
    let n = uint32_of a b c d in
    let (split, size) = read_payload-ok n s payload rest (ground arith) in
    let small : n ≤ max_frame_size = ground arith in
    let header = put_uint32-uint32_of a b c d h.0 h.1.0 h.1.1.0 h.1.1.1.0 in
    let framed = frame_lem payload (omega arith) in (rw (framed, size, header, split), omega arith)
read_frame_sound _ payload rest h e = cc
