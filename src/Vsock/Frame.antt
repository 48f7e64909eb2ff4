-- ===== src/Vsock/Frame.antt =====
-- WriteFrame and ReadFrame of internal/vsockd/protocol.go. A reader is the bytes that it has
-- yet to deliver before its end; a writer is the interface that io.Writer stands for.
pub mod RoundTrip
use a_from_scratch_linux_use.Base.{
  ℕ, zero, suc, ◌+◌, ◌-◌, ◌*◌, ◌/◌, ◌%◌, ◌^◌, ◌≤◌, ◌<◌, ◌≡◌, refl, sym, ap, ◌∙◌, Bool, true, false,
  Option, none, some, List, [], ◌∷◌, ◌++◌, ltb, leb, ==_iff, ◌==◌, arith, append-nil, append_assoc,
  take-length-append, drop-length-append, length-append, Bool-cases, ◌⊎◌, inl, inr, if◌then◌else◌,
  Bytes, length, take, drop,
}

-- 10 * 1024 * 1024
abbrev pub max_frame_size : ℕ
max_frame_size = 10 * 1024 * 1024

pub data FrameError : Type 0 where
  eof unexpected_eof too_large bad_payload bad_header_write bad_payload_write : FrameError

pub data Read : Type 0 where
  ok : Bytes → Bytes → Read
  err : FrameError → Read

-- binary.BigEndian.PutUint32
unfoldable pub put_uint32 : ℕ → Bytes
put_uint32 n = n / 2 ^ 24 % 256 ∷ n / 2 ^ 16 % 256 ∷ n / 2 ^ 8 % 256 ∷ n % 256 ∷ []

-- binary.BigEndian.Uint32
unfoldable pub uint32_of : ℕ → ℕ → ℕ → ℕ → ℕ
uint32_of a b c d = a * 2 ^ 24 + b * 2 ^ 16 + c * 2 ^ 8 + d

-- `make([]byte, length)` and io.ReadFull, with the error of a stream that ends too early.
unfoldable pub read_payload : ℕ → Bytes → Read
read_payload n s = if leb n (length s) then ok (take n s) (drop n s) else err bad_payload

-- ReadFrame: the payload, and what the reader has left.
unfoldable pub read_frame : Bytes → Read
read_frame [] = err eof
read_frame (a ∷ b ∷ c ∷ d ∷ s) =
    let n = uint32_of a b c d in if ltb max_frame_size n then err too_large else read_payload n s
read_frame _ = err unexpected_eof

module _ {W : Type 0} (write : W → Bytes → W × Bool) where
  abbrev written : FrameError → W × Bool → W × Option FrameError
  written e (w, true) = (w, none)
  written e (w, false) = (w, some e)

  abbrev then_payload : Bytes → W × Option FrameError → W × Option FrameError
  then_payload payload (w, some e) = (w, some e)
  then_payload payload (w, none) =
      if ltb 0 (length payload % 2 ^ 32)
      then written bad_payload_write (write w payload)
      else (w, none)

  -- WriteFrame; `write` returns the writer and whether the write succeeded.
  unfoldable pub write_frame : W → Bytes → W × Option FrameError
  unfolding put_uint32
  write_frame w payload =
      then_payload payload
        (written bad_header_write (write w (put_uint32 (length payload % 2 ^ 32))))

-- A writer that never fails, over the bytes that it has taken.
abbrev pub append_to : Bytes → Bytes → Bytes × Bool
append_to w b = (w ++ b, true)

-- The bytes of one frame.
unfoldable pub frame : Bytes → Bytes
unfolding write_frame
frame payload = (write_frame append_to [] payload).0
