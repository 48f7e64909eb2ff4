-- ===== src/Qmp/Answered.antt =====
-- How a command of internal/qmp/client.go is answered, on a connection whose lines are given.
use a_from_scratch_linux_use.Qmp.{
  Client, write_request, on_conn, result_of, is_event, not_decoded, Reply, is_skipped, execute,
  receive, ClientError, read_line, Json, Conn,
}
use a_from_scratch_linux_use.Base.{
  length-append, Bool, refl, zero, inr, sym, inl, ap, ◌∙◌, Bool-cases, [], ◌++◌, arith, false, ◌⊎◌,
  All, ◌≡◌, ◌<◌, trim_space, some, suc, length, true, none, Option, ◌∷◌, Bytes, List, ℕ,
}
use a_from_scratch_linux_use.Base.Io.{Result, ok, err, ◌>>◌}

-- A connection with the lines to come and what was written, the last first.
pub record Script : Type 0 where
  pub lines : List Bytes
  pub sent : List Bytes

abbrev read_script : List Bytes → List Bytes → Script × Option Bytes
read_script [] sent = (record { lines = []; sent = sent }, none)
read_script (l ∷ ls) sent = (record { lines = ls; sent = sent }, some l)

abbrev pub script : Conn Script
script = record {
  read_string = λ s. read_script s.lines s.sent;
  write = λ b s. (record s { sent = b ∷ s.sent }, true);
  close = λ s. s;
}

abbrev pub at : List Bytes → List Bytes → Script
at lines sent = record { lines = lines; sent = sent }

abbrev pub open_client : Script → Client Script
open_client s = record { conn = s; closed = false }

module _ {V : Type 0} (json : Json V) where
  -- A line that a waiting command passes over: readLine does, or it is an event.
  abbrev pub IsNoise : Bytes → Type 0
  IsNoise l =
      (is_skipped (trim_space l) ≡ true)
      ⊎ ((r : Reply V) × (is_skipped (trim_space l) ≡ false)
          × (json.decode (trim_space l) ≡ some r)
          × (is_event r ≡ true))

  -- A line that is a response.
  abbrev pub Answers : Bytes → Reply V → Type 0
  Answers l r =
      (is_skipped (trim_space l) ≡ false)
      × (json.decode (trim_space l) ≡ some r)
      × (is_event r ≡ false)

  read_line-skip :
      (b : ℕ) (l : Bytes) (ls sent : List Bytes)
      → is_skipped (trim_space l) ≡ true
      → read_line script json (suc b) (at (l ∷ ls) sent) ≡ read_line script json b (at ls sent)
  unfolding read_line
  read_line-skip b l ls sent h = rw (h, read_line)

  read_line-here :
      (b : ℕ) (l : Bytes) (ls sent : List Bytes)
      → is_skipped (trim_space l) ≡ false
      → read_line script json (suc b) (at (l ∷ ls) sent) ≡ (at ls sent, ok (trim_space l))
  unfolding read_line
  read_line-here b l ls sent h = rw (h, read_line)

  -- More fuel than lines is enough.
  read_line-enough :
      (b c : ℕ) (ls sent : List Bytes)
      → length ls < b
      → length ls < c
      → read_line script json b (at ls sent) ≡ read_line script json c (at ls sent)
  unfolding read_line
  read_line-enough zero c ls sent h k = ground arith
  read_line-enough (suc b) zero ls sent h k = ground arith
  read_line-enough (suc b) (suc c) [] sent h k = refl
  read_line-enough (suc b) (suc c) (l ∷ ls) sent h k =
      elim (Bool-cases (is_skipped (trim_space l))) [
        | inl t ↦
            read_line-skip b l ls sent t
            ∙ read_line-enough b c ls sent (ground arith) (ground arith)
            ∙ sym (read_line-skip c l ls sent t)
        | inr t ↦ read_line-here b l ls sent t ∙ sym (read_line-here c l ls sent t)
      ]

  abbrev decided : ℕ → ℕ → Script → Reply V → Bool → Script × Result ClientError (Option V)
  decided b n s reply true = receive script json b n s
  decided b n s reply false = (s, result_of reply.error reply.return)

  abbrev decoded : ℕ → ℕ → Script → Option (Reply V) → Script × Result ClientError (Option V)
  decoded b n s none = (s, err not_decoded)
  decoded b n s (some reply) = decided b n s reply (is_event reply)

  abbrev behind : ℕ → ℕ → Script × Result ClientError Bytes → Script × Result ClientError (Option V)
  behind b n (s, err e) = (s, err e)
  behind b n (s, ok line) = decoded b n s (json.decode line)

  receive-behind :
      (b n : ℕ) (s : Script)
      → receive script json b (suc n) s ≡ behind b n (read_line script json b s)
  unfolding receive
  receive-behind b n s = refl

  receive-skip :
      (b n : ℕ) (l : Bytes) (ls sent : List Bytes)
      → length (l ∷ ls) < b
      → is_skipped (trim_space l) ≡ true
      → receive script json b (suc n) (at (l ∷ ls) sent)
        ≡ receive script json b (suc n) (at ls sent)
  receive-skip zero n l ls sent h k = ground arith
  receive-skip (suc b) n l ls sent h k =
      receive-behind (suc b) n (at (l ∷ ls) sent)
      ∙ ap (behind (suc b) n) (
          read_line-skip b l ls sent k
          ∙ read_line-enough b (suc b) ls sent (ground arith) (ground arith))
      ∙ sym (receive-behind (suc b) n (at ls sent))

  receive-reply :
      (b n : ℕ) (l : Bytes) (ls sent : List Bytes) (r : Reply V)
      → 0 < b
      → is_skipped (trim_space l) ≡ false
      → json.decode (trim_space l) ≡ some r
      → receive script json b (suc n) (at (l ∷ ls) sent) ≡ decided b n (at ls sent) r (is_event r)
  receive-reply zero n l ls sent r h k d = ground arith
  receive-reply (suc b) n l ls sent r h k d =
      receive-behind (suc b) n (at (l ∷ ls) sent)
      ∙ ap (behind (suc b) n) (read_line-here b l ls sent k)
      ∙ ap (decoded (suc b) n (at ls sent)) d

  receive-Answers :
      (noise : List Bytes) (line : Bytes) (rest sent : List Bytes) (r : Reply V) (b n : ℕ)
      → All IsNoise noise
      → Answers line r
      → length (noise ++ line ∷ rest) < b
      → length noise < n
      → receive script json b n (at (noise ++ line ∷ rest) sent)
        ≡ (at rest sent, result_of r.error r.return)
  receive-Answers noise line rest sent r b zero h a k m = ground arith
  receive-Answers [] line rest sent r b (suc n) h (x, y, z) k m =
      receive-reply b n line rest sent r (ground arith) x y ∙ ap (decided b n (at rest sent) r) z
  receive-Answers (l ∷ ls) line rest sent r b (suc n) (inl s, h) a k m =
      receive-skip b n l (ls ++ line ∷ rest) sent k s
      ∙ receive-Answers ls line rest sent r b (suc n) h a (ground arith) (ground arith)
  receive-Answers (l ∷ ls) line rest sent r b (suc n) (inr (e, x, y, z), h) a k m =
      receive-reply b n l (ls ++ line ∷ rest) sent e (ground arith) x y
      ∙ ap (decided b n (at (ls ++ line ∷ rest) sent) e) z
      ∙ receive-Answers ls line rest sent r b n h a (ground arith) (ground arith)

  -- Execute writes its command, passes over any number of blank lines and events, and gives the
  -- result of the first response, with what comes behind it still to be read. More fuel than
  -- there are lines is enough.
  pub execute-Answers :
      (cmd : Bytes) (args : List (Bytes × Bytes)) (payload : Bytes) (noise : List Bytes)
      (line : Bytes) (rest sent : List Bytes) (r : Reply V) (fuel : ℕ)
      → json.encode cmd args ≡ some payload
      → All IsNoise noise
      → Answers line r
      → length (noise ++ line ∷ rest) < fuel
      → execute script json fuel cmd args (open_client (at (noise ++ line ∷ rest) sent))
        ≡ (open_client (at rest ((payload ++ 10 ∷ []) ∷ sent)), result_of r.error r.return)
  unfolding execute
  execute-Answers cmd args payload noise line rest sent r fuel e h a k =
      let c = open_client (at (noise ++ line ∷ rest) sent) in
      let written = (payload ++ 10 ∷ []) ∷ sent in
      ap
        (λ o. on_conn script json c (
          (write_request script json o >> receive script json fuel fuel)
            (at (noise ++ line ∷ rest) sent)))
        e
      ∙ ap (on_conn script json c) (
          receive-Answers noise line rest written r fuel fuel h a k
            (omega (arith, k, length-append noise (line ∷ rest))))
