-- ===== src/Obsd/Stream.antt =====
-- StreamExecEvents of internal/obsd/obsd.go, in its two modes. A run is what the loop meets, one
-- turn after the other; the events that it sends are a list.
use a_from_scratch_linux_use.Base.{
  str, take, drop, zero, some, none, suc, not, length, ◌||◌, true, ltb, ◌*◌, ◌==◌, ◌^◌, [], false,
  ◌+◌, if◌then◌else◌, ◌∷◌, ◌%◌, ℕ, Bool, Option, List, Bytes,
}
use a_from_scratch_linux_use.Obsd.{Manager, ExecEvent}

-- The numbers that one turn draws; rand.Intn(n) is any number below n.
pub record Draws : Type 0 where
  pub proc_draw : ℕ
  pub runq_draw : ℕ
  pub bio_draw : ℕ

abbrev pub intn : ℕ → ℕ → ℕ
intn n draw = draw % n

-- slots[i]++ of a uint64
unfoldable pub count_slot : ℕ → List ℕ → List ℕ
count_slot i [] = []
count_slot zero (v ∷ vs) = (v + 1) % 2 ^ 64 ∷ vs
count_slot (suc i) (v ∷ vs) = v ∷ count_slot i vs

abbrev sample_procs : List (Bytes × Bytes)
sample_procs =
    (str "karim-svcd", str "/sbin/karim-svcd")
    ∷ (str "karim-secd", str "/sbin/karim-secd")
    ∷ (str "sample_app", str "/bin/sample_app")
    ∷ (str "karim-vsockd", str "/sbin/karim-vsockd")
    ∷ (str "cat", str "/bin/cat")
    ∷ []

-- The first of a list that has one.
abbrev first_proc : List (Bytes × Bytes) → Bytes × Bytes
first_proc [] = ([], [])
first_proc (p ∷ ps) = p

-- sampleProcs[idx]: the command and its file.
unfoldable pub sample_proc : ℕ → Bytes × Bytes
sample_proc i = first_proc (drop i sample_procs)

-- strings.TrimRight(s, "\x00")
abbrev drop_zero : ℕ → Bytes → Bytes
drop_zero c [] = if c == 0 then [] else c ∷ []
drop_zero c (d ∷ ds) = c ∷ d ∷ ds

unfoldable pub trim_zeros : Bytes → Bytes
trim_zeros [] = []
trim_zeros (c ∷ cs) = drop_zero c (trim_zeros cs)

-- A little-endian uint32 at the start of the bytes.
unfoldable pub leading_uint32 : Bytes → ℕ
leading_uint32 (a ∷ b ∷ c ∷ d ∷ rest) = a + b * 2 ^ 8 + c * 2 ^ 16 + d * 2 ^ 24
leading_uint32 short = 0

-- binary.Read of the raw struct, and the event of it: none for a sample that is too short.
unfoldable pub decode_sample : Bytes → Option ExecEvent
decode_sample s =
    if ltb (length s) 280
    then none
    else some (record {
      pid = leading_uint32 s;
      ppid = leading_uint32 (drop 4 s);
      comm = trim_zeros (take 16 (drop 8 s));
      filename = trim_zeros (take 256 (drop 24 s));
    })

-- What the reader of the ring buffer meets; a sample says whether the context is done when its
-- event is to be sent, and the select takes that.
pub data Ring : Type 0 where
  ring_closed : Ring
  ring_failed : Ring
  sample : Bytes → Bool → Ring → Ring

-- The manager and the events sent, and whether the loop ends with an error.
pub record Streamed (O : Type 0) : Type 0 where
  pub manager : Manager O
  pub events : List ExecEvent
  pub failed : Bool

-- The event of one tick.
abbrev simulated_event : ℕ → Draws → ExecEvent
simulated_event pid d =
    let p = sample_proc (intn 5 d.proc_draw) in
    record { pid = pid; ppid = 1; comm = p.0; filename = p.1 }

module _ {O : Type 0} where
  abbrev pub counted : Manager O → Manager O
  counted m = record m { exec_count = (m.exec_count + 1) % 2 ^ 64 }

  -- One tick of the simulation.
  unfoldable pub simulate_turn : Manager O → Draws → Manager O
  simulate_turn m d = record (counted m) {
    sim_runq_lat = count_slot (intn 6 d.runq_draw) m.sim_runq_lat;
    sim_bio_lat = count_slot (4 + intn 5 d.bio_draw) m.sim_bio_lat;
  }

  -- The loop of the simulation, until the context is done; `pid` is pidCounter.
  unfoldable pub simulate : Manager O → ℕ → List Draws → Streamed O
  simulate m pid [] = record { manager = m; events = []; failed = false }
  simulate m pid (d ∷ ds) =
      let next = (pid + 1) % 2 ^ 32 in
      let rest = simulate (simulate_turn m d) next ds in
      record rest { events = simulated_event next d ∷ rest.events }

  -- The loop over the ring buffer.
  unfoldable pub read_ring : Manager O → Ring → Streamed O
  read_ring m ring_closed = record { manager = m; events = []; failed = false }
  read_ring m ring_failed = record { manager = m; events = []; failed = true }
  read_ring m (sample bytes cancelled rest) = elim (decode_sample bytes) [
    | none ↦ read_ring m rest
    | some e ↦ elim cancelled [
      | true ↦ record { manager = counted m; events = []; failed = false }
      | false ↦
          let further = read_ring (counted m) rest in record further { events = e ∷ further.events }
    ]
  ]

  -- StreamExecEvents, with what its loop meets in either mode; `opened` is none where the reader
  -- of the ring buffer does not open.
  unfoldable pub stream_exec_events : Manager O → List Draws → Option Ring → Streamed O
  stream_exec_events m draws opened =
      if m.fallback_mode || not m.is_loaded then simulate m 100 draws else elim opened [
        | none ↦ record { manager = m; events = []; failed = true }
        | some ring ↦ read_ring m ring
      ]
