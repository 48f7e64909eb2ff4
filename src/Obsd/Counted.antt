-- ===== src/Obsd/Counted.antt =====
-- What the histograms of internal/obsd/obsd.go count.
use a_from_scratch_linux_use.Base.{
  str, sym, subst, true, ◌≤◌, zero, [], arith, ◌∙◌, ap, ◌%◌, ◌^◌, suc, ◌<◌, ◌+◌, ◌≡◌, length, ◌∷◌,
  ℕ, Option, List, Bytes, refl,
}
use a_from_scratch_linux_use.Obsd.{
  is_simulated, histogram_of, get_bio_latency, get_run_queue_latency, add_slots, Manager, Probes,
}
use a_from_scratch_linux_use.Obsd.Stream.{
  Ring, stream_exec_events, Streamed, intn, simulate, simulate_turn, count_slot, Draws,
}
use a_from_scratch_linux_use.Obsd.Export.{buckets, last_cumulative, Bucket}

abbrev pub sum : List ℕ → ℕ
sum [] = 0
sum (v ∷ vs) = v + sum vs

add_slots_lem :
    (total : ℕ) (vs : List ℕ) → total < 2 ^ 64 → add_slots total vs ≡ (total + sum vs) % 2 ^ 64
unfolding add_slots
add_slots_lem total [] h = omega arith
add_slots_lem total (v ∷ vs) h = add_slots_lem ((total + v) % 2 ^ 64) vs (omega arith) ∙ omega arith

-- A slot that is there is counted once more.
sum-count_slot :
    (i : ℕ) (vs : List ℕ) → i < length vs → sum (count_slot i vs) % 2 ^ 64 ≡ (sum vs + 1) % 2 ^ 64
unfolding count_slot
sum-count_slot i [] h = ground arith
sum-count_slot zero (v ∷ vs) h = omega arith
sum-count_slot (suc i) (v ∷ vs) h = omega (arith, sum-count_slot i vs (omega arith))

length-count_slot : (i : ℕ) (vs : List ℕ) → length (count_slot i vs) ≡ length vs
unfolding count_slot
length-count_slot i [] = refl
length-count_slot zero (v ∷ vs) = refl
length-count_slot (suc i) (v ∷ vs) = ap suc (length-count_slot i vs)

-- The arrays have their 20 slots, and the counter is a uint64.
abbrev pub IsSized : {O : Type 0} → Manager O → Type 0
IsSized m = (length m.sim_runq_lat ≡ 20) × (length m.sim_bio_lat ≡ 20) × (m.exec_count < 2 ^ 64)

-- So many events are counted from one manager to another.
abbrev pub CountsMore : {O : Type 0} → ℕ → Manager O → Manager O → Type 0
CountsMore n m m' =
    (m'.exec_count ≡ (m.exec_count + n) % 2 ^ 64)
    × (sum m'.sim_runq_lat % 2 ^ 64 ≡ (sum m.sim_runq_lat + n) % 2 ^ 64)
    × (sum m'.sim_bio_lat % 2 ^ 64 ≡ (sum m.sim_bio_lat + n) % 2 ^ 64)

module _ {O : Type 0} where
  turn-IsSized : (m : Manager O) (d : Draws) → IsSized m → IsSized (simulate_turn m d)
  unfolding simulate_turn
  turn-IsSized m d (a, b, c) = (
    length-count_slot (intn 6 d.runq_draw) m.sim_runq_lat ∙ a,
    length-count_slot (4 + intn 5 d.bio_draw) m.sim_bio_lat ∙ b,
    omega arith,
  )

  turn_counts : (m : Manager O) (d : Draws) → IsSized m → CountsMore 1 m (simulate_turn m d)
  unfolding simulate_turn
  turn_counts m d (a, b, c) = (
    refl,
    sum-count_slot (intn 6 d.runq_draw) m.sim_runq_lat (omega arith),
    sum-count_slot (4 + intn 5 d.bio_draw) m.sim_bio_lat (omega arith),
  )

  abbrev Simulated : Manager O → ℕ → Streamed O → Type 0
  Simulated m n r =
      CountsMore n m r.manager × (length r.events ≡ n) × (is_simulated r.manager ≡ is_simulated m)

  simulate-Simulated :
      (m : Manager O) (pid : ℕ) (ds : List Draws)
      → IsSized m
      → Simulated m (length ds) (simulate m pid ds)
  unfolding simulate simulate_turn
  simulate-Simulated m pid [] (a, b, c) = ((omega arith, omega arith, omega arith), refl, refl)
  simulate-Simulated m pid (d ∷ ds) s =
      let ((e1, r1, b1), n, f) =
        simulate-Simulated (simulate_turn m d) ((pid + 1) % 2 ^ 32) ds (turn-IsSized m d s) in
      let (e2, r2, b2) = turn_counts m d s in
      ((omega (arith, e1, e2), omega (arith, r1, r2), omega (arith, b1, b2)), ap suc n, f)

  stream_lem :
      (m : Manager O) (draws : List Draws) (opened : Option Ring)
      → is_simulated m ≡ true
      → stream_exec_events m draws opened ≡ simulate m 100 draws
  unfolding stream_exec_events
  stream_lem m draws opened h = rw (h) refl

  pub stream_exec_events-Simulated :
      (m : Manager O) (draws : List Draws) (opened : Option Ring)
      → is_simulated m ≡ true
      → IsSized m
      → Simulated m (length draws) (stream_exec_events m draws opened)
  stream_exec_events-Simulated m draws opened h s =
      subst (Simulated m (length draws)) (sym (stream_lem m draws opened h))
        (simulate-Simulated m 100 draws s)

total_lem :
    (name : Bytes) (slots : List ℕ) → (histogram_of name slots).total_count ≡ sum slots % 2 ^ 64
unfolding histogram_of
total_lem name slots = add_slots_lem 0 slots (omega arith) ∙ omega arith

module _ {W O : Type 0} (k : Probes W O) (w : W) (m : Manager O) (h : is_simulated m ≡ true) where
  runq_total : (get_run_queue_latency k m w).total_count ≡ sum m.sim_runq_lat % 2 ^ 64
  unfolding get_run_queue_latency
  runq_total =
      let total = total_lem (str "sched_runq_latency_microseconds") m.sim_runq_lat in rw (h) total

  bio_total : (get_bio_latency k m w).total_count ≡ sum m.sim_bio_lat % 2 ^ 64
  unfolding get_bio_latency
  bio_total =
      let total = total_lem (str "block_io_latency_microseconds") m.sim_bio_lat in rw (h) total

-- So many events were sent, and counted in all that is reported.
abbrev pub ReportsMore : {W O : Type 0} → Probes W O → W → ℕ → Manager O → Streamed O → Type 0
ReportsMore k w n m r =
    (length r.events ≡ n)
    × (r.manager.exec_count ≡ (m.exec_count + n) % 2 ^ 64)
    × ((get_run_queue_latency k r.manager w).total_count
        ≡ ((get_run_queue_latency k m w).total_count + n) % 2 ^ 64)
    × ((get_bio_latency k r.manager w).total_count
        ≡ ((get_bio_latency k m w).total_count + n) % 2 ^ 64)

-- Where the probes are not loaded, and without any flag that asks for a simulation, each tick of
-- StreamExecEvents makes up one event and counts it once, whatever it draws: in the number of
-- executions, and in the totals that GetRunQueueLatency and GetBioLatency give, each of 64 bits.
pub stream_exec_events-ReportsMore :
    {W O : Type 0} (k : Probes W O) (m : Manager O) (draws : List Draws) (opened : Option Ring)
    (w : W)
    → is_simulated m ≡ true
    → IsSized m
    → ReportsMore k w (length draws) m (stream_exec_events m draws opened)
stream_exec_events-ReportsMore k m draws opened w h s =
    let r = (stream_exec_events m draws opened).manager in
    let ((e, q, b), n, f) = stream_exec_events-Simulated m draws opened h s in
    let q1 = runq_total k w r (f ∙ h) in
    let q0 = runq_total k w m h in
    let b1 = bio_total k w r (f ∙ h) in
    let b0 = bio_total k w m h in (n, e, omega (arith, q, q1, q0), omega (arith, b, b1, b0))

-- The counts of the buckets, from a cumulative count on.
abbrev pub Ascending : ℕ → List Bucket → Type 0
Ascending n [] = Unit
Ascending n (b ∷ bs) = (n ≤ b.count) × Ascending b.count bs

last_cumulative-buckets :
    (show : ℕ → Bytes) (i n : ℕ) (vs : List ℕ)
    → last_cumulative show n (buckets show i n vs) ≡ add_slots n vs
unfolding last_cumulative buckets add_slots
last_cumulative-buckets show i n [] = refl
last_cumulative-buckets show i n (v ∷ vs) =
    last_cumulative-buckets show (suc i) ((n + v) % 2 ^ 64) vs

buckets-Ascending :
    (show : ℕ → Bytes) (i n : ℕ) (vs : List ℕ)
    → n + sum vs < 2 ^ 64
    → Ascending n (buckets show i n vs)
unfolding buckets
buckets-Ascending show i n [] h = tt
buckets-Ascending show i n (v ∷ vs) h =
    (omega arith, buckets-Ascending show (suc i) ((n + v) % 2 ^ 64) vs (omega arith))

-- The cumulative count behind the buckets that a histogram exports is its total; while its slots
-- count fewer than 2 ^ 64 in all, no bucket counts fewer than the one before it.
pub histogram_of-buckets :
    (show : ℕ → Bytes) (name : Bytes) (slots : List ℕ)
    → sum slots < 2 ^ 64
    → let h = histogram_of name slots in
      let bs = buckets show 0 0 h.slots in
      Ascending 0 bs × (last_cumulative show 0 bs ≡ h.total_count) × (h.total_count ≡ sum slots)
unfolding histogram_of
histogram_of-buckets show name slots h = (
  buckets-Ascending show 0 0 slots (omega arith),
  last_cumulative-buckets show 0 0 slots,
  add_slots_lem 0 slots (omega arith) ∙ omega arith,
)
