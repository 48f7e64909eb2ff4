-- ===== src/Obsd.antt =====
-- internal/obsd/obsd.go: the manager of the eBPF probes and its histograms. Times are left out.
pub mod Stream
pub mod Export
pub mod Counted
mod Tests
use a_from_scratch_linux_use.Base.{
  [], ◌^◌, ◌%◌, none, if◌then◌else◌, not, ◌+◌, replicate, some, str, ◌||◌, ◌&&◌, false, ◌∷◌, ℕ,
  Bool, Option, List, Bytes,
}

pub record ExecEvent : Type 0 where
  pub pid : ℕ
  pub ppid : ℕ
  pub comm : Bytes
  pub filename : Bytes

pub record Histogram : Type 0 where
  pub name : Bytes
  pub slots : List ℕ
  pub total_count : ℕ

-- The objects of a probe are of a type `O`. An array of 20 uint64 is a list.
pub record Manager (O : Type 0) : Type 0 where
  pub exec_objs : O
  pub runq_objs : O
  pub bio_objs : O
  pub is_loaded : Bool
  pub fallback_mode : Bool
  pub exec_count : ℕ
  pub sim_runq_lat : List ℕ
  pub sim_bio_lat : List ℕ

-- A load fills the objects and says whether it succeeds; a lookup gives the slots of a map.
pub record Probes (W O : Type 0) : Type 0 where
  pub no_objects : O
  pub load_execsnoop : O → W → W × O × Bool
  pub load_runqlat : O → W → W × O × Bool
  pub load_biolatency : O → W → W × O × Bool
  pub lookup_runq : O → W → Option (List ℕ)
  pub lookup_bio : O → W → Option (List ℕ)
  pub close_objects : O → W → W

abbrev pub runq_seed : List ℕ
runq_seed = 0 ∷ 0 ∷ 45 ∷ 120 ∷ 85 ∷ 12 ∷ replicate 14 0

abbrev pub bio_seed : List ℕ
bio_seed = 0 ∷ 0 ∷ 0 ∷ 0 ∷ 0 ∷ 30 ∷ 95 ∷ 40 ∷ 10 ∷ replicate 11 0

-- h.TotalCount += v, over the slots.
unfoldable pub add_slots : ℕ → List ℕ → ℕ
add_slots total [] = total
add_slots total (v ∷ vs) = add_slots ((total + v) % 2 ^ 64) vs

-- A histogram with the sum of its slots.
unfoldable pub histogram_of : Bytes → List ℕ → Histogram
histogram_of name slots = record { name = name; slots = slots; total_count = add_slots 0 slots }

abbrev or_simulated : Option (List ℕ) → List ℕ → List ℕ
or_simulated none sim = sim
or_simulated (some slots) sim = slots

-- The condition under which counters are simulated.
abbrev pub is_simulated : {O : Type 0} → Manager O → Bool
is_simulated m = m.fallback_mode || not m.is_loaded

module _ {W O : Type 0} (k : Probes W O) where
  -- NewManager
  unfoldable pub new_manager : Manager O
  new_manager = record {
    exec_objs = k.no_objects;
    runq_objs = k.no_objects;
    bio_objs = k.no_objects;
    is_loaded = false;
    fallback_mode = false;
    exec_count = 0;
    sim_runq_lat = runq_seed;
    sim_bio_lat = bio_seed;
  }

  -- LoadProbes: each probe is tried, whatever the others did.
  unfoldable pub load_probes : Manager O → W → W × Manager O
  load_probes m w0 =
      let (w1, exec, a) = k.load_execsnoop m.exec_objs w0 in
      let (w2, runq, b) = k.load_runqlat m.runq_objs w1 in
      let (w3, bio, c) = k.load_biolatency m.bio_objs w2 in
      let all = a && (b && c) in
      (
        w3,
        record m {
          exec_objs = exec;
          runq_objs = runq;
          bio_objs = bio;
          is_loaded = all;
          fallback_mode = not all;
        },
      )

  -- GetRunQueueLatency
  unfoldable pub get_run_queue_latency : Manager O → W → Histogram
  get_run_queue_latency m w = histogram_of (str "sched_runq_latency_microseconds") (
      if is_simulated m
      then m.sim_runq_lat
      else or_simulated (k.lookup_runq m.runq_objs w) m.sim_runq_lat)

  -- GetBioLatency
  unfoldable pub get_bio_latency : Manager O → W → Histogram
  get_bio_latency m w = histogram_of (str "block_io_latency_microseconds") (
      if is_simulated m
      then m.sim_bio_lat
      else or_simulated (k.lookup_bio m.bio_objs w) m.sim_bio_lat)

  -- Close
  unfoldable pub close_manager : Manager O → W → W × Manager O
  close_manager m w = (
    k.close_objects m.bio_objs (k.close_objects m.runq_objs (k.close_objects m.exec_objs w)),
    record m { is_loaded = false },
  )
