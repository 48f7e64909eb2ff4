-- ===== src/Obsd/Tests.antt =====
-- Runs of the observability manager without probes, and with a ring buffer.
use a_from_scratch_linux_use.Base.{
  ◌+◌, replicate, arith, some, str, none, [], ◌≡◌, false, take, map, ◌∷◌, true, ℕ, List, refl,
}
use a_from_scratch_linux_use.Obsd.{runq_seed, ExecEvent, new_manager, load_probes, Probes}
use a_from_scratch_linux_use.Obsd.Stream.{
  decode_sample, sample_proc, simulate, ring_closed, sample, stream_exec_events, read_ring, Draws,
}
use a_from_scratch_linux_use.Obsd.Export.{buckets}
use a_from_scratch_linux_use.Obsd.Counted.{ReportsMore, stream_exec_events-ReportsMore}

-- The world counts the objects that are closed; the second probe does not load.
abbrev probes : Probes ℕ ℕ
probes = record {
  no_objects = 0;
  load_execsnoop = λ o w. (w, 1, true);
  load_runqlat = λ o w. (w, o, false);
  load_biolatency = λ o w. (w, 3, true);
  lookup_runq = λ o w. none;
  lookup_bio = λ o w. some (replicate 20 1);
  close_objects = λ o w. w + 1;
}

-- One probe that does not load turns all of them off.
fallback_on :
    (load_probes probes (new_manager probes) 0).1
    ≡ record (new_manager probes) { exec_objs = 1; bio_objs = 3; fallback_mode = true }
unfolding load_probes new_manager
fallback_on = refl

abbrev three : List Draws
three =
    record { proc_draw = 7; runq_draw = 2; bio_draw = 4 }
    ∷ record { proc_draw = 0; runq_draw = 3; bio_draw = 0 }
    ∷ record { proc_draw = 1; runq_draw = 3; bio_draw = 9 }
    ∷ []

first_event :
    map (λ e. ExecEvent.comm e) (stream_exec_events (new_manager probes) three none).events
    ≡ str "sample_app" ∷ str "karim-svcd" ∷ str "karim-secd" ∷ []
unfolding stream_exec_events new_manager simulate sample_proc
first_event = refl

stream_exec_events-ReportsMore_example :
    ReportsMore probes 0 3 (new_manager probes) (stream_exec_events (new_manager probes) three none)
unfolding new_manager
stream_exec_events-ReportsMore_example =
    stream_exec_events-ReportsMore probes (new_manager probes) three none 0 refl
      (refl, refl, omega arith)

-- A sample that is too short is passed over.
short_sample :
    (read_ring
      (new_manager probes)
      (sample (str "x") false (sample (replicate 280 65) false ring_closed))).manager.exec_count
    ≡ 1
unfolding read_ring decode_sample new_manager
short_sample = refl

-- The four to eight microseconds of slot 2 are exported under the bound 4.
seed_exported :
    take 4 (buckets (λ n. n ∷ []) 0 0 runq_seed)
    ≡ record { le = 1 ∷ []; count = 0 }
      ∷ record { le = 2 ∷ []; count = 0 }
      ∷ record { le = 4 ∷ []; count = 45 }
      ∷ record { le = 8 ∷ []; count = 165 }
      ∷ []
unfolding buckets
seed_exported = refl
