-- ===== src/Obsd/Export.antt =====
-- ExportPrometheusMetrics of internal/obsd/obsd.go. What %d prints is a parameter.
use a_from_scratch_linux_use.Base.{
  suc, ◌^◌, ◌%◌, str, [], ◌+◌, ◌==◌, ◌*◌, ◌++◌, ◌∷◌, if◌then◌else◌, ℕ, List, Bytes,
}
use a_from_scratch_linux_use.Obsd.{
  get_bio_latency, get_run_queue_latency, Manager, Histogram, Probes,
}

-- One bucket of a histogram: its bound and what it counts.
pub record Bucket : Type 0 where
  pub le : Bytes
  pub count : ℕ

module _ (show : ℕ → Bytes) where
  -- The bound of slot `i`; that of the last of 20 is "+Inf".
  abbrev bound_of : ℕ → Bytes
  bound_of i = if i == 19 then str "+Inf" else show (2 ^ i)

  -- The loop over the slots, from slot `i` on.
  unfoldable pub buckets : ℕ → ℕ → List ℕ → List Bucket
  buckets i cumulative [] = []
  buckets i cumulative (v ∷ vs) =
      let sum = (cumulative + v) % 2 ^ 64 in
      record { le = bound_of i; count = sum } ∷ buckets (suc i) sum vs

  -- The cumulative count behind the loop.
  unfoldable pub last_cumulative : ℕ → List Bucket → ℕ
  last_cumulative cumulative [] = cumulative
  last_cumulative cumulative (b ∷ bs) = last_cumulative b.count bs

  abbrev line : Bytes → Bytes
  line text = text ++ (10 ∷ [])

  abbrev bucket_line : Bytes → Bucket → Bytes
  bucket_line metric b =
      line (metric ++ (str "_bucket{le=\"" ++ (b.le ++ (str "\"} " ++ show b.count))))

  abbrev bucket_text : Bytes → List Bucket → Bytes
  bucket_text metric [] = []
  bucket_text metric (b ∷ bs) = bucket_line metric b ++ bucket_text metric bs

  -- The text of one histogram; its sum is the count times `factor`.
  unfoldable pub histogram_text : Bytes → Bytes → ℕ → Histogram → Bytes
  histogram_text metric help factor h =
      let bs = buckets 0 0 h.slots in
      let sum = last_cumulative 0 bs * factor % 2 ^ 64 in
      line (str "# HELP " ++ (metric ++ (str " " ++ help)))
      ++ (line (str "# TYPE " ++ (metric ++ str " histogram"))
          ++ (bucket_text metric bs
              ++ (line (metric ++ (str "_sum " ++ show sum))
                  ++ line (metric ++ (str "_count " ++ show h.total_count)))))

  -- ExportPrometheusMetrics
  unfoldable pub export_prometheus_metrics : {W O : Type 0} → Probes W O → Manager O → W → Bytes
  export_prometheus_metrics k m w =
      let fallback = if m.fallback_mode then str "true" else str "false" in
      line (str "# HELP karim_obsd_probe_info Information about eBPF probes status")
      ++ (line (str "# TYPE karim_obsd_probe_info gauge")
          ++ (line (str "karim_obsd_probe_info{fallback=\"" ++ (fallback ++ str "\"} 1"))
              ++ (line (str "# HELP karim_obsd_exec_events_total Total process executions traced")
                  ++ (line (str "# TYPE karim_obsd_exec_events_total counter")
                      ++ (line (str "karim_obsd_exec_events_total " ++ show m.exec_count)
                          ++ (histogram_text (str "karim_obsd_runq_latency_microseconds")
                                (str "CPU run-queue latency histogram in microseconds") 16
                                (get_run_queue_latency k m w)
                              ++ histogram_text (str "karim_obsd_bio_latency_microseconds")
                                  (str "Block I/O completion latency histogram in microseconds") 64
                                  (get_bio_latency k m w)))))))
