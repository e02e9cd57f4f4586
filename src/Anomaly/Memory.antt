-- ===== src/Anomaly/Memory.antt =====
-- `evaluate_mem` and `evaluate_swap` of src/anomaly_detector.c: memory pressure and sudden changes
-- against an exponentially weighted baseline.
pub mod Baseline
pub mod Local
pub mod Quiet
pub mod Culprit
pub mod Report
use spiketrace.Prelude.{
  ℕ, ◌-◌, Bool, true, false, not, ◌&&◌, ◌||◌, Option, none, some, List, [], ◌∷◌, ltb, leb, ◌==◌,
  if◌then◌else◌,
}
use spiketrace.Prelude.Int.{ℤ, pos, neg_part, pos_part, ltb_ℤ, ◌-ℤ◌, sub_u64, i64_of}
use spiketrace.Double.{Double}
use spiketrace.Snapshot.{ProcSample, MemSnapshot}
use spiketrace.Anomaly.Types.{
  AnomalyType, AnomalyConfig, AnomalyResult, AnomalyState, compute_scope_key, copy_comm,
}

-- The loop for the largest resident set; both callers spell it out.
unfoldable pub top_rss :
    {F : Type 0} → List (ProcSample F) → ℕ → Option (ProcSample F) → Option (ProcSample F)
top_rss [] max_rss top = top
top_rss (s ∷ samples) max_rss top =
    let better = s.valid && ltb max_rss s.rss_kib in
    top_rss samples (if better then s.rss_kib else max_rss) (if better then some s else top)

module _ {F : Type 0} ⦃d : Double F⦄ (config : AnomalyConfig F) where
  -- the new baseline, a `double` cast to `uint64_t`
  unfoldable pub ema : ℕ → ℕ → ℕ
  ema x baseline =
      let alpha = config.memory_baseline_alpha in
      d.to_ℕ
        (d.add (d.mul alpha (d.of_ℕ x)) (d.mul (d.sub (d.literal 1 1) alpha) (d.of_ℕ baseline)))

  unfoldable pub attribute : Option (ProcSample F) → AnomalyResult F → AnomalyResult F
  attribute none out = out
  attribute (some s) out = record out {
    spike_pid = s.pid;
    spike_comm = copy_comm s.comm;
    trigger_scope = config.trigger_scope;
    scope_key = compute_scope_key s config.trigger_scope;
  }

  -- the cooldown test; a trigger time of 0 means there was none
  unfoldable pub is_cooling : ℕ → ℕ → Bool
  is_cooling last current_ns =
      ltb 0 last && ltb last current_ns && ltb (current_ns - last) config.cooldown_ns

  unfoldable pub used_pct_of : MemSnapshot → F
  used_pct_of mem =
      d.div (d.mul (d.literal 100 1) (d.of_ℕ (sub_u64 mem.total_ram_kib mem.available_ram_kib)))
        (d.of_ℕ mem.total_ram_kib)

  unfoldable pub is_drop : ℤ → Bool
  is_drop delta = ltb_ℤ delta (pos 0) && leb config.mem_drop_threshold_kib (neg_part delta)

  unfoldable pub is_pressure : MemSnapshot → Bool
  is_pressure mem = d.le config.mem_pressure_threshold_pct (used_pct_of mem)

  abbrev pub mem_delta : ℕ → ℕ → ℤ
  mem_delta x baseline = i64_of x -ℤ i64_of baseline

  -- what a report on memory says
  unfoldable pub mem_report :
      List (ProcSample F) → MemSnapshot → ℕ → AnomalyResult F → AnomalyResult F
  mem_report samples mem baseline out =
      let delta = mem_delta mem.available_ram_kib baseline in
      attribute (top_rss samples 0 none) (record out {
        has_anomaly = true;
        kind = if is_drop delta then AnomalyType.mem_drop else AnomalyType.mem_pressure;
        mem_available_kib = mem.available_ram_kib;
        mem_baseline_kib = baseline;
        mem_delta_kib = delta;
        mem_used_pct = used_pct_of mem;
      })

  -- `mem` is not null where it is called, so the pointer is the snapshot
  unfoldable pub evaluate_mem :
      AnomalyState
      → MemSnapshot
      → List (ProcSample F)
      → ℕ
      → AnomalyResult F
      → AnomalyState × AnomalyResult F
  evaluate_mem state mem samples current_ns out =
      let available = mem.available_ram_kib in
      let baseline = state.mem_baseline_kib in
      if mem.total_ram_kib == 0
      then (state, out)
      else if not state.mem_baseline_initialized
      then (record state { mem_baseline_kib = available; mem_baseline_initialized = true }, out)
      else if is_cooling state.last_mem_trigger_ns current_ns
      then (record state { mem_baseline_kib = ema available baseline }, out)
      else if is_drop (mem_delta available baseline) || is_pressure mem
      then (
        record state {
          last_mem_trigger_ns = current_ns;
          mem_baseline_kib = ema available baseline;
        },
        mem_report samples mem baseline out,
      )
      else (record state { mem_baseline_kib = ema available baseline }, out)

  unfoldable pub is_swap_spike : ℤ → Bool
  is_swap_spike delta = ltb_ℤ (pos 0) delta && leb config.swap_spike_threshold_kib (pos_part delta)

  abbrev pub swap_used_of : MemSnapshot → ℕ
  swap_used_of mem = sub_u64 mem.swap_total_ram_kib mem.swap_free_ram_kib

  unfoldable pub swap_report : List (ProcSample F) → ℕ → ℕ → AnomalyResult F → AnomalyResult F
  swap_report samples swap_used baseline out = attribute (top_rss samples 0 none) (record out {
    has_anomaly = true;
    kind = AnomalyType.swap_spike;
    swap_used_kib = swap_used;
    swap_baseline_kib = baseline;
    swap_delta_kib = mem_delta swap_used baseline;
  })

  unfoldable pub evaluate_swap :
      AnomalyState
      → MemSnapshot
      → List (ProcSample F)
      → ℕ
      → AnomalyResult F
      → AnomalyState × AnomalyResult F
  evaluate_swap state mem samples current_ns out =
      let swap_used = swap_used_of mem in
      let baseline = state.swap_baseline_kib in
      if mem.swap_total_ram_kib == 0
      then (state, out)
      else if not state.swap_baseline_initialized
      then (record state { swap_baseline_kib = swap_used; swap_baseline_initialized = true }, out)
      else if is_cooling state.last_swap_trigger_ns current_ns
      then (record state { swap_baseline_kib = ema swap_used baseline }, out)
      else if is_swap_spike (mem_delta swap_used baseline)
      then (
        record state {
          last_swap_trigger_ns = current_ns;
          swap_baseline_kib = ema swap_used baseline;
        },
        swap_report samples swap_used baseline out,
      )
      else (record state { swap_baseline_kib = ema swap_used baseline }, out)
