-- ===== src/Anomaly/Evaluate/Rounds.antt =====
-- `anomaly_evaluate` round after round, as the main loop calls it.
use spiketrace.Prelude.{ℕ, Option, none, some, List, [], ◌∷◌}
use spiketrace.Double.{Double}
use spiketrace.Snapshot.{ProcSample, MemSnapshot}
use spiketrace.Anomaly.Types.{AnomalyConfig, AnomalyResult, AnomalyState}
use spiketrace.Anomaly.Memory.{swap_used_of}
use spiketrace.Anomaly.Memory.Baseline.{Baseline, follow}
use spiketrace.Anomaly.Evaluate.{evaluate}

-- the arguments of one call
pub record Round (F : Type 0) : Type 0 where
  pub samples : List (ProcSample F)
  pub mem : Option MemSnapshot
  pub now : ℕ

module _ {F : Type 0} ⦃d : Double F⦄ (config : AnomalyConfig F) where
  abbrev pub evaluate_round : AnomalyState → Round F → AnomalyState × AnomalyResult F
  evaluate_round state r = evaluate config state r.samples r.mem r.now

  -- the results of the rounds, and the state after them
  abbrev pub results : AnomalyState → List (Round F) → List (AnomalyResult F)
  results state [] = []
  results state (r ∷ rs) = let (state', out) = evaluate_round state r in out ∷ results state' rs

  abbrev pub state_after : AnomalyState → List (Round F) → AnomalyState
  state_after state [] = state
  state_after state (r ∷ rs) = state_after (evaluate_round state r).0 rs

  -- what the rounds mean for the two baselines
  abbrev pub follow_mem : Option MemSnapshot → Baseline → Baseline
  follow_mem none b = b
  follow_mem (some mem) b = follow config mem.total_ram_kib mem.available_ram_kib b

  abbrev pub follow_swap : Option MemSnapshot → Baseline → Baseline
  follow_swap none b = b
  follow_swap (some mem) b = follow config mem.swap_total_ram_kib (swap_used_of config mem) b

  abbrev pub follow_all :
      (Option MemSnapshot → Baseline → Baseline) → List (Round F) → Baseline → Baseline
  follow_all step [] b = b
  follow_all step (r ∷ rs) b = follow_all step rs (step r.mem b)
