-- ===== src/Anomaly/Cpu/Frame.antt =====
-- What `evaluate_cpu` leaves alone.
use spiketrace.Prelude.{ℕ, ◌≡◌, refl, Bool, true, false, Option, none, some, List}
use spiketrace.Double.{Double}
use spiketrace.Snapshot.{ProcSample}
use spiketrace.Anomaly.Types.{AnomalyConfig, AnomalyResult, AnomalyState, Table, no_result}
use spiketrace.Anomaly.Memory.Local.{mem_view, swap_view, is_mem_kind, is_swap_kind}
use spiketrace.Anomaly.Cpu.{scan_samples, scan_start, finish, evaluate_cpu}

module _ {F : Type 0} ⦃d : Double F⦄ (config : AnomalyConfig F) (now : ℕ) where
  abbrev pub CpuFrame : AnomalyState → AnomalyState × AnomalyResult F → Type 0
  CpuFrame state (state', out) =
      (mem_view state' ≡ mem_view state)
      × (swap_view state' ≡ swap_view state)
      × (is_mem_kind out.kind ≡ false)
      × (is_swap_kind out.kind ≡ false)

  finish-frame :
      (state : AnomalyState) (worst : Option (ProcSample F)) (is_new : Bool) (t : Table)
      → CpuFrame state (finish config now state worst is_new t no_result)
  unfolding finish
  finish-frame state none is_new t = (refl, refl, refl, refl)
  finish-frame state (some s) true t = (refl, refl, refl, refl)
  finish-frame state (some s) false t = (refl, refl, refl, refl)

  pub evaluate_cpu-frame :
      (state : AnomalyState) (samples : List (ProcSample F))
      → CpuFrame state (evaluate_cpu config now state samples no_result)
  unfolding evaluate_cpu
  evaluate_cpu-frame state samples =
      let scan = scan_samples config now samples (scan_start config now state.cooldowns) in
      finish-frame state scan.worst scan.is_new scan.cooldowns
