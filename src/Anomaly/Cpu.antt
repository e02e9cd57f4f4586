-- ===== src/Anomaly/Cpu.antt =====
-- `evaluate_cpu` of src/anomaly_detector.c: the worst CPU spike among the samples.
pub mod Frame
pub mod Valid
pub mod Quiet
pub mod Pick
pub mod Report
use spiketrace.Prelude.{
  ℕ, Bool, true, false, not, ◌&&◌, Option, none, some, List, [], ◌∷◌, ltb, leb, if◌then◌else◌,
}
use spiketrace.Prelude.Int.{ℤ}
use spiketrace.Double.{Double, nought}
use spiketrace.Snapshot.{ProcSample}
use spiketrace.Anomaly.Types.{
  AnomalyType, AnomalyConfig, AnomalyResult, AnomalyState, Table, compute_scope_key, copy_comm,
}
use spiketrace.Anomaly.Cooldown.{cooldown_is_active, cooldown_record}

-- the local variables of the loop, and the table that it updates
pub record Scan (F : Type 0) : Type 0 where
  pub max_spike : F
  pub worst : Option (ProcSample F)
  pub is_new : Bool
  pub cooldowns : Table

module _ {F : Type 0} ⦃d : Double F⦄ (config : AnomalyConfig F) (current_ns : ℕ) where
  -- the key of a new process, and of the record that follows it
  abbrev pub new_key : ProcSample F → ℤ
  new_key s =
      if config.aggregate_related_processes
      then s.pgid
      else compute_scope_key s config.trigger_scope

  abbrev pub is_new_candidate : ProcSample F → Bool
  is_new_candidate s = leb s.sample_count 2 && d.le config.new_process_threshold_pct s.cpu_pct

  -- The first half of the loop's body, once the cooldown is checked. The flag tells whether it
  -- ends with `continue`.
  unfoldable pub after_new_check : ProcSample F → Scan F → Bool × Table → Bool × Scan F
  after_new_check s scan (true, t) = (true, record scan { cooldowns = t })
  after_new_check s scan (false, t) =
      if d.lt scan.max_spike s.cpu_pct
      then (false, record { max_spike = s.cpu_pct; worst = some s; is_new = true; cooldowns = t })
      else (false, record scan { cooldowns = t })

  unfoldable pub new_spike : ProcSample F → Scan F → Bool × Scan F
  new_spike s scan =
      if is_new_candidate s
      then after_new_check s scan
          (cooldown_is_active scan.cooldowns (new_key s) current_ns config.cooldown_ns)
      else (false, scan)

  abbrev pub delta_of : ProcSample F → F
  delta_of s = d.sub s.cpu_pct s.baseline_cpu_pct

  -- The second half.
  unfoldable pub after_delta_check : ProcSample F → Scan F → Bool × Table → Scan F
  after_delta_check s scan (true, t) = record scan { cooldowns = t }
  after_delta_check s scan (false, t) =
      if d.le config.cpu_delta_threshold_pct (delta_of s) && d.lt scan.max_spike (delta_of s)
      then record { max_spike = delta_of s; worst = some s; is_new = false; cooldowns = t }
      else record scan { cooldowns = t }

  unfoldable pub delta_spike : ProcSample F → Scan F → Scan F
  delta_spike s scan =
      if ltb 2 s.sample_count
      then after_delta_check s scan (
          cooldown_is_active scan.cooldowns (compute_scope_key s config.trigger_scope) current_ns
            config.cooldown_ns)
      else scan

  unfoldable pub scan_sample : ProcSample F → Scan F → Scan F
  scan_sample s scan =
      if not s.valid
      then scan
      else (let (continued, scan') = new_spike s scan in
          if continued then scan' else delta_spike s scan')

  unfoldable pub scan_samples : List (ProcSample F) → Scan F → Scan F
  scan_samples [] scan = scan
  scan_samples (s ∷ samples) scan = scan_samples samples (scan_sample s scan)

  abbrev pub scan_start : Table → Scan F
  scan_start t = record { max_spike = nought; worst = none; is_new = false; cooldowns = t }

  -- the key under which a reported spike is recorded
  abbrev pub record_key : ProcSample F → Bool → ℤ
  record_key s is_new =
      if is_new && config.aggregate_related_processes
      then s.pgid
      else compute_scope_key s config.trigger_scope

  abbrev pub cpu_report : ProcSample F → Bool → AnomalyResult F → AnomalyResult F
  cpu_report s is_new out = record out {
    has_anomaly = true;
    kind = if is_new then AnomalyType.cpu_new_proc else AnomalyType.cpu_delta;
    spike_pid = s.pid;
    spike_comm = copy_comm s.comm;
    spike_cpu_pct = s.cpu_pct;
    spike_baseline_pct = s.baseline_cpu_pct;
    spike_delta = delta_of s;
    is_new_process_spike = is_new;
    trigger_scope = config.trigger_scope;
    scope_key = record_key s is_new;
  }

  -- the block after the loop
  unfoldable pub finish :
      AnomalyState
      → Option (ProcSample F)
      → Bool
      → Table
      → AnomalyResult F
      → AnomalyState × AnomalyResult F
  finish state none is_new t out = (record state { cooldowns = t }, out)
  finish state (some s) is_new t out = (
    record state { cooldowns = cooldown_record t (record_key s is_new) current_ns },
    cpu_report s is_new out,
  )

  unfoldable pub evaluate_cpu :
      AnomalyState → List (ProcSample F) → AnomalyResult F → AnomalyState × AnomalyResult F
  evaluate_cpu state samples out =
      let scan = scan_samples samples (scan_start state.cooldowns) in
      finish state scan.worst scan.is_new scan.cooldowns out
