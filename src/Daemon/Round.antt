-- ===== src/Daemon/Round.antt =====
-- src/spktrace.c: one round of the loop of `main`.
use spiketrace.Prelude.{
  ℕ, Bool, true, false, ◌&&◌, Option, none, some, List, [], ltb, if◌then◌else◌, take, Bytes,
}
use spiketrace.Prelude.Int.{pos, leb_ℤ, ltb_ℤ}
use spiketrace.Status.{ok, is_ok}
use spiketrace.Double.{Double}
use spiketrace.Snapshot.{Snapshot}
use spiketrace.Config.Types.{Config}
use spiketrace.Config.Load.{Files}
use spiketrace.Anomaly.Types.{AnomalyType, AnomalyState, AnomalyResult, no_result, state_init}
use spiketrace.Anomaly.Evaluate.{evaluate, anomaly_should_dump}
use spiketrace.Ring.{RingBuffer, store, recent, find_spike_origin}
use spiketrace.Logs.{Disk}
use spiketrace.Logs.Manager.{LogManager, log_manager_auto_cleanup}
use spiketrace.Dump.Atomic.{Change}
use spiketrace.Dump.Write.{DumpContext, DumpAnswers, Dumped, spike_dump_write}
use spiketrace.Sampler.Builder.{
  Builder, Reading, snapshot_builder_collect, snapshot_builder_get_proc_samples,
}
use spiketrace.Daemon.Settings.{reload_config, config_to_anomaly_config, some_detection, filtered}
use spiketrace.Daemon.Start.{Daemon, set_from}

-- `MAX_CONTEXT_SNAPSHOTS`
abbrev pub max_context : ℕ
max_context = 60

-- what the system answers in a round: the files of the settings if a reload was asked for, what
-- the samplers read, the clock of a push, and the answers to the dump and to the clean-up
pub record Answers : Type 0 where
  pub reload : Option Files
  pub reading : Reading
  pub push_ns : ℕ
  pub granted : ℕ → Bool
  pub dump : DumpAnswers
  pub disk : Disk
  pub scan_granted : Bool

-- the sleep between two rounds: seconds, or seconds and nanoseconds
pub data Sleep : Type 0 where
  seconds : ℕ → Sleep
  nanos : ℕ → ℕ → Sleep

abbrev pub is_new_proc : AnomalyType → Bool
is_new_proc AnomalyType.nothing = false
is_new_proc AnomalyType.cpu_delta = false
is_new_proc AnomalyType.cpu_new_proc = true
is_new_proc AnomalyType.mem_drop = false
is_new_proc AnomalyType.mem_pressure = false
is_new_proc AnomalyType.swap_spike = false

-- the end of a round: the daemon, the report and the changes of the dump's files; `none` while
-- the dump is still being written
abbrev pub Ended : Type 0 → Type 0
Ended F = Option (Daemon F × AnomalyResult F × List Change)

module _ {F : Type 0} ⦃d : Double F⦄ where
  unfoldable pub sleep_for : F → Sleep
  sleep_for sampling_interval =
      let s = d.to_ℕ sampling_interval in
      let fraction = d.sub sampling_interval (d.of_ℕ s) in
      if d.le (d.literal 1 1) sampling_interval
      then Sleep.seconds s
      else Sleep.nanos s (d.to_ℕ (d.mul fraction (d.literal 1000000000 1)))

  -- a reload, which also forgets the baselines and the cooldowns
  unfoldable pub refresh : Bytes → Option Files → Daemon F → Daemon F
  refresh dir none daemon = daemon
  refresh dir (some files) daemon =
      let config = reload_config dir files daemon.active_config in
      record daemon {
        active_config = config;
        anomaly_state = state_init;
        builder = set_from config daemon.builder;
      }

  -- the detector, if some detection is enabled, and the filter behind it
  unfoldable pub detect :
      Config F → AnomalyState → Builder F → Snapshot F → AnomalyState × AnomalyResult F
  detect config state builder snap =
      let (samples, count) = snapshot_builder_get_proc_samples (some builder) in
      let (state', result) =
        evaluate (config_to_anomaly_config config) state (take count samples) (some snap.mem)
          snap.timestamp_monotonic_ns in
      if some_detection config then (state', filtered config result) else (state, no_result)

  unfoldable pub origin_threshold : Config F → AnomalyResult F → F
  origin_threshold config result =
      if is_new_proc result.kind
      then d.mul (config_to_anomaly_config config).new_process_threshold_pct (d.literal 5 10)
      else d.literal 1 1

  -- the result with the index at which the spike started
  unfoldable pub with_origin : Config F → RingBuffer F → ℕ → AnomalyResult F → AnomalyResult F
  with_origin config rb dump_count result =
      let origin_idx =
        find_spike_origin (some rb) result.spike_pid (origin_threshold config result) in
      record result {
        origin_snapshot_idx =
            if leb_ℤ (pos 0) origin_idx && ltb_ℤ origin_idx (pos dump_count)
            then origin_idx
            else pos 0;
      }

  abbrev pub context_size : Config F → ℕ
  context_size config =
      let n = config.context_snapshots_per_dump in if ltb max_context n then max_context else n

  -- the arguments of `spike_dump_write`, if there is a snapshot to write
  unfoldable pub to_dump :
      Config F → RingBuffer F → AnomalyResult F → Option (List (Snapshot F) × AnomalyResult F)
  to_dump config rb result =
      let (dump_count, dump_snaps) = recent rb (context_size config) in
      if ltb 0 dump_count then some (dump_snaps, with_origin config rb dump_count result) else none

  -- the dump of a report
  abbrev pub write_some :
      Answers → ℕ → DumpContext → Option (List (Snapshot F) × AnomalyResult F) → Dumped
  write_some answers now ctx none = some (ok, ctx, [])
  write_some answers now ctx (some (snaps, result)) =
      spike_dump_write answers.granted ctx answers.dump snaps result now

  unfoldable pub dump_report :
      Answers
      → Config F
      → RingBuffer F
      → ℕ
      → AnomalyResult F
      → Option DumpContext
      → Option (Option DumpContext × List Change)
  dump_report answers config rb now result none = some (none, [])
  dump_report answers config rb now result (some ctx) =
      if anomaly_should_dump (some result)
      then elim (write_some answers now ctx (to_dump config rb result)) [
        | none ↦ none
        | some (s, ctx', changes) ↦ some (some ctx', changes)
      ]
      else some (some ctx, [])

  -- the clean-up of the logs
  unfoldable pub clean_logs : Answers → Config F → ℕ → Option LogManager → Option LogManager
  clean_logs answers config now none = none
  clean_logs answers config now (some ctx) =
      let (_, _, ctx') =
        log_manager_auto_cleanup answers.disk answers.scan_granted ctx config now in
      some ctx'

  abbrev pub finish :
      Daemon F → AnomalyResult F → Option (Option DumpContext × List Change) → Ended F
  finish daemon result none = none
  finish daemon result (some (ctx, changes)) =
      some (record daemon { dump_ctx = ctx }, result, changes)

  -- all but the dump of a round with a new snapshot
  abbrev pub stepped : Answers → Daemon F → Builder F → Snapshot F → Daemon F
  stepped answers daemon builder snap = record daemon {
    builder = builder;
    rb = store answers.push_ns snap daemon.rb;
    anomaly_state = (detect daemon.active_config daemon.anomaly_state builder snap).0;
    log_ctx = clean_logs answers daemon.active_config snap.timestamp_monotonic_ns daemon.log_ctx;
  }

  abbrev pub process : Answers → Daemon F → Builder F → Snapshot F → Ended F
  process answers daemon builder snap =
      let result = (detect daemon.active_config daemon.anomaly_state builder snap).1 in
      finish (stepped answers daemon builder snap) result (
        dump_report answers daemon.active_config (store answers.push_ns snap daemon.rb)
          snap.timestamp_monotonic_ns result daemon.dump_ctx)

  -- a round in which no shutdown is asked for
  unfoldable pub round : Bytes → Answers → Daemon F → Ended F
  round dir answers daemon =
      let refreshed = refresh dir answers.reload daemon in
      let (status, builder, snap) = snapshot_builder_collect answers.reading refreshed.builder in
      if is_ok status
      then process answers refreshed builder snap
      else some (record refreshed { builder = builder }, no_result, [])
