-- ===== src/Daemon/Enabled.antt =====
-- What a round reports and dumps: only what is enabled, and the first finding only.
use spiketrace.Prelude.{◌≡◌, refl, true, false, Option, some, take, Bool-cases, inl, inr}
use spiketrace.Double.{Double}
use spiketrace.Snapshot.{Snapshot}
use spiketrace.Config.Types.{Config}
use spiketrace.Anomaly.Types.{AnomalyState}
use spiketrace.Anomaly.Evaluate.{cpu_step}
use spiketrace.Anomaly.Evaluate.Priority.{evaluate_independent}
use spiketrace.Sampler.Builder.{Builder, snapshot_builder_get_proc_samples}
use spiketrace.Daemon.Settings.{config_to_anomaly_config, should_report, some_detection, filtered}
use spiketrace.Daemon.Start.{Daemon}
use spiketrace.Daemon.Round.{detect}

module _ {F : Type 0} ⦃d : Double F⦄ where
  -- The filter stands behind the choice of the finding: if the CPU part of the detector, alone on
  -- the samples, finds an anomaly of a type whose detection is disabled, the round reports nothing,
  -- whatever the memory and the swap part find.
  pub detect_masks :
      (config : Config F) (state : AnomalyState) (builder : Builder F) (snap : Snapshot F)
      → let samples = take builder.proc_ctx.count builder.proc_ctx.samples in
        let cpu =
          (cpu_step
            (config_to_anomaly_config config)
            state
            samples
            snap.timestamp_monotonic_ns).1 in
        cpu.has_anomaly ≡ true
        → should_report config cpu.kind ≡ false
        → (detect config state builder snap).1.has_anomaly ≡ false
  unfolding detect filtered snapshot_builder_get_proc_samples
  detect_masks config state builder snap found off =
      let samples = take builder.proc_ctx.count builder.proc_ctx.samples in
      let (_, _, _, first) =
        evaluate_independent (config_to_anomaly_config config) state samples (some snap.mem)
          snap.timestamp_monotonic_ns in
      elim (Bool-cases (some_detection config)) [
        | inr quiet ↦ rw quiet refl
        | inl on ↦ rw on (rw first (rw found (rw found (rw off refl))))
      ]
