-- ===== src/Daemon/Sound.antt =====
-- The invariant of the daemon, over every start and every sequence of rounds.
use mathlib.Core.Option.{some-injective, none-ne-some}
use spiketrace.Prelude.{
  ℕ, ◌≡◌, refl, sym, ap, ◌∙◌, subst, true, not, ◌||◌, Option, none, some, List, [], ◌∷◌, arith,
  take, Bytes, Bool-cases, inl, inr,
}
use spiketrace.Prelude.Int.{pos, leb_ℤ, ltb_ℤ}
use spiketrace.Status.{Status, ok, is_ok, is_ok-eq}
use spiketrace.Double.{Double, IsOrdered}
use spiketrace.Snapshot.{Snapshot, ProcSample, MemSnapshot, max_cores}
use spiketrace.Config.Types.{Config}
use spiketrace.Config.Path.{is_safe_absolute_path}
use spiketrace.Config.Defaults.{config_init_defaults}
use spiketrace.Config.Load.{Files, config_load}
use spiketrace.Config.Validate.{validate}
use spiketrace.Config.Validate.Bounds as ConfigBounds
use spiketrace.Config.Validate.Soundness.{defaults-IsValid, validate-IsValid}
use spiketrace.Anomaly.Types.{AnomalyConfig, AnomalyState, AnomalyResult}
use spiketrace.Anomaly.Cpu.Valid as Cooldowns
use spiketrace.Anomaly.Cpu.Quiet.{evaluate_cpu-recorded}
use spiketrace.Anomaly.Evaluate.{cpu_step, evaluate}
use spiketrace.Anomaly.Evaluate.Priority.{evaluate_independent}
use spiketrace.Ring.Bounds as Ring
use spiketrace.Dump.Atomic.{Change}
use spiketrace.Dump.Write.{DumpContext}
use spiketrace.Sampler.Builder.{
  Builder, no_builder, snapshot_builder_init, snapshot_builder_collect,
  snapshot_builder_get_proc_samples, snapshot_builder_set_baseline_alpha,
}
use spiketrace.Sampler.Builder.Ready.{Reached}
use spiketrace.Daemon.Settings.{
  validated, load_config, accepted_or, reload_config, initial_config, config_to_anomaly_config,
  some_detection,
}
use spiketrace.Daemon.Start.{Daemon, StartAnswers, built, set_from, start_with, start}
use spiketrace.Daemon.Round.{Answers, refresh, detect, finish, stepped, round}

no_cooldowns : Cooldowns.IsValid []
no_cooldowns = record { distinct = tt; bounded = omega arith }

module _ {F : Type 0} ⦃d : Double F⦄ where
  -- what holds between two rounds
  pub record IsSound (daemon : Daemon F) : Type 0 where
    pub settings : ConfigBounds.IsValid daemon.active_config
    pub builder : Reached daemon.builder
    pub ring : Ring.IsValid daemon.rb
    pub cooldowns : Cooldowns.IsValid daemon.anomaly_state.cooldowns

  -- the states of `main` at the top of its loop
  pub data Runs (dir : Bytes) : Daemon F → Type 0 where
    started :
        (answers : StartAnswers) (daemon : Daemon F)
        → start dir answers ≡ some daemon
        → Runs dir daemon
    went_on :
        (answers : Answers) (daemon daemon' : Daemon F) (result : AnomalyResult F)
        (changes : List Change)
        → round dir answers daemon ≡ some (daemon', result, changes)
        → Runs dir daemon
        → Runs dir daemon'

  set_from-Reached : (config : Config F) (b : Builder F) → Reached b → Reached (set_from config b)
  unfolding set_from
  set_from-Reached config b r =
      Reached.with_limit config.top_processes_stored
        (snapshot_builder_set_baseline_alpha config.process_baseline_alpha b)
        (Reached.with_alpha config.process_baseline_alpha b r)

  evaluate-cooldowns :
      (config : AnomalyConfig F) (state : AnomalyState) (samples : List (ProcSample F))
      (mem : Option MemSnapshot) (now : ℕ)
      → Cooldowns.IsValid state.cooldowns
      → Cooldowns.IsValid (evaluate config state samples mem now).0.cooldowns
  unfolding cpu_step
  evaluate-cooldowns config state [] mem now v =
      let (same, _, _, _) = evaluate_independent config state [] mem now in
      subst Cooldowns.IsValid (sym same) v
  evaluate-cooldowns config state (s ∷ samples) mem now v =
      let (same, _, _, _) = evaluate_independent config state (s ∷ samples) mem now in
      subst Cooldowns.IsValid (sym same) (evaluate_cpu-recorded config now state (s ∷ samples) v).0

  detect-cooldowns :
      (config : Config F) (state : AnomalyState) (builder : Builder F) (snap : Snapshot F)
      → Cooldowns.IsValid state.cooldowns
      → Cooldowns.IsValid (detect config state builder snap).0.cooldowns
  unfolding detect snapshot_builder_get_proc_samples
  detect-cooldowns config state builder snap v = elim (Bool-cases (some_detection config)) [
    | inl on ↦ rw on (
        evaluate-cooldowns (config_to_anomaly_config config) state
          (take builder.proc_ctx.count builder.proc_ctx.samples) (some snap.mem)
          snap.timestamp_monotonic_ns v)
    | inr off ↦ rw off v
  ]

  -- the dump leaves the rest of the daemon as it is
  pub finish-eq :
      (daemon daemon' : Daemon F) (result result' : AnomalyResult F) (changes : List Change)
      (o : Option (Option DumpContext × List Change))
      → finish daemon result o ≡ some (daemon', result', changes)
      → (ctx : Option DumpContext) × (record daemon { dump_ctx = ctx } ≡ daemon')
        × (result ≡ result')
        × (o ≡ some (ctx, changes))
  finish-eq daemon daemon' result result' changes none h =
      absurd (none-ne-some (daemon', result', changes) h)
  finish-eq daemon daemon' result result' changes (some (ctx, cs)) h =
      let same =
        some-injective (record daemon { dump_ctx = ctx }, result, cs) (daemon', result', changes)
          h in
      (ctx, ap (λ t. t.0) same, ap (λ t. t.1) same, ap (λ t. some (ctx, t.2)) same)

module _ {F : Type 0} ⦃d : Double F⦄ (laws : IsOrdered F) (dir : Bytes)
    (safe : is_safe_absolute_path (take 255 dir) ≡ true) where
  accepted-IsValid :
      (fallback : Config F) (o : Option (Config F))
      → ConfigBounds.IsValid fallback
      → ConfigBounds.IsValid (accepted_or fallback (validated dir o))
  accepted-IsValid fallback none v = v
  accepted-IsValid fallback (some config) v = elim (Bool-cases (is_ok (validate dir config).0)) [
    | inl fine ↦ rw fine (validate-IsValid laws dir config safe)
    | inr bad ↦ rw bad v
  ]

  initial-IsValid : (files : Files) → ConfigBounds.IsValid {F = F} (initial_config dir files)
  unfolding initial_config load_config
  initial-IsValid files =
      accepted-IsValid (config_init_defaults dir) (config_load dir files none)
        (defaults-IsValid laws dir safe)

  refresh-IsSound :
      (reload : Option Files) (daemon : Daemon F)
      → IsSound daemon
      → IsSound (refresh dir reload daemon)
  unfolding refresh reload_config load_config
  refresh-IsSound none daemon s = s
  refresh-IsSound (some files) daemon s = record {
    settings = accepted-IsValid daemon.active_config (config_load dir files none) s.settings;
    builder =
        set_from-Reached (reload_config dir files daemon.active_config) daemon.builder s.builder;
    ring = s.ring;
    cooldowns = no_cooldowns;
  }

  start_with-IsSound :
      (answers : StartAnswers) (config : Config F) (daemon : Daemon F)
      (r : Status × Option (Builder F))
      → ConfigBounds.IsValid config
      → snapshot_builder_init answers.cpu_lines (some no_builder) answers.num_cores ≡ r
      → start_with answers config (built r) ≡ some daemon
      → IsSound daemon
  start_with-IsSound answers config daemon (status, none) v e h = absurd (none-ne-some daemon h)
  start_with-IsSound answers config daemon (status, some b) v e h =
      elim (Bool-cases (is_ok status)) [
        | inr bad ↦ let h' = rw bad at h in absurd (none-ne-some daemon h')
        | inl fine ↦
            let h' = rw fine at h in
            let made : snapshot_builder_init answers.cpu_lines (some no_builder) answers.num_cores
                ≡ (ok, some b) =
              e ∙ ap (λ s. (s, some b)) (is_ok-eq status fine) in
            elim (Bool-cases (not answers.mutex_made || not answers.allocated)) [
              | inl stopped ↦ let h'' = rw stopped at h' in absurd (none-ne-some daemon h'')
              | inr on ↦
                  let h'' = rw on at h' in
                  let same = some-injective _ daemon h'' in
                  subst IsSound same (record {
                    settings = v;
                    builder =
                        set_from-Reached config b
                          (Reached.made answers.cpu_lines answers.num_cores no_builder b made);
                    ring = Ring.fresh-IsValid;
                    cooldowns = no_cooldowns;
                  })
            ]
      ]

  start-IsSound :
      (answers : StartAnswers) (daemon : Daemon F)
      → start dir answers ≡ some daemon
      → IsSound daemon
  unfolding start
  start-IsSound answers daemon h =
      elim (Bool-cases
        (leb_ℤ answers.num_cores (pos 0) || ltb_ℤ (pos max_cores) answers.num_cores)) [
          | inl bad ↦ let h' = rw bad at h in absurd (none-ne-some daemon h')
          | inr good ↦
              let h' = rw good at h in
              elim (Bool-cases (not answers.handlers_installed)) [
                | inl without ↦ let h'' = rw without at h' in absurd (none-ne-some daemon h'')
                | inr installed ↦
                    let h'' = rw installed at h' in
                    start_with-IsSound answers (initial_config dir answers.files) daemon
                      (snapshot_builder_init answers.cpu_lines (some no_builder) answers.num_cores)
                      (initial-IsValid answers.files) refl h''
              ]
        ]

  round-IsSound :
      (answers : Answers) (daemon daemon' : Daemon F) (result : AnomalyResult F)
      (changes : List Change)
      → round dir answers daemon ≡ some (daemon', result, changes)
      → IsSound daemon
      → IsSound daemon'
  unfolding round snapshot_builder_collect
  round-IsSound answers daemon daemon' result changes h sound =
      let refreshed = refresh dir answers.reload daemon in
      let s = refresh-IsSound answers.reload daemon sound in
      let (_, builder, snap) = snapshot_builder_collect answers.reading refreshed.builder in
      let (ctx, same, _, _) =
        finish-eq (stepped answers refreshed builder snap) daemon' _ result changes _ h in
      subst IsSound same (record {
        settings = s.settings;
        builder = Reached.collected answers.reading refreshed.builder s.builder;
        ring = Ring.store-IsValid answers.push_ns snap refreshed.rb s.ring;
        cooldowns =
            detect-cooldowns refreshed.active_config refreshed.anomaly_state builder snap
              s.cooldowns;
      })

  -- At the top of every round of the loop, from any start that gets there and after any rounds,
  -- whatever the files of settings, /proc and the system's answers were: the active settings are all
  -- within their bounds, the builder is one that its operations lead to, the ring buffer is valid,
  -- and the table of cooldowns has at most 64 entries with distinct keys. It needs that the build's
  -- directory passes the path check, and the laws of the order of doubles.
  pub Runs-IsSound : (daemon : Daemon F) → Runs dir daemon → IsSound daemon
  Runs-IsSound _ (started answers daemon h) = start-IsSound answers daemon h
  Runs-IsSound _ (went_on answers daemon daemon' result changes h runs) =
      round-IsSound answers daemon daemon' result changes h (Runs-IsSound daemon runs)
