-- ===== src/Sampler/Builder/Ready.antt =====
-- The invariant of the builder, over every sequence of its operations.
use mathlib.Core.Option.{some-injective}
use spiketrace.Prelude.{
  ℕ, ◌+◌, ◌≤◌, ◌<◌, ◌≡◌, refl, sym, ap, ◌∙◌, subst, ◌||◌, Option, some, List, arith, ltb, ◌==◌,
  if◌then◌else◌, length, length-replicate, Bytes, Bool-cases, inl, inr,
}
use spiketrace.Prelude.Int.{ℤ, pos, leb_ℤ, ltb_ℤ, pos_part}
use spiketrace.Status.{ok, is_ok}
use spiketrace.Double.{Double}
use spiketrace.Snapshot.{max_cores}
use spiketrace.Sampler.Jiffies.{Jiffies, no_jiffies, cpu_read_jiffies, cpu_calc_usage_pct_batch}
use spiketrace.Sampler.Processes.Samples.{ProcContext, proc_context_init}
use spiketrace.Sampler.Processes.Collect.{proc_collect_snapshot}
use spiketrace.Sampler.Processes.Collect.Tracked.{IsValid, proc_collect_snapshot-IsValid}
use spiketrace.Sampler.Builder.{
  Builder, Reading, no_readings, no_builder, cleanup_on, snapshot_builder_init, cpu_part,
  snapshot_builder_collect, snapshot_builder_set_baseline_alpha,
  snapshot_builder_set_top_processes_limit,
}
use spiketrace.Sampler.Builder.Sizes.{length-cpu_read_jiffies, limit-proc_collect_snapshot}

module _ {F : Type 0} ⦃d : Double F⦄ where
  -- what every operation relies on
  pub record IsReady (b : Builder F) : Type 0 where
    pub some_core : 0 < b.num_cores
    pub few_cores : b.num_cores ≤ 256
    pub lines : b.max_lines ≡ b.num_cores + 1
    pub prev : length b.prev_jiffies ≡ 257
    pub curr : length b.curr_jiffies ≡ 257
    pub context : IsValid b.proc_ctx
    pub some_limit : 0 < b.proc_ctx.top_processes_limit
    pub low_limit : b.proc_ctx.top_processes_limit ≤ 10

  -- the builders that an initialisation that succeeds and any further operations lead to
  pub data Reached : Builder F → Type 0 where
    made :
        (cpu_lines : Option (List Bytes)) (num_cores : ℤ) (before b : Builder F)
        → snapshot_builder_init cpu_lines (some before) num_cores ≡ (ok, some b)
        → Reached b
    collected :
        (reading : Reading) (b : Builder F)
        → Reached b
        → Reached (snapshot_builder_collect reading b).1
    with_alpha :
        (alpha : F) (b : Builder F)
        → Reached b
        → Reached (snapshot_builder_set_baseline_alpha alpha b)
    with_limit :
        (limit : ℕ) (b : Builder F)
        → Reached b
        → Reached (snapshot_builder_set_top_processes_limit limit b)

  -- new readings in the place of the old ones
  with_readings-IsReady :
      (b : Builder F) (prev curr : List Jiffies) (usage : List F)
      → IsReady b
      → length prev ≡ 257
      → length curr ≡ 257
      → IsReady (record b { prev_jiffies = prev; curr_jiffies = curr; per_core_usage = usage })
  with_readings-IsReady b prev curr usage r p c = record {
    some_core = r.some_core;
    few_cores = r.few_cores;
    lines = r.lines;
    prev = p;
    curr = c;
    context = r.context;
    some_limit = r.some_limit;
    low_limit = r.low_limit;
  }

  cpu_part-IsReady :
      (b : Builder F) (cpu_lines : Option (List Bytes))
      → IsReady b
      → IsReady (cpu_part b cpu_lines).0
  unfolding cpu_part
  cpu_part-IsReady b cpu_lines r =
      let curr = cpu_read_jiffies cpu_lines b.max_lines b.curr_jiffies in
      let size = length-cpu_read_jiffies cpu_lines b.max_lines b.curr_jiffies ∙ r.curr in
      let usage = (cpu_calc_usage_pct_batch b.prev_jiffies curr.1 b.num_cores b.per_core_usage).1 in
      elim (Bool-cases (is_ok curr.0)) [
        | inl fine ↦ rw fine (with_readings-IsReady b curr.1 curr.1 usage r size size)
        | inr bad ↦
            rw bad (with_readings-IsReady b b.prev_jiffies curr.1 b.per_core_usage r r.prev size)
      ]

  -- another context in the place of the old one
  with_context-IsReady :
      (b : Builder F) (ctx : ProcContext F)
      → IsReady b
      → IsValid ctx
      → 0 < ctx.top_processes_limit
      → ctx.top_processes_limit ≤ 10
      → IsReady (record b { proc_ctx = ctx })
  with_context-IsReady b ctx r valid low high = record {
    some_core = r.some_core;
    few_cores = r.few_cores;
    lines = r.lines;
    prev = r.prev;
    curr = r.curr;
    context = valid;
    some_limit = low;
    low_limit = high;
  }

  collect-IsReady :
      (reading : Reading) (b : Builder F)
      → IsReady b
      → IsReady (snapshot_builder_collect reading b).1
  unfolding snapshot_builder_collect
  collect-IsReady reading b r =
      let b' = (cpu_part b reading.cpu_lines).0 in
      let r' = cpu_part-IsReady b reading.cpu_lines r in
      let same = limit-proc_collect_snapshot reading.procs b'.proc_ctx in
      with_context-IsReady b' (proc_collect_snapshot reading.procs b'.proc_ctx).1 r'
        ((proc_collect_snapshot-IsValid reading.procs b'.proc_ctx).1 r'.context)
        (omega (arith, same, r'.some_limit)) (omega (arith, same, r'.low_limit))

  set_limit-IsReady :
      (limit : ℕ) (b : Builder F)
      → IsReady b
      → IsReady (snapshot_builder_set_top_processes_limit limit b)
  unfolding snapshot_builder_set_top_processes_limit
  set_limit-IsReady limit b r =
      let most = if ltb 10 limit then 10 else limit in
      let n = if most == 0 then 1 else most in
      let ctx = record b.proc_ctx { top_processes_limit = n } in
      let valid : IsValid ctx = record {
        counted = r.context.counted;
        bounded = r.context.bounded;
        tracked = r.context.tracked;
      } in
      with_context-IsReady b ctx r valid (ground arith) (ground arith)

  set_alpha-IsReady :
      (alpha : F) (b : Builder F)
      → IsReady b
      → IsReady (snapshot_builder_set_baseline_alpha alpha b)
  unfolding snapshot_builder_set_baseline_alpha
  set_alpha-IsReady alpha b r =
      let ctx = record b.proc_ctx { baseline_alpha = alpha } in
      let valid : IsValid ctx = record {
        counted = r.context.counted;
        bounded = r.context.bounded;
        tracked = r.context.tracked;
      } in
      with_context-IsReady b ctx r valid r.some_limit r.low_limit

  init-IsReady :
      (cpu_lines : Option (List Bytes)) (num_cores : ℤ) (before b : Builder F)
      → snapshot_builder_init cpu_lines (some before) num_cores ≡ (ok, some b)
      → IsReady b
  unfolding snapshot_builder_init proc_context_init
  init-IsReady cpu_lines num_cores before b h =
      let lines = pos_part num_cores + 1 in
      let read = cpu_read_jiffies cpu_lines lines no_readings in
      let started : Builder F = record no_builder {
        prev_jiffies = read.1;
        proc_ctx = proc_context_init;
        num_cores = pos_part num_cores;
        max_lines = lines;
      } in
      let fresh : IsValid {F = F} proc_context_init = record {
        counted = refl;
        bounded = omega arith;
        tracked = tt;
      } in
      elim (Bool-cases (leb_ℤ num_cores (pos 0) || ltb_ℤ (pos max_cores) num_cores)) [
        | inl bad ↦ let h' = rw bad at h in absurd (ground arith)
        | inr good ↦
            let h' = rw good at h in
            let fine : read.0 ≡ ok = ap (λ r. r.0) h' in
            let same : cleanup_on started read.0 ≡ b =
              some-injective (cleanup_on started read.0) b (ap (λ r. r.1) h') in
            let ready : IsReady started = record {
              some_core = ground arith;
              few_cores = ground arith;
              lines = refl;
              prev =
                  length-cpu_read_jiffies cpu_lines lines no_readings
                  ∙ length-replicate 257 no_jiffies;
              curr = length-replicate 257 no_jiffies;
              context = fresh;
              some_limit = omega arith;
              low_limit = omega arith;
            } in
            subst IsReady (ap (cleanup_on started) (sym fine) ∙ same) ready
      ]

  -- A builder that an initialisation which succeeds and any further rounds and settings have led to
  -- has 1 to 256 cores, reads one line more, has arrays of 257 readings, a valid context of
  -- processes, and a limit of 1 to 10 listed ones, whatever /proc held on the way.
  pub Reached-IsReady : (b : Builder F) → Reached b → IsReady b
  Reached-IsReady _ (made cpu_lines num_cores before b h) =
      init-IsReady cpu_lines num_cores before b h
  Reached-IsReady _ (collected reading b r) = collect-IsReady reading b (Reached-IsReady b r)
  Reached-IsReady _ (with_alpha alpha b r) = set_alpha-IsReady alpha b (Reached-IsReady b r)
  Reached-IsReady _ (with_limit limit b r) = set_limit-IsReady limit b (Reached-IsReady b r)
