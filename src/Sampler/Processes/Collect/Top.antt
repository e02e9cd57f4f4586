-- ===== src/Sampler/Processes/Collect/Top.antt =====
-- The listed processes are the top ones.
use mathlib.Core.List.{Permᴰ}
use Prim.Native.Nat.{min}
use spiketrace.Prelude.{
  ℕ, zero, suc, ◌≤◌, ◌<◌, ◌≡◌, refl, sym, ap, ◌∙◌, subst, true, some, List, [], ◌∷◌, ◌++◌, map,
  arith, if◌then◌else◌, length, take, All, Bytes,
}
use spiketrace.Status.{Status, ok, err_alloc_failed}
use spiketrace.Double.{Double, IsOrdered}
use spiketrace.Snapshot.{ProcEntry, ProcSnapshot, ProcSample}
use spiketrace.Sorting.{qsort, qsort-Permᴰ, length-qsort, All-qsort, Sorted, Sorted-split, split}
use spiketrace.Sampler.Processes.Samples.{
  ProcContext, compare_samples_by_cpu, compare_samples_by_rss, no_procs,
}
use spiketrace.Sampler.Processes.Collect.{
  ProcFiles, entry_of, copy_count, conclude, collect, samples_of, proc_collect_snapshot,
  read_total_system_ticks,
}
use spiketrace.Sampler.Processes.Collect.Orders.{
  IsLive, Busier, Larger, by_cpu-Sorted, by_rss-Sorted,
}

module _ {F : Type 0} ⦃d : Double F⦄ where
  take-front : (xs ys : List (ProcSample F)) (n : ℕ) → length xs ≡ n → take n (xs ++ ys) ≡ xs
  take-front [] ys zero e = ground arith
  take-front [] ys (suc n) e = absurd (omega arith)
  take-front (x ∷ xs) ys zero e = absurd (omega arith)
  take-front (x ∷ xs) ys (suc n) e = ap (◌∷◌ x) (take-front xs ys n (omega arith))

  -- a list that is split into the top ones by a relation, which are listed, and the rest
  pub record IsTop (R : ProcSample F → ProcSample F → Type 0) (files : ProcFiles) (n : ℕ)
      (samples : List (ProcSample F)) (entries : List (ProcEntry F)) : Type 0 where
    pub top : List (ProcSample F)
    pub rest : List (ProcSample F)
    pub all_there : Permᴰ samples (top ++ rest)
    pub listed : entries ≡ map (entry_of files) top
    pub counted : length top ≡ n
    pub above : All (λ s. All (R s) rest) top

  Sorted-IsTop :
      (R : ProcSample F → ProcSample F → Type 0) (files : ProcFiles) (n : ℕ)
      (samples sorted : List (ProcSample F))
      → Permᴰ samples sorted
      → Sorted R sorted
      → n ≤ length sorted
      → IsTop R files n samples (map (entry_of files) (take n sorted))
  Sorted-IsTop R files n samples sorted perm s h =
      let (top, rest, parts, len) = split n sorted h in
      record {
        top = top;
        rest = rest;
        all_there = subst (Permᴰ samples) parts perm;
        listed =
            ap (λ l. map (entry_of files) (take n l)) parts
            ∙ ap (map (entry_of files)) (take-front top rest n len);
        counted = len;
        above = Sorted-split R top rest (subst (Sorted R) parts s);
      }

  module _ (laws : IsOrdered F) where
    conclude_lists :
        (files : ProcFiles) (ctx : ProcContext F) (total_ticks : ℕ) (s : ProcSample F)
        (samples : List (ProcSample F))
        → All IsLive (s ∷ samples)
        → let (status, ctx', out) = conclude files ctx total_ticks (s ∷ samples) in
          (status ≡ ok)
          × (out.valid_entry_count ≡ copy_count ctx (length (s ∷ samples)))
          × IsTop Busier files out.valid_entry_count (s ∷ samples) out.entries
          × IsTop Larger files out.valid_entry_count (s ∷ samples) out.top_rss_entries
    unfolding conclude copy_count
    conclude_lists files ctx total_ticks s samples lives =
        let all = s ∷ samples in
        let by_cpu = qsort compare_samples_by_cpu all in
        let by_rss = qsort compare_samples_by_rss by_cpu in
        let n = copy_count ctx (length all) in
        let few : n ≤ length all = ground arith in
        let cpu_len = length-qsort compare_samples_by_cpu all in
        let rss_len = length-qsort compare_samples_by_rss by_cpu in
        let perm = qsort-Permᴰ compare_samples_by_cpu all in
        (
          refl,
          refl,
          Sorted-IsTop Busier files n all by_cpu perm (by_cpu-Sorted laws all lives)
              (omega (arith, few, cpu_len)),
          Sorted-IsTop Larger files n all by_rss
              (Permᴰ.trans perm (qsort-Permᴰ compare_samples_by_rss by_cpu))
              (by_rss-Sorted laws by_cpu (All-qsort IsLive compare_samples_by_cpu all lives))
              (omega (arith, few, cpu_len, rss_len)),
        )

    -- both tables of an outcome
    abbrev Lists :
        ProcFiles
        → ProcContext F
        → List (ProcSample F)
        → Status × ProcContext F × ProcSnapshot F
        → Type 0
    Lists files ctx samples (status, ctx', out) =
        (status ≡ ok)
        × (out.valid_entry_count ≡ min (min (length samples) ctx.top_processes_limit) 10)
        × (out.valid_rss_count ≡ out.valid_entry_count)
        × IsTop Busier files out.valid_entry_count samples out.entries
        × IsTop Larger files out.valid_entry_count samples out.top_rss_entries

    collects :
        (files : ProcFiles) (ctx : ProcContext F) (names : List Bytes)
        → files.allocated ≡ true
        → files.names ≡ some names
        → proc_collect_snapshot files ctx
          ≡ conclude files ctx
              (read_total_system_ticks files.cpu_lines)
              (samples_of files ctx names)
    unfolding proc_collect_snapshot
    collects files ctx names room dir =
        ap (λ b. if b then collect files ctx files.names else (err_alloc_failed, ctx, no_procs))
          room
        ∙ ap (collect files ctx) dir

    lists :
        (files : ProcFiles) (ctx : ProcContext F) (total_ticks : ℕ) (samples : List (ProcSample F))
        → All IsLive samples
        → 0 < length samples
        → Lists files ctx samples (conclude files ctx total_ticks samples)
    unfolding conclude copy_count
    lists files ctx total_ticks [] lives h = absurd (omega arith)
    lists files ctx total_ticks (s ∷ samples) lives h =
        let (status, count, by_cpu, by_rss) =
          conclude_lists files ctx total_ticks s samples lives in
        (status, ground arith, refl, by_cpu, by_rss)

    -- A round that finds a process, all of whose usages are numbers: it succeeds, and lists in both
    -- tables the minimum of the number of samples, of the limit and of 10. Each table has the
    -- samples of a part of the scan, the top: no sample that is left out of the first one has a
    -- higher CPU usage than one that is listed, and none that is left out of the second one has
    -- more resident memory. It needs the laws of the order of doubles.
    pub proc_collect_snapshot-IsTop :
        (files : ProcFiles) (ctx : ProcContext F) (names : List Bytes)
        → files.allocated ≡ true
        → files.names ≡ some names
        → let samples = samples_of files ctx names in
          All IsLive samples
          → 0 < length samples
          → let (status, ctx', out) = proc_collect_snapshot files ctx in
            (status ≡ ok)
            × (out.valid_entry_count ≡ min (min (length samples) ctx.top_processes_limit) 10)
            × (out.valid_rss_count ≡ out.valid_entry_count)
            × IsTop Busier files out.valid_entry_count samples out.entries
            × IsTop Larger files out.valid_entry_count samples out.top_rss_entries
    proc_collect_snapshot-IsTop files ctx names room dir lives some_sample =
        let total = read_total_system_ticks files.cpu_lines in
        let samples = samples_of files ctx names in
        subst (Lists files ctx samples) (sym (collects files ctx names room dir))
          (lists files ctx total samples lives some_sample)
