-- ===== src/Sampler/Builder/Sizes.antt =====
-- What a reading of /proc leaves as it is: the size of the array, the limit of the context.
use spiketrace.Prelude.{
  ℕ, ◌≡◌, refl, ◌∙◌, Option, none, some, List, [], ◌∷◌, leb, ◌==◌, length, length-set, Bytes, codes,
  Bool-cases, inl, inr,
}
use spiketrace.Double.{Double}
use spiketrace.Config.Path.{starts_with}
use spiketrace.Snapshot.{ProcSample}
use spiketrace.Sampler.Jiffies.{
  Jiffies, parse_cpu_line, label_index, store_line, read_line, read_lines, cpu_read_jiffies,
}
use spiketrace.Sampler.Scan.{scan_word}
use spiketrace.Sampler.Processes.Samples.{ProcContext}
use spiketrace.Sampler.Processes.Collect.Cases.{proc_collect_snapshot_cases}
use spiketrace.Sampler.Processes.Collect.{
  ProcFiles, conclude, samples_of, read_total_system_ticks, proc_collect_snapshot,
}

-- a reading keeps the size of the array
length-store_line :
    (max : ℕ) (line : Bytes) (o : Option ℕ) (js : List Jiffies) (parsed : ℕ)
    → length (store_line max line o (js, parsed)).0 ≡ length js
length-store_line max line none js parsed = refl
length-store_line max line (some idx) js parsed = elim (Bool-cases (leb max idx)) [
  | inl out ↦ rw out refl
  | inr inside ↦ rw inside (length-set js idx (parse_cpu_line line).1)
]

length-read_lines :
    (max : ℕ) (lines : List Bytes) (js : List Jiffies) (parsed : ℕ)
    → length (read_lines max lines (js, parsed)).0 ≡ length js
unfolding read_lines read_line
length-read_lines max [] js parsed = refl
length-read_lines max (line ∷ lines) js parsed =
    let (js', parsed') = read_line max line (js, parsed) in
    elim (Bool-cases (starts_with line (codes "cpu"))) [
      | inl cpu ↦ rw cpu (
          length-read_lines max lines js' parsed'
          ∙ length-store_line max line (label_index (scan_word 7 line)) js parsed)
      | inr behind ↦ rw behind refl
    ]

pub length-cpu_read_jiffies :
    (file : Option (List Bytes)) (max : ℕ) (js : List Jiffies)
    → length (cpu_read_jiffies file max js).1 ≡ length js
unfolding cpu_read_jiffies
length-cpu_read_jiffies none max js = elim (Bool-cases (max == 0)) [
  | inl h ↦ rw h refl
  | inr h ↦ rw h refl
]
length-cpu_read_jiffies (some lines) max js = elim (Bool-cases (max == 0)) [
  | inl h ↦ rw h refl
  | inr h ↦ rw h (length-read_lines max lines js 0)
]

module _ {F : Type 0} ⦃d : Double F⦄ where
  limit-conclude :
      (files : ProcFiles) (ctx : ProcContext F) (total : ℕ) (samples : List (ProcSample F))
      → (conclude files ctx total samples).1.top_processes_limit ≡ ctx.top_processes_limit
  unfolding conclude
  limit-conclude files ctx total [] = refl
  limit-conclude files ctx total (s ∷ samples) = refl

  pub limit-proc_collect_snapshot :
      (files : ProcFiles) (ctx : ProcContext F)
      → (proc_collect_snapshot files ctx).1.top_processes_limit ≡ ctx.top_processes_limit
  limit-proc_collect_snapshot files ctx =
      proc_collect_snapshot_cases (λ r. r.1.top_processes_limit ≡ ctx.top_processes_limit) files ctx
        refl refl
        (λ names.
          limit-conclude files ctx (read_total_system_ticks files.cpu_lines)
            (samples_of files ctx names))
