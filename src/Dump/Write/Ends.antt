-- ===== src/Dump/Write/Ends.antt =====
-- How `spike_dump_write` of src/spike_dump.c ends: saved and counted, or without an effect.
use spiketrace.Prelude.{
  ℕ, ◌+◌, ◌≡◌, ◌≢◌, refl, sym, ap, ◌∙◌, ◌⊎◌, inl, inr, false, Option, none, some, List, [], arith,
  if◌then◌else◌, take, Bytes, Bool-cases,
}
use spiketrace.Status.{Status, ok, is_ok, is_ok-eq}
use spiketrace.Dump.Atomic.{Files, Change, run, Answers, write_atomic}
use spiketrace.Dump.Atomic.Whole.{Saved, Same, Sound, nothing_done, write_atomic-IsAtomic}
use spiketrace.Dump.Write.{DumpContext, not_dumped, counted}

-- how a dump ends: saved and counted, or without an effect
abbrev pub Ends : DumpContext → Bytes → Bytes → Files → Status → DumpContext → List Change → Type 0
Ends ctx filepath text files s ctx' cs =
    ((k : ℕ) → Sound filepath text files (run (take k cs) files filepath))
    × (((s ≡ ok)
          × (ctx' ≡ record ctx { dump_count = ctx.dump_count + 1 })
          × Saved filepath text files (run cs files))
        ⊎ ((s ≢ ok) × (ctx' ≡ ctx) × Same filepath text files (run cs files)))

nothing_run : (files : Files) (p : Bytes) → run [] files p ≡ files p
unfolding run
nothing_run files p = refl

pub not_dumped-Ends :
    (ctx : DumpContext) (filepath text : Bytes) (files : Files) (e : Status) (s : Status)
    (ctx' : DumpContext) (cs : List Change)
    → e ≢ ok
    → not_dumped ctx e ≡ some (s, ctx', cs)
    → Ends ctx filepath text files s ctx' cs
not_dumped-Ends ctx filepath text files e s ctx' cs bad same =
    let (es, ectx, ecs) : (s ≡ e) × (ctx' ≡ ctx) × (cs ≡ []) =
      (ground arith, ground arith, ground arith) in
    let bad' : s ≢ ok = λ h. bad (sym es ∙ h) in
    let (sound, _) = nothing_done files filepath text s bad' in
    rw ecs (sound, inr (bad', ectx, λ p. nothing_run files p))

counted-inv :
    (ctx : DumpContext) (out : Option (Status × List Change)) (s : Status) (ctx' : DumpContext)
    (cs : List Change)
    → counted ctx out ≡ some (s, ctx', cs)
    → (out ≡ some (s, cs))
      × (ctx' ≡ (if is_ok s then record ctx { dump_count = ctx.dump_count + 1 } else ctx))
counted-inv ctx none s ctx' cs e = absurd (ground arith)
counted-inv ctx (some (s₀, cs₀)) s ctx' cs e =
    let same : s₀ ≡ s = ground arith in
    let changes : cs₀ ≡ cs = ground arith in
    let context : (if is_ok s₀ then record ctx { dump_count = ctx.dump_count + 1 } else ctx)
        ≡ ctx' =
      ground arith in
    (
      ap (λ a. some (a, cs₀)) same ∙ ap (λ b. some (s, b)) changes,
      sym context
          ∙ ap (λ a. if is_ok a then record ctx { dump_count = ctx.dump_count + 1 } else ctx) same,
    )

-- `mkstemp` makes a file that is new and not the final one
abbrev pub MakesNew : Answers → Files → Bytes → Type 0
MakesNew answers files filepath =
    (temp : Bytes) → answers.temp_path ≡ some temp → (files temp ≡ none) × (temp ≢ filepath)

pub written-Ends :
    (ctx : DumpContext) (filepath text : Bytes) (files : Files) (answers : Answers) (s : Status)
    (ctx' : DumpContext) (cs : List Change)
    → MakesNew answers files filepath
    → counted ctx (write_atomic filepath text answers) ≡ some (s, ctx', cs)
    → Ends ctx filepath text files s ctx' cs
written-Ends ctx filepath text files answers s ctx' cs new e =
    let (atomic, context) = counted-inv ctx (write_atomic filepath text answers) s ctx' cs e in
    let (sound, finish) = write_atomic-IsAtomic filepath text answers files s cs new atomic in
    (
      sound,
      elim finish [
        | inl (good, saved) ↦ inl (
          good,
          context
              ∙ ap (λ a. if is_ok a then record ctx { dump_count = ctx.dump_count + 1 } else ctx)
                  good,
          saved,
        )
        | inr (bad, same) ↦
            let no : is_ok s ≡ false = elim (Bool-cases (is_ok s)) [
              | inl yes_ok ↦ absurd (bad (is_ok-eq s yes_ok))
              | inr not_ok ↦ not_ok
            ] in
            inr (
              bad,
              context
                  ∙ ap (λ b. if b then record ctx { dump_count = ctx.dump_count + 1 } else ctx) no,
              same,
            )
      ],
    )
