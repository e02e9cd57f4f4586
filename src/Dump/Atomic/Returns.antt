-- ===== src/Dump/Atomic/Returns.antt =====
-- The loop of `write_atomic` ends, and the function succeeds if no call fails.
use spiketrace.Prelude.{
  ℕ, zero, suc, ◌+◌, ◌-◌, ◌<◌, ◌≡◌, ◌≢◌, refl, ap, ◌∙◌, subst, sym, Bool, true, false, Option, none,
  some, List, [], ◌∷◌, ◌++◌, arith, leb, length, take, drop, Bytes, Option-cases, inl, inr,
}
use spiketrace.Status.{ok}
use spiketrace.Dump.Atomic.{
  Change, Write, Answers, write_loop, behind, conclude, write_to, write_atomic,
}

-- these answers of `write` take `left` bytes, or one of them is an error
abbrev pub Suffices : List Write → ℕ → Type 0
Suffices [] left = left ≡ 0
Suffices (Write.wrote n ∷ answers) left = Suffices answers (left - n)
Suffices (Write.interrupted ∷ answers) left = Suffices answers left
Suffices (Write.failed ∷ answers) left = Unit {0}

-- none of them is an error
abbrev pub NoFailure : List Write → Type 0
NoFailure [] = Unit {0}
NoFailure (Write.wrote n ∷ answers) = NoFailure answers
NoFailure (Write.interrupted ∷ answers) = NoFailure answers
NoFailure (Write.failed ∷ answers) = ⊥

length-drop : (n : ℕ) (s : Bytes) → length (drop n s) ≡ length s - n
length-drop zero s = omega arith
length-drop (suc n) [] = omega arith
length-drop (suc n) (c ∷ s) = omega (arith, length-drop n s)

behind-ne : (c : Change) (rest : Option (Bool × List Change)) → rest ≢ none → behind c rest ≢ none
behind-ne c none h e = h refl
behind-ne c (some r) h e = ground arith

write_loop_ends :
    (temp : Bytes) (answers : List Write) (content : Bytes)
    → Suffices answers (length content)
    → write_loop temp answers content ≢ none
unfolding write_loop
write_loop_ends temp answers [] h = λ e. ground arith
write_loop_ends temp [] (c ∷ content) h = absurd (omega arith)
write_loop_ends temp (Write.failed ∷ answers) (c ∷ content) h = λ e. ground arith
write_loop_ends temp (Write.interrupted ∷ answers) (c ∷ content) h =
    write_loop_ends temp answers (c ∷ content) h
write_loop_ends temp (Write.wrote n ∷ answers) (c ∷ content) h =
    let rest = drop n (c ∷ content) in
    behind-ne _ _ (
      write_loop_ends temp answers rest
        (subst (Suffices answers) (sym (length-drop n (c ∷ content))) h))

write_loop_succeeds :
    (temp : Bytes) (answers : List Write) (content : Bytes)
    → NoFailure answers
    → Suffices answers (length content)
    → (cs : List Change) × (write_loop temp answers content ≡ some (true, cs))
unfolding write_loop
write_loop_succeeds temp answers [] fine h = ([], refl)
write_loop_succeeds temp [] (c ∷ content) fine h = absurd (omega arith)
write_loop_succeeds temp (Write.failed ∷ answers) (c ∷ content) fine h = absurd fine
write_loop_succeeds temp (Write.interrupted ∷ answers) (c ∷ content) fine h =
    write_loop_succeeds temp answers (c ∷ content) fine h
write_loop_succeeds temp (Write.wrote n ∷ answers) (c ∷ content) fine h =
    let here = Change.appended temp (take n (c ∷ content)) in
    let (cs, e) =
      write_loop_succeeds temp answers (drop n (c ∷ content)) fine
        (subst (Suffices answers) (sym (length-drop n (c ∷ content))) h) in
    (here ∷ cs, ap (behind here) e)

-- the calls that lead to a success
pub record AllWell (content : Bytes) (answers : Answers) : Type 0 where
  pub made : (temp : Bytes) × (answers.temp_path ≡ some temp)
  pub fine : NoFailure answers.writes
  pub enough : Suffices answers.writes (length content)
  pub synced : answers.synced ≡ true
  pub closed : answers.closed ≡ true
  pub moved : answers.moved ≡ true

pub write_atomic_succeeds :
    (final_path content : Bytes) (answers : Answers)
    → AllWell content answers
    → length final_path + 7 < 272
    → (cs : List Change) × (write_atomic final_path content answers ≡ some (ok, cs))
unfolding write_atomic
write_atomic_succeeds final_path content answers well short =
    let (temp, made) = well.made in
    let (ws, loop) = write_loop_succeeds temp answers.writes content well.fine well.enough in
    let fits : leb 272 (length final_path + 7) ≡ false = ground arith in
    (
      Change.created temp ∷ (ws ++ Change.renamed temp final_path ∷ []),
      rw fits (
          ap (write_to final_path content answers) made
          ∙ ap (conclude final_path answers temp) loop
          ∙ ground (arith, well.synced, well.closed, well.moved)),
    )

-- `write_atomic` returns once the calls of `write` have taken the content or one of them has failed:
-- interruptions and empty writes only delay it.
pub write_atomic_returns :
    (final_path content : Bytes) (answers : Answers)
    → Suffices answers.writes (length content)
    → write_atomic final_path content answers ≢ none
unfolding write_atomic
write_atomic_returns final_path content answers h e = elim (Option-cases answers.temp_path) [
  | inl refused ↦ ground arith
  | inr (temp, made) ↦ elim (Option-cases (write_loop temp answers.writes content)) [
    | inl busy ↦ write_loop_ends temp answers.writes content h busy
    | inr (result, loop) ↦ ground arith
  ]
]
