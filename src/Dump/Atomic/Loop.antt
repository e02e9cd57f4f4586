-- ===== src/Dump/Atomic/Loop.antt =====
-- What the loop of `write_atomic` in src/spike_dump.c does to the files.
use mathlib.Core.List.{append_assoc, append-nil}
use spiketrace.Prelude.{
  ℕ, zero, suc, ◌≡◌, ◌≢◌, refl, sym, ap, ◌∙◌, inl, inr, Bool, true, false, Option, none, some, List,
  [], ◌∷◌, ◌++◌, arith, take, drop, Bytes, str_eq, str_eq-eq, str_eq_refl, Bool-cases,
}
use spiketrace.Dump.Atomic.{Files, Change, change, run, Write, write_loop, behind}

pub str_eq_ne : (p q : Bytes) → p ≢ q → str_eq p q ≡ false
str_eq_ne p q h = elim (Bool-cases (str_eq p q)) [
  | inl same ↦ absurd (h (str_eq-eq p q same))
  | inr other ↦ other
]

take-drop : (n : ℕ) (s : Bytes) → take n s ++ drop n s ≡ s
take-drop zero s = refl
take-drop (suc n) [] = refl
take-drop (suc n) (c ∷ s) = ap (◌∷◌ c) (take-drop n s)

pub run-append :
    (cs ds : List Change) (files : Files) → run (cs ++ ds) files ≡ run ds (run cs files)
unfolding run
run-append [] ds files = refl
run-append (c ∷ cs) ds files = run-append cs ds (change c files)

-- the changes before the last touch the temporary file only
abbrev pub Only : Bytes → List Change → Type 0
Only temp cs = (k : ℕ) (files : Files) (p : Bytes) → p ≢ temp → run (take k cs) files p ≡ files p

Only-nil : (temp : Bytes) → Only temp []
unfolding run
Only-nil temp zero files p h = refl
Only-nil temp (suc k) files p h = refl

pub Only-cons :
    (temp : Bytes) (c : Change) (cs : List Change)
    → ((files : Files) (p : Bytes) → p ≢ temp → change c files p ≡ files p)
    → Only temp cs
    → Only temp (c ∷ cs)
unfolding run
Only-cons temp c cs first rest zero files p h = refl
Only-cons temp c cs first rest (suc k) files p h = rest k (change c files) p h ∙ first files p h

appended_other :
    (temp s : Bytes) (files : Files) (p : Bytes)
    → p ≢ temp
    → change (Change.appended temp s) files p ≡ files p
unfolding change
appended_other temp s files p h = rw (str_eq_ne p temp h) refl

appended_self :
    (temp s done : Bytes) (files : Files)
    → files temp ≡ some done
    → change (Change.appended temp s) files temp ≡ some (done ++ s)
unfolding change
appended_self temp s done files e = rw (str_eq_refl temp) (rw e refl)

-- what the loop appends is the content, if it says so
pub record Writing (temp content : Bytes) (fine : Bool) (cs : List Change) : Type 0 where
  pub only : Only temp cs
  pub whole :
      fine ≡ true
      → (files : Files) (done : Bytes) → files temp ≡ some done
      → run cs files temp ≡ some (done ++ content)

Writing-behind :
    (temp content : Bytes) (n : ℕ) (fine : Bool) (cs : List Change)
    → Writing temp (drop n content) fine cs
    → Writing temp content fine (Change.appended temp (take n content) ∷ cs)
unfolding run
Writing-behind temp content n fine cs rest = record {
  only =
      Only-cons temp (Change.appended temp (take n content)) cs
        (appended_other temp (take n content)) rest.only;
  whole = λ e files done h.
      rest.whole e (change (Change.appended temp (take n content)) files) (done ++ take n content)
        (appended_self temp (take n content) done files h)
      ∙ ap some (
          append_assoc done (take n content) (drop n content)
          ∙ ap (◌++◌ done) (take-drop n content));
}

behind-inv :
    (c : Change) (rest : Option (Bool × List Change)) (fine : Bool) (cs : List Change)
    → behind c rest ≡ some (fine, cs)
    → (cs' : List Change) × (rest ≡ some (fine, cs')) × (cs ≡ c ∷ cs')
behind-inv c none fine cs e = absurd (ground arith)
behind-inv c (some (f, cs')) fine cs e = (cs', ground arith, ground arith)

pub write_loop-Writing :
    (temp : Bytes) (answers : List Write) (content : Bytes) (fine : Bool) (cs : List Change)
    → write_loop temp answers content ≡ some (fine, cs)
    → Writing temp content fine cs
unfolding write_loop run
write_loop-Writing temp answers [] fine cs e =
    let none_left : cs ≡ [] = ground arith in
    rw none_left (record {
      only = Only-nil temp;
      whole = λ _ files done h. h ∙ ap some (sym (append-nil done));
    })
write_loop-Writing temp [] (c ∷ content) fine cs e = absurd (ground arith)
write_loop-Writing temp (Write.failed ∷ answers) (c ∷ content) fine cs e =
    let none_left : cs ≡ [] = ground arith in
    let bad : fine ≡ false = ground arith in
    rw none_left (record { only = Only-nil temp; whole = λ good. absurd (ground arith) })
write_loop-Writing temp (Write.interrupted ∷ answers) (c ∷ content) fine cs e =
    write_loop-Writing temp answers (c ∷ content) fine cs e
write_loop-Writing temp (Write.wrote n ∷ answers) (c ∷ content) fine cs e =
    let (cs', rest, same) =
      behind-inv (Change.appended temp (take n (c ∷ content)))
        (write_loop temp answers (drop n (c ∷ content))) fine cs e in
    rw same (
      Writing-behind temp (c ∷ content) n fine cs'
        (write_loop-Writing temp answers (drop n (c ∷ content)) fine cs' rest))
