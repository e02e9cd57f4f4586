-- ===== src/Dump/Atomic/Whole.antt =====
-- `write_atomic` leaves the old file or the whole new one, also if it is cut short.
use spiketrace.Prelude.{
  ℕ, zero, suc, ◌+◌, ◌≡◌, ◌≢◌, refl, sym, ap, ◌∙◌, subst, ◌⊎◌, inl, inr, Bool, true, false, Option,
  none, some, List, [], ◌∷◌, ◌++◌, arith, leb, if◌then◌else◌, length, take, take-all, Bytes, str_eq,
  str_eq-eq, str_eq_refl, Bool-cases, Option-cases,
}
use spiketrace.Status.{Status, ok, is_ok, is_ok-eq}
use spiketrace.Dump.Atomic.{
  Files, Change, change, run, Answers, write_loop, outcome, last_change, write_atomic,
}
use spiketrace.Dump.Atomic.Loop.{
  Only, Only-cons, Writing, write_loop-Writing, run-append, str_eq_ne,
}

take-last :
    (k : ℕ) (cs : List Change) (c : Change)
    → (take k (cs ++ c ∷ []) ≡ take k cs) ⊎ (take k (cs ++ c ∷ []) ≡ cs ++ c ∷ [])
take-last zero cs c = inl refl
take-last (suc zero) [] c = inr refl
take-last (suc (suc k)) [] c = inr refl
take-last (suc k) (d ∷ cs) c = elim (take-last k cs c) [
  | inl e ↦ inl (ap (◌∷◌ d) e)
  | inr e ↦ inr (ap (◌∷◌ d) e)
]

module _ (final_path content : Bytes) (files : Files) where
  -- one file is replaced, as a whole
  abbrev pub Saved : Files → Type 0
  Saved after = (p : Bytes) → after p ≡ (if str_eq p final_path then some content else files p)

  abbrev pub Same : Files → Type 0
  Same after = (p : Bytes) → after p ≡ files p

  -- the old content or the new one
  abbrev pub Sound : Option Bytes → Type 0
  Sound now = (now ≡ files final_path) ⊎ (now ≡ some content)

  -- what holds of the outcome and the changes
  abbrev pub IsAtomic : Status → List Change → Type 0
  IsAtomic s cs =
      ((k : ℕ) → Sound (run (take k cs) files final_path))
      × (((s ≡ ok) × Saved (run cs files)) ⊎ ((s ≢ ok) × Same (run cs files)))

module _ (final_path content temp : Bytes) (files : Files) (fresh : files temp ≡ none)
    (apart : temp ≢ final_path) where
  renamed-Saved :
      (mid : Files)
      → mid temp ≡ some content
      → ((p : Bytes) → p ≢ temp → mid p ≡ files p)
      → Saved final_path content files (change (Change.renamed temp final_path) mid)
  unfolding change
  renamed-Saved mid written kept p = elim (Bool-cases (str_eq p temp)) [
    | inl at_temp ↦
        let e = str_eq-eq p temp at_temp in
        let other : str_eq p final_path ≡ false =
          ap (λ q. str_eq q final_path) e ∙ str_eq_ne temp final_path apart in
        rw at_temp (rw other (sym (ap files e ∙ fresh)))
    | inr not_temp ↦
        let ne : p ≢ temp = λ e. ground (arith, ap (λ q. str_eq q temp) e, str_eq_refl temp) in
        rw not_temp (elim (Bool-cases (str_eq p final_path)) [
          | inl here ↦ rw here written
          | inr there ↦ rw there (kept p ne)
        ])
  ]

  unlinked-Same :
      (mid : Files)
      → ((p : Bytes) → p ≢ temp → mid p ≡ files p)
      → Same final_path content files (change (Change.unlinked temp) mid)
  unfolding change
  unlinked-Same mid kept p = elim (Bool-cases (str_eq p temp)) [
    | inl at_temp ↦ rw at_temp (sym (ap files (str_eq-eq p temp at_temp) ∙ fresh))
    | inr not_temp ↦
        let ne : p ≢ temp = λ e. ground (arith, ap (λ q. str_eq q temp) e, str_eq_refl temp) in
        rw not_temp (kept p ne)
  ]

  Only-created : (ws : List Change) → Only temp ws → Only temp (Change.created temp ∷ ws)
  unfolding change
  Only-created ws h =
      Only-cons temp (Change.created temp) ws
        (λ files' p ne. let other = str_eq_ne p temp ne in rw other refl) h

  created-temp : change (Change.created temp) files temp ≡ some []
  unfolding change
  created-temp = rw (str_eq_refl temp) refl

  conclude-IsAtomic :
      (answers : Answers) (fine : Bool) (ws : List Change)
      → Writing temp content fine ws
      → let s = outcome answers fine in
        IsAtomic final_path content files s
          (Change.created temp ∷ (ws ++ last_change s temp final_path ∷ []))
  unfolding run
  conclude-IsAtomic answers fine ws w =
      let s = outcome answers fine in
      let front = Change.created temp ∷ ws in
      let last = last_change s temp final_path in
      let only = Only-created ws w.only in
      let mid = run front files in
      let kept : (p : Bytes) → p ≢ temp → mid p ≡ files p = λ p ne.
        ap (λ cs. run cs files p) (sym (take-all (length front) front (omega arith)))
        ∙ only (length front) files p ne in
      let end_state : run (front ++ last ∷ []) files ≡ change last mid =
        run-append front (last ∷ []) files in
      let finish : ((s ≡ ok) × Saved final_path content files (change last mid))
          ⊎ ((s ≢ ok) × Same final_path content files (change last mid)) =
        elim (Bool-cases (is_ok s)) [
          | inl good ↦
              let fine_true : fine ≡ true = ground arith in
              let written =
                w.whole fine_true (change (Change.created temp) files) [] created-temp in
              inl (is_ok-eq s good, rw good (renamed-Saved mid written kept))
          | inr bad ↦ inr (λ e. ground (arith, ap is_ok e), rw bad (unlinked-Same mid kept))
        ] in
      let sound_end : Sound final_path content files (change last mid final_path) = elim finish [
        | inl (_, saved) ↦ inr (saved final_path ∙ rw (str_eq_refl final_path) refl)
        | inr (_, same) ↦ inl (same final_path)
      ] in
      (
        λ k. elim (take-last k front last) [
          | inl e ↦
              inl (
                ap (λ cs. run cs files final_path) e ∙ only k files final_path (λ x. apart (sym x)))
          | inr e ↦
              subst (Sound final_path content files)
                (sym (ap (λ cs. run cs files final_path) e ∙ ap (λ fs. fs final_path) end_state))
                sound_end
        ],
        subst
            (λ after.
              ((s ≡ ok) × Saved final_path content files after)
              ⊎ ((s ≢ ok) × Same final_path content files after))
            (sym end_state) finish,
      )

take_nil : (k : ℕ) → take {A = Change} k [] ≡ []
take_nil zero = refl
take_nil (suc k) = refl

pub nothing_done :
    (files : Files) (final_path content : Bytes) (s : Status)
    → s ≢ ok
    → IsAtomic final_path content files s []
unfolding run
nothing_done files final_path content s bad =
    (λ k. inl (ap (λ cs. run cs files final_path) (take_nil k)), inr (bad, λ p. refl))

pub write_atomic-IsAtomic :
    (final_path content : Bytes) (answers : Answers) (files : Files) (s : Status) (cs : List Change)
    → ((temp : Bytes) → answers.temp_path ≡ some temp → (files temp ≡ none) × (temp ≢ final_path))
    → write_atomic final_path content answers ≡ some (s, cs)
    → IsAtomic final_path content files s cs
unfolding write_atomic
write_atomic-IsAtomic final_path content answers files s cs new e =
    elim (Bool-cases (leb 272 (length final_path + 7))) [
      | inl long ↦
          let (bad, none_done) : (s ≢ ok) × (cs ≡ []) = (ground arith, ground arith) in
          rw none_done (nothing_done files final_path content s bad)
      | inr short ↦ elim (Option-cases answers.temp_path) [
        | inl refused ↦
            let (bad, none_done) : (s ≢ ok) × (cs ≡ []) = (ground arith, ground arith) in
            rw none_done (nothing_done files final_path content s bad)
        | inr (temp, made) ↦
            let (fresh, apart) = new temp made in
            elim (Option-cases (write_loop temp answers.writes content)) [
              | inl busy ↦ absurd (ground arith)
              | inr ((fine, ws), loop) ↦
                  let w = write_loop-Writing temp answers.writes content fine ws loop in
                  let status : outcome answers fine ≡ s = ground arith in
                  let changes : Change.created temp
                        ∷ (ws ++ last_change (outcome answers fine) temp final_path ∷ [])
                      ≡ cs =
                    ground arith in
                  subst (λ cs'. IsAtomic final_path content files s cs') changes
                    (subst
                      (λ s'. IsAtomic final_path content files s' (
                        Change.created temp
                        ∷ (ws ++ last_change (outcome answers fine) temp final_path ∷ [])))
                      status
                      (conclude-IsAtomic final_path content temp files fresh apart answers fine ws
                        w))
            ]
      ]
    ]
