-- ===== src/Json/Writes.antt =====
-- What a call on a writer appends, as long as there is room: the calculus of the proofs below.
use spiketrace.Prelude.{
  ℕ, ◌+◌, ◌*◌, ◌≤◌, ◌<◌, ◌≡◌, ◌≢◌, refl, sym, ap, ◌∙◌, subst, ◌⊎◌, inl, inr, Bool, true, false, [],
  ◌∷◌, ◌++◌, arith, leb, if◌then◌else◌, length, length-append, Bytes, Bool-cases,
}
use mathlib.Core.List.{append_assoc, append-nil}
use spiketrace.Status.{Status, ok, is_ok, is_ok-eq, err_json_overflow}
use spiketrace.Json.{
  max_size, Writer, Result, and_then, new_capacity, json_grow_buffer, json_append, json_append_char,
  json_maybe_comma, escape, append_bytes, json_append_escaped,
}

-- the capacities that doubling reaches from the default
abbrev pub IsStep : ℕ → Type 0
IsStep n = (n ≡ 65536) ⊎ (n ≡ 131072) ⊎ (n ≡ 262144) ⊎ (n ≡ 524288) ⊎ (n ≡ 1048576)

-- no error so far, and the text and its NUL are within the buffer
pub record IsGood (w : Writer) : Type 0 where
  pub clean : w.error ≡ false
  pub bounded : length w.text < w.capacity
  pub step : IsStep w.capacity

-- The call on a writer leads to a result in which, if it is a success, the writer is good and has
-- the string appended and the given comma flag; and it is one if memory lasts and the text stays
-- below the largest size.
pub record Writes (granted : ℕ → Bool) (w : Writer) (s : Bytes) (comma : Bool) (out : Result)
    : Type 0 where
  pub good : out.0 ≡ ok → IsGood out.1
  pub text : out.0 ≡ ok → out.1.text ≡ w.text ++ s
  pub flag : out.0 ≡ ok → out.1.needs_comma ≡ comma
  pub fits : ((n : ℕ) → granted n ≡ true) → length w.text + length s < max_size → out.0 ≡ ok

double-IsStep : (c : ℕ) → IsStep c → c < max_size → IsStep (c * 2) × (c * 2 ≤ max_size)
double-IsStep c (inl e) h = (inr (inl (omega arith)), omega arith)
double-IsStep c (inr (inl e)) h = (inr (inr (inl (omega arith))), omega arith)
double-IsStep c (inr (inr (inl e))) h = (inr (inr (inr (inl (omega arith)))), omega arith)
double-IsStep c (inr (inr (inr (inl e)))) h = (inr (inr (inr (inr (omega arith)))), omega arith)
double-IsStep c (inr (inr (inr (inr e)))) h = absurd (omega arith)

IsStep-ge : (c : ℕ) → IsStep c → 65536 ≤ c
IsStep-ge c h = omega arith

-- a short string finds its room by doubling
new_capacity_lem :
    (w : Writer) (m : ℕ)
    → IsGood w
    → m ≤ 31
    → w.capacity < max_size
    → new_capacity w m ≡ w.capacity * 2
new_capacity_lem w m g small below =
    let least = IsStep-ge w.capacity g.step in
    let most = (double-IsStep w.capacity g.step below).1 in let short = g.bounded in ground arith

-- the comma that is due
abbrev pub comma : Bool → Bytes
comma true = b',' ∷ []
comma false = []

-- a string as it is printed
unfoldable pub escaped : Bytes → Bytes
escaped [] = []
escaped (c ∷ cs) = escape c ++ escaped cs

abbrev pub quoted : Bytes → Bytes
quoted str = b'"' ∷ escaped str ++ b'"' ∷ []

length-escape : (c : ℕ) → length (escape c) ≤ 31
unfolding escape
length-escape c = ground arith

module _ (granted : ℕ → Bool) where
  pub as_flag :
      (w : Writer) (s : Bytes) (c : Bool) (out : Result)
      → w.needs_comma ≡ c
      → Writes granted w s w.needs_comma out
      → Writes granted w s c out
  as_flag w s c out e h = subst (λ x. Writes granted w s x out) e h

  fail-Writes :
      (w w' : Writer) (s : Bytes) (comma : Bool) (status : Status)
      → status ≢ ok
      → (((n : ℕ) → granted n ≡ true) → length w.text + length s < max_size → status ≡ ok)
      → Writes granted w s comma (status, w')
  fail-Writes w w' s comma status bad fits = record {
    good = λ e. absurd (bad e);
    text = λ e. absurd (bad e);
    flag = λ e. absurd (bad e);
    fits = fits;
  }

  -- a success with all it promises
  pub done-Writes :
      (w w' : Writer) (s : Bytes) (comma : Bool)
      → IsGood w'
      → w'.text ≡ w.text ++ s
      → w'.needs_comma ≡ comma
      → Writes granted w s comma (ok, w')
  done-Writes w w' s comma g t f = record {
    good = λ _. g;
    text = λ _. t;
    flag = λ _. f;
    fits = λ _ _. refl;
  }

  overflow-ne : err_json_overflow ≢ ok
  overflow-ne e = ground arith

  pub json_append-Writes :
      (s : Bytes) (w : Writer)
      → IsGood w
      → length s ≤ 31
      → Writes granted w s w.needs_comma (json_append granted s w)
  unfolding json_append json_grow_buffer
  json_append-Writes s w g small =
      let clean = g.clean in
      let grown = record w { capacity = new_capacity w (length s); text = w.text ++ s } in
      let simple = record w { text = w.text ++ s } in
      let failed = record w { error = true } in
      let Goal : Result → Type 0 = λ out. Writes granted w s w.needs_comma out in
      elim (Bool-cases (leb w.capacity (length w.text + length s))) [
        | inr room ↦
            let e : json_append granted s w ≡ (ok, simple) = ground arith in
            subst Goal (sym e) (
              done-Writes w simple s w.needs_comma
                (record {
                  clean = g.clean;
                  bounded = ground (arith, length-append w.text s);
                  step = g.step;
                })
                refl refl)
        | inl full ↦ elim (Bool-cases (leb max_size w.capacity)) [
          | inl most ↦
              let e : json_append granted s w ≡ (err_json_overflow, failed) = ground arith in
              subst Goal (sym e) (
                fail-Writes w failed s w.needs_comma err_json_overflow overflow-ne
                  (λ _ below. absurd (ground arith)))
          | inr below ↦ elim (Bool-cases (granted (new_capacity w (length s)))) [
            | inr refused ↦
                let e : json_append granted s w ≡ (err_json_overflow, failed) = ground arith in
                subst Goal (sym e) (
                  fail-Writes w failed s w.needs_comma err_json_overflow overflow-ne
                    (λ all _. absurd (ground (arith, all (new_capacity w (length s))))))
            | inl given ↦
                let less : w.capacity < max_size = ground arith in
                let double = new_capacity_lem w (length s) g small less in
                let step = double-IsStep w.capacity g.step less in
                let e : json_append granted s w ≡ (ok, grown) = ground arith in
                subst Goal (sym e) (
                  done-Writes w grown s w.needs_comma
                    (record {
                      clean = g.clean;
                      bounded = omega (
                        arith,
                        double,
                        length-append w.text s,
                        IsStep-ge w.capacity g.step,
                        g.bounded,
                      );
                      step = subst IsStep (sym double) step.0;
                    })
                    refl refl)
          ]
        ]
      ]

  -- one call behind another
  pub and_then-Writes :
      (w : Writer) (s t : Bytes) (c c' : Bool) (out : Result) (next : Writer → Result)
      → Writes granted w s c out
      → ((w' : Writer) → IsGood w' → w'.needs_comma ≡ c → Writes granted w' t c' (next w'))
      → Writes granted w (s ++ t) c' (and_then out next)
  unfolding and_then
  and_then-Writes w s t c c' out next first second = elim (Bool-cases (is_ok out.0)) [
    | inl fine ↦
        let e = is_ok-eq out.0 fine in
        let rest = second out.1 (first.good e) (first.flag e) in
        let joined = first.text e in
        rw fine (record {
          good = rest.good;
          text = λ h. rest.text h ∙ ap (λ x. x ++ t) joined ∙ append_assoc w.text s t;
          flag = rest.flag;
          fits = λ all below.
              rest.fits all
                (omega (arith, below, ap length joined, length-append w.text s, length-append s t));
        })
    | inr bad ↦
        let never : out.0 ≢ ok = λ e. ground (arith, ap is_ok e) in
        rw bad (record {
          good = λ e. absurd (never e);
          text = λ e. absurd (never e);
          flag = λ e. absurd (never e);
          fits = λ all below.
              absurd (never (first.fits all (omega (arith, below, length-append s t))));
        })
  ]

  maybe-Writes :
      (w : Writer) (b : Bool)
      → IsGood w
      → w.needs_comma ≡ b
      → Writes granted w (comma b) b (if b then json_append_char granted b',' w else (ok, w))
  maybe-Writes w true g e =
      as_flag w (comma true) true _ e (json_append-Writes (b',' ∷ []) w g (omega arith))
  maybe-Writes w false g e = done-Writes w w [] false g (sym (append-nil w.text)) e

  pub json_maybe_comma-Writes :
      (w : Writer)
      → IsGood w
      → Writes granted w (comma w.needs_comma) w.needs_comma (json_maybe_comma granted w)
  unfolding json_maybe_comma
  json_maybe_comma-Writes w g = maybe-Writes w w.needs_comma g refl

  append_bytes-Writes :
      (cs : Bytes) (w : Writer)
      → IsGood w
      → Writes granted w (escaped cs) w.needs_comma (append_bytes granted cs w)
  unfolding append_bytes escaped
  append_bytes-Writes [] w g = done-Writes w w [] w.needs_comma g (sym (append-nil w.text)) refl
  append_bytes-Writes (c ∷ cs) w g =
      and_then-Writes w (escape c) (escaped cs) w.needs_comma w.needs_comma
        (json_append granted (escape c) w) (append_bytes granted cs)
        (json_append-Writes (escape c) w g (length-escape c))
        (λ w' g' e. as_flag w' (escaped cs) w.needs_comma _ e (append_bytes-Writes cs w' g'))

  pub json_append_escaped-Writes :
      (str : Bytes) (w : Writer)
      → IsGood w
      → Writes granted w (quoted str) w.needs_comma (json_append_escaped granted str w)
  unfolding json_append_escaped
  json_append_escaped-Writes str w g =
      and_then-Writes w (b'"' ∷ []) (escaped str ++ b'"' ∷ []) w.needs_comma w.needs_comma
        (json_append_char granted b'"' w)
        (λ w₁. and_then (append_bytes granted str w₁) (json_append_char granted b'"'))
        (json_append-Writes (b'"' ∷ []) w g (omega arith))
        (λ w₁ g₁ e₁.
          and_then-Writes w₁ (escaped str) (b'"' ∷ []) w.needs_comma w.needs_comma
            (append_bytes granted str w₁) (json_append_char granted b'"')
            (as_flag w₁ (escaped str) w.needs_comma _ e₁ (append_bytes-Writes str w₁ g₁))
            (λ w₂ g₂ e₂.
              as_flag w₂ (b'"' ∷ []) w.needs_comma _ e₂
                (json_append-Writes (b'"' ∷ []) w₂ g₂ (omega arith))))
