-- ===== src/Anomaly/Cooldown/Oldest.antt =====
-- The entry that `cooldown_record` gives up when the table is full.
use spiketrace.Prelude.{
  ℕ, suc, ◌+◌, ◌≤◌, ◌<◌, ◌≡◌, refl, sym, subst, ◌⊎◌, inl, inr, [], ◌∷◌, arith, ltb, if◌then◌else◌,
  length, get_or, All, Bool-cases,
}
use spiketrace.Anomaly.Types.{CooldownEntry, Table}
use spiketrace.Anomaly.Cooldown.{no_entry, oldest, oldest_from}

abbrev pub IsOldest : ℕ → Table → Type 0
IsOldest ts t = All (λ e. ts ≤ e.last_trigger_ns) t

pub IsOldest-le : (a b : ℕ) (t : Table) → a ≤ b → IsOldest b t → IsOldest a t
IsOldest-le a b [] h o = tt
IsOldest-le a b (e ∷ es) h (p, o) = (omega arith, IsOldest-le a b es h o)

-- What the loop has found: the index that it started with, or a later entry that is older.
abbrev Found : Table → ℕ → ℕ → ℕ → ℕ → Type 0
Found es i idx ts r =
    ((r ≡ idx) × IsOldest ts es)
    ⊎ ((k : ℕ) × (r ≡ i + k)
        × (k < length es)
        × ((get_or es k no_entry).last_trigger_ns ≤ ts)
        × IsOldest (get_or es k no_entry).last_trigger_ns es)

Found-cons :
    (e : CooldownEntry) (es : Table) (i idx ts r : ℕ)
    → Found es
        (suc i)
        (if ltb e.last_trigger_ns ts then i else idx)
        (if ltb e.last_trigger_ns ts then e.last_trigger_ns else ts)
        r
    → Found (e ∷ es) i idx ts r
Found-cons e es i idx ts r f = elim (Bool-cases (ltb e.last_trigger_ns ts)) [
  | inl older ↦ elim (rw older at f) [
    | inl (same, o) ↦ inr (0, omega arith, omega arith, ground arith, (omega arith, o))
    | inr (k, at, lt, le, o) ↦ inr (suc k, omega arith, omega arith, ground arith, (omega arith, o))
  ]
  | inr younger ↦ elim (rw younger at f) [
    | inl (same, o) ↦ inl (same, (ground arith, o))
    | inr (k, at, lt, le, o) ↦ inr (suc k, omega arith, omega arith, omega arith, (ground arith, o))
  ]
]

oldest_from-Found : (es : Table) (i idx ts : ℕ) → Found es i idx ts (oldest_from es i idx ts)
unfolding oldest_from
oldest_from-Found [] i idx ts = inl (refl, tt)
oldest_from-Found (e ∷ es) i idx ts =
    let older = ltb e.last_trigger_ns ts in
    Found-cons e es i idx ts _ (
      oldest_from-Found es (suc i) (if older then i else idx)
        (if older then e.last_trigger_ns else ts))

Found-IsOldest :
    (e : CooldownEntry) (es : Table) (r : ℕ)
    → Found es 1 0 e.last_trigger_ns r
    → let t = e ∷ es in (r < length t) × IsOldest (get_or t r no_entry).last_trigger_ns t
Found-IsOldest e es r (inl (same, o)) =
    subst
      (λ x. (x < length (e ∷ es)) × IsOldest (get_or (e ∷ es) x no_entry).last_trigger_ns (e ∷ es))
      (sym same) (omega arith, (omega arith, o))
Found-IsOldest e es r (inr (k, at, lt, le, o)) =
    let next : suc k ≡ r = omega arith in
    subst
      (λ x. (x < length (e ∷ es)) × IsOldest (get_or (e ∷ es) x no_entry).last_trigger_ns (e ∷ es))
      next (omega arith, (le, o))

-- The loop picks an entry of the table, and none is older.
pub oldest_lem :
    (e : CooldownEntry) (es : Table)
    → let t = e ∷ es in
      (oldest t < length t) × IsOldest (get_or t (oldest t) no_entry).last_trigger_ns t
unfolding oldest
oldest_lem e es = Found-IsOldest e es _ (oldest_from-Found es 1 0 e.last_trigger_ns)
