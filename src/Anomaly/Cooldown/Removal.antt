-- ===== src/Anomaly/Cooldown/Removal.antt =====
-- `cooldown_is_active`: its answer, and what it leaves of the table.
use spiketrace.Prelude.{
  ℕ, ◌≤◌, ◌≡◌, ◌≢◌, refl, sym, inl, inr, Bool, true, false, none, some, arith, if◌then◌else◌,
  length, Bool-cases, Option-cases,
}
use spiketrace.Prelude.Int.{ℤ, eqb_ℤ_iff, eqb_ℤ_refl}
use spiketrace.Anomaly.Types.{Table}
use spiketrace.Anomaly.Cooldown.{cooldown_is_active}
use spiketrace.Anomaly.Cooldown.Lookup.{
  lookup, IsDistinct, holds_back, find-none, find-some, get_or-position,
}
use spiketrace.Anomaly.Cooldown.Drop.{
  drop_key, remove-drop_key, lookup-drop_key, IsDistinct-drop_key, length-drop_key,
}

-- What `cooldown_is_active` does, by the time that the table holds for the key.
cooldown_is_active-cases :
    (t : Table) (key : ℤ) (now cooldown : ℕ)
    → cooldown_is_active t key now cooldown ≡ (
        if holds_back (lookup key t) now cooldown
        then (true, t)
        else (false, elim (lookup key t) [ none ↦ t | some ts ↦ drop_key key t ]))
unfolding cooldown_is_active holds_back
cooldown_is_active-cases t key now cooldown = elim (Option-cases (lookup key t)) [
  | inl absent ↦ ground (arith, find-none key t absent)
  | inr (ts, found) ↦ ground (
    arith,
    find-some key t ts found,
    get_or-position key t ts found,
    remove-drop_key key t ts found,
  )
]

-- what `cooldown_is_active` answers and leaves
pub record Checked (t : Table) (key : ℤ) (now cooldown : ℕ) (out : Bool × Table) : Type 0 where
  pub answer : out.0 ≡ holds_back (lookup key t) now cooldown
  pub distinct : IsDistinct out.1
  pub bounded : length out.1 ≤ length t
  pub others : (j : ℤ) → j ≢ key → lookup j out.1 ≡ lookup j t
  pub own : lookup key out.1 ≡ (if out.0 then lookup key t else none)

-- `cooldown_is_active` on a table of distinct keys: the answer tells whether the key is held back
-- (it has a time that is not before now, or less than the cooldown ago); the table keeps its keys
-- distinct and does not grow; every other key keeps its time, and the key's own time stays if it
-- is held back and is gone otherwise.
pub cooldown_is_active-Checked :
    (t : Table) (key : ℤ) (now cooldown : ℕ)
    → IsDistinct t
    → Checked t key now cooldown (cooldown_is_active t key now cooldown)
unfolding holds_back
cooldown_is_active-Checked t key now cooldown d =
    rw (cooldown_is_active-cases t key now cooldown) (elim (Option-cases (lookup key t)) [
      | inl absent ↦ rw absent (record {
        answer = rw absent;
        distinct = d;
        bounded = omega arith;
        others = λ j ne. refl;
        own = absent;
      })
      | inr (ts, found) ↦ elim (Bool-cases (holds_back (lookup key t) now cooldown)) [
        | inl held ↦ rw held (record {
          answer = sym held;
          distinct = d;
          bounded = omega arith;
          others = λ j ne. refl;
          own = refl;
        })
        | inr free ↦
            rw (free, found)
              (record {
                answer = sym free;
                distinct = IsDistinct-drop_key key t ts d found;
                bounded = length-drop_key key t;
                others =
                    λ j ne. ground (arith, lookup-drop_key key t j ts d found, eqb_ℤ_iff key j);
                own = ground (arith, lookup-drop_key key t key ts d found, eqb_ℤ_refl key);
              })
      ]
    ])
