-- ===== src/Anomaly/Cooldown/Recording.antt =====
-- `cooldown_record`: the new time of the key, and which other key a full table forgets.
use spiketrace.Prelude.{
  ℕ, ◌≤◌, ◌<◌, ◌≡◌, ◌≢◌, ◌⊎◌, inl, inr, none, some, [], ◌∷◌, ◌++◌, arith, leb, length, get_or, set,
  Bool-cases, Option-cases, length-set, length-append,
}
use spiketrace.Prelude.Int.{ℤ, eqb_ℤ, eqb_ℤ_iff, eqb_ℤ_refl}
use spiketrace.Anomaly.Types.{Table}
use spiketrace.Anomaly.Cooldown.{table_size, no_entry, entry, cooldown_record, oldest}
use spiketrace.Anomaly.Cooldown.Lookup.{
  lookup, IsDistinct, position, find-none, find-some, get_or-position,
}
use spiketrace.Anomaly.Cooldown.Oldest.{IsOldest, IsOldest-le, oldest_lem}
use spiketrace.Anomaly.Cooldown.Writes.{
  lookup-set, IsDistinct-set, lookup-refresh, IsDistinct-refresh, lookup-append, IsDistinct-append,
  lookup-victim,
}

-- what `cooldown_record` makes of a table
pub record Recorded (t : Table) (key : ℤ) (ts : ℕ) (t' : Table) : Type 0 where
  pub distinct : IsDistinct t'
  pub bounded : length t ≤ table_size → length t' ≤ table_size
  pub own : lookup key t' ≡ some ts
  pub kept :
      (lookup key t ≢ none) ⊎ (length t < table_size) → (j : ℤ) → j ≢ key → lookup j t' ≡ lookup j t
  pub forgotten :
      (j : ℤ) (old : ℕ)
      → j ≢ key
      → lookup j t ≡ some old
      → (lookup j t' ≡ some old) ⊎ ((lookup j t' ≡ none) × IsOldest old t)

record_full :
    (t : Table) (key : ℤ) (ts : ℕ)
    → IsDistinct t
    → lookup key t ≡ none
    → table_size ≤ length t
    → Recorded t key ts (set t (oldest t) (entry key ts))
record_full [] key ts d absent full = absurd (omega arith)
record_full (e ∷ es) key ts d absent full =
    let t = e ∷ es in
    let (lt, o) = oldest_lem e es in
    let victim = get_or t (oldest t) no_entry in
    record {
      distinct = IsDistinct-set t (oldest t) (entry key ts) d lt absent;
      bounded = λ le. omega (arith, length-set t (oldest t) (entry key ts));
      own = ground (arith, lookup-set t (oldest t) (entry key ts) key d lt absent, eqb_ℤ_refl key);
      kept = λ space j ne. elim space [
        | inl present ↦ absurd (present absent)
        | inr room ↦ absurd (omega arith)
      ];
      forgotten = λ j old ne h. elim (Bool-cases (eqb_ℤ victim.scope_key j)) [
        | inl same ↦
            let at : victim.scope_key ≡ j = (eqb_ℤ_iff victim.scope_key j).0 same in
            inr (
              ground (
                arith,
                lookup-set t (oldest t) (entry key ts) j d lt absent,
                same,
                eqb_ℤ_iff key j,
              ),
              IsOldest-le old victim.last_trigger_ns t
                  (ground (arith, lookup-victim t (oldest t) old d lt (rw at h))) o,
            )
        | inr other ↦ inl (
            ground
              (arith, lookup-set t (oldest t) (entry key ts) j d lt absent, other, eqb_ℤ_iff key j))
      ];
    }

record-eq-set :
    (t : Table) (key : ℤ) (ts : ℕ)
    → lookup key t ≡ none
    → table_size ≤ length t
    → cooldown_record t key ts ≡ set t (oldest t) (entry key ts)
unfolding cooldown_record
record-eq-set t key ts absent full = ground (arith, find-none key t absent)

record-eq-append :
    (t : Table) (key : ℤ) (ts : ℕ)
    → lookup key t ≡ none
    → length t < table_size
    → cooldown_record t key ts ≡ t ++ entry key ts ∷ []
unfolding cooldown_record
record-eq-append t key ts absent room = ground (arith, find-none key t absent)

record-eq-refresh :
    (t : Table) (key : ℤ) (ts old : ℕ)
    → lookup key t ≡ some old
    → cooldown_record t key ts ≡ set t (position key t) (entry key ts)
unfolding cooldown_record
record-eq-refresh t key ts old found =
    ground (arith, find-some key t old found, get_or-position key t old found)

pub cooldown_record-Recorded :
    (t : Table) (key : ℤ) (ts : ℕ) → IsDistinct t → Recorded t key ts (cooldown_record t key ts)
cooldown_record-Recorded t key ts d = elim (Option-cases (lookup key t)) [
  | inl absent ↦ elim (Bool-cases (leb table_size (length t))) [
    | inl full ↦
        let le : table_size ≤ length t = ground arith in
        rw (record-eq-set t key ts absent le) (record_full t key ts d absent le)
    | inr room ↦
        let small : length t < table_size = ground arith in
        rw (record-eq-append t key ts absent small) (record {
          distinct = IsDistinct-append t key ts d absent;
          bounded = λ _. omega (arith, length-append t (entry key ts ∷ []));
          own = ground (arith, lookup-append t key ts key absent, eqb_ℤ_refl key);
          kept = λ _ j ne. ground (arith, lookup-append t key ts j absent, eqb_ℤ_iff key j);
          forgotten =
              λ j old ne h. inl (ground (arith, lookup-append t key ts j absent, eqb_ℤ_iff key j));
        })
  ]
  | inr (old, found) ↦ rw (record-eq-refresh t key ts old found) (record {
    distinct = IsDistinct-refresh t key old ts d found;
    bounded = λ le. omega (arith, length-set t (position key t) (entry key ts));
    own = ground (arith, lookup-refresh t key old ts key found, eqb_ℤ_refl key);
    kept = λ _ j ne. ground (arith, lookup-refresh t key old ts j found, eqb_ℤ_iff key j);
    forgotten =
        λ j o ne h. inl (ground (arith, lookup-refresh t key old ts j found, eqb_ℤ_iff key j));
  })
]
