-- ===== src/Anomaly/Cooldown/Writes.antt =====
-- Lookups in a table after each of the three writes of `cooldown_record`.
use spiketrace.Prelude.{
  ℕ, zero, suc, ◌<◌, ◌≡◌, ◌≢◌, refl, inl, inr, none, some, [], ◌∷◌, ◌++◌, arith, if◌then◌else◌,
  length, get_or, set, Bool-cases,
}
use spiketrace.Prelude.Int.{ℤ, eqb_ℤ, eqb_ℤ_iff, eqb_ℤ_refl}
use spiketrace.Anomaly.Types.{CooldownEntry, Table}
use spiketrace.Anomaly.Cooldown.{no_entry, entry}
use spiketrace.Anomaly.Cooldown.Lookup.{lookup, IsDistinct, position}

pub lookup-get_or :
    (t : Table) (i : ℕ) → i < length t → lookup (get_or t i no_entry).scope_key t ≢ none
unfolding lookup
lookup-get_or [] i lt = absurd (omega arith)
lookup-get_or (f ∷ t) zero lt = ground (arith, eqb_ℤ_refl f.scope_key)
lookup-get_or (f ∷ t) (suc i) lt = ground (arith, lookup-get_or t i)

-- A write of a new key over the entry at index i.
pub lookup-set :
    (t : Table) (i : ℕ) (e : CooldownEntry) (j : ℤ)
    → IsDistinct t
    → i < length t
    → lookup e.scope_key t ≡ none
    → lookup j (set t i e) ≡ (
        if eqb_ℤ e.scope_key j
        then some e.last_trigger_ns
        else if eqb_ℤ (get_or t i no_entry).scope_key j
        then none
        else lookup j t)
unfolding lookup
lookup-set [] i e j d lt h = absurd (omega arith)
lookup-set (f ∷ t) zero e j (fresh, d) lt h = ground (arith, eqb_ℤ_iff f.scope_key j)
lookup-set (f ∷ t) (suc i) e j (fresh, d) lt h = ground (
  arith,
  lookup-set t i e j d,
  lookup-get_or t i,
  eqb_ℤ_iff f.scope_key e.scope_key,
  eqb_ℤ_iff f.scope_key j,
  eqb_ℤ_iff e.scope_key j,
  eqb_ℤ_iff (get_or t i no_entry).scope_key j,
)

pub IsDistinct-set :
    (t : Table) (i : ℕ) (e : CooldownEntry)
    → IsDistinct t
    → i < length t
    → lookup e.scope_key t ≡ none
    → IsDistinct (set t i e)
unfolding lookup
IsDistinct-set [] i e d lt h = tt
IsDistinct-set (f ∷ t) zero e (fresh, d) lt h = ground arith
IsDistinct-set (f ∷ t) (suc i) e (fresh, d) lt h = (
  ground (
    arith,
    lookup-set t i e f.scope_key d,
    eqb_ℤ_iff e.scope_key f.scope_key,
    eqb_ℤ_iff f.scope_key e.scope_key,
  ),
  IsDistinct-set t i e d (omega arith) (ground arith),
)

-- A new time for a key that the table holds.
pub lookup-refresh :
    (t : Table) (key : ℤ) (old ts : ℕ) (j : ℤ)
    → lookup key t ≡ some old
    → lookup j (set t (position key t) (entry key ts))
      ≡ (if eqb_ℤ key j then some ts else lookup j t)
unfolding lookup position
lookup-refresh [] key old ts j h = ground arith
lookup-refresh (e ∷ t) key old ts j h = ground (
  arith,
  lookup-refresh t key old ts j,
  eqb_ℤ_iff e.scope_key key,
  eqb_ℤ_iff e.scope_key j,
  eqb_ℤ_iff key j,
)

pub IsDistinct-refresh :
    (t : Table) (key : ℤ) (old ts : ℕ)
    → IsDistinct t
    → lookup key t ≡ some old
    → IsDistinct (set t (position key t) (entry key ts))
unfolding lookup position
IsDistinct-refresh [] key old ts d h = tt
IsDistinct-refresh (e ∷ t) key old ts (fresh, d) h = elim (Bool-cases (eqb_ℤ e.scope_key key)) [
  | inl same ↦ rw same (ground (arith, eqb_ℤ_iff e.scope_key key))
  | inr other ↦
      let h' : lookup key t ≡ some old = rw other at h in
      rw other (
        ground (
          arith,
          lookup-refresh t key old ts e.scope_key h',
          eqb_ℤ_iff key e.scope_key,
          eqb_ℤ_iff e.scope_key key,
        ),
        IsDistinct-refresh t key old ts d h',
      )
]

-- A new key behind the others.
pub lookup-append :
    (t : Table) (key : ℤ) (ts : ℕ) (j : ℤ)
    → lookup key t ≡ none
    → lookup j (t ++ entry key ts ∷ []) ≡ (if eqb_ℤ key j then some ts else lookup j t)
unfolding lookup
lookup-append [] key ts j h = refl
lookup-append (e ∷ t) key ts j h = ground (
  arith,
  lookup-append t key ts j,
  eqb_ℤ_iff e.scope_key key,
  eqb_ℤ_iff e.scope_key j,
  eqb_ℤ_iff key j,
)

pub IsDistinct-append :
    (t : Table) (key : ℤ) (ts : ℕ)
    → IsDistinct t
    → lookup key t ≡ none
    → IsDistinct (t ++ entry key ts ∷ [])
unfolding lookup
IsDistinct-append [] key ts d h = (refl, tt)
IsDistinct-append (e ∷ t) key ts (fresh, d) h = (
  ground (
    arith,
    lookup-append t key ts e.scope_key,
    eqb_ℤ_iff e.scope_key key,
    eqb_ℤ_iff key e.scope_key,
  ),
  IsDistinct-append t key ts d (ground arith),
)

-- A lookup in the table sees no time before that of an entry which none is older than.
pub lookup-victim :
    (t : Table) (i : ℕ) (old : ℕ)
    → IsDistinct t
    → i < length t
    → lookup (get_or t i no_entry).scope_key t ≡ some old
    → old ≡ (get_or t i no_entry).last_trigger_ns
unfolding lookup
lookup-victim [] i old d lt h = absurd (omega arith)
lookup-victim (e ∷ t) zero old d lt h = ground (arith, eqb_ℤ_refl e.scope_key)
lookup-victim (e ∷ t) (suc i) old (fresh, d) lt h = ground (
  arith,
  lookup-victim t i old d,
  lookup-get_or t i,
  eqb_ℤ_iff e.scope_key (get_or t i no_entry).scope_key,
)
