-- ===== src/Anomaly/Cooldown/Lookup.antt =====
-- The table of cooldowns as a map from scope keys to the times of their last triggers.
use spiketrace.Prelude.{
  ℕ, suc, ◌+◌, ◌-◌, ◌<◌, ◌≡◌, refl, Bool, false, Option, none, some, [], ◌∷◌, ◌||◌, arith, ltb, leb,
  if◌then◌else◌, length, get_or,
}
use spiketrace.Prelude.Int.{ℤ, eqb_ℤ, eqb_ℤ_iff}
use spiketrace.Anomaly.Types.{Table}
use spiketrace.Anomaly.Cooldown.{no_entry, entry, find_from, cooldown_find}

unfoldable pub lookup : ℤ → Table → Option ℕ
lookup key [] = none
lookup key (e ∷ es) = if eqb_ℤ e.scope_key key then some e.last_trigger_ns else lookup key es

-- No key stands in the table twice.
abbrev pub IsDistinct : Table → Type 0
IsDistinct [] = Unit {0}
IsDistinct (e ∷ es) = (lookup e.scope_key es ≡ none) × IsDistinct es

-- Whether a trigger at time `last`, if there was one, still holds the key back at `now`.
unfoldable pub holds_back : Option ℕ → ℕ → ℕ → Bool
holds_back none now cooldown = false
holds_back (some last) now cooldown = leb now last || ltb (now - last) cooldown

-- The index that `cooldown_find` returns for a key that the table holds.
unfoldable pub position : ℤ → Table → ℕ
position key [] = 0
position key (e ∷ es) = if eqb_ℤ e.scope_key key then 0 else suc (position key es)

find_from-none : (key : ℤ) (t : Table) (i : ℕ) → lookup key t ≡ none → find_from key t i ≡ none
unfolding find_from lookup
find_from-none key [] i h = refl
find_from-none key (e ∷ es) i h = ground (arith, find_from-none key es (suc i))

find_from-some :
    (key : ℤ) (t : Table) (i ts : ℕ)
    → lookup key t ≡ some ts
    → find_from key t i ≡ some (i + position key t)
unfolding find_from lookup position
find_from-some key [] i ts h = ground arith
find_from-some key (e ∷ es) i ts h = ground (arith, find_from-some key es (suc i) ts)

pub find-none : (key : ℤ) (t : Table) → lookup key t ≡ none → cooldown_find t key ≡ none
unfolding cooldown_find
find-none key t h = find_from-none key t 0 h

pub find-some :
    (key : ℤ) (t : Table) (ts : ℕ)
    → lookup key t ≡ some ts
    → cooldown_find t key ≡ some (position key t)
unfolding cooldown_find
find-some key t ts h = ground (arith, find_from-some key t 0 ts h)

-- The entry at that index, and its bound.
pub get_or-position :
    (key : ℤ) (t : Table) (ts : ℕ)
    → lookup key t ≡ some ts
    → (get_or t (position key t) no_entry ≡ entry key ts) × (position key t < length t)
unfolding lookup position
get_or-position key [] ts h = ground arith
get_or-position key (e ∷ es) ts h =
    ground (arith, eqb_ℤ_iff e.scope_key key, get_or-position key es ts)
