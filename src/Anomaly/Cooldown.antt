-- ===== src/Anomaly/Cooldown.antt =====
-- The cooldown table: which scope keys triggered lately.
pub mod Lookup
pub mod Drop
pub mod Removal
pub mod Oldest
pub mod Writes
pub mod Recording
use spiketrace.Prelude.{
  ℕ, zero, suc, ◌-◌, Bool, true, false, Option, none, some, List, [], ◌∷◌, ◌++◌, ltb, leb,
  if◌then◌else◌, length, get_or, set, take,
}
use spiketrace.Prelude.Int.{ℤ, pos, eqb_ℤ}
use spiketrace.Anomaly.Types.{CooldownEntry, Table}

-- `ANOMALY_COOLDOWN_TABLE_SIZE`
abbrev pub table_size : ℕ
table_size = 64

abbrev pub entry : ℤ → ℕ → CooldownEntry
entry key ts = record { scope_key = key; last_trigger_ns = ts }

abbrev pub no_entry : CooldownEntry
no_entry = entry (pos 0) 0

-- the loop of `cooldown_find` from index i on; a pointer into the table is its index
unfoldable pub find_from : ℤ → Table → ℕ → Option ℕ
find_from key [] i = none
find_from key (e ∷ es) i = if eqb_ℤ e.scope_key key then some i else find_from key es (suc i)

unfoldable pub cooldown_find : Table → ℤ → Option ℕ
unfolding find_from
cooldown_find t key = find_from key t 0

-- an expired entry gives its place to the last one
unfoldable pub remove : Table → ℕ → Table
remove t i =
    let n = length t in take (n - 1) (if ltb 1 n then set t i (get_or t (n - 1) no_entry) else t)

unfoldable pub cooldown_is_active : Table → ℤ → ℕ → ℕ → Bool × Table
cooldown_is_active t key current_ns cooldown_ns = elim (cooldown_find t key) [
  | none ↦ (false, t)
  | some i ↦
      let last = (get_or t i no_entry).last_trigger_ns in
      if leb current_ns last
      then (true, t)
      else if ltb (current_ns - last) cooldown_ns
      then (true, t)
      else (false, remove t i)
]

-- the loop that looks for the oldest entry, at index i with `es` to go
unfoldable pub oldest_from : Table → ℕ → ℕ → ℕ → ℕ
oldest_from [] i oldest_idx oldest_ts = oldest_idx
oldest_from (e ∷ es) i oldest_idx oldest_ts =
    let older = ltb e.last_trigger_ns oldest_ts in
    oldest_from es (suc i) (if older then i else oldest_idx)
      (if older then e.last_trigger_ns else oldest_ts)

unfoldable pub oldest : Table → ℕ
unfolding oldest_from
oldest [] = 0
oldest (e ∷ es) = oldest_from es 1 0 e.last_trigger_ns

unfoldable pub cooldown_record : Table → ℤ → ℕ → Table
cooldown_record t key ts = elim (cooldown_find t key) [
  | some i ↦ set t i (record (get_or t i no_entry) { last_trigger_ns = ts })
  | none ↦
      if leb table_size (length t)
      then set t (oldest t) (entry key ts)
      else t ++ (entry key ts ∷ [])
]
