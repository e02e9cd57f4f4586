-- ===== src/Dump.antt =====
-- src/spike_dump.c and include/time_format.h: the dump of a spike. A serializer is a sequence of
-- calls of the JSON writer, each of which ends the function if it fails: `do` joins two calls so.
pub mod Entries
mod Tests
pub mod Snapshots
pub mod Trigger
pub mod Schema
pub mod Follow
pub mod Agreement
pub mod Atomic
pub mod Write
use spiketrace.Prelude.{ℕ, ◌/◌, List, [], ◌∷◌, take, Bytes}
use spiketrace.Status.{ok}
use spiketrace.Double.{Double}
use spiketrace.Json.{Writer, Result, and_then}

infixr 5 ◌>>◌
abbrev pub ◌>>◌ : (Writer → Result) → (Writer → Result) → Writer → Result
first >> next = λ w. and_then (first w) next

-- a loop that writes the items of an array
unfoldable pub each : {A : Type 0} → (A → Writer → Result) → List A → Writer → Result
each write [] w = (ok, w)
each write (x ∷ xs) w = and_then (write x w) (each write xs)

-- `spkt_ns_to_seconds`, `spkt_kib_to_mib`
abbrev pub spkt_ns_to_seconds : {F : Type 0} ⦃d : Double F⦄ → ℕ → F
spkt_ns_to_seconds ⦃d⦄ ns = d.div (d.of_ℕ ns) (d.literal 1000000000 1)

abbrev pub spkt_kib_to_mib : ℕ → ℕ
spkt_kib_to_mib kib = kib / 1024
