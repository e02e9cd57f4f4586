-- ===== src/Sampler/Processes/Reads.antt =====
-- A line of /proc/<pid>/stat is read back, whatever the name of the process is.
use spiketrace.Prelude.{ℕ, ◌^◌, ◌<◌, ◌≡◌, List, [], ◌∷◌, ◌++◌, length, All, Bytes}
use spiketrace.Prelude.Int.{ℤ}
use spiketrace.Sampler.Scan.Numbers.{spaced}
use spiketrace.Sampler.Processes.Marks.{Fits, spaced_ints}

-- the numbers behind the name
pub record Numbers : Type 0 where
  pub ppid : ℤ
  pub pgrp : ℤ
  -- session, tty, tpgid
  pub others : List ℤ
  -- flags and the four counts of faults
  pub faults : List ℕ
  pub utime : ℕ
  pub stime : ℕ

pub record IsPrintable (n : Numbers) : Type 0 where
  pub ints : All Fits (n.ppid ∷ n.pgrp ∷ n.others)
  pub naturals : All (λ x. x < 2 ^ 64) n.faults
  pub times : (n.utime < 2 ^ 64) × (n.stime < 2 ^ 64)
  pub three : length n.others ≡ 3
  pub five : length n.faults ≡ 5

abbrev pub printed_numbers : Numbers → Bytes → Bytes
printed_numbers n tail =
    spaced_ints (n.ppid ∷ n.pgrp ∷ [])
      (spaced_ints n.others (spaced n.faults (spaced (n.utime ∷ n.stime ∷ []) tail)))

-- the line, as the kernel prints it
unfoldable pub process_line : Bytes → Bytes → ℕ → Numbers → Bytes → Bytes
process_line before comm state n tail =
    before ++ b'(' ∷ (comm ++ b')' ∷ b' ' ∷ state ∷ printed_numbers n tail)
