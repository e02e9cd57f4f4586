-- ===== src/Sampler/Meminfo.antt =====
-- src/mem.c and include/mem.h: ten figures of /proc/meminfo.
pub mod Latest
use spiketrace.Prelude.{
  ℕ, zero, Bool, Option, none, some, List, [], ◌∷◌, if◌then◌else◌, Bytes, codes,
}
use spiketrace.Status.{Status, ok, err_invalid_param, err_mem_open_meminfo, err_mem_parse_failed}
use spiketrace.Config.Path.{starts_with}
use spiketrace.Sampler.Scan.{scan_word, scan_unsigned}

-- `struct meminfo`
pub record Meminfo : Type 0 where
  pub total : ℕ
  pub available : ℕ
  pub free : ℕ
  pub active : ℕ
  pub inactive : ℕ
  pub dirty : ℕ
  pub slab : ℕ
  pub swap_total : ℕ
  pub swap_free : ℕ
  pub shmem : ℕ

abbrev pub no_meminfo : Meminfo
no_meminfo = record {
  total = 0;
  available = 0;
  free = 0;
  active = 0;
  inactive = 0;
  dirty = 0;
  slab = 0;
  swap_total = 0;
  swap_free = 0;
  shmem = 0;
}

-- a label, and the field that it fills
abbrev pub Row : Type 0
Row = Bytes × (ℕ → Meminfo → Meminfo)

unfoldable pub lookup : List Row
lookup =
    (codes "MemTotal:", λ x mi. record mi { total = x })
    ∷ (codes "MemAvailable:", λ x mi. record mi { available = x })
    ∷ (codes "MemFree:", λ x mi. record mi { free = x })
    ∷ (codes "Active:", λ x mi. record mi { active = x })
    ∷ (codes "Inactive:", λ x mi. record mi { inactive = x })
    ∷ (codes "Dirty:", λ x mi. record mi { dirty = x })
    ∷ (codes "Slab:", λ x mi. record mi { slab = x })
    ∷ (codes "SwapTotal:", λ x mi. record mi { swap_total = x })
    ∷ (codes "SwapFree:", λ x mi. record mi { swap_free = x })
    ∷ (codes "Shmem:", λ x mi. record mi { shmem = x })
    ∷ []

-- `sscanf (buf, "%*s %llu")` on a line of the buffer's size
abbrev pub number_behind : Option (Bytes × Bytes) → Option (ℕ × Bytes)
number_behind none = none
number_behind (some (label, rest)) = scan_unsigned rest

abbrev pub fill : (ℕ → Meminfo → Meminfo) → Meminfo → Option (ℕ × Bytes) → Option Meminfo
fill field mi none = none
fill field mi (some (x, rest)) = some (field x mi)

-- the inner loop on a line; nothing if its number does not parse
unfoldable pub read_field : List Row → Bytes → Meminfo → Option Meminfo
read_field [] buf mi = some mi
read_field ((label, field) ∷ rows) buf mi =
    let rest = read_field rows buf mi in
    if starts_with buf label then fill field mi (number_behind (scan_word 512 buf)) else rest

-- the outer loop; on a line that does not parse the fields read so far remain
abbrev pub and_on : Meminfo → (Meminfo → Status × Meminfo) → Option Meminfo → Status × Meminfo
and_on mi more none = (err_mem_parse_failed, mi)
and_on mi more (some mi') = more mi'

unfoldable pub read_fields : List Bytes → Meminfo → Status × Meminfo
read_fields [] mi = (ok, mi)
read_fields (buf ∷ lines) mi = and_on mi (read_fields lines) (read_field lookup buf mi)

-- a null pointer is `none`
abbrev pub read_file : Meminfo → Option (List Bytes) → Status × Meminfo
read_file kibibytes none = (err_mem_open_meminfo, kibibytes)
read_file kibibytes (some lines) = read_fields lines no_meminfo

unfoldable pub mem_read_kibibytes : Option (List Bytes) → Option Meminfo → Status × Option Meminfo
mem_read_kibibytes file none = (err_invalid_param, none)
mem_read_kibibytes file (some kibibytes) =
    let (status, mi) = read_file kibibytes file in (status, some mi)
