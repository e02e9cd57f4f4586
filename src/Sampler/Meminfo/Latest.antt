-- ===== src/Sampler/Meminfo/Latest.antt =====
-- What src/mem.c gives for a file as the kernel prints it.
use spiketrace.Prelude.{ℕ, ◌^◌, ◌<◌, ◌≡◌, Bool, false, List, [], ◌∷◌, ◌++◌, All, Bytes, codes, ◌||◌}
use spiketrace.Config.Path.{starts_with}
use spiketrace.Json.Values.{decimal}
use spiketrace.Sampler.Scan.{is_space}
use spiketrace.Sampler.Meminfo.{Meminfo, Row, lookup}

-- the figures that the daemon takes
pub data Figure : Type 0 where
  total available free active inactive dirty slab swap_total swap_free shmem : Figure

abbrev pub label_of : Figure → Bytes
label_of total = codes "MemTotal:"
label_of available = codes "MemAvailable:"
label_of free = codes "MemFree:"
label_of active = codes "Active:"
label_of inactive = codes "Inactive:"
label_of dirty = codes "Dirty:"
label_of slab = codes "Slab:"
label_of swap_total = codes "SwapTotal:"
label_of swap_free = codes "SwapFree:"
label_of shmem = codes "Shmem:"

abbrev pub with_figure : Figure → ℕ → Meminfo → Meminfo
with_figure total x mi = record mi { total = x }
with_figure available x mi = record mi { available = x }
with_figure free x mi = record mi { free = x }
with_figure active x mi = record mi { active = x }
with_figure inactive x mi = record mi { inactive = x }
with_figure dirty x mi = record mi { dirty = x }
with_figure slab x mi = record mi { slab = x }
with_figure swap_total x mi = record mi { swap_total = x }
with_figure swap_free x mi = record mi { swap_free = x }
with_figure shmem x mi = record mi { shmem = x }

-- a line with a figure, or another one
pub data Line : Type 0 where
  figure : Figure → ℕ → Line
  other : Bytes → Line

unfoldable pub printed : Line → Bytes
printed (figure f x) = label_of f ++ b' ' ∷ (decimal x ++ codes " kB\n")
printed (other text) = text

-- no label stands before the text
abbrev pub IsOther : List Row → Bytes → Type 0
IsOther rows text = All (λ row. starts_with text row.0 ≡ false) rows

abbrev pub IsPrintable : Line → Type 0
IsPrintable (figure f x) = x < 2 ^ 64
IsPrintable (other text) = IsOther lookup text

unfoldable pub latest : List Line → Meminfo → Meminfo
latest [] mi = mi
latest (figure f x ∷ lines) mi = latest lines (with_figure f x mi)
latest (other text ∷ lines) mi = latest lines mi

abbrev pub map_printed : List Line → List Bytes
map_printed [] = []
map_printed (line ∷ lines) = printed line ∷ map_printed lines

unfoldable has_space : Bytes → Bool
has_space [] = false
has_space (c ∷ cs) = is_space c || has_space cs
