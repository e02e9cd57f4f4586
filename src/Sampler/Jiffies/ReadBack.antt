-- ===== src/Sampler/Jiffies/ReadBack.antt =====
-- A file of /proc/stat is read back: what src/cpu.c gives is what the kernel printed.
use spiketrace.Prelude.{◌≡◌, false, List, [], ◌∷◌, Bytes, codes}
use spiketrace.Config.Path.{starts_with}
use spiketrace.Sampler.Jiffies.{Jiffies}

-- the CPU lines are over
abbrev pub StopsCpu : List Bytes → Type 0
StopsCpu [] = Unit {0}
StopsCpu (line ∷ lines) = starts_with line (codes "cpu") ≡ false
