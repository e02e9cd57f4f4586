-- ===== src/Snapshot.antt =====
-- include/snapshot.h and include/proc.h: what one sampling round sees of the system. The element
-- type F stands for `double`. A `char` array is the bytes before its NUL; a fixed array with a
-- count of valid entries is a list with that count beside it.
use spiketrace.Prelude.{ℕ, Bool, List, Bytes}
use spiketrace.Prelude.Int.{ℤ}

abbrev pub max_procs : ℕ
max_procs = 10

abbrev pub max_cores : ℕ
max_cores = 256

-- `spkt_cpu_snapshot_t`
pub record CpuSnapshot (F : Type 0) : Type 0 where
  pub global_usage_pct : F
  pub iowait_pct : F
  pub per_core_usage_pct : List F
  pub valid_core_count : ℕ

-- `spkt_mem_snapshot_t`
pub record MemSnapshot : Type 0 where
  pub total_ram_kib : ℕ
  pub available_ram_kib : ℕ
  pub free_ram_kib : ℕ
  pub active_ram_kib : ℕ
  pub inactive_ram_kib : ℕ
  pub dirty_ram_kib : ℕ
  pub slab_ram_kib : ℕ
  pub swap_total_ram_kib : ℕ
  pub swap_free_ram_kib : ℕ
  pub shmem_ram_kib : ℕ

-- `spkt_proc_entry_t`
pub record ProcEntry (F : Type 0) : Type 0 where
  pub pid : ℤ
  pub ppid : ℤ
  pub uid : ℕ
  pub state : ℕ
  pub comm : Bytes
  pub cmdline : Bytes
  pub cpu_usage_pct : F
  pub rss_kib : ℕ

-- `spkt_proc_snapshot_t`
pub record ProcSnapshot (F : Type 0) : Type 0 where
  pub entries : List (ProcEntry F)
  pub valid_entry_count : ℕ
  pub top_rss_entries : List (ProcEntry F)
  pub valid_rss_count : ℕ

-- `spkt_snapshot_t`
pub record Snapshot (F : Type 0) : Type 0 where
  pub timestamp_monotonic_ns : ℕ
  pub cpu : CpuSnapshot F
  pub mem : MemSnapshot
  pub procs : ProcSnapshot F

-- `proc_sample_t`
pub record ProcSample (F : Type 0) : Type 0 where
  pub pid : ℤ
  pub ppid : ℤ
  pub pgid : ℤ
  pub uid : ℕ
  pub state : ℕ
  pub ticks : ℕ
  pub rss_kib : ℕ
  pub cpu_pct : F
  pub baseline_cpu_pct : F
  pub sample_count : ℕ
  pub is_new : Bool
  pub comm : Bytes
  pub cmdline : Bytes
  pub valid : Bool
