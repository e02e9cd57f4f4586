-- ===== src/Sampler.antt =====
-- The samplers: src/cpu.c, src/mem.c and src/proc.c, which read /proc, and src/snapshot_builder.c,
-- which puts a snapshot together. A file of /proc is what `fgets` yields of it, line by line, or
-- nothing if it cannot be opened.
pub mod Scan
pub mod Jiffies
pub mod Meminfo
pub mod Processes
pub mod Builder
mod Tests
