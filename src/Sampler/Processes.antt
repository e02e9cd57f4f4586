-- ===== src/Sampler/Processes.antt =====
-- src/proc.c: the processes of /proc. Parse reads the files of one process, Samples has
-- what is kept of it, Collect is the sampling round.
pub mod Parse
pub mod Marks
pub mod Reads
pub mod Samples
pub mod Collect
