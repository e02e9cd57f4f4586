-- ===== src/Daemon.antt =====
-- src/spktrace.c: the daemon. Settings loads and converts them, Start is what main does before its
-- loop, Round is one round of the loop; Sound, Dumped and Enabled hold the proofs. Messages are left
-- out. The lock around the settings is never contended: signals only set a flag.
pub mod Settings
pub mod Start
pub mod Round
pub mod Sound
pub mod Enabled
pub mod Dumped
mod Tests
