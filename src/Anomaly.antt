-- ===== src/Anomaly.antt =====
-- src/anomaly_detector.c: spikes of CPU, memory and swap, each behind a cooldown.
pub mod Types
pub mod Cooldown
pub mod Cpu
pub mod Memory
pub mod Evaluate
pub mod Tests
