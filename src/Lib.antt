-- ===== src/Lib.antt =====
-- The C daemon spiketrace samples the system once a second, keeps the last minute of snapshots in
-- a ring buffer, looks for spikes of CPU, memory and swap, and writes a JSON dump when it finds
-- one. This library models the parts that decide: what is remembered, what counts as a spike and
-- when it is reported again, which settings are used, and what is written.
--
-- How the parts interact. The main loop (src/spktrace.c, Daemon) loads the settings (Config), has a
-- snapshot put together from /proc (Sampler), pushes it to the ring buffer (Ring), calls the detector
-- (Anomaly) with the samples, and on a report asks the ring buffer for the start of the spike and
-- has the newest snapshots dumped (Dump), which are serialized with the JSON writer (Json). At the
-- end of a round it lets the log manager (Logs) delete old dumps. Daemon.Sound has the states that
-- the loop reaches; its invariant puts those of the parts together.
--
--   Prelude    Boolean tests, lists with native indices, bytes, integers and unsigned wrap-around
--   Double     what is assumed of `double`: an interface with the order laws of IEEE 754, and a
--              value of it (Double.Fixed) that computes, for the tests
--   Status     include/spkt_common.h, the status codes
--   Snapshot   include/snapshot.h, include/proc.h, the data of a sampling round
--   Sorting    the C library's qsort, which Logs and Sampler call
--   Ring       src/ringbuf.c: ringbuf_push is push and store, ringbuf_get_recent is get_recent and
--              recent, ringbuf_find_spike_origin is find_spike_origin; Ring.Bounds has the validity
--              of a buffer, Ring.History the specification as a list
--   Anomaly    src/anomaly_detector.c: Types is the header, Cooldown the table of cooldowns, Cpu is
--              evaluate_cpu, Memory is evaluate_mem and evaluate_swap, Evaluate is
--              anomaly_evaluate; their children hold the proofs and are named for what they prove
--   Config     src/config.c: Types, Defaults, Policy and Path for the small functions, Toml for the
--              scanner (Toml.Next is toml_next_token), Apply for apply_config_value, Load for the
--              two parsers and the loop of config_load, Validate for config_validate
--   Json       src/json_writer.c: the buffer and the escapes; Values has the operations, Document
--              a JSON value and the calls that write it
--   Logs       src/log_manager.c: the directory scan and the safe deletion; Policies has the three
--              clean-up policies, Manager the public operations, Sorting the order that qsort
--              gives
--   Dump       src/spike_dump.c: Entries, Snapshots and Trigger are the serializers, Schema the JSON
--              value that they are to write, Atomic is write_atomic, Write the rest; the children
--              of Atomic and Write hold the proofs
--   Directories  src/fs_utils.c: spkt_mkdir_p over an interface of mkdir and stat
--   Sampler    Scan has the conversions of sscanf; Jiffies is src/cpu.c, Meminfo src/mem.c, Processes
--              src/proc.c (Parse, Samples, Collect), Builder src/snapshot_builder.c; their children
--              are named for what they prove
--   Daemon     src/spktrace.c: Settings, Start for main up to its loop, Round for one round of it;
--              Sound, Enabled and Dumped hold the proofs
--   */Tests    runs, and each theorem at a concrete input
--
-- Conventions. A state is a record and an operation returns the new one. A pointer that the code
-- compares with NULL is an Option. A C string is the list of its bytes without the NUL. Unsigned
-- arithmetic that can wrap has the wrap written out; int64_t differences are exact, since overflow
-- is undefined in C. What the system answers (clock, malloc, realloc, files) is an
-- argument. A file of /proc is the list of lines that fgets yields, or none.
--
-- Bounds and fuel. The capacities are those of the source (60 snapshots, 64 cooldowns, 128 and 256
-- bytes of the parser's buffers, 1 MiB of JSON text). toml_next_token takes as fuel one more than
-- the bytes that are left, and the loops of config_load two more: each call consumes a byte or
-- ends, and the theorems on termination show that the fuel is never used up. `%u` prints at most 20
-- digits, which 64 bits need.
--
-- Not modelled: the options of src/spktrace.c and the installation of its signals, whose outcomes are
-- arguments (a reload that was asked for, the end of the sequence of rounds); the JSON reader
-- (src/json_reader.c) and the C viewer (src/spktrace_view.c), which read and print a dump; the Go
-- viewer under cmd/ and internal/, and the packages under vendor/. Messages on stderr are left out
-- everywhere, and so are the modes and groups of files.
pub mod Prelude
pub mod Status
pub mod Double
pub mod Snapshot
pub mod Sorting
pub mod Ring
pub mod Config
pub mod Anomaly
pub mod Json
pub mod Logs
pub mod Dump
pub mod Sampler
pub mod Daemon
pub mod Directories
