-- ===== src/Status.antt =====
-- include/spkt_common.h: the status codes that the modules return, without the prefix SPKT_.
use spiketrace.Prelude.{◌≡◌, Bool, true, false, arith}

pub data Status : Type 0 where
  ok : Status
  err_cpu_open_proc err_cpu_parse_failed : Status
  err_mem_open_meminfo err_mem_parse_failed : Status
  err_ringbuf_full err_ringbuf_empty err_ringbuf_lock_failed : Status
  err_proc_open_dir err_proc_parse_failed : Status
  err_json_overflow err_json_alloc : Status
  err_dump_open_failed err_dump_write_failed err_dump_rename_failed : Status
  err_log_dir_access err_log_file_in_use err_log_delete_failed err_log_pattern_invalid : Status
  err_fs_create err_fs_access err_fs_not_dir : Status
  err_invalid_param err_null_pointer err_alloc_failed err_out_of_memory : Status

-- `status == SPKT_OK`
abbrev pub is_ok : Status → Bool
is_ok Status.ok = true
is_ok _ = false

pub is_ok-eq : (s : Status) → is_ok s ≡ true → s ≡ ok
is_ok-eq s h = ground arith
