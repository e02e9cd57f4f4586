-- ===== src/Config/Apply.antt =====
-- `apply_config_value` of src/config.c, a function for each section.
pub mod Values
use spiketrace.Prelude.{
  ℕ, ◌+◌, ◌*◌, ◌%◌, ◌^◌, ◌≡◌, refl, Bool, true, false, ◌&&◌, ◌||◌, some, [], ◌∷◌, ◌==◌,
  if◌then◌else◌, take, Bytes, codes, str_eq, if_both, arith,
}
use spiketrace.Prelude.Int.{ℤ, pos, negsuc}
use spiketrace.Double.{Double, nought}
use spiketrace.Config.Types.{Config, TriggerScope}
use spiketrace.Config.Policy.{log_cleanup_policy_from_string}
use spiketrace.Config.Toml.{Token, Parser}

-- a buffer as the C string functions see it
abbrev pub c_str : Bytes → Bytes
c_str [] = []
c_str (c ∷ cs) = if c == 0 then [] else c ∷ c_str cs

abbrev pub is_float : Token → Bool
is_float Token.float = true
is_float _ = false

abbrev pub is_integer : Token → Bool
is_integer Token.integer = true
is_integer _ = false

abbrev pub is_number : Token → Bool
is_number t = is_integer t || is_float t

abbrev pub is_string : Token → Bool
is_string Token.string = true
is_string _ = false

abbrev pub is_boolean : Token → Bool
is_boolean Token.boolean = true
is_boolean _ = false

abbrev scope_from : TriggerScope → Bytes → TriggerScope
scope_from old str =
    if str_eq str (codes "per_process")
    then TriggerScope.process
    else if str_eq str (codes "process_group")
    then TriggerScope.process_group
    else if str_eq str (codes "parent")
    then TriggerScope.parent
    else if str_eq str (codes "system")
    then TriggerScope.system
    else old

abbrev pub is_value : Token → Bool
is_value t = is_number t || is_string t || is_boolean t

module _ {F : Type 0} ⦃d : Double F⦄ where
  abbrev of_ℤ : ℤ → F
  of_ℤ (pos n) = d.of_ℕ n
  of_ℤ (negsuc n) = d.sub nought (d.of_ℕ (n + 1))

  -- the conditional expression has the type `double` whichever side it takes
  abbrev pub number : Parser F → F
  number p = if is_integer p.token then of_ℤ p.int_val else p.float_val

  -- `(uint64_t)number * 1024`, and `(uint32_t)number`
  abbrev pub kib_of : Parser F → ℕ
  kib_of p = d.to_ℕ (number p) * 1024 % 2 ^ 64

  abbrev pub u32_of : Parser F → ℕ
  u32_of p = d.to_ℕ (number p) % 2 ^ 32

  unfoldable pub apply_anomaly_detection : Config F → Bytes → Parser F → Config F
  apply_anomaly_detection config key p =
      if str_eq key (codes "cpu_delta_threshold_pct") && is_float p.token
      then record config { cpu_delta_threshold_pct = p.float_val }
      else if str_eq key (codes "new_process_threshold_pct") && is_float p.token
      then record config { new_process_threshold_pct = p.float_val }
      else if str_eq key (codes "mem_drop_threshold_mib") && is_number p.token
      then record config { mem_drop_threshold_kib = kib_of p }
      else if str_eq key (codes "mem_pressure_threshold_pct") && is_float p.token
      then record config { mem_pressure_threshold_pct = p.float_val }
      else if str_eq key (codes "swap_spike_threshold_mib") && is_number p.token
      then record config { swap_spike_threshold_kib = kib_of p }
      else if str_eq key (codes "cooldown_seconds") && is_float p.token
      then record config { cooldown_seconds = p.float_val }
      else config

  unfoldable pub apply_sampling : Config F → Bytes → Parser F → Config F
  apply_sampling config key p =
      if str_eq key (codes "sampling_interval_seconds") && is_float p.token
      then record config { sampling_interval_seconds = p.float_val }
      else if str_eq key (codes "ring_buffer_capacity") && is_number p.token
      then record config { ring_buffer_capacity = u32_of p }
      else if str_eq key (codes "context_snapshots_per_dump") && is_number p.token
      then record config { context_snapshots_per_dump = u32_of p }
      else config

  unfoldable pub apply_process_collection : Config F → Bytes → Parser F → Config F
  apply_process_collection config key p =
      if str_eq key (codes "max_processes_tracked") && is_number p.token
      then record config { max_processes_tracked = u32_of p }
      else if str_eq key (codes "top_processes_stored") && is_number p.token
      then record config { top_processes_stored = u32_of p }
      else config

  -- the copy is what the C string functions see of it later
  unfoldable pub apply_output : Config F → Bytes → Parser F → Config F
  apply_output config key p =
      if str_eq key (codes "output_directory") && is_string p.token
      then record config { output_directory = c_str (take 255 p.str_buf) }
      else config

  unfoldable pub apply_features : Config F → Bytes → Parser F → Config F
  apply_features config key p =
      if str_eq key (codes "enable_cpu_detection") && is_boolean p.token
      then record config { enable_cpu_detection = p.bool_val }
      else if str_eq key (codes "enable_memory_detection") && is_boolean p.token
      then record config { enable_memory_detection = p.bool_val }
      else if str_eq key (codes "enable_swap_detection") && is_boolean p.token
      then record config { enable_swap_detection = p.bool_val }
      else if str_eq key (codes "aggregate_related_processes") && is_boolean p.token
      then record config { aggregate_related_processes = p.bool_val }
      else config

  unfoldable pub apply_advanced : Config F → Bytes → Parser F → Config F
  apply_advanced config key p =
      if str_eq key (codes "memory_baseline_alpha") && is_float p.token
      then record config { memory_baseline_alpha = p.float_val }
      else if str_eq key (codes "process_baseline_alpha") && is_float p.token
      then record config { process_baseline_alpha = p.float_val }
      else config

  unfoldable pub apply_trigger : Config F → Bytes → Parser F → Config F
  apply_trigger config key p =
      if str_eq key (codes "scope") && is_string p.token
      then record config { trigger_scope = scope_from config.trigger_scope (c_str p.str_buf) }
      else config

  unfoldable pub apply_log_management : Config F → Bytes → Parser F → Config F
  apply_log_management config key p =
      if str_eq key (codes "enable_auto_cleanup") && is_boolean p.token
      then record config { enable_auto_cleanup = p.bool_val }
      else if str_eq key (codes "cleanup_policy") && is_string p.token
      then record config {
        cleanup_policy = log_cleanup_policy_from_string (some (c_str p.str_buf));
      }
      else if str_eq key (codes "log_max_age_days") && is_number p.token
      then record config { log_max_age_days = u32_of p }
      else if str_eq key (codes "log_max_count") && is_number p.token
      then record config { log_max_count = u32_of p }
      else if str_eq key (codes "log_max_total_size_mib") && is_number p.token
      then record config { log_max_total_size_mib = u32_of p }
      else if str_eq key (codes "cleanup_interval_minutes") && is_number p.token
      then record config { cleanup_interval_minutes = u32_of p }
      else config

  -- `section` and `key` are buffers that end at their first NUL
  unfoldable pub apply_config_value : Config F → Bytes → Bytes → Parser F → Config F
  apply_config_value config section key p =
      if str_eq section (codes "anomaly_detection")
      then apply_anomaly_detection config key p
      else if str_eq section (codes "sampling")
      then apply_sampling config key p
      else if str_eq section (codes "process_collection")
      then apply_process_collection config key p
      else if str_eq section (codes "output")
      then apply_output config key p
      else if str_eq section (codes "features")
      then apply_features config key p
      else if str_eq section (codes "advanced")
      then apply_advanced config key p
      else if str_eq section (codes "trigger")
      then apply_trigger config key p
      else if str_eq section (codes "log_management")
      then apply_log_management config key p
      else config
