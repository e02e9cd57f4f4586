-- ===== src/Config/Policy.antt =====
-- `log_cleanup_policy_to_string` and `log_cleanup_policy_from_string` of src/config.c.
use spiketrace.Prelude.{◌≡◌, refl, Option, none, some, if◌then◌else◌, Bytes, codes, str_eq}
use spiketrace.Config.Types.{CleanupPolicy}

-- the `default` case is for values outside the enumeration
pub log_cleanup_policy_to_string : CleanupPolicy → Bytes
log_cleanup_policy_to_string CleanupPolicy.disabled = codes "disabled"
log_cleanup_policy_to_string CleanupPolicy.by_age = codes "by_age"
log_cleanup_policy_to_string CleanupPolicy.by_count = codes "by_count"
log_cleanup_policy_to_string CleanupPolicy.by_size = codes "by_size"

pub log_cleanup_policy_from_string : Option Bytes → CleanupPolicy
log_cleanup_policy_from_string none = CleanupPolicy.disabled
log_cleanup_policy_from_string (some str) =
    if str_eq str (codes "by_age")
    then CleanupPolicy.by_age
    else if str_eq str (codes "by_count")
    then CleanupPolicy.by_count
    else if str_eq str (codes "by_size")
    then CleanupPolicy.by_size
    else CleanupPolicy.disabled

-- Every policy is read back from its name.
pub policy_round_trip :
    (p : CleanupPolicy) → log_cleanup_policy_from_string (some (log_cleanup_policy_to_string p)) ≡ p
unfolding log_cleanup_policy_from_string log_cleanup_policy_to_string
policy_round_trip CleanupPolicy.disabled = refl
policy_round_trip CleanupPolicy.by_age = refl
policy_round_trip CleanupPolicy.by_count = refl
policy_round_trip CleanupPolicy.by_size = refl
