-- ===== src/Config/Tests.antt =====
-- Runs of the reader and the check of the settings, and their theorems at concrete inputs.
use spiketrace.Prelude.{
  ◌≡◌, ◌≢◌, refl, true, false, ◌⊎◌, Option, none, some, [], ◌∷◌, ◌++◌, if◌then◌else◌, Bytes, codes,
  str_eq, take,
}
use spiketrace.Prelude.Int.{pos, eqb_ℤ}
use spiketrace.Status.{ok, err_invalid_param}
use spiketrace.Double.Fixed.{Fixed, fixed_double, units, Fixed-IsOrdered}
use spiketrace.Config.Types.{Config}
use spiketrace.Config.Path.{starts_with, contains, is_safe_absolute_path}
use spiketrace.Config.Path.Traversal.{Traverses, IsAbsolute, is_safe_absolute_path-exact}
use spiketrace.Config.Defaults.{config_init_defaults}
use spiketrace.Config.Toml.{
  Token, Parser, skip_blanks, skip_line, skip_comment, quoted, bare, after_quote, parse_string,
  integer_digits, sign, parse_integer, float_digits, mantissa, scale, has_digit, strtod,
  parse_float, strip, parse_boolean,
}
use spiketrace.Config.Toml.Next.{
  skip_whitespace, key_or_string, after_string, string_token, after_integer, after_float,
  number_token, after_boolean, value_token, token_from, token_at, next_token_fuel, toml_next_token,
}
use spiketrace.Config.Toml.Integers.{next_token_never_integer}
use spiketrace.Config.Apply.{apply_config_value, apply_anomaly_detection}
use spiketrace.Config.Load.{
  config_path, config_file_exists, config_get_default_path, header_round, header_loop,
  parse_table_header, parse_key_value, key_value_round, after_table, load_round, load_loop,
  parser_at, parse_config, Files, system_path,
}
use spiketrace.Config.Load.Ends.{parse_config_ends}
use spiketrace.Config.Validate.{validate, has_nan}
use spiketrace.Config.Validate.Bounds.{IsValid}
use spiketrace.Config.Validate.Soundness.{validate-IsValid, status-validate}
use spiketrace.Config.Validate.Fixes.{validate_fixes}
use spiketrace.Config.Load.Ignored.{
  lone_pair, lone_table, lone_round, lone_values, has_lone_values, parse_config_ignores,
}

abbrev dir : Bytes
dir = codes "/var/lib/spiketrace"

abbrev defaults : Config Fixed
defaults = config_init_defaults dir

abbrev file : Bytes
file =
    codes "[anomaly_detection]"
    ++ 10 ∷ codes "cpu_delta_threshold_pct = 20.5 # more"
    ++ 10 ∷ codes "[features]"
    ++ 10 ∷ codes "enable_swap_detection = false"
    ++ 10 ∷ []

file_lone : has_lone_values Fixed file ≡ true
unfolding lone_values lone_round lone_table lone_pair parse_table_header header_loop header_round
    parse_key_value toml_next_token next_token_fuel token_at token_from value_token after_boolean
    number_token after_float after_integer string_token after_string key_or_string skip_whitespace
    skip_blanks skip_line skip_comment quoted bare after_quote parse_string integer_digits sign
    parse_integer float_digits mantissa scale has_digit strtod parse_float strip parse_boolean
file_lone = refl

-- a second value behind the first is the one that counts
abbrev twice : Bytes
twice = codes "[anomaly_detection]" ++ 10 ∷ codes "cpu_delta_threshold_pct = 20.5 30.5" ++ 10 ∷ []

abbrev threshold : Option (Config Fixed × Parser Fixed) → Option Fixed
threshold none = none
threshold (some (config, p)) = some config.cpu_delta_threshold_pct

second_value : threshold (parse_config defaults twice) ≡ some (some (pos 30500))
unfolding parse_config load_loop load_round after_table key_value_round apply_config_value
    apply_anomaly_detection parse_table_header header_loop header_round parse_key_value
    toml_next_token next_token_fuel token_at token_from value_token after_boolean number_token
    after_float after_integer string_token after_string key_or_string skip_whitespace skip_blanks
    skip_line skip_comment quoted bare after_quote parse_string integer_digits sign parse_integer
    float_digits mantissa scale has_digit strtod parse_float strip parse_boolean
second_value = refl

parse_config_ignores_example : (parse_config_ends defaults file).0 ≡ defaults
parse_config_ignores_example =
    let (config, p, result, _) = parse_config_ends defaults file in
    parse_config_ignores defaults config p file file_lone result

-- a machine with one configuration file
abbrev files : Files
files = record {
  home = none;
  pw_dir = some (codes "/root");
  is_regular = λ path. some (str_eq path system_path);
  contents = λ path. some twice;
}

-- without a system-wide file the one of the user is read, under the home of the user's entry
home_run :
    config_path
      (record files { is_regular = λ path. if str_eq path system_path then none else some true })
      none
    ≡ some (codes "/root/.config/spiketrace/config.toml")
unfolding config_path config_file_exists config_get_default_path
home_run = refl

next_token_never_integer_example :
    (toml_next_token (parser_at {F = Fixed} (codes "-12 "))).token ≢ Token.integer
next_token_never_integer_example = next_token_never_integer (parser_at (codes "-12 "))

-- settings out of bounds, one of them NaN in the second
abbrev wild : Config Fixed
wild = record defaults {
  cpu_delta_threshold_pct = units 500;
  ring_buffer_capacity = 20;
  context_snapshots_per_dump = 50;
  output_directory = codes "/tmp/../etc";
}

abbrev broken : Config Fixed
broken = record wild { cooldown_seconds = none }

dir_safe : is_safe_absolute_path (take 255 dir) ≡ true
unfolding is_safe_absolute_path contains starts_with
dir_safe = refl

is_safe_absolute_path-exact_example :
    let path = codes "/tmp/../etc" in
    ((is_safe_absolute_path path ≡ true) × IsAbsolute path × ¬ Traverses path)
    ⊎ ((is_safe_absolute_path path ≡ false) × (¬ IsAbsolute path ⊎ Traverses path))
is_safe_absolute_path-exact_example = is_safe_absolute_path-exact (codes "/tmp/../etc")

traversal_run : is_safe_absolute_path (codes "/tmp/../etc") ≡ false
unfolding is_safe_absolute_path contains starts_with
traversal_run = refl

-- the last component may still go up
parent_run : is_safe_absolute_path (codes "/tmp/..") ≡ true
unfolding is_safe_absolute_path contains starts_with
parent_run = refl

validate-IsValid_example : IsValid (validate dir wild).1
validate-IsValid_example = validate-IsValid Fixed-IsOrdered dir wild dir_safe

wild_clamped : (validate dir wild).1.context_snapshots_per_dump ≡ 20
unfolding validate is_safe_absolute_path contains starts_with eqb_ℤ
wild_clamped = refl

status-validate_example :
    (validate dir broken).0 ≡ (if has_nan broken then err_invalid_param else ok)
status-validate_example = status-validate Fixed-IsOrdered dir broken

validate_fixes_example : validate dir (validate dir wild).1 ≡ (ok, (validate dir wild).1)
validate_fixes_example =
    validate_fixes Fixed-IsOrdered dir (validate dir wild).1 validate-IsValid_example
