-- ===== src/Config/Load.antt =====
-- `parse_table_header`, `parse_key_value` and the loop of `config_load` in src/config.c. The loops
-- take fuel, which the number of bytes to go bounds; `none` stands for a loop that has not ended.
pub mod Ends
pub mod Ignored
use spiketrace.Prelude.{
  ℕ, zero, suc, ◌+◌, ◌-◌, Bool, true, false, not, ◌||◌, ◌&&◌, Option, none, some, [], ◌∷◌, ◌++◌,
  ltb, leb, if◌then◌else◌, length, take, Bytes, codes, ◌*◌, ◌==◌,
}
use spiketrace.Prelude.Int.{pos}
use spiketrace.Status.{Status, ok, err_null_pointer, err_invalid_param}
use spiketrace.Double.{Double, nought}
use spiketrace.Config.Types.{Config}
use spiketrace.Config.Defaults.{config_init_defaults, max_path_len}
use spiketrace.Config.Toml.{Token, Parser, skip_blanks}
use spiketrace.Config.Toml.Next.{skip_whitespace, toml_next_token}
use spiketrace.Config.Toml.Progress.{is_end}
use spiketrace.Config.Apply.{c_str, apply_config_value}

-- `CONFIG_MAX_FILE_SIZE`
abbrev pub max_file_size : ℕ
max_file_size = 64 * 1024

-- the sizes of the buffers `section` and `key`
abbrev pub section_size : ℕ
section_size = 128

-- a part of the section's name, with a dot in front unless it is the first, where there is room
abbrev pub append_section : Bytes → Bytes → Bytes
append_section section str =
    let n = length section in
    let section' = if ltb 0 n && ltb n (section_size - 1) then section ++ b'.' ∷ [] else section in
    section' ++ take (section_size - length section' - 1) str

abbrev pub is_name : Token → Bool
is_name Token.string = true
is_name Token.key = true
is_name _ = false

abbrev pub is_key : Token → Bool
is_key Token.key = true
is_key _ = false

abbrev pub is_equal : Token → Bool
is_equal Token.equal = true
is_equal _ = false

-- what a token means to the loop of `config_load`
pub data Round : Type 0 where
  done table pair : Round

abbrev pub round_of : Token → Round
round_of Token.eof = Round.done
round_of Token.error = Round.done
round_of Token.table_start = Round.table
round_of _ = Round.pair

module _ {F : Type 0} ⦃d : Double F⦄ where
  -- a round of the loop of `parse_table_header`, with the section so far
  unfoldable pub header_round :
      (Bytes → Parser F → Option (Bytes × Parser F))
      → Bool
      → Bytes
      → Parser F
      → Option (Bytes × Parser F)
  header_round again true section p = again (append_section section p.str_buf) (toml_next_token p)
  header_round again false section p = some (section, p)

  unfoldable pub header_loop : ℕ → Bytes → Parser F → Option (Bytes × Parser F)
  header_loop zero section p = none
  header_loop (suc n) section p = header_round (header_loop n) (is_name p.token) section p

  unfoldable pub parse_table_header : Parser F → Option (Bytes × Parser F)
  parse_table_header p =
      let p' = toml_next_token p in header_loop (suc (suc (length p'.rest))) [] p'

  -- the part of `parse_key_value` behind the test for a section, which its caller makes first. A
  -- key fits, since `key_buf` has the size of `key`. It returns whether it succeeds, the key,
  -- and the parser, which stands at the token of the value when it succeeds
  unfoldable pub parse_key_value : Parser F → Bool × Bytes × Parser F
  parse_key_value p =
      let p' = skip_whitespace (toml_next_token p) in
      if not (is_key p.token)
      then (false, [], p)
      else if not (is_equal p'.token)
      then (false, p.key_buf, p')
      else (true, p.key_buf, skip_whitespace (toml_next_token p'))

  -- a round of the loop on what `parse_key_value` returns; the value is read from the token after
  unfoldable pub key_value_round : Bytes → Config F → Bool × Bytes × Parser F → Config F × Parser F
  key_value_round section config (true, key, p) =
      let p' = toml_next_token p in
      (apply_config_value config (c_str section) (c_str key) p', toml_next_token p')
  key_value_round section config (false, key, p) = (config, toml_next_token p)

  unfoldable pub after_table :
      (Bytes → Parser F → Option (Config F × Parser F))
      → Option (Bytes × Parser F)
      → Option (Config F × Parser F)
  after_table again none = none
  after_table again (some (section, p)) = again section (toml_next_token p)

  -- a round of the loop of `config_load`, which returns the settings and the parser at the end
  unfoldable pub load_round :
      (Bytes → Config F → Parser F → Option (Config F × Parser F))
      → Round
      → Bytes
      → Config F
      → Parser F
      → Option (Config F × Parser F)
  load_round again Round.done section config p = some (config, p)
  load_round again Round.table section config p =
      after_table (λ section' q. again section' config q) (parse_table_header p)
  load_round again Round.pair section config p =
      let (config', p') = key_value_round section config (parse_key_value p) in
      again section config' p'

  unfoldable pub load_loop : ℕ → Bytes → Config F → Parser F → Option (Config F × Parser F)
  load_loop zero section config p = none
  load_loop (suc n) section config p = load_round (load_loop n) (round_of p.token) section config p

  abbrev pub parser_at : Bytes → Parser F
  parser_at text = record {
    rest = text;
    token = Token.nothing;
    key_buf = [];
    str_buf = [];
    int_val = pos 0;
    float_val = nought;
    bool_val = false;
    line = 1;
    col = 1;
  }

  -- the settings that a file gives
  unfoldable pub parse_config : Config F → Bytes → Option (Config F × Parser F)
  parse_config config text =
      load_loop (suc (suc (length text))) [] config (toml_next_token (parser_at text))

-- What the operating system answers: the home directory of the environment and of the user's
-- entry, whether `stat` finds a path and a regular file there, and the contents of a file, which are
-- `none` if opening, seeking, allocating or reading fails.
pub record Files : Type 0 where
  pub home : Option Bytes
  pub pw_dir : Option Bytes
  pub is_regular : Bytes → Option Bool
  pub contents : Bytes → Option Bytes

-- `CONFIG_SYSTEM_PATH`
abbrev pub system_path : Bytes
system_path = codes "/etc/spiketrace/config.toml"

-- `st` is what `stat` says of the path, a null path is `none`
abbrev regular : Option Bool → Bool
regular none = false
regular (some b) = b

unfoldable pub config_file_exists : Files → Option Bytes → Bool
config_file_exists files none = false
config_file_exists files (some path) = regular (files.is_regular path)

-- the home directory, from the environment first
abbrev home_of : Option Bytes → Option Bytes → Option Bytes
home_of none pw_dir = pw_dir
home_of (some dir) pw_dir = some dir

abbrev path_in : ℕ → Option Bytes → Status × Option Bytes
path_in path_size none = (err_invalid_param, none)
path_in path_size (some home) =
    let path = home ++ codes "/.config/spiketrace/config.toml" in
    if leb path_size (length path) then (err_invalid_param, none) else (ok, some path)

-- a null buffer has size 0
unfoldable pub config_get_default_path : Files → ℕ → Status × Option Bytes
config_get_default_path files path_size =
    if path_size == 0
    then (err_null_pointer, none)
    else path_in path_size (home_of files.home files.pw_dir)

abbrev existing : Files → Option Bytes → Option Bytes
existing files path = if config_file_exists files path then path else none

-- the file that `config_load` reads, if it finds one
unfoldable pub config_path : Files → Option Bytes → Option Bytes
config_path files (some path) =
    if leb max_path_len (length path) then none else existing files (some path)
config_path files none =
    if config_file_exists files (some system_path)
    then some system_path
    else existing files (config_get_default_path files max_path_len).1

module _ {F : Type 0} ⦃d : Double F⦄ where
  abbrev pub loaded : Option (Config F × Parser F) → Option (Config F)
  loaded none = none
  loaded (some (config, p)) = some (record config { loaded = true })

  -- what is left of the settings once a file is open; a parse error keeps those before it
  unfoldable pub load_text : Config F → Option Bytes → Option (Config F)
  load_text config none = some config
  load_text config (some text) =
      if ltb max_file_size (length text) then some config else loaded (parse_config config text)

  unfoldable pub load_path : Files → Config F → Option Bytes → Option (Config F)
  load_path files config none = some config
  load_path files config (some path) = load_text config (files.contents path)

  -- `config_load` on a given `config`, whose status is always SPKT_OK
  unfoldable pub config_load : Bytes → Files → Option Bytes → Option (Config F)
  config_load dir files path = load_path files (config_init_defaults dir) (config_path files path)
