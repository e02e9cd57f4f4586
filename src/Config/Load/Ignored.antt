-- ===== src/Config/Load/Ignored.antt =====
-- What `config_load` makes of a file with one value after each equals sign.
use spiketrace.Prelude.{
  ℕ, zero, suc, ◌≡◌, refl, subst, Bool, true, false, not, ◌&&◌, Option, none, some, [], arith,
  length, Bytes,
}
use spiketrace.Double.{Double}
use spiketrace.Config.Types.{Config}
use spiketrace.Config.Toml.{Parser}
use spiketrace.Config.Toml.Next.{toml_next_token}
use spiketrace.Config.Apply.{c_str, is_value}
use spiketrace.Config.Apply.Values.{apply_config_value-no_value}
use spiketrace.Config.Load.{
  Round, round_of, parse_table_header, parse_key_value, key_value_round, after_table, load_round,
  load_loop, parser_at, parse_config,
}

abbrev Loop : Type 0 → Type 0
Loop F = Bytes → Config F → Parser F → Option (Config F × Parser F)

module _ {F : Type 0} ⦃d : Double F⦄ where
  -- The token behind the value is no value itself: the end of the line, say, or of the file.
  unfoldable pub lone_pair : (Parser F → Bool) → Bool × Bytes × Parser F → Bool
  lone_pair again (true, key, p) =
      let p' = toml_next_token p in not (is_value p'.token) && again (toml_next_token p')
  lone_pair again (false, key, p) = again (toml_next_token p)

  unfoldable pub lone_table : (Parser F → Bool) → Option (Bytes × Parser F) → Bool
  lone_table again none = true
  lone_table again (some (section, p)) = again (toml_next_token p)

  unfoldable pub lone_round : (Parser F → Bool) → Round → Parser F → Bool
  lone_round again Round.done p = true
  lone_round again Round.table p = lone_table again (parse_table_header p)
  lone_round again Round.pair p = lone_pair again (parse_key_value p)

  -- whether this is so of each pair that the loop reads
  unfoldable pub lone_values : ℕ → Parser F → Bool
  lone_values zero p = true
  lone_values (suc n) p = lone_round (lone_values n) (round_of p.token) p

  abbrev Keeps : Config F → Option (Config F × Parser F) → Type 0
  Keeps config none = Unit {0}
  Keeps config (some (config', p)) = config' ≡ config

  abbrev KeepsAll : Config F → Loop F → (Parser F → Bool) → Type 0
  KeepsAll config loop lone =
      (section : Bytes) (p : Parser F) → lone p ≡ true → Keeps config (loop section config p)

  pair-Keeps :
      (config : Config F) (loop : Loop F) (lone : Parser F → Bool) (section : Bytes)
      (out : Bool × Bytes × Parser F)
      → KeepsAll config loop lone
      → lone_pair lone out ≡ true
      → let (config', p) = key_value_round section config out in
        Keeps config (loop section config' p)
  unfolding lone_pair key_value_round
  pair-Keeps config loop lone section (true, key, p) ih h =
      let p' = toml_next_token p in
      let same = apply_config_value-no_value config (c_str section) (c_str key) p' (ground arith) in
      rw same (ih section (toml_next_token p') (ground arith))
  pair-Keeps config loop lone section (false, key, p) ih h = ih section (toml_next_token p) h

  table-Keeps :
      (config : Config F) (loop : Loop F) (lone : Parser F → Bool) (out : Option (Bytes × Parser F))
      → KeepsAll config loop lone
      → lone_table lone out ≡ true
      → Keeps config (after_table (λ section q. loop section config q) out)
  unfolding lone_table after_table
  table-Keeps config loop lone none ih h = tt
  table-Keeps config loop lone (some (section, p)) ih h = ih section (toml_next_token p) h

  round-Keeps :
      (config : Config F) (loop : Loop F) (lone : Parser F → Bool) (r : Round) (section : Bytes)
      (p : Parser F)
      → KeepsAll config loop lone
      → lone_round lone r p ≡ true
      → Keeps config (load_round loop r section config p)
  unfolding lone_round load_round
  round-Keeps config loop lone Round.done section p ih h = refl
  round-Keeps config loop lone Round.table section p ih h =
      table-Keeps config loop lone (parse_table_header p) ih h
  round-Keeps config loop lone Round.pair section p ih h =
      pair-Keeps config loop lone section (parse_key_value p) ih h

  load_loop-Keeps : (n : ℕ) (config : Config F) → KeepsAll config (load_loop n) (lone_values n)
  unfolding lone_values load_loop
  load_loop-Keeps zero config section p h = tt
  load_loop-Keeps (suc n) config section p h =
      round-Keeps config (load_loop n) (lone_values n) (round_of p.token) section p
        (load_loop-Keeps n config) h

abbrev pub has_lone_values : (F : Type 0) ⦃d : Double F⦄ → Bytes → Bool
has_lone_values F text =
    lone_values (suc (suc (length text))) (toml_next_token (parser_at {F = F} text))

module _ {F : Type 0} ⦃d : Double F⦄ where
  -- If in a file each `key = value` is followed by no second value on the way to the next token,
  -- as on a line of its own, the loop of `config_load` leaves all settings as they were: it reads
  -- the value twice over, and applies the token behind it.
  pub parse_config_ignores :
      (config config' : Config F) (p : Parser F) (text : Bytes)
      → has_lone_values F text ≡ true
      → parse_config config text ≡ some (config', p)
      → config' ≡ config
  unfolding parse_config
  parse_config_ignores config config' p text lone result =
      subst (Keeps config) result (
        load_loop-Keeps (suc (suc (length text))) config [] (toml_next_token (parser_at text)) lone)
