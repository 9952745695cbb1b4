-- ===== src/Variant/Parser/Multi.antt =====
-- `fromJsonMulti` of src/base/variant.cpp: values one behind the other. `none` is out of fuel.
use mifsa_base.Base.{
  ℕ, zero, suc, Bool, true, false, ◌||◌, List, [], ◌∷◌, ◌++◌, Option, none, some, Bytes, ◌==◌,
  if◌then◌else◌, length,
}
use mifsa_base.Variant.Data.{Variant, Doubles, ParseType}
use mifsa_base.Variant.Parser.{Parser, consume_garbage}
use mifsa_base.Variant.Parser.Values.{parse_in, full_room, start_parser}

-- The values, what is written through `stopPos`, and the parser.
pub record Multi : Type 0 where
  pub variants : List Variant
  pub stop_pos : ℕ
  pub parser : Parser

-- What one turn of the loop leaves, and whether it goes on.
abbrev pub collected : Option (Unit {0} × Parser) → List Variant → ℕ → Option (Multi × Bool)
collected none variants stop_pos = none
collected (some (_, p)) variants stop_pos =
    if p.is_failed
    then some (record { variants = variants; stop_pos = stop_pos; parser = p }, false)
    else some (record { variants = variants; stop_pos = p.index; parser = p }, true)

abbrev pub after_value : Option (Variant × Parser) → List Variant → ℕ → Option (Multi × Bool)
after_value none variants stop_pos = none
after_value (some (v, p)) variants stop_pos =
    if p.is_failed
    then some (record { variants = variants ++ v ∷ []; stop_pos = stop_pos; parser = p }, false)
    else collected (consume_garbage p) (variants ++ v ∷ []) stop_pos

module _ (ops : Doubles) where
  unfoldable pub multi_loop : ℕ → Multi → Option Multi
  multi_loop zero m = none
  multi_loop (suc fuel) m =
      if m.parser.index == length m.parser.in_string || m.parser.is_failed
      then some m
      else elim (after_value (parse_in ops full_room m.parser) m.variants m.stop_pos) [
        | none ↦ none
        | some (next, false) ↦ some next
        | some (next, true) ↦ multi_loop fuel next
      ]

  -- With the empty text, `stopPos` is not written.
  unfoldable pub from_json_multi : ℕ → Bytes → Option Bytes → ParseType → Option Multi
  unfolding multi_loop parse_in consume_garbage
  from_json_multi stop_pos [] error type =
      some (record { variants = []; stop_pos = stop_pos; parser = start_parser [] error type })
  from_json_multi stop_pos (c ∷ cs) error type =
      multi_loop (suc (length (c ∷ cs)))
        (record { variants = []; stop_pos = 0; parser = start_parser (c ∷ cs) error type })
