-- ===== src/Variant/Parser/Values.antt =====
-- `parseInExpect`, `parseIn`, `fromJson` and `fromJsonMulti` of src/base/variant.cpp. `parse_in` counts down
-- the levels that are left, `room = max_depth + 1 - depth`, where the code counts `depth` up.
use mifsa_base.Base.{
  ℕ, zero, suc, ◌+◌, ◌-◌, true, false, not, ◌||◌, [], ◌∷◌, ◌++◌, Option, some, Bytes, codes, ◌==◌,
  if◌then◌else◌, length, take, starts,
}
use mifsa_base.Variant.Data.{
  Variant, VariantList, VariantMap, Doubles, ParseType, null, bool, string, list, map, nil, end,
  map_set, push_back,
}
use mifsa_base.Variant.Print.{max_depth}
use mifsa_base.Variant.Parser.{
  read_token, skip_while, consume_if_comments, consume_comments, consume_comment,
  consume_whitespace, Parser, M, ◌>>=◌, ◌>>◌, pure, out_of_fuel, failed?, at, unread, fail, esc,
  consume_garbage, next_token,
}
use mifsa_base.Variant.Parser.Strings.{parse_string, string_loop, string_round}
use mifsa_base.Variant.Parser.Numbers.{
  is_digit, parse_number, integer_part, number_tail, fraction, atoi, digits_value, negate,
}

-- `index--`
abbrev pub step_back : M (Unit {0})
step_back p = some (tt, record p { index = p.index - 1 })

unfoldable pub expect_at : Bytes → Variant → M Variant
unfolding starts fail
expect_at expected res p =
    if starts expected (unread p)
    then some (res, record p { index = p.index + length expected })
    else fail
        (codes "parse error: expected "
          ++ expected
          ++ codes ", got "
          ++ take (length expected) (unread p))
        null p

-- `parseInExpect`
unfoldable pub parse_expect : Bytes → Variant → M Variant
unfolding fail
parse_expect expected res p =
    if p.index == 0
    then fail (codes "parse error: expected " ++ expected ++ codes ", index can not be zero") null p
    else expect_at expected res (record p { index = p.index - 1 })

expected_got : Bytes → ℕ → Bytes
unfolding esc
expected_got what ch = codes "expected " ++ what ++ codes ", got " ++ esc ch

-- `if (isFailed) return virtualData();`
abbrev pub unless_failed : M Variant → M Variant
unless_failed m = failed? >>= λ failed. if failed then pure null else m

-- Behind an element of a list; `again` is the next round of the loop.
unfoldable pub list_separator : VariantList → M Variant → M Variant
unfolding fail expected_got
list_separator items again = next_token >>= λ sep.
    if sep == b']'
    then pure (list items)
    else if not (sep == b',')
    then fail (expected_got (codes "',' in list") sep) null
    else (next_token >>= λ ch. again)

-- The loop of `parseIn` behind `[`; `sub` is the call `parseIn(depth + 1)`.
unfoldable pub list_loop : ℕ → M Variant → VariantList → M Variant
list_loop zero sub items = out_of_fuel
list_loop (suc fuel) sub items =
    step_back
    >> (sub >>= λ v.
        let items' = push_back items v in
        unless_failed (list_separator items' (list_loop fuel sub items')))

-- Behind a member of an object; `again` is the next round, on the token that it begins with.
unfoldable pub object_separator : VariantMap → (ℕ → M Variant) → M Variant
unfolding fail expected_got
object_separator members again = next_token >>= λ sep.
    if sep == b'}'
    then pure (map members)
    else if not (sep == b',')
    then fail (expected_got (codes "',' in object") sep) null
    else (next_token >>= again)

-- Behind a key.
unfoldable pub object_value : M Variant → (Variant → M Variant) → M Variant
unfolding fail expected_got
object_value sub then_do = next_token >>= λ ch.
    if not (ch == b':')
    then fail (expected_got (codes "':' in object") ch) null
    else (sub >>= λ v. unless_failed (then_do v))

-- The loop of `parseIn` behind `{`.
unfoldable pub object_loop : ℕ → M Variant → VariantMap → ℕ → M Variant
unfolding fail expected_got
object_loop zero sub members ch = out_of_fuel
object_loop (suc fuel) sub members ch =
    if not (ch == b'"')
    then fail (expected_got (codes "'\"' in object") ch) null
    else (parse_string >>= λ key. unless_failed (
        object_value sub λ v.
          let members' = map_set key v members in
          object_separator members' (object_loop fuel sub members')))

-- Each round of a loop reads at least one byte, so that this fuel suffices.
abbrev pub loop_fuel : Parser → ℕ
loop_fuel p = suc (length p.in_string)

unfoldable pub parse_text : M Variant
parse_text = parse_string >>= λ s. pure (string s)

unfoldable pub list_start : M Variant → M Variant
list_start sub p = list_loop (loop_fuel p) sub nil p

unfoldable pub object_start : M Variant → ℕ → M Variant
object_start sub ch p = object_loop (loop_fuel p) sub end ch p

unfoldable pub parse_list : M Variant → M Variant
parse_list sub = next_token >>= λ ch. if ch == b']' then pure (list nil) else list_start sub

unfoldable pub parse_object : M Variant → M Variant
parse_object sub = next_token >>= λ ch. if ch == b'}' then pure (map end) else object_start sub ch

abbrev pub full_room : ℕ
full_room = suc max_depth

abbrev pub start_parser : Bytes → Option Bytes → ParseType → Parser
start_parser json error type = record {
  in_string = json;
  parse_type = type;
  index = 0;
  is_failed = false;
  error_string = error;
}

module _ (ops : Doubles) where
  -- What follows the first token `ch` of a value.
  unfoldable pub parse_value : M Variant → ℕ → M Variant
  unfolding parse_expect parse_string parse_text parse_number parse_object parse_list fail
      expected_got
  parse_value sub ch =
      if ch == b'-' || is_digit ch
      then step_back >> parse_number ops
      else if ch == b't'
      then parse_expect (codes "true") (bool true)
      else if ch == b'f'
      then parse_expect (codes "false") (bool false)
      else if ch == b'n'
      then parse_expect (codes "null") null
      else if ch == b'"'
      then parse_text
      else if ch == b'{'
      then parse_object sub
      else if ch == b'['
      then parse_list sub
      else fail (expected_got (codes "value") ch) null

  -- `parseIn`
  unfoldable pub parse_in : ℕ → M Variant
  unfolding fail
  parse_in zero = fail (codes "exceeded maximum nesting depth") null
  parse_in (suc room) = next_token >>= λ ch. unless_failed (parse_value (parse_in room) ch)

  -- What `fromJson` returns when the value is read.
  unfoldable pub finish : Variant → M Variant
  unfolding fail esc
  finish result p =
      if p.is_failed
      then some (null, p)
      else if not (p.index == length p.in_string)
      then fail (codes "unexpected trailing " ++ esc (at p.in_string p.index)) null p
      else some (result, p)

  unfoldable pub read_all : M Variant
  read_all = parse_in full_room >>= λ result. consume_garbage >> finish result

  -- `fromJson`: the value, with the final state of the parser, which holds the error message.
  unfoldable pub from_json : Bytes → Option Bytes → ParseType → Option (Variant × Parser)
  unfolding read_all parse_in parse_value parse_object parse_list parse_text parse_expect expect_at
      parse_number integer_part number_tail fraction atoi digits_value negate skip_while finish
      object_loop list_loop object_value object_separator object_start list_separator list_start
      map_set push_back parse_string string_loop string_round next_token read_token consume_garbage
      consume_if_comments consume_comments consume_comment consume_whitespace
  from_json [] error type = some (null, start_parser [] error type)
  from_json (c ∷ cs) error type = read_all (start_parser (c ∷ cs) error type)
