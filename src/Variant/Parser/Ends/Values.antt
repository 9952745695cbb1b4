-- ===== src/Variant/Parser/Ends/Values.antt =====
-- On the end of `parseIn` and `fromJson` (src/base/variant.cpp).
use mifsa_base.Base.{
  ℕ, zero, suc, ◌+◌, ◌-◌, ◌≤◌, ◌<◌, true, false, not, ◌||◌, [], ◌∷◌, Option, none, some, Bytes,
  codes, ◌==◌, if_elim, length, arith, ◌≡◌, refl, ap, inl, inr, length-drop, starts,
}
use mifsa_base.Variant.Data.{
  Variant, VariantList, VariantMap, Doubles, ParseType, null, bool, string, list, map, nil, end,
  map_set, push_back,
}
use mifsa_base.Variant.Parser.{Parser, M, unread, fail, set_failed, next_token, consume_garbage}
use mifsa_base.Variant.Parser.Strings.{parse_string}
use mifsa_base.Variant.Parser.Numbers.{is_digit}
use mifsa_base.Variant.Parser.Values.{
  step_back, expect_at, parse_expect, list_separator, list_loop, object_separator, object_value,
  object_loop, parse_text, list_start, object_start, parse_list, parse_object, start_parser,
  parse_value, parse_in, finish, read_all, from_json, full_room,
}
use mifsa_base.Variant.Parser.Ends.{
  Ends, AllEnd, const, AllEnd-bind, AllEnd-pure, AllEnd-unless, AllEnd-from, AllEnd-weaken,
  moved_by,
}
use mifsa_base.Variant.Parser.Ends.Blanks.{next_token-AllEnd, consume_garbage-AllEnd}
use mifsa_base.Variant.Parser.Ends.Texts.{parse_string-AllEnd, parse_number-AllEnd}

starts-length : (e s : Bytes) → starts e s ≡ true → length e ≤ length s
unfolding starts
starts-length [] s h = omega arith
starts-length (x ∷ e) [] h = absurd cc
starts-length (x ∷ e) (y ∷ s) h =
    let rest : starts e s ≡ true = ground (arith, h) in omega (arith, starts-length e s rest)

step_back-AllEnd : (s : Bytes) (k : ℕ) → AllEnd s (k + 1) (const k) step_back
step_back-AllEnd s k p good (inl failed) = ((good.0, omega (arith, good.1)), inl failed)
step_back-AllEnd s k p good (inr at_least) = ((good.0, omega (arith, good.1)), inr (omega arith))

expect_at-AllEnd :
    (s : Bytes) (k : ℕ) (e : Bytes) (res : Variant)
    → AllEnd s k (const (k + length e)) (expect_at e res)
unfolding expect_at fail set_failed
expect_at-AllEnd s k e res p good reached =
    if_elim (Ends s (const (k + length e))) (starts e (unread p))
      (λ h. moved_by s k (length e) (p.index + length e) res p good reached (omega arith) (
        omega (
          arith,
          starts-length e (unread p) h,
          length-drop p.index p.in_string,
          ap length good.0,
          good.1,
        )))
      (λ _. (good, inl refl))

parse_expect-AllEnd :
    (s : Bytes) (k : ℕ) (e : Bytes) (res : Variant)
    → 0 < length e
    → AllEnd s (k + 1) (const (k + 1)) (parse_expect e res)
unfolding parse_expect fail set_failed
parse_expect-AllEnd s k e res some_text p good reached =
    if_elim (Ends s (const (k + 1))) (p.index == 0) (λ _. (good, inl refl))
      (λ _.
        let back = step_back-AllEnd s k p good reached in
        AllEnd-weaken s k (k + length e) (const (k + 1)) (expect_at e res) (λ _. omega arith)
          (expect_at-AllEnd s k e res) (record p { index = p.index - 1 }) back.0 back.1)

list_separator-AllEnd :
    (s : Bytes) (k q : ℕ) (items : VariantList) (again : M Variant)
    → q ≤ k
    → AllEnd s (k + 2) (const q) again
    → AllEnd s k (const q) (list_separator items again)
unfolding list_separator fail set_failed
list_separator-AllEnd s k q items again le h =
    AllEnd-bind s k (const (k + 1)) (const q) next_token _ (next_token-AllEnd s k) (λ sep.
      if_elim (AllEnd s (k + 1) (const q)) (sep == b']')
        (λ _. AllEnd-pure s (k + 1) (const q) (list items) (omega arith))
        (λ _.
          if_elim (AllEnd s (k + 1) (const q)) (not (sep == b','))
            (λ _ p good reached. (good, inl refl))
            (λ _.
              AllEnd-bind s (k + 1) (const (k + 1 + 1)) (const q) next_token (λ _. again)
                (next_token-AllEnd s (k + 1))
                (λ _. AllEnd-from s (k + 2) (k + 1 + 1) (const q) again (omega arith) h))))

list_loop-AllEnd :
    (fuel : ℕ) (s : Bytes) (j q : ℕ) (sub : M Variant) (items : VariantList)
    → ((k : ℕ) → AllEnd s k (const k) sub)
    → q ≤ j
    → 0 < fuel
    → length s + 1 < fuel + j
    → AllEnd s (j + 1) (const q) (list_loop fuel sub items)
unfolding list_loop
list_loop-AllEnd zero s j q sub items h le some_fuel enough = absurd (omega arith)
list_loop-AllEnd (suc fuel) s j q sub items h le some_fuel enough =
    AllEnd-bind s (j + 1) (const j) (const q) step_back _ (step_back-AllEnd s j) (λ _.
      AllEnd-bind s j (const j) (const q) sub _ (h j) (λ v.
        AllEnd-unless s j (const q) null _ (λ inside.
          list_separator-AllEnd s j q (push_back items v) (list_loop fuel sub (push_back items v))
            le
            (AllEnd-from s (j + 1 + 1) (j + 2) (const q) _ (omega arith) (
              list_loop-AllEnd fuel s (j + 1) q sub (push_back items v) h (omega arith)
                (omega arith) (omega arith))))))

object_separator-AllEnd :
    (s : Bytes) (k q : ℕ) (members : VariantMap) (again : ℕ → M Variant)
    → q ≤ k
    → ((ch : ℕ) → AllEnd s (k + 1 + 1) (const q) (again ch))
    → AllEnd s k (const q) (object_separator members again)
unfolding object_separator fail set_failed
object_separator-AllEnd s k q members again le h =
    AllEnd-bind s k (const (k + 1)) (const q) next_token _ (next_token-AllEnd s k) (λ sep.
      if_elim (AllEnd s (k + 1) (const q)) (sep == b'}')
        (λ _. AllEnd-pure s (k + 1) (const q) (map members) (omega arith))
        (λ _.
          if_elim (AllEnd s (k + 1) (const q)) (not (sep == b','))
            (λ _ p good reached. (good, inl refl))
            (λ _.
              AllEnd-bind s (k + 1) (const (k + 1 + 1)) (const q) next_token again
                (next_token-AllEnd s (k + 1)) h)))

object_value-AllEnd :
    (s : Bytes) (k q : ℕ) (sub : M Variant) (then_do : Variant → M Variant)
    → ((j : ℕ) → AllEnd s j (const j) sub)
    → ((v : Variant) → k + 1 ≤ length s → AllEnd s (k + 1) (const q) (then_do v))
    → AllEnd s k (const q) (object_value sub then_do)
unfolding object_value fail set_failed
object_value-AllEnd s k q sub then_do h then_ends =
    AllEnd-bind s k (const (k + 1)) (const q) next_token _ (next_token-AllEnd s k) (λ ch.
      if_elim (AllEnd s (k + 1) (const q)) (not (ch == b':')) (λ _ p good reached. (good, inl refl))
        (λ _.
          AllEnd-bind s (k + 1) (const (k + 1)) (const q) sub _ (h (k + 1))
            (λ v. AllEnd-unless s (k + 1) (const q) null (then_do v) (then_ends v))))

object_loop-AllEnd :
    (fuel : ℕ) (s : Bytes) (k q : ℕ) (sub : M Variant) (members : VariantMap) (ch : ℕ)
    → ((j : ℕ) → AllEnd s j (const j) sub)
    → q ≤ k
    → 0 < fuel
    → length s < fuel + k
    → AllEnd s k (const q) (object_loop fuel sub members ch)
unfolding object_loop fail set_failed
object_loop-AllEnd zero s k q sub members ch h le some_fuel enough = absurd (omega arith)
object_loop-AllEnd (suc fuel) s k q sub members ch h le some_fuel enough =
    if_elim (AllEnd s k (const q)) (not (ch == b'"')) (λ _ p good reached. (good, inl refl))
      (λ _. AllEnd-bind s k (const k) (const q) parse_string _ (parse_string-AllEnd s k) (λ key.
        AllEnd-unless s k (const q) null _ (λ _. object_value-AllEnd s k q sub _ h (λ v inside.
          let members' = map_set key v members in
          object_separator-AllEnd s (k + 1) q members' (object_loop fuel sub members') (omega arith)
            (λ ch'.
              object_loop-AllEnd fuel s (k + 1 + 1 + 1) q sub members' ch' h (omega arith)
                (omega arith) (omega arith))))))

parse_list-AllEnd :
    (s : Bytes) (k : ℕ) (sub : M Variant)
    → ((j : ℕ) → AllEnd s j (const j) sub)
    → AllEnd s (k + 1) (const (k + 1)) (parse_list sub)
unfolding parse_list list_start
parse_list-AllEnd s k sub h =
    AllEnd-bind s (k + 1) (const (k + 1 + 1)) (const (k + 1)) next_token _
      (next_token-AllEnd s (k + 1))
      (λ ch.
        if_elim (AllEnd s (k + 1 + 1) (const (k + 1))) (ch == b']')
          (λ _. AllEnd-pure s (k + 1 + 1) (const (k + 1)) (list nil) (omega arith))
          (λ _ p good reached.
            list_loop-AllEnd (suc (length p.in_string)) s (k + 1) (k + 1) sub nil h (omega arith)
              (omega arith) (omega (arith, ap length good.0)) p good reached))

parse_object-AllEnd :
    (s : Bytes) (k : ℕ) (sub : M Variant)
    → ((j : ℕ) → AllEnd s j (const j) sub)
    → AllEnd s (k + 1) (const (k + 1)) (parse_object sub)
unfolding parse_object object_start
parse_object-AllEnd s k sub h =
    AllEnd-bind s (k + 1) (const (k + 1 + 1)) (const (k + 1)) next_token _
      (next_token-AllEnd s (k + 1))
      (λ ch.
        if_elim (AllEnd s (k + 1 + 1) (const (k + 1))) (ch == b'}')
          (λ _. AllEnd-pure s (k + 1 + 1) (const (k + 1)) (map end) (omega arith))
          (λ _ p good reached.
            object_loop-AllEnd (suc (length p.in_string)) s (k + 1 + 1) (k + 1) sub end ch h
              (omega arith) (omega arith) (omega (arith, ap length good.0)) p good reached))

parse_text-AllEnd : (s : Bytes) (k : ℕ) → AllEnd s (k + 1) (const (k + 1)) parse_text
unfolding parse_text
parse_text-AllEnd s k =
    AllEnd-bind s (k + 1) (const (k + 1)) (const (k + 1)) parse_string _
      (parse_string-AllEnd s (k + 1))
      (λ t. AllEnd-pure s (k + 1) (const (k + 1)) (string t) (omega arith))

module _ (ops : Doubles) (s : Bytes) where
  parse_value-AllEnd :
      (k : ℕ) (sub : M Variant) (ch : ℕ)
      → ((j : ℕ) → AllEnd s j (const j) sub)
      → AllEnd s (k + 1) (const (k + 1)) (parse_value ops sub ch)
  unfolding parse_value fail set_failed
  parse_value-AllEnd k sub ch h =
      let goal = AllEnd s (k + 1) (const (k + 1)) in
      if_elim goal (ch == b'-' || is_digit ch)
        (λ _.
          AllEnd-bind s (k + 1) (const k) (const (k + 1)) step_back _ (step_back-AllEnd s k)
            (λ _. parse_number-AllEnd ops s k))
        (λ _.
          if_elim goal (ch == b't')
            (λ _. parse_expect-AllEnd s k (codes "true") (bool true) (omega arith))
            (λ _.
              if_elim goal (ch == b'f')
                (λ _. parse_expect-AllEnd s k (codes "false") (bool false) (omega arith))
                (λ _.
                  if_elim goal (ch == b'n')
                    (λ _. parse_expect-AllEnd s k (codes "null") null (omega arith))
                    (λ _.
                      if_elim goal (ch == b'"') (λ _. parse_text-AllEnd s k)
                        (λ _.
                          if_elim goal (ch == b'{') (λ _. parse_object-AllEnd s k sub h)
                            (λ _.
                              if_elim goal (ch == b'[') (λ _. parse_list-AllEnd s k sub h)
                                (λ _ p good reached. (good, inl refl))))))))

  pub parse_in-AllEnd : (room k : ℕ) → AllEnd s k (const (k + 1)) (parse_in ops room)
  unfolding parse_in fail set_failed
  parse_in-AllEnd zero k = λ p good reached. (good, inl refl)
  parse_in-AllEnd (suc room) k =
      AllEnd-bind s k (const (k + 1)) (const (k + 1)) next_token _ (next_token-AllEnd s k) (λ ch.
        AllEnd-unless s (k + 1) (const (k + 1)) null _ (λ _.
          parse_value-AllEnd k (parse_in ops room) ch (λ j.
            AllEnd-weaken s j (j + 1) (const j) (parse_in ops room) (λ _. omega arith)
              (parse_in-AllEnd room j))))

  finish-AllEnd : (result : Variant) → AllEnd s 0 (const 0) (finish ops result)
  unfolding finish fail set_failed
  finish-AllEnd result p good reached =
      if_elim (Ends s (const 0)) p.is_failed (λ _. (good, reached))
        (λ _.
          if_elim (Ends s (const 0)) (not (p.index == length p.in_string)) (λ _. (good, inl refl))
            (λ _. (good, reached)))

  read_all-AllEnd : AllEnd s 0 (const 0) (read_all ops)
  unfolding read_all
  read_all-AllEnd =
      AllEnd-bind s 0 (const 0) (const 0) (parse_in ops full_room) _
        (AllEnd-weaken s 0 1 (const 0) (parse_in ops full_room) (λ _. omega arith)
          (parse_in-AllEnd full_room 0))
        (λ result.
          AllEnd-bind s 0 (const 0) (const 0) consume_garbage (λ _. finish ops result)
            (consume_garbage-AllEnd s 0) (λ _. finish-AllEnd result))

-- There is a value and a parser that stands in the text.
abbrev pub Returns : Bytes → Option (Variant × Parser) → Type 0
Returns json r =
    (v : Variant) × (p : Parser) × (r ≡ some (v, p))
    × (p.in_string ≡ json)
    × (p.index ≤ length json)

Ends-Returns :
    (json : Bytes) (r : Option (Variant × Parser)) → Ends json (const 0) r → Returns json r
Ends-Returns json none h = absurd h
Ends-Returns json (some (v, p)) (good, reached) = (v, p, refl, good.0, good.1)

pub from_json-Returns :
    (ops : Doubles) (json : Bytes) (error : Option Bytes) (type : ParseType)
    → Returns json (from_json ops json error type)
unfolding from_json
from_json-Returns ops [] error type = (null, start_parser [] error type, refl, refl, omega arith)
from_json-Returns ops (c ∷ cs) error type =
    Ends-Returns (c ∷ cs) (read_all ops (start_parser (c ∷ cs) error type)) (
      read_all-AllEnd ops (c ∷ cs) (start_parser (c ∷ cs) error type) (refl, omega arith)
        (inr (omega arith)))
