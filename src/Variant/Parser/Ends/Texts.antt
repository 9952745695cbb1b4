-- ===== src/Variant/Parser/Ends/Texts.antt =====
-- On the end of `parseInString` and `parseInNumber` (src/base/variant.cpp).
use mifsa_base.Base.{
  ℕ, zero, suc, ◌+◌, ◌-◌, ◌≤◌, ◌<◌, true, not, ◌&&◌, ◌||◌, [], ◌∷◌, Option, none, Bytes, ◌==◌,
  if_elim, length, take, drop, arith, ◌≡◌, refl, ap, inl, length-drop, leb, subst,
}
use mifsa_base.Variant.Data.{Variant, Doubles, int, double}
use mifsa_base.Variant.Parser.{Parser, M, at, unread, fail, set_failed}
use mifsa_base.Variant.Parser.Strings.{
  Round, done, bad, bad_behind, more, StringEnd, ended, broken, string_loop, string_round,
  string_end, parse_string,
}
use mifsa_base.Variant.Parser.Numbers.{
  is_digit, is_exponent, digits_end, int_digits10, atoi, parse_double, exponent_digits, exponent,
  fraction, number_tail, integer_part, parse_number,
}
use mifsa_base.Variant.Parser.Ends.{Good, Reached, Ends, AllEnd, const, moved, moved_by}
use mifsa_base.Variant.Parser.Ends.Blanks.{at-lt, skip_from}

-- The end of a string between two positions.
abbrev Within : ℕ → ℕ → StringEnd → Type 0
Within i n (ended j text) = (i ≤ j) × (j ≤ n)
Within i n (broken j msg) = (i ≤ j) × (j ≤ n)

Within-later : (i j m n : ℕ) (r : StringEnd) → i ≤ j → m ≡ n → Within j m r → Within i n r
Within-later i j m n (ended e text) le same (low, high) = (omega arith, omega arith)
Within-later i j m n (broken e msg) le same (low, high) = (omega arith, omega arith)

length-take_one : (s : Bytes) → length (take 1 s) ≤ length s
length-take_one [] = omega arith
length-take_one (c ∷ s) = omega arith

round-Within :
    (i n e : ℕ) (r : Round) (again : ℕ → Option ℕ → Bytes → StringEnd)
    → i + 1 + e ≤ n
    → ((k : ℕ) (last : Option ℕ) (out : Bytes) → Within (i + 1) n (again k last out))
    → Within i n (elim r as (λ _. StringEnd) [
      | done text ↦ ended (i + 1) text
      | bad msg ↦ broken (i + 1) msg
      | bad_behind msg ↦ broken (i + 1 + e) msg
      | more k last out ↦ again k last out
    ])
round-Within i n e (done text) again le h = (omega arith, omega arith)
round-Within i n e (bad msg) again le h = (omega arith, omega arith)
round-Within i n e (bad_behind msg) again le h = (omega arith, le)
round-Within i n e (more k last out) again le h =
    Within-later i (i + 1) n n (again k last out) (omega arith) refl (h k last out)

string_loop-Within :
    (skip : ℕ) (s : Bytes) (i : ℕ) (last : Option ℕ) (out : Bytes)
    → Within i (i + length s) (string_loop skip s i last out)
unfolding string_loop
string_loop-Within skip [] i last out = (omega arith, omega arith)
string_loop-Within (suc n) (ch ∷ cs) i last out =
    Within-later i (i + 1) _ _ (string_loop n cs (i + 1) last out) (omega arith) (omega arith)
      (string_loop-Within n cs (i + 1) last out)
string_loop-Within zero (ch ∷ cs) i last out =
    round-Within i (i + length (ch ∷ cs)) (length (take 1 cs)) (string_round ch cs last out)
      (λ n last' out'. string_loop n cs (i + 1) last' out') (omega (arith, length-take_one cs))
      (λ n last' out'.
        Within-later (i + 1) (i + 1) _ _ (string_loop n cs (i + 1) last' out') (omega arith)
          (omega arith) (string_loop-Within n cs (i + 1) last' out'))

string_end-Ends :
    (s : Bytes) (k : ℕ) (p : Parser) (r : StringEnd)
    → Good s p
    → Reached k p
    → Within p.index (length s) r
    → Ends s (const k) (string_end r p)
unfolding string_end fail set_failed
string_end-Ends s k p (ended i text) good reached (low, high) =
    moved s k i text p good reached low high
string_end-Ends s k p (broken i msg) good reached (low, high) = ((good.0, high), inl refl)

pub parse_string-AllEnd : (s : Bytes) (k : ℕ) → AllEnd s k (const k) parse_string
unfolding parse_string
parse_string-AllEnd s k p good reached =
    string_end-Ends s k p (string_loop 0 (unread p) p.index none []) good reached (
      subst (λ n. Within p.index n (string_loop 0 (unread p) p.index none []))
        (omega (arith, length-drop p.index p.in_string, ap length good.0, good.1))
        (string_loop-Within 0 (unread p) p.index none []))

digit-lt : (s : Bytes) (i : ℕ) → is_digit (at s i) ≡ true → i < length s
digit-lt [] i e = absurd (ground arith)
digit-lt (x ∷ s) zero e = omega arith
digit-lt (x ∷ s) (suc i) e = omega (arith, digit-lt s i e)

sign-lt : (s : Bytes) (i : ℕ) → (at s i == b'+' || at s i == b'-') ≡ true → i < length s
sign-lt [] i e = absurd (ground arith)
sign-lt (x ∷ s) zero e = omega arith
sign-lt (x ∷ s) (suc i) e = omega (arith, sign-lt s i e)

exponent-lt : (s : Bytes) (i : ℕ) → is_exponent (at s i) ≡ true → i < length s
exponent-lt [] i e = absurd (ground arith)
exponent-lt (x ∷ s) zero e = omega arith
exponent-lt (x ∷ s) (suc i) e = omega (arith, exponent-lt s i e)

-- What ends at any position that is `d` further than the parser's.
abbrev Lands : Bytes → ℕ → ℕ → (ℕ → M Variant) → Type 0
Lands s k d m =
    (i : ℕ) (p : Parser)
    → Good s p
    → Reached k p
    → p.index + d ≤ i
    → i ≤ length s
    → Ends s (const (k + d)) (m i p)

module _ (ops : Doubles) (s : Bytes) (k d : ℕ) where
  parse_double-Lands : (start : ℕ) → Lands s k d (parse_double ops start)
  unfolding parse_double
  parse_double-Lands start i p good reached low high =
      moved_by s k d i (double (ops.strtod (drop start p.in_string))) p good reached low high

  digits_end-Lands :
      (start i : ℕ) (p : Parser)
      → Good s p
      → Reached k p
      → p.index + d ≤ i
      → i ≤ length s
      → (p.index + d ≤ digits_end p.in_string i) × (digits_end p.in_string i ≤ length s)
  digits_end-Lands start i p good reached low high =
      let (a, b) = skip_from is_digit p.in_string i (omega (arith, ap length good.0)) in
      (omega arith, omega (arith, ap length good.0))

  exponent_digits-Lands : (start : ℕ) → Lands s k d (exponent_digits ops start)
  unfolding exponent_digits fail set_failed
  exponent_digits-Lands start i p good reached low high =
      if_elim (Ends s (const (k + d))) (not (is_digit (at p.in_string i)))
        (λ _. ((good.0, high), inl refl))
        (λ _.
          let (a, b) = digits_end-Lands start i p good reached low high in
          parse_double-Lands start (digits_end p.in_string i) p good reached a b)

  exponent-Lands : (start : ℕ) → Lands s k d (exponent ops start)
  unfolding exponent
  exponent-Lands start i p good reached low high =
      if_elim (Ends s (const (k + d))) (is_exponent (at p.in_string i))
        (λ e.
          if_elim (λ j. Ends s (const (k + d)) (exponent_digits ops start j p))
            (at p.in_string (i + 1) == b'+' || at p.in_string (i + 1) == b'-')
            (λ sign.
              exponent_digits-Lands start (i + 2) p good reached (omega arith)
                (omega (arith, ap length good.0, sign-lt p.in_string (i + 1) sign)))
            (λ _.
              exponent_digits-Lands start (i + 1) p good reached (omega arith)
                (omega (arith, ap length good.0, exponent-lt p.in_string i e))))
        (λ _. parse_double-Lands start i p good reached low high)

  fraction-Lands : (start : ℕ) → Lands s k d (fraction ops start)
  unfolding fraction fail set_failed
  fraction-Lands start i p good reached low high =
      if_elim (Ends s (const (k + d))) (at p.in_string i == b'.')
        (λ point.
          let less = at-lt s p i _ good point in
          if_elim (Ends s (const (k + d))) (not (is_digit (at p.in_string (i + 1))))
            (λ _. ((good.0, omega arith), inl refl))
            (λ _.
              let (a, b) =
                digits_end-Lands start (i + 1) p good reached (omega arith) (omega arith) in
              exponent-Lands start (digits_end p.in_string (i + 1)) p good reached a b))
        (λ _. exponent-Lands start i p good reached low high)

  number_tail-Lands : (start : ℕ) → Lands s k d (number_tail ops start)
  unfolding number_tail
  number_tail-Lands start i p good reached low high =
      if_elim (Ends s (const (k + d)))
        (not (at p.in_string i == b'.')
          && not (at p.in_string i == b'e')
          && not (at p.in_string i == b'E')
          && leb (i - start) int_digits10)
        (λ _. moved_by s k d i (int (atoi (drop start p.in_string))) p good reached low high)
        (λ _. fraction-Lands start i p good reached low high)

module _ (ops : Doubles) (s : Bytes) (k : ℕ) where
  integer_part-Ends :
      (start i : ℕ) (p : Parser)
      → Good s p
      → Reached k p
      → p.index ≤ i
      → i ≤ length s
      → Ends s (const (k + 1)) (integer_part ops start i p)
  unfolding integer_part fail set_failed
  integer_part-Ends start i p good reached low high =
      if_elim (Ends s (const (k + 1))) (at p.in_string i == b'0')
        (λ zero_first.
          let less = at-lt s p i _ good zero_first in
          if_elim (Ends s (const (k + 1))) (is_digit (at p.in_string (i + 1)))
            (λ _. ((good.0, omega arith), inl refl))
            (λ _.
              number_tail-Lands ops s k 1 start (i + 1) p good reached (omega arith) (omega arith)))
        (λ _.
          if_elim (Ends s (const (k + 1)))
            (leb b'1' (at p.in_string i) && leb (at p.in_string i) b'9')
            (λ digit.
              let less : i < length p.in_string = digit-lt p.in_string i (ground (arith, digit)) in
              let (a, b) =
                digits_end-Lands ops s k 1 start (i + 1) p good reached (omega arith)
                  (omega (arith, less, ap length good.0)) in
              number_tail-Lands ops s k 1 start (digits_end p.in_string (i + 1)) p good reached a b)
            (λ _. ((good.0, high), inl refl)))

  pub parse_number-AllEnd : AllEnd s k (const (k + 1)) (parse_number ops)
  unfolding parse_number
  parse_number-AllEnd p good reached =
      if_elim (λ i. Ends s (const (k + 1)) (integer_part ops p.index i p))
        (at p.in_string p.index == b'-')
        (λ sign.
          let less = at-lt s p p.index _ good sign in
          integer_part-Ends p.index (p.index + 1) p good reached (omega arith) (omega arith))
        (λ _. integer_part-Ends p.index p.index p good reached (omega arith) good.1)
