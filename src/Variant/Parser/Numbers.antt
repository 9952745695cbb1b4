-- ===== src/Variant/Parser/Numbers.antt =====
-- `parseInNumber` of src/base/variant.cpp.
use mifsa_base.Base.{
  ℕ, zero, suc, ◌+◌, ◌-◌, ◌*◌, Bool, not, ◌&&◌, ◌||◌, [], ◌∷◌, ◌++◌, some, Bytes, codes, leb, ◌==◌,
  if◌then◌else◌, drop,
}
use mifsa_base.Base.Int.{ℤ, pos, negsuc}
use mifsa_base.Variant.Data.{Variant, Doubles, null, int, double}
use mifsa_base.Variant.Parser.{M, at, skip_while, fail, esc}

abbrev pub is_digit : ℕ → Bool
is_digit c = leb b'0' c && leb c b'9'

-- `atoi` of a sign and digits.
unfoldable pub digits_value : Bytes → ℕ → ℕ
digits_value [] n = n
digits_value (c ∷ cs) n = if is_digit c then digits_value cs (n * 10 + (c - b'0')) else n

unfoldable pub negate : ℕ → ℤ
negate zero = pos 0
negate (suc n) = negsuc n

unfoldable pub atoi : Bytes → ℤ
atoi [] = pos 0
atoi (c ∷ cs) = if c == b'-' then negate (digits_value cs 0) else pos (digits_value (c ∷ cs) 0)

-- `std::numeric_limits<int>::digits10`
abbrev pub int_digits10 : ℕ
int_digits10 = 9

-- The position behind the digits at `i`.
abbrev pub digits_end : Bytes → ℕ → ℕ
digits_end s i = skip_while is_digit (drop i s) i

abbrev pub is_exponent : ℕ → Bool
is_exponent c = c == b'e' || c == b'E'

module _ (ops : Doubles) where
  unfoldable pub parse_double : ℕ → ℕ → M Variant
  parse_double start i p =
      some (double (ops.strtod (drop start p.in_string)), record p { index = i })

  -- `i` stands behind the sign of an exponent.
  unfoldable pub exponent_digits : ℕ → ℕ → M Variant
  unfolding parse_double fail skip_while
  exponent_digits start i p =
      if not (is_digit (at p.in_string i))
      then fail (codes "at least one digit required in exponent") null (record p { index = i })
      else parse_double start (digits_end p.in_string i) p

  unfoldable pub exponent : ℕ → ℕ → M Variant
  unfolding exponent_digits parse_double
  exponent start i p =
      if is_exponent (at p.in_string i)
      then exponent_digits start
          (if at p.in_string (i + 1) == b'+' || at p.in_string (i + 1) == b'-'
            then i + 2
            else i + 1)
          p
      else parse_double start i p

  unfoldable pub fraction : ℕ → ℕ → M Variant
  unfolding exponent fail skip_while
  fraction start i p =
      if at p.in_string i == b'.'
      then (if not (is_digit (at p.in_string (i + 1)))
          then fail (codes "at least one digit required in fractional part") null
              (record p { index = i + 1 })
          else exponent start (digits_end p.in_string (i + 1)) p)
      else exponent start i p

  -- Behind the digits before the point.
  unfoldable pub number_tail : ℕ → ℕ → M Variant
  number_tail start i p =
      let c = at p.in_string i in
      if not (c == b'.') && not (c == b'e') && not (c == b'E') && leb (i - start) int_digits10
      then some (int (atoi (drop start p.in_string)), record p { index = i })
      else fraction start i p

  -- Behind the sign.
  unfoldable pub integer_part : ℕ → ℕ → M Variant
  unfolding fail esc
  integer_part start i p =
      let c = at p.in_string i in
      if c == b'0'
      then (if is_digit (at p.in_string (i + 1))
          then fail (codes "leading 0s not permitted in numbers") null (record p { index = i + 1 })
          else number_tail start (i + 1) p)
      else if leb b'1' c && leb c b'9'
      then number_tail start (digits_end p.in_string (i + 1)) p
      else fail (codes "invalid " ++ esc c ++ codes " in number") null (record p { index = i })

  unfoldable pub parse_number : M Variant
  parse_number p =
      integer_part p.index (if at p.in_string p.index == b'-' then p.index + 1 else p.index) p
