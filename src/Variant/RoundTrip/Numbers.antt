-- ===== src/Variant/RoundTrip/Numbers.antt =====
-- `parseInNumber` of src/base/variant.cpp reads back an `int` that `parseOut` wrote, if it has at most
-- nine characters.
use native.Mathlib.Nat.{pow-suc}
use mathlib.Core.List.{append_assoc}
use mifsa_base.Base.{
  ℕ, zero, suc, ◌+◌, ◌/◌, ◌%◌, ◌^◌, ◌≤◌, ◌<◌, true, false, ◌||◌, [], ◌∷◌, ◌++◌, some, ◌≡◌, ◌≢◌, inl,
  inr, refl, sym, ap, ◌∙◌, arith, Bytes, ◌==◌, ltb, length, length-append, drop, if_elim, subst,
  Bool-cases, ==_iff, ℕ-cases, ltb→lt,
}
use mifsa_base.Base.Int.{ℤ, pos, negsuc}
use mifsa_base.Variant.Data.{Doubles, int}
use mifsa_base.Variant.Parser.Numbers.{
  is_digit, digits_value, negate, atoi, number_tail, integer_part, parse_number,
}
use mifsa_base.Variant.Parser.{Parser, peek, advance, skip_while}
use mifsa_base.Variant.Print.{decimal, print_int}
use mifsa_base.Variant.RoundTrip.Cursor.{At, Yields, At-advance, At-peek, At-peek_end}

-- What follows a number neither goes on with it nor makes it a double.
abbrev pub Stops : Bytes → Type 0
Stops [] = Unit
Stops (c ∷ r) = (is_digit c ≡ false) × (c ≢ b'.') × (c ≢ b'e') × (c ≢ b'E')

-- The texts that `%d` writes for the number `n`.
data Decimal : ℕ → Bytes → Type 0 where
  one : {n : ℕ} {text : Bytes} → n < 10 → text ≡ (b'0' + n % 10) ∷ [] → Decimal n text
  more :
      {n : ℕ} {text : Bytes} (front : Bytes)
      → 10 ≤ n
      → Decimal (n / 10) front
      → text ≡ front ++ (b'0' + n % 10) ∷ []
      → Decimal n text

decimal-Decimal : (f n : ℕ) → n < 10 ^ suc f → Decimal n (decimal (suc f) n)
unfolding decimal
decimal-Decimal zero n h = one (omega arith) (ground arith)
decimal-Decimal (suc f) n h = elim (Bool-cases (ltb n 10)) [
  | inl e ↦ one (ltb→lt n 10 e) (rw e)
  | inr e ↦
      more (decimal (suc f) (n / 10)) (ground arith)
        (decimal-Decimal f (n / 10) (omega (arith, pow-suc 10 (suc f)))) (rw e)
]

digit_step :
    (n : ℕ) (rest : Bytes) → digits_value ((b'0' + n % 10) ∷ rest) (n / 10) ≡ digits_value rest n
unfolding digits_value
digit_step n rest = ground arith

digits_value-Decimal :
    (n : ℕ) (text rest : Bytes)
    → Decimal n text
    → digits_value (text ++ rest) 0 ≡ digits_value rest n
digits_value-Decimal n text rest (one h e) =
    rw e (ap (digits_value ((b'0' + n % 10) ∷ rest)) (omega arith) ∙ digit_step n rest)
digits_value-Decimal n text rest (more front h d e) =
    rw (e, append_assoc) (digits_value-Decimal (n / 10) front _ d ∙ digit_step n rest)

is_digit-digit : (n : ℕ) → is_digit (b'0' + n % 10) ≡ true
is_digit-digit n = ground arith

skip_digit :
    (n i : ℕ) (rest : Bytes)
    → skip_while is_digit ((b'0' + n % 10) ∷ rest) i ≡ skip_while is_digit rest (i + 1)
unfolding skip_while
skip_digit n i rest = rw (is_digit-digit n)

skip_while-Decimal :
    (n : ℕ) (text rest : Bytes) (i : ℕ)
    → Decimal n text
    → skip_while is_digit (text ++ rest) i ≡ skip_while is_digit rest (i + length text)
skip_while-Decimal n text rest i (one h e) = rw e (skip_digit n i rest)
skip_while-Decimal n text rest i (more front h d e) =
    rw (e, append_assoc, length-append front ((b'0' + n % 10) ∷ []))
      (skip_while-Decimal (n / 10) front _ i d
        ∙ skip_digit n _ rest
        ∙ ap (skip_while is_digit rest) (omega arith))

-- The first digit is zero only where the number is.
data Leading (n : ℕ) (text : Bytes) : Type 0 where
  zero_only : n ≡ 0 → text ≡ b'0' ∷ [] → Leading n text
  nonzero : (c : ℕ) (t : Bytes) → b'1' ≤ c → c ≤ b'9' → text ≡ c ∷ t → Leading n text

Decimal-Leading : (n : ℕ) (text : Bytes) → Decimal n text → Leading n text
Decimal-Leading n text (one h e) = elim (ℕ-cases n) [
  | inl z ↦ zero_only z (e ∙ ap (λ x. x ∷ []) (omega arith))
  | inr p ↦ nonzero (b'0' + n % 10) [] (omega arith) (omega arith) e
]
Decimal-Leading n text (more front h d e) = elim (Decimal-Leading (n / 10) front d) [
  | zero_only z _ ↦ absurd (omega arith)
  | nonzero c t lo hi s ↦
      nonzero c (t ++ (b'0' + n % 10) ∷ []) lo hi (e ∙ ap (λ x. x ++ (b'0' + n % 10) ∷ []) s)
]

length-Decimal-le : (k n : ℕ) (text : Bytes) → Decimal n text → n < 10 ^ k → 0 < k → length text ≤ k
length-Decimal-le zero n text d h p = absurd (omega arith)
length-Decimal-le (suc k) n text (one _ e) h p = rw e (omega arith)
length-Decimal-le (suc zero) n text (more front ge d e) h p = absurd (omega arith)
length-Decimal-le (suc (suc k)) n text (more front ge d e) h p =
    rw (e, length-append front ((b'0' + n % 10) ∷ []))
      (omega (
        arith,
        length-Decimal-le (suc k) (n / 10) front d (omega (arith, pow-suc 10 (suc k)))
            (omega arith),
      ))

abbrev head0 : Bytes → ℕ
head0 [] = 0
head0 (c ∷ r) = c

peek-head0 : (p : Parser) (r : Bytes) → At p r → peek p ≡ head0 r
peek-head0 p [] h = At-peek_end p h
peek-head0 p (c ∷ r) h = At-peek p h

not_digit-Stops : (r : Bytes) → Stops r → is_digit (head0 r) ≡ false
not_digit-Stops [] s = refl
not_digit-Stops (c ∷ r) s = s.0

skip_while-Stops : (r : Bytes) (i : ℕ) → Stops r → skip_while is_digit r i ≡ i
unfolding skip_while
skip_while-Stops [] i s = refl
skip_while-Stops (c ∷ r) i s = rw s.0

skip_one :
    (i c : ℕ) (r : Bytes)
    → b'1' ≤ c
    → c ≤ b'9'
    → skip_while is_digit (c ∷ r) i ≡ skip_while is_digit r (i + 1)
unfolding skip_while
skip_one i c r lo hi = ground arith

first_digit :
    (n : ℕ) (p : Parser) (text r : Bytes) → Decimal n text → At p (text ++ r) → b'0' ≤ peek p
first_digit n p text r d h = elim (Decimal-Leading n text d) [
  | zero_only _ e ↦ omega (arith, At-peek p (subst (λ x. At p (x ++ r)) e h))
  | nonzero c t lo _ e ↦ omega (arith, At-peek p (subst (λ x. At p (x ++ r)) e h))
]

digits_value-Stops : (r : Bytes) (n : ℕ) → Stops r → digits_value r n ≡ n
unfolding digits_value
digits_value-Stops [] n s = refl
digits_value-Stops (c ∷ r) n s = rw s.0

value-Decimal : (n : ℕ) (text r : Bytes) → Decimal n text → Stops r → digits_value (text ++ r) 0 ≡ n
value-Decimal n text r d s = digits_value-Decimal n text r d ∙ digits_value-Stops r n s

atoi_unsigned : (c : ℕ) (t : Bytes) → b'0' ≤ c → atoi (c ∷ t) ≡ pos (digits_value (c ∷ t) 0)
unfolding atoi
atoi_unsigned c t h = ground arith

atoi-Decimal : (n : ℕ) (text r : Bytes) → Decimal n text → Stops r → atoi (text ++ r) ≡ pos n
atoi-Decimal n text r d s = elim (Decimal-Leading n text d) [
  | zero_only _ e ↦
      ap (λ x. atoi (x ++ r)) e
      ∙ atoi_unsigned b'0' r (omega arith)
      ∙ ap (λ x. pos (digits_value (x ++ r) 0)) (sym e)
      ∙ ap pos (value-Decimal n text r d s)
  | nonzero c t lo _ e ↦
      ap (λ x. atoi (x ++ r)) e
      ∙ atoi_unsigned c (t ++ r) (omega arith)
      ∙ ap (λ x. pos (digits_value (x ++ r) 0)) (sym e)
      ∙ ap pos (value-Decimal n text r d s)
]

atoi-Decimal_neg :
    (n : ℕ) (text r : Bytes) → Decimal (suc n) text → Stops r → atoi (b'-' ∷ text ++ r) ≡ negsuc n
unfolding atoi negate
atoi-Decimal_neg n text r d s = rw (value-Decimal (suc n) text r d s)

module _ (ops : Doubles) (start : ℕ) (p : Parser) where
  abbrev Behind : ℕ → Bytes → Type 0
  Behind i r = At (record p { index = i }) r

  integer_part-zero :
      (i : ℕ) (r : Bytes)
      → Behind i (b'0' ∷ r)
      → Stops r
      → integer_part ops start i p ≡ number_tail ops start (i + 1) p
  unfolding integer_part
  integer_part-zero i r h s = rw (
    At-peek _ h,
    peek-head0 (record p { index = i + 1 }) r (At-advance _ (b'0' ∷ []) r h),
    not_digit-Stops r s,
  )

  integer_part-nonzero :
      (i c : ℕ) (r : Bytes)
      → Behind i (c ∷ r)
      → b'1' ≤ c
      → c ≤ b'9'
      → integer_part ops start i p ≡ number_tail ops start (skip_while is_digit r (i + 1)) p
  unfolding integer_part
  integer_part-nonzero i c r h lo hi =
      rw (At-peek _ h, (At-advance _ (c ∷ []) r h).rest) (ground arith)

  skip_rest :
      (i n c : ℕ) (t r : Bytes)
      → Decimal n (c ∷ t)
      → b'1' ≤ c
      → c ≤ b'9'
      → Stops r
      → skip_while is_digit (t ++ r) (i + 1) ≡ i + length (c ∷ t)
  skip_rest i n c t r d lo hi s =
      sym (skip_one i c (t ++ r) lo hi)
      ∙ skip_while-Decimal n (c ∷ t) r i d
      ∙ skip_while-Stops r _ s

  -- The digits of an integer are read to their end.
  integer_part-Decimal :
      (i n : ℕ) (text r : Bytes)
      → Behind i (text ++ r)
      → Decimal n text
      → Stops r
      → integer_part ops start i p ≡ number_tail ops start (i + length text) p
  integer_part-Decimal i n text r h d s = elim (Decimal-Leading n text d) [
    | zero_only _ e ↦ rw e (integer_part-zero i r (subst (λ x. Behind i (x ++ r)) e h) s)
    | nonzero c t lo hi e ↦ rw e (
        integer_part-nonzero i c (t ++ r) (subst (λ x. Behind i (x ++ r)) e h) lo hi
        ∙ ap (λ j. number_tail ops start j p) (skip_rest i n c t r (subst (Decimal n) e d) lo hi s))
  ]

  -- Where the number ends as an integer of at most nine characters, it is an `int`.
  number_tail-Stops :
      (i : ℕ) (r : Bytes)
      → Behind i r
      → Stops r
      → i ≤ start + 9
      → number_tail ops start i p
        ≡ some (int (atoi (drop start p.in_string)), record p { index = i })
  unfolding number_tail
  number_tail-Stops i [] h s le = rw (At-peek_end _ h) (ground arith)
  number_tail-Stops i (c ∷ r) h s le = rw (At-peek _ h) (ground arith)

-- An `int` whose text has at most nine characters.
abbrev pub IsShort : ℤ → Type 0
IsShort (pos n) = n < 10 ^ 9
IsShort (negsuc n) = suc n < 10 ^ 8

-- The first byte of an integer's text.
pub print_int-lead :
    (z : ℤ)
    → IsShort z
    → (c : ℕ) × (t : Bytes) × (print_int z ≡ c ∷ t) × ((c == b'-' || is_digit c) ≡ true)
unfolding print_int
print_int-lead (negsuc n) short = (b'-', _, refl, refl)
print_int-lead (pos n) short = elim (Decimal-Leading n _ (decimal-Decimal 9 n (omega arith))) [
  | zero_only _ e ↦ (b'0', [], e, refl)
  | nonzero c t lo hi e ↦ (c, t, e, ground arith)
]

module _ (ops : Doubles) where
  number-Decimal :
      (start i n : ℕ) (p : Parser) (text r : Bytes)
      → At (record p { index = i }) (text ++ r)
      → Decimal n text
      → Stops r
      → i + length text ≤ start + 9
      → integer_part ops start i p
        ≡ some (int (atoi (drop start p.in_string)), record p { index = i + length text })
  number-Decimal start i n p text r h d s le =
      integer_part-Decimal ops start p i n text r h d s
      ∙ number_tail-Stops ops start p (i + length text) r (At-advance _ text r h) s le

  parse_number_pos :
      (n : ℕ) (p : Parser) (text r : Bytes)
      → n < 10 ^ 9
      → Decimal n text
      → Stops r
      → At p (text ++ r)
      → Yields (parse_number ops) p (int (pos n)) r
  unfolding parse_number
  parse_number_pos n p text r short d s h = (
    advance p (length text),
    if_elim (λ i. integer_part ops p.index i p ≡ some (int (pos n), advance p (length text)))
        (peek p == b'-') (λ e. absurd (omega (arith, (==_iff _ _).0 e, first_digit n p text r d h)))
        (λ _.
          number-Decimal p.index p.index n p text r h d s
            (omega (arith, length-Decimal-le 9 n text d short (omega arith)))
          ∙ ap (λ z. some (int z, advance p (length text)))
              (ap atoi h.rest ∙ atoi-Decimal n text r d s)),
    At-advance p text r h,
  )

  parse_number_neg :
      (n : ℕ) (p : Parser) (text r : Bytes)
      → suc n < 10 ^ 8
      → Decimal (suc n) text
      → Stops r
      → At p (b'-' ∷ text ++ r)
      → Yields (parse_number ops) p (int (negsuc n)) r
  unfolding parse_number
  parse_number_neg n p text r short d s h =
      let behind = At-advance p (b'-' ∷ []) (text ++ r) h in
      let q = record p { index = p.index + 1 + length text } in
      (
        q,
        if_elim (λ i. integer_part ops p.index i p ≡ some (int (negsuc n), q)) (peek p == b'-')
            (λ _.
              number-Decimal p.index (p.index + 1) (suc n) p text r behind d s
                (omega (arith, length-Decimal-le 8 (suc n) text d short (omega arith)))
              ∙ ap (λ z. some (int z, q)) (ap atoi h.rest ∙ atoi-Decimal_neg n text r d s))
            (λ e. cc (At-peek p h, e)),
        At-advance (advance p 1) text r behind,
      )

  -- An `int` of at most nine characters is read back, and the reader stops behind it.
  pub parse_number-print_int :
      (z : ℤ) (p : Parser) (r : Bytes)
      → IsShort z
      → Stops r
      → At p (print_int z ++ r)
      → Yields (parse_number ops) p (int z) r
  unfolding print_int
  parse_number-print_int (pos n) p r short s h =
      parse_number_pos n p (decimal 10 n) r short (decimal-Decimal 9 n (omega arith)) s h
  parse_number-print_int (negsuc n) p r short s h =
      parse_number_neg n p (decimal 10 (suc n)) r short (decimal-Decimal 9 (suc n) (omega arith)) s
        h
