-- ===== src/Variant/RoundTrip/Scalars.antt =====
-- `parseIn` of src/base/variant.cpp reads back the values other than lists and maps that `parseOut` writes.
use mifsa_base.Base.{
  ℕ, zero, suc, ◌+◌, ◌-◌, Bool, true, false, [], ◌∷◌, ◌++◌, some, ◌≡◌, ◌≢◌, refl, sym, ap, arith,
  Bytes, codes, ◌==◌, ◌||◌, length, starts-append, subst, if_elim, ==_iff,
}
use mifsa_base.Base.Int.{ℤ, pos, negsuc}
use mifsa_base.Variant.Data.{Variant, Doubles, null, bool, int, string}
use mifsa_base.Variant.Parser.Numbers.{is_digit}
use mifsa_base.Variant.Parser.Strings.{string_end, parse_string}
use mifsa_base.Variant.Parser.Values.{
  parse_expect, expect_at, unless_failed, parse_text, parse_value, parse_in,
}
use mifsa_base.Variant.Parser.{Parser, M, ◌>>=◌, pure, next_token}
use mifsa_base.Variant.Print.{spaces, print_int}
use mifsa_base.Variant.RoundTrip.Cursor.{
  At, Yields, Yields-bind, Yields-unfailed, At-advance, Blank, IsSolid, AtToken, next_token-Blank,
}
use mifsa_base.Variant.RoundTrip.Numbers.{Stops, IsShort, print_int-lead, parse_number-print_int}
use mifsa_base.Variant.RoundTrip.Readable.{Readable, ReadableItems, ReadableEntries}
use mifsa_base.Variant.RoundTrip.Strings.{escaped, string_loop-escaped}
use mifsa_base.Variant.RoundTrip.Text.{gap, text}

spaces-Blank : (n : ℕ) → Blank (spaces n)
spaces-Blank zero = tt
spaces-Blank (suc n) = (refl, (refl, (refl, (refl, spaces-Blank n))))

pub gap-Blank : (d : ℤ) → Blank (gap d)
gap-Blank (negsuc n) = tt
gap-Blank (pos n) = (refl, spaces-Blank n)

-- A number that stops before a blank or a comma stops there.
pub Stops-gap : (d : ℤ) (c : ℕ) (rest : Bytes) → Stops (c ∷ rest) → Stops (gap d ++ c ∷ rest)
Stops-gap (negsuc n) c rest s = s
Stops-gap (pos n) c rest s = (refl, (λ e. omega arith), (λ e. omega arith), (λ e. omega arith))

pub Yields-token :
    {B : Type 0} (f : ℕ → M B) (p : Parser) (ws : Bytes) (c : ℕ) (r : Bytes) {b : B} {r' : Bytes}
    → Blank ws
    → IsSolid (c ∷ r)
    → At p (ws ++ c ∷ r)
    → ((q : Parser) → AtToken q c r → Yields (f c) q b r')
    → Yields (next_token >>= f) p b r'
Yields-token f p ws c r blank solid h k =
    let (q, e, t) = next_token-Blank p ws c r blank solid h in
    let (q', e', h') = k q t in (q', rw (e, ◌>>=◌) e', h')

pub Yields-unless :
    (m : M Variant) (p : Parser) {v : Variant} {r : Bytes}
    → p.is_failed ≡ false
    → Yields m p v r
    → Yields (unless_failed m) p v r
Yields-unless m p = Yields-unfailed p (pure null) m

expect_at-At :
    (word : Bytes) (res : Variant) (p : Parser) (r : Bytes)
    → At p (word ++ r)
    → Yields (expect_at word res) p res r
unfolding expect_at
expect_at-At word res p r h = (
  record p { index = p.index + length word },
  rw (h.rest, starts-append word r),
  At-advance p word r h,
)

parse_expect-AtToken :
    (res : Variant) (c : ℕ) (w r : Bytes) (p : Parser)
    → AtToken p c (w ++ r)
    → Yields (parse_expect (c ∷ w) res) p res r
unfolding parse_expect
parse_expect-AtToken res c w r p t =
    if_elim (λ m. (q : Parser) × (m ≡ some (res, q)) × At q r) (p.index == 0)
      (λ e. absurd (t.moved ((==_iff p.index 0).0 e)))
      (λ _. expect_at-At (c ∷ w) res (record p { index = p.index - 1 }) r t.back)

pub parse_string-escaped :
    (s : Bytes) (p : Parser) (r : Bytes)
    → At p (escaped 0 s ++ (b'"' ∷ r))
    → Yields parse_string p s r
unfolding parse_string string_end
parse_string-escaped s p r h = (
  record p { index = p.index + length (escaped 0 s) + 1 },
  rw (h.rest, string_loop-escaped s r p.index),
  At-advance (record p { index = p.index + length (escaped 0 s) }) (b'"' ∷ []) r
      (At-advance p (escaped 0 s) (b'"' ∷ r) h),
)

abbrev pub at_back : Parser → Parser
at_back p = record p { index = p.index - 1 }

-- The value is read back behind blanks, by a reader with `h` levels left.
abbrev pub Reads : Doubles → Variant → ℕ → Type 0
Reads ops v h =
    (d : ℤ) (p : Parser) (ws rest : Bytes)
    → Blank ws
    → Stops rest
    → At p (ws ++ text v d rest)
    → Yields (parse_in ops h) p v rest

module _ (ops : Doubles) where
  -- `parseIn`, up to the byte that a value begins with.
  pub parse_in-token :
      (h : ℕ) (v : Variant) (p : Parser) (ws : Bytes) (c : ℕ) (t rest : Bytes)
      → Blank ws
      → IsSolid (c ∷ t)
      → At p (ws ++ c ∷ t)
      → ((q : Parser) → AtToken q c t → Yields (parse_value ops (parse_in ops h) c) q v rest)
      → Yields (parse_in ops (suc h)) p v rest
  unfolding parse_in
  parse_in-token h v p ws c t rest blank solid at k =
      Yields-token (λ ch. unless_failed (parse_value ops (parse_in ops h) ch)) p ws c t blank solid
        at λ q hq. Yields-unless _ q hq.ahead.sound (k q hq)

  pub Reads-null : (h : ℕ) → Reads ops null (suc h)
  unfolding text parse_value
  Reads-null h d p ws rest blank stops at =
      parse_in-token h null p ws b'n' (codes "ull" ++ rest) rest blank (refl, λ e. omega arith) at
        λ q hq. parse_expect-AtToken null b'n' (codes "ull") rest q hq

  pub Reads-bool : (h : ℕ) (b : Bool) → Reads ops (bool b) (suc h)
  unfolding text parse_value
  Reads-bool h true d p ws rest blank stops at =
      parse_in-token h (bool true) p ws b't' (codes "rue" ++ rest) rest blank
        (refl, λ e. omega arith) at
        λ q hq. parse_expect-AtToken (bool true) b't' (codes "rue") rest q hq
  Reads-bool h false d p ws rest blank stops at =
      parse_in-token h (bool false) p ws b'f' (codes "alse" ++ rest) rest blank
        (refl, λ e. omega arith) at
        λ q hq. parse_expect-AtToken (bool false) b'f' (codes "alse") rest q hq

  pub Reads-string : (h : ℕ) (s : Bytes) → Reads ops (string s) (suc h)
  unfolding text parse_value parse_text
  Reads-string h s d p ws rest blank stops at =
      parse_in-token h (string s) p ws b'"' (escaped 0 s ++ (b'"' ∷ rest)) rest blank
        (refl, λ e. omega arith) at
        λ q hq.
          Yields-bind parse_string (λ s. pure (string s)) (parse_string-escaped s q rest hq.ahead)
            (λ q' h'. (q', refl, h'))

  Reads_number :
      (h : ℕ) (z : ℤ) (c : ℕ) (t : Bytes) (p : Parser) (ws rest : Bytes)
      → print_int z ≡ c ∷ t
      → (c == b'-' || is_digit c) ≡ true
      → IsShort z
      → Blank ws
      → Stops rest
      → At p (ws ++ (print_int z ++ rest))
      → Yields (parse_in ops (suc h)) p (int z) rest
  unfolding parse_value
  Reads_number h z c t p ws rest e lead short blank stops at =
      parse_in-token h (int z) p ws c (t ++ rest) rest blank (ground arith, ground arith)
        (subst (λ x. At p (ws ++ (x ++ rest))) e at)
        λ q hq.
          if_elim (λ m. Yields m q (int z) rest) (c == b'-' || is_digit c)
            (λ _.
              parse_number-print_int ops z (at_back q) rest short stops
                (subst (λ x. At (at_back q) (x ++ rest)) (sym e) hq.back))
            (λ no. cc (lead, no))

  pub Reads-int : (h : ℕ) (z : ℤ) → IsShort z → Reads ops (int z) (suc h)
  unfolding text
  Reads-int h z short d p ws rest blank stops at =
      let (c, t, e, lead) = print_int-lead z short in
      Reads_number h z c t p ws rest e lead short blank stops at

-- What a value's text begins with: no blank, no comment and no end of a list.
abbrev pub Lead : Bytes → Type 0
Lead x = (c : ℕ) × (t : Bytes) × (x ≡ c ∷ t) × IsSolid (c ∷ t) × (c ≢ b']')

pub text-Lead : {v : Variant} {h : ℕ} (d : ℤ) (rest : Bytes) → Readable v h → Lead (text v d rest)
unfolding text
text-Lead d rest Readable.null = (b'n', _, refl, (refl, λ e. omega arith), λ e. omega arith)
text-Lead d rest (Readable.bool true) = (b't', _, refl, (refl, λ e. omega arith), λ e. omega arith)
text-Lead d rest (Readable.bool false) = (b'f', _, refl, (refl, λ e. omega arith), λ e. omega arith)
text-Lead d rest (Readable.int z short) =
    let (c, t, e, lead) = print_int-lead z short in
    (c, t ++ rest, ap (λ x. x ++ rest) e, (ground arith, ground arith), ground arith)
text-Lead d rest (Readable.string s) = (b'"', _, refl, (refl, λ e. omega arith), λ e. omega arith)
text-Lead d rest (Readable.list ReadableItems.nil) =
    (b'[', _, refl, (refl, λ e. omega arith), λ e. omega arith)
text-Lead d rest (Readable.list (ReadableItems.cons a b)) =
    (b'[', _, refl, (refl, λ e. omega arith), λ e. omega arith)
text-Lead d rest (Readable.map ReadableEntries.end) =
    (b'{', _, refl, (refl, λ e. omega arith), λ e. omega arith)
text-Lead d rest (Readable.map (ReadableEntries.entry k _ a b)) =
    (b'{', _, refl, (refl, λ e. omega arith), λ e. omega arith)

-- A token that begins a value, behind blanks: the reader may step back to the whole text of the value.
pub Yields-Lead :
    {B : Type 0} (f : ℕ → M B) (p : Parser) (ws x : Bytes) {b : B} {r' : Bytes}
    → Blank ws
    → Lead x
    → At p (ws ++ x)
    → ((q : Parser) (c : ℕ) → c ≢ b']' → At (at_back q) x → Yields (f c) q b r')
    → Yields (next_token >>= f) p b r'
Yields-Lead f p ws x blank (c, t, e, solid, ne) h k =
    Yields-token f p ws c t blank solid (subst (λ y. At p (ws ++ y)) e h)
      λ q hq. k q c ne (subst (At (at_back q)) (sym e) hq.back)
