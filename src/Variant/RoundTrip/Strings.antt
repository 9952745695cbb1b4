-- ===== src/Variant/RoundTrip/Strings.antt =====
-- `parseInString` of src/base/variant.cpp reads back what `parseOut` of a string writes.
use mathlib.Core.List.{append-nil, append_assoc}
use mifsa_base.Base.{
  inl, ℕ, zero, suc, ◌+◌, ◌≤◌, ◌<◌, true, [], ◌∷◌, ◌++◌, Option, none, some, ◌≡◌, ◌≢◌, ◌⊎◌, ◌/◌,
  ◌%◌, refl, sym, ap, ◌∙◌, arith, subst, ==_iff, if_elim, leb→le, starts-take, and_true, ◌&&◌,
  Bytes, ◌==◌, drop, length, length-append, codes, take, starts, take-append-drop,
}
use mifsa_base.Variant.Print.{hex_digit, escape, print_u, print_bytes}
use mifsa_base.Variant.Parser.Strings.{
  utf8, hex_value, is_hex, all_hex, strtol16, more, escaped_codepoint, encode_utf8, string_round,
  string_loop, ended,
}

-- What the writer puts out for the bytes of a string, with no accumulator.
unfoldable pub escaped : ℕ → Bytes → Bytes
escaped skip [] = []
escaped zero (c ∷ cs) = let (text, n) = escape c cs in text ++ escaped n cs
escaped (suc n) (c ∷ cs) = escaped n cs

pub print_bytes-escaped :
    (skip : ℕ) (s out : Bytes) → print_bytes skip s out ≡ out ++ escaped skip s
unfolding print_bytes escaped
print_bytes-escaped skip [] out = sym (append-nil out)
print_bytes-escaped zero (c ∷ cs) out =
    print_bytes-escaped (escape c cs).1 cs (out ++ (escape c cs).0) ∙ append_assoc out _ _
print_bytes-escaped (suc n) (c ∷ cs) out = print_bytes-escaped n cs out

-- One round that goes on.
loop_step :
    (n : ℕ) (c : ℕ) (cs : Bytes) (i : ℕ) (last last' : Option ℕ) (out out' : Bytes)
    → string_round c cs last out ≡ more n last' out'
    → string_loop 0 (c ∷ cs) i last out ≡ string_loop n cs (i + 1) last' out'
unfolding string_loop
loop_step n c cs i last last' out out' e = rw (e, string_loop)

module _ (tail : Bytes) (i : ℕ) (last : Option ℕ) (out : Bytes) where
  loop_plain :
      (c : ℕ)
      → 0x1f < c
      → c ≢ b'"'
      → c ≢ b'\\'
      → string_loop 0 (c ∷ tail) i last out
        ≡ string_loop 0 tail (i + 1) none (encode_utf8 last out ++ c ∷ [])
  loop_plain c h q b = loop_step 0 c tail i last none out _ (unfold string_round in ground arith)

  -- An escape of two bytes, `e` standing for `c`.
  loop_simple :
      (e c : ℕ)
      → string_round b'\\' (e ∷ tail) last out ≡ more 1 none (encode_utf8 last out ++ c ∷ [])
      → string_loop 0 (b'\\' ∷ e ∷ tail) i last out
        ≡ string_loop 0 tail (i + 2) none (encode_utf8 last out ++ c ∷ [])
  unfolding string_loop
  loop_simple e c h = loop_step 1 b'\\' (e ∷ tail) i last none out _ h ∙ ground arith

hex_digit_value : (n : ℕ) → n < 16 → (is_hex (hex_digit n) ≡ true) × (hex_value (hex_digit n) ≡ n)
unfolding is_hex hex_digit hex_value
hex_digit_value n h = (ground arith, ground arith)

-- The four digits of an escape.
abbrev u_digits : ℕ → Bytes
u_digits n =
    hex_digit (n / 4096 % 16)
    ∷ hex_digit (n / 256 % 16)
    ∷ hex_digit (n / 16 % 16)
    ∷ hex_digit (n % 16)
    ∷ []

all_hex-u_digits : (n : ℕ) → all_hex (u_digits n) ≡ true
unfolding all_hex
all_hex-u_digits n = simp (
  (hex_digit_value (n / 4096 % 16) (omega arith)).0,
  (hex_digit_value (n / 256 % 16) (omega arith)).0,
  (hex_digit_value (n / 16 % 16) (omega arith)).0,
  (hex_digit_value (n % 16) (omega arith)).0,
)

strtol16-u_digits : (n : ℕ) → n < 65536 → strtol16 (u_digits n) 0 ≡ n
unfolding strtol16
strtol16-u_digits n h = omega (
  arith,
  (hex_digit_value (n / 4096 % 16) (omega arith)).1,
  (hex_digit_value (n / 256 % 16) (omega arith)).1,
  (hex_digit_value (n / 16 % 16) (omega arith)).1,
  (hex_digit_value (n % 16) (omega arith)).1,
)

-- The writer makes no half of a surrogate pair, so that nothing is joined.
escaped_codepoint-unpaired :
    (last : Option ℕ) (n : ℕ) (out : Bytes)
    → (n < 0xDC00) ⊎ (0xDFFF < n)
    → escaped_codepoint last n out ≡ more 5 (some n) (encode_utf8 last out)
unfolding escaped_codepoint encode_utf8
escaped_codepoint-unpaired none n out h = refl
escaped_codepoint-unpaired (some l) n out h = ground arith

round-print_u :
    (n : ℕ) (tail : Bytes) (last : Option ℕ) (out : Bytes)
    → n < 65536
    → (n < 0xDC00) ⊎ (0xDFFF < n)
    → string_round b'\\' (b'u' ∷ u_digits n ++ tail) last out
      ≡ more 5 (some n) (encode_utf8 last out)
unfolding string_round
round-print_u n tail last out h u =
    rw (all_hex-u_digits n, strtol16-u_digits n h) (escaped_codepoint-unpaired last n out u)

loop_unicode :
    (n : ℕ) (tail : Bytes) (i : ℕ) (last : Option ℕ) (out : Bytes)
    → n < 65536
    → (n < 0xDC00) ⊎ (0xDFFF < n)
    → string_loop 0 (b'\\' ∷ b'u' ∷ u_digits n ++ tail) i last out
      ≡ string_loop 0 tail (i + 6) (some n) (encode_utf8 last out)
unfolding string_loop
loop_unicode n tail i last out h u =
    loop_step 5 b'\\' (b'u' ∷ u_digits n ++ tail) i last (some n) out _
      (round-print_u n tail last out h u)
    ∙ ground arith

-- The reader takes `text` for the bytes `meant`, whatever it read before and whatever follows.
abbrev Reads : Bytes → Bytes → Type 0
Reads text meant =
    (tail : Bytes) (i : ℕ) (last : Option ℕ) (out : Bytes)
    → (last' : Option ℕ) × (out' : Bytes) × (string_loop 0 (text ++ tail) i last out
        ≡ string_loop 0 tail (i + length text) last' out')
      × (encode_utf8 last' out' ≡ encode_utf8 last out ++ meant)

Reads-plain : (c : ℕ) → 0x1f < c → c ≢ b'"' → c ≢ b'\\' → Reads (c ∷ []) (c ∷ [])
unfolding encode_utf8
Reads-plain c h q b tail i last out = (none, _, loop_plain tail i last out c h q b, refl)

Reads-unicode : (n : ℕ) → n < 0xDC00 → Reads (b'\\' ∷ b'u' ∷ u_digits n) (utf8 n)
unfolding encode_utf8
Reads-unicode n h tail i last out =
    (some n, _, loop_unicode n tail i last out (omega arith) (inl h), refl)

abbrev SimpleEscape : ℕ → ℕ → Type 0
SimpleEscape e c =
    (tail : Bytes) (last : Option ℕ) (out : Bytes)
    → string_round b'\\' (e ∷ tail) last out ≡ more 1 none (encode_utf8 last out ++ c ∷ [])

Reads-simple : (e c : ℕ) → SimpleEscape e c → Reads (b'\\' ∷ e ∷ []) (c ∷ [])
unfolding encode_utf8
Reads-simple e c h tail i last out =
    (none, _, loop_simple tail i last out e c (h tail last out), refl)

utf8_low : (c : ℕ) → c < 0x80 → utf8 c ≡ c ∷ []
unfolding utf8
utf8_low c h = ground arith

Reads-control : (c : ℕ) → c ≤ 0x1f → Reads (print_u c) (c ∷ [])
unfolding print_u
Reads-control c h =
    subst (Reads (b'\\' ∷ b'u' ∷ u_digits c)) (utf8_low c (omega arith))
      (Reads-unicode c (omega arith))

Reads-2028 : Reads (codes "\\u2028") (0xe2 ∷ 0x80 ∷ 0xa8 ∷ [])
unfolding utf8 hex_digit
Reads-2028 = Reads-unicode 0x2028 (omega arith)

Reads-2029 : Reads (codes "\\u2029") (0xe2 ∷ 0x80 ∷ 0xa9 ∷ [])
unfolding utf8 hex_digit
Reads-2029 = Reads-unicode 0x2029 (omega arith)

-- The escape `e` of the byte `k`, where the byte at hand is `k`.
Reads-escape_of : (e k c : ℕ) → SimpleEscape e k → (c == k) ≡ true → Reads (b'\\' ∷ e ∷ []) (c ∷ [])
Reads-escape_of e k c h t =
    subst (λ x. Reads (b'\\' ∷ e ∷ []) (x ∷ [])) (sym ((==_iff c k).0 t)) (Reads-simple e k h)

-- Two bytes behind 0xe2.
Reads-separator :
    (text sep cs : Bytes) (c : ℕ)
    → length sep ≡ 2
    → Reads text (0xe2 ∷ sep)
    → (c == 0xe2 && starts sep cs) ≡ true
    → Reads text (c ∷ take 2 cs)
Reads-separator text sep cs c two r t =
    let (lead, follows) = and_true (c == 0xe2) (starts sep cs) t in
    rw ((==_iff c 0xe2).0 lead, ← two, starts-take sep cs follows) r

-- What `escape` writes is read as the bytes that it stands for.
Reads-escape : (c : ℕ) (cs : Bytes) → Reads (escape c cs).0 (c ∷ take (escape c cs).1 cs)
unfolding escape string_round
Reads-escape c cs =
    if_elim Good _ (λ e. Reads-escape_of b'\\' b'\\' c (λ t l o. refl) e)
      λ backslash.
        if_elim Good _ (λ e. Reads-escape_of b'"' b'"' c (λ t l o. refl) e)
          λ quote.
            if_elim Good _ (λ e. Reads-escape_of b'b' 8 c (λ t l o. refl) e)
              λ _.
                if_elim Good _ (λ e. Reads-escape_of b'f' 12 c (λ t l o. refl) e)
                  λ _.
                    if_elim Good _ (λ e. Reads-escape_of b'n' 10 c (λ t l o. refl) e)
                      λ _.
                        if_elim Good _ (λ e. Reads-escape_of b'r' 13 c (λ t l o. refl) e)
                          λ _.
                            if_elim Good _ (λ e. Reads-escape_of b't' 9 c (λ t l o. refl) e)
                              λ _.
                                if_elim Good _ (λ e. Reads-control c (leb→le c 0x1f e))
                                  λ high.
                                    if_elim Good _
                                      (λ e.
                                        Reads-separator (codes "\\u2028") (0x80 ∷ 0xa8 ∷ []) cs c
                                          refl Reads-2028 e)
                                      λ _.
                                        if_elim Good _
                                          (λ e.
                                            Reads-separator (codes "\\u2029") (0x80 ∷ 0xa9 ∷ []) cs
                                              c refl Reads-2029 e)
                                          λ _.
                                            Reads-plain c (ground arith) (ground arith)
                                              (ground arith)
  where
    Good : Bytes × ℕ → Type 0
    Good r = Reads r.0 (c ∷ take r.1 cs)

Reads-nil : Reads [] []
Reads-nil tail i last out =
    (last, out, ap (λ j. string_loop 0 tail j last out) (omega arith), sym (append-nil _))

Reads-append : (a m b k : Bytes) → Reads a m → Reads b k → Reads (a ++ b) (m ++ k)
Reads-append a m b k ra rb tail i last out =
    let (last1, out1, run1, flush1) = ra (b ++ tail) i last out in
    let (last2, out2, run2, flush2) = rb tail (i + length a) last1 out1 in
    (
      last2,
      out2,
      rw append_assoc (
          run1
          ∙ run2
          ∙ ap (λ j. string_loop 0 tail j last2 out2) (omega (arith, length-append a b))),
      flush2 ∙ ap (λ x. x ++ k) flush1 ∙ append_assoc _ m k,
    )

Reads-escaped : (skip : ℕ) (v : Bytes) → Reads (escaped skip v) (drop skip v)
unfolding escaped
Reads-escaped zero [] = Reads-nil
Reads-escaped (suc n) [] = Reads-nil
Reads-escaped (suc n) (c ∷ cs) = Reads-escaped n cs
Reads-escaped zero (c ∷ cs) =
    let n = (escape c cs).1 in
    subst (Reads (escaped zero (c ∷ cs))) (ap (◌∷◌ c) (take-append-drop n cs)) (
      Reads-append (escape c cs).0 (c ∷ take n cs) (escaped n cs) (drop n cs) (Reads-escape c cs)
        (Reads-escaped n cs))

loop_close :
    (rest : Bytes) (i : ℕ) (last : Option ℕ) (out : Bytes)
    → string_loop 0 (b'"' ∷ rest) i last out ≡ ended (i + 1) (encode_utf8 last out)
unfolding string_loop string_round
loop_close rest i last out = refl

-- The loop behind the opening quote returns the bytes that were written, and stops behind the closing one.
pub string_loop-escaped :
    (v rest : Bytes) (i : ℕ)
    → string_loop 0 (escaped 0 v ++ b'"' ∷ rest) i none [] ≡ ended (i + length (escaped 0 v) + 1) v
unfolding encode_utf8
string_loop-escaped v rest i =
    let (last', out', run, flush) = Reads-escaped 0 v (b'"' ∷ rest) i none [] in
    run ∙ loop_close rest _ last' out' ∙ ap (ended (i + length (escaped 0 v) + 1)) flush
