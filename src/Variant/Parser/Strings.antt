-- ===== src/Variant/Parser/Strings.antt =====
-- `parseInEncodeUtf8` and `parseInString` of src/base/variant.cpp. The loop walks the bytes that are
-- not read yet, with `index` beside them; an escape tells it how many of them to pass over.
use Prim.Native.Nat.{bit_or}
use mifsa_base.Base.{
  ℕ, zero, suc, ◌+◌, ◌-◌, ◌*◌, ◌/◌, ◌%◌, Bool, true, not, ◌&&◌, ◌||◌, [], ◌∷◌, ◌++◌, Option, none,
  some, Bytes, codes, leb, ltb, ◌==◌, if◌then◌else◌, length, take,
}
use mifsa_base.Variant.Parser.{M, unread, fail, esc}

-- The bytes of one code point; a code point is below 0x110000 here.
unfoldable pub utf8 : ℕ → Bytes
utf8 pt =
    if ltb pt 0x80
    then pt ∷ []
    else if ltb pt 0x800
    then bit_or (pt / 64) 0xC0 ∷ bit_or (pt % 64) 0x80 ∷ []
    else if ltb pt 0x10000
    then bit_or (pt / 4096) 0xE0 ∷ bit_or (pt / 64 % 64) 0x80 ∷ bit_or (pt % 64) 0x80 ∷ []
    else bit_or (pt / 262144) 0xF0
      ∷ bit_or (pt / 4096 % 64) 0x80
      ∷ bit_or (pt / 64 % 64) 0x80
      ∷ bit_or (pt % 64) 0x80
      ∷ []

-- `none` is the -1 of `lastEscapedCodepoint`.
unfoldable pub encode_utf8 : Option ℕ → Bytes → Bytes
unfolding utf8
encode_utf8 none out = out
encode_utf8 (some pt) out = out ++ utf8 pt

-- What one round of the loop does: it returns, fails at its first byte or behind a backslash, or goes on behind
-- further bytes.
pub data Round : Type 0 where
  done : Bytes → Round
  bad bad_behind : Bytes → Round
  more : ℕ → Option ℕ → Bytes → Round

abbrev pub in_range : ℕ → ℕ → ℕ → Bool
in_range x lower upper = leb lower x && leb x upper

unfoldable pub is_hex : ℕ → Bool
is_hex c = in_range c b'a' b'f' || in_range c b'A' b'F' || in_range c b'0' b'9'

unfoldable pub all_hex : Bytes → Bool
unfolding is_hex
all_hex [] = true
all_hex (c ∷ cs) = is_hex c && all_hex cs

unfoldable pub hex_value : ℕ → ℕ
hex_value c =
    if in_range c b'0' b'9'
    then c - b'0'
    else if in_range c b'a' b'f'
    then c - b'a' + 10
    else c - b'A' + 10

-- `strtol` to base 16, of hexadecimal digits.
unfoldable pub strtol16 : Bytes → ℕ → ℕ
unfolding hex_value
strtol16 [] n = n
strtol16 (c ∷ cs) n = strtol16 cs (n * 16 + hex_value c)

-- A code point behind the one that is held back: the two halves of a pair make one.
unfoldable pub escaped_codepoint : Option ℕ → ℕ → Bytes → Round
unfolding encode_utf8
escaped_codepoint none codepoint out = more 5 (some codepoint) out
escaped_codepoint (some last) codepoint out =
    if in_range last 0xD800 0xDBFF && in_range codepoint 0xDC00 0xDFFF
    then more 5 none
        (encode_utf8 (some (bit_or ((last - 0xD800) * 1024) (codepoint - 0xDC00) + 0x10000)) out)
    else more 5 (some codepoint) (encode_utf8 (some last) out)

bad_escape : Bytes → Bytes
bad_escape digits = codes "bad \\u escape: " ++ digits

-- Behind `\u`.
unfoldable pub unicode_escape : Bytes → Option ℕ → Bytes → Round
unfolding all_hex strtol16 escaped_codepoint bad_escape
unicode_escape cs last out =
    let digits = take 4 cs in
    if ltb (length digits) 4
    then bad_behind (bad_escape digits)
    else if not (all_hex digits)
    then bad_behind (bad_escape digits)
    else escaped_codepoint last (strtol16 digits 0) out

-- The other escapes, `out` being flushed.
unfoldable pub simple_escape : ℕ → Bytes → Round
unfolding esc
simple_escape ch out =
    if ch == b'b'
    then more 1 none (out ++ 8 ∷ [])
    else if ch == b'f'
    then more 1 none (out ++ 12 ∷ [])
    else if ch == b'n'
    then more 1 none (out ++ 10 ∷ [])
    else if ch == b'r'
    then more 1 none (out ++ 13 ∷ [])
    else if ch == b't'
    then more 1 none (out ++ 9 ∷ [])
    else if ch == b'"' || ch == b'\\' || ch == b'/'
    then more 1 none (out ++ ch ∷ [])
    else bad_behind (codes "invalid escape character " ++ esc ch)

abbrev unterminated : Bytes
unterminated = codes "unexpected end of input in string"

-- Behind a backslash.
unfoldable pub escape_round : Bytes → Option ℕ → Bytes → Round
unfolding unicode_escape simple_escape encode_utf8
escape_round [] last out = bad_behind unterminated
escape_round (ch ∷ cs) last out =
    if ch == b'u' then unicode_escape cs last out else simple_escape ch (encode_utf8 last out)

-- The body of the loop, on the byte `ch` that `cs` follows.
unfoldable pub string_round : ℕ → Bytes → Option ℕ → Bytes → Round
unfolding escape_round encode_utf8 esc
string_round ch cs last out =
    if ch == b'"'
    then done (encode_utf8 last out)
    else if in_range ch 0 0x1f
    then bad (codes "unescaped " ++ esc ch ++ codes " in string")
    else if not (ch == b'\\')
    then more 0 none (encode_utf8 last out ++ ch ∷ [])
    else escape_round cs last out

pub data StringEnd : Type 0 where
  ended : ℕ → Bytes → StringEnd
  broken : ℕ → Bytes → StringEnd

-- The loop; the first argument counts the bytes to pass over. A bad escape has read the byte behind its
-- backslash, if there is one.
unfoldable pub string_loop : ℕ → Bytes → ℕ → Option ℕ → Bytes → StringEnd
string_loop skip [] i last out = broken i unterminated
string_loop (suc n) (ch ∷ cs) i last out = string_loop n cs (i + 1) last out
string_loop zero (ch ∷ cs) i last out = elim (string_round ch cs last out) [
  | done text ↦ ended (i + 1) text
  | bad msg ↦ broken (i + 1) msg
  | bad_behind msg ↦ broken (i + 1 + length (take 1 cs)) msg
  | more n last' out' ↦ string_loop n cs (i + 1) last' out'
]

unfoldable pub string_end : StringEnd → M Bytes
unfolding fail
string_end (ended i text) p = some (text, record p { index = i })
string_end (broken i msg) p = fail msg [] (record p { index = i })

-- `parseInString`, behind the opening quote.
unfoldable pub parse_string : M Bytes
parse_string p = string_end (string_loop 0 (unread p) p.index none []) p
