-- ===== src/Variant/Print.antt =====
-- `VariantParser::parseOut` of src/base/variant.cpp. `out` is the string that is appended to, and
-- a negative `depth` is the layout without line breaks.
use mifsa_base.Base.{
  ℕ, zero, suc, ◌+◌, ◌-◌, ◌/◌, ◌%◌, Bool, true, false, ◌&&◌, [], ◌∷◌, ◌++◌, Bytes, codes, ltb, leb,
  ◌==◌, if◌then◌else◌, starts,
}
use mifsa_base.Base.Int.{ℤ, pos, negsuc}
use mifsa_base.Variant.Data.{
  Variant, VariantList, VariantMap, Doubles, ParseType, out_beautify, null, bool, int, double,
  string, list, map, custom, nil, cons, end, entry,
}

abbrev pub max_depth : ℕ
max_depth = 500

-- `%d` of a number with at most `f` digits.
unfoldable pub decimal : ℕ → ℕ → Bytes
decimal zero n = []
decimal (suc f) n = (if ltb n 10 then [] else decimal f (n / 10)) ++ ((b'0' + n % 10) ∷ [])

-- `%d` of an `int`: at most ten digits.
unfoldable pub print_int : ℤ → Bytes
unfolding decimal
print_int (pos n) = decimal 10 n
print_int (negsuc n) = b'-' ∷ decimal 10 (suc n)

unfoldable pub hex_digit : ℕ → ℕ
hex_digit n = if ltb n 10 then b'0' + n else b'a' + (n - 10)

-- `\u%04x`
unfoldable pub print_u : ℕ → Bytes
unfolding hex_digit
print_u n =
    b'\\'
    ∷ b'u'
    ∷ hex_digit (n / 4096 % 16)
    ∷ hex_digit (n / 256 % 16)
    ∷ hex_digit (n / 16 % 16)
    ∷ hex_digit (n % 16)
    ∷ []

abbrev separator_2028 : Bytes
separator_2028 = 0x80 ∷ 0xa8 ∷ []

abbrev separator_2029 : Bytes
separator_2029 = 0x80 ∷ 0xa9 ∷ []

-- What is written for the byte `c` that the bytes `rest` follow, and how many of these are skipped.
unfoldable pub escape : ℕ → Bytes → Bytes × ℕ
unfolding print_u starts
escape c rest =
    if c == b'\\'
    then (b'\\' ∷ b'\\' ∷ [], 0)
    else if c == b'"'
    then (b'\\' ∷ b'"' ∷ [], 0)
    else if c == 8
    then (b'\\' ∷ b'b' ∷ [], 0)
    else if c == 12
    then (b'\\' ∷ b'f' ∷ [], 0)
    else if c == 10
    then (b'\\' ∷ b'n' ∷ [], 0)
    else if c == 13
    then (b'\\' ∷ b'r' ∷ [], 0)
    else if c == 9
    then (b'\\' ∷ b't' ∷ [], 0)
    else if leb c 0x1f
    then (print_u c, 0)
    else if c == 0xe2 && starts separator_2028 rest
    then (codes "\\u2028", 2)
    else if c == 0xe2 && starts separator_2029 rest
    then (codes "\\u2029", 2)
    else (c ∷ [], 0)

-- The loop over the bytes of a string; the first argument counts the bytes to pass over (`i += 2`).
unfoldable pub print_bytes : ℕ → Bytes → Bytes → Bytes
unfolding escape
print_bytes skip [] out = out
print_bytes zero (c ∷ cs) out = let (text, n) = escape c cs in print_bytes n cs (out ++ text)
print_bytes (suc n) (c ∷ cs) out = print_bytes n cs out

unfoldable pub print_string : Bytes → Bytes → Bytes
unfolding print_bytes
print_string value out = print_bytes 0 value (out ++ b'"' ∷ []) ++ b'"' ∷ []

abbrev pub spaces : ℕ → Bytes
spaces zero = []
spaces (suc n) = codes "    " ++ spaces n

-- `parseOutBeautify`
unfoldable pub print_beautify : Bytes → ℤ → Bytes
print_beautify out (negsuc _) = out
print_beautify out (pos n) = out ++ b'\n' ∷ [] ++ spaces n

unfoldable pub print_bool : Bool → Bytes → Bytes
print_bool true out = out ++ codes "true"
print_bool false out = out ++ codes "false"

unfoldable pub print_double : Doubles → ℕ → Bytes → Bytes
print_double ops d out =
    if ops.is_finite d
    then out ++ (if ops.is_int d then ops.print_1f d else ops.print_17g d)
    else out ++ codes "null"

-- The depth test of lists and maps: `exceeded` when the output is cleared instead.
pub data Room : Type 0 where
  exceeded : Room
  room : ℤ → Room

unfoldable pub deeper : ℤ → Room
deeper (negsuc n) = room (negsuc n)
deeper (pos n) = if ltb max_depth n then exceeded else room (pos (n + 1))

-- What is written at the depth that is reached; `out.clear()` where there is none.
abbrev pub within : Room → (ℤ → Bytes) → Bytes
within exceeded write = []
within (room d) write = write d

abbrev pub pred_depth : ℤ → ℤ
pred_depth (pos zero) = negsuc 0
pred_depth (pos (suc n)) = pos n
pred_depth (negsuc n) = negsuc (n + 1)

abbrev pub separate : Bool → Bytes → Bytes
separate true out = out
separate false out = out ++ codes ", "

abbrev pub list_empty : VariantList → Bool
list_empty nil = true
list_empty (cons v xs) = false

abbrev pub map_empty : VariantMap → Bool
map_empty end = true
map_empty (entry k v m) = false

module _ (ops : Doubles) where
  unfoldable mutual
    pub print : Variant → Bytes → ℤ → Bytes
    print null out depth = out ++ codes "null"
    print (bool b) out depth = print_bool b out
    print (int n) out depth = out ++ print_int n
    print (double d) out depth = print_double ops d out
    print (string s) out depth = print_string s out
    print (list xs) out depth = within (deeper depth) λ d.
        (if list_empty xs
          then out ++ b'[' ∷ []
          else print_beautify (print_items xs true (out ++ b'[' ∷ []) d) (pred_depth d))
        ++ b']' ∷ []
    print (map m) out depth = within (deeper depth) λ d.
        (if map_empty m
          then out ++ b'{' ∷ []
          else print_beautify (print_entries m true (out ++ b'{' ∷ []) d) (pred_depth d))
        ++ b'}' ∷ []
    print (custom t p) out depth = out ++ codes "(custom)"

    -- The loop over the elements; `first` is the flag of that name.
    pub print_items : VariantList → Bool → Bytes → ℤ → Bytes
    print_items nil first out depth = out
    print_items (cons v xs) first out depth =
        print_items xs false (print v (print_beautify (separate first out) depth) depth) depth

    pub print_entries : VariantMap → Bool → Bytes → ℤ → Bytes
    print_entries end first out depth = out
    print_entries (entry k v m) first out depth =
        let keyed = print_string k (print_beautify (separate first out) depth) in
        print_entries m false (print v (keyed ++ codes ": ") depth) depth

  -- `toJson`
  unfoldable pub to_json : Variant → ParseType → Bytes
  unfolding print print_string print_beautify print_bool print_double print_int deeper
  to_json v out_beautify = print v [] (pos 0)
  to_json v _ = print v [] (negsuc 0)
