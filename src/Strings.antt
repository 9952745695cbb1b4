-- ===== src/Strings.antt =====
-- src/utils/string.cpp. Strings are lists of bytes; `none` is an exception, which ends the program since
-- the functions are `noexcept`, and in `string_replace` that it runs out of fuel. A string is shorter
-- than 2 ^ 31 bytes, so that the casts to `int` keep a position.
pub mod Ends
pub mod Split
use mifsa_base.Base.{
  ℕ, zero, suc, ◌+◌, ◌-◌, Bool, true, false, not, ◌&&◌, List, [], ◌∷◌, ◌++◌, Option, none, some,
  ltb, ◌==◌, if◌then◌else◌, length, take, drop, Bytes, codes, equal, starts, find_at,
}

-- `find`, from the position `pos` on.
abbrev pub find : Bytes → Bytes → ℕ → Option ℕ
find s p pos = if ltb (length s) pos then none else find_at p (drop pos s) pos

-- `substr`, which throws for a position after the end.
abbrev pub substr : Bytes → ℕ → ℕ → Option Bytes
substr s pos n = if ltb (length s) pos then none else some (take n (drop pos s))

-- `compare (pos, n, t) == 0`, which throws for a position after the end.
abbrev pub compare_at : Bytes → ℕ → ℕ → Bytes → Option Bool
compare_at s pos n t = if ltb (length s) pos then none else some (equal (take n (drop pos s)) t)

-- The loop of `stringReplace`.
unfoldable pub replace_loop : ℕ → Bytes → Bytes → Bytes → Option ℕ → Option Bytes
replace_loop fuel base src des none = some base
replace_loop zero base src des (some pos) = none
replace_loop (suc fuel) base src des (some pos) =
    let base' = take pos base ++ des ++ drop (pos + length src) base in
    replace_loop fuel base' src des (find base' src (pos + length des))

unfoldable pub string_replace : ℕ → Bytes → Bytes → Bytes → Option Bytes
unfolding replace_loop
string_replace fuel base src des = replace_loop fuel base src des (find base src 0)

abbrev space : ℕ
space = 32

-- `find_first_not_of (" ")` and `find_last_not_of (" ")`.
unfoldable pub first_not_space : Bytes → ℕ → Option ℕ
first_not_space [] i = none
first_not_space (c ∷ s) i = if c == space then first_not_space s (i + 1) else some i

unfoldable pub last_not_space : Bytes → ℕ → Option ℕ
last_not_space [] i = none
last_not_space (c ∷ s) i = elim (last_not_space s (i + 1)) [
  | none ↦ if c == space then none else some i
  | some j ↦ some j
]

-- Where all is spaces both positions are -1, and `substr` throws.
abbrev cut : Bytes → Option ℕ → Option ℕ → Option Bytes
cut str (some s) (some e) = substr str s (e - s + 1)
cut str _ _ = none

unfoldable pub trim_string : Bytes → Option Bytes
unfolding first_not_space last_not_space
trim_string [] = some []
trim_string (c ∷ s) = cut (c ∷ s) (first_not_space (c ∷ s) 0) (last_not_space (c ∷ s) 0)

-- The loop of `stringSplit`; the fuel is the length of the string.
unfoldable pub split_loop : ℕ → Bytes → Bytes → ℕ → List Bytes
split_loop zero s delim pos = []
split_loop (suc fuel) s delim pos =
    if ltb pos (length s)
    then elim (find s delim pos) [
      | none ↦ take (length s - pos) (drop pos s) ∷ []
      | some at ↦ take (at - pos) (drop pos s) ∷ split_loop fuel s delim (at + length delim)
    ]
    else []

unfoldable pub string_split : Bytes → Bytes → List Bytes
unfolding split_loop
string_split s delim = if length delim == 0 then [] else split_loop (length s) s delim 0

-- `str.size() - tail.size()` wraps around where the tail is longer, and `compare` throws.
unfoldable pub string_end_with : Bytes → Bytes → Option Bool
string_end_with str tail =
    if length str == 0
    then some false
    else if ltb (length str) (length tail)
    then none
    else compare_at str (length str - length tail) (length tail) tail

unfoldable pub string_start_with : Bytes → Bytes → Bool
string_start_with str head = if length str == 0 then false else equal (take (length head) str) head

abbrev pub http : Bytes
http = codes "http://"

abbrev pub https : Bytes
https = codes "https://"

-- The scheme of an address and the rest.
unfoldable pub top_split : Bytes → Bytes × Bytes
unfolding string_start_with
top_split url =
    if string_start_with url http
    then (http, drop (length http) url)
    else if string_start_with url https
    then (https, drop (length https) url)
    else ([], url)

abbrev pub slash : Bytes
slash = codes "/"

abbrev pub at_slash : Bytes × Bytes → Option ℕ → Bytes × Bytes
at_slash (top, rest) none = ([], [])
at_slash (top, rest) (some pos) = (top ++ take pos rest, drop pos rest)

-- `getIpaddrMethod`
unfoldable pub get_ipaddr_method : Bytes → Bytes × Bytes
unfolding top_split
get_ipaddr_method [] = ([], [])
get_ipaddr_method (c ∷ url) =
    let parts = top_split (c ∷ url) in at_slash parts (find parts.1 slash 0)
