-- ===== src/Variant/Access.antt =====
-- The accessors of `Variant`, `VariantList` and `VariantMap` in src/base/variant.cpp: types, conversions,
-- lookups, shapes and map updates.
pub mod Laws
use mifsa_base.Base.{
  ℕ, zero, suc, ◌+◌, ◌-◌, Bool, true, false, not, ◌&&◌, ◌||◌, List, [], ◌∷◌, ◌++◌, Option, none,
  some, Bytes, codes, ltb, leb, ◌==◌, if◌then◌else◌, equal, less,
}
use mifsa_base.Base.Int.{ℤ, pos, negsuc}
use mifsa_base.Variant.Data.{
  Variant, VariantList, VariantMap, Doubles, ParseType, out_small, null, bool, int, double, string,
  list, map, custom, nil, cons, end, entry, map_find, push_back,
}
use mifsa_base.Variant.Print.{to_json}
use mifsa_base.Variant.Value

-- `Variant::Type`; a custom value has the id that it was registered under.
abbrev pub type_null : ℕ
type_null = 0

abbrev pub type_bool : ℕ
type_bool = 1

abbrev pub type_int : ℕ
type_int = 2

abbrev pub type_double : ℕ
type_double = 3

abbrev pub type_string : ℕ
type_string = 4

abbrev pub type_list : ℕ
type_list = 5

abbrev pub type_map : ℕ
type_map = 6

abbrev pub type_custom_begin : ℕ
type_custom_begin = 100

unfoldable pub type : Variant → ℕ
type null = type_null
type (bool b) = type_bool
type (int n) = type_int
type (double d) = type_double
type (string s) = type_string
type (list xs) = type_list
type (map m) = type_map
type (custom t p) = t

unfoldable pub is_valid : Variant → Bool
unfolding type
is_valid v = not (type v == type_null)

unfoldable pub is_null : Variant → Bool
unfolding type
is_null v = type v == type_null

unfoldable pub is_int : Variant → Bool
unfolding type
is_int v = type v == type_int

unfoldable pub is_double : Variant → Bool
unfolding type
is_double v = type v == type_double

unfoldable pub is_number : Variant → Bool
unfolding type
is_number v = type v == type_int || type v == type_double

unfoldable pub is_bool : Variant → Bool
unfolding type
is_bool v = type v == type_bool

unfoldable pub is_string : Variant → Bool
unfolding type
is_string v = type v == type_string

unfoldable pub is_list : Variant → Bool
unfolding type
is_list v = type v == type_list

unfoldable pub is_map : Variant → Bool
unfolding type
is_map v = type v == type_map

unfoldable pub is_custom : Variant → Bool
unfolding type
is_custom v = ltb type_custom_begin (type v)

-- The conversions of `Variant`, with a default for another type.
unfoldable pub to_bool : Variant → Bool → Bool
unfolding is_bool Value.to_bool
to_bool v default = if is_bool v then Value.to_bool v else default

unfoldable pub to_int : Doubles → Variant → ℤ → ℤ
unfolding is_number Value.to_int
to_int ops v default = if is_number v then Value.to_int ops v else default

unfoldable pub to_double : Doubles → Variant → ℕ → ℕ
unfolding is_number Value.to_double
to_double ops v default = if is_number v then Value.to_double ops v else default

unfoldable pub to_string : Variant → Bytes → Bytes
unfolding is_string Value.to_string
to_string v default = if is_string v then Value.to_string v else default

-- The loops of `toIntList`, `toDoubleList` and `toStringList`: all three test `isString`.
unfoldable pub collect {ℓ} : {A : Type ℓ} → (Variant → A) → List A → VariantList → List A
unfolding is_string
collect convert out nil = out
collect convert out (cons v xs) =
    if not (is_string v) then [] else collect convert (out ++ convert v ∷ []) xs

unfoldable pub to_int_list : Doubles → Variant → List ℤ
unfolding collect Value.to_list to_int
to_int_list ops v = collect (λ sub. to_int ops sub (pos 0)) [] (Value.to_list v)

unfoldable pub to_double_list : Doubles → Variant → List ℕ
unfolding collect Value.to_list to_double
to_double_list ops v = collect (λ sub. to_double ops sub (ops.of_int (pos 0))) [] (Value.to_list v)

unfoldable pub to_string_list : Variant → List Bytes
unfolding collect Value.to_list to_string
to_string_list v = collect (λ sub. to_string sub []) [] (Value.to_list v)

-- `size` and `at` of a vector.
unfoldable pub size : VariantList → ℕ
size nil = 0
size (cons v xs) = suc (size xs)

unfoldable pub list_at : VariantList → ℕ → Variant
list_at nil i = null
list_at (cons v xs) zero = v
list_at (cons v xs) (suc i) = list_at xs i

-- `operator[]` of a constant `Variant`.
unfoldable pub at_index : Variant → ℕ → Variant
unfolding type Value.to_list size list_at
at_index v i =
    if not (type v == type_list)
    then null
    else if leb (size (Value.to_list v)) i
    then null
    else list_at (Value.to_list v) i

abbrev pub or_default : Option Variant → Variant → Variant
or_default none v = v
or_default (some w) v = w

unfoldable pub at_key : Variant → Bytes → Variant
unfolding type Value.to_map
at_key v key =
    if not (type v == type_map) then null else or_default (map_find key (Value.to_map v)) null

-- `VariantList::value`, on an `int` index.
unfoldable pub list_value : VariantList → ℤ → Variant → Variant
unfolding size list_at
list_value xs (negsuc i) default = default
list_value xs (pos i) default = if leb (size xs) i then default else list_at xs i

-- `VariantMap`: `remove`, `contains`, `value`, and the template `insert`, which removes and emplaces.
unfoldable pub erase : Bytes → VariantMap → VariantMap
erase k end = end
erase k (entry j v m) = if equal j k then m else entry j v (erase k m)

abbrev pub is_some : Option Variant → Bool
is_some none = false
is_some (some v) = true

unfoldable pub map_remove : VariantMap → Bytes → VariantMap × Bool
unfolding erase
map_remove m key = if is_some (map_find key m) then (erase key m, true) else (m, false)

unfoldable pub map_contains : VariantMap → Bytes → Bool
map_contains end key = false
map_contains (entry j v m) key = equal j key || map_contains m key

unfoldable pub map_value : VariantMap → Bytes → Variant → Variant
map_value m key default = or_default (map_find key m) default

-- `emplace` does nothing where the key is there.
unfoldable pub emplace : Bytes → Variant → VariantMap → VariantMap
emplace k v end = entry k v end
emplace k v (entry j w m) =
    if equal j k
    then entry j w m
    else if less k j
    then entry k v (entry j w m)
    else entry j w (emplace k v m)

unfoldable pub map_insert : VariantMap → Bytes → Variant → VariantMap
unfolding map_remove emplace
map_insert m key v = emplace key v (map_remove m key).0

-- `hasShape`: whether it holds, and the error string that is written through the pointer.
unfoldable pub shape_error : Doubles → Variant → VariantMap → List (Bytes × ℕ) → Option Bytes
unfolding type
shape_error ops v m [] = none
shape_error ops v m ((key, t) ∷ shape) =
    let found = map_find key m in
    if not (is_some found) || not (type (or_default found null) == t)
    then some (codes "bad type for " ++ key ++ codes " in " ++ to_json ops v out_small)
    else shape_error ops v m shape

unfoldable pub has_shape : Doubles → Variant → List (Bytes × ℕ) → Option Bytes
unfolding is_map shape_error Value.to_map
has_shape ops v shape =
    if not (is_map v)
    then some (codes "expected JSON object, got " ++ to_json ops v out_small)
    else shape_error ops v (Value.to_map v) shape
