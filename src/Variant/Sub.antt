-- ===== src/Variant/Sub.antt =====
-- The writable `operator[]` of src/base/variant.cpp, which is `getSubValue`: the value after the call, in
-- which the place that the reference stands for exists; `none` is an exception. The value is
-- shared with no other.
pub mod Laws
use mifsa_base.Base.{
  ℕ, zero, suc, ◌+◌, Bool, true, false, not, Option, none, some, Bytes, leb, ◌==◌, if◌then◌else◌,
}
use mifsa_base.Variant.Data.{
  Variant, VariantList, VariantMap, null, list, map, nil, cons, end, map_find, map_set,
}
use mifsa_base.Variant.Access.{type, type_list, type_map, size, is_some}
use mifsa_base.Variant.Value

-- `resize` to a larger size.
unfoldable pub grow : VariantList → ℕ → VariantList
grow nil zero = nil
grow nil (suc n) = cons null (grow nil n)
grow (cons v xs) zero = cons v xs
grow (cons v xs) (suc n) = cons v (grow xs n)

unfoldable pub sub_item : VariantList → ℕ → Bool → Option Variant
unfolding grow size
sub_item xs i can_throw =
    if leb (size xs) i
    then if can_throw then none else some (list (grow xs (i + 1)))
    else some (list xs)

unfoldable pub get_sub_index : Variant → ℕ → Bool → Option Variant
unfolding sub_item type Value.to_list
get_sub_index v i can_throw =
    if not (type v == type_list)
    then if can_throw then none else sub_item nil i can_throw
    else sub_item (Value.to_list v) i can_throw

unfoldable pub sub_entry : VariantMap → Bytes → Bool → Option Variant
unfolding map_set map_find
sub_entry m key can_throw =
    if is_some (map_find key m)
    then some (map m)
    else if can_throw
    then none
    else some (map (map_set key null m))

unfoldable pub get_sub_key : Variant → Bytes → Bool → Option Variant
unfolding sub_entry type Value.to_map
get_sub_key v key can_throw =
    if not (type v == type_map)
    then if can_throw then none else sub_entry end key can_throw
    else sub_entry (Value.to_map v) key can_throw
