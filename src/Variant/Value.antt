-- ===== src/Variant/Value.antt =====
-- The virtual conversions of `VariantValue` in src/base/variant.cpp and their overrides.
use mifsa_base.Base.{ℕ, Bool, false, [], Bytes}
use mifsa_base.Base.Int.{ℤ, pos}
use mifsa_base.Variant.Data.{
  Variant, VariantList, VariantMap, Doubles, bool, int, double, string, list, map, nil, end,
}

unfoldable pub to_bool : Variant → Bool
to_bool (bool b) = b
to_bool _ = false

unfoldable pub to_int : Doubles → Variant → ℤ
to_int ops (int n) = n
to_int ops (double d) = ops.to_int d
to_int ops _ = pos 0

unfoldable pub to_double : Doubles → Variant → ℕ
to_double ops (int n) = ops.of_int n
to_double ops (double d) = d
to_double ops _ = ops.of_int (pos 0)

unfoldable pub to_string : Variant → Bytes
to_string (string s) = s
to_string _ = []

unfoldable pub to_list : Variant → VariantList
to_list (list xs) = xs
to_list _ = nil

unfoldable pub to_map : Variant → VariantMap
to_map (map m) = m
to_map _ = end
