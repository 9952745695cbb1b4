-- ===== src/Variant/Compare.antt =====
-- `operator==` and `operator!=` of src/base/variant.cpp, with `isEqual` of each
-- subclass of `VariantValue`. The two sides are different objects, all the way down: that an object is
-- equal to itself is the test of the pointers, which comes first.
pub mod Laws
use mifsa_base.Base.{ℕ, Bool, true, false, not, ◌&&◌, ◌||◌, ◌==◌, equal}
use mifsa_base.Base.Int as Int
use mifsa_base.Variant.Data.{
  Variant, VariantList, VariantMap, Doubles, null, bool, int, double, string, list, map, custom,
  nil, cons, end, entry,
}

abbrev pub same : Bool → Bool → Bool
same true b = b
same false b = not b

module _ (ops : Doubles) where
  unfoldable mutual
    -- `operator==`, `std::vector`'s and `std::map`'s.
    pub is_equal : Variant → Variant → Bool
    is_equal null null = true
    is_equal (bool a) (bool b) = same a b
    is_equal (int a) (int b) = Int.equal a b
    is_equal (double a) (double b) = ops.near a b
    is_equal (string a) (string b) = equal a b
    is_equal (list a) (list b) = equal_items a b
    is_equal (map a) (map b) = equal_entries a b
    is_equal (custom t p) (custom u q) = t == u && (p == q)
    is_equal _ _ = false

    pub equal_items : VariantList → VariantList → Bool
    equal_items nil nil = true
    equal_items (cons v xs) (cons w ys) = is_equal v w && equal_items xs ys
    equal_items _ _ = false

    pub equal_entries : VariantMap → VariantMap → Bool
    equal_entries end end = true
    equal_entries (entry j v m) (entry k w n) = equal j k && is_equal v w && equal_entries m n
    equal_entries _ _ = false

  -- `operator!=`
  unfoldable pub is_unequal : Variant → Variant → Bool
  unfolding is_equal
  is_unequal v w = not (is_equal v w)
