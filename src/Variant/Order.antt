-- ===== src/Variant/Order.antt =====
-- `operator<` of src/base/variant.cpp and its kin, with `isLess` of each subclass of `VariantValue`. The two
-- sides are different objects, all the way down. `compare_values` gives both `v < w` and `w < v`, since
-- the standard library compares sequences and pairs by both.
pub mod Laws
use mifsa_base.Base.{ℕ, Bool, true, false, not, ◌&&◌, ◌||◌, ◌==◌, ltb, if◌then◌else◌, less}
use mifsa_base.Base.Int.{ℤ, ltb_ℤ}
use mifsa_base.Variant.Data.{
  Variant, VariantList, VariantMap, null, bool, int, double, string, list, map, custom, nil, cons,
  end, entry,
}
use mifsa_base.Variant.Access.{type}

-- Whether the first comes before the second, and the second before the first.
abbrev pub Both : Type 0
Both = Bool × Bool

-- `std::lexicographical_compare`, from the first elements and what the rest gives.
abbrev pub first_then : Both → Both → Both
first_then (a, b) (c, d) =
    (if a then true else if b then false else c, if b then true else if a then false else d)

-- `operator<` of a `std::pair`.
abbrev pub pair_less : Both → Both → Both
pair_less (a, b) (c, d) = (a || (not b && c), b || (not a && d))

abbrev pub bool_less : Bool → Bool → Bool
bool_less false true = true
bool_less _ _ = false

-- `less_double` is `<` on doubles.
module _ (less_double : ℕ → ℕ → Bool) where
  unfoldable mutual
    unfolding type

    pub compare_values : Variant → Variant → Both
    compare_values null null = (false, false)
    compare_values (bool a) (bool b) = (bool_less a b, bool_less b a)
    compare_values (int a) (int b) = (ltb_ℤ a b, ltb_ℤ b a)
    compare_values (double a) (double b) = (less_double a b, less_double b a)
    compare_values (string a) (string b) = (less a b, less b a)
    compare_values (list a) (list b) = compare_items a b
    compare_values (map a) (map b) = compare_entries a b
    compare_values (custom t p) (custom u q) =
        if t == u then (ltb p q, ltb q p) else (ltb t u, ltb u t)
    compare_values v w = (ltb (type v) (type w), ltb (type w) (type v))

    pub compare_items : VariantList → VariantList → Both
    compare_items nil nil = (false, false)
    compare_items nil (cons w ys) = (true, false)
    compare_items (cons v xs) nil = (false, true)
    compare_items (cons v xs) (cons w ys) = first_then (compare_values v w) (compare_items xs ys)

    pub compare_entries : VariantMap → VariantMap → Both
    compare_entries end end = (false, false)
    compare_entries end (entry k w n) = (true, false)
    compare_entries (entry j v m) end = (false, true)
    compare_entries (entry j v m) (entry k w n) =
        first_then (pair_less (less j k, less k j) (compare_values v w)) (compare_entries m n)

  -- `operator<`, `operator>`, `operator<=` and `operator>=`.
  unfoldable pub is_less : Variant → Variant → Bool
  unfolding compare_values
  is_less v w = (compare_values v w).0

  unfoldable pub is_greater : Variant → Variant → Bool
  unfolding is_less
  is_greater v w = is_less w v

  unfoldable pub is_less_or_equal : Variant → Variant → Bool
  unfolding is_less
  is_less_or_equal v w = not (is_less w v)

  unfoldable pub is_greater_or_equal : Variant → Variant → Bool
  unfolding is_less
  is_greater_or_equal v w = not (is_less v w)
