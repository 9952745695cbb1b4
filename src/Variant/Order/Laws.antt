-- ===== src/Variant/Order/Laws.antt =====
-- The order of values without doubles and custom values (src/base/variant.cpp), beside `==`.
use mifsa_base.Base.{
  ℕ, Bool, true, false, not, ◌&&◌, ◌||◌, ◌≡◌, refl, arith, less, equal, Bytes, [], ◌∷◌, and_true,
}
use mifsa_base.Base.Int as Int
use mifsa_base.Base.Int.{ℤ, pos, negsuc, ltb_ℤ}
use mifsa_base.Variant.Data.{
  Variant, VariantList, VariantMap, Doubles, null, bool, int, double, string, list, map, custom,
  nil, cons, end, entry,
}
use mifsa_base.Variant.Access.{type}
use mifsa_base.Variant.Compare.{is_equal, equal_items, equal_entries}
use mifsa_base.Variant.Order.{
  Both, first_then, pair_less, compare_values, compare_items, compare_entries, is_less,
  is_less_or_equal,
}

-- Exactly one of three holds.
abbrev pub exactly : Both → Bool → Bool
exactly (true, false) false = true
exactly (false, true) false = true
exactly (false, false) true = true
exactly _ _ = false

-- A value without doubles and custom values.
unfoldable mutual
  pub is_plain : Variant → Bool
  is_plain (double d) = false
  is_plain (custom t p) = false
  is_plain (list xs) = plain_items xs
  is_plain (map m) = plain_entries m
  is_plain _ = true

  pub plain_items : VariantList → Bool
  plain_items nil = true
  plain_items (cons v xs) = is_plain v && plain_items xs

  pub plain_entries : VariantMap → Bool
  plain_entries end = true
  plain_entries (entry k v m) = is_plain v && plain_entries m

first_then-exactly :
    (p q : Both) (e f : Bool)
    → exactly p e ≡ true
    → exactly q f ≡ true
    → exactly (first_then p q) (e && f) ≡ true
first_then-exactly (true, true) q e f h g = absurd cc
first_then-exactly (true, false) q true f h g = absurd cc
first_then-exactly (true, false) q false f h g = refl
first_then-exactly (false, true) q true f h g = absurd cc
first_then-exactly (false, true) q false f h g = refl
first_then-exactly (false, false) q true f h g = g
first_then-exactly (false, false) q false f h g = absurd cc

pair_less-exactly :
    (p q : Both) (e f : Bool)
    → exactly p e ≡ true
    → exactly q f ≡ true
    → exactly (pair_less p q) (e && f) ≡ true
pair_less-exactly (true, true) q e f h g = absurd cc
pair_less-exactly (true, false) q true f h g = absurd cc
pair_less-exactly (true, false) q false f h g = refl
pair_less-exactly (false, true) q true f h g = absurd cc
pair_less-exactly (false, true) q false f h g = refl
pair_less-exactly (false, false) q true f h g = g
pair_less-exactly (false, false) q false f h g = absurd cc

bytes-exactly : (a b : Bytes) → exactly (less a b, less b a) (equal a b) ≡ true
unfolding less equal
bytes-exactly [] [] = refl
bytes-exactly [] (y ∷ b) = refl
bytes-exactly (x ∷ a) [] = refl
bytes-exactly (x ∷ a) (y ∷ b) = ground (arith, bytes-exactly a b)

int-exactly : (a b : ℤ) → exactly (ltb_ℤ a b, ltb_ℤ b a) (Int.equal a b) ≡ true
unfolding Int.equal
int-exactly (pos a) (pos b) = ground arith
int-exactly (pos a) (negsuc b) = ground arith
int-exactly (negsuc a) (pos b) = ground arith
int-exactly (negsuc a) (negsuc b) = ground arith

first_then-swap :
    (a b c d : Bool) (p q : Both)
    → p ≡ (b, a)
    → q ≡ (d, c)
    → first_then p q ≡ ((first_then (a, b) (c, d)).1, (first_then (a, b) (c, d)).0)
first_then-swap a b c d p q e f = rw (e, f) refl

pair_less-swap :
    (a b c d : Bool) (q : Both)
    → q ≡ (d, c)
    → pair_less (b, a) q ≡ ((pair_less (a, b) (c, d)).1, (pair_less (a, b) (c, d)).0)
pair_less-swap a b c d q f = rw f refl

module _ (less_double : ℕ → ℕ → Bool) where
  mutual
    unfolding compare_values type

    compare_values_swap :
        (v w : Variant)
        → compare_values less_double w v
          ≡ ((compare_values less_double v w).1, (compare_values less_double v w).0)
    compare_values_swap null null = refl
    compare_values_swap (bool a) (bool b) = refl
    compare_values_swap (int a) (int b) = refl
    compare_values_swap (double a) (double b) = refl
    compare_values_swap (string a) (string b) = refl
    compare_values_swap (list a) (list b) = compare_items_swap a b
    compare_values_swap (map a) (map b) = compare_entries_swap a b
    compare_values_swap (custom t p) (custom u q) = ground arith
    compare_values_swap _ _ = refl

    compare_items_swap :
        (a b : VariantList)
        → compare_items less_double b a
          ≡ ((compare_items less_double a b).1, (compare_items less_double a b).0)
    compare_items_swap nil nil = refl
    compare_items_swap nil (cons w b) = refl
    compare_items_swap (cons v a) nil = refl
    compare_items_swap (cons v a) (cons w b) =
        first_then-swap _ _ _ _ _ _ (compare_values_swap v w) (compare_items_swap a b)

    compare_entries_swap :
        (a b : VariantMap)
        → compare_entries less_double b a
          ≡ ((compare_entries less_double a b).1, (compare_entries less_double a b).0)
    compare_entries_swap end end = refl
    compare_entries_swap end (entry k w b) = refl
    compare_entries_swap (entry j v a) end = refl
    compare_entries_swap (entry j v a) (entry k w b) =
        first_then-swap _ _ _ _ _ _
          (pair_less-swap (less j k) (less k j) _ _ _ (compare_values_swap v w))
          (compare_entries_swap a b)

  module _ (ops : Doubles) where
    mutual
      unfolding compare_values is_equal is_plain type

      values-exactly :
          (v w : Variant)
          → is_plain v ≡ true
          → is_plain w ≡ true
          → exactly (compare_values less_double v w) (is_equal ops v w) ≡ true
      values-exactly (bool true) (bool true) h g = refl
      values-exactly (bool true) (bool false) h g = refl
      values-exactly (bool false) (bool true) h g = refl
      values-exactly (bool false) (bool false) h g = refl
      values-exactly (int a) (int b) h g = int-exactly a b
      values-exactly (string a) (string b) h g = bytes-exactly a b
      values-exactly (list a) (list b) h g = items-exactly a b h g
      values-exactly (map a) (map b) h g = entries-exactly a b h g
      values-exactly (double a) w h g = absurd cc
      values-exactly (custom t p) w h g = absurd cc
      values-exactly v (double b) h g = absurd cc
      values-exactly v (custom u q) h g = absurd cc
      values-exactly _ _ h g = refl

      items-exactly :
          (a b : VariantList)
          → plain_items a ≡ true
          → plain_items b ≡ true
          → exactly (compare_items less_double a b) (equal_items ops a b) ≡ true
      items-exactly nil nil h g = refl
      items-exactly nil (cons w b) h g = refl
      items-exactly (cons v a) nil h g = refl
      items-exactly (cons v a) (cons w b) h g =
          let (hv, ha) = and_true _ _ h in
          let (gw, gb) = and_true _ _ g in
          first_then-exactly (compare_values less_double v w) (compare_items less_double a b)
            (is_equal ops v w) (equal_items ops a b) (values-exactly v w hv gw)
            (items-exactly a b ha gb)

      entries-exactly :
          (a b : VariantMap)
          → plain_entries a ≡ true
          → plain_entries b ≡ true
          → exactly (compare_entries less_double a b) (equal_entries ops a b) ≡ true
      entries-exactly end end h g = refl
      entries-exactly end (entry k w b) h g = refl
      entries-exactly (entry j v a) end h g = refl
      entries-exactly (entry j v a) (entry k w b) h g =
          let (hv, ha) = and_true _ _ h in
          let (gw, gb) = and_true _ _ g in
          first_then-exactly (pair_less (less j k, less k j) (compare_values less_double v w))
            (compare_entries less_double a b) (equal j k && is_equal ops v w)
            (equal_entries ops a b)
            (pair_less-exactly (less j k, less k j) (compare_values less_double v w) (equal j k)
              (is_equal ops v w) (bytes-exactly j k) (values-exactly v w hv gw))
            (entries-exactly a b ha gb)

    -- Of two values without doubles and custom values exactly one of `v < w`, `w < v` and `v == w` holds, and
    -- `v <= w` holds exactly if one of the first and the last does.
    pub is_less-is_equal :
        (v w : Variant)
        → is_plain v ≡ true
        → is_plain w ≡ true
        → (exactly (is_less less_double v w, is_less less_double w v) (is_equal ops v w) ≡ true)
          × (is_less_or_equal less_double v w ≡ (is_less less_double v w || is_equal ops v w))
    unfolding is_less is_less_or_equal
    is_less-is_equal v w h g =
        one_holds (compare_values less_double v w) (compare_values less_double w v)
          (is_equal ops v w) (compare_values_swap v w) (values-exactly v w h g)
      where
        one_holds :
            (p q : Both) (e : Bool)
            → q ≡ (p.1, p.0)
            → exactly p e ≡ true
            → (exactly (p.0, q.0) e ≡ true) × (not q.0 ≡ (p.0 || e))
        one_holds (true, true) q e same h = absurd cc
        one_holds (true, false) q true same h = absurd cc
        one_holds (true, false) q false same h = rw same (refl, refl)
        one_holds (false, true) q true same h = absurd cc
        one_holds (false, true) q false same h = rw same (refl, refl)
        one_holds (false, false) q true same h = rw same (refl, refl)
        one_holds (false, false) q false same h = absurd cc
