-- ===== src/Variant/Compare/Laws.antt =====
-- Laws of `operator==` of src/base/variant.cpp.
use mifsa_base.Base.{not, ap, ℕ, List, [], ◌∷◌, true, false, ◌≡◌, refl, arith, equal}
use mifsa_base.Base.Int as Int
use mifsa_base.Base.Int.{ℤ}
use mifsa_base.Variant.Data.{
  Variant, VariantList, VariantMap, Doubles, bool, int, double, string, list, map, custom, cons,
  entry,
}
use mifsa_base.Variant.Compare.{is_equal, is_unequal, equal_items, equal_entries}

int_sym : (a b : ℤ) → Int.equal a b ≡ Int.equal b a
unfolding Int.equal
int_sym a b = ground arith

bytes_sym : (a b : List ℕ) → equal a b ≡ equal b a
unfolding equal
bytes_sym [] [] = refl
bytes_sym [] (y ∷ b) = refl
bytes_sym (x ∷ a) [] = refl
bytes_sym (x ∷ a) (y ∷ b) = ground (arith, bytes_sym a b)

module _ (ops : Doubles) where
  mutual
    unfolding is_equal

    is_equal_flip :
        ((a b : ℕ) → ops.near a b ≡ ops.near b a)
        → (v w : Variant) → is_equal ops v w ≡ is_equal ops w v
    is_equal_flip h (bool true) (bool true) = refl
    is_equal_flip h (bool true) (bool false) = refl
    is_equal_flip h (bool false) (bool true) = refl
    is_equal_flip h (bool false) (bool false) = refl
    is_equal_flip h (int a) (int b) = int_sym a b
    is_equal_flip h (double a) (double b) = h a b
    is_equal_flip h (string a) (string b) = bytes_sym a b
    is_equal_flip h (list a) (list b) = equal_items_flip h a b
    is_equal_flip h (map a) (map b) = equal_entries_flip h a b
    is_equal_flip h (custom t p) (custom u q) = ground arith
    is_equal_flip h _ _ = ground arith

    equal_items_flip :
        ((a b : ℕ) → ops.near a b ≡ ops.near b a)
        → (a b : VariantList) → equal_items ops a b ≡ equal_items ops b a
    equal_items_flip h (cons v a) (cons w b) = rw (is_equal_flip h v w, equal_items_flip h a b) refl
    equal_items_flip h _ _ = ground arith

    equal_entries_flip :
        ((a b : ℕ) → ops.near a b ≡ ops.near b a)
        → (a b : VariantMap) → equal_entries ops a b ≡ equal_entries ops b a
    equal_entries_flip h (entry j v a) (entry k w b) =
        rw (bytes_sym j k, is_equal_flip h v w, equal_entries_flip h a b) refl
    equal_entries_flip h _ _ = ground arith

  -- `operator==` and `operator!=` are symmetric, if the comparison of doubles is.
  pub is_equal-is_unequal :
      ((a b : ℕ) → ops.near a b ≡ ops.near b a)
      → (v w : Variant)
      → (is_equal ops v w ≡ is_equal ops w v) × (is_unequal ops v w ≡ is_unequal ops w v)
  unfolding is_unequal
  is_equal-is_unequal h v w = (is_equal_flip h v w, ap not (is_equal_flip h v w))
