-- ===== src/Variant/Data.antt =====
-- include/mifsa/base/variant.h and the classes of src/base/variant.cpp: the values that a `Variant`
-- holds, with `VariantList` (a vector) and `VariantMap` (a `std::map`, ordered by its keys).
-- A double is its 64-bit pattern, and what the code does with doubles is the parameter `Doubles`.
use mifsa_base.Base.{ℕ, Bool, true, ◌≡◌, Bytes, Option, none, some, equal, less, if◌then◌else◌}
use mifsa_base.Base.Int.{ℤ}

mutual
  -- A constructor for each subclass of `VariantValue`; `custom` holds its type and its pointer.
  pub data Variant : Type 0 where
    null : Variant
    bool : Bool → Variant
    int : ℤ → Variant
    double : ℕ → Variant
    string : Bytes → Variant
    list : VariantList → Variant
    map : VariantMap → Variant
    custom : ℕ → ℕ → Variant

  pub data VariantList : Type 0 where
    nil : VariantList
    cons : Variant → VariantList → VariantList

  pub data VariantMap : Type 0 where
    end : VariantMap
    entry : Bytes → Variant → VariantMap → VariantMap

-- The operations on doubles: the C library's and the language's, which have no counterpart here.
pub record Doubles : Type 0 where
  pub is_finite : ℕ → Bool
  pub is_int : ℕ → Bool
  pub print_1f : ℕ → Bytes
  pub print_17g : ℕ → Bytes
  pub strtod : Bytes → ℕ
  pub lt : ℕ → ℕ → Bool
  pub near : ℕ → ℕ → Bool
  pub of_int : ℤ → ℕ
  pub to_int : ℕ → ℤ

pub data ParseType : Type 0 where
  unknown out_small out_beautify in_standard in_comments : ParseType

-- `std::map`: `find`, and the assignment `data[key] = value`, which keeps the keys in order.
unfoldable pub map_find : Bytes → VariantMap → Option Variant
map_find k end = none
map_find k (entry j v m) = if equal j k then some v else map_find k m

unfoldable pub map_set : Bytes → Variant → VariantMap → VariantMap
map_set k v end = entry k v end
map_set k v (entry j w m) =
    if equal j k
    then entry j v m
    else if less k j
    then entry k v (entry j w m)
    else entry j w (map_set k v m)

-- `push_back` of a `std::vector`.
unfoldable pub push_back : VariantList → Variant → VariantList
push_back nil v = cons v nil
push_back (cons w xs) v = cons w (push_back xs v)

-- The key lies before every key of the map.
abbrev pub Before : Bytes → VariantMap → Type 0
Before k end = Unit
Before k (entry j v m) = (less k j ≡ true) × Before k m

-- The keys of a `std::map` ascend.
abbrev pub IsOrdered : VariantMap → Type 0
IsOrdered end = Unit
IsOrdered (entry k v m) = Before k m × IsOrdered m
