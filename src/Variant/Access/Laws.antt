-- ===== src/Variant/Access/Laws.antt =====
-- Laws of the accessors and of the maps of src/base/variant.cpp.
use mifsa_base.Base.{
  Bool, true, not, List, [], ◌∷◌, ◌++◌, none, some, ◌≡◌, ◌⊎◌, inl, inr, refl, sym, ◌∙◌, arith,
  Bytes, if◌then◌else◌, equal, equal_iff, equal_refl, less, less-ne, less_trans, less_total,
  equal-false, if_elim, Bool-cases,
}
use mifsa_base.Base.Int.{ℤ}
use mifsa_base.Variant.Access.{
  is_string, collect, to_int_list, erase, emplace, is_some, map_remove, map_insert,
}
use mifsa_base.Variant.Data.{
  Variant, VariantList, VariantMap, Doubles, int, list, nil, cons, end, entry, map_find, Before,
  IsOrdered,
}

Before-trans : (k j : Bytes) (m : VariantMap) → less k j ≡ true → Before j m → Before k m
Before-trans k j end l b = tt
Before-trans k j (entry i v m) l b = (less_trans k j i l b.0, Before-trans k j m l b.1)

-- A key before all others is not found.
map_find-Before : (k : Bytes) (m : VariantMap) → Before k m → map_find k m ≡ none
unfolding map_find
map_find-Before k end b = refl
map_find-Before k (entry j v m) b =
    ground (arith, less-ne k j b.0, equal_iff j k, equal_iff k j, map_find-Before k m b.1)

map_find-emplace :
    (k j : Bytes) (v : Variant) (m : VariantMap)
    → map_find k m ≡ none
    → map_find j (emplace k v m) ≡ (if equal k j then some v else map_find j m)
unfolding map_find emplace
map_find-emplace k j v end h = refl
map_find-emplace k j v (entry i w m) h =
    ground (arith, equal_iff k j, equal_iff i k, equal_iff i j, map_find-emplace k j v m)

map_find-erase :
    (k j : Bytes) (m : VariantMap)
    → IsOrdered m
    → map_find j (erase k m) ≡ (if equal k j then none else map_find j m)
unfolding map_find erase
map_find-erase k j end h = ground arith
map_find-erase k j (entry i w m) h = ground (
  arith,
  equal_iff k j,
  equal_iff i k,
  equal_iff i j,
  map_find-Before i m h.0,
  map_find-erase k j m h.1,
)

Before-erase : (k j : Bytes) (m : VariantMap) → Before k m → Before k (erase j m)
unfolding erase
Before-erase k j end b = tt
Before-erase k j (entry i v m) b =
    if_elim (Before k) (equal i j) (λ _. b.1) (λ _. (b.0, Before-erase k j m b.1))

erase-IsOrdered : (k : Bytes) (m : VariantMap) → IsOrdered m → IsOrdered (erase k m)
unfolding erase
erase-IsOrdered k end h = tt
erase-IsOrdered k (entry i v m) h =
    if_elim IsOrdered (equal i k) (λ _. h.1)
      (λ _. (Before-erase i k m h.0, erase-IsOrdered k m h.1))

Before-emplace :
    (j k : Bytes) (v : Variant) (m : VariantMap)
    → less j k ≡ true
    → Before j m
    → Before j (emplace k v m)
unfolding emplace
Before-emplace j k v end l b = (l, tt)
Before-emplace j k v (entry i w m) l b =
    if_elim (Before j) (equal i k) (λ _. b)
      (λ _. if_elim (Before j) (less k i) (λ _. (l, b)) (λ _. (b.0, Before-emplace j k v m l b.1)))

emplace-IsOrdered :
    (k : Bytes) (v : Variant) (m : VariantMap) → IsOrdered m → IsOrdered (emplace k v m)
unfolding emplace
emplace-IsOrdered k v end h = (tt, tt)
emplace-IsOrdered k v (entry i w m) h =
    if_elim IsOrdered (equal i k) (λ _. h)
      (λ ne.
        if_elim IsOrdered (less k i) (λ l. ((l, Before-trans k i m l h.0), h))
          (λ ge. (
            Before-emplace i k v m (less_total k i (equal-false i k ne) ge) h.0,
            emplace-IsOrdered k v m h.1,
          )))

map_remove_lem :
    (m : VariantMap) (key j : Bytes)
    → IsOrdered m
    → map_find j (map_remove m key).0 ≡ (if equal key j then none else map_find j m)
unfolding map_remove
map_remove_lem m key j h = elim (Bool-cases (is_some (map_find key m))) [
  | inl there ↦ rw there (map_find-erase key j m h)
  | inr gone ↦ rw gone (ground (arith, equal_iff key j))
]

-- On a map with its keys in order `remove` leaves no entry of the key, keeps every other entry, and tells whether there was one; the
-- keys stay in order.
pub map_remove-map_find :
    (m : VariantMap) (key j : Bytes)
    → IsOrdered m
    → (map_find j (map_remove m key).0 ≡ (if equal key j then none else map_find j m))
      × ((map_remove m key).1 ≡ is_some (map_find key m))
      × IsOrdered (map_remove m key).0
unfolding map_remove
map_remove-map_find m key j h = (
  map_remove_lem m key j h,
  if_elim (λ (r : VariantMap × Bool). r.1 ≡ is_some (map_find key m)) (is_some (map_find key m))
      (λ e. sym e) (λ e. sym e),
  if_elim (λ (r : VariantMap × Bool). IsOrdered r.0) (is_some (map_find key m))
      (λ _. erase-IsOrdered key m h) (λ _. h),
)

-- On a map with its keys in order `insert` stores the value under the key in place of any other, keeps every other entry, and keeps
-- the keys in order.
pub map_insert-map_find :
    (m : VariantMap) (key j : Bytes) (v : Variant)
    → IsOrdered m
    → (map_find j (map_insert m key v) ≡ (if equal key j then some v else map_find j m))
      × IsOrdered (map_insert m key v)
unfolding map_insert
map_insert-map_find m key j v h =
    let (found, _, ordered) = map_remove-map_find m key key h in
    let gone : map_find key (map_remove m key).0 ≡ none = ground (arith, found, equal_refl key) in
    (
      map_find-emplace key j v (map_remove m key).0 gone ∙ ground (arith, map_remove_lem m key j h),
      emplace-IsOrdered key v (map_remove m key).0 ordered,
    )

-- The conversion of a list of texts or of integers: a list gives its elements only where all of them are
-- texts, so that `toIntList` gives nothing of a list that holds an integer.
abbrev HoldsInt : VariantList → Type 0
HoldsInt nil = ⊥
HoldsInt (cons v xs) = ((n : ℤ) × (v ≡ int n)) ⊎ HoldsInt xs

collect-HoldsInt {ℓ} :
    {A : Type ℓ} (convert : Variant → A) (out : List A) (xs : VariantList)
    → HoldsInt xs
    → collect convert out xs ≡ []
unfolding collect
collect-HoldsInt convert out nil h = absurd h
collect-HoldsInt convert out (cons v xs) (inl (n, e)) = rw e
collect-HoldsInt convert out (cons v xs) (inr h) =
    if_elim (λ r. r ≡ []) (not (is_string v)) (λ _. refl)
      (λ _. collect-HoldsInt convert (out ++ convert v ∷ []) xs h)

-- `toIntList` of a list in which an integer stands gives the empty list.
pub to_int_list-HoldsInt :
    (ops : Doubles) (xs : VariantList) → HoldsInt xs → to_int_list ops (list xs) ≡ []
unfolding to_int_list
to_int_list-HoldsInt ops xs h = collect-HoldsInt _ [] xs h
