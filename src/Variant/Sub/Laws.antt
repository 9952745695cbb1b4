-- ===== src/Variant/Sub/Laws.antt =====
-- What the writable `operator[]` of src/base/variant.cpp leaves of a value.
use mifsa_base.Base.{
  ℕ, zero, suc, ◌+◌, ◌≤◌, ◌<◌, true, false, some, ◌≡◌, refl, sym, ◌∙◌, arith, leb, ◌==◌,
  if◌then◌else◌, if_elim, leb→le, Bool-cases, inl, inr,
}
use mifsa_base.Variant.Data.{Variant, VariantList, null, list, nil, cons}
use mifsa_base.Variant.Access.{type, type_list, size, list_at, at_index}
use mifsa_base.Variant.Value
use mifsa_base.Variant.Sub.{grow, sub_item, get_sub_index}

list_at-grow : (xs : VariantList) (n j : ℕ) → list_at (grow xs n) j ≡ list_at xs j
unfolding list_at grow
list_at-grow nil zero j = refl
list_at-grow nil (suc n) zero = refl
list_at-grow nil (suc n) (suc j) = list_at-grow nil n j
list_at-grow (cons v xs) zero j = refl
list_at-grow (cons v xs) (suc n) zero = refl
list_at-grow (cons v xs) (suc n) (suc j) = list_at-grow xs n j

size-grow : (xs : VariantList) (n : ℕ) → n ≤ size (grow xs n)
unfolding size grow
size-grow nil zero = omega arith
size-grow nil (suc n) = omega (arith, size-grow nil n)
size-grow (cons v xs) zero = omega arith
size-grow (cons v xs) (suc n) = omega (arith, size-grow xs n)

list_at-size : (xs : VariantList) (j : ℕ) → size xs ≤ j → list_at xs j ≡ null
unfolding list_at size
list_at-size nil j h = refl
list_at-size (cons v xs) zero h = absurd (omega arith)
list_at-size (cons v xs) (suc j) h = list_at-size xs j (omega arith)

read_item :
    (xs : VariantList) (j : ℕ) → (if leb (size xs) j then null else list_at xs j) ≡ list_at xs j
read_item xs j =
    if_elim (λ r. r ≡ list_at xs j) (leb (size xs) j) (λ h. sym (list_at-size xs j (leb→le _ _ h)))
      (λ _. refl)

list_at_nil : (j : ℕ) → list_at nil j ≡ null
unfolding list_at
list_at_nil j = refl

at_index-list : (xs : VariantList) (j : ℕ) → at_index (list xs) j ≡ list_at xs j
unfolding at_index type Value.to_list
at_index-list xs j = read_item xs j

at_index-is_list :
    (v : Variant) (j : ℕ)
    → (type v == type_list) ≡ true
    → at_index v j ≡ list_at (Value.to_list v) j
unfolding at_index
at_index-is_list v j is = rw is (read_item (Value.to_list v) j)

at_index-other : (v : Variant) (j : ℕ) → (type v == type_list) ≡ false → at_index v j ≡ null
unfolding at_index
at_index-other v j isnt = rw isnt refl

sub_item_lem :
    (xs : VariantList) (i : ℕ)
    → (ys : VariantList) × (sub_item xs i false ≡ some (list ys))
      × (i < size ys)
      × ((j : ℕ) → list_at ys j ≡ list_at xs j)
unfolding sub_item
sub_item_lem xs i = elim (Bool-cases (leb (size xs) i)) [
  | inl out ↦
      (grow xs (i + 1), rw out refl, omega (arith, size-grow xs (i + 1)), list_at-grow xs (i + 1))
  | inr within ↦ (xs, rw within refl, ground arith, λ j. refl)
]

-- The writable `operator[]` on an index always succeeds and leaves a list, in which the index exists and
-- every index reads as it did in the value before.
pub get_sub_index-at_index :
    (v : Variant) (i : ℕ)
    → (ys : VariantList) × (get_sub_index v i false ≡ some (list ys))
      × (i < size ys)
      × ((j : ℕ) → at_index (list ys) j ≡ at_index v j)
unfolding get_sub_index
get_sub_index-at_index v i = elim (Bool-cases (type v == type_list)) [
  | inl is ↦
      let (ys, e, fits, reads) = sub_item_lem (Value.to_list v) i in
      (ys, rw is e, fits, λ j. at_index-list ys j ∙ reads j ∙ sym (at_index-is_list v j is))
  | inr isnt ↦
      let (ys, e, fits, reads) = sub_item_lem nil i in
      (
        ys,
        rw isnt e,
        fits,
        λ j. at_index-list ys j ∙ reads j ∙ list_at_nil j ∙ sym (at_index-other v j isnt),
      )
]
