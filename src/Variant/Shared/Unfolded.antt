-- ===== src/Variant/Shared/Unfolded.antt =====
-- The values that a store of src/base/variant.cpp holds, as trees, and `getSubValue` on them.
use mifsa_base.Base.{
  ℕ, zero, suc, ◌+◌, false, List, [], ◌∷◌, some, ◌≡◌, ◌≢◌, refl, sym, ap, ◌∙◌, leb, arith,
  if◌then◌else◌, Bool-cases, inl, inr, Bytes, length, get_elem?, set, get_elem?-set_self,
  get_elem?-set_ne, subst,
}
use mifsa_base.Variant.Data.{
  Variant, VariantList, VariantMap, null, list, map, nil, cons, end, entry,
}
use mifsa_base.Variant.Access.{type, size}
use mifsa_base.Variant.Value
use mifsa_base.Variant.Sub
use mifsa_base.Variant.Shared.{
  Addr, Cell, leaf, items, entries, Store, var, item, list_of, list_at, pointer, write, grow,
  sub_item, index_at, with_pointer, get_sub_index, null_value, put, put_item,
}
use mifsa_base.Variant.Shared.Closed.{some_cell}

mutual
  -- The value at an address is the tree, and the address `b` is not needed for it.
  pub data Shows (b : Addr) (s : Store) : Addr → Variant → Type 0 where
    a_leaf : (a : Addr) (v : Variant) → b ≢ a → get_elem? s.cells a ≡ some (leaf v) → Shows b s a v
    a_list :
        (a : Addr) (xs : List Addr) (vs : VariantList)
        → b ≢ a
        → get_elem? s.cells a ≡ some (items xs)
        → ShowsAll b s xs vs
        → Shows b s a (list vs)
    a_map :
        (a : Addr) (m : List (Bytes × Addr)) (vs : VariantMap)
        → b ≢ a
        → get_elem? s.cells a ≡ some (entries m)
        → ShowsEntries b s m vs
        → Shows b s a (map vs)

  pub data ShowsAll (b : Addr) (s : Store) : List Addr → VariantList → Type 0 where
    no_items : ShowsAll b s [] nil
    more_items :
        (a : Addr) (v : Variant) (xs : List Addr) (vs : VariantList)
        → Shows b s a v
        → ShowsAll b s xs vs
        → ShowsAll b s (a ∷ xs) (cons v vs)

  pub data ShowsEntries (b : Addr) (s : Store) : List (Bytes × Addr) → VariantMap → Type 0 where
    no_entries : ShowsEntries b s [] end
    more_entries :
        (k : Bytes) (a : Addr) (v : Variant) (m : List (Bytes × Addr)) (vs : VariantMap)
        → Shows b s a v
        → ShowsEntries b s m vs
        → ShowsEntries b s ((k, a) ∷ m) (entry k v vs)

mutual
  -- A write to the address that is not needed changes nothing.
  Shows-write :
      (b : Addr) (c : Cell) (s : Store) (a : Addr) (v : Variant)
      → Shows b s a v
      → Shows b (write b c s) a v
  Shows-write b c s _ _ (a_leaf a v ne e) = a_leaf a v ne (get_elem?-set_ne s.cells c ne ∙ e)
  Shows-write b c s _ _ (a_list a xs vs ne e h) =
      a_list a xs vs ne (get_elem?-set_ne s.cells c ne ∙ e) (ShowsAll-write b c s xs vs h)
  Shows-write b c s _ _ (a_map a m vs ne e h) =
      a_map a m vs ne (get_elem?-set_ne s.cells c ne ∙ e) (ShowsEntries-write b c s m vs h)

  ShowsAll-write :
      (b : Addr) (c : Cell) (s : Store) (xs : List Addr) (vs : VariantList)
      → ShowsAll b s xs vs
      → ShowsAll b (write b c s) xs vs
  ShowsAll-write b c s _ _ no_items = no_items
  ShowsAll-write b c s _ _ (more_items a v xs vs h hs) =
      more_items a v xs vs (Shows-write b c s a v h) (ShowsAll-write b c s xs vs hs)

  ShowsEntries-write :
      (b : Addr) (c : Cell) (s : Store) (m : List (Bytes × Addr)) (vs : VariantMap)
      → ShowsEntries b s m vs
      → ShowsEntries b (write b c s) m vs
  ShowsEntries-write b c s _ _ no_entries = no_entries
  ShowsEntries-write b c s _ _ (more_entries k a v m vs h hs) =
      more_entries k a v m vs (Shows-write b c s a v h) (ShowsEntries-write b c s m vs hs)

length-size :
    (b : Addr) (s : Store) (xs : List Addr) (vs : VariantList)
    → ShowsAll b s xs vs
    → length xs ≡ size vs
unfolding size
length-size b s _ _ no_items = refl
length-size b s _ _ (more_items a v xs vs h hs) = ap suc (length-size b s xs vs hs)

nulls-ShowsAll :
    (b : Addr) (s : Store) (n : ℕ)
    → Shows b s null_value null
    → ShowsAll b s (grow [] n) (Sub.grow nil n)
unfolding grow Sub.grow
nulls-ShowsAll b s zero h = no_items
nulls-ShowsAll b s (suc n) h = more_items null_value null _ _ h (nulls-ShowsAll b s n h)

grow-ShowsAll :
    (b : Addr) (s : Store) (n : ℕ) (xs : List Addr) (vs : VariantList)
    → Shows b s null_value null
    → ShowsAll b s xs vs
    → ShowsAll b s (grow xs n) (Sub.grow vs n)
unfolding grow Sub.grow
grow-ShowsAll b s n _ _ h no_items = nulls-ShowsAll b s n h
grow-ShowsAll b s zero _ _ h (more_items a v xs vs g gs) = more_items a v xs vs g gs
grow-ShowsAll b s (suc n) _ _ h (more_items a v xs vs g gs) =
    more_items a v _ _ g (grow-ShowsAll b s n xs vs h gs)

-- The assignment to an element.
abbrev pub list_set : VariantList → ℕ → Variant → VariantList
list_set nil i w = nil
list_set (cons v vs) zero w = cons w vs
list_set (cons v vs) (suc i) w = cons v (list_set vs i w)

set-ShowsAll :
    (b : Addr) (s : Store) (i : ℕ) (c : Addr) (w : Variant) (xs : List Addr) (vs : VariantList)
    → Shows b s c w
    → ShowsAll b s xs vs
    → ShowsAll b s (set xs i c) (list_set vs i w)
set-ShowsAll b s i c w _ _ h no_items = no_items
set-ShowsAll b s zero c w _ _ h (more_items a v xs vs g gs) = more_items c w xs vs h gs
set-ShowsAll b s (suc i) c w _ _ h (more_items a v xs vs g gs) =
    more_items a v _ _ g (set-ShowsAll b s i c w xs vs h gs)

module _ (a : Addr) (i : ℕ) (c : Addr) (w : Variant) where
  -- The assignment through the place of an element.
  put-ShowsAll :
      (t : Store) (ys : List Addr) (ws : VariantList)
      → get_elem? t.cells a ≡ some (items ys)
      → ShowsAll a t ys ws
      → Shows a t c w
      → (get_elem? (put (item a i) c t).cells a ≡ some (items (set ys i c)))
        × (ShowsAll a (put (item a i) c t) (set ys i c) (list_set ws i w))
  unfolding put put_item list_at list_of
  put-ShowsAll t ys ws e hs h =
      let new = items (set ys i c) in
      let same : put (item a i) c t ≡ write a new t = ap (λ o. put_item a i c (list_of o) t) e in
      (
        ap (λ (u : Store). get_elem? u.cells a) same
            ∙ get_elem?-set_self t.cells a new (some_cell t.cells a (items ys) e),
        subst (λ u. ShowsAll a u (set ys i c) (list_set ws i w)) (sym same)
            (ShowsAll-write a new t _ _ (set-ShowsAll a t i c w ys ws h hs)),
      )

-- Where a variable holds a list none of whose elements leads back to it, an assignment of a value at a position, by
-- `getSubValue` on the store, leaves at its address a list that, as a tree, is what `getSubValue` of
-- the tree makes of it, with the value at the position.
pub get_sub_index-refines :
    (s : Store) (x a i : ℕ) (xs : List Addr) (vs : VariantList) (c : Addr) (w : Variant)
    → get_elem? s.vars x ≡ some a
    → get_elem? s.cells a ≡ some (items xs)
    → get_elem? s.cells null_value ≡ some (leaf null)
    → ShowsAll a s xs vs
    → Shows a s c w
    → (t : Store) × (ys : List Addr) × (ws : VariantList) × (get_sub_index (var x) i false s
        ≡ some (item a i, t))
      × (Sub.get_sub_index (list vs) i false ≡ some (list ws))
      × (get_elem? (put (item a i) c t).cells a ≡ some (items (set ys i c)))
      × (ShowsAll a (put (item a i) c t) (set ys i c) (list_set ws i w))
unfolding get_sub_index pointer index_at sub_item list_at list_of Sub.get_sub_index Sub.sub_item
    type Value.to_list
get_sub_index-refines s x a i xs vs c w at_x e is_null hs h =
    let found : get_sub_index (var x) i false s ≡ sub_item a xs i false s =
      ap (λ o. with_pointer o (λ d. index_at (var x) d (list_at d s) i false s)) at_x
      ∙ ap (λ o. index_at (var x) a (list_of o) i false s) e in
    let sizes = length-size a s xs vs hs in
    let one : i + 1 ≡ suc i = omega arith in
    elim (Bool-cases (leb (length xs) i)) [
      | inl short ↦
          let ys = grow xs (suc i) in
          let ws = Sub.grow vs (i + 1) in
          let t = write a (items ys) s in
          let nulls =
            a_leaf null_value null (λ f. absurd (cc (ap (get_elem? s.cells) f, e, is_null)))
              is_null in
          let grown = ShowsAll-write a (items ys) s ys ws (
            subst (λ n. ShowsAll a s ys (Sub.grow vs n)) (sym one)
              (grow-ShowsAll a s (suc i) xs vs nulls hs)) in
          let stored = get_elem?-set_self s.cells a (items ys) (some_cell s.cells a (items xs) e) in
          let (cell, shown) =
            put-ShowsAll a i c w t ys ws stored grown (Shows-write a (items ys) s c w h) in
          (
            t,
            ys,
            ws,
            found ∙ rw short refl,
            ap (λ n. if leb n i then some (list ws) else some (list vs)) (sym sizes)
                ∙ rw short refl,
            cell,
            shown,
          )
      | inr long ↦
          let (cell, shown) = put-ShowsAll a i c w s xs vs e hs h in
          (
            s,
            xs,
            vs,
            found ∙ rw long refl,
            ap (λ n. if leb n i then some (list (Sub.grow vs (i + 1))) else some (list vs))
                  (sym sizes)
                ∙ rw long refl,
            cell,
            shown,
          )
    ]
