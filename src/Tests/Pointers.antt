-- ===== src/Tests/Pointers.antt =====
-- Values that share their pointers.
use mifsa_base.Base.{true, false, [], ◌∷◌, some, none, ◌≡◌, ◌≢◌, ◌⊎◌, refl, arith, get_elem?}
use mifsa_base.Base.Int.{pos}
use mifsa_base.Variant.Data.{null, bool, int}
use mifsa_base.Variant.Shared.{
  Addr, Store, leaf, items, Place, var, item, list_at, list_of, pointer, put, put_item, allocate,
  declare, construct, make_store, get_sub_index, at_index, null_value, grow, index_at, sub_item,
  Reach, start, later, making, making_list, copying, assigning, indexing,
}
use mifsa_base.Variant.Data.{VariantList, list, nil}
use mifsa_base.Base.{set, List}
use mifsa_base.Variant.Sub
use mifsa_base.Variant.Shared.Unfolded.{ShowsAll, no_items, a_leaf, list_set, get_sub_index-refines}
use mifsa_base.Variant.Shared.Closed.{IsClosed}
use mifsa_base.Variant.Shared.Reaching.{Reach-IsClosed}
use mifsa_base.Variant.Shared.Copies.{get_sub_index-copies}

-- The number 7, and two copies of a list.
abbrev two_copies : Store
two_copies = record {
  cells = leaf null ∷ leaf (bool true) ∷ leaf (bool false) ∷ leaf (int (pos 7)) ∷ items [] ∷ [];
  vars = 3 ∷ 4 ∷ 4 ∷ [];
}

two_copies-Reach : Reach two_copies
unfolding make_store construct allocate declare pointer
two_copies-Reach =
    later (later (later start (making (int (pos 7)) refl)) making_list) (copying (var 1) 4 refl)

-- `list[1] = list;`: the list then holds itself.
abbrev cyclic : Store
cyclic = record two_copies {
  cells =
      leaf null
      ∷ leaf (bool true)
      ∷ leaf (bool false)
      ∷ leaf (int (pos 7))
      ∷ items (null_value ∷ 4 ∷ [])
      ∷ [];
}

abbrev roomier : Store
roomier = record two_copies {
  cells =
      leaf null
      ∷ leaf (bool true)
      ∷ leaf (bool false)
      ∷ leaf (int (pos 7))
      ∷ items (null_value ∷ null_value ∷ [])
      ∷ [];
}

cyclic-Reach : Reach cyclic
unfolding pointer get_sub_index index_at sub_item grow list_at list_of put put_item
cyclic-Reach =
    later (later two_copies-Reach (indexing (var 1) (item 4 1) 1 false roomier refl))
      (assigning (item 4 1) (var 1) 4 refl)

Reach-IsClosed_example : IsClosed cyclic
Reach-IsClosed_example = Reach-IsClosed cyclic cyclic-Reach

get_sub_index-copies_example :
    (q : Place) × (t : Store) × (get_sub_index (var 1) 1 false two_copies ≡ some (q, t))
    × (((list_at 4 two_copies ≢ none)
          × (pointer (var 1) (put q 3 t) ≡ some 4)
          × (pointer (var 2) (put q 3 t) ≡ some 4)
          × (at_index 4 1 (put q 3 t) ≡ 3)
          × (at_index 4 0 (put q 3 t) ≡ at_index 4 0 two_copies))
        ⊎ ((list_at 4 two_copies ≡ none)
            × (pointer (var 1) (put q 3 t) ≡ some 5)
            × (pointer (var 2) (put q 3 t) ≡ some 4)
            × (get_elem? (put q 3 t).cells 4 ≡ get_elem? two_copies.cells 4)
            × (at_index 5 1 (put q 3 t) ≡ 3)
            × (at_index 5 0 (put q 3 t) ≡ null_value)))
get_sub_index-copies_example =
    get_sub_index-copies two_copies 1 2 1 0 4 3 (λ e. absurd (omega (arith, e)))
      (λ e. absurd (omega (arith, e))) refl refl (omega arith)

-- The list of two copies, and its elements as trees.
get_sub_index-refines_example :
    (t : Store) × (ys : List Addr) × (ws : VariantList) × (get_sub_index (var 1) 1 false two_copies
      ≡ some (item 4 1, t))
    × (Sub.get_sub_index (list nil) 1 false ≡ some (list ws))
    × (get_elem? (put (item 4 1) 3 t).cells 4 ≡ some (items (set ys 1 3)))
    × (ShowsAll 4 (put (item 4 1) 3 t) (set ys 1 3) (list_set ws 1 (int (pos 7))))
get_sub_index-refines_example =
    get_sub_index-refines two_copies 1 4 1 [] nil 3 (int (pos 7)) refl refl refl no_items
      (a_leaf 3 (int (pos 7)) (λ e. absurd (omega (arith, e))) refl)
