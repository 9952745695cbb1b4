-- ===== src/Variant/Shared/Reaching.antt =====
-- What a program does with its variables of type `Variant` (src/base/variant.cpp), on the store.
use mifsa_base.Base.{
  ℕ, zero, suc, ◌<◌, Bool, true, false, List, [], ◌∷◌, ◌++◌, Option, none, some, ◌≡◌, refl, sym,
  subst, Bytes, leb, arith, if_elim, length, length-append, get_elem?, set,
}
use mifsa_base.Variant.Shared.{
  Addr, Cell, leaf, items, entries, Store, null_value, bool_value, make_store, Place, var, item,
  entry, list_at, map_at, entry_find, entry_set, pointer, put_item, put_entry, put, allocate,
  construct, grow, sub_item, index_new, index_at, with_pointer, get_sub_index, sub_entry, key_new,
  key_at, get_sub_key, Step, making_null, making_bool, making, making_list, making_map, copying,
  assigning, indexing, keying, Reach, start, later,
}
use mifsa_base.Variant.Shared.Below.{
  AllBelow, EntriesBelow, CellBelow, AllBelow-grow, EntriesBelow-entry_set,
}
use mifsa_base.Variant.Shared.Closed.{
  IsClosed, HoldsOthers, list_of-HoldsOthers, map_of-HoldsOthers, write-IsClosed, allocate-IsClosed,
  declare-IsClosed, list_at-Below, map_at-Below, put-IsClosed, pointer-below, some_cell,
}

-- Of a result of `getSubValue` that is no exception.
abbrev Closes : Option (Place × Store) → Type 0
Closes none = Unit
Closes (some (p, s)) = IsClosed s

-- The cell behind the last one of the store, once it is there.
pub get_elem?-append : (cs : List Cell) (c : Cell) → get_elem? (cs ++ c ∷ []) (length cs) ≡ some c
get_elem?-append [] c = refl
get_elem?-append (x ∷ cs) c = get_elem?-append cs c

HoldsOthers-set :
    (cs : List Cell) (a i : ℕ) (c : Cell)
    → HoldsOthers (some c)
    → HoldsOthers (get_elem? cs i)
    → HoldsOthers (get_elem? (set cs a c) i)
HoldsOthers-set [] a i c h g = g
HoldsOthers-set (x ∷ cs) zero zero c h g = h
HoldsOthers-set (x ∷ cs) zero (suc i) c h g = g
HoldsOthers-set (x ∷ cs) (suc a) zero c h g = g
HoldsOthers-set (x ∷ cs) (suc a) (suc i) c h g = HoldsOthers-set cs a i c h g

put_item-HoldsOthers :
    (a i : ℕ) (b : Addr) (o : Option (List Addr)) (s : Store) (j : ℕ)
    → HoldsOthers (get_elem? s.cells j)
    → HoldsOthers (get_elem? (put_item a i b o s).cells j)
unfolding put_item
put_item-HoldsOthers a i b none s j h = h
put_item-HoldsOthers a i b (some xs) s j h = HoldsOthers-set s.cells a j _ tt h

put_entry-HoldsOthers :
    (a : Addr) (key : Bytes) (b : Addr) (o : Option (List (Bytes × Addr))) (s : Store) (j : ℕ)
    → HoldsOthers (get_elem? s.cells j)
    → HoldsOthers (get_elem? (put_entry a key b o s).cells j)
unfolding put_entry
put_entry-HoldsOthers a key b none s j h = h
put_entry-HoldsOthers a key b (some m) s j h = HoldsOthers-set s.cells a j _ tt h

put-HoldsOthers :
    (p : Place) (b : Addr) (s : Store) (j : ℕ)
    → HoldsOthers (get_elem? s.cells j)
    → HoldsOthers (get_elem? (put p b s).cells j)
unfolding put
put-HoldsOthers (var x) b s j h = h
put-HoldsOthers (item a i) b s j h = put_item-HoldsOthers a i b (list_at a s) s j h
put-HoldsOthers (entry a key) b s j h = put_entry-HoldsOthers a key b (map_at a s) s j h

null_lt : (s : Store) → IsClosed s → 0 < length s.cells
null_lt s k = some_cell s.cells null_value _ k.is_null

sub_item-Closes :
    (a : Addr) (xs : List Addr) (i : ℕ) (can_throw : Bool) (s : Store)
    → IsClosed s
    → HoldsOthers (get_elem? s.cells a)
    → AllBelow (length s.cells) xs
    → Closes (sub_item a xs i can_throw s)
unfolding sub_item
sub_item-Closes a xs i can_throw s k h b =
    if_elim Closes (leb (length xs) i)
      (λ _.
        if_elim Closes can_throw (λ _. tt)
          (λ _.
            write-IsClosed s k a (items (grow xs (suc i))) h
              (AllBelow-grow (length s.cells) (suc i) xs (null_lt s k) b)))
      (λ _. k)

sub_entry-Closes :
    (a : Addr) (m : List (Bytes × Addr)) (o : Option Addr) (key : Bytes) (can_throw : Bool)
    (s : Store)
    → IsClosed s
    → HoldsOthers (get_elem? s.cells a)
    → EntriesBelow (length s.cells) m
    → Closes (sub_entry a m o key can_throw s)
unfolding sub_entry
sub_entry-Closes a m (some b) key can_throw s k h e = k
sub_entry-Closes a m none key can_throw s k h e =
    if_elim Closes can_throw (λ _. tt)
      (λ _.
        write-IsClosed s k a (entries (entry_set key null_value m)) h
          (EntriesBelow-entry_set (length s.cells) key null_value m (null_lt s k) e))

module _ (s : Store) (k : IsClosed s) where
  -- The store once a new list or map is assigned to a place.
  fresh-IsClosed :
      (p : Place) (c : Cell)
      → CellBelow (length s.cells) c
      → IsClosed (put p (length s.cells) (allocate c s))
  unfolding allocate
  fresh-IsClosed p c b =
      put-IsClosed (allocate c s) (allocate-IsClosed s k c b) p (length s.cells)
        (omega (arith, length-append s.cells (c ∷ [])))

  fresh-HoldsOthers :
      (p : Place) (c : Cell)
      → HoldsOthers (some c)
      → HoldsOthers (get_elem? (put p (length s.cells) (allocate c s)).cells (length s.cells))
  unfolding allocate
  fresh-HoldsOthers p c h =
      put-HoldsOthers p (length s.cells) (allocate c s) (length s.cells)
        (subst HoldsOthers (sym (get_elem?-append s.cells c)) h)

  index_at-Closes :
      (p : Place) (a : Addr) (o : Option (List Addr)) (i : ℕ) (can_throw : Bool)
      → list_at a s ≡ o
      → Closes (index_at p a o i can_throw s)
  unfolding index_at index_new list_at
  index_at-Closes p a none i can_throw e =
      if_elim Closes can_throw (λ _. tt)
        (λ _.
          sub_item-Closes (length s.cells) [] i can_throw _ (fresh-IsClosed p (items []) tt)
            (fresh-HoldsOthers p (items []) tt) tt)
  index_at-Closes p a (some xs) i can_throw e =
      sub_item-Closes a xs i can_throw s k (list_of-HoldsOthers _ xs e) (list_at-Below s k a xs e)

  key_at-Closes :
      (p : Place) (a : Addr) (o : Option (List (Bytes × Addr))) (key : Bytes) (can_throw : Bool)
      → map_at a s ≡ o
      → Closes (key_at p a o key can_throw s)
  unfolding key_at key_new map_at
  key_at-Closes p a none key can_throw e =
      if_elim Closes can_throw (λ _. tt)
        (λ _.
          sub_entry-Closes (length s.cells) [] none key can_throw _
            (fresh-IsClosed p (entries []) tt) (fresh-HoldsOthers p (entries []) tt) tt)
  key_at-Closes p a (some m) key can_throw e =
      sub_entry-Closes a m (entry_find key m) key can_throw s k (map_of-HoldsOthers _ m e)
        (map_at-Below s k a m e)

  with_pointer-Closes :
      (o : Option Addr) (f : Addr → Option (Place × Store))
      → ((a : Addr) → Closes (f a))
      → Closes (with_pointer o f)
  with_pointer-Closes none f h = tt
  with_pointer-Closes (some a) f h = h a

  get_sub_index-Closes :
      (p : Place) (i : ℕ) (can_throw : Bool) → Closes (get_sub_index p i can_throw s)
  unfolding get_sub_index
  get_sub_index-Closes p i can_throw =
      with_pointer-Closes (pointer p s) _ (λ a. index_at-Closes p a (list_at a s) i can_throw refl)

  get_sub_key-Closes :
      (p : Place) (key : Bytes) (can_throw : Bool) → Closes (get_sub_key p key can_throw s)
  unfolding get_sub_key
  get_sub_key-Closes p key can_throw =
      with_pointer-Closes (pointer p s) _ (λ a. key_at-Closes p a (map_at a s) key can_throw refl)

  construct-IsClosed : (c : Cell) → CellBelow (length s.cells) c → IsClosed (construct c s)
  unfolding construct allocate
  construct-IsClosed c b =
      declare-IsClosed (allocate c s) (allocate-IsClosed s k c b) (length s.cells)
        (omega (arith, length-append s.cells (c ∷ [])))

bool_value_lt : (b : Bool) (s : Store) → IsClosed s → bool_value b < length s.cells
bool_value_lt true s k = some_cell s.cells 1 _ k.is_true
bool_value_lt false s k = some_cell s.cells 2 _ k.is_false

Step-IsClosed : (s t : Store) → Step s t → IsClosed s → IsClosed t
Step-IsClosed s _ making_null k = declare-IsClosed s k null_value (null_lt s k)
Step-IsClosed s _ (making_bool b) k = declare-IsClosed s k (bool_value b) (bool_value_lt b s k)
Step-IsClosed s _ (making v plain) k = construct-IsClosed s k (leaf v) tt
Step-IsClosed s _ making_list k = construct-IsClosed s k (items []) tt
Step-IsClosed s _ making_map k = construct-IsClosed s k (entries []) tt
Step-IsClosed s _ (copying p a e) k = declare-IsClosed s k a (pointer-below s k p a e)
Step-IsClosed s _ (assigning p q a e) k = put-IsClosed s k p a (pointer-below s k q a e)
Step-IsClosed s _ (indexing p q i can_throw t e) k =
    subst Closes e (get_sub_index-Closes s k p i can_throw)
Step-IsClosed s _ (keying p q key can_throw t e) k =
    subst Closes e (get_sub_key-Closes s k p key can_throw)

-- Whatever a program does with its values through variables, copies, assignments and the writable operator[],
-- every pointer leads to a value, and the shared values of null, true and false never change.
pub Reach-IsClosed : (s : Store) → Reach s → IsClosed s
unfolding make_store
Reach-IsClosed _ start = record {
  vars = tt;
  cells = (tt, (tt, (tt, tt)));
  is_null = refl;
  is_true = refl;
  is_false = refl;
}
Reach-IsClosed _ (later {s} {t} before last) = Step-IsClosed s t last (Reach-IsClosed s before)
