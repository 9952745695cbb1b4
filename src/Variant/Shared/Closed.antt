-- ===== src/Variant/Shared/Closed.antt =====
-- The pointers that stand in the store of src/base/variant.cpp, and its shared values.
use mifsa_base.Base.{
  ℕ, zero, suc, ◌≤◌, ◌<◌, true, false, List, [], ◌∷◌, ◌++◌, Option, none, some, ◌≡◌, refl, sym,
  subst, Bytes, arith, length, length-append, length-set, get_elem?, set,
}
use mifsa_base.Variant.Data.{Variant, null, bool}
use mifsa_base.Variant.Shared.{
  Addr, Cell, leaf, items, entries, Store, null_value, bool_value, Place, var, item, entry, list_of,
  map_of, list_at, map_at, nth, entry_set, find_in, pointer, write, put_item, put_entry, put,
  allocate, declare,
}
use mifsa_base.Variant.Shared.Below.{
  AllBelow, EntriesBelow, CellBelow, CellsBelow, AllBelow-weaken, CellsBelow-weaken, AllBelow-set,
  AllBelow-append, AllBelow-get_elem?, EntriesBelow-entry_set, EntriesBelow-entry_find,
  CellsBelow-get_elem?, CellsBelow-set, CellsBelow-append,
}

-- Every pointer leads to a value, and the values of null, true and false are what they are.
pub record IsClosed (s : Store) : Type 0 where
  pub vars : AllBelow (length s.cells) s.vars
  pub cells : CellsBelow (length s.cells) s.cells
  pub is_null : get_elem? s.cells null_value ≡ some (leaf null)
  pub is_true : get_elem? s.cells (bool_value true) ≡ some (leaf (bool true))
  pub is_false : get_elem? s.cells (bool_value false) ≡ some (leaf (bool false))

-- An address with no value of its own: a list, a map or nothing.
abbrev pub HoldsOthers : Option Cell → Type 0
HoldsOthers none = Unit
HoldsOthers (some (leaf v)) = ⊥
HoldsOthers (some (items xs)) = Unit
HoldsOthers (some (entries m)) = Unit

pub list_of-HoldsOthers : (o : Option Cell) (xs : List Addr) → list_of o ≡ some xs → HoldsOthers o
unfolding list_of
list_of-HoldsOthers none xs e = tt
list_of-HoldsOthers (some (leaf v)) xs e = absurd cc
list_of-HoldsOthers (some (items ys)) xs e = tt
list_of-HoldsOthers (some (entries m)) xs e = tt

pub map_of-HoldsOthers :
    (o : Option Cell) (m : List (Bytes × Addr)) → map_of o ≡ some m → HoldsOthers o
unfolding map_of
map_of-HoldsOthers none m e = tt
map_of-HoldsOthers (some (leaf v)) m e = absurd cc
map_of-HoldsOthers (some (items ys)) m e = tt
map_of-HoldsOthers (some (entries k)) m e = tt

list_of-Below :
    (n : ℕ) (o : Option Cell) (xs : List Addr)
    → ((c : Cell) → o ≡ some c → CellBelow n c)
    → list_of o ≡ some xs
    → AllBelow n xs
unfolding list_of
list_of-Below n none xs h e = absurd cc
list_of-Below n (some (leaf v)) xs h e = absurd cc
list_of-Below n (some (items ys)) xs h e =
    let same : ys ≡ xs = cc in subst (AllBelow n) same (h (items ys) refl)
list_of-Below n (some (entries m)) xs h e = absurd cc

map_of-Below :
    (n : ℕ) (o : Option Cell) (m : List (Bytes × Addr))
    → ((c : Cell) → o ≡ some c → CellBelow n c)
    → map_of o ≡ some m
    → EntriesBelow n m
unfolding map_of
map_of-Below n none m h e = absurd cc
map_of-Below n (some (leaf v)) m h e = absurd cc
map_of-Below n (some (items ys)) m h e = absurd cc
map_of-Below n (some (entries k)) m h e =
    let same : k ≡ m = cc in subst (EntriesBelow n) same (h (entries k) refl)

-- A write to a list or a map leaves the other values as they are.
leaf-set :
    (cs : List Cell) (a i : ℕ) (c : Cell) (v : Variant)
    → HoldsOthers (get_elem? cs a)
    → get_elem? cs i ≡ some (leaf v)
    → get_elem? (set cs a c) i ≡ some (leaf v)
leaf-set [] a i c v h e = e
leaf-set (x ∷ cs) zero zero c v h e =
    let same : x ≡ leaf v = cc in absurd (subst (λ y. HoldsOthers (some y)) same h)
leaf-set (x ∷ cs) zero (suc i) c v h e = e
leaf-set (x ∷ cs) (suc a) zero c v h e = e
leaf-set (x ∷ cs) (suc a) (suc i) c v h e = leaf-set cs a i c v h e

leaf-append :
    (cs : List Cell) (i : ℕ) (c : Cell) (v : Variant)
    → get_elem? cs i ≡ some (leaf v)
    → get_elem? (cs ++ c ∷ []) i ≡ some (leaf v)
leaf-append [] i c v e = absurd cc
leaf-append (x ∷ cs) zero c v e = e
leaf-append (x ∷ cs) (suc i) c v e = leaf-append cs i c v e

pub some_cell : (cs : List Cell) (i : ℕ) (c : Cell) → get_elem? cs i ≡ some c → i < length cs
some_cell [] i c e = absurd cc
some_cell (x ∷ cs) zero c e = omega arith
some_cell (x ∷ cs) (suc i) c e = omega (arith, some_cell cs i c e)

module _ (s : Store) (k : IsClosed s) where
  pub write-IsClosed :
      (a : Addr) (c : Cell)
      → HoldsOthers (get_elem? s.cells a)
      → CellBelow (length s.cells) c
      → IsClosed (write a c s)
  write-IsClosed a c h b =
      let same = sym (length-set s.cells a c) in
      record {
        vars = subst (λ n. AllBelow n s.vars) same k.vars;
        cells =
            subst (λ n. CellsBelow n (set s.cells a c)) same
              (CellsBelow-set (length s.cells) a s.cells c b k.cells);
        is_null = leaf-set s.cells a null_value c null h k.is_null;
        is_true = leaf-set s.cells a (bool_value true) c (bool true) h k.is_true;
        is_false = leaf-set s.cells a (bool_value false) c (bool false) h k.is_false;
      }

  pub allocate-IsClosed : (c : Cell) → CellBelow (length s.cells) c → IsClosed (allocate c s)
  unfolding allocate
  allocate-IsClosed c b =
      let n = length s.cells in
      let le : n ≤ length (s.cells ++ c ∷ []) = omega (arith, length-append s.cells (c ∷ [])) in
      record {
        vars = AllBelow-weaken n _ s.vars le k.vars;
        cells = CellsBelow-weaken n _ _ le (CellsBelow-append n s.cells c b k.cells);
        is_null = leaf-append s.cells null_value c null k.is_null;
        is_true = leaf-append s.cells (bool_value true) c (bool true) k.is_true;
        is_false = leaf-append s.cells (bool_value false) c (bool false) k.is_false;
      }

  pub declare-IsClosed : (a : Addr) → a < length s.cells → IsClosed (declare a s)
  unfolding declare
  declare-IsClosed a lt = record {
    vars = AllBelow-append (length s.cells) s.vars a lt k.vars;
    cells = k.cells;
    is_null = k.is_null;
    is_true = k.is_true;
    is_false = k.is_false;
  }

  pub list_at-Below :
      (a : Addr) (xs : List Addr) → list_at a s ≡ some xs → AllBelow (length s.cells) xs
  unfolding list_at
  list_at-Below a xs e =
      list_of-Below (length s.cells) (get_elem? s.cells a) xs
        (λ c f. CellsBelow-get_elem? (length s.cells) a s.cells c k.cells f) e

  pub map_at-Below :
      (a : Addr) (m : List (Bytes × Addr)) → map_at a s ≡ some m → EntriesBelow (length s.cells) m
  unfolding map_at
  map_at-Below a m e =
      map_of-Below (length s.cells) (get_elem? s.cells a) m
        (λ c f. CellsBelow-get_elem? (length s.cells) a s.cells c k.cells f) e

  put_item-IsClosed :
      (a i : ℕ) (b : Addr) (o : Option (List Addr))
      → b < length s.cells
      → list_at a s ≡ o
      → IsClosed (put_item a i b o s)
  unfolding put_item list_at
  put_item-IsClosed a i b none lt e = k
  put_item-IsClosed a i b (some xs) lt e =
      write-IsClosed a (items (set xs i b)) (list_of-HoldsOthers _ xs e)
        (AllBelow-set (length s.cells) i xs b lt (list_at-Below a xs e))

  put_entry-IsClosed :
      (a : Addr) (key : Bytes) (b : Addr) (o : Option (List (Bytes × Addr)))
      → b < length s.cells
      → map_at a s ≡ o
      → IsClosed (put_entry a key b o s)
  unfolding put_entry map_at
  put_entry-IsClosed a key b none lt e = k
  put_entry-IsClosed a key b (some m) lt e =
      write-IsClosed a (entries (entry_set key b m)) (map_of-HoldsOthers _ m e)
        (EntriesBelow-entry_set (length s.cells) key b m lt (map_at-Below a m e))

  pub put-IsClosed : (p : Place) (b : Addr) → b < length s.cells → IsClosed (put p b s)
  unfolding put
  put-IsClosed (var x) b lt = record {
    vars = AllBelow-set (length s.cells) x s.vars b lt k.vars;
    cells = k.cells;
    is_null = k.is_null;
    is_true = k.is_true;
    is_false = k.is_false;
  }
  put-IsClosed (item a i) b lt = put_item-IsClosed a i b (list_at a s) lt refl
  put-IsClosed (entry a key) b lt = put_entry-IsClosed a key b (map_at a s) lt refl

  nth-below :
      (o : Option (List Addr)) (i b : ℕ)
      → ((xs : List Addr) → o ≡ some xs → AllBelow (length s.cells) xs)
      → nth o i ≡ some b
      → b < length s.cells
  nth-below none i b h e = absurd cc
  nth-below (some xs) i b h e = AllBelow-get_elem? (length s.cells) i xs b (h xs refl) e

  find_in-below :
      (o : Option (List (Bytes × Addr))) (key : Bytes) (b : Addr)
      → ((m : List (Bytes × Addr)) → o ≡ some m → EntriesBelow (length s.cells) m)
      → find_in o key ≡ some b
      → b < length s.cells
  find_in-below none key b h e = absurd cc
  find_in-below (some m) key b h e = EntriesBelow-entry_find (length s.cells) key b m (h m refl) e

  pub pointer-below : (p : Place) (a : Addr) → pointer p s ≡ some a → a < length s.cells
  unfolding pointer
  pointer-below (var x) a e = AllBelow-get_elem? (length s.cells) x s.vars a k.vars e
  pointer-below (item c i) a e = nth-below (list_at c s) i a (list_at-Below c) e
  pointer-below (entry c key) a e = find_in-below (map_at c s) key a (map_at-Below c) e
