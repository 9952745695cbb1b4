-- ===== src/Variant/Shared.antt =====
-- The pointers of src/base/variant.cpp: `m_ptr` of a `Variant` is shared by its copies, and `getSubValue`
-- writes to the list or map behind it. A value stands at its address in the store, and so do the
-- shared values of null, true and false; one that no `Variant` points to any longer stays there.
-- A list and a map hold the pointers of their elements. `none` is an exception in `get_sub_index`
-- and `get_sub_key`, and elsewhere a place that does not exist.
pub mod Below
pub mod Closed
pub mod Reaching
pub mod Copies
pub mod Unfolded
use mifsa_base.Base.{
  ℕ, zero, suc, ◌+◌, Bool, true, false, List, [], ◌∷◌, ◌++◌, Option, none, some, ◌≡◌, Bytes, leb,
  if◌then◌else◌, equal, less, length, get_elem?, set,
}
use mifsa_base.Variant.Data.{Variant, null, bool, list, map}

abbrev pub Addr : Type 0
Addr = ℕ

-- A list, a map, and a value that holds no other.
pub data Cell : Type 0 where
  leaf : Variant → Cell
  items : List Addr → Cell
  entries : List (Bytes × Addr) → Cell

-- `vars` are the `m_ptr` of the variables of the program.
pub record Store : Type 0 where
  pub cells : List Cell
  pub vars : List Addr

-- VariantGlobal::nullValue, trueValue and falseValue
abbrev pub null_value : Addr
null_value = 0

abbrev pub bool_value : Bool → Addr
bool_value true = 1
bool_value false = 2

unfoldable pub make_store : Store
make_store = record { cells = leaf null ∷ leaf (bool true) ∷ leaf (bool false) ∷ []; vars = [] }

-- What a reference to a `Variant` may refer to: a variable, an element of a list, and one of a map.
pub data Place : Type 0 where
  var : ℕ → Place
  item : Addr → ℕ → Place
  entry : Addr → Bytes → Place

-- `toList` and `toMap`, where the value is of the type.
unfoldable pub list_of : Option Cell → Option (List Addr)
list_of (some (items xs)) = some xs
list_of (some (entries m)) = none
list_of (some (leaf v)) = none
list_of none = none

unfoldable pub map_of : Option Cell → Option (List (Bytes × Addr))
map_of (some (entries m)) = some m
map_of (some (items xs)) = none
map_of (some (leaf v)) = none
map_of none = none

unfoldable pub list_at : Addr → Store → Option (List Addr)
unfolding list_of
list_at a s = list_of (get_elem? s.cells a)

unfoldable pub map_at : Addr → Store → Option (List (Bytes × Addr))
unfolding map_of
map_at a s = map_of (get_elem? s.cells a)

abbrev pub nth : Option (List Addr) → ℕ → Option Addr
nth none i = none
nth (some xs) i = get_elem? xs i

unfoldable pub entry_find : Bytes → List (Bytes × Addr) → Option Addr
entry_find k [] = none
entry_find k ((j, a) ∷ m) = if equal j k then some a else entry_find k m

unfoldable pub entry_set : Bytes → Addr → List (Bytes × Addr) → List (Bytes × Addr)
entry_set k a [] = (k, a) ∷ []
entry_set k a ((j, b) ∷ m) =
    if equal j k
    then (j, a) ∷ m
    else if less k j
    then (k, a) ∷ (j, b) ∷ m
    else (j, b) ∷ entry_set k a m

abbrev pub find_in : Option (List (Bytes × Addr)) → Bytes → Option Addr
find_in none k = none
find_in (some m) k = entry_find k m

-- The pointer at a place.
unfoldable pub pointer : Place → Store → Option Addr
unfolding list_at map_at entry_find
pointer (var x) s = get_elem? s.vars x
pointer (item a i) s = nth (list_at a s) i
pointer (entry a k) s = find_in (map_at a s) k

abbrev pub write : Addr → Cell → Store → Store
write a c s = record s { cells = set s.cells a c }

unfoldable pub put_item : Addr → ℕ → Addr → Option (List Addr) → Store → Store
put_item a i b none s = s
put_item a i b (some xs) s = write a (items (set xs i b)) s

unfoldable pub put_entry : Addr → Bytes → Addr → Option (List (Bytes × Addr)) → Store → Store
unfolding entry_set
put_entry a k b none s = s
put_entry a k b (some m) s = write a (entries (entry_set k b m)) s

-- The assignment to the `Variant` at a place, which is that of its pointer.
unfoldable pub put : Place → Addr → Store → Store
unfolding put_item put_entry list_at map_at
put (var x) b s = record s { vars = set s.vars x b }
put (item a i) b s = put_item a i b (list_at a s) s
put (entry a k) b s = put_entry a k b (map_at a s) s

-- `make_shared`
unfoldable pub allocate : Cell → Store → Store
allocate c s = record s { cells = s.cells ++ c ∷ [] }

-- A variable that holds a pointer, and one with a new value.
unfoldable pub declare : Addr → Store → Store
declare a s = record s { vars = s.vars ++ a ∷ [] }

unfoldable pub construct : Cell → Store → Store
unfolding allocate declare
construct c s = declare (length s.cells) (allocate c s)

-- `resize` to a larger size; a new element is `Variant()`.
unfoldable pub grow : List Addr → ℕ → List Addr
grow [] zero = []
grow [] (suc n) = null_value ∷ grow [] n
grow (a ∷ xs) zero = a ∷ xs
grow (a ∷ xs) (suc n) = a ∷ grow xs n

-- The end of `getSubValue`, on the list at `a`.
unfoldable pub sub_item : Addr → List Addr → ℕ → Bool → Store → Option (Place × Store)
unfolding grow
sub_item a xs i can_throw s =
    if leb (length xs) i
    then if can_throw then none else some (item a i, write a (items (grow xs (suc i))) s)
    else some (item a i, s)

-- `*this = VariantList();` at a place.
unfoldable pub index_new : Place → ℕ → Bool → Store → Option (Place × Store)
unfolding sub_item put allocate
index_new p i can_throw s =
    if can_throw
    then none
    else sub_item (length s.cells) [] i can_throw (put p (length s.cells) (allocate (items []) s))

unfoldable pub index_at :
    Place → Addr → Option (List Addr) → ℕ → Bool → Store → Option (Place × Store)
unfolding index_new sub_item
index_at p a none i can_throw s = index_new p i can_throw s
index_at p a (some xs) i can_throw s = sub_item a xs i can_throw s

abbrev pub with_pointer : Option Addr → (Addr → Option (Place × Store)) → Option (Place × Store)
with_pointer none f = none
with_pointer (some a) f = f a

-- `getSubValue` with a position and with a key: the place that the result refers to.
unfoldable pub get_sub_index : Place → ℕ → Bool → Store → Option (Place × Store)
unfolding pointer index_at list_at
get_sub_index p i can_throw s =
    with_pointer (pointer p s) (λ a. index_at p a (list_at a s) i can_throw s)

unfoldable pub sub_entry :
    Addr → List (Bytes × Addr) → Option Addr → Bytes → Bool → Store → Option (Place × Store)
unfolding entry_set
sub_entry a m (some b) key can_throw s = some (entry a key, s)
sub_entry a m none key can_throw s =
    if can_throw then none else some (entry a key, write a (entries (entry_set key null_value m)) s)

unfoldable pub key_new : Place → Bytes → Bool → Store → Option (Place × Store)
unfolding sub_entry put allocate
key_new p key can_throw s =
    if can_throw
    then none
    else sub_entry (length s.cells) [] none key can_throw
        (put p (length s.cells) (allocate (entries []) s))

unfoldable pub key_at :
    Place → Addr → Option (List (Bytes × Addr)) → Bytes → Bool → Store → Option (Place × Store)
unfolding key_new sub_entry entry_find
key_at p a none key can_throw s = key_new p key can_throw s
key_at p a (some m) key can_throw s = sub_entry a m (entry_find key m) key can_throw s

unfoldable pub get_sub_key : Place → Bytes → Bool → Store → Option (Place × Store)
unfolding pointer key_at map_at
get_sub_key p key can_throw s =
    with_pointer (pointer p s) (λ a. key_at p a (map_at a s) key can_throw s)

-- The constant `operator[]`, where `virtualData` is null.
abbrev pub or_null : Option Addr → Addr
or_null none = null_value
or_null (some a) = a

unfoldable pub at_index : Addr → ℕ → Store → Addr
unfolding list_at
at_index a i s = or_null (nth (list_at a s) i)

unfoldable pub at_key : Addr → Bytes → Store → Addr
unfolding map_at entry_find
at_key a key s = or_null (find_in (map_at a s) key)

abbrev pub is_plain : Variant → Bool
is_plain (list xs) = false
is_plain (map m) = false
is_plain _ = true

-- What a program does with its variables: it makes values and copies, assigns, and calls `getSubValue`.
pub data Step (s : Store) : Store → Type 0 where
  making_null : Step s (declare null_value s)
  making_bool : (b : Bool) → Step s (declare (bool_value b) s)
  making : (v : Variant) → is_plain v ≡ true → Step s (construct (leaf v) s)
  making_list : Step s (construct (items []) s)
  making_map : Step s (construct (entries []) s)
  copying : (p : Place) (a : Addr) → pointer p s ≡ some a → Step s (declare a s)
  assigning : (p q : Place) (a : Addr) → pointer q s ≡ some a → Step s (put p a s)
  indexing :
      (p q : Place) (i : ℕ) (can_throw : Bool) (t : Store)
      → get_sub_index p i can_throw s ≡ some (q, t)
      → Step s t
  keying :
      (p q : Place) (key : Bytes) (can_throw : Bool) (t : Store)
      → get_sub_key p key can_throw s ≡ some (q, t)
      → Step s t

pub data Reach : Store → Type 0 where
  start : Reach make_store
  later : {s t : Store} → Reach s → Step s t → Reach t
