-- ===== src/Variant/Shared/Copies.antt =====
-- What the copies of a `Variant` (src/base/variant.cpp) see of an assignment through `getSubValue`.
use mifsa_base.Base.{
  ℕ, zero, suc, ◌<◌, false, List, [], ◌∷◌, ◌++◌, none, some, ◌≡◌, refl, sym, ap, ◌∙◌, ◌≢◌, ◌⊎◌, inl,
  inr, leb, arith, if◌then◌else◌, if_elim, Bool-cases, Option-cases, length, get_elem?, set,
  get_elem?-set_self, get_elem?-set_ne,
}
use mifsa_base.Variant.Shared.{
  Addr, Cell, items, Store, Place, var, item, list_of, list_at, nth, pointer, write, put_item, put,
  allocate, grow, sub_item, index_at, with_pointer, get_sub_index, or_null, at_index, null_value,
}
use mifsa_base.Variant.Shared.Closed.{some_cell}
use mifsa_base.Variant.Shared.Reaching.{get_elem?-append}

length-grow : (xs : List Addr) (i : ℕ) → i < length (grow xs (suc i))
unfolding grow
length-grow [] zero = omega arith
length-grow [] (suc i) = omega (arith, length-grow [] i)
length-grow (a ∷ xs) zero = omega arith
length-grow (a ∷ xs) (suc i) = omega (arith, length-grow xs i)

-- A new element is null, as what lies outside the list is read.
get_elem?-grow :
    (xs : List Addr) (n j : ℕ) → or_null (get_elem? (grow xs n) j) ≡ or_null (get_elem? xs j)
unfolding grow
get_elem?-grow [] zero j = refl
get_elem?-grow [] (suc n) zero = refl
get_elem?-grow [] (suc n) (suc j) = get_elem?-grow [] n j
get_elem?-grow (a ∷ xs) zero j = refl
get_elem?-grow (a ∷ xs) (suc n) zero = refl
get_elem?-grow (a ∷ xs) (suc n) (suc j) = get_elem?-grow xs n j

-- The list of `getSubValue` with room for the position.
abbrev roomy : List Addr → ℕ → List Addr
roomy xs i = if leb (length xs) i then grow xs (suc i) else xs

roomy-length : (xs : List Addr) (i : ℕ) → i < length (roomy xs i)
roomy-length xs i =
    if_elim (λ ys. i < length ys) (leb (length xs) i) (λ _. length-grow xs i) (λ h. ground arith)

roomy-same :
    (xs : List Addr) (i j : ℕ) → or_null (get_elem? (roomy xs i) j) ≡ or_null (get_elem? xs j)
roomy-same xs i j =
    if_elim (λ ys. or_null (get_elem? ys j) ≡ or_null (get_elem? xs j)) (leb (length xs) i)
      (λ _. get_elem?-grow xs (suc i) j) (λ _. refl)

list_at-lt : (a : Addr) (s : Store) (xs : List Addr) → list_at a s ≡ some xs → a < length s.cells
unfolding list_at list_of
list_at-lt a s xs e = elim (Option-cases (get_elem? s.cells a)) [
  | inl missing ↦ absurd (cc (e, ap list_of missing))
  | inr (c, at) ↦ some_cell s.cells a c at
]

list_at-write :
    (a : Addr) (s : Store) (xs : List Addr)
    → a < length s.cells
    → list_at a (write a (items xs) s) ≡ some xs
unfolding list_at list_of
list_at-write a s xs lt = ap list_of (get_elem?-set_self s.cells a (items xs) lt)

-- `getSubValue` of a list makes room and refers to the element.
sub_item-roomy :
    (a : Addr) (xs : List Addr) (i : ℕ) (s : Store)
    → list_at a s ≡ some xs
    → (t : Store) × (sub_item a xs i false s ≡ some (item a i, t))
      × (list_at a t ≡ some (roomy xs i))
      × (t.vars ≡ s.vars)
      × ((j : ℕ) → a ≢ j → get_elem? t.cells j ≡ get_elem? s.cells j)
unfolding sub_item
sub_item-roomy a xs i s e = elim (Bool-cases (leb (length xs) i)) [
  | inl short ↦ (
    write a (items (grow xs (suc i))) s,
    rw short refl,
    rw short (list_at-write a s (grow xs (suc i)) (list_at-lt a s xs e)),
    refl,
    λ j ne. get_elem?-set_ne s.cells (items (grow xs (suc i))) ne,
  )
  | inr long ↦ (s, rw long refl, rw long e, refl, λ j ne. refl)
]

-- The assignment to an element of a list that has the position.
record Assigned (a i : ℕ) (b : Addr) (xs : List Addr) (s u : Store) : Type 0 where
  stored : list_at a u ≡ some (set xs i b)
  same_vars : u.vars ≡ s.vars
  same_cells : (j : ℕ) → a ≢ j → get_elem? u.cells j ≡ get_elem? s.cells j

put_item-Assigned :
    (a i : ℕ) (b : Addr) (xs : List Addr) (s : Store)
    → list_at a s ≡ some xs
    → Assigned a i b xs s (put (item a i) b s)
unfolding put put_item
put_item-Assigned a i b xs s e =
    let same = ap (λ o. put_item a i b o s) e in
    record {
      stored = ap (list_at a) same ∙ list_at-write a s (set xs i b) (list_at-lt a s xs e);
      same_vars = ap (λ (t : Store). t.vars) same;
      same_cells = λ j ne.
          ap (λ (t : Store). get_elem? t.cells j) same
          ∙ get_elem?-set_ne s.cells (items (set xs i b)) ne;
    }

module _ {a i : ℕ} {b : Addr} {xs : List Addr} {s u : Store} (h : Assigned a i b xs s u) where
  at_index_self : i < length xs → at_index a i u ≡ b
  unfolding at_index
  at_index_self lt =
      ap (λ o. or_null (nth o i)) h.stored ∙ ap or_null (get_elem?-set_self xs i b lt)

  at_index_other : (j : ℕ) → j ≢ i → at_index a j u ≡ or_null (get_elem? xs j)
  unfolding at_index
  at_index_other j ne =
      ap (λ o. or_null (nth o j)) h.stored ∙ ap or_null (get_elem?-set_ne xs b (λ e. ne (sym e)))

get_elem?-append_lt :
    (cs : List Cell) (c : Cell) (j : ℕ)
    → j < length cs
    → get_elem? (cs ++ c ∷ []) j ≡ get_elem? cs j
get_elem?-append_lt [] c j lt = absurd (omega arith)
get_elem?-append_lt (x ∷ cs) c zero lt = refl
get_elem?-append_lt (x ∷ cs) c (suc j) lt = get_elem?-append_lt cs c j (omega arith)

vars_lt : (xs : List Addr) (x : ℕ) (a : Addr) → get_elem? xs x ≡ some a → x < length xs
vars_lt [] x a e = absurd cc
vars_lt (y ∷ xs) zero a e = omega arith
vars_lt (y ∷ xs) (suc x) a e = omega (arith, vars_lt xs x a e)

at_index-list :
    (a j : ℕ) (s : Store) (xs : List Addr)
    → list_at a s ≡ some xs
    → at_index a j s ≡ or_null (get_elem? xs j)
unfolding at_index
at_index-list a j s xs e = ap (λ o. or_null (nth o j)) e

list_at-fresh :
    (x : ℕ) (s : Store)
    → list_at (length s.cells) (put (var x) (length s.cells) (allocate (items []) s)) ≡ some []
unfolding list_at list_of put allocate
list_at-fresh x s = ap list_of (get_elem?-append s.cells (items []))

-- Two variables share a value. If it is a list, then the assignment of a value to a position of the first, by
-- the writable operator[], is seen through both, and the other positions stay; the list is
-- made longer where it is too short. If it is no list, then the first variable gets a list of its own,
-- null but for that position, and the other one keeps its value.
pub get_sub_index-copies :
    (s : Store) (x y i j : ℕ) (a b : Addr)
    → x ≢ y
    → j ≢ i
    → get_elem? s.vars x ≡ some a
    → get_elem? s.vars y ≡ some a
    → a < length s.cells
    → (q : Place) × (t : Store) × (get_sub_index (var x) i false s ≡ some (q, t))
      × (((list_at a s ≢ none)
            × (pointer (var x) (put q b t) ≡ some a)
            × (pointer (var y) (put q b t) ≡ some a)
            × (at_index a i (put q b t) ≡ b)
            × (at_index a j (put q b t) ≡ at_index a j s))
          ⊎ ((list_at a s ≡ none)
              × (pointer (var x) (put q b t) ≡ some (length s.cells))
              × (pointer (var y) (put q b t) ≡ some a)
              × (get_elem? (put q b t).cells a ≡ get_elem? s.cells a)
              × (at_index (length s.cells) i (put q b t) ≡ b)
              × (at_index (length s.cells) j (put q b t) ≡ null_value)))
unfolding get_sub_index pointer index_at
get_sub_index-copies s x y i j a b ne nj at_x at_y lt = elim (Option-cases (list_at a s)) [
  | inr (xs, e) ↦
      let (t, runs, roomy_at, vars, cells) = sub_item-roomy a xs i s e in
      let h = put_item-Assigned a i b (roomy xs i) t roomy_at in
      let same = h.same_vars ∙ vars in
      (
        item a i,
        t,
        ap (λ o. with_pointer o (λ c. index_at (var x) c (list_at c s) i false s)) at_x
            ∙ ap (λ o. index_at (var x) a o i false s) e
            ∙ runs,
        inl (
          λ none_at. absurd (cc (none_at, e)),
          ap (λ v. get_elem? v x) same ∙ at_x,
          ap (λ v. get_elem? v y) same ∙ at_y,
          at_index_self h (roomy-length xs i),
          at_index_other h j nj ∙ roomy-same xs i j ∙ sym (at_index-list a j s xs e),
        ),
      )
  | inl e ↦
      let n = length s.cells in
      let fresh = put (var x) n (allocate (items []) s) in
      let (t, runs, roomy_at, vars, cells) = sub_item-roomy n [] i fresh (list_at-fresh x s) in
      let h = put_item-Assigned n i b (roomy [] i) t roomy_at in
      let same = h.same_vars ∙ vars in
      let far : n ≢ a = λ f. absurd (omega (arith, f, lt)) in
      (
        item n i,
        t,
        ap (λ o. with_pointer o (λ c. index_at (var x) c (list_at c s) i false s)) at_x
            ∙ ap (λ o. index_at (var x) a o i false s) e
            ∙ runs,
        inr (
          e,
          ap (λ v. get_elem? v x) same ∙ get_elem?-set_self s.vars x n (vars_lt s.vars x a at_x),
          ap (λ v. get_elem? v y) same ∙ get_elem?-set_ne s.vars n ne ∙ at_y,
          h.same_cells a far ∙ cells a far ∙ get_elem?-append_lt s.cells (items []) a lt,
          at_index_self h (roomy-length [] i),
          at_index_other h j nj ∙ roomy-same [] i j,
        ),
      )
]
