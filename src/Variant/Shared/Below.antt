-- ===== src/Variant/Shared/Below.antt =====
-- Pointers below a bound, in the store of src/base/variant.cpp.
use mifsa_base.Base.{
  ℕ, zero, suc, ◌≤◌, ◌<◌, List, [], ◌∷◌, ◌++◌, some, ◌≡◌, subst, Bytes, arith, if_elim, equal, less,
  get_elem?, set,
}
use mifsa_base.Variant.Shared.{Addr, Cell, leaf, items, entries, entry_find, entry_set, grow}

abbrev pub AllBelow : ℕ → List Addr → Type 0
AllBelow n [] = Unit
AllBelow n (a ∷ xs) = (a < n) × AllBelow n xs

abbrev pub EntriesBelow : ℕ → List (Bytes × Addr) → Type 0
EntriesBelow n [] = Unit
EntriesBelow n ((k, a) ∷ m) = (a < n) × EntriesBelow n m

abbrev pub CellBelow : ℕ → Cell → Type 0
CellBelow n (leaf v) = Unit
CellBelow n (items xs) = AllBelow n xs
CellBelow n (entries m) = EntriesBelow n m

abbrev pub CellsBelow : ℕ → List Cell → Type 0
CellsBelow n [] = Unit
CellsBelow n (c ∷ cs) = CellBelow n c × CellsBelow n cs

pub AllBelow-weaken : (n k : ℕ) (xs : List Addr) → n ≤ k → AllBelow n xs → AllBelow k xs
AllBelow-weaken n k [] le b = tt
AllBelow-weaken n k (a ∷ xs) le (h, b) = (omega arith, AllBelow-weaken n k xs le b)

pub EntriesBelow-weaken :
    (n k : ℕ) (m : List (Bytes × Addr)) → n ≤ k → EntriesBelow n m → EntriesBelow k m
EntriesBelow-weaken n k [] le b = tt
EntriesBelow-weaken n k ((j, a) ∷ m) le (h, b) = (omega arith, EntriesBelow-weaken n k m le b)

pub CellBelow-weaken : (n k : ℕ) (c : Cell) → n ≤ k → CellBelow n c → CellBelow k c
CellBelow-weaken n k (leaf v) le b = tt
CellBelow-weaken n k (items xs) le b = AllBelow-weaken n k xs le b
CellBelow-weaken n k (entries m) le b = EntriesBelow-weaken n k m le b

pub CellsBelow-weaken : (n k : ℕ) (cs : List Cell) → n ≤ k → CellsBelow n cs → CellsBelow k cs
CellsBelow-weaken n k [] le b = tt
CellsBelow-weaken n k (c ∷ cs) le (h, b) =
    (CellBelow-weaken n k c le h, CellsBelow-weaken n k cs le b)

pub AllBelow-set :
    (n i : ℕ) (xs : List Addr) (b : Addr) → b < n → AllBelow n xs → AllBelow n (set xs i b)
AllBelow-set n i [] b lt h = tt
AllBelow-set n zero (a ∷ xs) b lt (h, r) = (lt, r)
AllBelow-set n (suc i) (a ∷ xs) b lt (h, r) = (h, AllBelow-set n i xs b lt r)

pub AllBelow-append :
    (n : ℕ) (xs : List Addr) (b : Addr) → b < n → AllBelow n xs → AllBelow n (xs ++ b ∷ [])
AllBelow-append n [] b lt h = (lt, tt)
AllBelow-append n (a ∷ xs) b lt (h, r) = (h, AllBelow-append n xs b lt r)

pub AllBelow-get_elem? :
    (n i : ℕ) (xs : List Addr) (a : Addr) → AllBelow n xs → get_elem? xs i ≡ some a → a < n
AllBelow-get_elem? n i [] a h e = absurd cc
AllBelow-get_elem? n zero (x ∷ xs) a (h, r) e = let same : x ≡ a = cc in omega (arith, h, same)
AllBelow-get_elem? n (suc i) (x ∷ xs) a (h, r) e = AllBelow-get_elem? n i xs a r e

pub AllBelow-grow : (n i : ℕ) (xs : List Addr) → 0 < n → AllBelow n xs → AllBelow n (grow xs i)
unfolding grow
AllBelow-grow n zero [] lt h = tt
AllBelow-grow n (suc i) [] lt h = (lt, AllBelow-grow n i [] lt tt)
AllBelow-grow n zero (a ∷ xs) lt h = h
AllBelow-grow n (suc i) (a ∷ xs) lt (h, r) = (h, AllBelow-grow n i xs lt r)

pub EntriesBelow-entry_set :
    (n : ℕ) (k : Bytes) (b : Addr) (m : List (Bytes × Addr))
    → b < n
    → EntriesBelow n m
    → EntriesBelow n (entry_set k b m)
unfolding entry_set
EntriesBelow-entry_set n k b [] lt h = (lt, tt)
EntriesBelow-entry_set n k b ((j, a) ∷ m) lt (h, r) =
    if_elim (EntriesBelow n) (equal j k) (λ _. (lt, r))
      (λ _.
        if_elim (EntriesBelow n) (less k j) (λ _. (lt, (h, r)))
          (λ _. (h, EntriesBelow-entry_set n k b m lt r)))

pub EntriesBelow-entry_find :
    (n : ℕ) (k : Bytes) (a : Addr) (m : List (Bytes × Addr))
    → EntriesBelow n m
    → entry_find k m ≡ some a
    → a < n
unfolding entry_find
EntriesBelow-entry_find n k a [] h = λ e. absurd cc
EntriesBelow-entry_find n k a ((j, b) ∷ m) (h, r) =
    if_elim (λ o. o ≡ some a → a < n) (equal j k)
      (λ _ e. let same : b ≡ a = cc in omega (arith, h, same))
      (λ _ e. EntriesBelow-entry_find n k a m r e)

pub CellsBelow-get_elem? :
    (n i : ℕ) (cs : List Cell) (c : Cell)
    → CellsBelow n cs
    → get_elem? cs i ≡ some c
    → CellBelow n c
CellsBelow-get_elem? n i [] c h e = absurd cc
CellsBelow-get_elem? n zero (x ∷ cs) c (h, r) e =
    let same : x ≡ c = cc in subst (CellBelow n) same h
CellsBelow-get_elem? n (suc i) (x ∷ cs) c (h, r) e = CellsBelow-get_elem? n i cs c r e

pub CellsBelow-set :
    (n i : ℕ) (cs : List Cell) (c : Cell)
    → CellBelow n c
    → CellsBelow n cs
    → CellsBelow n (set cs i c)
CellsBelow-set n i [] c b h = tt
CellsBelow-set n zero (x ∷ cs) c b (h, r) = (b, r)
CellsBelow-set n (suc i) (x ∷ cs) c b (h, r) = (h, CellsBelow-set n i cs c b r)

pub CellsBelow-append :
    (n : ℕ) (cs : List Cell) (c : Cell)
    → CellBelow n c
    → CellsBelow n cs
    → CellsBelow n (cs ++ c ∷ [])
CellsBelow-append n [] c b h = (b, tt)
CellsBelow-append n (x ∷ cs) c b (h, r) = (h, CellsBelow-append n cs c b r)
