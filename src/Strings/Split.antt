-- ===== src/Strings/Split.antt =====
-- The pieces of `stringSplit` of src/utils/string.cpp.
use mifsa_base.Base.{
  ℕ, zero, suc, ◌+◌, ◌-◌, ◌≤◌, ◌<◌, true, false, List, [], ◌∷◌, ◌++◌, Option, none, some, ltb,
  ltb→lt, ◌==◌, ◌≡◌, ◌≢◌, refl, sym, ap, ◌∙◌, inl, inr, arith, if_elim, if◌then◌else◌, length, take,
  drop, take-append-drop, length-drop, Bytes, starts, starts-take, find_at, subst, Bool-cases,
}
use mifsa_base.Strings.{find, split_loop, string_split}

-- The pieces of a string: each ends where the delimiter occurs next, and the last one, which is not empty,
-- where the string does.
pub data IsSplit (delim : Bytes) : List Bytes → Bytes → Type 0 where
  nothing : IsSplit delim [] []
  last :
      (piece : Bytes) → piece ≢ [] → find_at delim piece 0 ≡ none → IsSplit delim (piece ∷ []) piece
  next :
      (piece : Bytes) (pieces : List Bytes) (s : Bytes)
      → find_at delim (piece ++ (delim ++ s)) 0 ≡ some (length piece)
      → IsSplit delim pieces s
      → IsSplit delim (piece ∷ pieces) (piece ++ (delim ++ s))

-- Where an occurrence is found, and that the count of positions may begin anywhere.
abbrev Occurs : Bytes → Bytes → ℕ → Option ℕ → Type 0
Occurs p s i none = find_at p s 0 ≡ none
Occurs p s i (some j) =
    (before : Bytes) × (after : Bytes) × (s ≡ before ++ (p ++ after))
    × (j ≡ i + length before)
    × (find_at p s 0 ≡ some (length before))

find_at-shift :
    (p s : Bytes) (i j : ℕ)
    → find_at p s (i + j) ≡ elim (find_at p s i) [ none ↦ none | some k ↦ some (k + j) ]
unfolding find_at
find_at-shift p [] i j = elim (Bool-cases (starts p [])) [ inl e ↦ rw e refl | inr e ↦ rw e refl ]
find_at-shift p (x ∷ s) i j = elim (Bool-cases (starts p (x ∷ s))) [
  | inl e ↦ rw e refl
  | inr e ↦ rw e (ap (find_at p s) (omega arith) ∙ find_at-shift p s (i + 1) j)
]

find_at_later :
    (p s : Bytes) (x : ℕ)
    → starts p (x ∷ s) ≡ false
    → find_at p (x ∷ s) 0 ≡ elim (find_at p s 0) [ none ↦ none | some k ↦ some (k + 1) ]
unfolding find_at
find_at_later p s x miss =
    ap (λ b. if b then some 0 else find_at p s (0 + 1)) miss ∙ find_at-shift p s 0 1

Occurs-cons :
    (p s : Bytes) (x i : ℕ) (r : Option ℕ)
    → starts p (x ∷ s) ≡ false
    → Occurs p s (i + 1) r
    → Occurs p (x ∷ s) i r
Occurs-cons p s x i none miss h = rw (find_at_later p s x miss, h) refl
Occurs-cons p s x i (some j) miss (before, after, whole, at, first) = (
  x ∷ before,
  after,
  ap (◌∷◌ x) whole,
  omega (arith, at),
  find_at_later p s x miss
      ∙ ap (λ (r : Option ℕ). elim r [ none ↦ none | some k ↦ some (k + 1) ]) first
      ∙ ap some (omega arith),
)

Occurs-starts :
    (p s : Bytes) (i : ℕ) → starts p s ≡ true → find_at p s 0 ≡ some 0 → Occurs p s i (some i)
Occurs-starts p s i hit first = (
  [],
  drop (length p) s,
  sym (
      ap (λ x. x ++ drop (length p) s) (sym (starts-take p s hit)) ∙ take-append-drop (length p) s),
  omega arith,
  first,
)

find_at-Occurs : (p s : Bytes) (i : ℕ) → Occurs p s i (find_at p s i)
unfolding find_at
find_at-Occurs p [] i =
    if_elim (Occurs p [] i) (starts p []) (λ hit. Occurs-starts p [] i hit (rw hit refl))
      (λ miss. rw miss refl)
find_at-Occurs p (x ∷ s) i =
    if_elim (Occurs p (x ∷ s) i) (starts p (x ∷ s))
      (λ hit. Occurs-starts p (x ∷ s) i hit (rw hit refl))
      (λ miss. Occurs-cons p s x i (find_at p s (i + 1)) miss (find_at-Occurs p s (i + 1)))

drop-append : (xs ys : Bytes) → drop (length xs) (xs ++ ys) ≡ ys
drop-append [] ys = refl
drop-append (x ∷ xs) ys = drop-append xs ys

drop-drop : (m n k : ℕ) (s : Bytes) → k ≡ m + n → drop k s ≡ drop n (drop m s)
drop-drop zero n k s e = ap (λ x. drop x s) (omega arith)
drop-drop (suc m) n zero s e = absurd (omega arith)
drop-drop (suc m) zero (suc k) [] e = refl
drop-drop (suc m) (suc n) (suc k) [] e = refl
drop-drop (suc m) n (suc k) (x ∷ s) e = drop-drop m n k s (omega arith)

take-whole : (n : ℕ) (s : Bytes) → length s ≤ n → take n s ≡ s
take-whole zero [] h = refl
take-whole zero (x ∷ s) h = absurd (omega arith)
take-whole (suc n) [] h = refl
take-whole (suc n) (x ∷ s) h = ap (◌∷◌ x) (take-whole n s (omega arith))

take-append : (xs ys : Bytes) (n : ℕ) → n ≡ length xs → take n (xs ++ ys) ≡ xs
take-append [] ys zero e = refl
take-append [] ys (suc n) e = absurd (omega arith)
take-append (x ∷ xs) ys zero e = absurd (omega arith)
take-append (x ∷ xs) ys (suc n) e = ap (◌∷◌ x) (take-append xs ys n (omega arith))

drop-all : (n : ℕ) (s : Bytes) → length s ≤ n → drop n s ≡ []
drop-all zero [] h = refl
drop-all zero (x ∷ s) h = absurd (omega arith)
drop-all (suc n) [] h = refl
drop-all (suc n) (x ∷ s) h = drop-all n s (omega arith)

-- One round of the loop, by what it finds.
abbrev pieces_of : ℕ → Bytes → Bytes → ℕ → Option ℕ → List Bytes
pieces_of fuel s delim pos none = take (length s - pos) (drop pos s) ∷ []
pieces_of fuel s delim pos (some at) =
    take (at - pos) (drop pos s) ∷ split_loop fuel s delim (at + length delim)

behind :
    (s delim before after : Bytes) (pos at : ℕ)
    → drop pos s ≡ before ++ (delim ++ after)
    → at ≡ pos + length before
    → drop (at + length delim) s ≡ after
behind s delim before after pos at whole e =
    drop-drop pos (length before + length delim) _ s (omega (arith, e))
    ∙ ap (drop (length before + length delim)) whole
    ∙ drop-drop (length before) (length delim) _ (before ++ (delim ++ after)) refl
    ∙ ap (drop (length delim)) (drop-append before (delim ++ after))
    ∙ drop-append delim after

find-find_at :
    (s delim : Bytes) (pos : ℕ) → pos < length s → find s delim pos ≡ find_at delim (drop pos s) pos
find-find_at s delim pos less =
    if_elim (λ r. r ≡ find_at delim (drop pos s) pos) (ltb (length s) pos)
      (λ e. absurd (omega (arith, ltb→lt _ _ e))) (λ _. refl)

round-IsSplit :
    (fuel : ℕ) (s delim : Bytes) (pos : ℕ) (r : Option ℕ)
    → pos < length s
    → Occurs delim (drop pos s) pos r
    → ((at : ℕ)
        → pos ≤ at
        → IsSplit delim (split_loop fuel s delim (at + length delim)) (drop (at + length delim) s))
    → IsSplit delim (pieces_of fuel s delim pos r) (drop pos s)
round-IsSplit fuel s delim pos none less none_left rest =
    subst (λ x. IsSplit delim (x ∷ []) (drop pos s))
      (sym (take-whole (length s - pos) (drop pos s) (omega (arith, length-drop pos s))))
      (last (drop pos s) (λ e. absurd (omega (arith, length-drop pos s, ap length e))) none_left)
round-IsSplit fuel s delim pos (some at) less (before, after, whole, e, first) rest =
    let piece : take (at - pos) (drop pos s) ≡ before =
      ap (take (at - pos)) whole
      ∙ take-append before (delim ++ after) (at - pos) (omega (arith, e)) in
    let later = split_loop fuel s delim (at + length delim) in
    let found = next before later after (ap (λ x. find_at delim x 0) (sym whole) ∙ first) (
      subst (IsSplit delim later) (behind s delim before after pos at whole e)
        (rest at (omega (arith, e)))) in
    subst (λ x. IsSplit delim (x ∷ later) (drop pos s)) (sym piece)
      (subst (IsSplit delim (before ∷ later)) (sym whole) found)

split_loop-IsSplit :
    (fuel : ℕ) (s delim : Bytes) (pos : ℕ)
    → 0 < length delim
    → length s ≤ fuel + pos
    → IsSplit delim (split_loop fuel s delim pos) (drop pos s)
unfolding split_loop
split_loop-IsSplit zero s delim pos some_delim enough =
    subst (IsSplit delim []) (sym (drop-all pos s (omega arith))) nothing
split_loop-IsSplit (suc fuel) s delim pos some_delim enough =
    if_elim (λ r. IsSplit delim r (drop pos s)) (ltb pos (length s))
      (λ less.
        subst (λ r. IsSplit delim (pieces_of fuel s delim pos r) (drop pos s))
          (sym (find-find_at s delim pos (ltb→lt _ _ less)))
          (round-IsSplit fuel s delim pos (find_at delim (drop pos s) pos) (ltb→lt _ _ less)
            (find_at-Occurs delim (drop pos s) pos)
            (λ at le.
              split_loop-IsSplit fuel s delim (at + length delim) some_delim (omega arith))))
      (λ end. subst (IsSplit delim []) (sym (drop-all pos s (ground arith))) nothing)

-- `stringSplit` with a delimiter that is not empty cuts the string exactly where the delimiter occurs next, one
-- piece after the other: the pieces with the delimiter behind each make it up again, where the last
-- one, if it is not followed by a delimiter, is not empty.
pub string_split-IsSplit : (s delim : Bytes) → delim ≢ [] → IsSplit delim (string_split s delim) s
unfolding string_split
string_split-IsSplit s [] some_delim = absurd (some_delim refl)
string_split-IsSplit s (c ∷ delim) some_delim =
    if_elim (λ r. IsSplit (c ∷ delim) r s) (length (c ∷ delim) == 0) (λ e. absurd (ground arith))
      (λ _. split_loop-IsSplit (length s) s (c ∷ delim) 0 (omega arith) (omega arith))
