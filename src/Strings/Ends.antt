-- ===== src/Strings/Ends.antt =====
-- The beginnings and ends of strings (src/utils/string.cpp).
use mifsa_base.Base.{
  ℕ, zero, suc, ◌-◌, ◌<◌, true, false, [], ◌∷◌, ◌++◌, none, some, ltb, ltb→lt, ◌==◌, ◌≡◌, refl, sym,
  ap, ◌∙◌, ◌⊎◌, ◌↔◌, ◌≢◌, inl, inr, arith, if_elim, length, take, drop, take-append-drop,
  length-drop, Bytes, equal, equal_iff, Bool-cases,
}
use mifsa_base.Strings.{string_end_with, string_start_with}

take-length : (xs ys : Bytes) → take (length xs) (xs ++ ys) ≡ xs
take-length [] ys = refl
take-length (x ∷ xs) ys = ap (◌∷◌ x) (take-length xs ys)

start_with-cons :
    (c : ℕ) (str head : Bytes)
    → string_start_with (c ∷ str) head ≡ equal (take (length head) (c ∷ str)) head
unfolding string_start_with
start_with-cons c str head =
    if_elim (λ r. r ≡ equal (take (length head) (c ∷ str)) head) (length (c ∷ str) == 0)
      (λ e. absurd (ground arith)) (λ _. refl)

drop-start :
    (c : ℕ) (str head : Bytes)
    → string_start_with (c ∷ str) head ≡ true
    → head ++ drop (length head) (c ∷ str) ≡ c ∷ str
drop-start c str head h =
    ap (λ x. x ++ drop (length head) (c ∷ str))
      (sym
        ((equal_iff (take (length head) (c ∷ str)) head).0 (sym (start_with-cons c str head) ∙ h)))
    ∙ take-append-drop (length head) (c ∷ str)

-- A string starts with `head` exactly if it is not empty and `head` and some rest make it up.
pub string_start_with_iff :
    (str head : Bytes)
    → (string_start_with str head ≡ true) ↔ ((str ≢ []) × ((rest : Bytes) × (str ≡ head ++ rest)))
unfolding string_start_with
string_start_with_iff [] head = (λ h. absurd cc, λ h. absurd (h.0 refl))
string_start_with_iff (c ∷ str) head = (
  λ h. (λ e. absurd cc, (drop (length head) (c ∷ str), sym (drop-start c str head h))),
  λ h.
      start_with-cons c str head
      ∙ (equal_iff (take (length head) (c ∷ str)) head).1
          (ap (take (length head)) h.1.1 ∙ take-length head h.1.0),
)

take-all : (n : ℕ) (xs : Bytes) → n ≡ length xs → take n xs ≡ xs
take-all zero [] e = refl
take-all zero (x ∷ xs) e = absurd (omega arith)
take-all (suc n) [] e = absurd (omega arith)
take-all (suc n) (x ∷ xs) e = ap (◌∷◌ x) (take-all n xs (omega arith))

-- `string_end_with` answers no for the empty string, throws for one that is shorter than the tail, and
-- otherwise compares the end of the string that is as long as the tail with it.
pub string_end_with_lem :
    (str tail : Bytes)
    → ((str ≡ []) × (string_end_with str tail ≡ some false))
      ⊎ ((str ≢ []) × (length str < length tail) × (string_end_with str tail ≡ none))
      ⊎ ((front : Bytes) × (end : Bytes) × (str ≡ front ++ end)
          × (length end ≡ length tail)
          × (string_end_with str tail ≡ some (equal end tail)))
unfolding string_end_with
string_end_with_lem [] tail = inl (refl, refl)
string_end_with_lem (c ∷ str) tail =
    let n = length (c ∷ str) - length tail in
    let full = c ∷ str in
    elim (Bool-cases (ltb (length full) (length tail))) [
      | inl short ↦ inr (inl (λ e. absurd cc, ltb→lt _ _ short, rw short (ground arith)))
      | inr long ↦
          let same : length tail ≡ length (drop n full) = ground (arith, length-drop n full) in
          let whole : string_end_with full tail
              ≡ some (equal (take (length tail) (drop n full)) tail) =
            ground arith in
          inr (
            inr (
              take n full,
              drop n full,
              sym (take-append-drop n full),
              sym same,
              whole ∙ ap (λ x. some (equal x tail)) (take-all (length tail) (drop n full) same),
            ))
    ]
