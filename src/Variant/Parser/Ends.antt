-- ===== src/Variant/Parser/Ends.antt =====
-- On the end of the methods of `VariantParser` (src/base/variant.cpp) and the fuel of their loops. Here: the
-- rules of such proofs.
pub mod Blanks
pub mod Texts
pub mod Values
pub mod Multi
use mifsa_base.Base.{
  ℕ, zero, suc, ◌+◌, ◌-◌, ◌≤◌, ◌<◌, Bool, true, false, not, ◌&&◌, List, [], ◌∷◌, ◌++◌, Option, none,
  some, Bytes, codes, ◌==◌, if◌then◌else◌, if_elim, length, drop, get_or, arith, ◌≡◌, ◌≢◌, refl,
  sym, ap, ◌∙◌, ◌⊎◌, inl, inr, length-drop, Bool-cases, ltb, leb, and_true, subst,
}
use mifsa_base.Variant.Parser.{
  Parser, M, ◌>>=◌, ◌>>◌, pure, out_of_fuel, failed?, at, peek, unread, advance, set_failed, fail,
  is_space, skip_while, consume_whitespace, not_newline, BlockEnd, found, missing, block_end,
  consume_block, consume_slash, consume_comment, consume_comments, takes_comments,
  consume_if_comments, consume_garbage, read_token, next_token,
}

-- The position lies in the text `s` that is read.
abbrev pub Good : Bytes → Parser → Type 0
Good s p = (p.in_string ≡ s) × (p.index ≤ length s)

-- The position `k` is reached, or the parser has failed.
abbrev pub Reached : ℕ → Parser → Type 0
Reached k p = (p.is_failed ≡ true) ⊎ (k ≤ p.index)

-- There is a result, and the position that `post` tells for it is reached.
abbrev pub Ends : {A : Type 0} → Bytes → (A → ℕ) → Option (A × Parser) → Type 0
Ends s post none = ⊥
Ends s post (some (a, p)) = Good s p × Reached (post a) p

-- A method ends when `k` is reached before it.
abbrev pub AllEnd : {A : Type 0} → Bytes → ℕ → (A → ℕ) → M A → Type 0
AllEnd s k post m = (p : Parser) → Good s p → Reached k p → Ends s post (m p)

abbrev pub const : {A : Type 0} → ℕ → A → ℕ
const k a = k

Ends-elim :
    {A B : Type 0} (s : Bytes) (post : A → ℕ) (then_post : B → ℕ) (f : A → M B)
    (r : Option (A × Parser))
    → Ends s post r
    → ((a : A) → AllEnd s (post a) then_post (f a))
    → Ends s then_post (elim r [ none ↦ none | some (a, p') ↦ f a p' ])
Ends-elim s post then_post f none h k = absurd h
Ends-elim s post then_post f (some (a, p)) h k = k a p h.0 h.1

pub AllEnd-bind :
    {A B : Type 0} (s : Bytes) (k : ℕ) (post : A → ℕ) (then_post : B → ℕ) (m : M A) (f : A → M B)
    → AllEnd s k post m
    → ((a : A) → AllEnd s (post a) then_post (f a))
    → AllEnd s k then_post (m >>= f)
AllEnd-bind s k post then_post m f h g p good reached =
    Ends-elim s post then_post f (m p) (h p good reached) g

pub AllEnd-pure :
    {A : Type 0} (s : Bytes) (k : ℕ) (post : A → ℕ) (a : A) → post a ≤ k → AllEnd s k post (pure a)
AllEnd-pure s k post a le p good (inl failed) = (good, inl failed)
AllEnd-pure s k post a le p good (inr at_least) = (good, inr (omega arith))

-- Where the method is skipped after a failure, the position that is reached lies in the text.
pub AllEnd-unless :
    {A : Type 0} (s : Bytes) (k : ℕ) (post : A → ℕ) (a : A) (m : M A)
    → (k ≤ length s → AllEnd s k post m)
    → AllEnd s k post (failed? >>= λ failed. if failed then pure a else m)
AllEnd-unless s k post a m h p good reached = unless_at p.is_failed refl reached
  where
    unless_at :
        (b : Bool) → p.is_failed ≡ b → Reached k p → Ends s post ((if b then pure a else m) p)
    unless_at true failed _ = (good, inl failed)
    unless_at false fine (inl failed) = absurd cc
    unless_at false fine (inr at_least) = h (omega (arith, good.1)) p good (inr at_least)

-- The parser with another position, not before the old one.
pub moved :
    {A : Type 0} (s : Bytes) (k i : ℕ) (a : A) (p : Parser)
    → Good s p
    → Reached k p
    → p.index ≤ i
    → i ≤ length s
    → Ends s (const k) (some (a, record p { index = i }))
moved s k i a p good (inl failed) le below = ((good.0, below), inl failed)
moved s k i a p good (inr at_least) le below = ((good.0, below), inr (omega arith))

-- The same, further on.
pub moved_by :
    {A : Type 0} (s : Bytes) (k d i : ℕ) (a : A) (p : Parser)
    → Good s p
    → Reached k p
    → p.index + d ≤ i
    → i ≤ length s
    → Ends s (const (k + d)) (some (a, record p { index = i }))
moved_by s k d i a p good (inl failed) le below = ((good.0, below), inl failed)
moved_by s k d i a p good (inr at_least) le below = ((good.0, below), inr (omega arith))

pub advanced :
    (s : Bytes) (k : ℕ) (p : Parser)
    → Good s p
    → Reached k p
    → p.index < length s
    → Good s (advance p 1) × Reached (k + 1) (advance p 1)
advanced s k p good (inl failed) less = ((good.0, omega arith), inl failed)
advanced s k p good (inr at_least) less = ((good.0, omega arith), inr (omega arith))

pub Ends-weaken :
    {A : Type 0} (s : Bytes) (k : ℕ) (post : A → ℕ) (r : Option (A × Parser))
    → ((a : A) → post a ≤ k)
    → Ends s (const k) r
    → Ends s post r
Ends-weaken s k post none le h = absurd h
Ends-weaken s k post (some (a, p)) le ((in_text, below), inl failed) =
    ((in_text, below), inl failed)
Ends-weaken s k post (some (a, p)) le ((in_text, below), inr at_least) =
    ((in_text, below), inr (omega (arith, le a)))

-- A position that is reached, and one before it.
pub AllEnd-weaken :
    {A : Type 0} (s : Bytes) (k j : ℕ) (post : A → ℕ) (m : M A)
    → ((a : A) → post a ≤ j)
    → AllEnd s k (const j) m
    → AllEnd s k post m
AllEnd-weaken s k j post m le h p good reached = Ends-weaken s j post (m p) le (h p good reached)

-- More is reached than is asked for.
pub AllEnd-from :
    {A : Type 0} (s : Bytes) (k j : ℕ) (post : A → ℕ) (m : M A)
    → k ≤ j
    → AllEnd s k post m
    → AllEnd s j post m
AllEnd-from s k j post m le h p good (inl failed) = h p good (inl failed)
AllEnd-from s k j post m le h p good (inr at_least) = h p good (inr (omega arith))
