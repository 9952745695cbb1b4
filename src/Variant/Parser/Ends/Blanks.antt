-- ===== src/Variant/Parser/Ends/Blanks.antt =====
-- On the end of the reading of blanks, comments and tokens (src/base/variant.cpp).
use mifsa_base.Base.{
  ℕ, zero, suc, ◌+◌, ◌≤◌, ◌<◌, Bool, true, false, ◌&&◌, [], ◌∷◌, Option, some, Bytes, codes, ◌==◌,
  if◌then◌else◌, if_elim, length, drop, arith, ◌≡◌, refl, ap, inl, length-drop, subst,
}
use mifsa_base.Variant.Parser.{
  Parser, M, ◌>>◌, pure, at, peek, unread, advance, set_failed, fail, is_space, skip_while,
  consume_whitespace, not_newline, BlockEnd, found, missing, block_end, consume_block,
  consume_slash, consume_comment, consume_comments, takes_comments, consume_if_comments,
  consume_garbage, read_token, next_token,
}
use mifsa_base.Variant.Parser.Ends.{
  Good, Reached, Ends, AllEnd, const, AllEnd-bind, AllEnd-pure, AllEnd-unless, moved, advanced,
  AllEnd-weaken,
}

-- A byte that is not zero lies before the end.
pub get_or-lt : (s : Bytes) (i c : ℕ) → (at s i == suc c) ≡ true → i < length s
get_or-lt [] i c e = absurd (ground arith)
get_or-lt (x ∷ s) zero c e = omega arith
get_or-lt (x ∷ s) (suc i) c e = omega (arith, get_or-lt s i c e)

pub skip_while_bounds :
    (test : ℕ → Bool) (s : Bytes) (i : ℕ)
    → (i ≤ skip_while test s i) × (skip_while test s i ≤ i + length s)
unfolding skip_while
skip_while_bounds test [] i = (omega arith, omega arith)
skip_while_bounds test (c ∷ s) i =
    if_elim (λ j. (i ≤ j) × (j ≤ i + length (c ∷ s))) (test c)
      (λ _. let (low, high) = skip_while_bounds test s (i + 1) in (omega arith, omega arith))
      (λ _. (omega arith, omega arith))

-- The position behind the bytes from `i` on that pass a test.
pub skip_from :
    (test : ℕ → Bool) (s : Bytes) (i : ℕ)
    → i ≤ length s
    → (i ≤ skip_while test (drop i s) i) × (skip_while test (drop i s) i ≤ length s)
skip_from test s i le =
    let (low, high) = skip_while_bounds test (drop i s) i in (low, omega (arith, length-drop i s))

consume_whitespace-AllEnd : (s : Bytes) (k : ℕ) → AllEnd s k (const k) consume_whitespace
unfolding consume_whitespace
consume_whitespace-AllEnd s k p good reached =
    let (low, high) =
      skip_from is_space p.in_string p.index (omega (arith, good.1, ap length good.0)) in
    moved s k _ tt p good reached low (omega (arith, ap length good.0))

-- The end of a block comment between two positions.
abbrev Between : ℕ → ℕ → BlockEnd → Type 0
Between i n (found j) = (i ≤ j) × (j + 2 ≤ n)
Between i n (missing j) = (i ≤ j) × (j ≤ n)

Between-later : (i m n : ℕ) (r : BlockEnd) → m ≡ n → Between (i + 1) m r → Between i n r
Between-later i m n (found j) e (low, high) = (omega arith, omega arith)
Between-later i m n (missing j) e (low, high) = (omega arith, omega arith)

block_end-Between : (s : Bytes) (i : ℕ) → Between i (i + length s) (block_end s i)
unfolding block_end
block_end-Between [] i = (omega arith, omega arith)
block_end-Between (c ∷ []) i = (omega arith, omega arith)
block_end-Between (c ∷ d ∷ cs) i =
    if_elim (Between i (i + length (c ∷ d ∷ cs))) (c == b'*' && d == b'/')
      (λ _. (omega arith, omega arith))
      (λ _.
        Between-later i (i + 1 + length (d ∷ cs)) _ (block_end (d ∷ cs) (i + 1)) (omega arith)
          (block_end-Between (d ∷ cs) (i + 1)))

block_end-Ends :
    (s : Bytes) (k : ℕ) (p : Parser) (r : BlockEnd)
    → Good s p
    → Reached k p
    → Between p.index (length s) r
    → Ends s (const k) (elim r as (λ _. Option (Bool × Parser)) [
      | found i ↦ some (true, record p { index = i + 2 })
      | missing i ↦
          fail
            (codes "unexpected end of input inside multi-line comment")
            false
            (record p { index = i })
    ])
unfolding fail set_failed
block_end-Ends s k p (found j) good reached (low, high) =
    moved s k (j + 2) true p good reached (omega arith) high
block_end-Ends s k p (missing j) good reached (low, high) = ((good.0, high), inl refl)

consume_block-AllEnd : (s : Bytes) (k : ℕ) → AllEnd s k (const k) consume_block
unfolding consume_block
consume_block-AllEnd s k p good reached =
    block_end-Ends s k p (block_end (unread p) p.index) good reached (
      subst (λ n. Between p.index n (block_end (unread p) p.index))
        (omega (arith, length-drop p.index p.in_string, ap length good.0, good.1))
        (block_end-Between (unread p) p.index))

-- A byte of the text at the position `i` of the parser.
abbrev pub at-lt :
    (s : Bytes) (p : Parser) (i c : ℕ)
    → Good s p
    → (at p.in_string i == suc c) ≡ true
    → i < length s
at-lt s p i c good e = subst (λ t. i < length t) good.0 (get_or-lt p.in_string i c e)

not_end :
    (s : Bytes) (p : Parser)
    → Good s p
    → (p.index == length p.in_string) ≡ false
    → p.index < length s
not_end s p good inside =
    let le : p.index ≤ length p.in_string = omega (arith, ap length good.0, good.1) in
    let less : p.index < length p.in_string = ground (arith, le, inside) in
    omega (arith, ap length good.0, less)

-- The position is one further where a comment begins.
abbrev pub one_more : ℕ → Bool → ℕ
one_more k true = k + 1
one_more k false = k

one_more-le : (k : ℕ) (b : Bool) → one_more k b ≤ k + 1
one_more-le k true = omega arith
one_more-le k false = omega arith

consume_slash-AllEnd : (s : Bytes) (k : ℕ) → AllEnd s k (const k) consume_slash
unfolding consume_slash fail set_failed
consume_slash-AllEnd s k p good reached =
    if_elim (Ends s (const k)) (p.index == length p.in_string) (λ _. (good, inl refl))
      (λ inside.
        let less = not_end s p good inside in
        if_elim (Ends s (const k)) (peek p == b'/')
          (λ _.
            let (low, high) =
              skip_from not_newline p.in_string (p.index + 1) (omega (arith, ap length good.0)) in
            moved s k _ true p good reached (omega arith) (omega (arith, ap length good.0)))
          (λ _.
            if_elim (Ends s (const k)) (peek p == b'*')
              (λ _.
                let moved_one =
                  moved s k (p.index + 1) tt p good reached (omega arith) (omega arith) in
                consume_block-AllEnd s k (advance p 1) moved_one.0 moved_one.1)
              (λ _. (good, inl refl))))

consume_comment-AllEnd : (s : Bytes) (k : ℕ) → AllEnd s k (one_more k) consume_comment
unfolding consume_comment
consume_comment-AllEnd s k p good reached =
    if_elim (Ends s (one_more k)) (peek p == b'/')
      (λ slash.
        let less = at-lt s p p.index _ good slash in
        let further = advanced s k p good reached less in
        AllEnd-weaken s (k + 1) (k + 1) (one_more k) consume_slash (one_more-le k)
          (consume_slash-AllEnd s (k + 1)) (advance p 1) further.0 further.1)
      (λ _. (good, reached))

comments_round :
    (s : Bytes) (k : ℕ) (again : M (Unit {0})) (b : Bool)
    → (k + 1 ≤ length s → AllEnd s (k + 1) (const (k + 1)) again)
    → one_more k b ≤ length s
    → AllEnd s (one_more k b) (const k) (consume_whitespace >> (if b then again else pure tt))
comments_round s k again false h le =
    AllEnd-bind s k (const k) (const k) consume_whitespace _ (consume_whitespace-AllEnd s k)
      (λ _. AllEnd-pure s k (const k) tt (omega arith))
comments_round s k again true h le =
    AllEnd-bind s (k + 1) (const (k + 1)) (const k) consume_whitespace _
      (consume_whitespace-AllEnd s (k + 1))
      (λ _. AllEnd-weaken s (k + 1) (k + 1) (const k) again (λ _. omega arith) (h le))

consume_comments-AllEnd :
    (fuel : ℕ) (s : Bytes) (k : ℕ)
    → 0 < fuel
    → length s < fuel + k
    → AllEnd s k (const k) (consume_comments fuel)
unfolding consume_comments
consume_comments-AllEnd zero s k some_fuel enough = absurd (omega arith)
consume_comments-AllEnd (suc fuel) s k some_fuel enough =
    AllEnd-bind s k (one_more k) (const k) consume_comment _ (consume_comment-AllEnd s k) (λ b.
      AllEnd-unless s (one_more k b) (const k) tt _ (
        comments_round s k (consume_comments fuel) b
          (λ le. consume_comments-AllEnd fuel s (k + 1) (omega arith) (omega arith))))

pub consume_garbage-AllEnd : (s : Bytes) (k : ℕ) → AllEnd s k (const k) consume_garbage
unfolding consume_garbage consume_if_comments
consume_garbage-AllEnd s k =
    AllEnd-bind s k (const k) (const k) consume_whitespace (λ _. consume_if_comments)
      (consume_whitespace-AllEnd s k)
      (λ _ p good reached.
        if_elim (Ends s (const k)) (takes_comments p.parse_type)
          (λ _.
            consume_comments-AllEnd (suc (length p.in_string)) s k (omega arith)
              (omega (arith, ap length good.0)) p good reached)
          (λ _. (good, reached)))

read_token-AllEnd : (s : Bytes) (k : ℕ) → AllEnd s k (const (k + 1)) read_token
unfolding read_token fail set_failed
read_token-AllEnd s k p good reached =
    if_elim (Ends s (const (k + 1))) (p.index == length p.in_string) (λ _. (good, inl refl))
      (λ inside. advanced s k p good reached (not_end s p good inside))

-- A token is a byte further, if there is one.
pub next_token-AllEnd : (s : Bytes) (k : ℕ) → AllEnd s k (const (k + 1)) next_token
unfolding next_token
next_token-AllEnd s k =
    AllEnd-bind s k (const k) (const (k + 1)) consume_garbage _ (consume_garbage-AllEnd s k)
      (λ _. AllEnd-unless s k (const (k + 1)) 0 read_token (λ _. read_token-AllEnd s k))
