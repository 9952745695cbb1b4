-- ===== src/Variant/RoundTrip/Cursor.antt =====
-- Where the parser of src/base/variant.cpp stands, and what a step of it yields: rules for the blanks, the
-- tokens and the steps back of `VariantParser`.
use mifsa_base.Base.{
  ℕ, suc, ◌+◌, ◌-◌, true, false, [], ◌∷◌, ◌++◌, some, ◌≡◌, ◌≢◌, refl, sym, ◌∙◌, arith, Bytes, ◌==◌,
  if◌then◌else◌, length, length-append, drop-add, get_or-drop, get_or-drop_nil, if_elim, subst,
}
use mifsa_base.Variant.Parser.{
  Parser, M, ◌>>=◌, pure, failed?, unread, peek, advance, is_space, skip_while, consume_whitespace,
  consume_comment, consume_comments, consume_if_comments, consume_garbage, read_token, next_token,
  takes_comments,
}

-- The parser has not failed, and `r` is what it has not read.
pub record At (p : Parser) (r : Bytes) : Type 0 where
  pub rest : unread p ≡ r
  pub fits : p.index + length r ≡ length p.in_string
  pub sound : p.is_failed ≡ false

-- A step succeeds with a value, and leaves `r` to be read.
abbrev pub Yields : {A : Type 0} → M A → Parser → A → Bytes → Type 0
Yields m p a r = (q : Parser) × (m p ≡ some (a, q)) × At q r

pub Yields-bind :
    {A B : Type 0} (m : M A) (f : A → M B) {p : Parser} {a : A} {b : B} {r r' : Bytes}
    → Yields m p a r
    → ((q : Parser) → At q r → Yields (f a) q b r')
    → Yields (m >>= f) p b r'
Yields-bind m f {p} {a} {b} (q, e, h) k = let (q', e', h') = k q h in (q', rw (e, ◌>>=◌) e', h')

-- The test of `isFailed` behind a step that did not fail.
pub Yields-unfailed :
    {A : Type 0} (p : Parser) (f g : M A) {a : A} {r : Bytes}
    → p.is_failed ≡ false
    → Yields g p a r
    → Yields (failed? >>= λ failed. if failed then f else g) p a r
Yields-unfailed p f g {a} {r} h y =
    subst (λ b. (q : Parser) × ((if b then f else g) p ≡ some (a, q)) × At q r) (sym h) y

pub At-advance : (p : Parser) (xs r : Bytes) → At p (xs ++ r) → At (advance p (length xs)) r
At-advance p xs r h = record {
  rest = drop-add p.index xs p.in_string h.rest;
  fits = omega (arith, length-append xs r, h.fits);
  sound = h.sound;
}

pub At-peek : (p : Parser) {c : ℕ} {r : Bytes} → At p (c ∷ r) → peek p ≡ c
At-peek p h = get_or-drop p.index p.in_string 0 h.rest

-- The byte at the end is the zero byte.
pub At-peek_end : (p : Parser) → At p [] → peek p ≡ 0
At-peek_end p h = get_or-drop_nil p.index p.in_string 0 h.rest

abbrev pub Blank : Bytes → Type 0
Blank [] = Unit
Blank (c ∷ cs) = (is_space c ≡ true) × Blank cs

-- The first byte of what is left starts no blank and no comment.
abbrev pub IsSolid : Bytes → Type 0
IsSolid [] = Unit
IsSolid (c ∷ r) = (is_space c ≡ false) × (c ≢ b'/')

skip_while-Blank :
    (ws r : Bytes) (i : ℕ) → Blank ws → IsSolid r → skip_while is_space (ws ++ r) i ≡ i + length ws
unfolding skip_while
skip_while-Blank [] [] i b s = omega arith
skip_while-Blank [] (c ∷ r) i b s = rw s.0 (omega arith)
skip_while-Blank (c ∷ ws) r i b s = rw b.0 (skip_while-Blank ws r (i + 1) b.1 s ∙ omega arith)

consume_whitespace-Blank :
    (p : Parser) (ws r : Bytes)
    → Blank ws
    → IsSolid r
    → At p (ws ++ r)
    → Yields consume_whitespace p tt r
unfolding consume_whitespace
consume_whitespace-Blank p ws r b s h =
    (advance p (length ws), rw (h.rest, skip_while-Blank ws r p.index b s), At-advance p ws r h)

consume_comment-IsSolid :
    (p : Parser) (r : Bytes) → IsSolid r → At p r → consume_comment p ≡ some (false, p)
unfolding consume_comment
consume_comment-IsSolid p [] s h = ground (arith, At-peek_end p h)
consume_comment-IsSolid p (c ∷ r) s h = ground (arith, At-peek p h)

-- Where no comment starts, the loop over comments ends in its first round.
consume_comments-IsSolid :
    (fuel : ℕ) (p : Parser) (r : Bytes)
    → IsSolid r
    → At p r
    → Yields (consume_comments (suc fuel)) p tt r
unfolding consume_comments
consume_comments-IsSolid fuel p r s h =
    rw (consume_comment-IsSolid p r s h, consume_comments, ◌>>=◌)
      (Yields-unfailed p _ _ h.sound (
        Yields-bind consume_whitespace (λ _. pure tt) (consume_whitespace-Blank p [] r tt s h)
          (λ q hq. (q, refl, hq))))

consume_if_comments-IsSolid :
    (p : Parser) (r : Bytes) → IsSolid r → At p r → Yields consume_if_comments p tt r
unfolding consume_if_comments
consume_if_comments-IsSolid p r s h =
    if_elim (λ m. (q : Parser) × (m ≡ some (tt, q)) × At q r) (takes_comments p.parse_type)
      (λ _. consume_comments-IsSolid (length p.in_string) p r s h) (λ _. (p, refl, h))

pub consume_garbage-Blank :
    (p : Parser) (ws r : Bytes)
    → Blank ws
    → IsSolid r
    → At p (ws ++ r)
    → Yields consume_garbage p tt r
unfolding consume_garbage
consume_garbage-Blank p ws r b s h =
    Yields-bind consume_whitespace (λ _. consume_if_comments)
      (consume_whitespace-Blank p ws r b s h) (λ q hq. consume_if_comments-IsSolid q r s hq)

-- The parser has read the token `c`, and may step back to it.
pub record AtToken (p : Parser) (c : ℕ) (r : Bytes) : Type 0 where
  pub ahead : At p r
  pub back : At (record p { index = p.index - 1 }) (c ∷ r)
  pub moved : p.index ≢ 0

read_token-At :
    (p : Parser) (c : ℕ) (r : Bytes)
    → At p (c ∷ r)
    → (q : Parser) × (read_token p ≡ some (c, q)) × AtToken q c r
unfolding read_token
read_token-At p c r h =
    let more : (p.index == length p.in_string) ≡ false = ground (arith, h.fits) in
    let index_back : p.index + 1 - 1 ≡ p.index = omega arith in
    (
      advance p 1,
      rw (more, At-peek p h),
      record { ahead = At-advance p (c ∷ []) r h; back = rw index_back h; moved = omega arith },
    )

-- The next token, behind blanks.
pub next_token-Blank :
    (p : Parser) (ws : Bytes) (c : ℕ) (r : Bytes)
    → Blank ws
    → IsSolid (c ∷ r)
    → At p (ws ++ c ∷ r)
    → (q : Parser) × (next_token p ≡ some (c, q)) × AtToken q c r
unfolding next_token
next_token-Blank p ws c r b s h =
    let (p', e, h') = consume_garbage-Blank p ws (c ∷ r) b s h in
    let (q, e', t) = read_token-At p' c r h' in (q, rw (e, next_token, ◌>>=◌) (rw (h'.sound) e'), t)
