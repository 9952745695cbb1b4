-- ===== src/Variant/Parser.antt =====
-- The class `VariantParser` of src/base/variant.cpp: its state, `parseInFail`, blanks and comments,
-- and the next token. A method is a step on the state; `none` is a loop that has used up its fuel.
pub mod Strings
pub mod Numbers
pub mod Values
pub mod Multi
pub mod Ends
use mifsa_base.Base.{
  ℕ, zero, suc, ◌+◌, ◌-◌, ◌/◌, ◌%◌, Bool, true, false, not, ◌&&◌, ◌||◌, [], ◌∷◌, ◌++◌, Option, none,
  some, Bytes, codes, leb, ltb, ◌==◌, if◌then◌else◌, length, drop, get_or, arith, ◌≡◌, refl,
}
use mifsa_base.Variant.Data.{ParseType, in_comments, unknown, out_small, out_beautify, in_standard}
use mifsa_base.Variant.Print.{decimal}

-- `error_string` is `none` for a null pointer.
pub record Parser : Type 0 where
  pub in_string : Bytes
  pub parse_type : ParseType
  pub index : ℕ
  pub is_failed : Bool
  pub error_string : Option Bytes

abbrev pub M : Type 0 → Type 0
M A = Parser → Option (A × Parser)

infixl 5 ◌>>=◌ ◌>>◌
abbrev pub ◌>>=◌ : {A B : Type 0} → M A → (A → M B) → M B
◌>>=◌ m f p = elim (m p) [ none ↦ none | some (a, p') ↦ f a p' ]

abbrev pub ◌>>◌ : {B : Type 0} → M (Unit {0}) → M B → M B
m >> k = m >>= λ _. k

abbrev pub pure : {A : Type 0} → A → M A
pure a p = some (a, p)

abbrev pub out_of_fuel : {A : Type 0} → M A
out_of_fuel p = none

abbrev pub failed? : M Bool
failed? p = some (p.is_failed, p)

-- `inString[index]`: a string ends in a zero byte.
abbrev pub at : Bytes → ℕ → ℕ
at s i = get_or s i 0

abbrev pub peek : Parser → ℕ
peek p = at p.in_string p.index

-- What is not read yet.
abbrev pub unread : Parser → Bytes
unread p = drop p.index p.in_string

abbrev pub advance : Parser → ℕ → Parser
advance p n = record p { index = p.index + n }

-- A write through the pointer `errorString`, if it is given.
abbrev pub write_error : Option Bytes → Bytes → Option Bytes
write_error none msg = none
write_error (some e) msg = some msg

-- `parseInFail`: the first message is kept.
unfoldable pub set_failed : Bytes → Parser → Parser
set_failed msg p = record p {
  is_failed = true;
  error_string = if p.is_failed then p.error_string else write_error p.error_string msg;
}

unfoldable pub fail : {A : Type 0} → Bytes → A → M A
unfolding set_failed
fail msg value p = some (value, set_failed msg p)

-- `parseInEsc`; `%d` prints a `char`, which is signed.
unfoldable pub esc : ℕ → Bytes
unfolding decimal
esc c =
    if leb 0x20 c && leb c 0x7f
    then b'\'' ∷ c ∷ codes "' (" ++ decimal 3 c ++ codes ")"
    else if ltb c 0x80
    then b'(' ∷ decimal 3 c ++ codes ")"
    else codes "(-" ++ decimal 3 (0x100 - c) ++ codes ")"

abbrev pub is_space : ℕ → Bool
is_space c = c == b' ' || c == 13 || c == 10 || c == 9

-- The position behind the bytes that pass `test`, from the suffix that begins at `i`. The loops that
-- use it stop at the zero byte behind the string, which no `test` of theirs passes.
unfoldable pub skip_while : (ℕ → Bool) → Bytes → ℕ → ℕ
skip_while test [] i = i
skip_while test (c ∷ cs) i = if test c then skip_while test cs (i + 1) else i

unfoldable pub consume_whitespace : M (Unit {0})
unfolding skip_while
consume_whitespace p = some (tt, record p { index = skip_while is_space (unread p) p.index })

abbrev pub not_newline : ℕ → Bool
not_newline c = not (c == 10)

-- The end of a block comment: the position of its `*/`, or where the search ran into the end.
pub data BlockEnd : Type 0 where
  found missing : ℕ → BlockEnd

block_end : Bytes → ℕ → BlockEnd
block_end [] i = missing i
block_end (c ∷ []) i = missing i
block_end (c ∷ d ∷ cs) i = if c == b'*' && d == b'/' then found i else block_end (d ∷ cs) (i + 1)

abbrev comment_cut : Bytes
comment_cut = codes "unexpected end of input inside multi-line comment"

consume_block : M Bool
unfolding block_end fail
consume_block p = elim (block_end (unread p) p.index) [
  | found i ↦ some (true, record p { index = i + 2 })
  | missing i ↦ fail comment_cut false (record p { index = i })
]

-- Behind the first slash.
consume_slash : M Bool
unfolding consume_block skip_while fail
consume_slash p =
    if p.index == length p.in_string
    then fail (codes "unexpected end of input after start of comment") false p
    else if peek p == b'/'
    then some
        (true, record p { index = skip_while not_newline (unread (advance p 1)) (p.index + 1) })
    else if peek p == b'*'
    then consume_block (advance p 1)
    else fail (codes "malformed comment") false p

-- `parseInConsumeComment`
unfoldable pub consume_comment : M Bool
unfolding consume_slash
consume_comment p = if peek p == b'/' then consume_slash (advance p 1) else some (false, p)

-- The loop `do { … } while (comment_found)`.
unfoldable pub consume_comments : ℕ → M (Unit {0})
consume_comments zero = out_of_fuel
consume_comments (suc fuel) =
    let again = consume_comments fuel in
    consume_comment >>= λ comment_found. failed? >>= λ failed.
    if failed then pure tt else (consume_whitespace >> (if comment_found then again else pure tt))

abbrev pub takes_comments : ParseType → Bool
takes_comments in_comments = true
takes_comments _ = false

-- `parseInConsumeGarbage`; each comment is at least two bytes long, so the fuel suffices.
unfoldable pub consume_if_comments : M (Unit {0})
consume_if_comments p =
    if takes_comments p.parse_type
    then consume_comments (suc (length p.in_string)) p
    else some (tt, p)

unfoldable pub consume_garbage : M (Unit {0})
consume_garbage = consume_whitespace >> consume_if_comments

-- `parseInGetNextToken`
unfoldable pub read_token : M ℕ
unfolding fail
read_token p =
    if p.index == length p.in_string
    then fail (codes "unexpected end of input") 0 p
    else some (peek p, advance p 1)

unfoldable pub next_token : M ℕ
next_token = consume_garbage >> (failed? >>= λ failed. if failed then pure 0 else read_token)
