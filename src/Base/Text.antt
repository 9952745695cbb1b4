-- ===== src/Base/Text.antt =====
-- Byte strings (`std::string`) as lists of numbers below 256, and the operations of the standard
-- library that the sources use on them.
use Prim.Native.Nat.{ℕ, ◌+◌}
use Prim.Native.Char.{code}
use Prim.Native.String.{String}
use mathlib.Core.Path.{◌≡◌, refl}
use mathlib.Core.Logic.{◌↔◌}
use mathlib.Core.Bool.{Bool, true, false, ◌&&◌, ◌||◌}
use mathlib.Core.List.{List, [], ◌∷◌, ◌++◌}
use mathlib.Core.Option.{Option, none, some}
use native.Mathlib.Omega.{arith}
use mifsa_base.Base.Tests.{ltb, ◌==◌, if◌then◌else◌}
use mifsa_base.Base.Lists.{length, take}

abbrev pub Bytes : Type 0
Bytes = List ℕ

-- The code points of a text: its bytes, if it is ASCII.
abbrev pub codes : String → Bytes
codes String.[] = []
codes (String.◌∷◌ c s) = code c ∷ codes s

-- `operator==` of two strings.
unfoldable pub equal : Bytes → Bytes → Bool
equal [] [] = true
equal (x ∷ xs) (y ∷ ys) = x == y && equal xs ys
equal _ _ = false

pub equal_iff : (s t : Bytes) → (equal s t ≡ true) ↔ (s ≡ t)
unfolding equal
equal_iff [] [] = ground arith
equal_iff [] (c ∷ t) = ground arith
equal_iff (c ∷ s) [] = ground arith
equal_iff (c ∷ s) (d ∷ t) = ground (arith, equal_iff s t)

pub equal_refl : (a : Bytes) → equal a a ≡ true
equal_refl a = (equal_iff a a).1 refl

pub equal-false : (a b : Bytes) → equal a b ≡ false → equal b a ≡ false
equal-false a b h = ground (arith, equal_iff a b, equal_iff b a)

-- `operator<` of two strings: lexicographic on unsigned bytes.
unfoldable pub less : Bytes → Bytes → Bool
less _ [] = false
less [] (y ∷ ys) = true
less (x ∷ xs) (y ∷ ys) = ltb x y || (x == y && less xs ys)

-- The bytes of `s` begin with `p`.
unfoldable pub starts : Bytes → Bytes → Bool
starts [] s = true
starts (x ∷ p) [] = false
starts (x ∷ p) (y ∷ s) = x == y && starts p s

-- `find`: the first position from `i` on, in the suffix `s` that begins at `i`.
unfoldable pub find_at : Bytes → Bytes → ℕ → Option ℕ
find_at p [] i = if starts p [] then some i else none
find_at p (x ∷ s) i = if starts p (x ∷ s) then some i else find_at p s (i + 1)

pub starts-append : (p s : Bytes) → starts p (p ++ s) ≡ true
unfolding starts
starts-append [] s = refl
starts-append (x ∷ p) s = ground (arith, starts-append p s)

pub starts-take : (p s : Bytes) → starts p s ≡ true → take (length p) s ≡ p
unfolding starts
starts-take [] s h = refl
starts-take (x ∷ p) [] h = ground arith
starts-take (x ∷ p) (y ∷ s) h = ground (arith, starts-take p s)

pub less_irrefl : (a : Bytes) → less a a ≡ false
unfolding less
less_irrefl [] = refl
less_irrefl (x ∷ a) = ground (arith, less_irrefl a)

pub less_asymm : (a b : Bytes) → less a b ≡ true → less b a ≡ false
unfolding less
less_asymm [] [] h = refl
less_asymm (x ∷ a) [] h = cc
less_asymm [] (y ∷ b) h = refl
less_asymm (x ∷ a) (y ∷ b) h = ground (arith, less_asymm a b)

pub less-ne : (a b : Bytes) → less a b ≡ true → equal a b ≡ false
unfolding less equal
less-ne [] [] h = cc
less-ne (x ∷ a) [] h = refl
less-ne [] (y ∷ b) h = refl
less-ne (x ∷ a) (y ∷ b) h = ground (arith, less-ne a b)

pub less_total : (a b : Bytes) → equal a b ≡ false → less a b ≡ false → less b a ≡ true
unfolding less equal
less_total [] [] h l = cc
less_total (x ∷ a) [] h l = refl
less_total [] (y ∷ b) h l = cc
less_total (x ∷ a) (y ∷ b) h l = ground (arith, less_total a b)

pub less_trans : (a b c : Bytes) → less a b ≡ true → less b c ≡ true → less a c ≡ true
unfolding less
less_trans a b [] h l = ground arith
less_trans [] [] (z ∷ c) h l = refl
less_trans [] (y ∷ b) (z ∷ c) h l = refl
less_trans (x ∷ a) [] (z ∷ c) h l = cc
less_trans (x ∷ a) (y ∷ b) (z ∷ c) h l = ground (arith, less_trans a b c)
