-- ===== src/Variant/Parser/Ends/Multi.antt =====
-- On the end of `fromJsonMulti` (src/base/variant.cpp), and of `fromJson` beside it.
use mifsa_base.Base.{
  ℕ, zero, suc, ◌+◌, ◌≤◌, ◌<◌, Bool, true, false, ◌||◌, List, [], ◌∷◌, ◌++◌, Option, none, some,
  Bytes, ◌==◌, if_elim, length, arith, ◌≡◌, refl, inl, inr,
}
use mifsa_base.Variant.Data.{Variant, Doubles, ParseType}
use mifsa_base.Variant.Parser.{Parser, consume_garbage}
use mifsa_base.Variant.Parser.Values.{parse_in, full_room, start_parser, from_json}
use mifsa_base.Variant.Parser.Multi.{Multi, collected, after_value, multi_loop, from_json_multi}
use mifsa_base.Variant.Parser.Ends.{Good, Reached, Ends, const}
use mifsa_base.Variant.Parser.Ends.Blanks.{consume_garbage-AllEnd}
use mifsa_base.Variant.Parser.Ends.Values.{parse_in-AllEnd, Returns, from_json-Returns}

-- A turn of the loop leaves something, and where the loop goes on the position `k` is reached.
abbrev Turns : Bytes → ℕ → Option (Multi × Bool) → Type 0
Turns s k none = ⊥
Turns s k (some (m, false)) = Unit {0}
Turns s k (some (m, true)) = Good s m.parser × (k ≤ m.parser.index)

at_least : (k : ℕ) (p : Parser) → Reached k p → p.is_failed ≡ false → k ≤ p.index
at_least k p (inl failed) fine = absurd cc
at_least k p (inr le) fine = le

collected-Turns :
    (s : Bytes) (k : ℕ) (r : Option (Unit {0} × Parser)) (variants : List Variant) (stop_pos : ℕ)
    → Ends s (const k) r
    → Turns s k (collected r variants stop_pos)
collected-Turns s k none variants stop_pos h = absurd h
collected-Turns s k (some (_, p)) variants stop_pos (good, reached) =
    if_elim (Turns s k) p.is_failed {x = some (_, false)} {y = some (_, true)} (λ _. tt)
      (λ fine. (good, at_least k p reached fine))

after_value-Turns :
    (s : Bytes) (k : ℕ) (r : Option (Variant × Parser)) (variants : List Variant) (stop_pos : ℕ)
    → Ends s (const k) r
    → Turns s k (after_value r variants stop_pos)
after_value-Turns s k none variants stop_pos h = absurd h
after_value-Turns s k (some (v, p)) variants stop_pos (good, reached) =
    if_elim (Turns s k) p.is_failed {x = some (_, false)} (λ _. tt)
      (λ _.
        collected-Turns s k (consume_garbage p) (variants ++ v ∷ []) stop_pos
          (consume_garbage-AllEnd s k p good reached))

-- There are values.
abbrev pub Collects : Option Multi → Type 0
Collects r = (m : Multi) × (r ≡ some m)

turn-Collects :
    (s : Bytes) (k : ℕ) (r : Option (Multi × Bool)) (again : Multi → Option Multi)
    → Turns s k r
    → ((m : Multi) → Good s m.parser → k ≤ m.parser.index → Collects (again m))
    → Collects (elim r as (λ _. Option Multi) [
      | none ↦ none
      | some (next, false) ↦ some next
      | some (next, true) ↦ again next
    ])
turn-Collects s k none again h more = absurd h
turn-Collects s k (some (m, false)) again h more = (m, refl)
turn-Collects s k (some (m, true)) again (good, le) more = more m good le

module _ (ops : Doubles) where
  multi_loop-Collects :
      (fuel : ℕ) (s : Bytes) (k : ℕ) (m : Multi)
      → Good s m.parser
      → k ≤ m.parser.index
      → 0 < fuel
      → length s < fuel + k
      → Collects (multi_loop ops fuel m)
  unfolding multi_loop
  multi_loop-Collects zero s k m good le some_fuel enough = absurd (omega arith)
  multi_loop-Collects (suc fuel) s k m good le some_fuel enough =
      if_elim Collects (m.parser.index == length m.parser.in_string || m.parser.is_failed)
        (λ _. (m, refl))
        (λ _.
          turn-Collects s (k + 1)
            (after_value (parse_in ops full_room m.parser) m.variants m.stop_pos)
            (multi_loop ops fuel)
            (after_value-Turns s (k + 1) (parse_in ops full_room m.parser) m.variants m.stop_pos
              (parse_in-AllEnd ops s full_room k m.parser good (inr le)))
            (λ next good' le'.
              multi_loop-Collects fuel s (k + 1) next good' le' (omega (arith, good'.1))
                (omega arith)))

  from_json_multi-Collects :
      (stop_pos : ℕ) (json : Bytes) (error : Option Bytes) (type : ParseType)
      → Collects (from_json_multi ops stop_pos json error type)
  unfolding from_json_multi
  from_json_multi-Collects stop_pos [] error type = (_, refl)
  from_json_multi-Collects stop_pos (c ∷ cs) error type =
      multi_loop-Collects (suc (length (c ∷ cs))) (c ∷ cs) 0
        (record { variants = []; stop_pos = 0; parser = start_parser (c ∷ cs) error type })
        (refl, omega arith) (omega arith) (omega arith) (omega arith)

-- `fromJson` and `fromJsonMulti` return for every text, with or without a place for the error and for any kind
-- of parse: no loop of the reader runs out of its fuel. The reader of `fromJson` stops within the text.
pub from_json-from_json_multi :
    (ops : Doubles) (json : Bytes) (error : Option Bytes) (type : ParseType) (stop_pos : ℕ)
    → Returns json (from_json ops json error type)
      × Collects (from_json_multi ops stop_pos json error type)
from_json-from_json_multi ops json error type stop_pos =
    (from_json-Returns ops json error type, from_json_multi-Collects ops stop_pos json error type)
