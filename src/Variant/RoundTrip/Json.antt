-- ===== src/Variant/RoundTrip/Json.antt =====
-- `fromJson` after `toJson`, of src/base/variant.cpp.
use mathlib.Core.List.{append-nil}
use mifsa_base.Base.{
  ℕ, false, [], ◌∷◌, Option, some, ◌≡◌, refl, sym, ◌∙◌, arith, Bytes, length, subst,
}
use mifsa_base.Base.Int.{ℤ, pos, negsuc}
use mifsa_base.Variant.Data.{Variant, Doubles, ParseType, out_beautify}
use mifsa_base.Variant.Parser.Values.{
  parse_in, finish, full_room, start_parser, read_all, from_json,
}
use mifsa_base.Variant.Parser.{Parser, ◌>>◌, consume_garbage}
use mifsa_base.Variant.Print.{print, to_json}
use mifsa_base.Variant.RoundTrip.Cursor.{At, Yields, Yields-bind, consume_garbage-Blank}
use mifsa_base.Variant.RoundTrip.Readable.{Readable}
use mifsa_base.Variant.RoundTrip.Scalars.{text-Lead}
use mifsa_base.Variant.RoundTrip.Text.{text, HasRoom, print-text}
use mifsa_base.Variant.RoundTrip.Values.{parse_in-text_lem}

-- The depth that `toJson` begins with.
abbrev depth_of : ParseType → ℤ
depth_of out_beautify = pos 0
depth_of _ = negsuc 0

depth_of-HasRoom : (mode : ParseType) → HasRoom (depth_of mode) full_room
depth_of-HasRoom out_beautify = omega arith
depth_of-HasRoom _ = tt

At-start : (s : Bytes) (error : Option Bytes) (type : ParseType) → At (start_parser s error type) s
At-start s error type = record { rest = refl; fits = omega arith; sound = refl }

module _ (ops : Doubles) where
  to_json-print :
      (v : Variant) (mode : ParseType) → to_json ops v mode ≡ print ops v [] (depth_of mode)
  unfolding to_json
  to_json-print v out_beautify = refl
  to_json-print v _ = refl

  to_json-text :
      (v : Variant) (mode : ParseType)
      → Readable v full_room
      → to_json ops v mode ≡ text v (depth_of mode) []
  to_json-text v mode r =
      to_json-print v mode
      ∙ sym (append-nil _)
      ∙ print-text ops (depth_of mode) [] [] (depth_of-HasRoom mode) r

  finish-At : (v : Variant) (p : Parser) → At p [] → Yields (finish ops v) p v []
  unfolding finish
  finish-At v p h =
      let at_end : p.index ≡ length p.in_string = omega (arith, h.fits) in (p, ground arith, h)

  from_json-cons :
      (c : ℕ) (s : Bytes) (error : Option Bytes) (type : ParseType)
      → from_json ops (c ∷ s) error type ≡ read_all ops (start_parser (c ∷ s) error type)
  unfolding from_json
  from_json-cons c s error type = refl

  read_all-text :
      (v : Variant) (s : Bytes) (d : ℤ) (error : Option Bytes) (type : ParseType)
      → s ≡ text v d []
      → Readable v full_room
      → Yields (read_all ops) (start_parser s error type) v []
  unfolding read_all
  read_all-text v s d error type e r =
      let p = start_parser s error type in
      Yields-bind (parse_in ops full_room) (λ result. consume_garbage >> finish ops result) {p = p}
        (parse_in-text_lem ops r d p [] [] tt tt (subst (At p) e (At-start s error type)))
        λ q hq.
          Yields-bind consume_garbage (λ _. finish ops v) {p = q}
            (consume_garbage-Blank q [] [] tt tt hq) (finish-At v)

  from_json-text :
      (v : Variant) (s : Bytes) (d : ℤ) (error : Option Bytes) (type : ParseType)
      → s ≡ text v d []
      → Readable v full_room
      → (p : Parser) × (from_json ops s error type ≡ some (v, p)) × At p []
  from_json-text v [] d error type e r = let (c, t, e', _, _) = text-Lead d [] r in cc (e, e')
  from_json-text v (c ∷ s) d error type e r =
      let (p, ok, h) = read_all-text v (c ∷ s) d error type e r in
      (p, from_json-cons c s error type ∙ ok, h)

  -- Whatever `toJson` writes of a value without doubles and custom values, `fromJson` reads back as the
  -- same value and without failing: in both layouts, with or without comments allowed, for at most
  -- 501 levels, keys in order, and integers of at most nine characters.
  pub from_json-to_json :
      (v : Variant) (mode : ParseType) (error : Option Bytes) (type : ParseType)
      → Readable v full_room
      → (p : Parser) × (from_json ops (to_json ops v mode) error type ≡ some (v, p))
        × (p.is_failed ≡ false)
  from_json-to_json v mode error type r =
      let (p, e, h) = from_json-text v _ (depth_of mode) error type (to_json-text v mode r) r in
      (p, e, h.sound)
