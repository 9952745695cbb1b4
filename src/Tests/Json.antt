-- ===== src/Tests/Json.antt =====
-- Runs of the JSON reader and writer.
use mifsa_base.Base.{List, ◌∷◌, ℕ}
use mifsa_base.Variant.Parser.Strings.{string_end}
use mifsa_base.Base.{
  equal, less, codes, some, none, [], Bool, true, false, ◌≡◌, refl, Option, arith,
}
use mifsa_base.Base.Int.{pos, negsuc}
use mifsa_base.Variant.Data.{
  in_standard, in_comments, out_small, out_beautify, Doubles, Variant, null, int, bool, string,
  list, map, cons, nil, entry, end,
}
use mifsa_base.Variant.Parser.{Parser}
use mifsa_base.Variant.Parser.Values.{from_json, full_room}
use mifsa_base.Variant.Parser.Multi.{Multi, from_json_multi}
use mifsa_base.Variant.Print.{to_json}
use mifsa_base.Variant.RoundTrip.Readable.{Readable, ReadableItems, ReadableEntries}
use mifsa_base.Variant.Parser.Ends.Values.{Returns}
use mifsa_base.Variant.Parser.Ends.Multi.{Collects, from_json-from_json_multi}
use mifsa_base.Variant.RoundTrip.Json.{from_json-to_json}

-- Stand-ins for the operations on doubles: none of the runs below depends on them.
abbrev pub ops : Doubles
ops = record {
  is_finite = λ d. true;
  is_int = λ d. true;
  print_1f = λ d. [];
  print_17g = λ d. [];
  strtod = λ s. 7;
  lt = λ a b. true;
  near = λ a b. true;
  of_int = λ z. 0;
  to_int = λ d. pos 0;
}

abbrev parsed : Option (Variant × Parser) → Option (Variant × Bool)
parsed none = none
parsed (some (v, p)) = some (v, p.is_failed)

reads_nested :
    parsed
      (from_json ops (codes " {\"b\" : [1, -20,true, null] , \"a\":\"x\\n\"}") none in_standard)
    ≡ some (
      map (
          entry (codes "a") (string (codes "x\n")) (
            entry
              (codes "b")
              (list
                (cons (int (pos 1)) (cons (int (negsuc 19)) (cons (bool true) (cons null nil)))))
              end)),
      false,
    )
unfolding from_json string_end equal less
reads_nested = refl

rejects_open : parsed (from_json ops (codes "[1,") none in_comments) ≡ some (null, true)
unfolding from_json
rejects_open = refl

writes_list :
    to_json ops (list (cons (int (pos 1)) (cons (string (codes "a\"b")) nil))) out_small
    ≡ codes "[1, \"a\\\"b\"]"
unfolding to_json
writes_list = refl

abbrev sample : Variant
sample = map (
    entry (codes "a") (list (cons (int (negsuc 41)) (cons (bool true) nil)))
      (entry (codes "b") (string (codes "x\"\n")) end))

sample-Readable : Readable sample full_room
unfolding less
sample-Readable = Readable.map (
    ReadableEntries.entry (codes "a") (refl, tt)
      (Readable.list (
        ReadableItems.cons (Readable.int (negsuc 41) (omega arith))
          (ReadableItems.cons (Readable.bool true) ReadableItems.nil)))
      (ReadableEntries.entry (codes "b") tt (Readable.string (codes "x\"\n")) ReadableEntries.end))

from_json-to_json_example :
    (p : Parser) × (from_json ops (to_json ops sample out_beautify) none in_comments
      ≡ some (sample, p))
    × (p.is_failed ≡ false)
from_json-to_json_example =
    from_json-to_json ops sample out_beautify none in_comments sample-Readable

abbrev multi : Option Multi → Option (List Variant × ℕ)
multi none = none
multi (some m) = some (m.variants, m.stop_pos)

reads_many :
    multi (from_json_multi ops 0 (codes "1 [] x") none in_standard)
    ≡ some (int (pos 1) ∷ list nil ∷ null ∷ [], 5)
unfolding from_json from_json_multi
reads_many = refl

from_json-from_json_multi_example :
    Returns (codes "[1,") (from_json ops (codes "[1,") none in_comments)
    × Collects (from_json_multi ops 0 (codes "[1,") none in_comments)
from_json-from_json_multi_example = from_json-from_json_multi ops (codes "[1,") none in_comments 0
