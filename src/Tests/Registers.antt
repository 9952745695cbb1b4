-- ===== src/Tests/Registers.antt =====
-- The register of custom types, the log, and the pieces of a string.
use mifsa_base.Base.{false, [], ◌∷◌, some, none, ◌≡◌, refl, arith, codes, find_at, starts}
use mifsa_base.Variant.Register.{make_register, register_type, lookup}
use mifsa_base.Variant.Register.Laws.{IsSound, IsRegistered, register_type-IsRegistered}
use mifsa_base.Log.{Log, Ending, log}
use mifsa_base.Log.Printing.{Ends, joined, stream_of, log-Ends}
use mifsa_base.Strings.{string_split}
use mifsa_base.Strings.Split.{IsSplit, string_split-IsSplit}

make_register-IsSound : IsSound make_register
unfolding lookup
make_register-IsSound = record {
  above = omega arith;
  range = λ hash id e. absurd cc;
  injective = λ g h id e f. absurd cc;
  fresh = λ id less. refl;
}

-- The second type gets the next number, and the first one keeps its own.
two_types :
    ((register_type 8 (none, none) (register_type 7 (some 1, some 2) make_register).1).0 ≡ 102)
    × ((register_type 7 (none, none) (register_type 7 (some 1, some 2) make_register).1).0 ≡ 101)
unfolding register_type
two_types = (refl, refl)

register_type-IsRegistered_example :
    IsRegistered 7 (some 1, some 2) make_register (register_type 7 (some 1, some 2) make_register)
register_type-IsRegistered_example =
    register_type-IsRegistered 7 (some 1, some 2) make_register make_register-IsSound

abbrev idle : Log
idle = record {
  locked = false;
  debug_text = [];
  warning_text = [];
  critical_text = [];
  property_text = [];
  console = [];
}

log-Ends_example :
    (r : Ending) × (log 2 10 (codes "a" ∷ codes "b" ∷ []) idle ≡ some r)
    × Ends (joined (codes "a" ∷ codes "b" ∷ [])) (stream_of 2) r
log-Ends_example = log-Ends 2 10 (codes "a" ∷ codes "b" ∷ []) idle (refl, refl, refl, refl, refl)

split_text : string_split (codes "a,b,,") (codes ",") ≡ codes "a" ∷ codes "b" ∷ [] ∷ []
unfolding string_split find_at starts
split_text = refl

string_split-IsSplit_example :
    IsSplit (codes ",") (string_split (codes "a,b,,") (codes ",")) (codes "a,b,,")
string_split-IsSplit_example = string_split-IsSplit (codes "a,b,,") (codes ",") (λ e. absurd cc)
