-- ===== src/Tests/Texts.antt =====
-- The functions on strings.
use mifsa_base.Base.{
  find_at, starts, codes, Bytes, some, none, [], ◌∷◌, ◌++◌, false, ◌≡◌, ◌≢◌, ◌⊎◌, ◌<◌, refl, length,
  equal,
}
use mifsa_base.Strings.{
  string_replace, trim_string, string_split, string_end_with, get_ipaddr_method,
}
use mifsa_base.Strings.Ends.{string_end_with_lem}

replaces : string_replace 9 (codes "a-b-c") (codes "-") (codes "--") ≡ some (codes "a--b--c")
unfolding string_replace find_at starts
replaces = refl

-- An empty text to replace is found again at every step.
replaces_for_ever : string_replace 50 (codes "ab") [] (codes "x") ≡ none
unfolding string_replace find_at starts
replaces_for_ever = refl

trims : trim_string (codes "  a b ") ≡ some (codes "a b")
unfolding trim_string
trims = refl

trims_nothing : trim_string (codes "  ") ≡ none
unfolding trim_string
trims_nothing = refl

splits : string_split (codes "a,,b,") (codes ",") ≡ codes "a" ∷ [] ∷ codes "b" ∷ []
unfolding string_split find_at starts
splits = refl

string_end_with_lem_example :
    ((codes "a.so" ≡ []) × (string_end_with (codes "a.so") (codes ".so") ≡ some false))
    ⊎ ((codes "a.so" ≢ [])
        × (length (codes "a.so") < length (codes ".so"))
        × (string_end_with (codes "a.so") (codes ".so") ≡ none))
    ⊎ ((front : Bytes) × (end : Bytes) × (codes "a.so" ≡ front ++ end)
        × (length end ≡ length (codes ".so"))
        × (string_end_with (codes "a.so") (codes ".so") ≡ some (equal end (codes ".so"))))
string_end_with_lem_example = string_end_with_lem (codes "a.so") (codes ".so")

address : get_ipaddr_method (codes "http://h/p") ≡ (codes "http://h", codes "/p")
unfolding get_ipaddr_method equal find_at starts
address = refl
