-- ===== src/Tests/Maps.antt =====
-- The accessors of the values.
use mifsa_base.Variant.Data.{VariantList, Variant}
use mifsa_base.Base.{less, codes, some, none, [], ◌≡◌, refl, if◌then◌else◌, equal, inl}
use mifsa_base.Base.Int.{pos}
use mifsa_base.Variant.Data.{
  VariantMap, int, string, list, cons, nil, entry, end, IsOrdered, map_find,
}
use mifsa_base.Variant.Access.{map_remove, map_insert, is_some, to_int_list}
use mifsa_base.Variant.Access.Laws.{map_remove-map_find, map_insert-map_find, to_int_list-HoldsInt}
use mifsa_base.Variant.Compare.{is_equal}
use mifsa_base.Variant.Order.{is_less, is_less_or_equal}
use mifsa_base.Variant.Order.Laws.{exactly, is_plain, is_less-is_equal}
use mifsa_base.Base.{ltb, ◌||◌, true}
use mifsa_base.Tests.Json.{ops}

abbrev two : VariantMap
two = entry (codes "a") (int (pos 1)) (entry (codes "c") (int (pos 3)) end)

two-IsOrdered : IsOrdered two
unfolding less
two-IsOrdered = ((refl, tt), (tt, tt))

map_remove-map_find_example :
    (map_find (codes "c") (map_remove two (codes "a")).0
      ≡ (if equal (codes "a") (codes "c") then none else map_find (codes "c") two))
    × ((map_remove two (codes "a")).1 ≡ is_some (map_find (codes "a") two))
    × IsOrdered (map_remove two (codes "a")).0
map_remove-map_find_example = map_remove-map_find two (codes "a") (codes "c") two-IsOrdered

map_insert-map_find_example :
    (map_find (codes "b") (map_insert two (codes "b") (int (pos 2)))
      ≡ (if equal (codes "b") (codes "b") then some (int (pos 2)) else map_find (codes "b") two))
    × IsOrdered (map_insert two (codes "b") (int (pos 2)))
map_insert-map_find_example =
    map_insert-map_find two (codes "b") (codes "b") (int (pos 2)) two-IsOrdered

to_int_list-HoldsInt_example :
    to_int_list ops (list (cons (int (pos 1)) (cons (string (codes "2")) nil))) ≡ []
to_int_list-HoldsInt_example =
    to_int_list-HoldsInt ops (cons (int (pos 1)) (cons (string (codes "2")) nil))
      (inl (pos 1, refl))

abbrev one_more : VariantList
one_more = cons (int (pos 1)) (cons (string (codes "2")) nil)

abbrev pair : Variant
pair = list (cons (int (pos 1)) (cons (string (codes "a")) nil))

abbrev longer : Variant
longer = list (cons (int (pos 1)) (cons (string (codes "ab")) nil))

pair_first : (is_less ltb pair longer ≡ true) × (is_less ltb (int (pos 9)) (string []) ≡ true)
unfolding is_less less
pair_first = (refl, refl)

is_less-is_equal_example :
    (exactly (is_less ltb pair longer, is_less ltb longer pair) (is_equal ops pair longer) ≡ true)
    × (is_less_or_equal ltb pair longer ≡ (is_less ltb pair longer || is_equal ops pair longer))
unfolding is_plain
is_less-is_equal_example = is_less-is_equal ltb ops pair longer refl refl
