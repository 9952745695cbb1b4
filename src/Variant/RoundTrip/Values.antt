-- ===== src/Variant/RoundTrip/Values.antt =====
-- The lists and objects of `parseIn` and `parseOut` in src/base/variant.cpp, and the round trip of whole values.
use mifsa_base.Base.{
  ℕ, zero, suc, ◌<◌, [], ◌∷◌, ◌++◌, ◌≡◌, refl, sym, ap, ◌∙◌, arith, Bytes, ◌==◌, subst, less-ne,
  less_asymm, if_elim, ==_iff,
}
use mifsa_base.Base.Int.{ℤ}
use mifsa_base.Variant.Data.{
  Variant, VariantList, VariantMap, Doubles, list, map, nil, cons, end, entry, map_set, push_back,
  Before,
}
use mifsa_base.Variant.Parser.Strings.{parse_string}
use mifsa_base.Variant.Parser.Values.{
  list_separator, list_loop, object_separator, object_value, object_loop, loop_fuel, list_start,
  object_start, parse_list, parse_object, parse_value, parse_in,
}
use mifsa_base.Variant.Parser.{Parser, M}
use mifsa_base.Variant.Print.{pred_depth}
use mifsa_base.Variant.RoundTrip.Cursor.{At, Yields, Yields-bind}
use mifsa_base.Variant.RoundTrip.Numbers.{Stops}
use mifsa_base.Variant.RoundTrip.Readable.{Readable, ReadableItems, ReadableEntries}
use mifsa_base.Variant.RoundTrip.Scalars.{
  gap-Blank, Stops-gap, Yields-token, Yields-unless, Yields-Lead, parse_string-escaped, at_back,
  Reads, parse_in-token, Reads-null, Reads-bool, Reads-int, Reads-string, Lead, text-Lead,
}
use mifsa_base.Variant.RoundTrip.Strings.{escaped}
use mifsa_base.Variant.RoundTrip.Text.{
  gap, deep, text, text_items, text_entries, count, count_entries, count-le-text, count-le-entry,
}

abbrev append : VariantList → VariantList → VariantList
append nil ys = ys
append (cons v xs) ys = cons v (append xs ys)

append-nil_list : (xs : VariantList) → append xs nil ≡ xs
append-nil_list nil = refl
append-nil_list (cons v xs) = ap (cons v) (append-nil_list xs)

append-push_back :
    (xs : VariantList) (v : Variant) (ys : VariantList)
    → append (push_back xs v) ys ≡ append xs (cons v ys)
unfolding push_back
append-push_back nil v ys = refl
append-push_back (cons w xs) v ys = ap (cons w) (append-push_back xs v ys)

abbrev append_map : VariantMap → VariantMap → VariantMap
append_map end m = m
append_map (entry k v m) m' = entry k v (append_map m m')

append_map-end : (m : VariantMap) → append_map m end ≡ m
append_map-end end = refl
append_map-end (entry k v m) = ap (entry k v) (append_map-end m)

append_map_assoc :
    (a b c : VariantMap) → append_map (append_map a b) c ≡ append_map a (append_map b c)
append_map_assoc end b c = refl
append_map_assoc (entry k v a) b c = ap (entry k v) (append_map_assoc a b c)

-- Every key of the first map lies before every key of the second.
abbrev Below : VariantMap → VariantMap → Type 0
Below end m = Unit
Below (entry j w a) m = Before j m × Below a m

-- A key behind all others is put at the end.
map_set-Below :
    (a : VariantMap) (k : Bytes) (v : Variant) (m : VariantMap)
    → Below a (entry k v m)
    → map_set k v a ≡ append_map a (entry k v end)
unfolding map_set
map_set-Below end k v m h = refl
map_set-Below (entry j w a) k v m h =
    rw (less-ne j k h.0.0, less_asymm j k h.0.0) (ap (entry j w) (map_set-Below a k v m h.1))

Below-append :
    (a : VariantMap) (k : Bytes) (v : Variant) (m : VariantMap)
    → Below a (entry k v m)
    → Before k m
    → Below (append_map a (entry k v end)) m
Below-append end k v m h b = (b, tt)
Below-append (entry j w a) k v m h b = (h.0.1, Below-append a k v m h.1 b)

Stops-text_items : (d : ℤ) (xs : VariantList) (rest : Bytes) → Stops (text_items xs d rest)
unfolding text_items
Stops-text_items d nil rest =
    Stops-gap (pred_depth d) b']' rest
      (refl, (λ e. omega arith), (λ e. omega arith), (λ e. omega arith))
Stops-text_items d (cons v xs) rest =
    (refl, (λ e. omega arith), (λ e. omega arith), (λ e. omega arith))

Stops-text_entries : (d : ℤ) (m : VariantMap) (rest : Bytes) → Stops (text_entries m d rest)
unfolding text_entries
Stops-text_entries d end rest =
    Stops-gap (pred_depth d) b'}' rest
      (refl, (λ e. omega arith), (λ e. omega arith), (λ e. omega arith))
Stops-text_entries d (entry k v m) rest =
    (refl, (λ e. omega arith), (λ e. omega arith), (λ e. omega arith))

module _ (ops : Doubles) where
  -- Behind an element the list ends.
  list_separator-nil :
      (items : VariantList) (again : M Variant) (d : ℤ) (p : Parser) (rest : Bytes)
      → At p (text_items nil d rest)
      → Yields (list_separator items again) p (list items) rest
  unfolding list_separator text_items
  list_separator-nil items again d p rest at =
      Yields-token _ p (gap (pred_depth d)) b']' rest (gap-Blank (pred_depth d))
        (refl, λ e. omega arith) at λ q hq. (q, refl, hq.ahead)

  -- Or another element follows.
  list_separator-cons :
      (items : VariantList) (again : M Variant) (d : ℤ) (v : Variant) (xs : VariantList)
      (p : Parser) (rest : Bytes) {w : Variant} {r : Bytes}
      → Lead (text v d (text_items xs d rest))
      → At p (text_items (cons v xs) d rest)
      → ((q : Parser) → At (at_back q) (text v d (text_items xs d rest)) → Yields again q w r)
      → Yields (list_separator items again) p w r
  unfolding list_separator text_items
  list_separator-cons items again d v xs p rest lead at k =
      Yields-token _ p [] b',' (b' ' ∷ gap d ++ _) tt (refl, λ e. omega arith) at
        λ q hq.
          Yields-Lead (λ ch. again) q (b' ' ∷ gap d) (text v d (text_items xs d rest))
            (refl, gap-Blank d) lead hq.ahead (λ q' c _ back. k q' back)

  -- One round of the list loop.
  list_loop-round :
      (fuel h : ℕ) (acc : VariantList) (d : ℤ) (v : Variant) (xs : VariantList) (p : Parser)
      (rest : Bytes) {w : Variant} {r : Bytes}
      → Reads ops v h
      → At (at_back p) (text v d (text_items xs d rest))
      → ((q : Parser)
          → At q (text_items xs d rest)
          → Yields
              (list_separator (push_back acc v) (list_loop fuel (parse_in ops h) (push_back acc v)))
              q
              w
              r)
      → Yields (list_loop (suc fuel) (parse_in ops h) acc) p w r
  unfolding list_loop
  list_loop-round fuel h acc d v xs p rest reads at k =
      Yields-bind (parse_in ops h) _
        (reads d (at_back p) [] (text_items xs d rest) tt (Stops-text_items d xs rest) at)
        (λ q hq. Yields-unless _ q hq.sound (k q hq))

  -- The key and the colon of a member, and its value.
  object_loop-round :
      (fuel h : ℕ) (acc : VariantMap) (d : ℤ) (k : Bytes) (v : Variant) (m : VariantMap)
      (p : Parser) (rest : Bytes) {w : Variant} {r : Bytes}
      → Reads ops v h
      → At p (escaped 0 k ++ (b'"' ∷ b':' ∷ b' ' ∷ text v d (text_entries m d rest)))
      → ((q : Parser)
          → At q (text_entries m d rest)
          → Yields
              (object_separator
                (map_set k v acc)
                (object_loop fuel (parse_in ops h) (map_set k v acc)))
              q
              w
              r)
      → Yields (object_loop (suc fuel) (parse_in ops h) acc b'"') p w r
  unfolding object_loop object_value
  object_loop-round fuel h acc d k v m p rest reads at k' =
      Yields-bind parse_string _ (parse_string-escaped k p _ at) λ q hq.
        Yields-unless _ q hq.sound (
          Yields-token _ q [] b':' (b' ' ∷ text v d (text_entries m d rest)) tt
            (refl, λ e. omega arith) hq
            λ q1 h1.
              Yields-bind (parse_in ops h) _
                (reads d q1 (b' ' ∷ []) (text_entries m d rest) (refl, tt)
                  (Stops-text_entries d m rest) h1.ahead)
                (λ q2 h2. Yields-unless _ q2 h2.sound (k' q2 h2)))

  object_separator-end :
      (members : VariantMap) (again : ℕ → M Variant) (d : ℤ) (p : Parser) (rest : Bytes)
      → At p (text_entries end d rest)
      → Yields (object_separator members again) p (map members) rest
  unfolding object_separator text_entries
  object_separator-end members again d p rest at =
      Yields-token _ p (gap (pred_depth d)) b'}' rest (gap-Blank (pred_depth d))
        (refl, λ e. omega arith) at λ q hq. (q, refl, hq.ahead)

  object_separator-entry :
      (members : VariantMap) (again : ℕ → M Variant) (d : ℤ) (k : Bytes) (v : Variant)
      (m : VariantMap) (p : Parser) (rest : Bytes) {w : Variant} {r : Bytes}
      → At p (text_entries (entry k v m) d rest)
      → ((q : Parser)
          → At q (escaped 0 k ++ (b'"' ∷ b':' ∷ b' ' ∷ text v d (text_entries m d rest)))
          → Yields (again b'"') q w r)
      → Yields (object_separator members again) p w r
  unfolding object_separator text_entries
  object_separator-entry members again d k v m p rest at next =
      Yields-token _ p [] b',' (b' ' ∷ gap d ++ _) tt (refl, λ e. omega arith) at
        λ q hq.
          Yields-token again q (b' ' ∷ gap d) b'"' _ (refl, gap-Blank d) (refl, λ e. omega arith)
            hq.ahead λ q' h'. next q' h'.ahead

  mutual
    unfolding text parse_value parse_list parse_object list_start object_start

    parse_in-text : {v : Variant} {h : ℕ} → Readable v h → Reads ops v h
    parse_in-text (Readable.null {h = h}) d p ws rest blank stops at =
        Reads-null ops h d p ws rest blank stops at
    parse_in-text (Readable.bool {h = h} b) d p ws rest blank stops at =
        Reads-bool ops h b d p ws rest blank stops at
    parse_in-text (Readable.int {h = h} z short) d p ws rest blank stops at =
        Reads-int ops h z short d p ws rest blank stops at
    parse_in-text (Readable.string {h = h} s) d p ws rest blank stops at =
        Reads-string ops h s d p ws rest blank stops at
    parse_in-text (Readable.list {h = h} ReadableItems.nil) d p ws rest blank stops at =
        parse_in-token ops h (list nil) p ws b'[' (b']' ∷ rest) rest blank (refl, λ e. omega arith)
          at
          λ q hq.
            Yields-token _ q [] b']' rest tt (refl, λ e. omega arith) hq.ahead
              λ q' h'. (q', refl, h'.ahead)
    parse_in-text (Readable.list {h = h} (ReadableItems.cons {v = v} {xs = xs} a b)) d p ws rest
          blank stops at =
        parse_in-token ops h (list (cons v xs)) p ws b'[' _ rest blank (refl, λ e. omega arith) at
          λ q hq.
            Yields-Lead _ q (gap (deep d)) (text v (deep d) (text_items xs (deep d) rest))
              (gap-Blank (deep d)) (text-Lead (deep d) _ a) hq.ahead
              λ q' c ne back.
                if_elim (λ m. Yields m q' (list (cons v xs)) rest) (c == b']')
                  (λ e. absurd (ne ((==_iff c b']').0 e)))
                  (λ _.
                    list_loop-text b v (parse_in-text a) (loop_fuel q')
                      (omega (arith, back.fits, count-le-text v xs (deep d) rest)) nil (deep d) q'
                      rest back)
    parse_in-text (Readable.map {h = h} ReadableEntries.end) d p ws rest blank stops at =
        parse_in-token ops h (map end) p ws b'{' (b'}' ∷ rest) rest blank (refl, λ e. omega arith)
          at
          λ q hq.
            Yields-token _ q [] b'}' rest tt (refl, λ e. omega arith) hq.ahead
              λ q' h'. (q', refl, h'.ahead)
    parse_in-text (Readable.map {h = h} (ReadableEntries.entry k {v = v} {m = m} before a b)) d p ws
          rest blank stops at =
        parse_in-token ops h (map (entry k v m)) p ws b'{' _ rest blank (refl, λ e. omega arith) at
          λ q hq.
            Yields-token _ q (gap (deep d)) b'"' _ (gap-Blank (deep d)) (refl, λ e. omega arith)
              hq.ahead
              λ q' h'.
                object_loop-text b k v before (parse_in-text a) (loop_fuel q')
                  (omega (arith, h'.ahead.fits, count-le-entry k v m (deep d) rest)) end tt (deep d)
                  q' rest h'.ahead

    list_loop-text :
        {xs : VariantList} {h : ℕ}
        → ReadableItems xs h
        → (v : Variant) → Reads ops v h
        → (fuel : ℕ) → count xs < fuel
        → (acc : VariantList) (d : ℤ) (p : Parser) (rest : Bytes)
        → At (at_back p) (text v d (text_items xs d rest))
        → Yields (list_loop fuel (parse_in ops h) acc) p (list (append acc (cons v xs))) rest
    list_loop-text (ReadableItems.nil {h = h}) v reads zero lt acc d p rest at =
        absurd (omega arith)
    list_loop-text (ReadableItems.cons a b) v reads zero lt acc d p rest at = absurd (omega arith)
    list_loop-text (ReadableItems.nil {h = h}) v reads (suc fuel) lt acc d p rest at =
        list_loop-round fuel h acc d v nil p rest reads at λ q hq.
          let again = list_loop fuel (parse_in ops h) (push_back acc v) in
          subst (λ w. Yields (list_separator (push_back acc v) again) q (list w) rest)
            (sym (append-nil_list _) ∙ append-push_back acc v nil)
            (list_separator-nil (push_back acc v) again d q rest hq)
    list_loop-text (ReadableItems.cons {h = h} {v = w} {xs = xs} a b) v reads (suc fuel) lt acc d p
          rest at =
        list_loop-round fuel h acc d v (cons w xs) p rest reads at λ q hq.
          list_separator-cons (push_back acc v) _ d w xs q rest (text-Lead d _ a) hq λ q' back.
            subst (λ x. Yields (list_loop fuel (parse_in ops h) (push_back acc v)) q' (list x) rest)
              (append-push_back acc v (cons w xs))
              (list_loop-text b w (parse_in-text a) fuel (omega arith) (push_back acc v) d q' rest
                back)

    object_loop-text :
        {m : VariantMap} {h : ℕ}
        → ReadableEntries m h
        → (k : Bytes) (v : Variant) → Before k m
        → Reads ops v h
        → (fuel : ℕ) → count_entries m < fuel
        → (acc : VariantMap) → Below acc (entry k v m)
        → (d : ℤ) (p : Parser) (rest : Bytes)
        → At p (escaped 0 k ++ (b'"' ∷ b':' ∷ b' ' ∷ text v d (text_entries m d rest)))
        → Yields
            (object_loop fuel (parse_in ops h) acc b'"')
            p
            (map (append_map acc (entry k v m)))
            rest
    object_loop-text ReadableEntries.end k v before reads zero lt acc below d p rest at =
        absurd (omega arith)
    object_loop-text (ReadableEntries.entry k' b4 a b) k v before reads zero lt acc below d p rest
          at =
        absurd (omega arith)
    object_loop-text (ReadableEntries.end {h = h}) k v before reads (suc fuel) lt acc below d p rest
          at =
        object_loop-round fuel h acc d k v end p rest reads at λ q hq.
          let again = object_loop fuel (parse_in ops h) (map_set k v acc) in
          subst (λ w. Yields (object_separator (map_set k v acc) again) q (map w) rest)
            (map_set-Below acc k v end below)
            (object_separator-end (map_set k v acc) again d q rest hq)
    object_loop-text (ReadableEntries.entry {h = h} k' {v = w} {m = m} before' a b) k v before reads
          (suc fuel) lt acc below d p rest at =
        let set_last = map_set-Below acc k v (entry k' w m) below in
        object_loop-round fuel h acc d k v (entry k' w m) p rest reads at λ q hq.
          object_separator-entry (map_set k v acc) _ d k' w m q rest hq λ q' h'.
            subst
              (λ x.
                Yields (object_loop fuel (parse_in ops h) (map_set k v acc) b'"') q' (map x) rest)
              (append_map_assoc acc (entry k v end) (entry k' w m))
              (subst
                (λ x.
                  Yields (object_loop fuel (parse_in ops h) x b'"') q'
                    (map (append_map (append_map acc (entry k v end)) (entry k' w m))) rest)
                (sym set_last)
                (object_loop-text b k' w before' (parse_in-text a) fuel (omega arith) _
                  (Below-append acc k v (entry k' w m) below before) d q' rest h'))

  -- A value is read back behind any bytes, in both layouts, with the levels that it needs.
  pub parse_in-text_lem : {v : Variant} {h : ℕ} → Readable v h → Reads ops v h
  parse_in-text_lem = parse_in-text
