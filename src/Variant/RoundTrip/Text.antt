-- ===== src/Variant/RoundTrip/Text.antt =====
-- The output of `parseOut` of src/base/variant.cpp with no accumulator, in both layouts: each piece stands
-- in front of what follows it.
use mathlib.Core.List.{append-nil, append_assoc}
use mifsa_base.Base.{
  ℕ, suc, ◌+◌, ◌≤◌, Bool, true, false, [], ◌∷◌, ◌++◌, ◌≡◌, refl, sym, ◌∙◌, arith, Bytes, length,
  length-append, codes,
}
use mifsa_base.Base.Int.{ℤ, pos, negsuc}
use mifsa_base.Variant.Data.{
  Variant, VariantList, VariantMap, Doubles, null, bool, int, double, string, list, map, custom,
  nil, cons, end, entry,
}
use mifsa_base.Variant.Print.{
  max_depth, print_int, print_string, print_beautify, print_bool, spaces, deeper, room, pred_depth,
  print, print_items, print_entries,
}
use mifsa_base.Variant.RoundTrip.Strings.{escaped, print_bytes-escaped}
use mifsa_base.Variant.RoundTrip.Readable.{Readable, ReadableItems, ReadableEntries}

-- A line break and its indentation, in the layout with line breaks.
abbrev pub gap : ℤ → Bytes
gap (negsuc _) = []
gap (pos n) = b'\n' ∷ spaces n

abbrev pub deep : ℤ → ℤ
deep (negsuc n) = negsuc n
deep (pos n) = pos (n + 1)

abbrev pub text_bool : Bool → Bytes
text_bool true = codes "true"
text_bool false = codes "false"

-- The text of a value with no double and no custom value, before `rest`.
unfoldable mutual
  pub text : Variant → ℤ → Bytes → Bytes
  text null d rest = codes "null" ++ rest
  text (bool b) d rest = text_bool b ++ rest
  text (int n) d rest = print_int n ++ rest
  text (double x) d rest = rest
  text (string s) d rest = b'"' ∷ (escaped 0 s ++ (b'"' ∷ rest))
  text (list nil) d rest = b'[' ∷ b']' ∷ rest
  text (list (cons v xs)) d rest =
      b'[' ∷ (gap (deep d) ++ text v (deep d) (text_items xs (deep d) rest))
  text (map end) d rest = b'{' ∷ b'}' ∷ rest
  text (map (entry k v m)) d rest =
      b'{'
      ∷ (gap (deep d)
          ++ (b'"'
              ∷ (escaped 0 k
                  ++ (b'"' ∷ b':' ∷ b' ' ∷ text v (deep d) (text_entries m (deep d) rest)))))
  text (custom t p) d rest = rest

  -- What follows the first element of a list, its end included.
  pub text_items : VariantList → ℤ → Bytes → Bytes
  text_items nil d rest = gap (pred_depth d) ++ (b']' ∷ rest)
  text_items (cons v xs) d rest = b',' ∷ b' ' ∷ (gap d ++ text v d (text_items xs d rest))

  pub text_entries : VariantMap → ℤ → Bytes → Bytes
  text_entries end d rest = gap (pred_depth d) ++ (b'}' ∷ rest)
  text_entries (entry k v m) d rest =
      b','
      ∷ b' '
      ∷ (gap d ++ (b'"' ∷ (escaped 0 k ++ (b'"' ∷ b':' ∷ b' ' ∷ text v d (text_entries m d rest)))))

abbrev pub count : VariantList → ℕ
count nil = 0
count (cons v xs) = suc (count xs)

abbrev pub count_entries : VariantMap → ℕ
count_entries end = 0
count_entries (entry k v m) = suc (count_entries m)

abbrev quoted_then : Bytes → Variant → VariantMap → ℤ → Bytes → Bytes
quoted_then k v m d rest =
    b'"' ∷ (escaped 0 k ++ (b'"' ∷ b':' ∷ b' ' ∷ text v d (text_entries m d rest)))

-- The text is no shorter than what follows it, with a byte at least for each element.
mutual
  unfolding text text_items text_entries

  text-le : (v : Variant) (d : ℤ) (rest : Bytes) → length rest ≤ length (text v d rest)
  text-le null d rest = omega arith
  text-le (bool b) d rest = omega (arith, length-append (text_bool b) rest)
  text-le (int n) d rest = omega (arith, length-append (print_int n) rest)
  text-le (double x) d rest = omega arith
  text-le (string s) d rest = omega (arith, length-append (escaped 0 s) (b'"' ∷ rest))
  text-le (list nil) d rest = omega arith
  text-le (list (cons v xs)) d rest = omega (
    arith,
    length-append (gap (deep d)) (text v (deep d) (text_items xs (deep d) rest)),
    text-le v (deep d) (text_items xs (deep d) rest),
    text_items-le xs (deep d) rest,
  )
  text-le (map end) d rest = omega arith
  text-le (map (entry k v m)) d rest = omega (
    arith,
    length-append (gap (deep d)) (quoted_then k v m (deep d) rest),
    length-append (escaped 0 k)
        (b'"' ∷ b':' ∷ b' ' ∷ text v (deep d) (text_entries m (deep d) rest)),
    text-le v (deep d) (text_entries m (deep d) rest),
    text_entries-le m (deep d) rest,
  )
  text-le (custom t p) d rest = omega arith

  text_items-le :
      (xs : VariantList) (d : ℤ) (rest : Bytes)
      → count xs + length rest ≤ length (text_items xs d rest)
  text_items-le nil d rest = omega (arith, length-append (gap (pred_depth d)) (b']' ∷ rest))
  text_items-le (cons v xs) d rest = omega (
    arith,
    length-append (gap d) (text v d (text_items xs d rest)),
    text-le v d (text_items xs d rest),
    text_items-le xs d rest,
  )

  text_entries-le :
      (m : VariantMap) (d : ℤ) (rest : Bytes)
      → count_entries m + length rest ≤ length (text_entries m d rest)
  text_entries-le end d rest = omega (arith, length-append (gap (pred_depth d)) (b'}' ∷ rest))
  text_entries-le (entry k v m) d rest = omega (
    arith,
    length-append (gap d) (quoted_then k v m d rest),
    length-append (escaped 0 k) (b'"' ∷ b':' ∷ b' ' ∷ text v d (text_entries m d rest)),
    text-le v d (text_entries m d rest),
    text_entries-le m d rest,
  )

-- The first element of a list and what follows it.
pub count-le-text :
    (v : Variant) (xs : VariantList) (d : ℤ) (rest : Bytes)
    → count xs ≤ length (text v d (text_items xs d rest))
count-le-text v xs d rest =
    omega (arith, text-le v d (text_items xs d rest), text_items-le xs d rest)

pub count-le-entry :
    (k : Bytes) (v : Variant) (m : VariantMap) (d : ℤ) (rest : Bytes)
    → count_entries m
      ≤ length (escaped 0 k ++ (b'"' ∷ b':' ∷ b' ' ∷ text v d (text_entries m d rest)))
count-le-entry k v m d rest = omega (
  arith,
  length-append (escaped 0 k) (b'"' ∷ b':' ∷ b' ' ∷ text v d (text_entries m d rest)),
  text-le v d (text_entries m d rest),
  text_entries-le m d rest,
)

-- At this depth the writer has `h` levels left.
abbrev pub HasRoom : ℤ → ℕ → Type 0
HasRoom (negsuc _) h = Unit
HasRoom (pos n) h = n + h ≤ suc max_depth

deeper-deep : (d : ℤ) (h : ℕ) → HasRoom d (suc h) → deeper d ≡ room (deep d)
unfolding deeper
deeper-deep (negsuc n) h r = refl
deeper-deep (pos n) h r = ground arith

HasRoom-deep : (d : ℤ) (h : ℕ) → HasRoom d (suc h) → HasRoom (deep d) h
HasRoom-deep (negsuc n) h r = tt
HasRoom-deep (pos n) h r = omega arith

print_beautify-gap : (out : Bytes) (d : ℤ) → print_beautify out d ≡ out ++ gap d
unfolding print_beautify
print_beautify-gap out (negsuc n) = sym (append-nil out)
print_beautify-gap out (pos n) = append_assoc out _ _

print_string-quoted :
    (s out rest : Bytes)
    → print_string s out ++ rest ≡ out ++ (b'"' ∷ (escaped 0 s ++ (b'"' ∷ rest)))
unfolding print_string
print_string-quoted s out rest = simp (print_bytes-escaped 0 s, append_assoc)

print_bool-text : (b : Bool) (out : Bytes) → print_bool b out ≡ out ++ text_bool b
unfolding print_bool
print_bool-text true out = refl
print_bool-text false out = refl

close-gap :
    (d : ℤ) (c : ℕ) (out rest : Bytes)
    → (print_beautify out d ++ c ∷ []) ++ rest ≡ out ++ (gap d ++ (c ∷ rest))
close-gap d c out rest = rw print_beautify-gap (simp append_assoc)

-- A line break behind some bytes, and what follows it.
break-gap :
    (d : ℤ) (out front rest : Bytes)
    → print_beautify (out ++ front) d ++ rest ≡ out ++ (front ++ (gap d ++ rest))
break-gap d out front rest = rw print_beautify-gap (simp append_assoc)

-- The key of an entry, behind `front`.
key-text :
    (d : ℤ) (k out front rest : Bytes)
    → (print_string k (print_beautify (out ++ front) d) ++ codes ": ") ++ rest
      ≡ out ++ (front ++ (gap d ++ (b'"' ∷ (escaped 0 k ++ (b'"' ∷ b':' ∷ b' ' ∷ rest)))))
key-text d k out front rest =
    append_assoc (print_string k (print_beautify (out ++ front) d)) (codes ": ") rest
    ∙ print_string-quoted k (print_beautify (out ++ front) d) (b':' ∷ b' ' ∷ rest)
    ∙ break-gap d out front _

module _ (ops : Doubles) where
  print-list_nil :
      (d d' : ℤ) (out : Bytes)
      → deeper d ≡ room d'
      → print ops (list nil) out d ≡ (out ++ b'[' ∷ []) ++ b']' ∷ []
  unfolding print
  print-list_nil d d' out e = rw (e, print)

  print-list_cons :
      (d d' : ℤ) (v : Variant) (xs : VariantList) (out : Bytes)
      → deeper d ≡ room d'
      → print ops (list (cons v xs)) out d
        ≡ print_beautify
            (print_items ops xs false (print ops v (print_beautify (out ++ b'[' ∷ []) d') d') d')
            (pred_depth d')
          ++ b']' ∷ []
  unfolding print
  print-list_cons d d' v xs out e = rw (e, print)

  print-map_end :
      (d d' : ℤ) (out : Bytes)
      → deeper d ≡ room d'
      → print ops (map end) out d ≡ (out ++ b'{' ∷ []) ++ b'}' ∷ []
  unfolding print
  print-map_end d d' out e = rw (e, print)

  print-map_entry :
      (d d' : ℤ) (k : Bytes) (v : Variant) (m : VariantMap) (out : Bytes)
      → deeper d ≡ room d'
      → print ops (map (entry k v m)) out d
        ≡ print_beautify
            (print_entries ops m false
              (print ops v (print_string k (print_beautify (out ++ b'{' ∷ []) d') ++ codes ": ") d')
              d')
            (pred_depth d')
          ++ b'}' ∷ []
  unfolding print
  print-map_entry d d' k v m out e = rw (e, print)

  mutual
    unfolding print text

    pub print-text :
        {v : Variant} {h : ℕ} (d : ℤ) (out rest : Bytes)
        → HasRoom d h
        → Readable v h
        → print ops v out d ++ rest ≡ out ++ text v d rest
    print-text d out rest r Readable.null = append_assoc out _ rest
    print-text d out rest r (Readable.bool b) = rw print_bool-text (append_assoc out _ rest)
    print-text d out rest r (Readable.int z _) = append_assoc out _ rest
    print-text d out rest r (Readable.string s) = print_string-quoted s out rest
    print-text d out rest r (Readable.list {h = h} ReadableItems.nil) =
        rw (print-list_nil d (deep d) out (deeper-deep d h r)) (simp append_assoc)
    print-text d out rest r (Readable.list {h = h} (ReadableItems.cons {v = v} {xs = xs} a b)) =
        let r' = HasRoom-deep d h r in
        rw (print-list_cons d (deep d) v xs out (deeper-deep d h r)) (
          print_items-text (deep d) _ rest r' b
          ∙ print-text (deep d) _ _ r' a
          ∙ break-gap (deep d) out (b'[' ∷ []) _)
    print-text d out rest r (Readable.map {h = h} ReadableEntries.end) =
        rw (print-map_end d (deep d) out (deeper-deep d h r)) (simp append_assoc)
    print-text d out rest r (Readable.map {h = h} (ReadableEntries.entry k {v = v} {m = m} _ a b)) =
        let r' = HasRoom-deep d h r in
        rw (print-map_entry d (deep d) k v m out (deeper-deep d h r)) (
          print_entries-text (deep d) _ rest r' b
          ∙ print-text (deep d) _ _ r' a
          ∙ key-text (deep d) k out (b'{' ∷ []) _)

    print_items-text :
        {xs : VariantList} {h : ℕ} (d : ℤ) (out rest : Bytes)
        → HasRoom d h
        → ReadableItems xs h
        → (print_beautify (print_items ops xs false out d) (pred_depth d) ++ b']' ∷ []) ++ rest
          ≡ out ++ text_items xs d rest
    print_items-text d out rest r ReadableItems.nil = close-gap (pred_depth d) b']' out rest
    print_items-text d out rest r (ReadableItems.cons {v = v} {xs = xs} a b) =
        print_items-text d _ rest r b ∙ print-text d _ _ r a ∙ break-gap d out (codes ", ") _

    print_entries-text :
        {m : VariantMap} {h : ℕ} (d : ℤ) (out rest : Bytes)
        → HasRoom d h
        → ReadableEntries m h
        → (print_beautify (print_entries ops m false out d) (pred_depth d) ++ b'}' ∷ []) ++ rest
          ≡ out ++ text_entries m d rest
    print_entries-text d out rest r ReadableEntries.end = close-gap (pred_depth d) b'}' out rest
    print_entries-text d out rest r (ReadableEntries.entry k {v = v} {m = m} _ a b) =
        print_entries-text d _ rest r b ∙ print-text d _ _ r a ∙ key-text d k out (codes ", ") _
