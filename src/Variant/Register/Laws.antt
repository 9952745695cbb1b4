-- ===== src/Variant/Register/Laws.antt =====
-- What `registerType` of src/base/variant.cpp promises of the numbers of types.
use mifsa_base.Base.{
  ℕ, ◌+◌, ◌≤◌, ◌<◌, List, ◌∷◌, Option, none, some, ◌≡◌, ◌≢◌, refl, sym, ◌∙◌, arith, ◌==◌, if_elim,
  Bool-cases, inl, inr, ◌⊎◌, subst,
}
use mifsa_base.Variant.Register.{
  Register, Callbacks, lookup, register_new, registered, register_type, custom_begin,
  get_construct_cb, get_destruct_cb,
}

-- The numbers that were given are above those of the built-in types and not above the last one, no two
-- types share one, and the callbacks are kept under numbers that were given.
pub record IsSound (r : Register) : Type 0 where
  pub above : custom_begin ≤ r.id
  pub range : (hash id : ℕ) → lookup r.hash_to_id hash ≡ some id → (custom_begin < id) × (id ≤ r.id)
  pub injective :
      (g h id : ℕ) → lookup r.hash_to_id g ≡ some id → lookup r.hash_to_id h ≡ some id → g ≡ h
  pub fresh : (id : ℕ) → r.id < id → lookup r.id_to_cb id ≡ none

-- The type has the number and the callbacks, and no other type lost or got one.
pub record IsRegistered (hash : ℕ) (cbs : Callbacks) (r : Register) (s : ℕ × Register)
    : Type 0 where
  pub sound : IsSound s.1
  pub number : lookup s.1.hash_to_id hash ≡ some s.0
  pub others : (h : ℕ) → h ≢ hash → lookup s.1.hash_to_id h ≡ lookup r.hash_to_id h
  pub construct :
      (s ≡ (s.0, r)) × (lookup r.hash_to_id hash ≡ some s.0)
      ⊎ (get_construct_cb s.0 s.1 ≡ (cbs.0, s.1)) × (get_destruct_cb s.0 s.1 ≡ (cbs.1, s.1))

lookup-same {ℓ} :
    {A : Type ℓ} (key : ℕ) (a : A) (m : List (ℕ × A)) → lookup ((key, a) ∷ m) key ≡ some a
unfolding lookup
lookup-same key a m =
    if_elim (λ x. x ≡ some a) (key == key) (λ _. refl) (λ e. absurd (ground arith))

lookup-other {ℓ} :
    {A : Type ℓ} (key j : ℕ) (a : A) (m : List (ℕ × A))
    → j ≢ key
    → lookup ((j, a) ∷ m) key ≡ lookup m key
unfolding lookup
lookup-other key j a m ne =
    if_elim (λ x. x ≡ lookup m key) (j == key) (λ e. absurd (ne (ground arith))) (λ _. refl)

lookup-cases {ℓ} :
    {A : Type ℓ} (key h : ℕ) (a b : A) (m : List (ℕ × A))
    → lookup ((key, a) ∷ m) h ≡ some b
    → ((h ≡ key) × (a ≡ b)) ⊎ ((h ≢ key) × (lookup m h ≡ some b))
unfolding lookup
lookup-cases key h a b m e = elim (Bool-cases (key == h)) [
  | inl same ↦ inl (ground (arith, same), cc)
  | inr other ↦ inr (λ is. absurd (ground (arith, is, other)), cc)
]

-- The register with one more type.
abbrev added : ℕ → Callbacks → Register → Register
added hash cbs r = record {
  id_to_cb = (r.id + 1, cbs) ∷ r.id_to_cb;
  hash_to_id = (hash, r.id + 1) ∷ r.hash_to_id;
  id = r.id + 1;
}

added-range :
    (hash : ℕ) (cbs : Callbacks) (r : Register)
    → IsSound r
    → (h i : ℕ) → lookup (added hash cbs r).hash_to_id h ≡ some i
    → (custom_begin < i) × (i ≤ r.id + 1)
added-range hash cbs r s h i e = elim (lookup-cases hash h (r.id + 1) i r.hash_to_id e) [
  | inl (_, is) ↦ (omega (arith, s.above), omega arith)
  | inr (_, old) ↦ let (low, high) = s.range h i old in (low, omega arith)
]

added-injective :
    (hash : ℕ) (cbs : Callbacks) (r : Register)
    → IsSound r
    → (g h i : ℕ) → lookup (added hash cbs r).hash_to_id g ≡ some i
    → lookup (added hash cbs r).hash_to_id h ≡ some i
    → g ≡ h
added-injective hash cbs r s g h i e f = elim (lookup-cases hash g (r.id + 1) i r.hash_to_id e) [
  | inl (g_is, i_is) ↦ elim (lookup-cases hash h (r.id + 1) i r.hash_to_id f) [
    | inl (h_is, _) ↦ g_is ∙ sym h_is
    | inr (_, old) ↦ absurd (omega (arith, (s.range h i old).1))
  ]
  | inr (_, old) ↦ elim (lookup-cases hash h (r.id + 1) i r.hash_to_id f) [
    | inl (_, i_is) ↦ absurd (omega (arith, (s.range g i old).1))
    | inr (_, old') ↦ s.injective g h i old old'
  ]
]

added-IsSound : (hash : ℕ) (cbs : Callbacks) (r : Register) → IsSound r → IsSound (added hash cbs r)
added-IsSound hash cbs r s = record {
  above = omega (arith, s.above);
  range = added-range hash cbs r s;
  injective = added-injective hash cbs r s;
  fresh = λ i less.
      lookup-other i (r.id + 1) cbs r.id_to_cb (λ is. absurd (omega arith))
      ∙ s.fresh i (omega arith);
}

register_new-added :
    (hash : ℕ) (cbs : Callbacks) (r : Register)
    → IsSound r
    → lookup r.hash_to_id hash ≡ none
    → register_new hash cbs r ≡ (r.id + 1, added hash cbs r)
unfolding register_new
register_new-added hash cbs r s new = rw (s.fresh (r.id + 1) (omega arith), new) refl

added-IsRegistered :
    (hash : ℕ) (cbs : Callbacks) (r : Register)
    → IsSound r
    → IsRegistered hash cbs r (r.id + 1, added hash cbs r)
unfolding get_construct_cb get_destruct_cb
added-IsRegistered hash cbs r s = record {
  sound = added-IsSound hash cbs r s;
  number = lookup-same hash (r.id + 1) r.hash_to_id;
  others = λ h ne. lookup-other h hash (r.id + 1) r.hash_to_id (λ is. ne (sym is));
  construct = inr (
    rw (lookup-same (r.id + 1) cbs r.id_to_cb) refl,
    rw (lookup-same (r.id + 1) cbs r.id_to_cb) refl,
  );
}

registered-IsRegistered :
    (found : Option ℕ) (hash : ℕ) (cbs : Callbacks) (r : Register)
    → lookup r.hash_to_id hash ≡ found
    → IsSound r
    → IsRegistered hash cbs r (registered found hash cbs r)
registered-IsRegistered none hash cbs r e s =
    subst (IsRegistered hash cbs r) (sym (register_new-added hash cbs r s e))
      (added-IsRegistered hash cbs r s)
registered-IsRegistered (some id) hash cbs r e s = record {
  sound = s;
  number = e;
  others = λ h ne. refl;
  construct = inl (refl, e);
}

-- `registerType` keeps the register sound: each type has one number above those of the built-in types, and no
-- two types share one. The type that is registered has the number that is given, and the other types keep
-- theirs; where it was there before nothing changes, and otherwise it gets the callbacks that come with it.
pub register_type-IsRegistered :
    (hash : ℕ) (cbs : Callbacks) (r : Register)
    → IsSound r
    → IsRegistered hash cbs r (register_type hash cbs r)
unfolding register_type
register_type-IsRegistered hash cbs r s =
    registered-IsRegistered (lookup r.hash_to_id hash) hash cbs r refl s
