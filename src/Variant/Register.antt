-- ===== src/Variant/Register.antt =====
-- The register of custom types of src/base/variant.cpp: `VariantRegister`, `registerType`, and the lookup of
-- the callbacks. A callback is a number, and `none` an empty one. Its mutex is left out; the number of
-- types stays below 2 ^ 31 - 100, so that `id` does not overflow.
pub mod Laws
use mifsa_base.Base.{
  ℕ, ◌+◌, Bool, true, false, List, [], ◌∷◌, Option, none, some, ◌==◌, if◌then◌else◌,
}
use mifsa_base.Timer.{Callback}

abbrev pub Callbacks : Type 0
Callbacks = Callback × Callback

pub record Register : Type 0 where
  pub id_to_cb : List (ℕ × Callbacks)
  pub hash_to_id : List (ℕ × ℕ)
  pub id : ℕ

-- TYPE_CUSTOM_BEGIN
abbrev pub custom_begin : ℕ
custom_begin = 100

abbrev pub make_register : Register
make_register = record { id_to_cb = []; hash_to_id = []; id = custom_begin }

-- `find`, and `emplace`, which keeps an entry that is there.
unfoldable pub lookup {ℓ} : {A : Type ℓ} → List (ℕ × A) → ℕ → Option A
lookup [] key = none
lookup ((j, a) ∷ m) key = if j == key then some a else lookup m key

abbrev pub emplaced {ℓ} : {A : Type ℓ} → Option A → ℕ → A → List (ℕ × A) → List (ℕ × A)
emplaced (some old) key a m = m
emplaced none key a m = (key, a) ∷ m

unfoldable pub register_new : ℕ → Callbacks → Register → ℕ × Register
unfolding lookup
register_new hash cbs r =
    let id = r.id + 1 in
    (
      id,
      record {
        id_to_cb = emplaced (lookup r.id_to_cb id) id cbs r.id_to_cb;
        hash_to_id = emplaced (lookup r.hash_to_id hash) hash id r.hash_to_id;
        id = id;
      },
    )

abbrev pub registered : Option ℕ → ℕ → Callbacks → Register → ℕ × Register
registered (some id) hash cbs r = (id, r)
registered none hash cbs r = register_new hash cbs r

-- `registerType`
unfoldable pub register_type : ℕ → Callbacks → Register → ℕ × Register
unfolding lookup register_new
register_type hash cbs r = registered (lookup r.hash_to_id hash) hash cbs r

-- `idToCb[key]`, which adds empty callbacks for a key that is not there.
abbrev pub at_key : Option Callbacks → ℕ → Register → Callbacks × Register
at_key (some cbs) key r = (cbs, r)
at_key none key r = ((none, none), record r { id_to_cb = (key, (none, none)) ∷ r.id_to_cb })

unfoldable pub get_construct_cb : ℕ → Register → Callback × Register
unfolding lookup
get_construct_cb key r = let (cbs, r') = at_key (lookup r.id_to_cb key) key r in (cbs.0, r')

unfoldable pub get_destruct_cb : ℕ → Register → Callback × Register
unfolding lookup
get_destruct_cb key r = let (cbs, r') = at_key (lookup r.id_to_cb key) key r in (cbs.1, r')
