-- ===== src/Variant/RoundTrip/Readable.antt =====
-- The values of src/base/variant.cpp that the reader gives back as they were written.
use mifsa_base.Base.{ℕ, suc, Bool, Bytes}
use mifsa_base.Base.Int.{ℤ}
use mifsa_base.Variant.Data.{Variant, VariantList, VariantMap, Before}
use mifsa_base.Variant.RoundTrip.Numbers.{IsShort}

-- A value that the reader has room for with `h` levels: its keys are in order, its integers have at
-- most nine characters, and it holds no double and no custom value.
mutual
  pub data Readable : Variant → ℕ → Type 0 where
    null : {h : ℕ} → Readable Variant.null (suc h)
    bool : {h : ℕ} (b : Bool) → Readable (Variant.bool b) (suc h)
    int : {h : ℕ} (z : ℤ) → IsShort z → Readable (Variant.int z) (suc h)
    string : {h : ℕ} (s : Bytes) → Readable (Variant.string s) (suc h)
    list : {h : ℕ} {xs : VariantList} → ReadableItems xs h → Readable (Variant.list xs) (suc h)
    map : {h : ℕ} {m : VariantMap} → ReadableEntries m h → Readable (Variant.map m) (suc h)

  pub data ReadableItems : VariantList → ℕ → Type 0 where
    nil : {h : ℕ} → ReadableItems VariantList.nil h
    cons :
        {h : ℕ} {v : Variant} {xs : VariantList}
        → Readable v h
        → ReadableItems xs h
        → ReadableItems (VariantList.cons v xs) h

  pub data ReadableEntries : VariantMap → ℕ → Type 0 where
    end : {h : ℕ} → ReadableEntries VariantMap.end h
    entry :
        {h : ℕ} (k : Bytes) {v : Variant} {m : VariantMap}
        → Before k m
        → Readable v h
        → ReadableEntries m h
        → ReadableEntries (VariantMap.entry k v m) h
