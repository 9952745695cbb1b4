-- ===== src/Host/Exe.antt =====
-- The directory and the name of a path, and the address of an interface (src/utils/host.cpp).
use mifsa_base.Base.{
  ℕ, zero, suc, ◌+◌, Bool, true, false, not, List, [], ◌∷◌, ◌++◌, Option, none, some, ◌≡◌, ◌≢◌,
  ◌&&◌, All, refl, sym, ap, ◌∙◌, ◌⊎◌, inl, inr, arith, Bytes, equal, if_elim, ◌==◌, length, take,
  drop, subst,
}
use mifsa_base.Host.{
  rfind_slash, dir_at, name_at, or_exe, get_exe_dir, get_exe_name, Ifconfig, is_left_out,
  kept_devices, find_ip, get_ip_address,
}

-- No byte of the string is a slash.
abbrev pub NoSlash : Bytes → Type 0
NoSlash [] = Unit
NoSlash (c ∷ s) = (c ≢ b'/') × NoSlash s

-- Where the last slash stands, counted from `i`.
abbrev pub Last : Bytes → ℕ → Option ℕ → Type 0
Last s i none = NoSlash s
Last s i (some j) =
    (before : Bytes) × (after : Bytes) × (s ≡ before ++ b'/' ∷ after)
    × (j ≡ i + length before)
    × NoSlash after

Last-cons :
    (c : ℕ) (s : Bytes) (i : ℕ) (r : Option ℕ)
    → rfind_slash s (i + 1) ≡ r
    → Last s (i + 1) r
    → Last (c ∷ s) i (rfind_slash (c ∷ s) i)
unfolding rfind_slash
Last-cons c s i none e h = rw e (
    if_elim (Last (c ∷ s) i) (c == b'/') {x = some i} {y = none}
      (λ is. ([], s, ap (λ x. x ∷ s) (ground (arith, is)), omega arith, h))
      (λ isnt. ((λ is. absurd (ground (arith, is, isnt))), h)))
Last-cons c s i (some j) e (before, after, whole, at, h) =
    rw e (c ∷ before, after, ap (◌∷◌ c) whole, omega (arith, at), h)

rfind_slash-Last : (s : Bytes) (i : ℕ) → Last s i (rfind_slash s i)
unfolding rfind_slash
rfind_slash-Last [] i = tt
rfind_slash-Last (c ∷ s) i =
    Last-cons c s i (rfind_slash s (i + 1)) refl (rfind_slash-Last s (i + 1))

drop-before :
    (before after : Bytes) (c n : ℕ) → n ≡ length before + 1 → drop n (before ++ c ∷ after) ≡ after
drop-before [] after c n e = let one : n ≡ 1 = omega arith in rw one refl
drop-before (x ∷ before) after c zero e = absurd (omega arith)
drop-before (x ∷ before) after c (suc n) e = drop-before before after c n (omega arith)

take-before : (before after : Bytes) (n : ℕ) → n ≡ length before → take n (before ++ after) ≡ before
take-before [] after n e = let none_left : n ≡ 0 = omega arith in rw none_left refl
take-before (x ∷ before) after zero e = absurd (omega arith)
take-before (x ∷ before) after (suc n) e = ap (◌∷◌ x) (take-before before after n (omega arith))

-- The two parts of a path around its last slash, or twice the path if it has none.
abbrev pub IsSplit : Bytes → Bytes → Bytes → Type 0
IsSplit path dir name =
    (NoSlash path × (dir ≡ path) × (name ≡ path)) ⊎ ((path ≡ dir ++ b'/' ∷ name) × NoSlash name)

dir_at-IsSplit :
    (path : Bytes) (r : Option ℕ) → Last path 0 r → IsSplit path (dir_at path r) (name_at path r)
dir_at-IsSplit path none h = inl (h, refl, refl)
dir_at-IsSplit path (some j) (before, after, whole, at, h) =
    let dir : take j path ≡ before =
      ap (take j) whole ∙ take-before before (b'/' ∷ after) j (omega arith) in
    let name : drop (j + 1) path ≡ after =
      ap (drop (j + 1)) whole ∙ drop-before before after b'/' (j + 1) (omega arith) in
    inr (
      whole ∙ ap (λ x. x ++ b'/' ∷ after) (sym dir) ∙ ap (λ x. take j path ++ b'/' ∷ x) (sym name),
      subst NoSlash (sym name) h,
    )

-- `getExeDir` and `getExeName` split the path, or that of the program for an empty one, at its last slash; a
-- path without a slash is both.
pub get_exe_dir-get_exe_name :
    (exe path : Bytes) → IsSplit (or_exe exe path) (get_exe_dir exe path) (get_exe_name exe path)
unfolding get_exe_dir get_exe_name
get_exe_dir-get_exe_name exe path =
    dir_at-IsSplit (or_exe exe path) (rfind_slash (or_exe exe path) 0)
      (rfind_slash-Last (or_exe exe path) 0)

-- What `getIpAddress` looks for: an interface that is not left out and has the name, if one is given.
abbrev pub wanted : Bytes → Ifconfig → Bool
wanted [] dev = not (is_left_out dev)
wanted (c ∷ eth_name) dev = not (is_left_out dev) && equal dev.name (c ∷ eth_name)

abbrev pub Unwanted : Bytes → List Ifconfig → Type 0
Unwanted eth_name devs = All (λ dev. wanted eth_name dev ≡ false) devs

-- The address of the first interface that is wanted, or none where none is.
abbrev pub IsAddress : List Ifconfig → Bytes → Bytes → Type 0
IsAddress devs eth_name ip =
    ((ip ≡ []) × Unwanted eth_name devs)
    ⊎ ((before : List Ifconfig) × (dev : Ifconfig) × (after : List Ifconfig) × (devs
          ≡ before ++ dev ∷ after)
        × (ip ≡ dev.ip)
        × (wanted eth_name dev ≡ true)
        × Unwanted eth_name before)

IsAddress-cons :
    (d : Ifconfig) (devs : List Ifconfig) (eth_name ip : Bytes)
    → wanted eth_name d ≡ false
    → IsAddress devs eth_name ip
    → IsAddress (d ∷ devs) eth_name ip
IsAddress-cons d devs eth_name ip not_d (inl (e, none_of)) = inl (e, (not_d, none_of))
IsAddress-cons d devs eth_name ip not_d (inr (before, dev, after, whole, ip_of, hit, none_of)) =
    inr (d ∷ before, dev, after, ap (◌∷◌ d) whole, ip_of, hit, (not_d, none_of))

find_ip-kept :
    (devs : List Ifconfig) (eth_name : Bytes)
    → IsAddress devs eth_name (find_ip eth_name (kept_devices devs))
unfolding kept_devices find_ip
find_ip-kept [] eth_name = inl (refl, tt)
find_ip-kept (dev ∷ devs) [] =
    if_elim (λ ds. IsAddress (dev ∷ devs) [] (find_ip [] ds)) (is_left_out dev)
      (λ out. IsAddress-cons dev devs [] _ (ground arith) (find_ip-kept devs []))
      (λ kept. inr ([], dev, devs, refl, refl, ground arith, tt))
find_ip-kept (dev ∷ devs) (c ∷ eth) =
    if_elim (λ ds. IsAddress (dev ∷ devs) (c ∷ eth) (find_ip (c ∷ eth) ds)) (is_left_out dev)
      (λ out. IsAddress-cons dev devs (c ∷ eth) _ (ground arith) (find_ip-kept devs (c ∷ eth)))
      (λ kept.
        if_elim (IsAddress (dev ∷ devs) (c ∷ eth)) (equal dev.name (c ∷ eth))
          (λ same. inr ([], dev, devs, refl, refl, ground arith, tt))
          (λ other.
            IsAddress-cons dev devs (c ∷ eth) _ (ground arith) (find_ip-kept devs (c ∷ eth))))

-- `getIpAddress` gives the address of the first interface of the system that is not the loopback's, has an
-- address and a hardware address, and has the name that is asked for, if one is; and the empty
-- string where there is none.
pub get_ip_address-IsAddress :
    (devs : List Ifconfig) (eth_name : Bytes)
    → IsAddress devs eth_name (get_ip_address (some devs) eth_name)
unfolding get_ip_address
get_ip_address-IsAddress devs eth_name = find_ip-kept devs eth_name
