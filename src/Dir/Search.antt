-- ===== src/Dir/Search.antt =====
-- The searches of src/utils/dir.cpp: getCfgPath and getAllFiles.
use mifsa_base.Base.{
  ℕ, suc, Bool, true, false, ◌&&◌, List, [], ◌∷◌, ◌++◌, Option, some, ◌≡◌, refl, ap, Bytes, if_elim,
  All, and_true,
}
use mifsa_base.Dir.{
  Files, Entry, file, directory, is_kind, first_existing, cfg_paths, get_cfg_path, has_suffix, own,
  join, progress_entries, progress_all, get_all_files,
}

-- The place of a file in a directory.
abbrev pub in_dir : Bytes → Bytes → Bytes
in_dir file_name path = path ++ b'/' ∷ file_name

abbrev pub Missing : (Bytes → Bool) → Bytes → List Bytes → Type 0
Missing exists file_name paths = All (λ path. exists (in_dir file_name path) ≡ false) paths

-- The first of the paths in which the file exists, or none of them.
pub data Found (exists : Bytes → Bool) (file_name : Bytes) (paths : List Bytes) (out : Bytes)
    : Type 0 where
  found :
      (before : List Bytes) (path : Bytes) (after : List Bytes)
      → paths ≡ before ++ path ∷ after
      → Missing exists file_name before
      → exists out ≡ true
      → out ≡ in_dir file_name path
      → Found exists file_name paths out
  nowhere : Missing exists file_name paths → out ≡ [] → Found exists file_name paths out

Found-cons :
    (exists : Bytes → Bool) (file_name path : Bytes) (paths : List Bytes) (out : Bytes)
    → exists (in_dir file_name path) ≡ false
    → Found exists file_name paths out
    → Found exists file_name (path ∷ paths) out
Found-cons exists file_name path paths out miss (found before p after e missing hit is) =
    found (path ∷ before) p after (ap (◌∷◌ path) e) (miss, missing) hit is
Found-cons exists file_name path paths out miss (nowhere missing is) = nowhere (miss, missing) is

pub first_existing-Found :
    (exists : Bytes → Bool) (file_name : Bytes) (paths : List Bytes)
    → Found exists file_name paths (first_existing exists file_name paths)
unfolding first_existing
first_existing-Found exists file_name [] = nowhere tt refl
first_existing-Found exists file_name (path ∷ paths) =
    if_elim (Found exists file_name (path ∷ paths)) (exists (in_dir file_name path))
      (λ hit. found [] path paths refl tt hit refl)
      (λ miss.
        Found-cons exists file_name path paths _ miss (first_existing-Found exists file_name paths))

-- `getCfgPath` gives the file in the first of its places in which it exists, and the empty string if it
-- exists in none; the directory that the environment names, if one is asked for, comes first.
pub get_cfg_path-Found :
    (exists : Bytes → Bool) (environment : Bytes → Bytes) (file_name env_name package_name : Bytes)
    → Found exists file_name
        (cfg_paths environment env_name package_name)
        (get_cfg_path exists environment file_name env_name package_name)
unfolding get_cfg_path
get_cfg_path-Found exists environment file_name env_name package_name =
    first_existing-Found exists file_name (cfg_paths environment env_name package_name)

-- The directories below `dir` are nested at most `n` deep.
module _ (F : Files) (d : F.Disk) where
  mutual
    pub data IsShallow : ℕ → Bytes → Type 0 where
      listed : {n : ℕ} {dir : Bytes} → AreShallow n (F.entries d dir).found → IsShallow (suc n) dir

    pub data AreShallow : ℕ → List Entry → Type 0 where
      done : {n : ℕ} → AreShallow n []
      below :
          {n : ℕ} (e : Entry) {es : List Entry}
          → is_kind e.kind directory ≡ true
          → IsShallow n e.path
          → AreShallow n es
          → AreShallow n (e ∷ es)
      beside :
          {n : ℕ} (e : Entry) {es : List Entry}
          → is_kind e.kind directory ≡ false
          → AreShallow n es
          → AreShallow n (e ∷ es)

  -- The result is there, and has only paths with the suffix.
  abbrev pub Collects : Bytes → Option (List Bytes) → Type 0
  Collects suffix r =
      (xs : List Bytes) × (r ≡ some xs) × All (λ path. has_suffix F suffix path ≡ true) xs

  has_suffix-append :
      (suffix : Bytes) (xs ys : List Bytes)
      → All (λ path. has_suffix F suffix path ≡ true) xs
      → All (λ path. has_suffix F suffix path ≡ true) ys
      → All (λ path. has_suffix F suffix path ≡ true) (xs ++ ys)
  has_suffix-append suffix [] ys hx hy = hy
  has_suffix-append suffix (x ∷ xs) ys hx hy = (hx.0, has_suffix-append suffix xs ys hx.1 hy)

  Collects-join :
      (suffix : Bytes) (r t : Option (List Bytes))
      → Collects suffix r
      → Collects suffix t
      → Collects suffix (join F r t)
  Collects-join suffix r t (xs, e, hx) (ys, e', hy) =
      (xs ++ ys, rw (e, e') refl, has_suffix-append suffix xs ys hx hy)

  own-Collects : (suffix : Bytes) (e : Entry) → Collects suffix (some (own F suffix e))
  own-Collects suffix e =
      if_elim (λ r. Collects suffix (some r)) (is_kind e.kind file && has_suffix F suffix e.path)
        {x = e.path ∷ []} {y = []} (λ h. (e.path ∷ [], refl, ((and_true _ _ h).1, tt)))
        (λ _. ([], refl, tt))

  mutual
    unfolding progress_all progress_entries

    progress_all_shallow :
        (n : ℕ) (suffix dir : Bytes)
        → IsShallow n dir
        → Collects suffix (progress_all F n d suffix dir)
    progress_all_shallow _ suffix dir (listed {n} below_es) =
        progress_entries_shallow n suffix _ below_es

    progress_entries_shallow :
        (n : ℕ) (suffix : Bytes) (es : List Entry)
        → AreShallow n es
        → Collects suffix (progress_entries F (progress_all F n d suffix) suffix es)
    progress_entries_shallow n suffix _ done = ([], refl, tt)
    progress_entries_shallow n suffix _ (below e {es} is shallow rest) =
        Collects-join suffix _ _ (rw is (progress_all_shallow n suffix e.path shallow))
          (progress_entries_shallow n suffix es rest)
    progress_entries_shallow n suffix _ (beside e {es} isnt rest) =
        Collects-join suffix _ _ (rw isnt (own-Collects suffix e))
          (progress_entries_shallow n suffix es rest)

  -- `getAllFiles` comes to its end where directories nest at most `n` deep, listings that an
  -- exception ends included, and gives only paths with the suffix that is asked for.
  pub get_all_files-Collects :
      (n : ℕ) (suffix dir : Bytes)
      → IsShallow n dir
      → Collects suffix (get_all_files F n d dir suffix)
  unfolding get_all_files
  get_all_files-Collects n suffix dir h = progress_all_shallow n suffix dir h
