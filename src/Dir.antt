-- ===== src/Dir.antt =====
-- src/utils/dir.cpp. The file system library (src/importlib) is the parameter `Files`: what it answers
-- for a path, in a given state of the disk, where `none` is an exception.
pub mod Search
pub mod Removal
use mifsa_base.Base.{
  ℕ, zero, suc, ◌+◌, ◌-◌, Bool, true, false, not, ◌&&◌, List, [], ◌∷◌, ◌++◌, Option, none, some,
  Bytes, codes, equal, ltb, leb, ◌==◌, if◌then◌else◌, length,
}
use mifsa_base.Base.Int.{ℤ, pos, negsuc, ltb_ℤ}

-- What an iteration over a directory finds.
pub data Kind : Type 0 where
  file directory other : Kind

pub record Entry : Type 0 where
  pub path : Bytes
  pub kind : Kind

-- What an iteration over a directory finds, and whether it comes to the end; otherwise an exception ends it.
pub record Listing : Type 0 where
  pub found : List Entry
  pub ended : Bool

-- `Disk` is the state of the disk, which an exception may leave changed. `number` is `std::stoi` of the stem of a path.
pub record Files : Type 1 where
  pub Disk : Type 0
  pub entries : Disk → Bytes → Listing
  pub exists : Disk → Bytes → Option Bool
  pub create_directories : Disk → Bytes → Option Bool × Disk
  pub remove : Disk → Bytes → Option Bool × Disk
  pub remove_all : Disk → Bytes → Option ℕ × Disk
  pub is_regular_file : Disk → Bytes → Option Bool
  pub is_directory : Disk → Bytes → Option Bool
  pub extension : Bytes → Bytes
  pub stem : Bytes → Bytes
  pub filename : Bytes → Bytes
  pub number : Bytes → Option ℤ
  -- `std::sort`, which gets the comparison.
  pub sort : (Bytes → Bytes → Bool) → List Bytes → List Bytes
  pub temp_directory_path : Option Bytes

-- `catch (...) { return false; }`
abbrev pub caught : Option Bool → Bool
caught none = false
caught (some b) = b

abbrev pub is_empty : Bytes → Bool
is_empty [] = true
is_empty (c ∷ s) = false

abbrev pub is_kind : Kind → Kind → Bool
is_kind file file = true
is_kind directory directory = true
is_kind other other = true
is_kind _ _ = false

-- The loop over a directory that collects the paths of one kind.
unfoldable pub paths_of : Kind → List Entry → List Bytes
paths_of kind [] = []
paths_of kind (e ∷ es) = if is_kind e.kind kind then e.path ∷ paths_of kind es else paths_of kind es

module _ (F : Files) where
  abbrev pub stem_number : Bytes → ℤ
  stem_number path = elim (F.number path) [ none ↦ negsuc 0 | some n ↦ n ]

  -- The comparison that `_getByName_T` hands to `std::sort`.
  unfoldable pub name_order : Bool → Bytes → Bytes → Bool
  name_order max_first lhs rhs =
      if ltb_ℤ (stem_number rhs) (stem_number lhs) then max_first else not max_first

  -- `_getByName_T`, with its template argument; an exception leaves what was found so far unsorted.
  unfoldable pub get_by_name : Kind → F.Disk → Bytes → Bool → List Bytes
  unfolding name_order paths_of
  get_by_name kind d path max_first =
      let listing = F.entries d path in
      let dirs = paths_of kind listing.found in
      if listing.ended then F.sort (name_order max_first) dirs else dirs

  unfoldable pub get_files_by_name : F.Disk → Bytes → Bool → List Bytes
  unfolding get_by_name
  get_files_by_name d path max_first = get_by_name file d path max_first

  -- `getFilesByLastDate`, which sorts by name too.
  unfoldable pub get_files_by_last_date : F.Disk → Bytes → Bool → List Bytes
  unfolding get_by_name
  get_files_by_last_date d path new_first = get_by_name file d path new_first

  unfoldable pub get_dirs_by_name : F.Disk → Bytes → Bool → List Bytes
  unfolding get_by_name
  get_dirs_by_name d path max_first = get_by_name directory d path max_first

  unfoldable pub get_dirs_by_last_date : F.Disk → Bytes → Bool → List Bytes
  unfolding get_by_name
  get_dirs_by_last_date d path new_first = get_by_name directory d path new_first

  unfoldable pub exists : F.Disk → Bytes → Bool
  exists d path = caught (F.exists d path)

  unfoldable pub is_file : F.Disk → Bytes → Bool
  is_file d path = caught (F.is_regular_file d path)

  unfoldable pub is_dir : F.Disk → Bytes → Bool
  is_dir d path = caught (F.is_directory d path)

  abbrev pub on_disk {ℓ} : {A : Type ℓ} → (A → Bool) → Option A × F.Disk → Bool × F.Disk
  on_disk test (none, d) = (false, d)
  on_disk test (some a, d) = (test a, d)

  unfoldable pub mk_path : F.Disk → Bytes → Bool × F.Disk
  mk_path d path = on_disk (λ b. b) (F.create_directories d path)

  unfoldable pub remove : F.Disk → Bytes → Bool × F.Disk
  remove d path = on_disk (λ b. b) (F.remove d path)

  -- The number of what was removed, as a `bool`.
  unfoldable pub remove_all : F.Disk → Bytes → Bool × F.Disk
  remove_all d path = on_disk (λ n. ltb 0 n) (F.remove_all d path)

  -- `if (!suffix.empty()) ... extension() == suffix`
  abbrev pub has_suffix : Bytes → Bytes → Bool
  has_suffix suffix path = if is_empty suffix then true else equal (F.extension path) suffix

  unfoldable pub files_of : Bytes → List Entry → List Bytes
  files_of suffix [] = []
  files_of suffix (e ∷ es) =
      if is_kind e.kind file && has_suffix suffix e.path
      then e.path ∷ files_of suffix es
      else files_of suffix es

  unfoldable pub get_files : F.Disk → Bytes → Bytes → List Bytes
  unfolding files_of
  get_files d path suffix = files_of suffix (F.entries d path).found

  -- The loop of `progressAllFiles`, over what it does with a directory; `none` is out of fuel.
  abbrev pub join : Option (List Bytes) → Option (List Bytes) → Option (List Bytes)
  join (some xs) (some ys) = some (xs ++ ys)
  join _ _ = none

  abbrev pub own : Bytes → Entry → List Bytes
  own suffix e = if is_kind e.kind file && has_suffix suffix e.path then e.path ∷ [] else []

  unfoldable pub progress_entries :
      (Bytes → Option (List Bytes)) → Bytes → List Entry → Option (List Bytes)
  progress_entries sub suffix [] = some []
  progress_entries sub suffix (e ∷ es) =
      join (if is_kind e.kind directory then sub e.path else some (own suffix e))
        (progress_entries sub suffix es)

  -- `progressAllFiles`, with fuel for the depth of the directories.
  unfoldable pub progress_all : ℕ → F.Disk → Bytes → Bytes → Option (List Bytes)
  unfolding progress_entries
  progress_all zero d suffix dir = none
  progress_all (suc fuel) d suffix dir =
      progress_entries (progress_all fuel d suffix) suffix (F.entries d dir).found

  unfoldable pub get_all_files : ℕ → F.Disk → Bytes → Bytes → Option (List Bytes)
  unfolding progress_all
  get_all_files fuel d path suffix = progress_all fuel d suffix path

  unfoldable pub get_path_file_name : Bytes → Bytes
  get_path_file_name path = F.filename path

  unfoldable pub get_path_base_name : Bytes → Bytes
  get_path_base_name path = F.stem path

  unfoldable pub get_path_suffix_name : Bytes → Bytes
  get_path_suffix_name path = F.extension path

  -- The loop of `removeSubOldDirs`, on an `int` counter.
  unfoldable pub remove_from : ℤ → ℕ → List Bytes → F.Disk → F.Disk
  unfolding remove_all
  remove_from keep_count i [] d = d
  remove_from keep_count i (dir ∷ dirs) d =
      remove_from keep_count (i + 1) dirs
        (if ltb_ℤ (pos i) keep_count then d else (remove_all d dir).1)

  unfoldable pub remove_sub_old_dirs : F.Disk → Bytes → ℤ → F.Disk
  unfolding exists get_dirs_by_name remove_from
  remove_sub_old_dirs d dir keep_count =
      if not (exists d dir)
      then d
      else if ltb_ℤ keep_count (pos (length (get_dirs_by_name d dir true)))
      then remove_from keep_count 0 (get_dirs_by_name d dir true) d
      else d

-- The last slash of a directory is cut off; `back` of an empty string is undefined, which is `none`.
unfoldable pub cut_slash : Bytes → Option Bytes
cut_slash [] = none
cut_slash (c ∷ []) = some (if c == b'/' then [] else c ∷ [])
cut_slash (c ∷ d ∷ s) = elim (cut_slash (d ∷ s)) [ none ↦ none | some s' ↦ some (c ∷ s') ]

-- `getTempDir`, not on Windows.
unfoldable pub get_temp_dir : Option Bytes → Option Bytes
unfolding cut_slash
get_temp_dir none = some []
get_temp_dir (some dir) = cut_slash dir

-- The loop of `getCfgPath`.
unfoldable pub first_existing : (Bytes → Bool) → Bytes → List Bytes → Bytes
first_existing exists file_name [] = []
first_existing exists file_name (path ∷ paths) =
    let check_path = path ++ b'/' ∷ file_name in
    if exists check_path then check_path else first_existing exists file_name paths

-- The places of `getCfgPath`, not on Windows; `environment` is `getEnvironment`.
unfoldable pub cfg_paths : (Bytes → Bytes) → Bytes → Bytes → List Bytes
cfg_paths environment env_name package_name =
    (if is_empty env_name then [] else environment env_name ∷ [])
    ++ (codes "." ∷ codes "./etc" ∷ codes "../etc" ∷ [])
    ++ (codes "/etc" ∷ codes "/usr/etc" ∷ codes "/usr/local/etc" ∷ [])
    ++ (if is_empty package_name
        then []
        else (codes "/usr/share/" ++ package_name)
          ∷ (codes "/usr/local/share/" ++ package_name)
          ∷ [])

unfoldable pub get_cfg_path : (Bytes → Bool) → (Bytes → Bytes) → Bytes → Bytes → Bytes → Bytes
unfolding first_existing cfg_paths
get_cfg_path exists environment file_name env_name package_name =
    first_existing exists file_name (cfg_paths environment env_name package_name)
