-- ===== src/Dir/Removal.antt =====
-- removeSubOldDirs of src/utils/dir.cpp.
use mifsa_base.Base.{
  ℕ, zero, suc, ◌+◌, ◌-◌, ◌≤◌, true, List, [], ◌∷◌, ◌≡◌, refl, sym, ap, ◌+◌, inl, inr, Bytes,
  if◌then◌else◌, if_elim, Bool-cases, arith, length, drop,
}
use mifsa_base.Base.Int.{ℤ, pos, negsuc, ltb_ℤ, pos_part}
use mifsa_base.Dir.{Files, exists, get_dirs_by_name, remove_all, remove_from, remove_sub_old_dirs}

module _ (F : Files) where
  -- The directories are removed one after the other.
  abbrev pub remove_each : List Bytes → F.Disk → F.Disk
  remove_each [] d = d
  remove_each (dir ∷ dirs) d = remove_each dirs (remove_all F d dir).1

  remove_from-all :
      (k i : ℕ) (dirs : List Bytes) (d : F.Disk)
      → remove_from F (negsuc k) i dirs d ≡ remove_each dirs d
  unfolding remove_from
  remove_from-all k i [] d = refl
  remove_from-all k i (dir ∷ dirs) d =
      if_elim
        (λ d'. remove_from F (negsuc k) (i + 1) dirs d' ≡ remove_each dirs (remove_all F d dir).1)
        (ltb_ℤ (pos i) (negsuc k)) (λ e. absurd (ground arith))
        (λ _. remove_from-all k (i + 1) dirs (remove_all F d dir).1)

  remove_from-drop :
      (k n i : ℕ) (dirs : List Bytes) (d : F.Disk)
      → n ≡ k - i
      → remove_from F (pos k) i dirs d ≡ remove_each (drop n dirs) d
  unfolding remove_from
  remove_from-drop k zero i [] d e = refl
  remove_from-drop k (suc n) i [] d e = refl
  remove_from-drop k zero i (dir ∷ dirs) d e =
      if_elim
        (λ d'. remove_from F (pos k) (i + 1) dirs d' ≡ remove_each dirs (remove_all F d dir).1)
        (ltb_ℤ (pos i) (pos k)) (λ h. absurd (ground arith))
        (λ _. remove_from-drop k zero (i + 1) dirs (remove_all F d dir).1 (omega arith))
  remove_from-drop k (suc n) i (dir ∷ dirs) d e =
      if_elim (λ d'. remove_from F (pos k) (i + 1) dirs d' ≡ remove_each (drop n dirs) d)
        (ltb_ℤ (pos i) (pos k)) (λ _. remove_from-drop k n (i + 1) dirs d (omega arith))
        (λ h. absurd (ground arith))

  drop_short : (k : ℕ) (dirs : List Bytes) → length dirs ≤ k → drop k dirs ≡ []
  drop_short zero [] h = refl
  drop_short zero (x ∷ dirs) h = absurd (omega arith)
  drop_short (suc k) [] h = refl
  drop_short (suc k) (x ∷ dirs) h = drop_short k dirs (omega arith)

  remove_from_lem :
      (keep_count : ℤ) (dirs : List Bytes) (d : F.Disk)
      → (if ltb_ℤ keep_count (pos (length dirs)) then remove_from F keep_count 0 dirs d else d)
        ≡ remove_each (drop (pos_part keep_count) dirs) d
  remove_from_lem (pos k) dirs d =
      if_elim (λ r. r ≡ remove_each (drop k dirs) d) (ltb_ℤ (pos k) (pos (length dirs)))
        (λ _. remove_from-drop k k 0 dirs d (omega arith))
        (λ h. ap (λ x. remove_each x d) (sym (drop_short k dirs (ground arith))))
  remove_from_lem (negsuc k) dirs d =
      if_elim (λ r. r ≡ remove_each dirs d) (ltb_ℤ (negsuc k) (pos (length dirs)))
        (λ _. remove_from-all k 0 dirs d) (λ h. absurd (ground arith))

  -- `removeSubOldDirs` removes the directories that `getDirsByName` gives but the first `keep_count` of them,
  -- one after the other, and all of them for a negative count; where the path does not exist it
  -- changes nothing.
  pub remove_sub_old_dirs-drop :
      (d : F.Disk) (dir : Bytes) (keep_count : ℤ)
      → remove_sub_old_dirs F d dir keep_count ≡ (
          if exists F d dir
          then remove_each (drop (pos_part keep_count) (get_dirs_by_name F d dir true)) d
          else d)
  unfolding remove_sub_old_dirs
  remove_sub_old_dirs-drop d dir keep_count = elim (Bool-cases (exists F d dir)) [
    | inl there ↦ rw there (remove_from_lem keep_count (get_dirs_by_name F d dir true) d)
    | inr gone ↦ rw gone refl
  ]
