-- ===== src/System/Locking.antt =====
-- `programCheckSingleton` (src/utils/system.cpp) in several processes.
use mifsa_base.Base.{
  ℕ, Bool, true, false, List, [], ◌∷◌, Option, none, some, ◌≡◌, ◌≢◌, refl, ap, ◌∙◌, subst, Bytes,
  leb, if◌then◌else◌, if_elim, length, All,
}
use mifsa_base.System.{
  Os, filename_size, c_str, pid_file, locked, opened, proc_is_singleton, program_check_singleton,
}

-- What POSIX says of locks on files: `owner` is the process that has the lock on the file of a path, and
-- `path_of` the path of an open file of a process.
pub record Locks {S : Type 0} (os : Os S) : Type 0 where
  pub owner : Bytes → S → Option ℕ
  pub path_of : ℕ → ℕ → S → Option Bytes
  pub open_file_path :
      (pid fd : ℕ) (path : Bytes) (s : S)
      → (os.open_file pid path s).0 ≡ some fd
      → path_of pid fd (os.open_file pid path s).1 ≡ some path
  pub set_lock_owner :
      (pid fd : ℕ) (path : Bytes) (s : S)
      → path_of pid fd s ≡ some path
      → (os.set_lock pid fd s).0 ≡ true
      → owner path (os.set_lock pid fd s).1 ≡ some pid
  pub set_lock_refused :
      (pid fd other : ℕ) (path : Bytes) (s : S)
      → path_of pid fd s ≡ some path
      → owner path s ≡ some other
      → other ≢ pid
      → (os.set_lock pid fd s).0 ≡ false
  -- No call of a process takes a lock from another one.
  pub open_file_keeps :
      (pid other : ℕ) (path file : Bytes) (s : S)
      → owner path s ≡ some other
      → owner path (os.open_file pid file s).1 ≡ some other
  pub set_lock_keeps :
      (pid fd other : ℕ) (path : Bytes) (s : S)
      → owner path s ≡ some other
      → other ≢ pid
      → owner path (os.set_lock pid fd s).1 ≡ some other
  pub close_file_keeps :
      (pid fd other : ℕ) (path : Bytes) (s : S)
      → owner path s ≡ some other
      → other ≢ pid
      → owner path (os.close_file pid fd s) ≡ some other
  pub truncate_keeps :
      (pid fd other : ℕ) (path : Bytes) (s : S)
      → owner path s ≡ some other
      → owner path (os.truncate pid fd s) ≡ some other
  pub write_file_keeps :
      (pid fd other : ℕ) (path text : Bytes) (s : S)
      → owner path s ≡ some other
      → owner path (os.write_file pid fd text s) ≡ some other

module _ {S : Type 0} {os : Os S} (laws : Locks os) where
  open laws use {
    owner, path_of, open_file_path, set_lock_owner, set_lock_refused, open_file_keeps,
    set_lock_keeps, close_file_keeps, truncate_keeps, write_file_keeps,
  }

  -- A process that is given the lock has it in the end.
  locked-owner :
      (pid fd : ℕ) (path : Bytes) (r : Bool × S)
      → (r.0 ≡ true → owner path r.1 ≡ some pid)
      → (locked os pid fd r).0 ≡ true
      → owner path (locked os pid fd r).1 ≡ some pid
  unfolding locked
  locked-owner pid fd path (false, s) h e = absurd cc
  locked-owner pid fd path (true, s) h e =
      write_file_keeps pid fd pid path _ _ (truncate_keeps pid fd pid path s (h refl))

  locked-keeps :
      (pid fd other : ℕ) (path : Bytes) (r : Bool × S)
      → owner path r.1 ≡ some other
      → other ≢ pid
      → owner path (locked os pid fd r).1 ≡ some other
  unfolding locked
  locked-keeps pid fd other path (false, s) h ne = close_file_keeps pid fd other path s h ne
  locked-keeps pid fd other path (true, s) h ne =
      write_file_keeps pid fd other path _ _ (truncate_keeps pid fd other path s h)

  locked-refused : (pid fd : ℕ) (r : Bool × S) → r.0 ≡ false → (locked os pid fd r).0 ≡ false
  unfolding locked
  locked-refused pid fd (false, s) e = refl
  locked-refused pid fd (true, s) e = absurd cc

  opened-owner :
      (pid : ℕ) (path : Bytes) (r : Option ℕ × S)
      → ((fd : ℕ) → r.0 ≡ some fd → path_of pid fd r.1 ≡ some path)
      → (opened os pid r).0 ≡ true
      → owner path (opened os pid r).1 ≡ some pid
  unfolding opened
  opened-owner pid path (none, s) h e = absurd cc
  opened-owner pid path (some fd, s) h e =
      locked-owner pid fd path (os.set_lock pid fd s)
        (λ given. set_lock_owner pid fd path s (h fd refl) given) e

  opened-keeps :
      (pid other : ℕ) (path : Bytes) (r : Option ℕ × S)
      → owner path r.1 ≡ some other
      → other ≢ pid
      → owner path (opened os pid r).1 ≡ some other
  unfolding opened
  opened-keeps pid other path (none, s) h ne = h
  opened-keeps pid other path (some fd, s) h ne =
      locked-keeps pid fd other path (os.set_lock pid fd s)
        (set_lock_keeps pid fd other path s h ne) ne

  opened-refused :
      (pid other : ℕ) (path : Bytes) (r : Option ℕ × S)
      → ((fd : ℕ) → r.0 ≡ some fd → path_of pid fd r.1 ≡ some path)
      → owner path r.1 ≡ some other
      → other ≢ pid
      → (opened os pid r).0 ≡ false
  unfolding opened
  opened-refused pid other path (none, s) h at ne = refl
  opened-refused pid other path (some fd, s) h at ne =
      locked-refused pid fd (os.set_lock pid fd s)
        (set_lock_refused pid fd other path s (h fd refl) at ne)

  -- The file of a program.
  abbrev pub file : Bytes → Bytes → Bytes
  file dir name = pid_file (c_str dir) (c_str name)

  abbrev result : ℕ → Bytes → Bytes → S → Bool × S
  result pid dir name s = opened os pid (os.open_file pid (file dir name) s)

  -- Where it returns, the name fits and this is what it returns.
  check-result :
      (pid : ℕ) (dir name : Bytes) (s : S) (r : Bool × S)
      → program_check_singleton os pid dir name s ≡ some r
      → (leb filename_size (length (file dir name)) ≡ false) × (result pid dir name s ≡ r)
  unfolding program_check_singleton proc_is_singleton
  check-result pid dir name s r =
      if_elim
        (λ (o : Option (Bool × S)).
          o ≡ some r
          → (leb filename_size (length (file dir name)) ≡ false) × (result pid dir name s ≡ r))
        (leb filename_size (length (file dir name))) (λ _ e. absurd cc) (λ fits e. (fits, cc))

  check-fits :
      (pid : ℕ) (dir name : Bytes) (s : S)
      → leb filename_size (length (file dir name)) ≡ false
      → program_check_singleton os pid dir name s ≡ some (result pid dir name s)
  unfolding program_check_singleton proc_is_singleton
  check-fits pid dir name s fits = ap (λ b. if b then none else some (result pid dir name s)) fits

  check-owner :
      (pid : ℕ) (dir name : Bytes) (s t : S)
      → program_check_singleton os pid dir name s ≡ some (true, t)
      → owner (file dir name) t ≡ some pid
  check-owner pid dir name s t e =
      let path = file dir name in
      let same = (check-result pid dir name s (true, t) e).1 in
      subst (λ (x : Bool × S). owner path x.1 ≡ some pid) same
        (opened-owner pid path (os.open_file pid path s) (λ fd at. open_file_path pid fd path s at)
          (ap (λ (x : Bool × S). x.0) same))

  check-keeps :
      (pid other : ℕ) (dir name path : Bytes) (s : S) (r : Bool × S)
      → owner path s ≡ some other
      → other ≢ pid
      → program_check_singleton os pid dir name s ≡ some r
      → owner path r.1 ≡ some other
  check-keeps pid other dir name path s r at ne e =
      subst (λ (x : Bool × S). owner path x.1 ≡ some other) (check-result pid dir name s r e).1
        (opened-keeps pid other path (os.open_file pid (file dir name) s)
          (open_file_keeps pid other path (file dir name) s at) ne)

  -- Other processes check names, one after the other.
  pub data After (dir : Bytes) : List ℕ → S → S → Type 0 where
    nothing : {s : S} → After dir [] s s
    checked :
        {pids : List ℕ} {s t u : S} (pid : ℕ) (name : Bytes) (given : Bool)
        → program_check_singleton os pid dir name s ≡ some (given, t)
        → After dir pids t u
        → After dir (pid ∷ pids) s u

  After-keeps :
      (pid : ℕ) (dir path : Bytes) (pids : List ℕ) (s u : S)
      → After dir pids s u
      → All (λ other. pid ≢ other) pids
      → owner path s ≡ some pid
      → owner path u ≡ some pid
  After-keeps pid dir path [] s u nothing ne at = at
  After-keeps pid dir path (_ ∷ pids) s u (checked {t} other name given e calls) (ne, nes) at =
      After-keeps pid dir path pids t u calls nes
        (check-keeps other pid dir name path s (given, t) at ne e)

  -- If a process got true from `programCheckSingleton`, and other processes have called it since with any names,
  -- then a further process that calls it with the first name gets false, and the first process
  -- still has the lock; by what POSIX says of locks on files.
  pub check-excludes :
      (pid other : ℕ) (dir name : Bytes) (pids : List ℕ) (s t u : S)
      → program_check_singleton os pid dir name s ≡ some (true, t)
      → After dir pids t u
      → All (λ q. pid ≢ q) pids
      → pid ≢ other
      → (v : S) × (program_check_singleton os other dir name u ≡ some (false, v))
        × (owner (file dir name) v ≡ some pid)
  check-excludes pid other dir name pids s t u e calls nes ne =
      let path = file dir name in
      let at = After-keeps pid dir path pids t u calls nes (check-owner pid dir name s t e) in
      let (fits, same) = check-result pid dir name s (true, t) e in
      let got = result other dir name u in
      let refused : got.0 ≡ false =
        opened-refused other pid path (os.open_file other path u)
          (λ fd opens. open_file_path other fd path u opens)
          (open_file_keeps other pid path path u at) ne in
      let whole = check-fits other dir name u fits ∙ ap (λ b. some (b, got.1)) refused in
      (got.1, whole, check-keeps other pid dir name path u (false, got.1) at ne whole)
