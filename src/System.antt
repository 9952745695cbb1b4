-- ===== src/System.antt =====
-- src/utils/system.cpp, not on Windows, over the operating system `Os`. `none` is a write beyond the end of
-- the buffer for the file's name.
pub mod Locking
pub mod Signals
use mifsa_base.Base.{
  ℕ, ◌+◌, Bool, true, false, List, [], ◌∷◌, ◌++◌, Option, none, some, Bytes, codes, leb, ◌==◌,
  if◌then◌else◌, length,
}
use mifsa_base.Base.Int.{pos}
use mifsa_base.Variant.Print.{print_int}

pub data Signal : Type 0 where
  sig_hup sig_int sig_quit sig_term : Signal

-- The calls of a process on the state of the system. Its number comes first.
pub record Os (S : Type 0) : Type 0 where
  -- `open` to read and write, and to create
  pub open_file : ℕ → Bytes → S → Option ℕ × S
  -- `fcntl` with `F_SETLK` and a lock on the whole file: whether it gives the lock
  pub set_lock : ℕ → ℕ → S → Bool × S
  pub close_file : ℕ → ℕ → S → S
  pub truncate : ℕ → ℕ → S → S
  pub write_file : ℕ → ℕ → Bytes → S → S
  -- `sigaction` to a handler: whether it succeeds
  pub set_handler : ℕ → Signal → ℕ → S → Bool × S
  -- what `malloc_trim` returns
  pub trim : ℕ → S → ℕ × S

-- The size of `filename`.
abbrev pub filename_size : ℕ
filename_size = 100

-- A string up to its first null byte.
abbrev pub c_str : Bytes → Bytes
c_str [] = []
c_str (c ∷ s) = if c == 0 then [] else c ∷ c_str s

abbrev pub pid_file : Bytes → Bytes → Bytes
pid_file temp_dir proc_name = temp_dir ++ codes "/" ++ proc_name ++ codes ".pid"

module _ {S : Type 0} (os : Os S) where
  abbrev lockfile : ℕ → ℕ → S → Bool × S
  lockfile pid fd s = os.set_lock pid fd s

  -- The process keeps the file open, and writes its number to it.
  unfoldable pub locked : ℕ → ℕ → Bool × S → Bool × S
  locked pid fd (false, s) = (false, os.close_file pid fd s)
  locked pid fd (true, s) =
      (true, os.write_file pid fd (print_int (pos pid) ++ 0 ∷ []) (os.truncate pid fd s))

  unfoldable pub opened : ℕ → Option ℕ × S → Bool × S
  unfolding locked
  opened pid (none, s) = (false, s)
  opened pid (some fd, s) = locked pid fd (lockfile pid fd s)

  unfoldable pub proc_is_singleton : ℕ → Bytes → Bytes → S → Option (Bool × S)
  unfolding opened
  proc_is_singleton pid temp_dir proc_name s =
      if leb filename_size (length (pid_file temp_dir proc_name))
      then none
      else some (opened pid (os.open_file pid (pid_file temp_dir proc_name) s))

  -- `temp_dir` is what `getTempDir` gives.
  unfoldable pub program_check_singleton : ℕ → Bytes → Bytes → S → Option (Bool × S)
  unfolding proc_is_singleton
  program_check_singleton pid temp_dir program_name s =
      proc_is_singleton pid (c_str temp_dir) (c_str program_name) s

  -- The signals one after the other, up to the first that fails.
  unfoldable pub set_handlers : ℕ → List Signal → ℕ → S → Bool × S
  set_handlers pid [] cb s = (true, s)
  set_handlers pid (signal ∷ later) cb s =
      let one = os.set_handler pid signal cb s in
      let rest = set_handlers pid later cb one.1 in if one.0 then rest else (false, one.1)

  unfoldable pub program_register_terminate : ℕ → ℕ → S → Bool × S
  unfolding set_handlers
  program_register_terminate pid cb s =
      set_handlers pid (sig_hup ∷ sig_int ∷ sig_quit ∷ sig_term ∷ []) cb s

  unfoldable pub free_unused_memory : ℕ → S → Bool × S
  free_unused_memory pid s = let trimmed = os.trim pid s in (trimmed.0 == 1, trimmed.1)
