-- ===== src/Tests/Processes.antt =====
-- Processes of a system with locks on files and handlers of signals.
use mifsa_base.Base.{
  ℕ, Bool, true, false, List, [], ◌∷◌, Option, some, none, ◌≡◌, ◌≢◌, refl, arith, Bytes, codes,
  equal, equal_refl, equal_iff, ◌==◌, if◌then◌else◌, if_elim, ap, ◌∙◌, subst,
}
use mifsa_base.System.{
  Os, Signal, sig_hup, sig_int, sig_quit, sig_term, program_check_singleton,
  program_register_terminate, pid_file, c_str,
}
use mifsa_base.System.Locking.{Locks, nothing, checked, check-excludes}
use mifsa_base.System.Signals.{Handlers, Outcome, register-Outcome}

-- The file opened last, the locks, and the handlers of the four signals; SIGTERM cannot be handled.
record Machine : Type 0 where
  last : Bytes
  locks : List (Bytes × ℕ)
  hup : Option ℕ
  int : Option ℕ
  quit : Option ℕ

abbrev owner_in : Bytes → List (Bytes × ℕ) → Option ℕ
owner_in path [] = none
owner_in path ((file, pid) ∷ locks) = if equal file path then some pid else owner_in path locks

-- A free file is locked, and a locked one is refused to others.
abbrev lock_for : ℕ → Option ℕ → Machine → Bool × Machine
lock_for pid none m = (true, record m { locks = (m.last, pid) ∷ m.locks })
lock_for pid (some other) m = (other == pid, m)

abbrev answer : Signal → ℕ → Machine → Bool × Machine
answer sig_hup cb m = (true, record m { hup = some cb })
answer sig_int cb m = (true, record m { int = some cb })
answer sig_quit cb m = (true, record m { quit = some cb })
answer sig_term cb m = (false, m)

abbrev machine_os : Os Machine
machine_os = record {
  open_file = λ pid path m. (some 3, record m { last = path });
  set_lock = λ pid fd m. lock_for pid (owner_in m.last m.locks) m;
  close_file = λ pid fd m. m;
  truncate = λ pid fd m. m;
  write_file = λ pid fd text m. m;
  set_handler = λ pid signal cb m. answer signal cb m;
  trim = λ pid m. (1, m);
}

lock_for-owner :
    (pid : ℕ) (o : Option ℕ) (m : Machine)
    → owner_in m.last m.locks ≡ o
    → (lock_for pid o m).0 ≡ true
    → owner_in m.last (lock_for pid o m).1.locks ≡ some pid
lock_for-owner pid none m e given =
    ap (λ b. if b then some pid else owner_in m.last m.locks) (equal_refl m.last)
lock_for-owner pid (some other) m e given =
    let same : other ≡ pid = ground arith in e ∙ ap (λ x. some x) same

lock_for-keeps :
    (pid other : ℕ) (path : Bytes) (o : Option ℕ) (m : Machine)
    → owner_in m.last m.locks ≡ o
    → owner_in path m.locks ≡ some other
    → owner_in path (lock_for pid o m).1.locks ≡ some other
lock_for-keeps pid other path none m e at =
    if_elim (λ x. x ≡ some other) (equal m.last path) (λ is. absurd (cc (e, at, same_owner is)))
      (λ _. at)
  where
    same_owner : equal m.last path ≡ true → owner_in m.last m.locks ≡ owner_in path m.locks
    same_owner is = ap (λ x. owner_in x m.locks) ((equal_iff m.last path).0 is)
lock_for-keeps pid other path (some p) m e at = at

lock_for-refused :
    (pid other : ℕ) (path : Bytes) (m : Machine)
    → some m.last ≡ some path
    → owner_in path m.locks ≡ some other
    → other ≢ pid
    → (lock_for pid (owner_in m.last m.locks) m).0 ≡ false
lock_for-refused pid other path m at taken ne =
    let same : m.last ≡ path = cc in
    ap (λ o. (lock_for pid o m).0) (ap (λ x. owner_in x m.locks) same ∙ taken) ∙ ground (arith, ne)

set_lock-owner :
    (pid : ℕ) (path : Bytes) (m : Machine)
    → some m.last ≡ some path
    → (lock_for pid (owner_in m.last m.locks) m).0 ≡ true
    → owner_in path (lock_for pid (owner_in m.last m.locks) m).1.locks ≡ some pid
set_lock-owner pid path m at given =
    let same : m.last ≡ path = cc in
    subst (λ x. owner_in x (lock_for pid (owner_in m.last m.locks) m).1.locks ≡ some pid) same
      (lock_for-owner pid (owner_in m.last m.locks) m refl given)

abbrev machine_locks : Locks machine_os
machine_locks = record {
  owner = λ path m. owner_in path m.locks;
  path_of = λ pid fd m. some m.last;
  open_file_path = λ pid fd path m e. refl;
  set_lock_owner = λ pid fd path m at given. set_lock-owner pid path m at given;
  set_lock_refused =
      λ pid fd other path m at taken ne. lock_for-refused pid other path m at taken ne;
  open_file_keeps = λ pid other path file m e. e;
  set_lock_keeps =
      λ pid fd other path m e ne. lock_for-keeps pid other path (owner_in m.last m.locks) m refl e;
  close_file_keeps = λ pid fd other path m e ne. e;
  truncate_keeps = λ pid fd other path m e. e;
  write_file_keeps = λ pid fd other path text m e. e;
}

abbrev idle_machine : Machine
idle_machine = record { last = []; locks = []; hup = none; int = none; quit = none }

abbrev temp : Bytes
temp = codes "/tmp"

-- Process 5 has the lock of `a`, and process 6 that of `b`.
abbrev with_one : Machine
with_one = record idle_machine { last = codes "/tmp/a.pid"; locks = (codes "/tmp/a.pid", 5) ∷ [] }

abbrev with_two : Machine
with_two = record with_one {
  last = codes "/tmp/b.pid";
  locks = (codes "/tmp/b.pid", 6) ∷ (codes "/tmp/a.pid", 5) ∷ [];
}

first_check :
    program_check_singleton machine_os 5 temp (codes "a") idle_machine ≡ some (true, with_one)
unfolding program_check_singleton equal
first_check = refl

second_check :
    program_check_singleton machine_os 6 temp (codes "b") with_one ≡ some (true, with_two)
unfolding program_check_singleton equal
second_check = refl

check-excludes_example :
    (v : Machine) × (program_check_singleton machine_os 7 temp (codes "a") with_two
      ≡ some (false, v))
    × (owner_in (pid_file (c_str temp) (c_str (codes "a"))) v.locks ≡ some 5)
check-excludes_example =
    check-excludes machine_locks 5 7 temp (codes "a") (6 ∷ []) idle_machine with_one with_two
      first_check (checked 6 (codes "b") true second_check nothing)
      ((λ e. absurd (omega (arith, e))), tt) (λ e. absurd (omega (arith, e)))

abbrev handler_in : Signal → Machine → Option ℕ
handler_in sig_hup m = m.hup
handler_in sig_int m = m.int
handler_in sig_quit m = m.quit
handler_in sig_term m = none

answer-sets :
    (signal : Signal) (cb : ℕ) (m : Machine)
    → (answer signal cb m).0 ≡ true
    → handler_in signal (answer signal cb m).1 ≡ some cb
answer-sets sig_hup cb m e = refl
answer-sets sig_int cb m e = refl
answer-sets sig_quit cb m e = refl
answer-sets sig_term cb m e = absurd cc

answer-fails :
    (signal : Signal) (cb : ℕ) (m : Machine)
    → (answer signal cb m).0 ≡ false
    → handler_in signal (answer signal cb m).1 ≡ handler_in signal m
answer-fails sig_hup cb m e = absurd cc
answer-fails sig_int cb m e = absurd cc
answer-fails sig_quit cb m e = absurd cc
answer-fails sig_term cb m e = refl

answer-leaves :
    (signal other : Signal) (cb : ℕ) (m : Machine)
    → other ≢ signal
    → handler_in other (answer signal cb m).1 ≡ handler_in other m
answer-leaves sig_hup sig_hup cb m ne = absurd (ne refl)
answer-leaves sig_hup sig_int cb m ne = refl
answer-leaves sig_hup sig_quit cb m ne = refl
answer-leaves sig_hup sig_term cb m ne = refl
answer-leaves sig_int sig_hup cb m ne = refl
answer-leaves sig_int sig_int cb m ne = absurd (ne refl)
answer-leaves sig_int sig_quit cb m ne = refl
answer-leaves sig_int sig_term cb m ne = refl
answer-leaves sig_quit sig_hup cb m ne = refl
answer-leaves sig_quit sig_int cb m ne = refl
answer-leaves sig_quit sig_quit cb m ne = absurd (ne refl)
answer-leaves sig_quit sig_term cb m ne = refl
answer-leaves sig_term other cb m ne = refl

abbrev machine_handlers : Handlers machine_os
machine_handlers = record {
  handler = λ pid signal m. handler_in signal m;
  sets = λ pid signal cb m e. answer-sets signal cb m e;
  fails = λ pid signal cb m e. answer-fails signal cb m e;
  leaves = λ pid signal other cb m ne. answer-leaves signal other cb m ne;
}

register-Outcome_example :
    Outcome machine_handlers 5 9
      (sig_hup ∷ sig_int ∷ sig_quit ∷ sig_term ∷ [])
      idle_machine
      (program_register_terminate machine_os 5 9 idle_machine)
register-Outcome_example = register-Outcome machine_handlers 5 9 idle_machine
