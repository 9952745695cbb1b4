-- ===== src/Semaphore/Steps.antt =====
-- What holds of a semaphore (src/base/semaphore.cpp) after any sequence of calls, and what time limits break.
use mifsa_base.Base.{ℕ, suc, ◌≤◌, ◌<◌, true, false, ◌≡◌, refl, arith, if_elim, ◌&&◌}
use mifsa_base.Base.Int.{ℤ, neg_part}
use mifsa_base.Semaphore.{
  Semaphore, Step, acquiring, expiring, timing_out, releasing, resetting, spurious, stay, more, Run,
  acquire_nano, time_out, release, reset, make_semaphore, not_positive, is_zero, Entry,
}

-- No more threads wait than the count is below zero, and none has run into a limit.
abbrev pub IsBalanced : Semaphore → Type 0
IsBalanced s = (s.waiting ≤ neg_part s.count) × (s.expired ≡ 0)

acquire_nano-IsBalanced :
    (nano_s : ℤ) (s : Semaphore) → IsBalanced s → IsBalanced (acquire_nano nano_s s).1
unfolding acquire_nano
acquire_nano-IsBalanced nano_s s b =
    if_elim (λ (r : Entry × Semaphore). IsBalanced r.1) (not_positive s.count && is_zero nano_s)
      (λ _. b) (λ _. ground arith)

Step-IsBalanced : (s t : Semaphore) → Step false s t → IsBalanced s → IsBalanced t
unfolding time_out release reset
Step-IsBalanced _ _ (acquiring nano_s s) b = acquire_nano-IsBalanced nano_s s b
Step-IsBalanced _ _ (expiring limited s some_wait) b = absurd cc
Step-IsBalanced _ _ (timing_out s some_expired) b = absurd (omega (arith, b.1))
Step-IsBalanced _ _ (releasing s) b = (ground arith, ground arith)
Step-IsBalanced _ _ (resetting count s) b = (ground arith, ground arith)
Step-IsBalanced _ _ (spurious s some_wait) b = ground arith

Run-IsBalanced : (s t : Semaphore) → Run false s t → IsBalanced s → IsBalanced t
Run-IsBalanced s t stay b = b
Run-IsBalanced s t (more {t = u} before last) b =
    Step-IsBalanced u t last (Run-IsBalanced s u before b)

-- Where no wait has a limit: after any sequence of calls and spurious ends of waits from a new semaphore, no
-- waiting thread is overlooked: while one waits, `release` finds the count below zero and lets one go on, and
-- `reset` lets all go on.
pub release-Run :
    (count new_count : ℕ) (s : Semaphore)
    → Run false (make_semaphore count) s
    → 0 < s.waiting
    → ((release s).0 ≡ true)
      × (suc (release s).1.waiting ≡ s.waiting)
      × ((reset new_count s).0 ≡ true)
      × ((reset new_count s).1.waiting ≡ 0)
unfolding release reset make_semaphore
release-Run count new_count s steps some_wait =
    let b = Run-IsBalanced (make_semaphore count) s steps (omega arith, refl) in
    (ground arith, ground arith, ground arith, ground arith)
