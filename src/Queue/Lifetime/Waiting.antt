-- ===== src/Queue/Lifetime/Waiting.antt =====
-- `Queue::waitforQuit` (src/base/queue.cpp) on a queue that runs, or has run, on a thread of the caller.
use mifsa_base.Base.{
  ℕ, ◌*◌, ◌%◌, ◌^◌, ◌<◌, ◌≤◌, Bool, true, false, ◌&&◌, ◌≡◌, ◌⊎◌, inl, inr, refl, ap, ◌∙◌, arith,
  if◌then◌else◌, if_elim, Bool-cases, ℕ-cases, ltb, ltb→lt,
}
use mifsa_base.Base.Int.{ℤ, pos, negsuc}
use mifsa_base.Base.{if_true, if_false}
use mifsa_base.Semaphore
use mifsa_base.Semaphore.{
  Semaphore, Entry, waits, waits_for, acquire, acquire_nano, reset, make_semaphore, as_int64,
  not_positive,
}
use mifsa_base.Queue.{Queue}
use mifsa_base.Queue.Lifetime.{Wait, enters, stops, as_int32, wait_time, wait_for_quit}

reset-count : (s : Semaphore) → (reset 0 s).1.count ≡ pos 0
unfolding reset
reset-count s =
    if_elim (λ (x : Bool × Semaphore). x.1.count ≡ pos 0) (Semaphore.negative s.count) (λ _. refl)
      (λ _. refl)

-- With a count of 0 every time but 0 leads to a wait.
acquire_nano-waits_for :
    (n : ℕ) (s : Semaphore) → s.count ≡ pos 0 → 0 < n → (acquire_nano (pos n) s).0 ≡ waits_for
unfolding acquire_nano
acquire_nano-waits_for n s e lt =
    if_elim (λ (r : Entry × Semaphore). r.0 ≡ waits_for)
      (not_positive s.count && Semaphore.is_zero (pos n)) (λ h. absurd (ground (arith, h, lt)))
      (λ _.
        if_elim (λ (r : Entry × Semaphore). r.0 ≡ waits_for)
          (Semaphore.negative (Semaphore.pred_ℤ s.count)) (λ _. refl) (λ h. absurd cc))

acquire_nano-waits :
    (n : ℕ) (s : Semaphore) → s.count ≡ pos 0 → (acquire_nano (negsuc n) s).0 ≡ waits
unfolding acquire_nano
acquire_nano-waits n s e =
    if_elim (λ (r : Entry × Semaphore). r.0 ≡ waits) (not_positive s.count && false)
      (λ h. absurd (ground (arith, h)))
      (λ _.
        if_elim (λ (r : Entry × Semaphore). r.0 ≡ waits)
          (Semaphore.negative (Semaphore.pred_ℤ s.count)) (λ _. refl) (λ h. absurd cc))

as_int64-small : (n : ℕ) → n < 2 ^ 31 → as_int64 (n * 1000000 % 2 ^ 64) ≡ pos (n * 1000000)
as_int64-small n le =
    let small : n * 1000000 % 2 ^ 64 ≡ n * 1000000 = omega arith in
    let below : ltb (n * 1000000) (2 ^ 63) ≡ true = ground arith in
    ap as_int64 small ∙ if_true _ _ below

acquire-short :
    (n : ℕ) (s : Semaphore)
    → s.count ≡ pos 0
    → 0 < n
    → n < 2 ^ 31
    → (acquire (pos n) s).0 ≡ waits_for
unfolding acquire
acquire-short n s e lt le =
    ap (λ t. (acquire_nano t s).0) (as_int64-small n le)
    ∙ acquire_nano-waits_for (n * 1000000) s e (omega arith)

acquire-long : (s : Semaphore) → s.count ≡ pos 0 → (acquire (negsuc 0) s).0 ≡ waits
unfolding acquire
acquire-long s e = acquire_nano-waits 999999 s e

wait_time-short : (n : ℕ) → 0 < n → n < 2 ^ 31 → wait_time n ≡ pos n
wait_time-short n lt le =
    let fits : ltb n (2 ^ 31) ≡ true = ground arith in
    let is : as_int32 n ≡ pos n = if_true _ _ fits in
    ap (λ t. if not_positive t then negsuc 0 else t) is
    ∙ if_false {b = not_positive (pos n)} _ _ (ground arith)

wait_time-long : (n : ℕ) → (n ≡ 0) ⊎ (2 ^ 31 ≤ n) → wait_time n ≡ negsuc 0
wait_time-long n (inl e) = ap wait_time e
wait_time-long n (inr le) =
    let far : ltb n (2 ^ 31) ≡ false = ground arith in
    ap (λ (t : ℤ). if not_positive t then negsuc 0 else t) (if_false _ _ far)

times : (n : ℕ) → ((0 < n) × (n < 2 ^ 31)) ⊎ ((n ≡ 0) ⊎ (2 ^ 31 ≤ n))
times n = elim (Bool-cases (ltb n (2 ^ 31))) [
  | inl short ↦ elim (ℕ-cases n) [
    | inl is_zero ↦ inr (inl is_zero)
    | inr lt ↦ inl (lt, ltb→lt _ _ short)
  ]
  | inr long ↦ inr (inr (ground (arith, long)))
]

-- `waitforQuit` on a queue without a thread of its own, called from another thread than the queue's, always waits,
-- in whatever state the semaphore is: within a limit for a time from 1 to 2^31 - 1
-- milliseconds, and without one for 0 and for a longer time.
pub wait_for_quit-Waits :
    (milli_s : ℕ) (q : Queue) (s : Semaphore)
    → q.thread ≡ false
    → ((0 < milli_s)
        × (milli_s < 2 ^ 31)
        × ((wait_for_quit false milli_s q s).0 ≡ enters waits_for))
      ⊎ (((milli_s ≡ 0) ⊎ (2 ^ 31 ≤ milli_s))
          × ((wait_for_quit false milli_s q s).0 ≡ enters waits))
unfolding wait_for_quit
wait_for_quit-Waits milli_s q s alone =
    let held = (reset 0 s).1 in
    let empty = reset-count s in
    let entered : (wait_for_quit false milli_s q s).0
        ≡ enters (acquire (wait_time milli_s) held).0 =
      ap (λ (r : Wait × Semaphore). r.0)
        (if_false (stops milli_s, s)
          (enters (acquire (wait_time milli_s) held).0, (acquire (wait_time milli_s) held).1)
          alone) in
    elim (times milli_s) [
      | inl (lt, le) ↦ inl (
        lt,
        le,
        entered
            ∙ ap (λ t. enters (acquire t held).0) (wait_time-short milli_s lt le)
            ∙ ap enters (acquire-short milli_s held empty lt le),
      )
      | inr long ↦ inr (
        long,
        entered
            ∙ ap (λ t. enters (acquire t held).0) (wait_time-long milli_s long)
            ∙ ap enters (acquire-long held empty),
      )
    ]
