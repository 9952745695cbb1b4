-- ===== src/Timer/Sleep.antt =====
-- How long the queue of src/base/queue.cpp sleeps: `miniTime` of `Queue::processNextSleepTime`.
use native.Mathlib.Nat.{div-add-mod'}
use mifsa_base.Base.{
  ℕ, ◌+◌, ◌-◌, ◌*◌, ◌/◌, ◌%◌, ◌<◌, ◌≤◌, ap, sym, ◌∙◌, true, not, List, [], ◌∷◌, ◌++◌, ◌≡◌, refl,
  arith, ltb, if◌then◌else◌, if_elim, Bool-cases, inl, inr,
}
use mifsa_base.Base.Int.{ℤ, pos, negsuc}
use mifsa_base.Timer.{
  Timer, Pass, Callback, active, expect_count, remain_time, shorter, look_at, look_at_all,
  next_sleep, elapsed, interval_time, u64,
}

-- The time is some, and no longer than `limit`.
abbrev pub AtMost : ℕ → ℤ → Type 0
AtMost limit mini = (k : ℕ) × (mini ≡ pos k) × (k ≤ limit)

-- How long the queue may sleep for a timer: no time if it is due.
abbrev pub limit : ℕ → Timer → ℕ
limit now t = if ltb t.loop_count (expect_count now t) then 0 else remain_time now t

shorter-AtMost : (mini : ℤ) (remain : ℕ) → AtMost remain (shorter mini remain)
unfolding shorter
shorter-AtMost (negsuc n) remain = (remain, refl, omega arith)
shorter-AtMost (pos mini) remain =
    if_elim (AtMost remain) (ltb remain mini) (λ _. (remain, refl, omega arith))
      (λ e. (mini, refl, ground arith))

shorter-keeps : (x : ℕ) (mini : ℤ) (remain : ℕ) → AtMost x mini → AtMost x (shorter mini remain)
unfolding shorter
shorter-keeps x (negsuc n) remain (k, e, le) = cc
shorter-keeps x (pos mini) remain (k, e, le) =
    let same : mini ≡ k = cc in
    if_elim (AtMost x) (ltb remain mini) (λ less. (remain, refl, ground arith))
      (λ _. (mini, refl, omega arith))

look_at-keeps :
    (x now : ℕ) (t : Timer) (tasks : List Callback) (mini : ℤ)
    → AtMost x mini
    → AtMost x (look_at now t tasks mini).mini_time
unfolding look_at
look_at-keeps x now t tasks mini h =
    if_elim (λ (p : Pass). AtMost x p.mini_time) (not (active t)) (λ _. h)
      (λ _.
        if_elim (λ (p : Pass). AtMost x p.mini_time) (ltb t.loop_count (expect_count now t))
          (λ _. (0, refl, omega arith)) (λ _. shorter-keeps x mini (remain_time now t) h))

look_at-limit :
    (now : ℕ) (t : Timer) (tasks : List Callback) (mini : ℤ)
    → active t ≡ true
    → AtMost (limit now t) (look_at now t tasks mini).mini_time
unfolding look_at
look_at-limit now t tasks mini on = elim (Bool-cases (ltb t.loop_count (expect_count now t))) [
  | inl due ↦ rw (on, due) (0, refl, omega arith)
  | inr not_due ↦ rw (on, not_due) (shorter-AtMost mini (remain_time now t))
]

look_at_all-keeps :
    (x now : ℕ) (ts : List Timer) (tasks : List Callback) (mini : ℤ)
    → AtMost x mini
    → AtMost x (look_at_all now ts tasks mini).mini_time
unfolding look_at_all
look_at_all-keeps x now [] tasks mini h = h
look_at_all-keeps x now (t ∷ ts) tasks mini h =
    let one = look_at now t tasks mini in
    look_at_all-keeps x now ts one.tasks one.mini_time (look_at-keeps x now t tasks mini h)

look_at_all-limit :
    (now : ℕ) (before : List Timer) (t : Timer) (after : List Timer) (tasks : List Callback)
    (mini : ℤ)
    → active t ≡ true
    → AtMost (limit now t) (look_at_all now (before ++ t ∷ after) tasks mini).mini_time
unfolding look_at_all
look_at_all-limit now [] t after tasks mini on =
    let one = look_at now t tasks mini in
    look_at_all-keeps (limit now t) now after one.tasks one.mini_time
      (look_at-limit now t tasks mini on)
look_at_all-limit now (u ∷ before) t after tasks mini on =
    let one = look_at now u tasks mini in
    look_at_all-limit now before t after one.tasks one.mini_time on

-- From a time to the next multiple of an interval, and to any multiple ahead.
next_multiple-le : (e k n : ℕ) → 0 < n → e < k * n → n - e % n ≤ k * n - e
next_multiple-le e k n some_time ahead =
    let parts : e ≡ e / n * n + e % n = sym (div-add-mod' e n) in
    let fewer : e / n < k = grind (arith, parts) in
    let next : e / n * n + n ≤ k * n = grind (arith, fewer) in omega (arith, parts, next)

interval_time-ms : (t : Timer) → 0 < t.interval → interval_time t ≡ t.interval * 1000000
unfolding interval_time
interval_time-ms t some_time = ground arith

elapsed-exact :
    (now : ℕ) (t : Timer) → t.start_timer ≤ now → now < u64 → elapsed now t ≡ now - t.start_timer
unfolding elapsed
elapsed-exact now t started fits = omega arith

-- Before a multiple of its interval, what remains is at most the time up to it.
remain_time-le :
    (now k : ℕ) (t : Timer)
    → t.start_timer ≤ now
    → now < u64
    → 0 < t.interval
    → now < t.start_timer + k * (t.interval * 1000000)
    → remain_time now t ≤ t.start_timer + k * (t.interval * 1000000) - now
unfolding remain_time
remain_time-le now k t started fits some_time ahead =
    let n = t.interval * 1000000 in
    let e = now - t.start_timer in
    let same : remain_time now t ≡ n - e % n =
      ap (λ x. x - elapsed now t % x) (interval_time-ms t some_time)
      ∙ ap (λ x. n - x % n) (elapsed-exact now t started fits) in
    omega (arith, same, next_multiple-le e k n (omega arith) (omega arith))

limit-le :
    (now k : ℕ) (t : Timer)
    → t.start_timer ≤ now
    → now < u64
    → 0 < t.interval
    → now < t.start_timer + k * (t.interval * 1000000)
    → limit now t ≤ t.start_timer + k * (t.interval * 1000000) - now
limit-le now k t started fits some_time ahead =
    if_elim (λ x. x ≤ t.start_timer + k * (t.interval * 1000000) - now)
      (ltb t.loop_count (expect_count now t)) (λ _. omega arith)
      (λ _. remain_time-le now k t started fits some_time ahead)

AtMost-weaken : (x y : ℕ) (mini : ℤ) → x ≤ y → AtMost x mini → AtMost y mini
AtMost-weaken x y mini le (n, e, h) = (n, e, omega arith)

-- The queue never sleeps past an active timer in its list: the sleep time is not without limit, and it ends at the
-- latest when the time since the timer's start reaches a multiple of its interval, for each multiple that
-- lies ahead of `now`; for a timer started no later than `now` and with an interval of a millisecond or more.
pub next_sleep-limit :
    (now k : ℕ) (before : List Timer) (t : Timer) (after : List Timer) (tasks : List Callback)
    → active t ≡ true
    → t.start_timer ≤ now
    → now < u64
    → 0 < t.interval
    → now < t.start_timer + k * (t.interval * 1000000)
    → AtMost
        (t.start_timer + k * (t.interval * 1000000) - now)
        (next_sleep now (before ++ t ∷ after) tasks).mini_time
unfolding next_sleep
next_sleep-limit now k before t after tasks on started fits some_time ahead =
    AtMost-weaken (limit now t) _ _ (limit-le now k t started fits some_time ahead)
      (look_at_all-limit now before t after tasks (negsuc 0) on)
