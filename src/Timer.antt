-- ===== src/Timer.antt =====
-- src/base/timer.cpp with include/mifsa/base/timer.h, built with TIMER_USE_PRECISION, and the part of
-- `Queue::processNextSleepTime` (src/base/queue.cpp) that looks at one timer. A callback is a number.
pub mod Count
pub mod Sleep
pub mod Pushing
use mifsa_base.Base.{
  ℕ, zero, suc, ◌+◌, ◌-◌, ◌*◌, ◌/◌, ◌%◌, ◌^◌, Bool, true, false, not, List, [], ◌∷◌, ◌++◌, Option,
  none, some, ltb, ◌==◌, if◌then◌else◌,
}
use mifsa_base.Base.Int.{ℤ, pos, negsuc}

abbrev pub Callback : Type 0
Callback = Option ℕ

-- `queue` tells whether `m_queue` is set; `id` stands for the address of the timer.
pub record Timer : Type 0 where
  pub id : ℕ
  pub interval : ℕ
  pub start_timer : ℕ
  pub loop_count : ℕ
  pub loop : Bool
  pub cb : Callback
  pub queue : Bool

abbrev pub u64 : ℕ
u64 = 2 ^ 64

-- TIMER_ERROR_OFFSET
abbrev pub error_offset : ℕ
error_offset = 1000000

-- The constructor.
unfoldable pub make_timer : ℕ → ℕ → Bool → Callback → Timer
make_timer id interval loop cb = record {
  id = id;
  interval = interval;
  start_timer = 0;
  loop_count = 0;
  loop = loop;
  cb = cb;
  queue = false;
}

abbrev or_else : Callback → Callback → Callback
or_else none old = old
or_else (some c) old = some c

-- `start` at the time `now`; the queue is woken up by the caller of the model (`Queue.start_timer`).
unfoldable pub start : ℕ → Callback → Timer → Timer
start now cb t = record t { cb = or_else cb t.cb; start_timer = now; loop_count = 0 }

unfoldable pub stop : Timer → Timer
stop t = record t { start_timer = 0; loop_count = 0 }

unfoldable pub active : Timer → Bool
active t = ltb 0 t.start_timer

unfoldable pub set_interval : ℕ → Timer → Timer
set_interval interval t = record t { interval = interval }

unfoldable pub set_loop : Bool → Timer → Timer
set_loop loop t = record t { loop = loop }

-- In nanoseconds; an interval of zero stands for a tenth of a millisecond.
unfoldable pub interval_time : Timer → ℕ
interval_time t = if t.interval * 1000000 == 0 then 100000 else t.interval * 1000000

-- `currentTime - m_startTimer`, in `uint64_t`.
unfoldable pub elapsed : ℕ → Timer → ℕ
elapsed now t = (now + u64 - t.start_timer) % u64

-- `expactCount`: how often the timer is due by now.
unfoldable pub expect_count : ℕ → Timer → ℕ
expect_count now t = (elapsed now t + error_offset) % u64 / interval_time t

-- The loop that pushes the callback: `rounds` is `expactCount - m_loopCount`.
unfoldable pub push_rounds : ℕ → ℕ → Timer → List Callback → Timer × List Callback
unfolding stop
push_rounds zero c t tasks = (t, tasks)
push_rounds (suc rounds) c t tasks =
    if not t.loop
    then (stop t, tasks ++ some c ∷ [])
    else push_rounds rounds c t (tasks ++ some c ∷ [])

unfoldable pub push_due : Callback → ℕ → Timer → List Callback → Timer × List Callback
push_due none rounds t tasks = (t, tasks)
push_due (some c) rounds t tasks = push_rounds rounds c t tasks

-- `if (timer->active()) m_loopCount = expactCount;`
unfoldable pub settle : ℕ → Timer × List Callback → Timer × List Callback
settle count (t, tasks) = (if active t then record t { loop_count = count } else t, tasks)

-- A timer that is due: the callbacks are pushed, and the count is brought up to date.
unfoldable pub fire : ℕ → Timer → List Callback → Timer × List Callback
fire now t tasks =
    settle (expect_count now t) (push_due t.cb (expect_count now t - t.loop_count) t tasks)

-- `remainTime` of a timer that is not due.
unfoldable pub remain_time : ℕ → Timer → ℕ
remain_time now t = interval_time t - elapsed now t % interval_time t

-- The shorter of two times, where a negative one is none.
unfoldable pub shorter : ℤ → ℕ → ℤ
shorter (negsuc n) remain = pos remain
shorter (pos mini) remain = if ltb remain mini then pos remain else pos mini

pub record Pass : Type 0 where
  pub timer : Timer
  pub tasks : List Callback
  pub mini_time : ℤ

-- The body of the loop over the timers.
unfoldable pub look_at : ℕ → Timer → List Callback → ℤ → Pass
look_at now t tasks mini =
    if not (active t)
    then record { timer = t; tasks = tasks; mini_time = mini }
    else if ltb t.loop_count (expect_count now t)
    then record { timer = (fire now t tasks).0; tasks = (fire now t tasks).1; mini_time = pos 0 }
    else record { timer = t; tasks = tasks; mini_time = shorter mini (remain_time now t) }

pub record Sweep : Type 0 where
  pub timers : List Timer
  pub tasks : List Callback
  pub mini_time : ℤ

-- The loop over the timers.
unfoldable pub look_at_all : ℕ → List Timer → List Callback → ℤ → Sweep
look_at_all now [] tasks mini = record { timers = []; tasks = tasks; mini_time = mini }
look_at_all now (t ∷ ts) tasks mini =
    let one = look_at now t tasks mini in
    let rest = look_at_all now ts one.tasks one.mini_time in
    record { timers = one.timer ∷ rest.timers; tasks = rest.tasks; mini_time = rest.mini_time }

-- `processNextSleepTime`
unfoldable pub next_sleep : ℕ → List Timer → List Callback → Sweep
unfolding look_at_all look_at active expect_count fire settle push_due push_rounds shorter
    remain_time elapsed interval_time
next_sleep now timers tasks = look_at_all now timers tasks (negsuc 0)
