-- ===== src/Queue/Lifetime.antt =====
-- The end of a queue and of a timer: `waitforQuit`, the destructors, and what a queue tells of itself
-- (src/base/queue.cpp, src/base/timer.cpp). The semaphores of the queue are arguments.
pub mod Waiting
use mifsa_base.Base.{
  ℕ, ◌-◌, ◌^◌, Bool, true, false, List, [], ◌∷◌, Option, none, some, ltb, if◌then◌else◌,
}
use mifsa_base.Base.Int.{ℤ, pos, negsuc}
use mifsa_base.Timer.{Timer, Callback, stop}
use mifsa_base.Semaphore.{Semaphore, Entry, acquire, reset, not_positive}
use mifsa_base.Queue.{Queue, remove_timer_ptr, create_timer, once_timer}

-- What `waitforQuit` does: nothing on the queue's own thread; it stops the thread of `asyncRun`, within a
-- time; or it enters the semaphore that `run` resets at its end.
pub data Wait : Type 0 where
  own_thread : Wait
  stops : ℕ → Wait
  enters : Entry → Wait

-- A `uint32_t` as an `int32_t`, where what is not positive is -1.
abbrev pub as_int32 : ℕ → ℤ
as_int32 n = if ltb n (2 ^ 31) then pos n else negsuc (2 ^ 32 - n - 1)

abbrev pub wait_time : ℕ → ℤ
wait_time n = if not_positive (as_int32 n) then negsuc 0 else as_int32 n

unfoldable pub wait_for_quit : Bool → ℕ → Queue → Semaphore → Wait × Semaphore
unfolding acquire reset
wait_for_quit own milli_s q quit_semaphore =
    if own
    then (own_thread, quit_semaphore)
    else if q.thread
    then (stops milli_s, quit_semaphore)
    else (let entry = acquire (wait_time milli_s) (reset 0 quit_semaphore).1 in
        (enters entry.0, entry.1))

-- The end of `run`.
unfoldable pub end_run : Queue → Semaphore → Queue × Semaphore
unfolding reset
end_run q quit_semaphore = (record q { is_running = false }, (reset 0 quit_semaphore).1)

unfoldable pub detach_all : List Timer → List Timer
detach_all [] = []
detach_all (t ∷ ts) = record t { queue = false } ∷ detach_all ts

-- The destructor of a queue: what it leaves of its queue, its event semaphore and its other one.
unfoldable pub destroy : Queue → Semaphore → Semaphore → Queue × Semaphore × Semaphore
unfolding detach_all reset
destroy q event_semaphore quit_semaphore = (
  record q { event_queue = []; timer_list = detach_all q.timer_list },
  (reset 0 event_semaphore).1,
  (reset 0 quit_semaphore).1,
)

-- The destructor of a timer, and what it does to the queue that the timer has.
unfoldable pub destroy_timer : Timer → Queue → Timer × Queue
unfolding stop remove_timer_ptr
destroy_timer t q =
    let cleared = stop (record t { cb = none }) in
    if t.queue then remove_timer_ptr cleared q else (cleared, q)

unfoldable pub is_running : Queue → Bool
is_running q = q.is_running

unfoldable pub is_ready_to_quit : Queue → Bool
is_ready_to_quit q = q.quit_flag

unfoldable pub is_run_async : Queue → Bool
is_run_async q = q.thread

-- `Timer::create` and `Timer::once`: without a queue the critical message ends them with an exception.
unfoldable pub timer_create : ℕ → Option Queue → ℕ → Bool → Callback → Option Queue
unfolding create_timer
timer_create id none interval loop cb = none
timer_create id (some q) interval loop cb = some (create_timer id interval loop cb q)

unfoldable pub timer_once : ℕ → ℕ → Option Queue → ℕ → ℕ → Option Queue
unfolding once_timer
timer_once now id none interval wrapped = none
timer_once now id (some q) interval wrapped = some (once_timer now id interval wrapped q)

-- The common mutex: none, or whether it is locked; the result of `lock` is `none` where it blocks.
unfoldable pub lock : Option Bool → Option (Option Bool)
lock none = some none
lock (some false) = some (some true)
lock (some true) = none

unfoldable pub unlock : Option Bool → Option Bool
unlock none = none
unlock (some locked) = some false
