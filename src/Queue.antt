-- ===== src/Queue.antt =====
-- src/base/queue.cpp with include/mifsa/base/queue.h and include/mifsa/base/event.h.
-- A callback is a number, and `call` is what running it does to the queue; `changed` is the virtual
-- `eventChanged`. `none` is `std::terminate` in `post_task` and `post_event`, and out of fuel elsewhere.
-- Locking is left out: each operation is one step, as the event mutex makes it. The loop of `run`, with the
-- semaphore in which it waits, stands in Interleaving. A timer that leaves the list is handed back.
pub mod Posting
pub mod Draining
pub mod Interleaving
pub mod Lifetime
use mifsa_base.Base.{
  ℕ, zero, suc, ◌+◌, Bool, true, false, not, ◌&&◌, ◌||◌, List, [], ◌∷◌, ◌++◌, Option, none, some,
  ltb, ◌==◌, if◌then◌else◌, length,
}
use mifsa_base.Base.Int.{ℤ, pos, negsuc, equal}
use mifsa_base.Timer.{Timer, Callback, make_timer, start, next_sleep, Sweep}

-- `Event::Type` has `UNKNOWN`, which is -1; a type is any number.
pub record Event : Type 0 where
  pub queue_id : ℤ
  pub type : ℤ
  pub cb : Callback
  pub accepted : Bool

abbrev pub unknown : ℤ
unknown = negsuc 0

-- The constructor of an event.
unfoldable pub make_event : ℤ → ℤ → Callback → Event
make_event queue_id type cb = record { queue_id = queue_id; type = type; cb = cb; accepted = false }

unfoldable pub is_negative : ℤ → Bool
is_negative (pos n) = false
is_negative (negsuc n) = true

-- `Event::valid`
unfoldable pub valid : Event → Bool
unfolding is_negative
valid e = not (is_negative e.type)

-- `thread` tells whether `queueThread` is set. A null event is `none`.
pub record Queue : Type 0 where
  pub queue_id : ℤ
  pub is_running : Bool
  pub quit_flag : Bool
  pub is_busy : Bool
  pub quit_code : ℤ
  pub event_queue : List (Option Event)
  pub task_queue : List Callback
  pub timer_list : List Timer
  pub thread : Bool
  pub mini_time : ℤ

-- The constructor.
unfoldable pub make_queue : ℤ → Queue
make_queue queue_id = record {
  queue_id = queue_id;
  is_running = false;
  quit_flag = false;
  is_busy = false;
  quit_code = pos 0;
  event_queue = [];
  task_queue = [];
  timer_list = [];
  thread = false;
  mini_time = pos 0;
}

-- QUEUE_MAX_NUM
abbrev pub queue_max_num : ℕ
queue_max_num = 4096

-- The stop of the queue's thread is left out.
unfoldable pub quit : ℤ → Queue → Queue
quit code q = if q.quit_flag then q else record q { quit_flag = true; quit_code = code }

-- `asyncRun`: the thread that it starts calls `run`.
unfoldable pub async_run : Queue → Queue
async_run q = if q.is_running || q.thread then q else record q { is_running = true; thread = true }

unfoldable pub event_count : Queue → ℕ
event_count q = length q.event_queue

unfoldable pub post_task : Callback → Queue → Option Queue
post_task cb q =
    if ltb queue_max_num (length q.task_queue)
    then none
    else some (record q { task_queue = q.task_queue ++ cb ∷ [] })

unfoldable pub post_event : Event → Queue → Option Queue
unfolding is_negative
post_event e q =
    if is_negative e.queue_id
    then some q
    else if not (equal e.queue_id q.queue_id)
    then some q
    else if ltb queue_max_num (length q.event_queue)
    then none
    else some (record q { event_queue = q.event_queue ++ some e ∷ [] })

unfoldable pub add_timer : Timer → Queue → Queue
add_timer t q = record q { timer_list = q.timer_list ++ (record t { queue = true }) ∷ [] }

-- `list::remove`, and the erasure of the first one.
unfoldable pub remove_all : ℕ → List Timer → List Timer
remove_all id [] = []
remove_all id (t ∷ ts) = if t.id == id then remove_all id ts else t ∷ remove_all id ts

unfoldable pub erase_first : ℕ → List Timer → List Timer
erase_first id [] = []
erase_first id (t ∷ ts) = if t.id == id then ts else t ∷ erase_first id ts

-- `removeTimer` of a shared pointer, and of a plain one: the timer as it is then, and the queue.
unfoldable pub remove_timer : Timer → Queue → Timer × Queue
unfolding remove_all
remove_timer t q =
    (record t { queue = false }, record q { timer_list = remove_all t.id q.timer_list })

unfoldable pub remove_timer_ptr : Timer → Queue → Timer × Queue
unfolding erase_first
remove_timer_ptr t q =
    (record t { queue = false }, record q { timer_list = erase_first t.id q.timer_list })

-- `createTimer`, through `Timer::create`: `id` is the address of the new timer.
unfoldable pub create_timer : ℕ → ℕ → Bool → Callback → Queue → Queue
unfolding add_timer make_timer
create_timer id interval loop cb q = add_timer (make_timer id interval loop cb) q

-- One of the timers of the list.
unfoldable pub update_timer : ℕ → (Timer → Timer) → List Timer → List Timer
update_timer id f [] = []
update_timer id f (t ∷ ts) = if t.id == id then f t ∷ ts else t ∷ update_timer id f ts

-- `Timer::start` of a timer of the queue, with no new callback.
unfoldable pub start_timer : ℕ → ℕ → Queue → Queue
unfolding update_timer start
start_timer now id q = record q { timer_list = update_timer id (start now none) q.timer_list }

-- `onceTimer`: `wrapped` is the number of the callback that it builds, which is `run_once`.
unfoldable pub once_timer : ℕ → ℕ → ℕ → ℕ → Queue → Queue
unfolding create_timer start_timer update_timer
once_timer now id interval wrapped q =
    let created = create_timer id interval false none q in
    let set = record created {
      timer_list = update_timer id (λ t. record t { cb = some wrapped }) created.timer_list;
    } in
    start_timer now id set

-- What `processEvent` has run.
pub data Step : Type 0 where
  ran : ℕ → Step
  handed : Event → Step

abbrev pub Trace : Type 0
Trace = List Step

-- `if (cb) cb();`
unfoldable pub invoke : (ℕ → Queue → Queue) → Callback → Queue × Trace → Queue × Trace
invoke call none s = s
invoke call (some c) (q, trace) = (call c q, trace ++ ran c ∷ [])

-- The first loop of `processEvent`.
unfoldable pub run_tasks :
    (ℕ → Queue → Queue) → ℕ → List Callback → Queue × Trace → Option (Queue × Trace)
unfolding invoke
run_tasks call fuel [] s = some s
run_tasks call zero (cb ∷ later) s = none
run_tasks call (suc fuel) (cb ∷ later) (q, trace) =
    let next = invoke call cb (record q { task_queue = later }, trace) in
    run_tasks call fuel next.0.task_queue next

-- `if (event->type() != Event::UNKNOWN) eventChanged(event);`
unfoldable pub hand : (Event → Queue → Queue) → Event → Queue × Trace → Queue × Trace
hand changed e (q, trace) =
    if equal e.type unknown then (q, trace) else (changed e q, trace ++ handed e ∷ [])

unfoldable pub handle :
    (ℕ → Queue → Queue) → (Event → Queue → Queue) → Option Event → Queue × Trace → Queue × Trace
unfolding hand invoke
handle call changed none s = s
handle call changed (some e) s = invoke call e.cb (hand changed e s)

-- The second loop.
unfoldable pub run_events :
    (ℕ → Queue → Queue)
    → (Event → Queue → Queue)
    → ℕ
    → List (Option Event)
    → Queue × Trace
    → Option (Queue × Trace)
unfolding handle
run_events call changed fuel [] s = some s
run_events call changed zero (e ∷ later) s = none
run_events call changed (suc fuel) (e ∷ later) (q, trace) =
    let next = handle call changed e (record q { event_queue = later }, trace) in
    run_events call changed fuel next.0.event_queue next

abbrev pub map_some :
    Option (Queue × Trace) → (Queue × Trace → Option (Queue × Trace)) → Option (Queue × Trace)
map_some none f = none
map_some (some s) f = f s

abbrev pub idle : Queue × Trace → Option (Queue × Trace)
idle (q, trace) = some (record q { is_busy = false }, trace)

-- `processEvent`, with the fuel for either loop.
unfoldable pub process_event :
    (ℕ → Queue → Queue) → (Event → Queue → Queue) → ℕ → Queue → Trace → Option (Queue × Trace)
unfolding run_tasks run_events
process_event call changed fuel q trace =
    map_some (run_tasks call fuel q.task_queue (record q { is_busy = true }, trace))
      (λ s. map_some (run_events call changed fuel s.0.event_queue s) idle)

-- `processNextSleepTime` at the time `now`.
unfoldable pub process_next_sleep_time : ℕ → Queue → Queue
unfolding next_sleep
process_next_sleep_time now q =
    let sweep = next_sleep now q.timer_list q.task_queue in
    record q { timer_list = sweep.timers; task_queue = sweep.tasks; mini_time = sweep.mini_time }
