-- ===== src/Queue/Interleaving.antt =====
-- `Queue::run` (src/base/queue.cpp) on its thread while others use the queue: each step is what one
-- thread does between two locks of the event mutex, in any order. A callback that uses the queue
-- does it by the steps of the others, which may come at any time.
-- A call of `postTask`, `postEvent` or `quit` changes the queue first and resets the event semaphore
-- later, in steps of their own; so does `Timer::start`. A call that stops the program is no step. That
-- `quit` then stops the thread of `asyncRun`, and the semaphore that `run` resets at its end, are left out.
pub mod Items
pub mod Serving
pub mod Order
pub mod Phases
pub mod Ending
pub mod Waking
use mifsa_base.Base.{
  ℕ, suc, ◌-◌, ◌<◌, Bool, true, false, not, ◌&&◌, List, [], ◌∷◌, ◌++◌, Option, none, some, ◌≡◌,
  ◌==◌, if◌then◌else◌, length, drop,
}
use mifsa_base.Base.Int.{ℤ, pos, negsuc, equal}
use mifsa_base.Timer.{Timer, Callback}
use mifsa_base.Semaphore.{
  Semaphore, make_semaphore, Entry, refused, taken, waits, waits_for, acquire_nano, expire,
  time_out, reset,
}
use mifsa_base.Queue.{
  Queue, Event, Trace, is_negative, post_task, post_event, invoke, handle, process_next_sleep_time,
  add_timer, remove_timer, start_timer,
}

-- Where the thread that runs the queue stands: before `run`, at the test of its loop, at the locks of
-- the two loops of `processEvent`, with what it took there, behind `processEvent`, before
-- `processNextSleepTime` and `acquire_nano`, in its wait with or without a limit, behind a wait whose
-- limit has passed, before it locks the mutex of the semaphore again, and behind the last
-- `processEvent`. The Boolean of the first kind is that this `processEvent` is the last one.
pub data Place : Type 0 where
  entering testing deciding sweeping acquiring expired ending : Place
  in_tasks in_events asleep : Bool → Place
  calling : Callback → Bool → Place
  handing : Option Event → Bool → Place
  turned_away returned : ℤ → Place

-- What `processEvent` takes from the two queues.
pub data Item : Type 0 where
  a_task : Callback → Item
  an_event : Option Event → Item

-- `codes` are the codes of the calls of `quit` that have set the flag and not yet the code, and
-- `resets` the number of calls that have still to reset the semaphore. The rest is a record
-- that the program does not keep: what was posted to each queue, what was taken, what was run, and how much had
-- been posted to each queue when `quit` was called first.
pub record World : Type 0 where
  pub queue : Queue
  pub semaphore : Semaphore
  pub place : Place
  pub codes : List ℤ
  pub resets : ℕ
  pub posted : List Callback
  pub posted_events : List (Option Event)
  pub served : List Item
  pub trace : Trace
  pub asked : ℕ
  pub asked_events : ℕ

unfoldable pub make_world : Queue → World
unfolding make_semaphore
make_world q = record {
  queue = q;
  semaphore = make_semaphore 0;
  place = entering;
  codes = [];
  resets = 0;
  posted = q.task_queue;
  posted_events = q.event_queue;
  served = [];
  trace = [];
  asked = 0;
  asked_events = 0;
}

-- The tests before the loop of `run`.
unfoldable pub enter_run : World → World
enter_run w =
    if w.queue.is_running && not w.queue.thread
    then record w { place = turned_away (negsuc 0) }
    else if w.queue.quit_flag
    then (record w {
      queue = record w.queue { is_running = true };
      place = turned_away w.queue.quit_code;
    })
    else record w { queue = record w.queue { is_running = true }; place = testing }

-- The head of `processEvent`.
unfoldable pub enter_events : Bool → World → World
enter_events last w = record w { queue = record w.queue { is_busy = true }; place = in_tasks last }

-- With the lock, in the first loop and in the second.
unfoldable pub take_task : Bool → List Callback → World → World
take_task last [] w = record w { place = in_events last }
take_task last (cb ∷ later) w = record w {
  queue = record w.queue { task_queue = later };
  place = calling cb last;
  served = w.served ++ a_task cb ∷ [];
}

unfoldable pub take_event : Bool → List (Option Event) → World → World
take_event last [] w = record w {
  queue = record w.queue { is_busy = false };
  place = if last then ending else deciding;
}
take_event last (e ∷ later) w = record w {
  queue = record w.queue { event_queue = later };
  place = handing e last;
  served = w.served ++ an_event e ∷ [];
}

-- The callback of a task, and the body of the second loop; neither changes the queue itself.
unfoldable pub call_task : Callback → Bool → World → World
unfolding invoke
call_task cb last w = record w {
  place = in_tasks last;
  trace = (invoke (λ c q. q) cb (w.queue, w.trace)).1;
}

unfoldable pub hand_event : Option Event → Bool → World → World
unfolding handle
hand_event e last w = record w {
  place = in_events last;
  trace = (handle (λ c q. q) (λ e q. q) e (w.queue, w.trace)).1;
}

-- `processNextSleepTime`, whose timers post their callbacks.
unfoldable pub sweep : ℕ → World → World
unfolding process_next_sleep_time
sweep now w =
    let next = process_next_sleep_time now w.queue in
    record w {
      queue = next;
      place = acquiring;
      posted = w.posted ++ drop (length w.queue.task_queue) next.task_queue;
    }

-- Where `acquire_nano` leaves the thread.
unfoldable pub after_entry : Entry → Place
after_entry refused = testing
after_entry taken = testing
after_entry waits = asleep false
after_entry waits_for = asleep true

unfoldable pub acquire_event : World → World
unfolding acquire_nano after_entry
acquire_event w =
    let entry = acquire_nano w.queue.mini_time w.semaphore in
    record w { semaphore = entry.1; place = after_entry entry.0 }

-- A step of the thread that runs the queue, at the time `now`. A thread that waits goes on when it
-- was notified.
unfoldable pub runner_step : ℕ → Place → World → World
unfolding enter_run enter_events take_task take_event call_task hand_event sweep acquire_event
    time_out
runner_step now entering w = enter_run w
runner_step now testing w = enter_events w.queue.quit_flag w
runner_step now (in_tasks last) w = take_task last w.queue.task_queue w
runner_step now (calling cb last) w = call_task cb last w
runner_step now (in_events last) w = take_event last w.queue.event_queue w
runner_step now (handing e last) w = hand_event e last w
runner_step now deciding w =
    if w.queue.quit_flag then enter_events true w else record w { place = sweeping }
runner_step now sweeping w = sweep now w
runner_step now acquiring w = acquire_event w
runner_step now (asleep limited) w =
    if w.semaphore.waiting == 0 then record w { place = testing } else w
runner_step now expired w = record w { semaphore = time_out w.semaphore; place = testing }
runner_step now ending w = record w {
  queue = record w.queue { is_running = false };
  place = returned w.queue.quit_code;
}
runner_step now (turned_away code) w = w
runner_step now (returned code) w = w

-- The end of a wait, by time and without a reason.
unfoldable pub wait_out : World → World
unfolding expire
wait_out w = record w { semaphore = expire w.semaphore; place = expired }

unfoldable pub wake_up : World → World
wake_up w = record w {
  semaphore = record w.semaphore { waiting = w.semaphore.waiting - 1 };
  place = testing;
}

-- The steps of the others: they post, ...
unfoldable pub task_posted : Callback → Queue → World → World
task_posted cb q w = record w { queue = q; resets = suc w.resets; posted = w.posted ++ cb ∷ [] }

unfoldable pub event_posted : Event → Queue → World → World
event_posted e q w = record w {
  queue = q;
  resets = suc w.resets;
  posted_events = w.posted_events ++ some e ∷ [];
}

-- ... call `quit`, which sets the flag (each thread may have tested it before that) and then the code, ...
unfoldable pub set_flag : ℤ → World → World
set_flag code w = record w {
  queue = record w.queue { quit_flag = true };
  codes = code ∷ w.codes;
  asked = if w.queue.quit_flag then w.asked else length w.posted;
  asked_events = if w.queue.quit_flag then w.asked_events else length w.posted_events;
}

unfoldable pub set_code : ℤ → List ℤ → World → World
set_code code others w = record w {
  queue = record w.queue { quit_code = code };
  codes = others;
  resets = suc w.resets;
}

-- ... start a timer, ...
unfoldable pub timer_started : ℕ → ℕ → World → World
unfolding start_timer
timer_started now id w = record w { queue = start_timer now id w.queue; resets = suc w.resets }

-- ... and reset the semaphore, where `count` is the default of `reset`.
unfoldable pub reset_event : ℕ → World → World
unfolding reset
reset_event others w = record w { semaphore = (reset 0 w.semaphore).1; resets = others }

pub data Step (w : World) : World → Type 0 where
  running : (now : ℕ) → Step w (runner_step now w.place w)
  timing_out : w.place ≡ asleep true → 0 < w.semaphore.waiting → Step w (wait_out w)
  spurious :
      (limited : Bool) → w.place ≡ asleep limited → 0 < w.semaphore.waiting → Step w (wake_up w)
  posting_task :
      (cb : Callback) (q : Queue) → post_task cb w.queue ≡ some q → Step w (task_posted cb q w)
  posting_event :
      (e : Event) (q : Queue)
      → is_negative e.queue_id ≡ false
      → equal e.queue_id w.queue.queue_id ≡ true
      → post_event e w.queue ≡ some q
      → Step w (event_posted e q w)
  setting_flag : (code : ℤ) → Step w (set_flag code w)
  setting_code :
      (before after : List ℤ) (code : ℤ)
      → w.codes ≡ before ++ code ∷ after
      → Step w (set_code code (before ++ after) w)
  adding_timer : (t : Timer) → Step w (record w { queue = add_timer t w.queue })
  removing_timer : (t : Timer) → Step w (record w { queue = (remove_timer t w.queue).1 })
  starting_timer : (now id : ℕ) → Step w (timer_started now id w)
  resetting : (others : ℕ) → w.resets ≡ suc others → Step w (reset_event others w)

pub data Reach (q : Queue) : World → Type 0 where
  start : Reach q (make_world q)
  later : {v w : World} → Reach q v → Step v w → Reach q w
