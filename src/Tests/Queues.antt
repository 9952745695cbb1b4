-- ===== src/Tests/Queues.antt =====
-- The event queue and the semaphore.
use mifsa_base.Timer.{Timer, active}
use mifsa_base.Base.{suc}
use mifsa_base.Base.Int.{negsuc}
use mifsa_base.Base.{ℕ, some, none, [], ◌∷◌, ◌++◌, true, false, ◌≡◌, refl, arith, ◌⊎◌, ◌<◌, length}
use mifsa_base.Base.Int.{pos, equal}
use mifsa_base.Queue.{
  Queue, Event, queue_max_num, post_event, process_event, is_negative, create_timer, remove_timer,
  remove_timer_ptr,
}
use mifsa_base.Base.{◌^◌, ◌≤◌}
use mifsa_base.Queue.Lifetime.{enters, wait_for_quit}
use mifsa_base.Queue.Lifetime.Waiting.{wait_for_quit-Waits}
use mifsa_base.Semaphore.{
  waits, waits_for, Semaphore, Run, more, stay, acquiring, make_semaphore, acquire_nano, release,
  reset,
}
use mifsa_base.Semaphore.Steps.{release-Run}
use mifsa_base.Queue.Posting.{
  IsBounded, post_event-IsBounded, remove_timer-IsDistinct, remove_timer-create_timer, Fresh,
  IsDistinct,
}
use mifsa_base.Queue.Draining.{process_event-Drains, task_steps, event_steps}

abbrev plain : Event
plain = record { queue_id = pos 3; type = pos 0; cb = some 9; accepted = false }

-- A queue with two tasks, the second of them empty, and an event.
abbrev busy : Queue
busy = record {
  queue_id = pos 3;
  is_running = true;
  quit_flag = false;
  is_busy = false;
  quit_code = pos 0;
  event_queue = some plain ∷ [];
  task_queue = some 5 ∷ none ∷ [];
  timer_list = [];
  thread = false;
  mini_time = pos 0;
}

post_event-IsBounded_example :
    (((is_negative plain.queue_id ≡ true) ⊎ (equal plain.queue_id busy.queue_id ≡ false))
      × (post_event plain busy ≡ some busy))
    ⊎ ((is_negative plain.queue_id ≡ false)
        × (equal plain.queue_id busy.queue_id ≡ true)
        × (((queue_max_num < length busy.event_queue) × (post_event plain busy ≡ none))
            ⊎ ((q' : Queue) × (post_event plain busy ≡ some q')
                × (q'.event_queue ≡ busy.event_queue ++ some plain ∷ [])
                × (q'.task_queue ≡ busy.task_queue)
                × IsBounded q')))
post_event-IsBounded_example = post_event-IsBounded plain busy (omega arith, omega arith)

-- A callback that asks the queue to quit.
abbrev quits : ℕ → Queue → Queue
quits c q = record q { quit_flag = true; quit_code = pos c }

process_event-Drains_example :
    (q' : Queue) × (process_event quits (λ e q. q) 2 busy []
      ≡ some (q', [] ++ task_steps busy.task_queue ++ event_steps busy.event_queue))
    × (q'.task_queue ≡ [])
    × (q'.event_queue ≡ [])
    × (q'.is_busy ≡ false)
process_event-Drains_example =
    process_event-Drains quits (λ e q. q) 2 busy [] (λ c q. (refl, refl)) (λ e q. (refl, refl))
      (omega arith) (omega arith)

abbrev timers : Queue
timers = record busy {
  timer_list =
      record {
        id = 1;
        interval = 10;
        start_timer = 0;
        loop_count = 0;
        loop = true;
        cb = some 7;
        queue = true;
      }
      ∷ record {
        id = 2;
        interval = 20;
        start_timer = 0;
        loop_count = 0;
        loop = true;
        cb = none;
        queue = true;
      }
      ∷ [];
}

abbrev second : Timer
second = record {
  id = 2;
  interval = 20;
  start_timer = 0;
  loop_count = 0;
  loop = true;
  cb = none;
  queue = true;
}

remove_timer-IsDistinct_example :
    (remove_timer_ptr second timers ≡ remove_timer second timers)
    × ((remove_timer second timers).0.queue ≡ false)
    × Fresh 2 (remove_timer second timers).1.timer_list
    × IsDistinct (remove_timer second timers).1.timer_list
remove_timer-IsDistinct_example =
    remove_timer-IsDistinct second timers ((λ e. omega (arith, e), tt), (tt, tt))

remove_timer-create_timer_example :
    (t : Timer) × ((create_timer 3 15 false (some 4) timers).timer_list
      ≡ timers.timer_list ++ t ∷ [])
    × (t.id ≡ 3)
    × (t.interval ≡ 15)
    × (t.loop ≡ false)
    × (t.cb ≡ some 4)
    × (t.queue ≡ true)
    × (active t ≡ false)
    × (remove_timer t (create_timer 3 15 false (some 4) timers)
        ≡ (record t { queue = false }, timers))
remove_timer-create_timer_example =
    remove_timer-create_timer 3 15 false (some 4) timers
      ((λ e. omega (arith, e)), ((λ e. omega (arith, e)), tt))

-- One thread waits without a limit.
abbrev blocked : Semaphore
blocked = record { count = negsuc 0; waiting = 1; expired = 0 }

blocked-Run : Run false (make_semaphore 0) blocked
unfolding make_semaphore acquire_nano
blocked-Run = more stay (acquiring (negsuc 0) (make_semaphore 0))

release-Run_example :
    ((release blocked).0 ≡ true)
    × (suc (release blocked).1.waiting ≡ blocked.waiting)
    × ((reset 0 blocked).0 ≡ true)
    × ((reset 0 blocked).1.waiting ≡ 0)
release-Run_example = release-Run 0 0 blocked blocked-Run (omega arith)

-- A wait of 3 milliseconds, on a semaphore with a count of 2.
wait_for_quit-Waits_example :
    ((0 < 3)
      × (3 < 2 ^ 31)
      × ((wait_for_quit false 3 busy (make_semaphore 2)).0 ≡ enters waits_for))
    ⊎ (((◌≡◌ {A = ℕ} 3 0) ⊎ (2 ^ 31 ≤ 3))
        × ((wait_for_quit false 3 busy (make_semaphore 2)).0 ≡ enters waits))
wait_for_quit-Waits_example = wait_for_quit-Waits 3 busy (make_semaphore 2) refl
