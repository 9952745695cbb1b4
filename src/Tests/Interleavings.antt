-- ===== src/Tests/Interleavings.antt =====
-- The event queue while other threads use it.
use mifsa_base.Base.{ℕ, false, ◌≤◌, [], ◌∷◌, ◌++◌, some, true, ◌≡◌, refl, length}
use mifsa_base.Base.Int.{pos}
use mifsa_base.Timer.{next_sleep}
use mifsa_base.Semaphore.{acquire_nano, make_semaphore}
use mifsa_base.Queue.{Queue, make_queue, post_task, process_next_sleep_time, invoke}
use mifsa_base.Queue.Interleaving.{
  World, make_world, enter_run, enter_events, take_task, take_event, call_task, sweep, after_entry,
  acquire_event, runner_step, task_posted, set_flag, Step, Reach, start, later, posting_task,
  setting_flag, returned, testing,
}
use mifsa_base.Queue.Interleaving.Items.{tasks_of, events_of, steps_of, IsServed}
use mifsa_base.Queue.Interleaving.Order.{Reach-IsServed}
use mifsa_base.Queue.Interleaving.Ending.{Reach-asked}
use mifsa_base.Queue.Interleaving.Waking.{
  runs, Reach-runs, Reach-wakes, lost_wake_up, early_code, IsStuck,
}

abbrev fresh : Queue
fresh = make_queue (pos 3)

-- The thread is in `processEvent`, and a task is posted.
abbrev begun : World
begun = runs 1 2 (make_world fresh)

abbrev with_task : World
with_task = task_posted (some 7) (record begun.queue { task_queue = some 7 ∷ [] }) begun

-- While the task is at hand the queue is told to quit, and the thread goes on to the end of `run`.
abbrev told : World
told = set_flag (pos 5) (runs 1 1 with_task)

abbrev over : World
over = runs 1 7 told

with_task-Reach : Reach fresh with_task
unfolding make_queue make_world runner_step enter_run enter_events post_task
with_task-Reach = later (Reach-runs 1 2 fresh _ start) (posting_task (some 7) _ refl)

told-Reach : Reach fresh told
told-Reach = later (Reach-runs 1 1 fresh _ with_task-Reach) (setting_flag (pos 5))

Reach-IsServed_example : IsServed told
Reach-IsServed_example = Reach-IsServed fresh told told-Reach

Reach-asked_example :
    (over.queue.quit_flag ≡ true)
    × (over.asked ≤ length (tasks_of over.served))
    × (over.posted ≡ tasks_of over.served ++ over.queue.task_queue)
    × (over.asked_events ≤ length (events_of over.served))
    × (over.posted_events ≡ events_of over.served ++ over.queue.event_queue)
    × (over.trace ≡ steps_of over.served)
unfolding make_queue make_world runner_step enter_run enter_events take_task take_event call_task
    invoke task_posted set_flag
Reach-asked_example = Reach-asked fresh over (pos 0) (Reach-runs 1 7 fresh told told-Reach) refl

-- The thread waits, and a task is posted.
abbrev waiting : World
waiting = runs 1 7 (make_world fresh)

abbrev woken : World
woken = task_posted (some 7) (record waiting.queue { task_queue = some 7 ∷ [] }) waiting

woken-Reach : Reach fresh woken
unfolding make_queue make_world runner_step enter_run enter_events take_task take_event sweep
    process_next_sleep_time next_sleep acquire_event acquire_nano after_entry make_semaphore
    post_task
woken-Reach = later (Reach-runs 1 7 fresh _ start) (posting_task (some 7) _ refl)

Reach-wakes_example :
    (v : World) × Step woken v
    × (v.resets ≡ 0)
    × ((now : ℕ) → (runner_step now v.place v).place ≡ testing)
unfolding make_queue make_world runner_step enter_run enter_events take_task take_event sweep
    process_next_sleep_time next_sleep acquire_event acquire_nano after_entry make_semaphore
    task_posted
Reach-wakes_example = Reach-wakes fresh woken false 0 woken-Reach refl refl

lost_wake_up_example :
    ((w : World) × Reach (make_queue (pos 3)) w × (w.queue.task_queue ≡ some 7 ∷ []) × (IsStuck w))
    × ((w : World) × Reach (make_queue (pos 3)) w
        × (w.queue.quit_flag ≡ true)
        × (w.queue.quit_code ≡ pos 5)
        × (IsStuck w))
lost_wake_up_example = lost_wake_up (pos 3) (some 7) (pos 5)

early_code_example :
    (w : World) × Reach (make_queue (pos 3)) w
    × (w.place ≡ returned (pos 0))
    × (w.queue.quit_flag ≡ true)
    × (w.codes ≡ pos 5 ∷ [])
early_code_example = early_code (pos 3) (pos 5)
