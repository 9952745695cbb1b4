-- ===== src/Tests/Threads.antt =====
-- The thread pool, the thread, and the map of the threads.
use mifsa_base.Thread.Current.{
  Threads, no_threads, begin_thread, end_thread, current_thread, find, emplace, erase,
}
use mifsa_base.Thread.Current
use mifsa_base.Thread.Current.Live.{Reach-current_thread}
use mifsa_base.Base.{◌+◌, ◌≤◌, true, false, [], ◌∷◌, some, ◌≡◌, ◌≢◌, refl, ◌⊎◌, arith}
use mifsa_base.Pool as Pl
use mifsa_base.Pool.{
  Pool, Worker, Task, entering, working, ended, make_pool, enqueue, shutdown, worker_step,
  test_tasks, take_task, call_task,
}
use mifsa_base.Pool.Order.{IsKept, Reach-IsKept}
use mifsa_base.Pool.Ending.{done, step, measure, Work-measure}
use mifsa_base.Thread as Thr
use mifsa_base.Thread.{
  Thread, joinable, gone, unborn, notifying, Stop, testing, joining, returned, make_thread, launch,
  enter_stop, test_running, test_again,
}
use mifsa_base.Thread.Stopping.{Reach-returned, deadlocked, Reach-deadlock}

-- A pool of two workers with two tasks.
abbrev posted : Pool
posted = enqueue (some 8) (enqueue (some 7) (make_pool 2))

abbrev posted_reach : Pl.Reach 2 posted
posted_reach = Pl.later (Pl.later Pl.start (Pl.enqueuing (some 7))) (Pl.enqueuing (some 8))

-- The first worker takes the first task and calls it.
abbrev seen : Pool
unfolding make_pool enqueue worker_step test_tasks
seen = worker_step 0 Worker.testing posted

abbrev seen_reach : Pl.Reach 2 seen
unfolding make_pool enqueue worker_step test_tasks
seen_reach = Pl.later posted_reach (Pl.working_on 0 Worker.testing refl)

abbrev first_taken : Pool
first_taken = worker_step 0 entering seen

abbrev taken_step : Pl.Step seen first_taken
unfolding make_pool enqueue worker_step test_tasks
taken_step = Pl.working_on 0 entering refl

first_taken_order : (first_taken.taken ≡ some 7 ∷ []) × (first_taken.tasks ≡ some 8 ∷ [])
unfolding make_pool enqueue worker_step test_tasks take_task
first_taken_order = (refl, refl)

first_called : (worker_step 0 (working (some 7)) first_taken).called ≡ 7 ∷ []
unfolding make_pool enqueue worker_step test_tasks take_task call_task
first_called = refl

-- A worker that finds no task ends at once.
no_task : (worker_step 0 Worker.testing (make_pool 1)).workers ≡ ended ∷ []
unfolding make_pool worker_step test_tasks
no_task = refl

Reach-IsKept_example : IsKept first_taken
Reach-IsKept_example = Reach-IsKept 2 first_taken (Pl.later seen_reach taken_step)

abbrev closed : Pool
closed = shutdown posted

abbrev closed_seen : Pool
closed_seen = worker_step 0 Worker.testing closed

Work-measure_example : (1 + measure closed_seen ≤ measure closed) × (closed_seen.exit_flag ≡ true)
unfolding make_pool enqueue shutdown
Work-measure_example =
    Work-measure 1 closed closed_seen (step 0 Worker.testing refl (λ e. absurd cc) done) refl

Reach-deadlock_example :
    Thr.Reach true (deadlocked 5)
    × ((deadlocked 5).stop ≡ joining 5)
    × ((deadlocked 5).worker ≡ notifying)
Reach-deadlock_example = Reach-deadlock 5 (deadlocked 5) (omega arith) Thr.stay

-- A thread that was never started.
abbrev unstarted : Thread
unfolding make_thread enter_stop test_running
unstarted = test_running 5 Thr.Handle.absent false (enter_stop 5 (make_thread true))

abbrev unstarted_reach : Thr.Reach true unstarted
unfolding make_thread enter_stop test_running
unstarted_reach =
    Thr.later (Thr.later Thr.Reach.start (Thr.stopping 5 refl)) (Thr.first_test 5 refl)

Reach-returned_example :
    (unstarted.handle ≢ joinable) × ((unstarted.worker ≡ gone) ⊎ (unstarted.worker ≡ unborn))
unfolding make_thread enter_stop test_running
Reach-returned_example = Reach-returned true unstarted true unstarted_reach refl

-- Of two threads with the ids 1 and 2 the first has ended.
abbrev one_left : Threads
one_left = end_thread 1 (begin_thread 2 20 (begin_thread 1 10 no_threads))

one_left-Reach : Current.Reach one_left
unfolding begin_thread end_thread find emplace erase
one_left-Reach =
    Current.later
      (Current.later (Current.later Current.start (Current.beginning 1 10 refl))
        (Current.beginning 2 20 refl))
      (Current.stopping 1 10 refl)

Reach-current_thread_example : current_thread 2 one_left.map ≡ some 20
unfolding end_thread begin_thread
Reach-current_thread_example = Reach-current_thread one_left 2 one_left-Reach
