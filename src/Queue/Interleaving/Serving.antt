-- ===== src/Queue/Interleaving/Serving.antt =====
-- The steps of the thread that runs a queue (src/base/queue.cpp).
use mathlib.Core.List.{append_assoc, append-nil}
use mifsa_base.Base.{
  ℕ, Bool, true, false, not, ◌&&◌, List, [], ◌∷◌, ◌++◌, Option, ◌≡◌, refl, sym, ap, ◌∙◌, if_elim,
  length, drop, ◌==◌,
}
use mifsa_base.Base.Int.{negsuc}
use mifsa_base.Timer.{Callback, next_sleep, look_at_all}
use mifsa_base.Timer.Pushing.{look_at_all-Extends}
use mifsa_base.Semaphore.{Entry, refused, taken, waits, waits_for, acquire_nano}
use mifsa_base.Queue.{Event, process_next_sleep_time}
use mifsa_base.Queue.Draining.{task_steps, event_steps}
use mifsa_base.Queue.Interleaving.{
  Place, entering, testing, deciding, sweeping, acquiring, expired, ending, in_tasks, in_events,
  asleep, calling, handing, turned_away, returned, a_task, an_event, World, enter_run, enter_events,
  take_task, take_event, call_task, hand_event, sweep, after_entry, acquire_event, runner_step,
}
use mifsa_base.Queue.Interleaving.Items.{
  tasks_of, events_of, steps_of, at_hand, IsServed, Idles-IsServed, idles, taken-runs, run-runs,
  invoke-trace, handle-trace, tasks_of-append, events_of-append,
}

drop-append : (xs ys : List Callback) → drop (length xs) (xs ++ ys) ≡ ys
drop-append [] ys = refl
drop-append (x ∷ xs) ys = drop-append xs ys

after_entry-hand : (entry : Entry) → at_hand (after_entry entry) ≡ []
unfolding after_entry
after_entry-hand refused = refl
after_entry-hand taken = refl
after_entry-hand waits = refl
after_entry-hand waits_for = refl

module _ (w : World) where
  enter_run-IsServed : at_hand w.place ≡ [] → IsServed w → IsServed (enter_run w)
  unfolding enter_run
  enter_run-IsServed e s =
      if_elim IsServed (w.queue.is_running && not w.queue.thread)
        (λ _. Idles-IsServed w _ (idles refl refl refl refl refl refl (sym e)) s)
        (λ _.
          if_elim IsServed w.queue.quit_flag
            (λ _. Idles-IsServed w _ (idles refl refl refl refl refl refl (sym e)) s)
            (λ _. Idles-IsServed w _ (idles refl refl refl refl refl refl (sym e)) s))

  enter_events-IsServed :
      (last : Bool) → at_hand w.place ≡ [] → IsServed w → IsServed (enter_events last w)
  unfolding enter_events
  enter_events-IsServed last e s =
      Idles-IsServed w _ (idles refl refl refl refl refl refl (sym e)) s

  take_task-IsServed :
      (last : Bool) (cbs : List Callback)
      → w.queue.task_queue ≡ cbs
      → at_hand w.place ≡ []
      → IsServed w
      → IsServed (take_task last cbs w)
  unfolding take_task
  take_task-IsServed last [] f e s =
      Idles-IsServed w _ (idles refl refl refl refl refl refl (sym e)) s
  take_task-IsServed last (cb ∷ cbs) f e s = record {
    tasks =
        s.tasks
        ∙ ap (◌++◌ (tasks_of w.served)) f
        ∙ sym (append_assoc (tasks_of w.served) (cb ∷ []) cbs)
        ∙ ap (λ x. x ++ cbs) (sym (tasks_of-append w.served (a_task cb ∷ [])));
    events =
        s.events
        ∙ ap (λ x. x ++ w.queue.event_queue)
            (sym (events_of-append w.served (a_task cb ∷ []) ∙ append-nil (events_of w.served)));
    runs = taken-runs w (a_task cb) e s;
  }

  take_event-IsServed :
      (last : Bool) (es : List (Option Event))
      → w.queue.event_queue ≡ es
      → at_hand w.place ≡ []
      → IsServed w
      → IsServed (take_event last es w)
  unfolding take_event
  take_event-IsServed true [] f e s =
      Idles-IsServed w _ (idles refl refl refl refl refl refl (sym e)) s
  take_event-IsServed false [] f e s =
      Idles-IsServed w _ (idles refl refl refl refl refl refl (sym e)) s
  take_event-IsServed last (ev ∷ es) f e s = record {
    tasks =
        s.tasks
        ∙ ap (λ x. x ++ w.queue.task_queue)
            (sym (tasks_of-append w.served (an_event ev ∷ []) ∙ append-nil (tasks_of w.served)));
    events =
        s.events
        ∙ ap (◌++◌ (events_of w.served)) f
        ∙ sym (append_assoc (events_of w.served) (ev ∷ []) es)
        ∙ ap (λ x. x ++ es) (sym (events_of-append w.served (an_event ev ∷ [])));
    runs = taken-runs w (an_event ev) e s;
  }

  call_task-IsServed :
      (cb : Callback) (last : Bool)
      → w.place ≡ calling cb last
      → IsServed w
      → IsServed (call_task cb last w)
  unfolding call_task
  call_task-IsServed cb last e s = record {
    tasks = s.tasks;
    events = s.events;
    runs =
        run-runs w _
          (invoke-trace cb w.queue w.trace
            ∙ ap (◌++◌ w.trace) (sym (append-nil (task_steps (cb ∷ []))))
            ∙ ap (λ x. w.trace ++ steps_of (at_hand x)) (sym e))
          s;
  }

  hand_event-IsServed :
      (ev : Option Event) (last : Bool)
      → w.place ≡ handing ev last
      → IsServed w
      → IsServed (hand_event ev last w)
  unfolding hand_event
  hand_event-IsServed ev last e s = record {
    tasks = s.tasks;
    events = s.events;
    runs =
        run-runs w _
          (handle-trace ev w.queue w.trace
            ∙ ap (◌++◌ w.trace) (sym (append-nil (event_steps (ev ∷ []))))
            ∙ ap (λ x. w.trace ++ steps_of (at_hand x)) (sym e))
          s;
  }

  sweep-IsServed : (now : ℕ) → at_hand w.place ≡ [] → IsServed w → IsServed (sweep now w)
  unfolding sweep process_next_sleep_time next_sleep
  sweep-IsServed now e s =
      let old = w.queue.task_queue in
      let (more, f) = look_at_all-Extends now w.queue.timer_list old (negsuc 0) in
      let new = (look_at_all now w.queue.timer_list old (negsuc 0)).tasks in
      record {
        tasks =
            ap (λ x. x ++ drop (length old) new) s.tasks
            ∙ append_assoc (tasks_of w.served) old _
            ∙ ap (λ x. tasks_of w.served ++ (old ++ drop (length old) x)) f
            ∙ ap (λ x. tasks_of w.served ++ (old ++ x)) (drop-append old more)
            ∙ ap (◌++◌ (tasks_of w.served)) (sym f);
        events = s.events;
        runs = s.runs ∙ ap (λ x. w.trace ++ steps_of x) e;
      }

  acquire_event-IsServed : at_hand w.place ≡ [] → IsServed w → IsServed (acquire_event w)
  unfolding acquire_event
  acquire_event-IsServed e s =
      Idles-IsServed w _
        (idles refl refl refl refl refl refl
          (after_entry-hand (acquire_nano w.queue.mini_time w.semaphore).0 ∙ sym e))
        s

pub runner_step-IsServed :
    (now : ℕ) (p : Place) (w : World) → w.place ≡ p → IsServed w → IsServed (runner_step now p w)
unfolding runner_step
runner_step-IsServed now entering w e s = enter_run-IsServed w (ap at_hand e) s
runner_step-IsServed now testing w e s = enter_events-IsServed w _ (ap at_hand e) s
runner_step-IsServed now (in_tasks last) w e s = take_task-IsServed w last _ refl (ap at_hand e) s
runner_step-IsServed now (calling cb last) w e s = call_task-IsServed w cb last e s
runner_step-IsServed now (in_events last) w e s = take_event-IsServed w last _ refl (ap at_hand e) s
runner_step-IsServed now (handing ev last) w e s = hand_event-IsServed w ev last e s
runner_step-IsServed now deciding w e s =
    if_elim IsServed w.queue.quit_flag (λ _. enter_events-IsServed w true (ap at_hand e) s)
      (λ _. Idles-IsServed w _ (idles refl refl refl refl refl refl (sym (ap at_hand e))) s)
runner_step-IsServed now sweeping w e s = sweep-IsServed w now (ap at_hand e) s
runner_step-IsServed now acquiring w e s = acquire_event-IsServed w (ap at_hand e) s
runner_step-IsServed now (asleep limited) w e s =
    if_elim IsServed (w.semaphore.waiting == 0)
      (λ _. Idles-IsServed w _ (idles refl refl refl refl refl refl (sym (ap at_hand e))) s)
      (λ _. s)
runner_step-IsServed now expired w e s =
    Idles-IsServed w _ (idles refl refl refl refl refl refl (sym (ap at_hand e))) s
runner_step-IsServed now ending w e s =
    Idles-IsServed w _ (idles refl refl refl refl refl refl (sym (ap at_hand e))) s
runner_step-IsServed now (turned_away code) w e s = s
runner_step-IsServed now (returned code) w e s = s
