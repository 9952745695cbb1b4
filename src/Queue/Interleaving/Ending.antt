-- ===== src/Queue/Interleaving/Ending.antt =====
-- What the thread that runs a queue (src/base/queue.cpp) has done when `run` returns.
use mifsa_base.Base.{
  ℕ, ◌≤◌, true, [], ◌∷◌, ◌++◌, some, ◌≡◌, refl, sym, ap, ◌∙◌, arith, if◌then◌else◌, if_elim, length,
  length-append, ◌==◌, Bool-cases, inl, inr,
}
use mathlib.Core.List.{append-nil}
use mifsa_base.Base.Int.{ℤ}
use mifsa_base.Timer.{Callback}
use mifsa_base.Semaphore.{acquire_nano}
use mifsa_base.Queue.{Queue, Event, post_task, add_timer, remove_timer, start_timer}
use mifsa_base.Queue.Interleaving.{
  Place, entering, testing, deciding, sweeping, acquiring, expired, ending, in_tasks, in_events,
  asleep, calling, handing, turned_away, returned, World, make_world, call_task, hand_event,
  acquire_event, runner_step, wait_out, wake_up, task_posted, event_posted, set_flag, set_code,
  timer_started, reset_event, running, timing_out, spurious, posting_task, posting_event,
  setting_flag, setting_code, adding_timer, removing_timer, starting_timer, resetting, Step, Reach,
  start, later,
}
use mifsa_base.Queue.Interleaving.Items.{tasks_of, events_of, steps_of, at_hand, IsServed}
use mifsa_base.Queue.Interleaving.Order.{post_task-some, post_event-some, Reach-IsServed}
use mifsa_base.Queue.Interleaving.Phases.{
  phase, IsAsked, Stays-IsAsked, le_refl, stays, early, after_entry-phase, enter_events-IsAsked,
  enter_run-IsAsked, take_task-IsAsked, take_event-IsAsked, sweep-IsAsked,
}

runner_step-IsAsked :
    (now : ℕ) (p : Place) (w : World)
    → w.place ≡ p
    → IsServed w
    → IsAsked w
    → IsAsked (runner_step now p w)
unfolding runner_step call_task hand_event acquire_event
runner_step-IsAsked now entering w e s a = enter_run-IsAsked w a
runner_step-IsAsked now testing w e s a = enter_events-IsAsked w a w.queue.quit_flag (λ h. h)
runner_step-IsAsked now (in_tasks last) w e s a = take_task-IsAsked w a last _ refl e s
runner_step-IsAsked now (calling cb last) w e s a =
    Stays-IsAsked w _ (stays refl refl refl refl refl refl (omega (arith, ap phase e))) a
runner_step-IsAsked now (in_events last) w e s a = take_event-IsAsked w a last _ refl e s
runner_step-IsAsked now (handing ev last) w e s a =
    Stays-IsAsked w _ (stays refl refl refl refl refl refl (omega (arith, ap phase e))) a
runner_step-IsAsked now deciding w e s a =
    if_elim IsAsked w.queue.quit_flag (λ h. enter_events-IsAsked w a true (λ _. h))
      (λ _. early refl a.few a.few_events)
runner_step-IsAsked now sweeping w e s a = sweep-IsAsked w a now
runner_step-IsAsked now acquiring w e s a =
    early (after_entry-phase (acquire_nano w.queue.mini_time w.semaphore).0) a.few a.few_events
runner_step-IsAsked now (asleep limited) w e s a =
    if_elim IsAsked (w.semaphore.waiting == 0) (λ _. early refl a.few a.few_events) (λ _. a)
runner_step-IsAsked now expired w e s a = early refl a.few a.few_events
runner_step-IsAsked now ending w e s a =
    Stays-IsAsked w _ (stays refl refl refl refl refl refl (omega (arith, ap phase e))) a
runner_step-IsAsked now (turned_away code) w e s a = a
runner_step-IsAsked now (returned code) w e s a = a

set_flag-IsAsked : (code : ℤ) (w : World) → IsAsked w → IsAsked (set_flag code w)
unfolding set_flag
set_flag-IsAsked code w a = elim (Bool-cases w.queue.quit_flag) [
  | inl on ↦
      Stays-IsAsked w _
        (stays (ap (λ b. if b then w.asked else length w.posted) on)
          (ap (λ b. if b then w.asked_events else length w.posted_events) on) (sym on) refl refl
          refl (le_refl (phase w.place)))
        a
  | inr off ↦ record {
    few = omega (arith, ap (λ b. if b then w.asked else length w.posted) off);
    few_events = omega (arith, ap (λ b. if b then w.asked_events else length w.posted_events) off);
    quits = λ _. refl;
    tasks_done = λ h. absurd (cc (a.quits (omega (arith, h)), off));
    events_done = λ h. absurd (cc (a.quits (omega (arith, h)), off));
  }
]

task_posted-IsAsked :
    (cb : Callback) (w : World) (q : Queue)
    → post_task cb w.queue ≡ some q
    → IsAsked w
    → IsAsked (task_posted cb q w)
unfolding task_posted
task_posted-IsAsked cb w q e a =
    Stays-IsAsked w _
      (record {
        same_asked = refl;
        same_asked_events = refl;
        same_flag = ap Queue.quit_flag (post_task-some cb w.queue q e);
        more_posted = omega (arith, length-append w.posted (cb ∷ []));
        more_events = le_refl _;
        more_taken = le_refl _;
        more_events_taken = le_refl _;
        no_further = le_refl _;
      })
      a

event_posted-IsAsked :
    (ev : Event) (w : World) (q : Queue)
    → q ≡ record w.queue { event_queue = w.queue.event_queue ++ some ev ∷ [] }
    → IsAsked w
    → IsAsked (event_posted ev q w)
unfolding event_posted
event_posted-IsAsked ev w q is a =
    Stays-IsAsked w _
      (record {
        same_asked = refl;
        same_asked_events = refl;
        same_flag = ap Queue.quit_flag is;
        more_posted = le_refl _;
        more_events = omega (arith, length-append w.posted_events (some ev ∷ []));
        more_taken = le_refl _;
        more_events_taken = le_refl _;
        no_further = le_refl _;
      })
      a

Step-IsAsked : (v w : World) → Step v w → IsServed v → IsAsked v → IsAsked w
unfolding wait_out wake_up set_code timer_started reset_event add_timer remove_timer start_timer
Step-IsAsked v _ (running now) s a = runner_step-IsAsked now v.place v refl s a
Step-IsAsked v _ (timing_out e some_wait) s a = early refl a.few a.few_events
Step-IsAsked v _ (spurious limited e some_wait) s a = early refl a.few a.few_events
Step-IsAsked v _ (posting_task cb q e) s a = task_posted-IsAsked cb v q e a
Step-IsAsked v _ (posting_event ev q valid here e) s a =
    event_posted-IsAsked ev v q (post_event-some ev v.queue q valid here e) a
Step-IsAsked v _ (setting_flag code) s a = set_flag-IsAsked code v a
Step-IsAsked v _ (setting_code before after code e) s a =
    Stays-IsAsked v _ (stays refl refl refl refl refl refl (le_refl (phase v.place))) a
Step-IsAsked v _ (adding_timer t) s a =
    Stays-IsAsked v _ (stays refl refl refl refl refl refl (le_refl (phase v.place))) a
Step-IsAsked v _ (removing_timer id) s a =
    Stays-IsAsked v _ (stays refl refl refl refl refl refl (le_refl (phase v.place))) a
Step-IsAsked v _ (starting_timer now id) s a =
    Stays-IsAsked v _ (stays refl refl refl refl refl refl (le_refl (phase v.place))) a
Step-IsAsked v _ (resetting others e) s a =
    Stays-IsAsked v _ (stays refl refl refl refl refl refl (le_refl (phase v.place))) a

Reach-IsAsked : (q : Queue) (w : World) → Reach q w → IsAsked w
unfolding make_world
Reach-IsAsked q _ start = early refl (omega arith) (omega arith)
Reach-IsAsked q _ (later {v} {w} before last) =
    Step-IsAsked v w last (Reach-IsServed q v before) (Reach-IsAsked q v before)

-- When `run` returns from its loop, however the other threads have used the queue meanwhile, it was told to
-- quit, and each task and each event that was posted before the first call of `quit` has been taken, and
-- whatever was taken has been run: the first `asked` tasks posted are the first ones taken, and the same
-- for the events.
pub Reach-asked :
    (q : Queue) (w : World) (code : ℤ)
    → Reach q w
    → w.place ≡ returned code
    → (w.queue.quit_flag ≡ true)
      × (w.asked ≤ length (tasks_of w.served))
      × (w.posted ≡ tasks_of w.served ++ w.queue.task_queue)
      × (w.asked_events ≤ length (events_of w.served))
      × (w.posted_events ≡ events_of w.served ++ w.queue.event_queue)
      × (w.trace ≡ steps_of w.served)
Reach-asked q w code r e =
    let a = Reach-IsAsked q w r in
    let s = Reach-IsServed q w r in
    (
      a.quits (omega (arith, ap phase e)),
      a.tasks_done (omega (arith, ap phase e)),
      s.tasks,
      a.events_done (omega (arith, ap phase e)),
      s.events,
      sym (s.runs ∙ ap (λ x. w.trace ++ steps_of (at_hand x)) e ∙ append-nil w.trace),
    )
