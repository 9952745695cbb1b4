-- ===== src/Queue/Interleaving/Phases.antt =====
-- How far the thread that runs a queue (src/base/queue.cpp) has come with what was posted before `quit`.
use mifsa_base.Base.{
  ℕ, ◌≤◌, Bool, true, false, not, ◌&&◌, List, [], ◌∷◌, ◌++◌, Option, ◌≡◌, refl, sym, ap, ◌∙◌, arith,
  if◌then◌else◌, if_elim, length, length-append, drop,
}
use mifsa_base.Timer.{Callback}
use mifsa_base.Semaphore.{Entry, refused, taken, waits, waits_for}
use mifsa_base.Queue.{Queue, Event, process_next_sleep_time}
use mifsa_base.Queue.Interleaving.{
  Place, ending, in_tasks, in_events, calling, handing, returned, Item, a_task, an_event, World,
  enter_run, enter_events, take_task, take_event, sweep, after_entry,
}
use mifsa_base.Queue.Interleaving.Items.{
  tasks_of, events_of, IsServed, tasks_of-append, events_of-append,
}

-- How far the last `processEvent` has come: it has begun, is through with the tasks, and with the events.
abbrev pub phase : Place → ℕ
phase (in_tasks last) = if last then 1 else 0
phase (calling cb last) = if last then 1 else 0
phase (in_events last) = if last then 2 else 0
phase (handing e last) = if last then 2 else 0
phase ending = 3
phase (returned code) = 3
phase _ = 0

abbrev pub tasks_taken : World → ℕ
tasks_taken w = length (tasks_of w.served)

abbrev pub events_taken : World → ℕ
events_taken w = length (events_of w.served)

pub record IsAsked (w : World) : Type 0 where
  pub few : w.asked ≤ length w.posted
  pub few_events : w.asked_events ≤ length w.posted_events
  pub quits : 1 ≤ phase w.place → w.queue.quit_flag ≡ true
  pub tasks_done : 2 ≤ phase w.place → w.asked ≤ tasks_taken w
  pub events_done : 3 ≤ phase w.place → w.asked_events ≤ events_taken w

-- A step that asks for nothing new and does not come further in the last `processEvent`.
pub record Stays (v w : World) : Type 0 where
  pub same_asked : w.asked ≡ v.asked
  pub same_asked_events : w.asked_events ≡ v.asked_events
  pub same_flag : w.queue.quit_flag ≡ v.queue.quit_flag
  pub more_posted : length v.posted ≤ length w.posted
  pub more_events : length v.posted_events ≤ length w.posted_events
  pub more_taken : tasks_taken v ≤ tasks_taken w
  pub more_events_taken : events_taken v ≤ events_taken w
  pub no_further : phase w.place ≤ phase v.place

pub Stays-IsAsked : (v w : World) → Stays v w → IsAsked v → IsAsked w
Stays-IsAsked v w s a = record {
  few = omega (arith, a.few, s.same_asked, s.more_posted);
  few_events = omega (arith, a.few_events, s.same_asked_events, s.more_events);
  quits = λ h. s.same_flag ∙ a.quits (omega (arith, s.no_further));
  tasks_done =
      λ h. omega (arith, a.tasks_done (omega (arith, s.no_further)), s.same_asked, s.more_taken);
  events_done = λ h. omega (
    arith,
    a.events_done (omega (arith, s.no_further)),
    s.same_asked_events,
    s.more_events_taken,
  );
}

pub le_refl : (n : ℕ) → n ≤ n
le_refl n = omega arith

-- Only the place, the queue and the semaphore change.
pub stays :
    {v w : World}
    → w.asked ≡ v.asked
    → w.asked_events ≡ v.asked_events
    → w.queue.quit_flag ≡ v.queue.quit_flag
    → w.posted ≡ v.posted
    → w.posted_events ≡ v.posted_events
    → w.served ≡ v.served
    → phase w.place ≤ phase v.place
    → Stays v w
stays {v} {w} a b c d e f g = record {
  same_asked = a;
  same_asked_events = b;
  same_flag = c;
  more_posted = omega (arith, ap length d);
  more_events = omega (arith, ap length e);
  more_taken = omega (arith, ap (λ x. length (tasks_of x)) f);
  more_events_taken = omega (arith, ap (λ x. length (events_of x)) f);
  no_further = g;
}

-- The thread is at a place before the last `processEvent`.
pub early :
    {w : World}
    → phase w.place ≡ 0
    → w.asked ≤ length w.posted
    → w.asked_events ≤ length w.posted_events
    → IsAsked w
early e few few_events = record {
  few = few;
  few_events = few_events;
  quits = λ h. absurd (omega (arith, e, h));
  tasks_done = λ h. absurd (omega (arith, e, h));
  events_done = λ h. absurd (omega (arith, e, h));
}

pub after_entry-phase : (entry : Entry) → phase (after_entry entry) ≡ 0
unfolding after_entry
after_entry-phase refused = refl
after_entry-phase taken = refl
after_entry-phase waits = refl
after_entry-phase waits_for = refl

module _ (w : World) (a : IsAsked w) where
  pub enter_events-IsAsked :
      (last : Bool) → (last ≡ true → w.queue.quit_flag ≡ true) → IsAsked (enter_events last w)
  unfolding enter_events
  enter_events-IsAsked false h = early refl a.few a.few_events
  enter_events-IsAsked true h = record {
    few = a.few;
    few_events = a.few_events;
    quits = λ _. h refl;
    tasks_done = λ x. absurd (omega (arith, x));
    events_done = λ x. absurd (omega (arith, x));
  }

  pub enter_run-IsAsked : IsAsked (enter_run w)
  unfolding enter_run
  enter_run-IsAsked =
      if_elim IsAsked (w.queue.is_running && not w.queue.thread)
        (λ _. early refl a.few a.few_events)
        (λ _.
          if_elim IsAsked w.queue.quit_flag (λ _. early refl a.few a.few_events)
            (λ _. early refl a.few a.few_events))

  -- One more item has been taken.
  taken-Stays :
      (item : Item) (q : Queue) (p : Place)
      → q.quit_flag ≡ w.queue.quit_flag
      → phase p ≡ phase w.place
      → IsAsked (record w { queue = q; place = p; served = w.served ++ item ∷ [] })
  taken-Stays item q p flag same =
      Stays-IsAsked w _
        (record {
          same_asked = refl;
          same_asked_events = refl;
          same_flag = flag;
          more_posted = le_refl _;
          more_events = le_refl _;
          more_taken = omega (
            arith,
            ap length (tasks_of-append w.served (item ∷ [])),
            length-append (tasks_of w.served) (tasks_of (item ∷ [])),
          );
          more_events_taken = omega (
            arith,
            ap length (events_of-append w.served (item ∷ [])),
            length-append (events_of w.served) (events_of (item ∷ [])),
          );
          no_further = omega (arith, same);
        })
        a

  pub take_task-IsAsked :
      (last : Bool) (cbs : List Callback)
      → w.queue.task_queue ≡ cbs
      → w.place ≡ in_tasks last
      → IsServed w
      → IsAsked (take_task last cbs w)
  unfolding take_task
  take_task-IsAsked false [] f e s = early refl a.few a.few_events
  take_task-IsAsked true [] f e s = record {
    few = a.few;
    few_events = a.few_events;
    quits = λ _. a.quits (omega (arith, ap phase e));
    tasks_done = λ _. omega (
      arith,
      a.few,
      ap length (s.tasks ∙ ap (◌++◌ (tasks_of w.served)) f),
      length-append (tasks_of w.served) [],
    );
    events_done = λ h. absurd (omega (arith, h));
  }
  take_task-IsAsked last (cb ∷ cbs) f e s =
      taken-Stays (a_task cb) (record w.queue { task_queue = cbs }) (calling cb last) refl
        (sym (ap phase e))

  pub take_event-IsAsked :
      (last : Bool) (es : List (Option Event))
      → w.queue.event_queue ≡ es
      → w.place ≡ in_events last
      → IsServed w
      → IsAsked (take_event last es w)
  unfolding take_event
  take_event-IsAsked false [] f e s = early refl a.few a.few_events
  take_event-IsAsked true [] f e s = record {
    few = a.few;
    few_events = a.few_events;
    quits = λ _. a.quits (omega (arith, ap phase e));
    tasks_done = λ _. a.tasks_done (omega (arith, ap phase e));
    events_done = λ _. omega (
      arith,
      a.few_events,
      ap length (s.events ∙ ap (◌++◌ (events_of w.served)) f),
      length-append (events_of w.served) [],
    );
  }
  take_event-IsAsked last (ev ∷ es) f e s =
      taken-Stays (an_event ev) (record w.queue { event_queue = es }) (handing ev last) refl
        (sym (ap phase e))

  pub sweep-IsAsked : (now : ℕ) → IsAsked (sweep now w)
  unfolding sweep
  sweep-IsAsked now =
      early refl
        (omega (
          arith,
          a.few,
          length-append w.posted
              (drop (length w.queue.task_queue) (process_next_sleep_time now w.queue).task_queue),
        ))
        a.few_events
