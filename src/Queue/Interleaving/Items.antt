-- ===== src/Queue/Interleaving/Items.antt =====
-- What is taken from the two queues of a queue (src/base/queue.cpp) and run.
use mathlib.Core.List.{append_assoc, append-nil}
use mifsa_base.Base.{
  List, [], ◌∷◌, ◌++◌, Option, none, some, ◌≡◌, refl, sym, ap, ◌∙◌, if◌then◌else◌, inl, inr,
  Bool-cases,
}
use mifsa_base.Base.Int.{equal}
use mifsa_base.Timer.{Callback}
use mifsa_base.Queue.{Queue, Event, Trace, handed, unknown, invoke, hand, handle}
use mifsa_base.Queue.Draining.{task_steps, event_steps}
use mifsa_base.Queue.Interleaving.{Place, calling, handing, Item, a_task, an_event, World}

abbrev pub tasks_of : List Item → List Callback
tasks_of [] = []
tasks_of (a_task cb ∷ items) = cb ∷ tasks_of items
tasks_of (an_event e ∷ items) = tasks_of items

abbrev pub events_of : List Item → List (Option Event)
events_of [] = []
events_of (a_task cb ∷ items) = events_of items
events_of (an_event e ∷ items) = e ∷ events_of items

-- What is to be run for the items.
abbrev pub item_steps : Item → Trace
item_steps (a_task cb) = task_steps (cb ∷ [])
item_steps (an_event e) = event_steps (e ∷ [])

abbrev pub steps_of : List Item → Trace
steps_of [] = []
steps_of (item ∷ items) = item_steps item ++ steps_of items

-- What the thread has taken and not yet run.
abbrev pub at_hand : Place → List Item
at_hand (calling cb last) = a_task cb ∷ []
at_hand (handing e last) = an_event e ∷ []
at_hand _ = []

pub tasks_of-append : (xs ys : List Item) → tasks_of (xs ++ ys) ≡ tasks_of xs ++ tasks_of ys
tasks_of-append [] ys = refl
tasks_of-append (a_task cb ∷ xs) ys = ap (◌∷◌ cb) (tasks_of-append xs ys)
tasks_of-append (an_event e ∷ xs) ys = tasks_of-append xs ys

pub events_of-append : (xs ys : List Item) → events_of (xs ++ ys) ≡ events_of xs ++ events_of ys
events_of-append [] ys = refl
events_of-append (a_task cb ∷ xs) ys = events_of-append xs ys
events_of-append (an_event e ∷ xs) ys = ap (◌∷◌ e) (events_of-append xs ys)

steps_of-append : (xs ys : List Item) → steps_of (xs ++ ys) ≡ steps_of xs ++ steps_of ys
steps_of-append [] ys = refl
steps_of-append (x ∷ xs) ys =
    ap (◌++◌ (item_steps x)) (steps_of-append xs ys) ∙ sym (append_assoc (item_steps x) _ _)

-- What was posted to either queue is what was taken from it and then what waits in it; what has been run is
-- what was taken, but for what is at hand.
pub record IsServed (w : World) : Type 0 where
  pub tasks : w.posted ≡ tasks_of w.served ++ w.queue.task_queue
  pub events : w.posted_events ≡ events_of w.served ++ w.queue.event_queue
  pub runs : steps_of w.served ≡ w.trace ++ steps_of (at_hand w.place)

-- A step that takes nothing, runs nothing and posts nothing.
pub record Idles (v w : World) : Type 0 where
  pub same_posted : w.posted ≡ v.posted
  pub same_events : w.posted_events ≡ v.posted_events
  pub same_served : w.served ≡ v.served
  pub same_trace : w.trace ≡ v.trace
  pub same_tasks : w.queue.task_queue ≡ v.queue.task_queue
  pub same_queue : w.queue.event_queue ≡ v.queue.event_queue
  pub same_hand : at_hand w.place ≡ at_hand v.place

pub Idles-IsServed : (v w : World) → Idles v w → IsServed v → IsServed w
Idles-IsServed v w i s = record {
  tasks = rw (i.same_posted, i.same_served, i.same_tasks, s.tasks);
  events = rw (i.same_events, i.same_served, i.same_queue, s.events);
  runs = rw (i.same_served, i.same_trace, i.same_hand, s.runs);
}

-- With the same records and queues, only what is at hand counts.
pub idles :
    {v w : World}
    → w.posted ≡ v.posted
    → w.posted_events ≡ v.posted_events
    → w.served ≡ v.served
    → w.trace ≡ v.trace
    → w.queue.task_queue ≡ v.queue.task_queue
    → w.queue.event_queue ≡ v.queue.event_queue
    → at_hand w.place ≡ at_hand v.place
    → Idles v w
idles a b c d e f g = record {
  same_posted = a;
  same_events = b;
  same_served = c;
  same_trace = d;
  same_tasks = e;
  same_queue = f;
  same_hand = g;
}

-- What is taken is what has still to be run.
pub taken-runs :
    (w : World) (item : Item)
    → at_hand w.place ≡ []
    → IsServed w
    → steps_of (w.served ++ item ∷ []) ≡ w.trace ++ steps_of (item ∷ [])
taken-runs w item e s =
    steps_of-append w.served (item ∷ [])
    ∙ ap (λ x. x ++ steps_of (item ∷ []))
        (s.runs ∙ ap (λ x. w.trace ++ steps_of x) e ∙ append-nil w.trace)

-- What was at hand has been run.
pub run-runs :
    (w : World) (trace : Trace)
    → trace ≡ w.trace ++ steps_of (at_hand w.place)
    → IsServed w
    → steps_of w.served ≡ trace ++ []
run-runs w trace e s = s.runs ∙ sym e ∙ sym (append-nil trace)

pub invoke-trace :
    (cb : Callback) (q : Queue) (trace : Trace)
    → (invoke (λ c q. q) cb (q, trace)).1 ≡ trace ++ task_steps (cb ∷ [])
unfolding invoke
invoke-trace none q trace = sym (append-nil trace)
invoke-trace (some c) q trace = refl

hand-trace :
    (e : Event) (q : Queue) (trace : Trace)
    → hand (λ e q. q) e (q, trace)
      ≡ (q, trace ++ (if equal e.type unknown then [] else handed e ∷ []))
unfolding hand
hand-trace e q trace = elim (Bool-cases (equal e.type unknown)) [
  | inl yes_ ↦ rw (yes_, append-nil trace)
  | inr no_ ↦ rw no_
]

pub handle-trace :
    (e : Option Event) (q : Queue) (trace : Trace)
    → (handle (λ c q. q) (λ e q. q) e (q, trace)).1 ≡ trace ++ event_steps (e ∷ [])
unfolding handle
handle-trace none q trace = sym (append-nil trace)
handle-trace (some e) q trace =
    let shown = (if equal e.type unknown then [] else handed e ∷ []) in
    ap (λ x. (invoke (λ c q. q) e.cb x).1) (hand-trace e q trace)
    ∙ invoke-trace e.cb q (trace ++ shown)
    ∙ append_assoc trace shown _
    ∙ ap (◌++◌ trace) (sym (append-nil (shown ++ task_steps (e.cb ∷ []))))
