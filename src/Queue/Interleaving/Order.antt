-- ===== src/Queue/Interleaving/Order.antt =====
-- What the thread that runs a queue (src/base/queue.cpp) takes, and in which order, while others post.
use mathlib.Core.List.{append_assoc}
use mifsa_base.Base.{
  true, false, not, [], ◌∷◌, ◌++◌, Option, some, ◌≡◌, refl, sym, ap, ◌∙◌, if_elim, length, ltb,
}
use mifsa_base.Base.Int.{equal}
use mifsa_base.Timer.{Callback}
use mifsa_base.Queue.{
  Queue, Event, queue_max_num, post_task, post_event, is_negative, add_timer, remove_timer,
  start_timer,
}
use mifsa_base.Queue.Interleaving.{
  World, make_world, wait_out, wake_up, task_posted, event_posted, set_flag, set_code,
  timer_started, reset_event, running, timing_out, spurious, posting_task, posting_event,
  setting_flag, setting_code, adding_timer, removing_timer, starting_timer, resetting, Step, Reach,
  start, later,
}
use mifsa_base.Queue.Interleaving.Items.{
  tasks_of, events_of, at_hand, IsServed, Idles-IsServed, idles,
}
use mifsa_base.Queue.Interleaving.Serving.{runner_step-IsServed}

-- What a call that is not refused does.
pub post_task-some :
    (cb : Callback) (q q' : Queue)
    → post_task cb q ≡ some q'
    → q' ≡ record q { task_queue = q.task_queue ++ cb ∷ [] }
unfolding post_task
post_task-some cb q q' =
    if_elim (λ r. r ≡ some q' → q' ≡ record q { task_queue = q.task_queue ++ cb ∷ [] })
      (ltb queue_max_num (length q.task_queue)) (λ _ x. absurd cc) (λ _ x. cc)

pub post_event-some :
    (e : Event) (q q' : Queue)
    → is_negative e.queue_id ≡ false
    → equal e.queue_id q.queue_id ≡ true
    → post_event e q ≡ some q'
    → q' ≡ record q { event_queue = q.event_queue ++ some e ∷ [] }
unfolding post_event
post_event-some e q q' valid here =
    let Q = λ (r : Option Queue).
      r ≡ some q' → q' ≡ record q { event_queue = q.event_queue ++ some e ∷ [] } in
    if_elim Q (is_negative e.queue_id) (λ h. absurd cc)
      (λ _.
        if_elim Q (not (equal e.queue_id q.queue_id)) (λ h. absurd (cc (h, here)))
          (λ _.
            if_elim Q (ltb queue_max_num (length q.event_queue)) (λ _ x. absurd cc) (λ _ x. cc)))

task_posted-IsServed :
    (cb : Callback) (w : World) (q : Queue)
    → post_task cb w.queue ≡ some q
    → IsServed w
    → IsServed (task_posted cb q w)
unfolding task_posted
task_posted-IsServed cb w q e s =
    let is = post_task-some cb w.queue q e in
    record {
      tasks =
          ap (λ x. x ++ cb ∷ []) s.tasks
          ∙ append_assoc (tasks_of w.served) _ _
          ∙ ap (λ x. tasks_of w.served ++ Queue.task_queue x) (sym is);
      events = s.events ∙ ap (λ x. events_of w.served ++ Queue.event_queue x) (sym is);
      runs = s.runs;
    }

event_posted-IsServed :
    (ev : Event) (w : World) (q : Queue)
    → q ≡ record w.queue { event_queue = w.queue.event_queue ++ some ev ∷ [] }
    → IsServed w
    → IsServed (event_posted ev q w)
unfolding event_posted
event_posted-IsServed ev w q is s = record {
  tasks = s.tasks ∙ ap (λ x. tasks_of w.served ++ Queue.task_queue x) (sym is);
  events =
      ap (λ x. x ++ some ev ∷ []) s.events
      ∙ append_assoc (events_of w.served) _ _
      ∙ ap (λ x. events_of w.served ++ Queue.event_queue x) (sym is);
  runs = s.runs;
}

Step-IsServed : (v w : World) → Step v w → IsServed v → IsServed w
unfolding wait_out wake_up set_flag set_code timer_started reset_event add_timer remove_timer
    start_timer
Step-IsServed v _ (running now) s = runner_step-IsServed now v.place v refl s
Step-IsServed v _ (timing_out e some_wait) s =
    Idles-IsServed v _ (idles refl refl refl refl refl refl (sym (ap at_hand e))) s
Step-IsServed v _ (spurious limited e some_wait) s =
    Idles-IsServed v _ (idles refl refl refl refl refl refl (sym (ap at_hand e))) s
Step-IsServed v _ (posting_task cb q e) s = task_posted-IsServed cb v q e s
Step-IsServed v _ (posting_event ev q valid here e) s =
    event_posted-IsServed ev v q (post_event-some ev v.queue q valid here e) s
Step-IsServed v _ (setting_flag code) s =
    Idles-IsServed v _ (idles refl refl refl refl refl refl refl) s
Step-IsServed v _ (setting_code before after code e) s =
    Idles-IsServed v _ (idles refl refl refl refl refl refl refl) s
Step-IsServed v _ (adding_timer t) s =
    Idles-IsServed v _ (idles refl refl refl refl refl refl refl) s
Step-IsServed v _ (removing_timer id) s =
    Idles-IsServed v _ (idles refl refl refl refl refl refl refl) s
Step-IsServed v _ (starting_timer now id) s =
    Idles-IsServed v _ (idles refl refl refl refl refl refl refl) s
Step-IsServed v _ (resetting others e) s =
    Idles-IsServed v _ (idles refl refl refl refl refl refl refl) s

-- However other threads, the callbacks and the timers interleave their posts and other calls with the thread
-- that runs a queue: the tasks posted are, in this order, those that the thread has taken and those that
-- wait, and so are the events; and what has been run is what belongs to the tasks and events taken, in the
-- order in which they were taken, but for the one at hand. So nothing is lost, run twice or run out of order.
pub Reach-IsServed : (q : Queue) (w : World) → Reach q w → IsServed w
unfolding make_world
Reach-IsServed q _ start = record { tasks = refl; events = refl; runs = refl }
Reach-IsServed q _ (later {v} {w} before last) = Step-IsServed v w last (Reach-IsServed q v before)
