-- ===== src/Queue/Interleaving/Waking.antt =====
-- When a call of another thread wakes up the thread that runs a queue (src/base/queue.cpp), by the event
-- semaphore (src/base/semaphore.cpp), and when it does not.
use mifsa_base.Base.{
  arith, ◌⊎◌, ◌-◌, Option, subst, ℕ, zero, suc, Bool, true, false, List, [], ◌∷◌, ◌≡◌, refl, ap,
  ◌∙◌, sym, if◌then◌else◌, if_elim, ◌==◌, not, ◌&&◌, inl, inr,
}
use mifsa_base.Base.Int.{ℤ, pos}
use mifsa_base.Timer.{Callback, next_sleep}
use mifsa_base.Semaphore.{
  Semaphore, make_semaphore, acquire_nano, expire, time_out, reset, Entry, refused, taken, waits,
  waits_for,
}
use mifsa_base.Semaphore
use mifsa_base.Queue.{Queue, Event, make_queue, post_task, process_next_sleep_time}
use mifsa_base.Queue.Interleaving.{
  Place, entering, testing, deciding, sweeping, acquiring, expired, ending, in_tasks, in_events,
  asleep, calling, handing, turned_away, returned, World, make_world, enter_run, enter_events,
  take_task, take_event, call_task, hand_event, sweep, after_entry, acquire_event, runner_step,
  wait_out, wake_up, task_posted, event_posted, set_flag, set_code, timer_started, reset_event,
  running, timing_out, spurious, posting_task, posting_event, setting_flag, setting_code,
  adding_timer, removing_timer, starting_timer, resetting, Step, Reach, start, later,
}

-- Only the thread of the queue waits, and while it does the count is below zero.
abbrev Sleeps : Place → Semaphore → Type 0
Sleeps (asleep limited) s =
    (s.waiting ≡ 0) ⊎ ((s.waiting ≡ 1) × (Semaphore.negative s.count ≡ true))
Sleeps _ s = s.waiting ≡ 0

abbrev IsAlert : World → Type 0
IsAlert w = Sleeps w.place w.semaphore

take_task-IsAlert :
    (last : Bool) (cbs : List Callback) (w : World)
    → w.semaphore.waiting ≡ 0
    → IsAlert (take_task last cbs w)
unfolding take_task
take_task-IsAlert last [] w h = h
take_task-IsAlert last (cb ∷ cbs) w h = h

take_event-IsAlert :
    (last : Bool) (es : List (Option Event)) (w : World)
    → w.semaphore.waiting ≡ 0
    → IsAlert (take_event last es w)
unfolding take_event
take_event-IsAlert true [] w h = h
take_event-IsAlert false [] w h = h
take_event-IsAlert last (e ∷ es) w h = h

-- Where `acquire_nano` leaves the thread, by its outcome.
waiting_entry :
    (b : Bool) (s : Semaphore)
    → s.waiting ≡ 0
    → Semaphore.negative (Semaphore.pred_ℤ s.count) ≡ true
    → Sleeps
        (after_entry (if b then waits else waits_for))
        (record s { count = Semaphore.pred_ℤ s.count; waiting = suc s.waiting })
unfolding after_entry
waiting_entry true s h below = inr (ap suc h, below)
waiting_entry false s h below = inr (ap suc h, below)

entry-Sleeps :
    (nano_s : ℤ) (s : Semaphore)
    → s.waiting ≡ 0
    → Sleeps (after_entry (acquire_nano nano_s s).0) (acquire_nano nano_s s).1
unfolding acquire_nano after_entry
entry-Sleeps nano_s s h =
    let P = λ (r : Entry × Semaphore). Sleeps (after_entry r.0) r.1 in
    if_elim P (Semaphore.not_positive s.count && Semaphore.is_zero nano_s) (λ _. h)
      (λ _.
        if_elim P (Semaphore.negative (Semaphore.pred_ℤ s.count))
          (λ below. waiting_entry (Semaphore.negative nano_s) s h below) (λ _. h))

runner_step-IsAlert :
    (now : ℕ) (p : Place) (w : World)
    → Sleeps p w.semaphore
    → w.place ≡ p
    → IsAlert (runner_step now p w)
unfolding runner_step enter_run enter_events call_task hand_event sweep acquire_event time_out
runner_step-IsAlert now entering w h e =
    if_elim IsAlert (w.queue.is_running && not w.queue.thread) (λ _. h)
      (λ _. if_elim IsAlert w.queue.quit_flag (λ _. h) (λ _. h))
runner_step-IsAlert now testing w h e = h
runner_step-IsAlert now (in_tasks last) w h e = take_task-IsAlert last w.queue.task_queue w h
runner_step-IsAlert now (calling cb last) w h e = h
runner_step-IsAlert now (in_events last) w h e = take_event-IsAlert last w.queue.event_queue w h
runner_step-IsAlert now (handing ev last) w h e = h
runner_step-IsAlert now deciding w h e = if_elim IsAlert w.queue.quit_flag (λ _. h) (λ _. h)
runner_step-IsAlert now sweeping w h e = h
runner_step-IsAlert now acquiring w h e = entry-Sleeps w.queue.mini_time w.semaphore h
runner_step-IsAlert now (asleep limited) w h e =
    if_elim IsAlert (w.semaphore.waiting == 0) (λ is. ground (arith, is))
      (λ _. subst (λ p. Sleeps p w.semaphore) (sym e) h)
runner_step-IsAlert now expired w h e = h
runner_step-IsAlert now ending w h e = h
runner_step-IsAlert now (turned_away code) w h e = subst (λ p. Sleeps p w.semaphore) (sym e) h
runner_step-IsAlert now (returned code) w h e = subst (λ p. Sleeps p w.semaphore) (sym e) h

-- After the end of its wait nobody waits, and after a reset neither.
asleep-waiting : (limited : Bool) (s : Semaphore) → Sleeps (asleep limited) s → s.waiting - 1 ≡ 0
asleep-waiting limited s h = ground arith

overlooks :
    (p : Place) (s : Semaphore) → Sleeps p s → Semaphore.negative s.count ≡ false → s.waiting ≡ 0
overlooks (asleep limited) s (inl h) above = h
overlooks (asleep limited) s (inr (h, below)) above = absurd (cc (below, above))
overlooks entering s h above = h
overlooks testing s h above = h
overlooks deciding s h above = h
overlooks sweeping s h above = h
overlooks acquiring s h above = h
overlooks expired s h above = h
overlooks ending s h above = h
overlooks (in_tasks last) s h above = h
overlooks (in_events last) s h above = h
overlooks (calling cb last) s h above = h
overlooks (handing e last) s h above = h
overlooks (turned_away code) s h above = h
overlooks (returned code) s h above = h

-- With nobody waiting the thread may stand anywhere.
nobody : (p : Place) (s : Semaphore) → s.waiting ≡ 0 → Sleeps p s
nobody (asleep limited) s h = inl h
nobody entering s h = h
nobody testing s h = h
nobody deciding s h = h
nobody sweeping s h = h
nobody acquiring s h = h
nobody expired s h = h
nobody ending s h = h
nobody (in_tasks last) s h = h
nobody (in_events last) s h = h
nobody (calling cb last) s h = h
nobody (handing e last) s h = h
nobody (turned_away code) s h = h
nobody (returned code) s h = h

reset-Sleeps : (p : Place) (s : Semaphore) → Sleeps p s → (reset 0 s).1.waiting ≡ 0
unfolding reset
reset-Sleeps p s h =
    if_elim (λ (x : Bool × Semaphore). x.1.waiting ≡ 0) (Semaphore.negative s.count) (λ _. refl)
      (λ above. overlooks p s h above)

Step-IsAlert : (v w : World) → Step v w → IsAlert v → IsAlert w
unfolding wait_out wake_up task_posted event_posted set_flag set_code timer_started reset_event
    expire
Step-IsAlert v _ (running now) h = runner_step-IsAlert now v.place v h refl
Step-IsAlert v _ (timing_out e some_wait) h =
    asleep-waiting true v.semaphore (subst (λ p. Sleeps p v.semaphore) e h)
Step-IsAlert v _ (spurious limited e some_wait) h =
    asleep-waiting limited v.semaphore (subst (λ p. Sleeps p v.semaphore) e h)
Step-IsAlert v _ (posting_task cb q e) h = h
Step-IsAlert v _ (posting_event ev q valid here e) h = h
Step-IsAlert v _ (setting_flag code) h = h
Step-IsAlert v _ (setting_code before after code e) h = h
Step-IsAlert v _ (adding_timer t) h = h
Step-IsAlert v _ (removing_timer id) h = h
Step-IsAlert v _ (starting_timer now id) h = h
Step-IsAlert v _ (resetting others e) h =
    nobody v.place (reset 0 v.semaphore).1 (reset-Sleeps v.place v.semaphore h)

Reach-IsAlert : (q : Queue) (w : World) → Reach q w → IsAlert w
unfolding make_world
Reach-IsAlert q _ start = refl
Reach-IsAlert q _ (later {v} {w} before last) = Step-IsAlert v w last (Reach-IsAlert q v before)

-- In any interleaving, a call that has to reset the event semaphore while the thread of the queue is in its wait
-- wakes it: after that reset the thread's next step leads to the test of the loop of `run`.
pub Reach-wakes :
    (q : Queue) (w : World) (limited : Bool) (others : ℕ)
    → Reach q w
    → w.place ≡ asleep limited
    → w.resets ≡ suc others
    → (v : World) × Step w v
      × (v.resets ≡ others)
      × ((now : ℕ) → (runner_step now v.place v).place ≡ testing)
unfolding runner_step reset_event
Reach-wakes q w limited others r e f =
    let v = reset_event others w in
    (
      v,
      resetting others f,
      refl,
      λ now.
          ap (λ p. Place_of (runner_step now p v)) e
          ∙ ap (λ n. Place_of (if n == 0 then record v { place = testing } else v))
              (reset-Sleeps w.place w.semaphore (Reach-IsAlert q w r)),
    )
  where
    Place_of : World → Place
    Place_of x = x.place

-- The thread is in a wait without limit, no call is on its way that would end it, and its own steps do not.
abbrev pub IsStuck : World → Type 0
IsStuck w =
    (w.place ≡ asleep false)
    × (w.codes ≡ [])
    × (w.resets ≡ 0)
    × ((now : ℕ) → runner_step now w.place w ≡ w)

-- So many steps of the thread of the queue, with no other ones between them.
abbrev pub runs : ℕ → ℕ → World → World
runs now zero w = w
runs now (suc n) w = runs now n (runner_step now w.place w)

pub Reach-runs : (now n : ℕ) (q : Queue) (w : World) → Reach q w → Reach q (runs now n w)
Reach-runs now zero q w r = r
Reach-runs now (suc n) q w r = Reach-runs now n q _ (later r (running now))

-- On a new queue a post that comes after `processEvent` has found the queues empty and before `acquire_nano`
-- is lost as a wake-up, for any task: the thread of the queue waits without limit, with the task in its queue,
-- and so is a call of `quit`: the thread waits without limit though it is to quit.
pub lost_wake_up :
    (id : ℤ) (cb : Callback) (code : ℤ)
    → ((w : World) × Reach (make_queue id) w × (w.queue.task_queue ≡ cb ∷ []) × (IsStuck w))
      × ((w : World) × Reach (make_queue id) w
          × (w.queue.quit_flag ≡ true)
          × (w.queue.quit_code ≡ code)
          × (IsStuck w))
unfolding make_world make_queue runner_step enter_run enter_events take_task take_event sweep
    process_next_sleep_time next_sleep acquire_event acquire_nano after_entry post_task task_posted
    set_flag set_code reset_event reset make_semaphore
lost_wake_up id cb code =
    let r = Reach-runs 1 6 (make_queue id) _ start in
    (
      (
        _,
        later (later (later r (posting_task cb _ refl)) (resetting 0 refl)) (running 1),
        refl,
        (refl, refl, refl, λ now. refl),
      ),
      (
        _,
        later
            (later (later (later r (setting_flag code)) (setting_code [] [] code refl))
              (resetting 0 refl))
            (running 1),
        refl,
        refl,
        (refl, refl, refl, λ now. refl),
      ),
    )

-- `quit` sets the flag before the code: on a new queue `run` may return 0 while a call of `quit` with any
-- other code has still to set it.
pub early_code :
    (id code : ℤ)
    → (w : World) × Reach (make_queue id) w
      × (w.place ≡ returned (pos 0))
      × (w.queue.quit_flag ≡ true)
      × (w.codes ≡ code ∷ [])
unfolding make_world make_queue runner_step enter_run enter_events take_task take_event set_flag
early_code id code = (
  _,
  Reach-runs 1 4 (make_queue id) _
      (later (Reach-runs 1 1 (make_queue id) _ start) (setting_flag code)),
  refl,
  refl,
  refl,
)
