-- ===== src/Queue/Posting.antt =====
-- The bounds of the two queues of src/base/queue.cpp, and its list of timers.
use mathlib.Core.List.{append-nil}
use mifsa_base.Base.{
  ℕ, ◌+◌, ◌≤◌, ◌<◌, Bool, true, false, List, [], ◌∷◌, ◌++◌, none, some, ◌≡◌, refl, ap, ◌⊎◌, ◌≢◌,
  sym, subst, ◌∙◌, arith, ltb, ltb→lt, ◌==◌, if◌then◌else◌, if_elim, length, length-append,
  Bool-cases, inl, inr,
}
use mifsa_base.Timer.{Timer, Callback, make_timer, active}
use mifsa_base.Base.Int.{equal}
use mifsa_base.Queue.{
  Queue, Event, queue_max_num, post_task, post_event, is_negative, add_timer, remove_timer,
  remove_timer_ptr, remove_all, erase_first, create_timer,
}

-- Either queue holds one more than `QUEUE_MAX_NUM` at most.
abbrev pub IsBounded : Queue → Type 0
IsBounded q = (length q.task_queue ≤ queue_max_num + 1) × (length q.event_queue ≤ queue_max_num + 1)

room_for {ℓ} :
    {A : Type ℓ} (xs : List A) (x : A)
    → ltb queue_max_num (length xs) ≡ false
    → length (xs ++ x ∷ []) ≤ queue_max_num + 1
room_for xs x room = ground (arith, length-append xs (x ∷ []))

-- On a queue within its bounds `post_task` ends the program exactly if the queue holds more than `QUEUE_MAX_NUM` tasks; otherwise
-- it adds the task at the end, and the queue stays within its bounds.
pub post_task-IsBounded :
    (cb : Callback) (q : Queue)
    → IsBounded q
    → ((queue_max_num < length q.task_queue) × (post_task cb q ≡ none))
      ⊎ ((q' : Queue) × (post_task cb q ≡ some q')
          × (q'.task_queue ≡ q.task_queue ++ cb ∷ [])
          × (q'.event_queue ≡ q.event_queue)
          × IsBounded q')
unfolding post_task
post_task-IsBounded cb q b = elim (Bool-cases (ltb queue_max_num (length q.task_queue))) [
  | inl full ↦ inl (ltb→lt _ _ full, rw full refl)
  | inr room ↦ inr (
    record q { task_queue = q.task_queue ++ cb ∷ [] },
    rw room refl,
    refl,
    refl,
    (room_for q.task_queue cb room, b.1),
  )
]

-- On a queue within its bounds `post_event` takes exactly the events that have a queue's number and this queue's: it adds such an
-- event at the end, or ends the program if more than `QUEUE_MAX_NUM` wait; it drops any other event. The
-- queue stays within its bounds.
pub post_event-IsBounded :
    (e : Event) (q : Queue)
    → IsBounded q
    → (((is_negative e.queue_id ≡ true) ⊎ (equal e.queue_id q.queue_id ≡ false))
        × (post_event e q ≡ some q))
      ⊎ ((is_negative e.queue_id ≡ false)
          × (equal e.queue_id q.queue_id ≡ true)
          × (((queue_max_num < length q.event_queue) × (post_event e q ≡ none))
              ⊎ ((q' : Queue) × (post_event e q ≡ some q')
                  × (q'.event_queue ≡ q.event_queue ++ some e ∷ [])
                  × (q'.task_queue ≡ q.task_queue)
                  × IsBounded q')))
unfolding post_event
post_event-IsBounded e q b = elim (Bool-cases (is_negative e.queue_id)) [
  | inl no_id ↦ inl (inl no_id, rw no_id refl)
  | inr id ↦ elim (Bool-cases (equal e.queue_id q.queue_id)) [
    | inr other ↦ inl (inr other, rw (id, other) refl)
    | inl same ↦ elim (Bool-cases (ltb queue_max_num (length q.event_queue))) [
      | inl full ↦ inr (id, same, inl (ltb→lt _ _ full, rw (id, same, full) refl))
      | inr room ↦ inr (
        id,
        same,
        inr (
          record q { event_queue = q.event_queue ++ some e ∷ [] },
          rw (id, same, room) refl,
          refl,
          refl,
          (b.0, room_for q.event_queue (some e) room),
        ),
      )
    ]
  ]
]

-- A list of timers with different addresses.
abbrev pub Fresh : ℕ → List Timer → Type 0
Fresh id [] = Unit
Fresh id (t ∷ ts) = (t.id ≢ id) × Fresh id ts

abbrev pub IsDistinct : List Timer → Type 0
IsDistinct [] = Unit
IsDistinct (t ∷ ts) = Fresh t.id ts × IsDistinct ts

remove_all_unused : (id : ℕ) (ts : List Timer) → Fresh id ts → remove_all id ts ≡ ts
unfolding remove_all
remove_all_unused id [] f = refl
remove_all_unused id (t ∷ ts) f =
    if_elim (λ r. r ≡ t ∷ ts) (t.id == id) (λ e. absurd (f.0 (ground arith)))
      (λ _. ap (◌∷◌ t) (remove_all_unused id ts f.1))

erase_first_unused : (id : ℕ) (ts : List Timer) → Fresh id ts → erase_first id ts ≡ ts
unfolding erase_first
erase_first_unused id [] f = refl
erase_first_unused id (t ∷ ts) f =
    if_elim (λ r. r ≡ t ∷ ts) (t.id == id) (λ e. absurd (f.0 (ground arith)))
      (λ _. ap (◌∷◌ t) (erase_first_unused id ts f.1))

erase_first-remove_all :
    (id : ℕ) (ts : List Timer) → IsDistinct ts → erase_first id ts ≡ remove_all id ts
unfolding remove_all erase_first
erase_first-remove_all id [] d = refl
erase_first-remove_all id (t ∷ ts) d = elim (Bool-cases (t.id == id)) [
  | inl e ↦
      let same : t.id ≡ id = ground (arith, e) in
      rw e (sym (remove_all_unused id ts (subst (λ i. Fresh i ts) same d.0)))
  | inr e ↦ rw e (ap (◌∷◌ t) (erase_first-remove_all id ts d.1))
]

Fresh-remove_all : (i id : ℕ) (ts : List Timer) → Fresh i ts → Fresh i (remove_all id ts)
unfolding remove_all
Fresh-remove_all i id [] f = f
Fresh-remove_all i id (t ∷ ts) f =
    if_elim (Fresh i) (t.id == id) (λ _. Fresh-remove_all i id ts f.1)
      (λ _. (f.0, Fresh-remove_all i id ts f.1))

remove_all-Fresh : (id : ℕ) (ts : List Timer) → Fresh id (remove_all id ts)
unfolding remove_all
remove_all-Fresh id [] = tt
remove_all-Fresh id (t ∷ ts) =
    if_elim (Fresh id) (t.id == id) (λ _. remove_all-Fresh id ts)
      (λ e. (λ same. absurd (ground arith), remove_all-Fresh id ts))

remove_all-IsDistinct : (id : ℕ) (ts : List Timer) → IsDistinct ts → IsDistinct (remove_all id ts)
unfolding remove_all
remove_all-IsDistinct id [] d = d
remove_all-IsDistinct id (t ∷ ts) d =
    if_elim IsDistinct (t.id == id) (λ _. remove_all-IsDistinct id ts d.1)
      (λ _. (Fresh-remove_all t.id id ts d.0, remove_all-IsDistinct id ts d.1))

-- In a queue whose timers have different addresses, the two versions of `removeTimer` do the same:
-- the timer has no queue then and is not in the queue, and the timers still have different addresses.
pub remove_timer-IsDistinct :
    (t : Timer) (q : Queue)
    → IsDistinct q.timer_list
    → (remove_timer_ptr t q ≡ remove_timer t q)
      × ((remove_timer t q).0.queue ≡ false)
      × Fresh t.id (remove_timer t q).1.timer_list
      × IsDistinct (remove_timer t q).1.timer_list
unfolding remove_timer remove_timer_ptr
remove_timer-IsDistinct t q d = (
  ap (λ ts. (record t { queue = false }, record q { timer_list = ts }))
      (erase_first-remove_all t.id q.timer_list d),
  refl,
  remove_all-Fresh t.id q.timer_list,
  remove_all-IsDistinct t.id q.timer_list d,
)

remove_all-append :
    (id : ℕ) (ts us : List Timer) → remove_all id (ts ++ us) ≡ remove_all id ts ++ remove_all id us
unfolding remove_all
remove_all-append id [] us = refl
remove_all-append id (t ∷ ts) us =
    if_elim
      (λ r. r ≡ (if t.id == id then remove_all id ts else t ∷ remove_all id ts) ++ remove_all id us)
      (t.id == id) (λ e. rw e (remove_all-append id ts us))
      (λ e. rw e (ap (◌∷◌ t) (remove_all-append id ts us)))

remove_all-last :
    (t : Timer) (ts : List Timer) → Fresh t.id ts → remove_all t.id (ts ++ t ∷ []) ≡ ts
unfolding remove_all
remove_all-last t ts f =
    remove_all-append t.id ts (t ∷ [])
    ∙ ap (λ x. x ++ remove_all t.id (t ∷ [])) (remove_all_unused t.id ts f)
    ∙ if_elim (λ r. ts ++ r ≡ ts) (t.id == t.id) {y = t ∷ []} (λ _. append-nil ts)
        (λ e. absurd (ground arith))

-- `createTimer` puts at the end of the list a timer with the address, interval, kind and callback that it was
-- given, which has the queue and is not started; where the address was not in the list, its removal by
-- `removeTimer` leaves the queue as it was, and the timer without a queue.
pub remove_timer-create_timer :
    (id interval : ℕ) (loop : Bool) (cb : Callback) (q : Queue)
    → Fresh id q.timer_list
    → (t : Timer) × ((create_timer id interval loop cb q).timer_list ≡ q.timer_list ++ t ∷ [])
      × (t.id ≡ id)
      × (t.interval ≡ interval)
      × (t.loop ≡ loop)
      × (t.cb ≡ cb)
      × (t.queue ≡ true)
      × (active t ≡ false)
      × (remove_timer t (create_timer id interval loop cb q) ≡ (record t { queue = false }, q))
unfolding remove_timer create_timer add_timer make_timer active
remove_timer-create_timer id interval loop cb q f =
    let t = record (make_timer id interval loop cb) { queue = true } in
    (
      t,
      refl,
      refl,
      refl,
      refl,
      refl,
      refl,
      refl,
      ap (λ ts. (record t { queue = false }, record q { timer_list = ts }))
          (remove_all-last t q.timer_list f),
    )
