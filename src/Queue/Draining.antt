-- ===== src/Queue/Draining.antt =====
-- `Queue::processEvent` (src/base/queue.cpp): the order in which it runs what was posted.
use mathlib.Core.List.{append_assoc, append-nil}
use mifsa_base.Base.{
  ℕ, zero, suc, ◌≤◌, true, false, List, [], ◌∷◌, ◌++◌, Option, none, some, ◌≡◌, refl, sym, ap, ◌∙◌,
  arith, if◌then◌else◌, length, Bool-cases, inl, inr,
}
use mifsa_base.Base.Int.{equal}
use mifsa_base.Timer.{Callback}
use mifsa_base.Queue.{
  Queue, Event, Trace, ran, handed, unknown, invoke, run_tasks, hand, handle, run_events,
  process_event, map_some, idle,
}

abbrev pub task_steps : List Callback → Trace
task_steps [] = []
task_steps (none ∷ cbs) = task_steps cbs
task_steps (some c ∷ cbs) = ran c ∷ task_steps cbs

abbrev pub event_steps : List (Option Event) → Trace
event_steps [] = []
event_steps (none ∷ es) = event_steps es
event_steps (some e ∷ es) =
    (if equal e.type unknown then [] else handed e ∷ []) ++ task_steps (e.cb ∷ []) ++ event_steps es

-- A callback that posts nothing.
abbrev pub IsQuiet : (ℕ → Queue → Queue) → Type 0
IsQuiet call =
    (c : ℕ) (q : Queue)
    → ((call c q).task_queue ≡ q.task_queue) × ((call c q).event_queue ≡ q.event_queue)

-- `eventChanged` that posts nothing.
abbrev pub IsQuietHandler : (Event → Queue → Queue) → Type 0
IsQuietHandler changed =
    (e : Event) (q : Queue)
    → ((changed e q).task_queue ≡ q.task_queue) × ((changed e q).event_queue ≡ q.event_queue)

module _ (call : ℕ → Queue → Queue) (changed : Event → Queue → Queue) where
  pub run_tasks-Drains :
      (fuel : ℕ) (cbs : List Callback) (q : Queue) (trace : Trace)
      → IsQuiet call
      → q.task_queue ≡ cbs
      → length cbs ≤ fuel
      → (q' : Queue) × (run_tasks call fuel cbs (q, trace) ≡ some (q', trace ++ task_steps cbs))
        × (q'.task_queue ≡ [])
        × (q'.event_queue ≡ q.event_queue)
  unfolding run_tasks invoke
  run_tasks-Drains fuel [] q trace quiet e le =
      (q, ap (λ x. some (q, x)) (sym (append-nil trace)), e, refl)
  run_tasks-Drains zero (cb ∷ cbs) q trace quiet e le = absurd (omega arith)
  run_tasks-Drains (suc fuel) (none ∷ cbs) q trace quiet e le =
      run_tasks-Drains fuel cbs (record q { task_queue = cbs }) trace quiet refl (omega arith)
  run_tasks-Drains (suc fuel) (some c ∷ cbs) q trace quiet e le =
      let q1 = record q { task_queue = cbs } in
      let (q', runs, empty, events) =
        run_tasks-Drains fuel cbs (call c q1) (trace ++ ran c ∷ []) quiet (quiet c q1).0
          (omega arith) in
      (
        q',
        ap (λ x. run_tasks call fuel x (call c q1, trace ++ ran c ∷ [])) (quiet c q1).0
            ∙ runs
            ∙ ap (λ x. some (q', x)) (append_assoc trace _ _),
        empty,
        events ∙ (quiet c q1).1,
      )

  Still : Queue → Queue → Type 0
  Still q' q = (q'.task_queue ≡ q.task_queue) × (q'.event_queue ≡ q.event_queue)

  invoke-Quiet :
      (cb : Callback) (q : Queue) (trace : Trace)
      → IsQuiet call
      → (q' : Queue) × (invoke call cb (q, trace) ≡ (q', trace ++ task_steps (cb ∷ [])))
        × Still q' q
  unfolding invoke Still
  invoke-Quiet none q trace quiet = (q, ap (λ x. (q, x)) (sym (append-nil trace)), (refl, refl))
  invoke-Quiet (some c) q trace quiet = (call c q, refl, quiet c q)

  hand-Quiet :
      (e : Event) (q : Queue) (trace : Trace)
      → IsQuietHandler changed
      → (q' : Queue) × (hand changed e (q, trace)
          ≡ (q', trace ++ (if equal e.type unknown then [] else handed e ∷ [])))
        × Still q' q
  unfolding hand Still
  hand-Quiet e q trace still = elim (Bool-cases (equal e.type unknown)) [
    | inl u ↦ (q, rw u (ap (λ x. (q, x)) (sym (append-nil trace))), (refl, refl))
    | inr u ↦ (changed e q, rw u refl, still e q)
  ]

  handle-Quiet :
      (e : Option Event) (q : Queue) (trace : Trace)
      → IsQuiet call
      → IsQuietHandler changed
      → (q' : Queue) × (handle call changed e (q, trace) ≡ (q', trace ++ event_steps (e ∷ [])))
        × Still q' q
  unfolding handle Still
  handle-Quiet none q trace quiet still =
      (q, ap (λ x. (q, x)) (sym (append-nil trace)), (refl, refl))
  handle-Quiet (some e) q trace quiet still =
      let steps = if equal e.type unknown then [] else handed e ∷ [] in
      let (q1, first, same1) = hand-Quiet e q trace still in
      let (q2, second, same2) = invoke-Quiet e.cb q1 (trace ++ steps) quiet in
      (
        q2,
        ap (invoke call e.cb) first
            ∙ second
            ∙ ap (λ x. (q2, x))
                (append_assoc trace steps (task_steps (e.cb ∷ []))
                  ∙ ap (λ x. trace ++ x) (sym (append-nil (steps ++ task_steps (e.cb ∷ []))))),
        (same2.0 ∙ same1.0, same2.1 ∙ same1.1),
      )

  event_steps-cons :
      (e : Option Event) (es : List (Option Event))
      → event_steps (e ∷ es) ≡ event_steps (e ∷ []) ++ event_steps es
  event_steps-cons none es = refl
  event_steps-cons (some e) es =
      let steps = if equal e.type unknown then [] else handed e ∷ [] in
      ap (λ x. x ++ event_steps es) (sym (append-nil (steps ++ task_steps (e.cb ∷ []))))

  pub run_events-Drains :
      (fuel : ℕ) (es : List (Option Event)) (q : Queue) (trace : Trace)
      → IsQuiet call
      → IsQuietHandler changed
      → q.event_queue ≡ es
      → length es ≤ fuel
      → (q' : Queue) × (run_events call changed fuel es (q, trace)
          ≡ some (q', trace ++ event_steps es))
        × (q'.task_queue ≡ q.task_queue)
        × (q'.event_queue ≡ [])
  unfolding run_events Still
  run_events-Drains fuel [] q trace quiet still e le =
      (q, ap (λ x. some (q, x)) (sym (append-nil trace)), refl, e)
  run_events-Drains zero (ev ∷ es) q trace quiet still e le = absurd (omega arith)
  run_events-Drains (suc fuel) (ev ∷ es) q trace quiet still e le =
      let (q1, one, (tasks1, events1)) =
        handle-Quiet ev (record q { event_queue = es }) trace quiet still in
      let (q', runs, tasks, empty) =
        run_events-Drains fuel es q1 (trace ++ event_steps (ev ∷ [])) quiet still events1
          (omega arith) in
      (
        q',
        ap (λ (s : Queue × Trace). run_events call changed fuel s.0.event_queue s) one
            ∙ ap (λ x. run_events call changed fuel x (q1, trace ++ event_steps (ev ∷ []))) events1
            ∙ runs
            ∙ ap (λ x. some (q', x))
                (append_assoc trace _ _ ∙ ap (◌++◌ trace) (sym (event_steps-cons ev es))),
        tasks ∙ tasks1,
        empty,
      )

  -- With callbacks and an `eventChanged` that post nothing, `processEvent` runs all the tasks in the order
  -- of their posting, then for each event in that order `eventChanged`, if its type is known, and its
  -- callback, if it has one, and nothing else; it comes to its end, with nothing left in either queue
  -- and not busy. The fuel for that is the length of the longer queue.
  pub process_event-Drains :
      (fuel : ℕ) (q : Queue) (trace : Trace)
      → IsQuiet call
      → IsQuietHandler changed
      → length q.task_queue ≤ fuel
      → length q.event_queue ≤ fuel
      → (q' : Queue) × (process_event call changed fuel q trace
          ≡ some (q', trace ++ task_steps q.task_queue ++ event_steps q.event_queue))
        × (q'.task_queue ≡ [])
        × (q'.event_queue ≡ [])
        × (q'.is_busy ≡ false)
  unfolding process_event
  process_event-Drains fuel q trace quiet still le_tasks le_events =
      let (q1, runs1, empty1, events1) =
        run_tasks-Drains fuel q.task_queue (record q { is_busy = true }) trace quiet refl
          le_tasks in
      let (q2, runs2, tasks2, empty2) =
        run_events-Drains fuel q.event_queue q1 (trace ++ task_steps q.task_queue) quiet still
          events1 le_events in
      (
        record q2 { is_busy = false },
        ap (λ r. map_some r (λ s. map_some (run_events call changed fuel s.0.event_queue s) idle))
              runs1
            ∙ ap
                (λ x.
                  map_some (run_events call changed fuel x (q1, trace ++ task_steps q.task_queue))
                    idle)
                events1
            ∙ ap (λ r. map_some r idle) runs2,
        tasks2 ∙ empty1,
        empty2,
        refl,
      )
