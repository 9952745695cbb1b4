-- ===== src/Timer/Pushing.antt =====
-- Where `Queue::processNextSleepTime` (src/base/queue.cpp) puts the callbacks of the timers of
-- src/base/timer.cpp.
use mathlib.Core.List.{append_assoc, append-nil}
use mifsa_base.Base.{
  ℕ, zero, suc, not, List, [], ◌∷◌, ◌++◌, none, some, ◌≡◌, refl, sym, ap, ◌∙◌, if_elim, ltb,
}
use mifsa_base.Base.Int.{ℤ}
use mifsa_base.Timer.{
  Timer, Callback, Pass, push_rounds, push_due, settle, fire, look_at, look_at_all, active,
  expect_count,
}

-- The callbacks that the timers post stand behind those that wait.
abbrev pub Extends : List Callback → List Callback → Type 0
Extends xs ys = (more : List Callback) × (ys ≡ xs ++ more)

Extends-trans : (xs ys zs : List Callback) → Extends xs ys → Extends ys zs → Extends xs zs
Extends-trans xs ys zs (m, e) (n, f) = (m ++ n, f ∙ ap (λ x. x ++ n) e ∙ append_assoc xs m n)

Extends-refl : (xs : List Callback) → Extends xs xs
Extends-refl xs = ([], sym (append-nil xs))

push_rounds-Extends :
    (rounds c : ℕ) (t : Timer) (tasks : List Callback)
    → Extends tasks (push_rounds rounds c t tasks).1
unfolding push_rounds
push_rounds-Extends zero c t tasks = Extends-refl tasks
push_rounds-Extends (suc rounds) c t tasks =
    if_elim (λ (r : Timer × List Callback). Extends tasks r.1) (not t.loop)
      (λ _. (some c ∷ [], refl))
      (λ _.
        Extends-trans tasks _ _ (some c ∷ [], refl)
          (push_rounds-Extends rounds c t (tasks ++ some c ∷ [])))

push_due-Extends :
    (cb : Callback) (rounds : ℕ) (t : Timer) (tasks : List Callback)
    → Extends tasks (push_due cb rounds t tasks).1
unfolding push_due
push_due-Extends none rounds t tasks = Extends-refl tasks
push_due-Extends (some c) rounds t tasks = push_rounds-Extends rounds c t tasks

look_at-Extends :
    (now : ℕ) (t : Timer) (tasks : List Callback) (mini : ℤ)
    → Extends tasks (look_at now t tasks mini).tasks
unfolding look_at fire settle
look_at-Extends now t tasks mini =
    let P = λ (r : Pass). Extends tasks r.tasks in
    if_elim P (not (active t)) (λ _. Extends-refl tasks)
      (λ _.
        if_elim P (ltb t.loop_count (expect_count now t)) (λ _. push_due-Extends t.cb _ t tasks)
          (λ _. Extends-refl tasks))

pub look_at_all-Extends :
    (now : ℕ) (ts : List Timer) (tasks : List Callback) (mini : ℤ)
    → Extends tasks (look_at_all now ts tasks mini).tasks
unfolding look_at_all
look_at_all-Extends now [] tasks mini = Extends-refl tasks
look_at_all-Extends now (t ∷ ts) tasks mini =
    let one = look_at now t tasks mini in
    Extends-trans tasks _ _ (look_at-Extends now t tasks mini)
      (look_at_all-Extends now ts one.tasks one.mini_time)
