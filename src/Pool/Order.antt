-- ===== src/Pool/Order.antt =====
-- The order in which the workers of src/base/pool.cpp take the tasks, and what becomes of each.
use mathlib.Core.List.{append_assoc}
use mifsa_base.Base.{
  ℕ, zero, suc, ◌+◌, Bool, true, false, List, [], ◌∷◌, ◌++◌, none, some, ◌≡◌, refl, sym, ap, ◌∙◌,
  arith, ◌==◌, if◌then◌else◌, get_elem?, set, replicate,
}
use mifsa_base.Pool.{
  Pool, Worker, Task, testing, entering, asleep, working, ended, Step, enqueuing, shutting_down,
  working_on, Reach, start, later, make_pool, enqueue, shutdown, worker_step, test_tasks, take_task,
  call_task, move,
}

-- How often a callback stands in a list of tasks, of callbacks, and in the hands of the workers.
abbrev pub is_call : ℕ → Task → ℕ
is_call c none = 0
is_call c (some d) = if c == d then 1 else 0

abbrev pub times : ℕ → List Task → ℕ
times c [] = 0
times c (task ∷ tasks) = is_call c task + times c tasks

abbrev pub calls : ℕ → List ℕ → ℕ
calls c [] = 0
calls c (d ∷ ds) = is_call c (some d) + calls c ds

abbrev pub holds : ℕ → Worker → ℕ
holds c (working task) = is_call c task
holds c _ = 0

abbrev pub total : (Worker → ℕ) → List Worker → ℕ
total weight [] = 0
total weight (w ∷ ws) = weight w + total weight ws

pub total-set :
    (weight : Worker → ℕ) (ws : List Worker) (i : ℕ) (v w : Worker)
    → get_elem? ws i ≡ some w
    → total weight (set ws i v) + weight w ≡ total weight ws + weight v
total-set weight [] i v w e = absurd cc
total-set weight (x ∷ ws) zero v w e = let same : x ≡ w = cc in rw same (omega arith)
total-set weight (x ∷ ws) (suc i) v w e = omega (arith, total-set weight ws i v w e)

times-append : (c : ℕ) (xs ys : List Task) → times c (xs ++ ys) ≡ times c xs + times c ys
times-append c [] ys = omega arith
times-append c (x ∷ xs) ys = omega (arith, times-append c xs ys)

calls-append : (c : ℕ) (xs ys : List ℕ) → calls c (xs ++ ys) ≡ calls c xs + calls c ys
calls-append c [] ys = omega arith
calls-append c (x ∷ xs) ys = omega (arith, calls-append c xs ys)

total-replicate : (c n : ℕ) → total (holds c) (replicate n testing) ≡ 0
total-replicate c zero = refl
total-replicate c (suc n) = omega (arith, total-replicate c n)

-- The posted tasks are those taken and those that wait, in this order; a callback is called, or at hand
-- to be called, as often as it was taken.
pub record IsKept (p : Pool) : Type 0 where
  pub order : p.posted ≡ p.taken ++ p.tasks
  pub once : (c : ℕ) → times c p.taken ≡ calls c p.called + total (holds c) p.workers

IsKept-move :
    (p : Pool) (i : ℕ) (v w : Worker)
    → get_elem? p.workers i ≡ some w
    → ((c : ℕ) → holds c v ≡ holds c w)
    → IsKept p
    → IsKept (move i v p)
IsKept-move p i v w e same k = record {
  order = k.order;
  once = λ c. omega (arith, k.once c, total-set (holds c) p.workers i v w e, same c);
}

take_task-IsKept :
    (i : ℕ) (tasks : List Task) (flag : Bool) (p : Pool)
    → p.tasks ≡ tasks
    → get_elem? p.workers i ≡ some entering
    → IsKept p
    → IsKept (take_task i tasks flag p)
unfolding take_task
take_task-IsKept i [] false p e at k = IsKept-move p i asleep entering at (λ c. refl) k
take_task-IsKept i [] true p e at k = IsKept-move p i ended entering at (λ c. refl) k
take_task-IsKept i (task ∷ tasks) flag p e at k = record {
  order = k.order ∙ ap (◌++◌ p.taken) e ∙ sym (append_assoc p.taken (task ∷ []) tasks);
  once = λ c. omega (
    arith,
    k.once c,
    times-append c p.taken (task ∷ []),
    total-set (holds c) p.workers i (working task) entering at,
  );
}

test_tasks-IsKept :
    (i : ℕ) (tasks : List Task) (p : Pool)
    → get_elem? p.workers i ≡ some testing
    → IsKept p
    → IsKept (test_tasks i tasks p)
unfolding test_tasks
test_tasks-IsKept i [] p at k = IsKept-move p i ended testing at (λ c. refl) k
test_tasks-IsKept i (task ∷ tasks) p at k = IsKept-move p i entering testing at (λ c. refl) k

call_task-IsKept :
    (i : ℕ) (task : Task) (p : Pool)
    → get_elem? p.workers i ≡ some (working task)
    → IsKept p
    → IsKept (call_task i task p)
unfolding call_task
call_task-IsKept i none p at k = IsKept-move p i testing (working none) at (λ c. refl) k
call_task-IsKept i (some d) p at k = record {
  order = k.order;
  once = λ c. omega (
    arith,
    k.once c,
    calls-append c p.called (d ∷ []),
    total-set (holds c) p.workers i testing (working (some d)) at,
  );
}

worker_step-IsKept :
    (i : ℕ) (w : Worker) (p : Pool)
    → get_elem? p.workers i ≡ some w
    → IsKept p
    → IsKept (worker_step i w p)
unfolding worker_step
worker_step-IsKept i testing p at k = test_tasks-IsKept i p.tasks p at k
worker_step-IsKept i entering p at k = take_task-IsKept i p.tasks p.exit_flag p refl at k
worker_step-IsKept i asleep p at k = IsKept-move p i entering asleep at (λ c. refl) k
worker_step-IsKept i (working task) p at k = call_task-IsKept i task p at k
worker_step-IsKept i ended p at k = k

Step-IsKept : (p q : Pool) → Step p q → IsKept p → IsKept q
unfolding enqueue shutdown
Step-IsKept p _ (enqueuing task) k = record {
  order = ap (λ x. x ++ task ∷ []) k.order ∙ append_assoc p.taken p.tasks (task ∷ []);
  once = k.once;
}
Step-IsKept p _ shutting_down k = record { order = k.order; once = k.once }
Step-IsKept p _ (working_on i w at) k = worker_step-IsKept i w p at k

-- In any run of a pool of any number of workers the tasks are taken in the order in which they were
-- posted, none is lost and none is taken twice; and each callback has been called, or is in the
-- hands of a worker, as often as it was taken.
pub Reach-IsKept : (n : ℕ) (p : Pool) → Reach n p → IsKept p
unfolding make_pool
Reach-IsKept n _ start = record { order = refl; once = λ c. omega (arith, total-replicate c n) }
Reach-IsKept n _ (later {p} {q} r s) = Step-IsKept p q s (Reach-IsKept n p r)
