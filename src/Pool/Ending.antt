-- ===== src/Pool/Ending.antt =====
-- The workers of src/base/pool.cpp after `shutdown`.
use mifsa_base.Base.{
  ℕ, suc, ◌+◌, ◌*◌, ◌≤◌, ◌<◌, Bool, true, false, List, [], ◌∷◌, none, some, ◌≡◌, ◌≢◌, refl, ap, ◌∙◌,
  arith, get_elem?, length,
}
use mifsa_base.Pool.{
  Pool, Worker, Task, testing, entering, asleep, working, ended, worker_step, test_tasks, take_task,
  call_task,
}
use mifsa_base.Pool.Order.{total, total-set}

abbrev pub weight : Worker → ℕ
weight testing = 3
weight entering = 2
weight asleep = 3
weight (working task) = 5
weight ended = 0

-- The steps that the workers have left at most, when no task is posted any more.
abbrev pub measure : Pool → ℕ
measure p = 4 * length p.tasks + total weight p.workers

-- `k` steps of workers that have not ended.
pub data Work : ℕ → Pool → Pool → Type 0 where
  done : {p : Pool} → Work 0 p p
  step :
      {k : ℕ} {p q : Pool} (i : ℕ) (w : Worker)
      → get_elem? p.workers i ≡ some w
      → w ≢ ended
      → Work k (worker_step i w p) q
      → Work (suc k) p q

test_tasks-measure :
    (i : ℕ) (tasks : List Task) (p : Pool)
    → p.tasks ≡ tasks
    → get_elem? p.workers i ≡ some testing
    → (measure (test_tasks i tasks p) < measure p)
      × ((test_tasks i tasks p).exit_flag ≡ p.exit_flag)
unfolding test_tasks
test_tasks-measure i [] p e at =
    (omega (arith, total-set weight p.workers i ended testing at), refl)
test_tasks-measure i (task ∷ tasks) p e at =
    (omega (arith, total-set weight p.workers i entering testing at), refl)

take_task-measure :
    (i : ℕ) (tasks : List Task) (flag : Bool) (p : Pool)
    → p.tasks ≡ tasks
    → flag ≡ true
    → get_elem? p.workers i ≡ some entering
    → (measure (take_task i tasks flag p) < measure p)
      × ((take_task i tasks flag p).exit_flag ≡ p.exit_flag)
unfolding take_task
take_task-measure i [] false p e on at = absurd cc
take_task-measure i [] true p e on at =
    (omega (arith, total-set weight p.workers i ended entering at), refl)
take_task-measure i (task ∷ tasks) flag p e on at =
    (omega (arith, ap length e, total-set weight p.workers i (working task) entering at), refl)

call_task-measure :
    (i : ℕ) (task : Task) (p : Pool)
    → get_elem? p.workers i ≡ some (working task)
    → (measure (call_task i task p) < measure p) × ((call_task i task p).exit_flag ≡ p.exit_flag)
unfolding call_task
call_task-measure i none p at =
    (omega (arith, total-set weight p.workers i testing (working none) at), refl)
call_task-measure i (some c) p at =
    (omega (arith, total-set weight p.workers i testing (working (some c)) at), refl)

worker_step-measure :
    (i : ℕ) (w : Worker) (p : Pool)
    → p.exit_flag ≡ true
    → get_elem? p.workers i ≡ some w
    → w ≢ ended
    → (measure (worker_step i w p) < measure p) × ((worker_step i w p).exit_flag ≡ true)
unfolding worker_step
worker_step-measure i testing p flag at ne =
    let (less, same) = test_tasks-measure i p.tasks p refl at in (less, same ∙ flag)
worker_step-measure i entering p flag at ne =
    let (less, same) = take_task-measure i p.tasks p.exit_flag p refl flag at in (less, same ∙ flag)
worker_step-measure i asleep p flag at ne =
    (omega (arith, total-set weight p.workers i entering asleep at), flag)
worker_step-measure i (working task) p flag at ne =
    let (less, same) = call_task-measure i task p at in (less, same ∙ flag)
worker_step-measure i ended p flag at ne = absurd (ne refl)

-- Once a pool is shut down and no task is posted any more, its workers take, in any order and
-- counting where one wakes up, no more steps than `measure`: at most three for each of them, or five with a task in
-- hand, and four for each task that waits. The pool stays shut down.
pub Work-measure :
    (k : ℕ) (p q : Pool)
    → Work k p q
    → p.exit_flag ≡ true
    → (k + measure q ≤ measure p) × (q.exit_flag ≡ true)
Work-measure _ p _ done flag = (omega arith, flag)
Work-measure _ p q (step {k} i w at ne more) flag =
    let (less, flag') = worker_step-measure i w p flag at ne in
    let (rest, last) = Work-measure k (worker_step i w p) q more flag' in (omega arith, last)
