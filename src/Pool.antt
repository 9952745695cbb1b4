-- ===== src/Pool.antt =====
-- src/base/pool.cpp with include/mifsa/base/pool.h: the workers of a pool, interleaved in any order. A
-- task is the number of its callback, and `none` a null callback. A worker that sleeps may wake up at
-- any time, notified or not, as a condition variable allows.
pub mod Order
pub mod Ending
use mifsa_base.Base.{
  ℕ, zero, suc, Bool, true, false, List, [], ◌∷◌, ◌++◌, Option, none, some, ◌≡◌, get_elem?, set,
  replicate,
}

abbrev pub Task : Type 0
Task = Option ℕ

-- Where a worker stands: at the test of its loop, at the lock, in `condition.wait`, with a task that it
-- has taken, or behind the loop.
pub data Worker : Type 0 where
  testing entering asleep : Worker
  working : Task → Worker
  ended : Worker

-- `posted`, `taken` and `called` are records of the tasks that were enqueued, of those that a worker took, and
-- of the callbacks that were called, in order; the program does not keep them.
pub record Pool : Type 0 where
  pub tasks : List Task
  pub exit_flag : Bool
  pub workers : List Worker
  pub posted : List Task
  pub taken : List Task
  pub called : List ℕ

-- The constructor, with the threads it starts.
unfoldable pub make_pool : ℕ → Pool
make_pool thread_count = record {
  tasks = [];
  exit_flag = false;
  workers = replicate thread_count testing;
  posted = [];
  taken = [];
  called = [];
}

unfoldable pub enqueue : Task → Pool → Pool
enqueue task p = record p { tasks = p.tasks ++ task ∷ []; posted = p.posted ++ task ∷ [] }

-- `shutdown`, up to where it joins the threads.
unfoldable pub shutdown : Pool → Pool
shutdown p = record p { exit_flag = true }

abbrev pub move : ℕ → Worker → Pool → Pool
move i w p = record p { workers = set p.workers i w }

-- `while (!tasks.empty())`, at worker `i`.
unfoldable pub test_tasks : ℕ → List Task → Pool → Pool
test_tasks i [] p = move i ended p
test_tasks i (task ∷ tasks) p = move i entering p

-- With the lock: the condition of `wait`, the test behind it, and the first task.
unfoldable pub take_task : ℕ → List Task → Bool → Pool → Pool
take_task i [] false p = move i asleep p
take_task i [] true p = move i ended p
take_task i (task ∷ tasks) exit_flag p = record p {
  tasks = tasks;
  workers = set p.workers i (working task);
  taken = p.taken ++ task ∷ [];
}

-- `if (task) task();`
unfoldable pub call_task : ℕ → Task → Pool → Pool
call_task i none p = move i testing p
call_task i (some c) p = record p { workers = set p.workers i testing; called = p.called ++ c ∷ [] }

-- One step of worker `i`, which stands at `w`.
unfoldable pub worker_step : ℕ → Worker → Pool → Pool
unfolding test_tasks take_task call_task
worker_step i testing p = test_tasks i p.tasks p
worker_step i entering p = take_task i p.tasks p.exit_flag p
worker_step i asleep p = move i entering p
worker_step i (working task) p = call_task i task p
worker_step i ended p = p

pub data Step (p : Pool) : Pool → Type 0 where
  enqueuing : (task : Task) → Step p (enqueue task p)
  shutting_down : Step p (shutdown p)
  working_on : (i : ℕ) (w : Worker) → get_elem? p.workers i ≡ some w → Step p (worker_step i w p)

pub data Reach (n : ℕ) : Pool → Type 0 where
  start : Reach n (make_pool n)
  later : {p q : Pool} → Reach n p → Step p q → Reach n q
