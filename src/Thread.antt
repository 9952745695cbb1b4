-- ===== src/Thread.antt =====
-- src/base/thread.cpp with include/mifsa/base/thread.h: the object, the thread that it runs, and the one
-- call of `stop` that its owner may be in, interleaved at their accesses to what they share. The mutex is
-- held by `stop` from its lock to its return, but for the wait; a thread takes it to notify and to end.
pub mod Stopping
pub mod Current
use mifsa_base.Base.{
  ℕ, Bool, true, false, not, ◌&&◌, List, [], ◌∷◌, Option, none, some, ◌≡◌, ◌+◌, ◌-◌, ◌<◌,
}

-- The `std::thread` behind `thread`: none, one that may be joined, or one that was joined or detached.
pub data Handle : Type 0 where
  absent joinable released : Handle

-- Where the thread that was started last stands: there is none, before `isRunning = false`, before the
-- lock and the notification, and at its end. With it a thread that was detached goes on unseen.
pub data Worker : Type 0 where
  unborn running notifying gone : Worker

-- Where a call of `stop` stands: at its first test, at the lock, in the wait, at the lock again after it, behind
-- the wait, in `join` after either test, or returned.
pub data Stop : Type 0 where
  outside : Stop
  testing locking waiting woken awake joining joining_idle : ℕ → Stop
  returned : Bool → Stop

pub record Thread : Type 0 where
  pub has_run : Bool
  pub is_running : Bool
  pub is_ready_finished : Bool
  pub handle : Handle
  pub worker : Worker
  pub stop : Stop
  pub detached : ℕ
  pub detached_notifying : ℕ

-- The constructor; `has_run` tells whether `m_runCb` is set.
unfoldable pub make_thread : Bool → Thread
make_thread has_run = record {
  has_run = has_run;
  is_running = false;
  is_ready_finished = true;
  handle = Handle.absent;
  worker = unborn;
  stop = outside;
  detached = 0;
  detached_notifying = 0;
}

unfoldable pub set_ready_finished : Bool → Thread → Thread
set_ready_finished ready t = record t { is_ready_finished = ready }

-- The end of `start`, from where `isReadyFinished` is reset on; the system has given a thread.
unfoldable pub launch : Thread → Thread
launch t = record t {
  is_running = true;
  is_ready_finished = false;
  handle = joinable;
  worker = running;
}

-- `stop`, up to its first test; `milli_s` is 0 for no limit.
unfoldable pub enter_stop : ℕ → Thread → Thread
enter_stop milli_s t = record t { is_ready_finished = true; stop = testing milli_s }

-- The first test of `stop`.
unfoldable pub test_running : ℕ → Handle → Bool → Thread → Thread
test_running milli_s Handle.absent true t = record t { stop = returned false }
test_running milli_s joinable true t = record t { stop = locking milli_s }
test_running milli_s released true t = record t { stop = returned true }
test_running milli_s joinable false t = record t { stop = joining_idle milli_s }
test_running milli_s _ false t = record t { stop = returned true }

-- Behind the wait: a thread that still runs is detached, and `isRunning` is reset.
unfoldable pub test_again : ℕ → Bool → Thread → Thread
test_again milli_s true t = record t {
  handle = released;
  detached = t.detached + 1;
  worker = unborn;
  is_running = false;
  stop = returned true;
}
test_again milli_s false t = record t { stop = joining milli_s }

abbrev pub wake : Stop → Stop
wake (waiting milli_s) = woken milli_s
wake s = s

-- Whether the call has the mutex.
abbrev pub holds_lock : Stop → Bool
holds_lock (awake milli_s) = true
holds_lock (joining milli_s) = true
holds_lock _ = false

-- The steps of the owner, which calls `start` and `stop` in turn, and of the thread. `start` itself stops
-- a thread that has ended before it launches the next one.
pub data Step (t : Thread) : Thread → Type 0 where
  starting :
      t.stop ≡ outside
      → t.has_run ≡ true
      → t.is_running ≡ false
      → t.handle ≡ Handle.absent
      → Step t (launch t)
  restarting :
      (answer : Bool)
      → t.stop ≡ returned answer
      → t.has_run ≡ true
      → t.is_running ≡ false
      → Step t (launch (record t { stop = outside }))
  -- The system gives no thread: `isRunning` stays set.
  start_fails :
      t.stop ≡ outside
      → t.has_run ≡ true
      → t.is_running ≡ false
      → t.handle ≡ Handle.absent
      → Step t (record t { is_running = true; is_ready_finished = false })
  restart_fails :
      (answer : Bool)
      → t.stop ≡ returned answer
      → t.has_run ≡ true
      → t.is_running ≡ false
      → Step t (record t { is_running = true; is_ready_finished = false; stop = outside })
  stopping : (milli_s : ℕ) → t.stop ≡ outside → Step t (enter_stop milli_s t)
  leaving : (answer : Bool) → t.stop ≡ returned answer → Step t (record t { stop = outside })
  first_test :
      (milli_s : ℕ)
      → t.stop ≡ testing milli_s
      → Step t (test_running milli_s t.handle t.is_running t)
  lock_and_wait :
      (milli_s : ℕ) → t.stop ≡ locking milli_s → Step t (record t { stop = waiting milli_s })
  time_out :
      (milli_s : ℕ)
      → t.stop ≡ waiting milli_s
      → 0 < milli_s
      → Step t (record t { stop = woken milli_s })
  spurious : (milli_s : ℕ) → t.stop ≡ waiting milli_s → Step t (record t { stop = woken milli_s })
  lock_again : (milli_s : ℕ) → t.stop ≡ woken milli_s → Step t (record t { stop = awake milli_s })
  second_test : (milli_s : ℕ) → t.stop ≡ awake milli_s → Step t (test_again milli_s t.is_running t)
  join :
      (milli_s : ℕ)
      → t.stop ≡ joining milli_s
      → t.worker ≡ gone
      → Step t (record t { handle = released; is_running = false; stop = returned true })
  join_idle :
      (milli_s : ℕ)
      → t.stop ≡ joining_idle milli_s
      → t.worker ≡ gone
      → Step t (record t { handle = released; stop = returned true })
  run_ends : t.worker ≡ running → Step t (record t { is_running = false; worker = notifying })
  -- The thread locks, notifies and unlocks at its end.
  notify :
      t.worker ≡ notifying
      → holds_lock t.stop ≡ false
      → Step t (record t { worker = gone; stop = wake t.stop })
  -- A thread that was detached comes to its end, and resets what now belongs to another.
  detached_ends :
      0 < t.detached
      → Step t (record t {
        is_running = false;
        detached = t.detached - 1;
        detached_notifying = t.detached_notifying + 1;
      })
  detached_notifies :
      0 < t.detached_notifying
      → holds_lock t.stop ≡ false
      → Step t (record t { detached_notifying = t.detached_notifying - 1; stop = wake t.stop })

pub data Reach (has_run : Bool) : Thread → Type 0 where
  start : Reach has_run (make_thread has_run)
  later : {t u : Thread} → Reach has_run t → Step t u → Reach has_run u

-- A run from one state to another.
pub data Steps (t : Thread) : Thread → Type 0 where
  stay : Steps t t
  more : {u v : Thread} → Steps t u → Step u v → Steps t v
