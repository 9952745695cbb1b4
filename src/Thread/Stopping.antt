-- ===== src/Thread/Stopping.antt =====
-- What `stop` of src/base/thread.cpp leaves behind, and where it never returns.
use mifsa_base.Base.{ℕ, ◌<◌, Bool, true, false, ◌≡◌, ◌≢◌, refl, subst, ◌⊎◌, inl, inr, arith}
use mifsa_base.Thread.{
  Thread, Handle, joinable, released, Worker, unborn, running, notifying, gone, Stop, outside,
  testing, locking, waiting, woken, awake, joining, joining_idle, returned, Step, starting,
  restarting, start_fails, restart_fails, stopping, leaving, first_test, lock_and_wait, time_out,
  spurious, lock_again, second_test, join, join_idle, run_ends, notify, detached_ends,
  detached_notifies, Reach, later, Steps, stay, more, make_thread, launch, enter_stop, test_running,
  test_again, wake,
}

-- A handle that may be joined has a thread, and without one no thread of the object is left.
abbrev pub fits : Handle → Worker → Bool
fits joinable unborn = false
fits joinable _ = true
fits _ gone = true
fits _ unborn = true
fits _ _ = false

-- A call that waits has a handle that may be joined, and one that has returned has none.
abbrev pub holds : Stop → Handle → Bool
holds outside h = true
holds (testing m) h = true
holds (returned a) joinable = false
holds (returned a) _ = true
holds (locking m) joinable = true
holds (waiting m) joinable = true
holds (woken m) joinable = true
holds (awake m) joinable = true
holds (joining m) joinable = true
holds (joining_idle m) joinable = true
holds _ _ = false

abbrev pub IsSound : Thread → Type 0
IsSound t = (fits t.handle t.worker ≡ true) × (holds t.stop t.handle ≡ true)

test_running-IsSound :
    (m : ℕ) (h : Handle) (b : Bool) (t : Thread)
    → t.handle ≡ h
    → IsSound t
    → IsSound (test_running m h b t)
unfolding test_running
test_running-IsSound m Handle.absent true t e s = ground arith
test_running-IsSound m joinable true t e s = ground arith
test_running-IsSound m released true t e s = ground arith
test_running-IsSound m Handle.absent false t e s = ground arith
test_running-IsSound m joinable false t e s = ground arith
test_running-IsSound m released false t e s = ground arith

test_again-IsSound :
    (m : ℕ) (b : Bool) (t : Thread) → t.stop ≡ awake m → IsSound t → IsSound (test_again m b t)
unfolding test_again
test_again-IsSound m true t e s = ground arith
test_again-IsSound m false t e s = ground arith

wake-holds : (s : Stop) (h : Handle) → holds s h ≡ true → holds (wake s) h ≡ true
wake-holds s h e = ground arith

Step-IsSound : (t u : Thread) → Step t u → IsSound t → IsSound u
unfolding launch enter_stop
Step-IsSound t _ (starting idle runs rests none_yet) s = ground arith
Step-IsSound t _ (restarting answer idle runs rests) s = ground arith
Step-IsSound t _ (start_fails idle runs rests none_yet) s = s
Step-IsSound t _ (restart_fails answer idle runs rests) s = (s.0, refl)
Step-IsSound t _ (stopping m idle) s = (s.0, refl)
Step-IsSound t _ (leaving answer e) s = (s.0, refl)
Step-IsSound t _ (first_test m e) s = test_running-IsSound m t.handle t.is_running t refl s
Step-IsSound t _ (lock_and_wait m e) s = ground arith
Step-IsSound t _ (time_out m e limited) s = ground arith
Step-IsSound t _ (spurious m e) s = ground arith
Step-IsSound t _ (lock_again m e) s = ground arith
Step-IsSound t _ (second_test m e) s = test_again-IsSound m t.is_running t e s
Step-IsSound t _ (join m e ends) s = ground arith
Step-IsSound t _ (join_idle m e ends) s = ground arith
Step-IsSound t _ (run_ends runs) s = ground arith
Step-IsSound t _ (notify e free) s = (ground arith, wake-holds t.stop t.handle s.1)
Step-IsSound t _ (detached_ends some_left) s = s
Step-IsSound t _ (detached_notifies some_left free) s = (s.0, wake-holds t.stop t.handle s.1)

Reach-IsSound : (has_run : Bool) (t : Thread) → Reach has_run t → IsSound t
unfolding make_thread
Reach-IsSound has_run _ Reach.start = (refl, refl)
Reach-IsSound has_run u (later {t} r s) = Step-IsSound t u s (Reach-IsSound has_run t r)

returned_lem :
    (answer : Bool) (h : Handle) (w : Worker)
    → fits h w ≡ true
    → holds (returned answer) h ≡ true
    → (h ≢ joinable) × ((w ≡ gone) ⊎ (w ≡ unborn))
returned_lem answer joinable w f e = absurd cc
returned_lem answer Handle.absent gone f e = (λ same. absurd cc, inl refl)
returned_lem answer Handle.absent unborn f e = (λ same. absurd cc, inr refl)
returned_lem answer Handle.absent running f e = absurd cc
returned_lem answer Handle.absent notifying f e = absurd cc
returned_lem answer released gone f e = (λ same. absurd cc, inl refl)
returned_lem answer released unborn f e = (λ same. absurd cc, inr refl)
returned_lem answer released running f e = absurd cc
returned_lem answer released notifying f e = absurd cc

-- Whenever a call of `stop` has returned, whatever its answer and however the calls and threads were
-- interleaved, the object holds no thread that may be joined, so that it may be destroyed or start the next
-- one, and none of its threads runs any more but those that were detached.
pub Reach-returned :
    (has_run : Bool) (t : Thread) (answer : Bool)
    → Reach has_run t
    → t.stop ≡ returned answer
    → (t.handle ≢ joinable) × ((t.worker ≡ gone) ⊎ (t.worker ≡ unborn))
Reach-returned has_run t answer r e =
    let s = Reach-IsSound has_run t r in
    returned_lem answer t.handle t.worker s.0 (subst (λ x. holds x t.handle ≡ true) e s.1)

-- The call is in `join` with the mutex, and the thread waits for the mutex to notify.
abbrev pub IsBlocked : ℕ → Thread → Type 0
IsBlocked m t = (t.stop ≡ joining m) × (t.worker ≡ notifying)

Step-IsBlocked : (m : ℕ) (t u : Thread) → Step t u → IsBlocked m t → IsBlocked m u
unfolding launch enter_stop
Step-IsBlocked m t _ (starting idle runs rests none_yet) b = absurd (ground arith)
Step-IsBlocked m t _ (restarting answer idle runs rests) b = absurd (ground arith)
Step-IsBlocked m t _ (start_fails idle runs rests none_yet) b = b
Step-IsBlocked m t _ (restart_fails answer idle runs rests) b = absurd (ground arith)
Step-IsBlocked m t _ (stopping n idle) b = absurd (ground arith)
Step-IsBlocked m t _ (leaving answer e) b = absurd (ground arith)
Step-IsBlocked m t _ (first_test n e) b = absurd (ground arith)
Step-IsBlocked m t _ (lock_and_wait n e) b = absurd (ground arith)
Step-IsBlocked m t _ (time_out n e limited) b = absurd (ground arith)
Step-IsBlocked m t _ (spurious n e) b = absurd (ground arith)
Step-IsBlocked m t _ (lock_again n e) b = absurd (ground arith)
Step-IsBlocked m t _ (second_test n e) b = absurd (ground arith)
Step-IsBlocked m t _ (join n e ends) b = absurd (ground arith)
Step-IsBlocked m t _ (join_idle n e ends) b = absurd (ground arith)
Step-IsBlocked m t _ (run_ends runs) b = absurd (ground arith)
Step-IsBlocked m t _ (notify e free) b = absurd (ground arith)
Step-IsBlocked m t _ (detached_ends some_left) b = b
Step-IsBlocked m t _ (detached_notifies some_left free) b = absurd (ground arith)

Steps-IsBlocked : (m : ℕ) (t u : Thread) → Steps t u → IsBlocked m t → IsBlocked m u
Steps-IsBlocked m t _ stay b = b
Steps-IsBlocked m t v (more {u} run s) b = Step-IsBlocked m u v s (Steps-IsBlocked m t u run b)

-- The thread has reset `is_running`, and the call has seen it behind its wait.
abbrev pub deadlocked : ℕ → Thread
deadlocked m = record {
  has_run = true;
  is_running = false;
  is_ready_finished = true;
  handle = joinable;
  worker = notifying;
  stop = joining m;
  detached = 0;
  detached_notifying = 0;
}

deadlocked-Reach : (m : ℕ) → 0 < m → Reach true (deadlocked m)
unfolding make_thread launch enter_stop test_running test_again
deadlocked-Reach m limited =
    let launched = later Reach.start (starting refl refl refl refl) in
    let waits =
      later (later (later launched (stopping m refl)) (first_test m refl)) (lock_and_wait m refl) in
    let locked = later (later waits (time_out m refl limited)) (lock_again m refl) in
    later (later locked (run_ends refl)) (second_test m refl)

-- A call of `stop` with a limit, on a thread that runs, can come to a state from which it never returns,
-- whatever steps are taken: the limit expires, the thread resets `isRunning`, and the call joins it with the
-- mutex locked, for which the thread waits before its notification.
pub Reach-deadlock :
    (m : ℕ) (u : Thread)
    → 0 < m
    → Steps (deadlocked m) u
    → Reach true (deadlocked m) × (u.stop ≡ joining m) × (u.worker ≡ notifying)
Reach-deadlock m u limited run =
    let blocked = Steps-IsBlocked m (deadlocked m) u run (refl, refl) in
    (deadlocked-Reach m limited, blocked.0, blocked.1)
