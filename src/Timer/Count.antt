-- ===== src/Timer/Count.antt =====
-- How often a timer of src/base/queue.cpp and src/base/timer.cpp fires over any number of passes.
use mathlib.Core.List.{append_assoc, append-nil}
use Prim.Native.Nat.{max}
use mifsa_base.Base.{
  ℕ, zero, suc, ◌+◌, ◌-◌, ◌/◌, ◌≤◌, ◌<◌, Bool, true, false, not, ◌||◌, List, [], ◌∷◌, ◌++◌, some,
  ltb, ltb→lt, ◌≡◌, refl, sym, ap, ◌∙◌, arith, if◌then◌else◌, replicate, Bool-cases, if_elim, inl,
  inr,
}
use mifsa_base.Base.Int.{ℤ, pos, negsuc}
use mifsa_base.Timer.{
  Timer, Pass, Callback, u64, error_offset, stop, active, interval_time, elapsed, expect_count,
  push_rounds, push_due, settle, fire, look_at, shorter, remain_time,
}

-- The passes of the queue over one timer at some times, and the callbacks that they push.
abbrev pub passes : List ℕ → Timer → List Callback → Timer × List Callback
passes [] t tasks = (t, tasks)
passes (now ∷ later) t tasks =
    let one = look_at now t tasks (negsuc 0) in passes later one.timer one.tasks

push_rounds-loop :
    (rounds c : ℕ) (t : Timer) (tasks : List Callback)
    → t.loop ≡ true
    → push_rounds rounds c t tasks ≡ (t, tasks ++ replicate rounds (some c))
unfolding push_rounds
push_rounds-loop zero c t tasks h = ap (λ x. (t, x)) (sym (append-nil tasks))
push_rounds-loop (suc rounds) c t tasks h =
    if_elim (λ r. r ≡ (t, tasks ++ replicate (suc rounds) (some c))) (not t.loop) (λ e. cc (h, e))
      (λ _.
        push_rounds-loop rounds c t (tasks ++ some c ∷ []) h
        ∙ ap (λ x. (t, x)) (append_assoc tasks _ _))

-- A looping timer that is due.
fire-loop :
    (now c : ℕ) (t : Timer) (tasks : List Callback)
    → t.loop ≡ true
    → t.cb ≡ some c
    → 0 < t.start_timer
    → fire now t tasks ≡ (
      record t { loop_count = expect_count now t },
      tasks ++ replicate (expect_count now t - t.loop_count) (some c),
    )
unfolding fire settle active push_due
fire-loop now c t tasks h e s =
    ap (λ x. settle (expect_count now t) (push_due x (expect_count now t - t.loop_count) t tasks)) e
    ∙ ap (settle (expect_count now t))
        (push_rounds-loop (expect_count now t - t.loop_count) c t tasks h)
    ∙ ground arith

-- A pass over an active, looping timer with a callback.
look_at-loop :
    (now c : ℕ) (t : Timer) (tasks : List Callback) (mini : ℤ)
    → t.loop ≡ true
    → t.cb ≡ some c
    → 0 < t.start_timer
    → ((look_at now t tasks mini).timer
        ≡ record t { loop_count = max t.loop_count (expect_count now t) })
      × ((look_at now t tasks mini).tasks
          ≡ tasks ++ replicate (expect_count now t - t.loop_count) (some c))
unfolding look_at active
look_at-loop now c t tasks mini h e s = elim (Bool-cases (ltb t.loop_count (expect_count now t))) [
  | inl due ↦ (
    ground (arith, ap (λ r. r.0) (fire-loop now c t tasks h e s)),
    ground (arith, ap (λ r. r.1) (fire-loop now c t tasks h e s)),
  )
  | inr not_due ↦ (ground arith, ground (arith, append-nil tasks))
]

-- The largest of the counts that the passes compute.
abbrev peak : ℕ → Timer → List ℕ → ℕ
peak count t [] = count
peak count t (now ∷ later) = peak (max count (expect_count now t)) t later

le-peak : (count : ℕ) (t : Timer) (times : List ℕ) → count ≤ peak count t times
le-peak count t [] = omega arith
le-peak count t (now ∷ later) = omega (arith, le-peak (max count (expect_count now t)) t later)

replicate-append :
    (m n k : ℕ) (c : Callback) → m + n ≡ k → replicate m c ++ replicate n c ≡ replicate k c
replicate-append zero n k c e = let e' : n ≡ k = omega arith in rw e'
replicate-append (suc m) n zero c e = absurd (omega arith)
replicate-append (suc m) n (suc k) c e = ap (◌∷◌ c) (replicate-append m n k c (omega arith))

-- The count does not depend on how often the timer has fired.
abbrev counted : ℕ → Timer → Timer
counted count t = record t { loop_count = count }

peak-counted :
    (count n : ℕ) (t : Timer) (times : List ℕ) → peak count (counted n t) times ≡ peak count t times
unfolding expect_count elapsed interval_time
peak-counted count n t [] = refl
peak-counted count n t (now ∷ later) = peak-counted (max count (expect_count now t)) n t later

passes-peak :
    (c : ℕ) (times : List ℕ) (t : Timer) (tasks : List Callback)
    → t.loop ≡ true
    → t.cb ≡ some c
    → 0 < t.start_timer
    → (passes times t tasks).1
      ≡ tasks ++ replicate (peak t.loop_count t times - t.loop_count) (some c)
passes-peak c [] t tasks h e s =
    sym (append-nil tasks) ∙ ap (λ k. tasks ++ replicate k (some c)) {x = 0} (omega arith)
passes-peak c (now ∷ later) t tasks h e s =
    let top = max t.loop_count (expect_count now t) in
    let (timer', tasks') = look_at-loop now c t tasks (negsuc 0) h e s in
    ap (λ q. (passes later q (look_at now t tasks (negsuc 0)).tasks).1) timer'
    ∙ passes-peak c later (counted top t) _ h e s
    ∙ ap (λ x. x ++ replicate (peak top (counted top t) later - top) (some c)) tasks'
    ∙ append_assoc tasks _ _
    ∙ ap (◌++◌ tasks) (
        replicate-append _ _ _ (some c)
          (omega (arith, peak-counted top top t later, le-peak top t later)))

pub interval_time_pos : (t : Timer) → 0 < interval_time t
unfolding interval_time
interval_time_pos t = ground arith

div_mono : (a b k : ℕ) → 0 < k → a ≤ b → a / k ≤ b / k
div_mono a b k p h = grind arith

-- What the queue has pushed by `last`, where it looked at the timer at no later time before.
expect_count-exact :
    (now : ℕ) (t : Timer)
    → t.start_timer ≤ now
    → now + error_offset < u64
    → expect_count now t ≡ (now - t.start_timer + error_offset) / interval_time t
unfolding expect_count elapsed
expect_count-exact now t after fits = ap (λ x. x / interval_time t) (omega arith)

expect_count_mono :
    (now last : ℕ) (t : Timer)
    → t.start_timer ≤ now
    → now ≤ last
    → last + error_offset < u64
    → expect_count now t ≤ expect_count last t
expect_count_mono now last t after le fits =
    rw (expect_count-exact now t after (omega arith), expect_count-exact last t (omega arith) fits)
      (div_mono _ _ _ (interval_time_pos t) (omega arith))

abbrev Within : ℕ → ℕ → List ℕ → Type 0
Within first last [] = Unit
Within first last (now ∷ later) = (first ≤ now) × (now ≤ last) × Within first last later

peak-last :
    (count last : ℕ) (t : Timer) (times : List ℕ)
    → Within t.start_timer last times
    → t.start_timer ≤ last
    → last + error_offset < u64
    → count ≤ expect_count last t
    → peak count t (times ++ last ∷ []) ≡ expect_count last t
peak-last count last t [] w after fits le = omega arith
peak-last count last t (now ∷ later) w after fits le =
    peak-last (max count (expect_count now t)) last t later w.2 after fits
      (omega (arith, expect_count_mono now last t w.0 w.1 fits))

-- A looping timer with a callback, started at `start_timer`, that the queue looks at at any times up to
-- `last` and at `last`: its callback has then been pushed once for each full interval since the start,
-- counting a millisecond more than has passed, and nothing else has been pushed. The timer is active with
-- a count of zero, no time lies before its start, and the last is below 2 ^ 64 less that millisecond.
pub passes_total :
    (c last : ℕ) (times : List ℕ) (t : Timer) (tasks : List Callback)
    → t.loop ≡ true
    → t.cb ≡ some c
    → 0 < t.start_timer
    → t.loop_count ≡ 0
    → Within t.start_timer last times
    → t.start_timer ≤ last
    → last + error_offset < u64
    → (passes (times ++ last ∷ []) t tasks).1
      ≡ tasks ++ replicate ((last - t.start_timer + error_offset) / interval_time t) (some c)
passes_total c last times t tasks h e s z w after fits =
    passes-peak c (times ++ last ∷ []) t tasks h e s
    ∙ ap (λ k. tasks ++ replicate k (some c))
        (omega (
          arith,
          peak-last t.loop_count last t times w after fits (omega arith),
          expect_count-exact last t after fits,
        ))

-- Whether a pass at one of the times finds the timer due.
abbrev pub due_any : List ℕ → Timer → Bool
due_any [] t = false
due_any (now ∷ later) t = ltb t.loop_count (expect_count now t) || due_any later t

passes_stopped :
    (times : List ℕ) (t : Timer) (tasks : List Callback)
    → t.start_timer ≡ 0
    → passes times t tasks ≡ (t, tasks)
unfolding look_at active
passes_stopped [] t tasks h = refl
passes_stopped (now ∷ later) t tasks h =
    if_elim (λ (r : Pass). passes later r.timer r.tasks ≡ (t, tasks)) (not (active t))
      (λ _. passes_stopped later t tasks h) (λ e. absurd (ground arith))

fire_once :
    (now c : ℕ) (t : Timer) (tasks : List Callback)
    → t.loop ≡ false
    → t.cb ≡ some c
    → t.loop_count < expect_count now t
    → fire now t tasks ≡ (stop t, tasks ++ some c ∷ [])
unfolding fire settle active push_due push_rounds stop
fire_once now c t tasks h e due =
    let rounds : expect_count now t - t.loop_count ≡ suc (expect_count now t - t.loop_count - 1) =
      omega arith in
    ap (λ x. settle (expect_count now t) (push_due x (expect_count now t - t.loop_count) t tasks)) e
    ∙ ap (λ n. settle (expect_count now t) (push_rounds n c t tasks)) rounds
    ∙ ground arith

look_at-due :
    (now : ℕ) (t : Timer) (tasks : List Callback) (mini : ℤ)
    → 0 < t.start_timer
    → ltb t.loop_count (expect_count now t) ≡ true
    → look_at now t tasks mini
      ≡ record { timer = (fire now t tasks).0; tasks = (fire now t tasks).1; mini_time = pos 0 }
unfolding look_at active
look_at-due now t tasks mini s due = ground arith

look_at-not_due :
    (now : ℕ) (t : Timer) (tasks : List Callback) (mini : ℤ)
    → 0 < t.start_timer
    → ltb t.loop_count (expect_count now t) ≡ false
    → look_at now t tasks mini
      ≡ record { timer = t; tasks = tasks; mini_time = shorter mini (remain_time now t) }
unfolding look_at active
look_at-not_due now t tasks mini s not_due = ground arith

-- An active timer with a callback that does not loop pushes its callback once, at the first pass that finds it due, and is then
-- stopped, whatever passes follow; where no pass finds it due, nothing happens.
pub passes_once :
    (c : ℕ) (times : List ℕ) (t : Timer) (tasks : List Callback)
    → t.loop ≡ false
    → t.cb ≡ some c
    → 0 < t.start_timer
    → passes times t tasks
      ≡ (if due_any times t then (stop t, tasks ++ some c ∷ []) else (t, tasks))
unfolding stop
passes_once c [] t tasks h e s = refl
passes_once c (now ∷ later) t tasks h e s =
    elim (Bool-cases (ltb t.loop_count (expect_count now t))) [
      | inl due ↦
          ap (λ (r : Pass). passes later r.timer r.tasks) (look_at-due now t tasks (negsuc 0) s due)
          ∙ ap (λ (r : Timer × List Callback). passes later r.0 r.1)
              (fire_once now c t tasks h e (ltb→lt _ _ due))
          ∙ passes_stopped later (stop t) _ refl
          ∙ rw due refl
      | inr not_due ↦
          ap (λ (r : Pass). passes later r.timer r.tasks)
            (look_at-not_due now t tasks (negsuc 0) s not_due)
          ∙ passes_once c later t tasks h e s
          ∙ rw not_due refl
    ]
