-- ===== src/Tests/Timers.antt =====
-- The timers and the clock.
use mifsa_base.Base.{
  some, [], ◌∷◌, ◌++◌, true, false, ◌≡◌, refl, if◌then◌else◌, arith, replicate, ◌-◌, ◌+◌, ◌/◌, ◌*◌,
  ◌<◌, ◌≤◌, ◌⊎◌, ◌≢◌,
}
use mifsa_base.Timer.{active, next_sleep, Timer, error_offset, interval_time, stop}
use mifsa_base.Timer.Sleep.{AtMost, next_sleep-limit}
use mifsa_base.Base.{◌+◌, ◌-◌, ◌*◌}
use mifsa_base.Timer.Count.{passes, passes_total, passes_once, due_any}
use mifsa_base.Elapsed.{Elapsed, u32, start, restart, stop as halt}
use mifsa_base.Elapsed.Measure.{restart-start}

-- A timer of ten milliseconds, started at one second.
abbrev ticking : Timer
ticking = record {
  id = 1;
  interval = 10;
  start_timer = 1000000000;
  loop_count = 0;
  loop = true;
  cb = some 7;
  queue = true;
}

abbrev single : Timer
single = record ticking { loop = false }

passes_total_example :
    (passes ((1009500000 ∷ 1012000000 ∷ []) ++ 1031000000 ∷ []) ticking []).1
    ≡ [] ++ replicate ((1031000000 - 1000000000 + error_offset) / interval_time ticking) (some 7)
passes_total_example =
    passes_total 7 1031000000 (1009500000 ∷ 1012000000 ∷ []) ticking [] refl refl (omega arith) refl
      (omega arith, omega arith, (omega arith, omega arith, tt)) (omega arith) (omega arith)

passes_once_example : passes (1005000000 ∷ 1012000000 ∷ 1040000000 ∷ []) single [] ≡ (
    if due_any (1005000000 ∷ 1012000000 ∷ 1040000000 ∷ []) single
    then (stop single, [] ++ some 7 ∷ [])
    else (single, []))
passes_once_example =
    passes_once 7 (1005000000 ∷ 1012000000 ∷ 1040000000 ∷ []) single [] refl refl (omega arith)

ticking-active : active ticking ≡ true
unfolding active
ticking-active = refl

next_sleep-limit_example :
    AtMost
      (1000000000 + 1 * (10 * 1000000) - 1005000000)
      (next_sleep 1005000000
        ((record single { start_timer = 0 } ∷ []) ++ ticking ∷ [])
        []).mini_time
next_sleep-limit_example =
    next_sleep-limit 1005000000 1 (record single { start_timer = 0 } ∷ []) ticking [] []
      ticking-active (omega arith) (omega arith) (omega arith) (omega arith)

abbrev fresh : Elapsed
fresh = record { start_time = 0 }

restart-start_example :
    ((5000 * 1000000 < u32) × ((restart 3 3 5000 (halt fresh)).1 ≡ start 3 5000 (halt fresh)))
    ⊎ ((u32 ≤ 5000 * 1000000)
        × ((3 ≡ 5000 * 1000000) ⊎ ((restart 3 3 5000 (halt fresh)).1 ≢ start 3 5000 (halt fresh))))
restart-start_example = restart-start 3 5000 fresh (omega arith)
