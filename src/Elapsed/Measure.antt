-- ===== src/Elapsed/Measure.antt =====
-- What the clock of src/base/elapsed.cpp measures.
use mifsa_base.Base.{
  Bool-cases, ltb, ltb→lt, ℕ, ◌+◌, ◌-◌, ◌*◌, ◌/◌, ◌%◌, ◌≤◌, ◌<◌, ◌≡◌, ◌≢◌, ◌⊎◌, inl, inr, ap, arith,
}
use mifsa_base.Elapsed.{
  Elapsed, u32, u64, start_p, get_p, active, start, start_nano, get, get_nano, restart,
  restart_nano, stop,
}

-- A stopped clock that is started at a time other than 0 and read at a time that is not earlier
-- and below 2 ^ 64 gives the time between the two in nanoseconds, and in milliseconds, rounded down and cut
-- to 32 bits; a second `start_nano` changes nothing.
pub get-start_nano :
    (begin end : ℕ) (s : Elapsed)
    → 0 < begin
    → begin ≤ end
    → end < u64
    → (get_nano end 0 (start_nano begin 0 (stop s)) ≡ end - begin)
      × (get end 0 (start_nano begin 0 (stop s)) ≡ (end - begin) / 1000000 % u32)
      × (start_nano end 0 (start_nano begin 0 (stop s)) ≡ start_nano begin 0 (stop s))
unfolding get_nano get start_nano start_p get_p active stop
get-start_nano begin end s pos le fits = (ground arith, ground arith, ground arith)

-- `restart_nano` at a time between the start and the end of a measurement gives the time up to there,
-- and the clock then the time from there: the two add up to what one measurement gives. The clock is
-- started at a time other than 0, and the times are below 2 ^ 64.
pub restart_nano-additive :
    (begin middle end : ℕ) (s : Elapsed)
    → 0 < begin
    → begin ≤ middle
    → middle ≤ end
    → end < u64
    → (restart_nano middle middle 0 (start_nano begin 0 (stop s))).0
        + get_nano end 0 (restart_nano middle middle 0 (start_nano begin 0 (stop s))).1
      ≡ get_nano end 0 (start_nano begin 0 (stop s))
unfolding get_nano restart_nano start_nano start_p get_p active stop
restart_nano-additive begin middle end s pos le le' fits = ground arith

-- From a 32-bit start time given in milliseconds, `restart` leaves a stopped clock where `start` does as long as
-- the number of nanoseconds is below 2 ^ 32, and from there on at a different time, unless the
-- time of the call is just the one that was given.
pub restart-start :
    (current milli_s : ℕ) (s : Elapsed)
    → milli_s < u32
    → ((milli_s * 1000000 < u32)
        × ((restart current current milli_s (stop s)).1 ≡ start current milli_s (stop s)))
      ⊎ ((u32 ≤ milli_s * 1000000)
          × ((current ≡ milli_s * 1000000)
              ⊎ ((restart current current milli_s (stop s)).1 ≢ start current milli_s (stop s))))
unfolding restart start start_p get_p active stop
restart-start current milli_s s fits = elim (Bool-cases (ltb (milli_s * 1000000) u32)) [
  | inl small ↦ inl (
    ltb→lt _ _ small,
    ap (λ n. start_p current n (stop s)) {x = milli_s * 1000000 % u32} {y = milli_s * 1000000 % u64}
        (omega (arith, ltb→lt _ _ small)),
  )
  | inr large ↦ inr (ground arith, ground arith)
]
