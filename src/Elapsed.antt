-- ===== src/Elapsed.antt =====
-- src/base/elapsed.cpp with include/mifsa/base/elapsed.h. `current` is the time that the clock of
-- `Utils::getNanoCurrent` gives to the call, in nanoseconds.
pub mod Measure
use mifsa_base.Base.{ℕ, ◌+◌, ◌-◌, ◌*◌, ◌/◌, ◌%◌, ◌^◌, Bool, ltb, ◌==◌, if◌then◌else◌}

-- `m_startTime`; 0 means not started.
pub record Elapsed : Type 0 where
  pub start_time : ℕ

abbrev pub u32 : ℕ
u32 = 2 ^ 32

abbrev pub u64 : ℕ
u64 = 2 ^ 64

abbrev pub make_elapsed : Elapsed
make_elapsed = record { start_time = 0 }

abbrev pub chosen : ℕ → ℕ → ℕ
chosen current nano_s = if nano_s == 0 then current else nano_s

unfoldable pub start_p : ℕ → ℕ → Elapsed → Elapsed
start_p current nano_s s = record { start_time = chosen current nano_s }

-- `end - m_startTime`, in `uint64_t`.
unfoldable pub get_p : ℕ → ℕ → Elapsed → ℕ
get_p current nano_s s = (chosen current nano_s + u64 - s.start_time) % u64

unfoldable pub active : Elapsed → Bool
active s = ltb 0 s.start_time

-- The product is taken in 64 bits here, and in 32 bits in `restart`.
unfoldable pub start : ℕ → ℕ → Elapsed → Elapsed
unfolding start_p active
start current milli_s s = if active s then s else start_p current (milli_s * 1000000 % u64) s

unfoldable pub start_nano : ℕ → ℕ → Elapsed → Elapsed
unfolding start_p active
start_nano current nano_s s = if active s then s else start_p current nano_s s

-- The argument goes to `get_p` as it is, though that takes nanoseconds.
unfoldable pub get : ℕ → ℕ → Elapsed → ℕ
unfolding get_p active
get current milli_s s = if active s then get_p current milli_s s / 1000000 % u32 else 0

unfoldable pub get_nano : ℕ → ℕ → Elapsed → ℕ
unfolding get_p active
get_nano current nano_s s = if active s then get_p current nano_s s else 0

-- `current` is read twice: `current'` is the later time.
unfoldable pub restart : ℕ → ℕ → ℕ → Elapsed → ℕ × Elapsed
unfolding start_p get_p active
restart current current' milli_s s =
    let again = start_p current' (milli_s * 1000000 % u32) s in
    if active s then (get_p current 0 s / 1000000 % u32, again) else (0, again)

unfoldable pub restart_nano : ℕ → ℕ → ℕ → Elapsed → ℕ × Elapsed
unfolding start_p get_p active
restart_nano current current' nano_s s =
    let again = start_p current' nano_s s in
    if active s then (get_p current 0 s, again) else (0, again)

unfoldable pub stop : Elapsed → Elapsed
stop s = record { start_time = 0 }
