-- ===== src/Semaphore.antt =====
-- src/base/semaphore.cpp with include/mifsa/base/semaphore.h. A call that blocks is split where it
-- waits: `waiting` is the number of threads in `m_condition.wait` or `wait_for`, and `expired` that of the
-- threads whose limit has passed and that have not yet locked the mutex again.
-- The count is taken to stay within 32 bits.
pub mod Steps
use mifsa_base.Base.{
  ◌≡◌, ℕ, zero, suc, ◌+◌, ◌-◌, ◌*◌, ◌%◌, ◌^◌, ◌<◌, Bool, true, false, ◌&&◌, ◌||◌, ltb, leb, ◌==◌,
  if◌then◌else◌,
}
use mifsa_base.Base.Int.{ℤ, pos, negsuc}

pub record Semaphore : Type 0 where
  pub count : ℤ
  pub waiting : ℕ
  pub expired : ℕ

-- The constructor.
unfoldable pub make_semaphore : ℕ → Semaphore
make_semaphore count = record { count = pos count; waiting = 0; expired = 0 }

abbrev pub pred_ℤ : ℤ → ℤ
pred_ℤ (pos zero) = negsuc 0
pred_ℤ (pos (suc n)) = pos n
pred_ℤ (negsuc n) = negsuc (suc n)

abbrev pub suc_ℤ : ℤ → ℤ
suc_ℤ (pos n) = pos (suc n)
suc_ℤ (negsuc zero) = pos 0
suc_ℤ (negsuc (suc n)) = negsuc n

abbrev pub negative : ℤ → Bool
negative (pos n) = false
negative (negsuc n) = true

abbrev pub not_positive : ℤ → Bool
not_positive (pos n) = n == 0
not_positive (negsuc n) = true

abbrev pub is_zero : ℤ → Bool
is_zero (pos n) = n == 0
is_zero (negsuc n) = false

-- What `acquire_nano` does at once: it returns false without a change, or takes one from the count
-- and returns false, or takes one and waits, with a limit or without.
pub data Entry : Type 0 where
  refused taken waits waits_for : Entry

unfoldable pub acquire_nano : ℤ → Semaphore → Entry × Semaphore
acquire_nano nano_s s =
    if not_positive s.count && is_zero nano_s
    then (refused, s)
    else if negative (pred_ℤ s.count)
    then (
      if negative nano_s then waits else waits_for,
      record s { count = pred_ℤ s.count; waiting = suc s.waiting },
    )
    else (taken, record s { count = pred_ℤ s.count })

-- `(uint64_t)milli_s * 1000000U`, passed on as an `int64_t`.
abbrev pub as_int64 : ℕ → ℤ
as_int64 n = if ltb n (2 ^ 63) then pos n else negsuc (2 ^ 64 - n - 1)

unfoldable pub acquire : ℤ → Semaphore → Entry × Semaphore
unfolding acquire_nano
acquire (pos n) s = acquire_nano (as_int64 (n * 1000000 % 2 ^ 64)) s
acquire (negsuc n) s = acquire_nano (as_int64 ((2 ^ 64 - suc n) * 1000000 % 2 ^ 64)) s

-- The limit of a wait passes, and the thread that it was goes on with the mutex, in `acquire_nano`.
unfoldable pub expire : Semaphore → Semaphore
expire s = record s { waiting = s.waiting - 1; expired = suc s.expired }

unfoldable pub time_out : Semaphore → Semaphore
time_out s = record s { count = suc_ℤ s.count; expired = s.expired - 1 }

-- Whether a thread was waiting; it is woken up.
unfoldable pub release : Semaphore → Bool × Semaphore
release s =
    if negative s.count
    then (true, record s { count = suc_ℤ s.count; waiting = s.waiting - 1 })
    else (false, record s { count = suc_ℤ s.count })

unfoldable pub reset : ℕ → Semaphore → Bool × Semaphore
reset count s =
    if negative s.count
    then (true, record s { count = pos count; waiting = 0 })
    else (false, record s { count = pos count })

-- What may happen to a semaphore: a call, the end of a wait by time, in two steps, or a spurious end of a wait.
-- `limited` tells whether waits have limits at all.
pub data Step (limited : Bool) : Semaphore → Semaphore → Type 0 where
  acquiring : (nano_s : ℤ) (s : Semaphore) → Step limited s (acquire_nano nano_s s).1
  expiring : limited ≡ true → (s : Semaphore) → 0 < s.waiting → Step limited s (expire s)
  timing_out : (s : Semaphore) → 0 < s.expired → Step limited s (time_out s)
  releasing : (s : Semaphore) → Step limited s (release s).1
  resetting : (count : ℕ) (s : Semaphore) → Step limited s (reset count s).1
  spurious : (s : Semaphore) → 0 < s.waiting → Step limited s (record s { waiting = s.waiting - 1 })

pub data Run (limited : Bool) : Semaphore → Semaphore → Type 0 where
  stay : {s : Semaphore} → Run limited s s
  more : {s t u : Semaphore} → Run limited s t → Step limited t u → Run limited s u
