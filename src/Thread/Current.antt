-- ===== src/Thread/Current.antt =====
-- The map of threads of src/base/thread.cpp, and `currentThread`. The id of a thread is a number, and so is
-- the address of a `Thread`. Each step is what one thread does under the lock of the map.
pub mod Live
use mifsa_base.Base.{ℕ, Bool, true, List, [], ◌∷◌, Option, none, some, ◌≡◌, ◌==◌, if◌then◌else◌}

abbrev pub ThreadMap : Type 0
ThreadMap = List (ℕ × ℕ)

unfoldable pub find : ℕ → ThreadMap → Option ℕ
find id [] = none
find id ((key, thread) ∷ m) = if key == id then some thread else find id m

-- `emplace` does nothing where the key is there.
unfoldable pub emplace : ℕ → ℕ → ThreadMap → ThreadMap
emplace id thread [] = (id, thread) ∷ []
emplace id thread ((key, old) ∷ m) =
    if key == id then (key, old) ∷ m else (key, old) ∷ emplace id thread m

unfoldable pub erase : ℕ → ThreadMap → ThreadMap
erase id [] = []
erase id ((key, thread) ∷ m) = if key == id then erase id m else (key, thread) ∷ erase id m

-- `none` is that the end of the map is dereferenced, which has no meaning.
unfoldable pub current_thread : ℕ → ThreadMap → Option ℕ
unfolding find
current_thread id m = find id m

-- `live` tells which object a thread that has entered itself and not yet taken itself out began with; the
-- program does not keep it.
pub record Threads : Type 0 where
  pub map : ThreadMap
  pub live : ℕ → Option ℕ

abbrev pub no_threads : Threads
no_threads = record { map = []; live = λ j. none }

abbrev pub update : ℕ → Option ℕ → (ℕ → Option ℕ) → ℕ → Option ℕ
update id o live j = if id == j then o else live j

-- A thread of the object `thread` begins, where no thread that lives has the same id, and one ends.
unfoldable pub begin_thread : ℕ → ℕ → Threads → Threads
unfolding emplace
begin_thread id thread t = record {
  map = emplace id thread t.map;
  live = update id (some thread) t.live;
}

unfoldable pub end_thread : ℕ → Threads → Threads
unfolding erase
end_thread id t = record { map = erase id t.map; live = update id none t.live }

pub data Step (t : Threads) : Threads → Type 0 where
  beginning : (id thread : ℕ) → t.live id ≡ none → Step t (begin_thread id thread t)
  stopping : (id thread : ℕ) → t.live id ≡ some thread → Step t (end_thread id t)

pub data Reach : Threads → Type 0 where
  start : Reach no_threads
  later : {t u : Threads} → Reach t → Step t u → Reach u
