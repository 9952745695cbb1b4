-- ===== src/Thread/Current/Live.antt =====
-- Which object `Thread::currentThread` (src/base/thread.cpp) gives.
use mifsa_base.Base.{ℕ, [], ◌∷◌, none, some, ◌≡◌, refl, ap, ◌∙◌, arith, ◌==◌, if◌then◌else◌}
use mifsa_base.Thread.Current.{
  ThreadMap, find, emplace, erase, current_thread, Threads, begin_thread, end_thread, Step,
  beginning, stopping, Reach, start, later,
}

-- An entry for a new key is found under this key only.
find-emplace :
    (id thread j : ℕ) (m : ThreadMap)
    → find id m ≡ none
    → find j (emplace id thread m) ≡ find j ((id, thread) ∷ m)
unfolding find emplace
find-emplace id thread j [] e = refl
find-emplace id thread j ((key, old) ∷ m) e = ground (arith, find-emplace id thread j m)

find-erase : (id j : ℕ) (m : ThreadMap) → find j (erase id m) ≡ (if id == j then none else find j m)
unfolding find erase
find-erase id j [] = ground arith
find-erase id j ((key, old) ∷ m) = ground (arith, find-erase id j m)

IsAgreed : Threads → Type 0
IsAgreed t = (j : ℕ) → find j t.map ≡ t.live j

Step-IsAgreed : (t u : Threads) → Step t u → IsAgreed t → IsAgreed u
unfolding IsAgreed begin_thread end_thread find
Step-IsAgreed t _ (beginning id thread new) a j =
    find-emplace id thread j t.map (a id ∙ new) ∙ ap (λ o. if id == j then some thread else o) (a j)
Step-IsAgreed t _ (stopping id thread old) a j =
    find-erase id j t.map ∙ ap (λ o. if id == j then none else o) (a j)

Reach-IsAgreed : (t : Threads) → Reach t → IsAgreed t
unfolding IsAgreed find
Reach-IsAgreed _ start = λ j. refl
Reach-IsAgreed _ (later {t} {u} before last) = Step-IsAgreed t u last (Reach-IsAgreed t before)

-- While threads begin and end in any order, and no two that live have the same id, `currentThread` gives a thread
-- that lives the object that it began with, and for an id of no such thread it dereferences the end
-- of the map.
pub Reach-current_thread : (t : Threads) (id : ℕ) → Reach t → current_thread id t.map ≡ t.live id
unfolding current_thread IsAgreed
Reach-current_thread t id r = Reach-IsAgreed t r id
