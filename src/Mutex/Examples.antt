-- ===== src/Mutex/Examples.antt =====
-- The theorems on the mutex at concrete inputs.
use dot15d.Base.{◌≡◌, refl, false, List, [], ◌∷◌, arith}
use dot15d.Mutex.{new, poll, drop_guard}
use dot15d.Mutex.Sharing.{Event, polls, drops, start, after_all, AllPossible, Fair, after_all-Fair}

-- Task 1 gets the lock, 2 and 3 wait, and the guard is dropped.
abbrev contended : List Event
contended = polls 1 ∷ polls 2 ∷ polls 3 ∷ drops ∷ []

contended-AllPossible : AllPossible start contended
unfolding new poll drop_guard
contended-AllPossible = (tt, (tt, (tt, (omega arith, tt))))

after_all-Fair_example : Fair (after_all start contended)
after_all-Fair_example = after_all-Fair contended contended-AllPossible

contended_free : (after_all start contended).mutex.locked ≡ false
unfolding new poll drop_guard
contended_free = refl
