-- ===== src/Channel/Removal.antt =====
-- Removal from the middle of a deque: dot15d4-util/src/sync/channel/util.rs.
pub mod Erases
use dot15d.Base.{
  ℕ, zero, suc, ◌+◌, ◌-◌, ◌<◌, ◌≡◌, List, length, set, ltb, if◌then◌else◌, Outcome, returns, panics,
  ◌>>=◌, index,
}
use dot15d.Containers.{BoundedDeque}

-- `slice[i] = v`
abbrev pub write : List ℕ → ℕ → ℕ → Outcome (List ℕ)
write xs i v = if ltb i (length xs) then returns (set xs i v) else panics

unfoldable pub get_slot : List ℕ → List ℕ → ℕ → Outcome ℕ
get_slot first second i =
    let len_of_first = length first in
    if ltb i len_of_first then index first i else index second (i - len_of_first)

unfoldable pub set_slot : List ℕ → List ℕ → ℕ → ℕ → Outcome (List ℕ × List ℕ)
set_slot first second i v =
    let len_of_first = length first in
    if ltb i len_of_first
    then (write first i v >>= λ xs. returns (xs, second))
    else (write second (i - len_of_first) v >>= λ ys. returns (first, ys))

-- The loop of `remove`, from the given index down to 1.
unfoldable pub shift : ℕ → List ℕ → List ℕ → Outcome (List ℕ × List ℕ)
shift zero first second = returns (first, second)
shift (suc i) first second = do
  prev ← get_slot first second i
  slices ← set_slot first second (suc i) prev
  shift i slices.0 slices.1

module _ {capacity : ℕ} (api : BoundedDeque ℕ capacity) where
  unfoldable pub remove : api.Deque → ℕ → Outcome api.Deque
  remove deque i = do
    slices ← shift i (api.as_slices deque).0 (api.as_slices deque).1
    returns (api.pop_front (api.with_slices deque slices)).0
