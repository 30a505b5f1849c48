-- ===== src/Airline/EditDistance.antt =====
-- `_edit_distance` of the booking API (airline/database/api.py): the rows of the table of Levenshtein
-- distances, for texts whose lengths differ by two at most.
pub mod Edits
mod Table
pub mod Laws
use Prim.Native.Nat.{min}
use nemotron_voice_agent.Base.{
  ℕ, zero, suc, ◌+◌, ◌-◌, ◌≤◌, max, List, [], ◌∷◌, Text, text_eq, length, leb, ltb, ◌==◌,
  if◌then◌else◌,
}

-- `list(range(start, start + n))`
pub range : ℕ → ℕ → List ℕ
range start zero = []
range start (suc n) = start ∷ range (suc start) n

-- The cell at `j`: `left` is `row[-1]`, `above` is `prev[j]`, `corner` is `prev[j - 1]`.
pub cell : ℕ → ℕ → ℕ → ℕ → ℕ → ℕ
cell ca cb left above corner =
    min (left + 1) (min (above + 1) (corner + (if ca == cb then 0 else 1)))

-- The cells that the inner loop appends after `left`, for `prev = corner ∷ prev` and the rest of `b`.
pub next_cells : ℕ → ℕ → List ℕ → Text → List ℕ
next_cells ca left (corner ∷ above ∷ prev) (cb ∷ b) =
    let v = cell ca cb left above corner in v ∷ next_cells ca v (above ∷ prev) b
next_cells ca left prev b = []

-- The outer loop, from the row number `i`.
pub rows : ℕ → Text → List ℕ → Text → List ℕ
rows i [] prev b = prev
rows i (ca ∷ a) prev b = rows (suc i) a (i ∷ next_cells ca i prev b) b

-- `prev[-1]` of a row, which is never empty.
pub last_cell : List ℕ → ℕ
last_cell [] = 0
last_cell (x ∷ []) = x
last_cell (x ∷ y ∷ ys) = last_cell (y ∷ ys)

unfoldable pub edit_distance : Text → Text → ℕ
unfolding range cell next_cells rows last_cell
edit_distance a b =
    if text_eq a b
    then 0
    else if ltb 2 ((length a - length b) + (length b - length a))
    then max (length a) (length b)
    else last_cell (rows 1 a (range 0 (suc (length b))) b)
