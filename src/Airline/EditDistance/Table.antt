-- ===== src/Airline/EditDistance/Table.antt =====
-- The rows of `_edit_distance` (airline/database/api.py) hold the least numbers of edits between the
-- prefixes of the two texts, read backwards.
use nemotron_voice_agent.Base.{ℕ, suc, ◌≡◌, refl, ap, ◌∙◌, List, [], ◌∷◌, Text, length}
use nemotron_voice_agent.Airline.EditDistance.{range, next_cells, rows, last_cell}
use nemotron_voice_agent.Airline.EditDistance.Edits.{least, onto}

-- The row of `a` against `b` from its prefix `pre`, without its first cell.
rest_row : Text → Text → Text → List ℕ
rest_row a pre [] = []
rest_row a pre (c ∷ b) = least a (c ∷ pre) ∷ rest_row a (c ∷ pre) b

row : Text → Text → Text → List ℕ
unfolding rest_row
row a pre b = least a pre ∷ rest_row a pre b

range-row : (pre b : Text) → range (length pre) (suc (length b)) ≡ row [] pre b
unfolding range row least
range-row pre [] = refl
range-row pre (c ∷ b) = ap (λ r. length pre ∷ r) (range-row (c ∷ pre) b)

next_cells_lem :
    (x : ℕ) (a pre b : Text)
    → next_cells x (least (x ∷ a) pre) (row a pre b) b ≡ rest_row (x ∷ a) pre b
unfolding next_cells row least
next_cells_lem x a pre [] = refl
next_cells_lem x a pre (c ∷ b) =
    ap (λ r. least (x ∷ a) (c ∷ pre) ∷ r) (next_cells_lem x a (c ∷ pre) b)

next_row :
    (x : ℕ) (a b : Text)
    → suc (length a) ∷ next_cells x (suc (length a)) (row a [] b) b ≡ row (x ∷ a) [] b
unfolding row least
next_row x a b = ap (λ r. suc (length a) ∷ r) (next_cells_lem x a [] b)

rows_lem : (a done b : Text) → rows (suc (length done)) a (row done [] b) b ≡ row (onto a done) [] b
unfolding rows onto
rows_lem [] done b = refl
rows_lem (x ∷ a) done b =
    ap (λ r. rows (suc (suc (length done))) a r b) (next_row x done b) ∙ rows_lem a (x ∷ done) b

last-row : (a pre b : Text) → last_cell (row a pre b) ≡ least a (onto b pre)
unfolding last_cell row onto
last-row a pre [] = refl
last-row a pre (c ∷ b) = last-row a (c ∷ pre) b

-- What the loops compute.
pub last_cell-rows :
    (a b : Text) → last_cell (rows 1 a (range 0 (suc (length b))) b) ≡ least (onto a []) (onto b [])
last_cell-rows a b =
    ap (λ r. last_cell (rows 1 a r b)) (range-row [] b)
    ∙ ap last_cell (rows_lem a [] b)
    ∙ last-row (onto a []) [] b
