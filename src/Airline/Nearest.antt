-- ===== src/Airline/Nearest.antt =====
-- `_fuzzy_match_pnr` of the booking API (airline/database/api.py): the loop with its best match and its
-- tie against the one nearest code.
use nemotron_voice_agent.Base.{
  ℕ, ◌<◌, ◌≤◌, ◌≡◌, ◌↔◌, ◌⊎◌, refl, sym, ap, ◌∙◌, inl, inr, Bool, false, Option, none, some, List,
  [], ◌∷◌, ◌++◌, map, Text, All, arith,
}
use nemotron_voice_agent.Airline.EditDistance.{edit_distance}
use nemotron_voice_agent.Airline.Tables.{Db}
use nemotron_voice_agent.Airline.Lookup.{Match, consider, consider_all, settled, fuzzy_match_pnr}

-- All of them are farther from `k` than `q` is.
abbrev Farther : Text → Text → List Text → Type 0
Farther k q = All (λ row. edit_distance k q < edit_distance k row)

-- Of the codes, `q` is the only nearest one to `k`, and no more than `n` edits away.
pub record IsNearest (k : Text) (n : ℕ) (rows : List Text) (q : Text) : Type 0 where
  pub before : List Text
  pub behind : List Text
  pub split : rows ≡ before ++ q ∷ behind
  pub close : edit_distance k q ≤ n
  pub farther_before : Farther k q before
  pub farther_behind : Farther k q behind

abbrev state : Option (ℕ × Text) → Bool → Match
state b t = record { best = b; tie = t }

-- The best match so far is farther than `d`.
abbrev Above : ℕ → Option (ℕ × Text) → Type 0
Above d none = Unit
Above d (some (b, row)) = d < b

module _ (k : Text) (n : ℕ) where
  consider-Above :
      (d : ℕ) (m : Match) (row : Text)
      → Above d m.best
      → d < edit_distance k row
      → Above d (consider k n m row).best
  unfolding consider
  consider-Above d m row h lt = ground arith

  consider_all-Above :
      (d : ℕ) (m : Match) (rows : List Text)
      → Above d m.best
      → All (λ row. d < edit_distance k row) rows
      → Above d (consider_all k n m rows).best
  unfolding consider_all
  consider_all-Above d m [] h all = h
  consider_all-Above d m (row ∷ rows) h all =
      consider_all-Above d (consider k n m row) rows (consider-Above d m row h all.0) all.1

  consider_nearest :
      (q : Text) (m : Match)
      → edit_distance k q ≤ n
      → Above (edit_distance k q) m.best
      → consider k n m q ≡ state (some (edit_distance k q, q)) false
  unfolding consider
  consider_nearest q m h above = ground arith

  consider_all_kept :
      (d : ℕ) (q : Text) (rows : List Text)
      → All (λ row. d < edit_distance k row) rows
      → consider_all k n (state (some (d, q)) false) rows ≡ state (some (d, q)) false
  unfolding consider_all consider
  consider_all_kept d q [] all = refl
  consider_all_kept d q (row ∷ rows) all = ground (arith, consider_all_kept d q rows all.1)

  consider_all-append :
      (m : Match) (xs ys : List Text)
      → consider_all k n m (xs ++ ys) ≡ consider_all k n (consider_all k n m xs) ys
  unfolding consider_all
  consider_all-append m [] ys = refl
  consider_all-append m (x ∷ xs) ys = consider_all-append (consider k n m x) xs ys

  -- The best match so far is one of the codes, with its distance.
  Fits : Option (ℕ × Text) → Type 0
  Fits none = Unit
  Fits (some (b, row)) = (b ≡ edit_distance k row) × (b ≤ n)

  consider-Fits : (m : Match) (row : Text) → Fits m.best → Fits (consider k n m row).best
  unfolding consider Fits
  consider-Fits m row h = ground arith

  -- Where the best match after a round comes from.
  settled-consider :
      (m : Match) (row q : Text)
      → Fits m.best
      → settled (consider k n m row) ≡ some q
      → ((settled m ≡ some q) × (edit_distance k q < edit_distance k row))
        ⊎ (Above (edit_distance k q) m.best × (q ≡ row) × (edit_distance k q ≤ n))
  unfolding consider Fits
  settled-consider m row q h s = ground arith

  Above-consider :
      (d : ℕ) (m : Match) (row : Text)
      → d ≤ n
      → Above d (consider k n m row).best
      → Above d m.best × (d < edit_distance k row)
  unfolding consider
  Above-consider d m row h above = ground arith

  IsNearest-cons :
      (row q : Text) (rows : List Text)
      → edit_distance k q < edit_distance k row
      → IsNearest k n rows q
      → IsNearest k n (row ∷ rows) q
  IsNearest-cons row q rows lt h = record {
    before = row ∷ h.before;
    behind = h.behind;
    split = ap (λ l. row ∷ l) h.split;
    close = h.close;
    farther_before = (lt, h.farther_before);
    farther_behind = h.farther_behind;
  }

  settled-consider_all :
      (m : Match) (rows : List Text) (q : Text)
      → Fits m.best
      → settled (consider_all k n m rows) ≡ some q
      → ((settled m ≡ some q) × Farther k q rows)
        ⊎ (Above (edit_distance k q) m.best × IsNearest k n rows q)
  unfolding consider_all
  settled-consider_all m [] q h s = inl (s, tt)
  settled-consider_all m (row ∷ rows) q h s =
      elim (settled-consider_all (consider k n m row) rows q (consider-Fits m row h) s) [
        | inl (here, far) ↦ elim (settled-consider m row q h here) [
          | inl (old, lt) ↦ inl (old, (lt, far))
          | inr (above, e, close) ↦ inr (
            above,
            record {
              before = [];
              behind = rows;
              split = ap (λ r. r ∷ rows) (sym e);
              close = close;
              farther_before = tt;
              farther_behind = far;
            },
          )
        ]
        | inr (above, near) ↦
            let (above', lt) = Above-consider (edit_distance k q) m row near.close above in
            inr (above', IsNearest-cons row q rows lt near)
      ]

  consider_all-nearest :
      (rows : List Text) (q : Text)
      → IsNearest k n rows q
      → settled (consider_all k n (state none false) rows) ≡ some q
  unfolding consider_all
  consider_all-nearest rows q h =
      let d = edit_distance k q in
      let m = consider_all k n (state none false) h.before in
      let here =
        consider_nearest q m h.close
          (consider_all-Above d (state none false) h.before tt h.farther_before) in
      rw h.split (
        ap settled (
          consider_all-append (state none false) h.before (q ∷ h.behind)
          ∙ ap (λ s. consider_all k n s h.behind) here
          ∙ consider_all_kept d q h.behind h.farther_behind))

Fits-none : (k : Text) (n : ℕ) → Fits k n none
unfolding Fits
Fits-none k n = tt

-- The fuzzy match of a code is a stored code that is the only nearest one and within the distance. There
-- is a match just where there is such a code.
pub fuzzy_match_pnr-IsNearest :
    (k : Text) (n : ℕ) (db : Db) (q : Text)
    → (fuzzy_match_pnr k n db ≡ some q) ↔ IsNearest k n (map (λ p. p.pnr) db.pnrs) q
unfolding fuzzy_match_pnr
fuzzy_match_pnr-IsNearest k n db q =
    let rows = map (λ p. p.pnr) db.pnrs in
    (
      λ s. elim (settled-consider_all k n (state none false) rows q (Fits-none k n) s) [
        | inl (no_match, far) ↦ cc
        | inr (above, near) ↦ near
      ],
      consider_all-nearest k n rows q,
    )
