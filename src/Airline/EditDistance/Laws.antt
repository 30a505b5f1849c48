-- ===== src/Airline/EditDistance/Laws.antt =====
-- `_edit_distance` of airline/database/api.py against edit scripts.
use nemotron_voice_agent.Base.{
  ℕ, suc, ◌+◌, ◌-◌, ◌≤◌, ◌<◌, ◌≡◌, ◌↔◌, ap, false, [], Text, text_eq, text_eq_sound, length, ltb,
  arith, Bool-cases, inl, inr,
}
use native.Mathlib.Decide.{dec_le}
use native.Mathlib.Nat.{le_trans}
use nemotron_voice_agent.Airline.EditDistance.{edit_distance, range, rows, last_cell}
use nemotron_voice_agent.Airline.EditDistance.Edits.{
  Edits, least, least-le, least-Edits, onto, Edits_forth, Edits_back, length_gap, Edits_self,
}
use nemotron_voice_agent.Airline.EditDistance.Table.{last_cell-rows}

least-onto :
    (a b : Text)
    → Edits a b (least (onto a []) (onto b []))
      × ((n : ℕ) → Edits a b n → least (onto a []) (onto b []) ≤ n)
least-onto a b = (Edits_back (least-Edits (onto a []) (onto b [])), λ n s. least-le (Edits_forth s))

table_least :
    (a b : Text)
    → let d = last_cell (rows 1 a (range 0 (suc (length b))) b) in
      Edits a b d × ((n : ℕ) → Edits a b n → d ≤ n)
table_least a b = rw (last_cell-rows a b) (least-onto a b)

-- Where the lengths differ by two at most, a script of `edit_distance` edits leads from one text to
-- the other, and none has fewer.
edit_distance_least :
    (a b : Text)
    → length a ≤ length b + 2
    → length b ≤ length a + 2
    → Edits a b (edit_distance a b) × ((n : ℕ) → Edits a b n → edit_distance a b ≤ n)
unfolding edit_distance
edit_distance_least a b h k =
    let near : ltb 2 ((length a - length b) + (length b - length a)) ≡ false = ground arith in
    elim (Bool-cases (text_eq a b)) [
      | inl e ↦ rw e (rw (text_eq_sound a b e) (Edits_self b), λ n s. omega arith)
      | inr e ↦ rw e (rw near (table_least a b))
    ]

far_apart : (a b : Text) → 2 < (length a - length b) + (length b - length a) → 2 < edit_distance a b
unfolding edit_distance
far_apart a b h = elim (Bool-cases (text_eq a b)) [
  | inl e ↦ absurd (omega (arith, ap {B = ℕ} length (text_eq_sound a b e)))
  | inr e ↦ rw e (ground arith)
]

-- Up to two, `edit_distance` is the least number of edits whatever the lengths: a script of at most
-- `n` edits exists if and only if the distance is at most `n`.
pub edit_distance_iff :
    (a b : Text) (n : ℕ) → n ≤ 2 → (edit_distance a b ≤ n) ↔ ((m : ℕ) × (m ≤ n) × Edits a b m)
edit_distance_iff a b n h = elim (dec_le ((length a - length b) + (length b - length a)) 2) [
  | yes near ↦
      let (script, fewest) = edit_distance_least a b (omega arith) (omega arith) in
      (λ d. (edit_distance a b, d, script), λ (m, le, s). le_trans (fewest m s) le)
  | no far ↦ (
    λ d. absurd (omega (arith, far_apart a b (omega arith))),
    λ (m, le, s). absurd (omega (arith, length_gap s)),
  )
]
