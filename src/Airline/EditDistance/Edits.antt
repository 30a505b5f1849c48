-- ===== src/Airline/EditDistance/Edits.antt =====
-- Edit scripts between two texts (airline/database/api.py), and the least number of edits as a
-- recursion on both texts.
use Prim.Native.Nat.{min}
use native.Mathlib.Decide.{dec_le}
use nemotron_voice_agent.Base.{
  ℕ, suc, ◌+◌, ◌≤◌, ◌≡◌, refl, [], ◌∷◌, ◌++◌, ◌∙◌, append-nil, Text, length, arith, Bool-cases, inl,
  inr, ◌==◌, ==_iff, if◌then◌else◌,
}
use nemotron_voice_agent.Airline.EditDistance.{cell}

-- One text turned into another by that many insertions, deletions and replacements.
pub data Edits : Text → Text → ℕ → Type 0 where
  done : Edits [] [] 0
  delete : {x : ℕ} {a b : Text} {n : ℕ} → Edits a b n → Edits (x ∷ a) b (suc n)
  insert : {y : ℕ} {a b : Text} {n : ℕ} → Edits a b n → Edits a (y ∷ b) (suc n)
  replace : {x y : ℕ} {a b : Text} {n : ℕ} → Edits a b n → Edits (x ∷ a) (y ∷ b) (suc n)
  keep : {x y : ℕ} {a b : Text} {n : ℕ} → x ≡ y → Edits a b n → Edits (x ∷ a) (y ∷ b) n

unfoldable pub least : Text → Text → ℕ
unfolding cell
least [] b = length b
least (x ∷ a) [] = suc (length a)
least (x ∷ a) (y ∷ b) = cell x y (least (x ∷ a) b) (least a (y ∷ b)) (least a b)

least-nil : (a : Text) → least a [] ≡ length a
unfolding least
least-nil [] = refl
least-nil (x ∷ a) = refl

-- No script has fewer edits.
pub least-le : {a b : Text} {n : ℕ} → Edits a b n → least a b ≤ n
unfolding least
least-le done = omega arith
least-le (delete {a} {b = []} e) = omega (arith, least-le e, least-nil a)
least-le (delete {b = y ∷ b} e) = omega (arith, least-le e)
least-le (insert {a = []} e) = omega (arith, least-le e)
least-le (insert {a = x ∷ a} e) = omega (arith, least-le e)
least-le (replace e) = ground (arith, least-le e)
least-le (keep h e) = ground (arith, least-le e)

-- Some script has as many.
deletions : (a : Text) → Edits a [] (length a)
deletions [] = done
deletions (x ∷ a) = delete (deletions a)

insertions : (b : Text) → Edits [] b (length b)
insertions [] = done
insertions (y ∷ b) = insert (insertions b)

Edits-min : {a b : Text} {m n : ℕ} → Edits a b m → Edits a b n → Edits a b (min m n)
Edits-min {a} {b} {m} {n} d e = elim (dec_le m n) [
  | yes h ↦ let p : m ≡ min m n = omega arith in rw (← p) d
  | no h ↦ let p : n ≡ min m n = omega arith in rw (← p) e
]

Edits-corner :
    {a b : Text} {n : ℕ} (x y : ℕ)
    → Edits a b n
    → Edits (x ∷ a) (y ∷ b) (n + (if x == y then 0 else 1))
Edits-corner {n} x y e = elim (Bool-cases (x == y)) [
  | inl h ↦ rw h (let p : n ≡ n + 0 = omega arith in rw (← p) (keep ((==_iff x y).0 h) e))
  | inr h ↦ rw h (let p : suc n ≡ n + 1 = omega arith in rw (← p) (replace e))
]

shift : {a b : Text} (m n : ℕ) → Edits a b (m + suc n) → Edits a b (suc m + n)
shift m n e = let p : m + suc n ≡ suc m + n = omega arith in rw (← p) e

one_more : {a b : Text} (n : ℕ) → Edits a b (suc n) → Edits a b (n + 1)
one_more n e = let p : suc n ≡ n + 1 = omega arith in rw (← p) e

pub least-Edits : (a b : Text) → Edits a b (least a b)
unfolding least
least-Edits [] b = insertions b
least-Edits (x ∷ a) [] = deletions (x ∷ a)
least-Edits (x ∷ a) (y ∷ b) =
    Edits-min (one_more _ (insert (least-Edits (x ∷ a) b)))
      (Edits-min (one_more _ (delete (least-Edits a (y ∷ b)))) (Edits-corner x y (least-Edits a b)))

-- The text read backwards, before `acc`.
unfoldable pub onto : Text → Text → Text
onto [] acc = acc
onto (x ∷ a) acc = onto a (x ∷ acc)

Edits-onto :
    {a b c d : Text} {m n : ℕ} → Edits a b m → Edits c d n → Edits (onto a c) (onto b d) (m + n)
unfolding onto
Edits-onto {n} done f = let p : n ≡ 0 + n = omega arith in rw (← p) f
Edits-onto {n} (delete {n = m} e) f = shift m n (Edits-onto e (delete f))
Edits-onto {n} (insert {n = m} e) f = shift m n (Edits-onto e (insert f))
Edits-onto {n} (replace {n = m} e) f = shift m n (Edits-onto e (replace f))
Edits-onto (keep h e) f = Edits-onto e (keep h f)

onto-onto : (a acc rest : Text) → onto (onto a acc) rest ≡ onto acc (a ++ rest)
unfolding onto
onto-onto [] acc rest = refl
onto-onto (x ∷ a) acc rest = onto-onto a (x ∷ acc) rest

onto_twice : (a : Text) → onto (onto a []) [] ≡ a
unfolding onto
onto_twice a = onto-onto a [] [] ∙ append-nil a

-- Reading both texts backwards changes no number of edits.
pub Edits_forth : {a b : Text} {n : ℕ} → Edits a b n → Edits (onto a []) (onto b []) n
Edits_forth {n} e = let p : n + 0 ≡ n = omega arith in rw p at (Edits-onto e done)

pub Edits_back : {a b : Text} {n : ℕ} → Edits (onto a []) (onto b []) n → Edits a b n
Edits_back {a} {b} e = rw (onto_twice a) at (rw (onto_twice b) at (Edits_forth e))

-- The lengths differ by the number of edits at most.
pub length_gap :
    {a b : Text} {n : ℕ} → Edits a b n → (length a ≤ length b + n) × (length b ≤ length a + n)
length_gap done = omega arith
length_gap (delete e) = omega (arith, length_gap e)
length_gap (insert e) = omega (arith, length_gap e)
length_gap (replace e) = omega (arith, length_gap e)
length_gap (keep h e) = omega (arith, length_gap e)

Edits_none : {a b : Text} {n : ℕ} → Edits a b n → n ≡ 0 → a ≡ b
Edits_none done h = refl
Edits_none (delete e) h = absurd (omega arith)
Edits_none (insert e) h = absurd (omega arith)
Edits_none (replace e) h = absurd (omega arith)
Edits_none (keep p e) h = cc (Edits_none e h)

pub Edits_self : (a : Text) → Edits a a 0
Edits_self [] = done
Edits_self (x ∷ a) = keep refl (Edits_self a)
