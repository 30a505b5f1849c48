-- ===== src/Airline/Tables.antt =====
-- The tables of the booking database (airline/database/schema.sql as api.py uses them), and the
-- statements of api.py on one table. A table is the list of its rows in the order of their row ids.
-- The columns amounts_json and notes, which nothing writes, are left out.
use nemotron_voice_agent.Base.{
  ℕ, ◌-◌, Bool, true, false, ◌&&◌, ◌||◌, Option, none, some, List, [], ◌∷◌, map, Text, codes,
  text_eq, strip, leb, ltb, ◌==◌, if◌then◌else◌, find_first, is_some,
}

pub record Flight : Type 0 where
  pub id : ℕ
  pub flight_number : Text
  pub origin : Text
  pub destination : Text
  pub departure : Text
  pub arrival : Text
  pub cabin : Text
  pub status : Text
  pub delay_minutes : ℕ

pub record Pnr : Type 0 where
  pub pnr : Text
  pub passenger : Text
  pub flight_id : ℕ
  pub fare_basis : Text
  pub elite_tier : Text
  pub status : Text
  pub created_at : Text
  pub updated_at : Text

pub record Ancillary : Type 0 where
  pub pnr : Text
  pub seat : Option Text
  pub bag_count : ℕ
  pub meal : Option Text

-- The end of a journey as the log keeps it: `from_*` and `to_*`.
pub record Leg : Type 0 where
  pub flight : Text
  pub origin : Text
  pub destination : Text
  pub departure : Text

pub record Activity : Type 0 where
  pub id : ℕ
  pub pnr : Text
  pub action : Text
  pub session_id : Option Text
  pub from_leg : Option Leg
  pub to_leg : Option Leg
  pub outcome : Text
  pub confirmation_code : Text
  pub policy_ref : Option Text
  pub created_at : Text

pub record Confirmation : Type 0 where
  pub code : Text
  pub pnr : Text
  pub action : Text
  pub issued_at : Text

-- The counters are the next values of the AUTOINCREMENT columns.
pub record Db : Type 0 where
  pub flights : List Flight
  pub pnrs : List Pnr
  pub ancillaries : List Ancillary
  pub activity_log : List Activity
  pub confirmation_codes : List Confirmation
  pub next_flight_id : ℕ
  pub next_activity_id : ℕ

abbrev pub active : Text
active = codes "active"

abbrev pub cancelled : Text
cancelled = codes "cancelled"

-- `str.upper` on the ASCII letters.
unfoldable pub upper : Text → Text
upper = map (λ c. if leb b'a' c && leb c b'z' then c - 32 else c)

-- `s.strip().upper()`
unfoldable pub canonical : Text → Text
canonical s = upper (strip s)

-- `a <= b` of SQLite's BINARY collation, which orders UTF-8 as its code points.
unfoldable pub text_leb : Text → Text → Bool
text_leb [] b = true
text_leb (x ∷ a) [] = false
text_leb (x ∷ a) (y ∷ b) = ltb x y || (x == y && text_leb a b)

-- ORDER BY departure ASC; rows of one departure stay in the order of the table.
unfoldable pub insert_by_departure : Flight → List Flight → List Flight
insert_by_departure f [] = f ∷ []
insert_by_departure f (g ∷ gs) =
    let rest = insert_by_departure f gs in
    if text_leb f.departure g.departure then f ∷ g ∷ gs else g ∷ rest

unfoldable pub by_departure : List Flight → List Flight
by_departure [] = []
by_departure (f ∷ fs) = insert_by_departure f (by_departure fs)

-- LIMIT 1
abbrev pub first {ℓ} : {A : Type ℓ} → List A → Option A
first [] = none
first (x ∷ xs) = some x

unfoldable pub find_pnr : Text → Db → Option Pnr
find_pnr k db = find_first (λ p. text_eq p.pnr k) db.pnrs

unfoldable pub find_flight_id : ℕ → List Flight → Option Flight
find_flight_id i fs = find_first (λ f. f.id == i) fs

unfoldable pub find_ancillary : Text → Db → Option Ancillary
find_ancillary k db = find_first (λ a. text_eq a.pnr k) db.ancillaries

unfoldable pub has_code : Text → List Confirmation → Bool
has_code k cs = is_some (find_first (λ c. text_eq c.code k) cs)

-- UPDATE pnrs SET … WHERE pnr = ?
unfoldable pub update_pnr : (Pnr → Pnr) → Text → List Pnr → List Pnr
update_pnr g k = map (λ p. if text_eq p.pnr k then g p else p)
