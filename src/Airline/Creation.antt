-- ===== src/Airline/Creation.antt =====
-- `create_booking` of BookingAPI (airline/database/api.py) and its fares, and the calls that change the
-- database as commands.
use nemotron_voice_agent.Base.{
  ℕ, ◌*◌, Bool, ◌&&◌, Option, none, some, List, [], ◌∷◌, Text, codes, text_in, strip, lower,
  is_empty, if◌then◌else◌,
}
use nemotron_voice_agent.Base.Dict.{Dict, get}
use nemotron_voice_agent.Airline.Tables.{Flight, Pnr, Ancillary, Leg, Db, active, upper, canonical}
use nemotron_voice_agent.Airline.Schedule.{Calendar, Outcome, returned, raised}
use nemotron_voice_agent.Airline.Changes.{
  Action, ◌>>=◌, ◌>>◌, pure, transaction, Draws, given, issue_code, log_activity, canonical_meal,
}
use nemotron_voice_agent.Airline.Bookings.{
  leg, entry, or_else, fresh_pnr, insert_pnr, insert_ancillary, find_or_create_flight_row, Rebooked,
  commit_rebook, cancel_booking, list_standby,
}

abbrev domestic_airports : List Text
domestic_airports =
    codes "JFK"
    ∷ codes "LGA"
    ∷ codes "EWR"
    ∷ codes "BOS"
    ∷ codes "ATL"
    ∷ codes "DFW"
    ∷ codes "DCA"
    ∷ codes "IAD"
    ∷ codes "BWI"
    ∷ codes "ORD"
    ∷ codes "MDW"
    ∷ codes "LAX"
    ∷ codes "SFO"
    ∷ codes "SJC"
    ∷ codes "SEA"
    ∷ codes "PDX"
    ∷ codes "DEN"
    ∷ codes "MIA"
    ∷ codes "FLL"
    ∷ codes "PHX"
    ∷ codes "LAS"
    ∷ codes "MSP"
    ∷ codes "IAH"
    ∷ codes "HOU"
    ∷ codes "CLT"
    ∷ []

unfoldable domestic_route : Text → Text → Bool
domestic_route origin destination =
    text_in (upper origin) domestic_airports && text_in (upper destination) domestic_airports

-- In whole dollars.
abbrev cabin_price : Dict ℕ
cabin_price =
    (codes "economy", 150)
    ∷ (codes "premium_economy", 275)
    ∷ (codes "business", 600)
    ∷ (codes "first", 1200)
    ∷ []

abbrev base_price : Option ℕ → ℕ
base_price none = 150
base_price (some p) = p

-- The whole dollars of the fare; the text that is returned has two zero digits after them.
unfoldable pub price_for : Text → Text → Text → ℕ
unfolding domestic_route
price_for origin destination cabin =
    let base = base_price (get cabin_price (lower cabin)) in
    if domestic_route origin destination then base else base * 2

pub record Created : Type 0 where
  pub pnr : Text
  pub confirmation_code : Text
  pub at : Leg
  pub cabin : Text
  pub fare_basis : Text
  pub price : ℕ

-- What the caller asks for. The cabin is a hint that is only logged.
pub record Wish : Type 0 where
  pub passenger : Text
  pub origin : Text
  pub destination : Text
  pub flight_number : Text
  pub departure : Option Text
  pub seat : Option Text
  pub meal : Option Text
  pub fare_basis : Text
  pub session_id : Option Text

-- `(seat or "").strip().upper() or None`
unfoldable pub seat_wish : Option Text → Option Text
seat_wish none = none
seat_wish (some s) = if is_empty (canonical s) then none else some (canonical s)

abbrev pub new_pnr_row : Draws → Wish → Text → Flight → Pnr
new_pnr_row d w k f = record {
  pnr = k;
  passenger = or_else (strip w.passenger) (codes "Guest");
  flight_id = f.id;
  fare_basis = w.fare_basis;
  elite_tier = codes "none";
  status = active;
  created_at = d.updated_at;
  updated_at = d.updated_at;
}

abbrev pub new_ancillary : Wish → Text → Ancillary
new_ancillary w k = record {
  pnr = k;
  seat = seat_wish w.seat;
  bag_count = 0;
  meal = canonical_meal w.meal;
}

-- The dictionary that is returned. The fare is that of the flight's own cabin.
abbrev pub receipt : Wish → Flight → Text → Text → Created
receipt w f k code = record {
  pnr = k;
  confirmation_code = code;
  at = leg f;
  cabin = lower (or_else f.cabin (codes "economy"));
  fare_basis = w.fare_basis;
  price = price_for f.origin f.destination (lower (or_else f.cabin (codes "economy")));
}

unfoldable pub book_on : Draws → Wish → Flight → Text → Action (Option Created)
book_on d w f k = do
  insert_pnr (new_pnr_row d w k f)
  insert_ancillary (new_ancillary w k)
  code ← issue_code d k (codes "BOOK")
  log_activity (entry k (codes "BOOK") w.session_id none (some (leg f)) (codes "booked") code none)
      d.logged_at
  pure (some (receipt w f k code))

-- Eight candidates for the code are drawn at most.
unfoldable pub create_on : Draws → Wish → Option Flight → Action (Option Created)
unfolding book_on
create_on d w none db = (returned none, db)
create_on d w (some f) db = elim (fresh_pnr 8 0 d db) [
  | none ↦ (returned none, db)
  | some k ↦ book_on d w f k db
]

unfoldable pub create_booking : Calendar → Draws → Wish → Action (Option Created)
unfolding create_on
create_booking c d w = transaction (
    find_or_create_flight_row c (canonical w.flight_number) (canonical w.origin)
      (canonical w.destination) (given w.departure)
    >>= create_on d w)

-- A call that changes the database, with its arguments as api.py names them.
pub data Command : Type 0 where
  create : Wish → Command
  rebook : Text → Text → Option Text → Option Text → Option Text → Option Text → Command
  cancel : Text → Text → Text → Option Text → Command
  standby : Text → Text → Option Text → Option Text → Command

abbrev pub created_code : Option Created → Option Text
created_code none = none
created_code (some r) = some r.confirmation_code

abbrev pub rebooked_code : Option Rebooked → Option Text
rebooked_code none = none
rebooked_code (some r) = some r.confirmation_code

abbrev pub answer {ℓ} :
    {A : Type ℓ} → (A → Option Text) → Outcome A × Db → Outcome (Option Text) × Db
answer f (returned a, db) = (returned (f a), db)
answer f (raised e, db) = (raised e, db)

-- The confirmation code of the answer, if there is one.
unfoldable pub execute : Calendar → Draws → Command → Action (Option Text)
execute c d (create w) db = answer created_code (create_booking c d w db)
execute c d (rebook pnr fn session seat meal departure) db =
    answer rebooked_code (commit_rebook d pnr fn session seat meal departure db)
execute c d (cancel pnr kind policy_ref session) db =
    cancel_booking d pnr kind policy_ref session db
execute c d (standby pnr fn session departure) db = list_standby d pnr fn session departure db
