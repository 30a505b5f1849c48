-- ===== src/Airline/Lookup.antt =====
-- The reads of BookingAPI (airline/database/api.py): a booking by its code, by a code one edit away,
-- the bookings of a flight and its status.
use nemotron_voice_agent.Base.{
  ℕ, Bool, true, false, ◌&&◌, not, Option, none, some, List, [], ◌∷◌, map, filter, Text, codes,
  text_eq, ltb, ◌==◌, if◌then◌else◌, ends_with,
}
use nemotron_voice_agent.Airline.EditDistance.{edit_distance}
use nemotron_voice_agent.Airline.Tables.{
  Flight, Pnr, Ancillary, Activity, Db, active, canonical, by_departure, first, find_pnr,
  find_flight_id, find_ancillary, text_leb,
}

-- A row of the join of pnrs, flights and ancillaries.
pub record Joined : Type 0 where
  pub booked : Pnr
  pub flight : Flight
  pub ancillary : Option Ancillary

-- The dictionary of a booking: the columns of the pnr and of its flight as they are, and
-- `ancillaries` with a bag count of 0 where the join has no row.
pub record Booking : Type 0 where
  pub pnr : Text
  pub passenger : Text
  pub flight_number : Text
  pub origin : Text
  pub destination : Text
  pub departure : Text
  pub cabin : Text
  pub fare_basis : Text
  pub elite_tier : Text
  pub status : Text
  pub booking_status : Text
  pub delay_minutes : ℕ
  pub seat : Option Text
  pub bag_count : ℕ
  pub meal : Option Text

abbrev seat_of : Option Ancillary → Option Text
seat_of none = none
seat_of (some a) = a.seat

abbrev bags_of : Option Ancillary → ℕ
bags_of none = 0
bags_of (some a) = a.bag_count

abbrev meal_of : Option Ancillary → Option Text
meal_of none = none
meal_of (some a) = a.meal

unfoldable row_to_booking : Joined → Booking
row_to_booking r = record {
  pnr = r.booked.pnr;
  passenger = r.booked.passenger;
  flight_number = r.flight.flight_number;
  origin = r.flight.origin;
  destination = r.flight.destination;
  departure = r.flight.departure;
  cabin = r.flight.cabin;
  fare_basis = r.booked.fare_basis;
  elite_tier = r.booked.elite_tier;
  status = r.flight.status;
  booking_status = r.booked.status;
  delay_minutes = r.flight.delay_minutes;
  seat = seat_of r.ancillary;
  bag_count = bags_of r.ancillary;
  meal = meal_of r.ancillary;
}

unfoldable pub join : Pnr → Db → Option Joined
join p db = elim (find_flight_id p.flight_id db.flights) [
  | none ↦ none
  | some f ↦ some (record { booked = p; flight = f; ancillary = find_ancillary p.pnr db })
]

unfoldable pub fetch_pnr_row : Text → Db → Option Joined
unfolding join
fetch_pnr_row k db = elim (find_pnr k db) [ none ↦ none | some p ↦ join p db ]

-- The best match so far, and whether another row is as near.
pub record Match : Type 0 where
  pub best : Option (ℕ × Text)
  pub tie : Bool

-- One round of the loop of `_fuzzy_match_pnr`.
unfoldable pub consider : Text → ℕ → Match → Text → Match
consider k max_distance m row =
    let d = edit_distance k row in
    if ltb max_distance d then m else elim m.best [
      | none ↦ record { best = some (d, row); tie = false }
      | some (b, old) ↦
          if ltb d b
          then record { best = some (d, row); tie = false }
          else if d == b
          then record m { tie = true }
          else m
    ]

unfoldable pub consider_all : Text → ℕ → Match → List Text → Match
unfolding consider
consider_all k max_distance m [] = m
consider_all k max_distance m (row ∷ rows) =
    consider_all k max_distance (consider k max_distance m row) rows

abbrev pub settled : Match → Option Text
settled m = elim m.best [ none ↦ none | some (d, row) ↦ if m.tie then none else some row ]

unfoldable pub fuzzy_match_pnr : Text → ℕ → Db → Option Text
unfolding consider_all
fuzzy_match_pnr k max_distance db =
    settled
      (consider_all k max_distance (record { best = none; tie = false }) (map (λ p. p.pnr) db.pnrs))

unfoldable pub get_pnr : Text → Db → Option Booking
unfolding fetch_pnr_row fuzzy_match_pnr row_to_booking
get_pnr pnr db = elim (fetch_pnr_row (canonical pnr) db) [
  | some r ↦ some (row_to_booking r)
  | none ↦ elim (fuzzy_match_pnr (canonical pnr) 1 db) [
    | none ↦ none
    | some k ↦ elim (fetch_pnr_row k db) [ none ↦ none | some r ↦ some (row_to_booking r) ]
  ]
]

-- The active bookings of the flight, in the order of the pnrs (SQL leaves it open).
unfoldable on_flight : Text → Db → List Pnr → List Booking
unfolding join row_to_booking
on_flight fn db [] = []
on_flight fn db (p ∷ ps) =
    let rest = on_flight fn db ps in
    elim (join p db) [
      | none ↦ rest
      | some r ↦
          if text_eq r.flight.flight_number fn && text_eq p.status active
          then row_to_booking r ∷ rest
          else rest
    ]

unfoldable find_by_flight : Text → Db → List Booking
unfolding on_flight
find_by_flight flight_number db = on_flight (canonical flight_number) db db.pnrs

unfoldable get_flight_status : Text → Db → Option Flight
get_flight_status flight_number db =
    first
      (by_departure (filter (λ f. text_eq f.flight_number (canonical flight_number)) db.flights))

-- The losses are told by whether the seat is reassigned, with the seat that is lost.
record Diff : Type 0 where
  pub pnr : Text
  pub new_flight_number : Text
  pub seat_preserved : Bool
  pub current_seat : Option Text
  pub bag_count : ℕ
  pub meal : Option Text

unfoldable ancillaries_diff : Text → Text → Db → Option Diff
ancillaries_diff pnr new_flight_number db = elim (get_pnr pnr db) [
  | none ↦ none
  | some b ↦ some (record {
    pnr = b.pnr;
    new_flight_number = canonical new_flight_number;
    seat_preserved = not (ends_with (canonical new_flight_number) (codes "91"));
    current_seat = b.seat;
    bag_count = b.bag_count;
    meal = b.meal;
  })
]

-- ORDER BY created_at ASC, id ASC; the ids of the log grow along the table.
unfoldable insert_by_creation : Activity → List Activity → List Activity
insert_by_creation a [] = a ∷ []
insert_by_creation a (b ∷ bs) =
    let rest = insert_by_creation a bs in
    if text_leb a.created_at b.created_at then a ∷ b ∷ bs else b ∷ rest

unfoldable by_creation : List Activity → List Activity
unfolding insert_by_creation
by_creation [] = []
by_creation (a ∷ rest) = insert_by_creation a (by_creation rest)

unfoldable get_activity : Text → Db → List Activity
unfolding by_creation
get_activity pnr db = by_creation (filter (λ a. text_eq a.pnr (canonical pnr)) db.activity_log)
