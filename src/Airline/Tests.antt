-- ===== src/Airline/Tests.antt =====
-- Runs of the booking database (airline/database/api.py) at a small database.
use nemotron_voice_agent.Base.{
  ℕ, ◌+◌, ◌≤◌, ◌≡◌, ◌≢◌, ◌↔◌, refl, ap, false, none, some, [], ◌∷◌, map, Text, codes, arith,
  text_eq, strip, find_first,
}
use nemotron_voice_agent.Airline.EditDistance.{edit_distance}
use nemotron_voice_agent.Airline.EditDistance.Edits.{Edits}
use nemotron_voice_agent.Airline.EditDistance.Laws.{edit_distance_iff}
use nemotron_voice_agent.Airline.Tables.{
  Flight, Pnr, Ancillary, Db, cancelled, canonical, upper, has_code, find_pnr, update_pnr,
  find_flight_id, find_ancillary,
}
use nemotron_voice_agent.Airline.Schedule.{Calendar, returned}
use nemotron_voice_agent.Airline.Lookup.{Joined, fetch_pnr_row, fuzzy_match_pnr}
use nemotron_voice_agent.Airline.Changes.{
  Draws, set_cancelled, issue_code, issue_from, log_activity,
}
use nemotron_voice_agent.Airline.Bookings.{cancel_booking}
use nemotron_voice_agent.Airline.Creation.{Command, create, cancel, execute, Wish}
use nemotron_voice_agent.Airline.Audit.{IsAudited, run, run-IsAudited}
use nemotron_voice_agent.Airline.Lifecycle.{Step, bookings, execute-Step}
use nemotron_voice_agent.Airline.Cancelled.{cancelled_for_good, cancel_succeeds}
use nemotron_voice_agent.Airline.Nearest.{IsNearest, fuzzy_match_pnr-IsNearest}

-- A calendar of texts: a stamp is its text, and every flight takes no time.
abbrev calendar : Calendar
calendar = record {
  Stamp = Text;
  Day = Text;
  Span = Unit {0};
  fromisoformat = λ t. some t;
  day_fromisoformat = λ t. some t;
  isoformat = λ t. t;
  replace = λ s d. s;
  since = λ s t. some tt;
  is_negative = λ d. false;
  add_day = λ d. d;
  plus = λ s d. some s;
}

abbrev flight : Flight
flight = record {
  id = 1;
  flight_number = codes "NV101";
  origin = codes "SFO";
  destination = codes "JFK";
  departure = codes "2026-05-01T09:00:00";
  arrival = codes "2026-05-01T17:00:00";
  cabin = codes "economy";
  status = codes "scheduled";
  delay_minutes = 0;
}

abbrev booked : Pnr
booked = record {
  pnr = codes "ABC123";
  passenger = codes "Ada";
  flight_id = 1;
  fare_basis = codes "nonrefundable";
  elite_tier = codes "none";
  status = codes "active";
  created_at = [];
  updated_at = [];
}

abbrev seat : Ancillary
seat = record { pnr = codes "ABC123"; seat = some (codes "12A"); bag_count = 1; meal = none }

abbrev database : Db
database = record {
  flights = flight ∷ [];
  pnrs = booked ∷ [];
  ancillaries = seat ∷ [];
  activity_log = [];
  confirmation_codes = [];
  next_flight_id = 2;
  next_activity_id = 1;
}

abbrev draws : Draws
draws = record {
  tokens = λ i. (48 + i) ∷ [];
  candidates = λ i. codes "XYZ00";
  updated_at = codes "t1";
  issued_at = λ i. codes "t2";
  logged_at = codes "t3";
}

abbrev cancel_it : Command
cancel_it = cancel (codes " abc123") (codes "voluntary") (codes "P1") none

abbrev wish : Wish
wish = record {
  passenger = codes " Bob ";
  origin = codes "sfo";
  destination = codes "jfk";
  flight_number = codes "nv101";
  departure = none;
  seat = none;
  meal = some (codes "Vegan");
  fare_basis = codes "nonrefundable";
  session_id = none;
}

abbrev after_cancel : Db
after_cancel = (execute calendar draws cancel_it database).1

distance_runs : edit_distance (codes "ABC132") (codes "ABC123") ≡ 2
unfolding edit_distance text_eq
distance_runs = refl

fuzzy_runs : fuzzy_match_pnr (codes "ABC12") 1 database ≡ some (codes "ABC123")
unfolding fuzzy_match_pnr edit_distance text_eq
fuzzy_runs = refl

cancel_runs : (execute calendar draws cancel_it database).0 ≡ returned (some (codes "0"))
unfolding execute cancel_booking fetch_pnr_row find_pnr find_first text_eq canonical upper strip
    find_flight_id set_cancelled issue_code issue_from has_code log_activity
cancel_runs = refl

cancelled_held :
    bookings after_cancel (codes "ABC123") ≡ some (record { status = cancelled; flight_id = 1 })
unfolding execute cancel_booking fetch_pnr_row find_pnr find_first text_eq canonical upper strip
    find_flight_id set_cancelled issue_code issue_from has_code log_activity update_pnr
cancelled_held = refl

edit_distance_iff_example :
    (edit_distance (codes "ABC12") (codes "ABC123") ≤ 1)
    ↔ ((m : ℕ) × (m ≤ 1) × Edits (codes "ABC12") (codes "ABC123") m)
edit_distance_iff_example = edit_distance_iff (codes "ABC12") (codes "ABC123") 1 (omega arith)

fuzzy_match_pnr-IsNearest_example :
    (fuzzy_match_pnr (codes "ABC12") 1 database ≡ some (codes "ABC123"))
    ↔ IsNearest (codes "ABC12") 1 (map (λ p. p.pnr) database.pnrs) (codes "ABC123")
fuzzy_match_pnr-IsNearest_example =
    fuzzy_match_pnr-IsNearest (codes "ABC12") 1 database (codes "ABC123")

execute-Step_example :
    Step
      (bookings database)
      (bookings (execute calendar draws cancel_it database).1)
      cancel_it
      (execute calendar draws cancel_it database).0
execute-Step_example = execute-Step calendar draws cancel_it database

run-IsAudited_example :
    IsAudited (run calendar ((draws, cancel_it) ∷ (draws, create wish) ∷ []) database)
run-IsAudited_example =
    run-IsAudited calendar ((draws, cancel_it) ∷ (draws, create wish) ∷ []) database
      (record { agree = refl; distinct = tt })

canonical_runs : canonical (codes " abc123") ≡ codes "ABC123"
unfolding canonical upper strip
canonical_runs = refl

cancelled_for_good_example :
    (bookings (run calendar ((draws, create wish) ∷ []) after_cancel) (codes "ABC123")
      ≡ some (record { status = cancelled; flight_id = 1 }))
    × ((code : Text)
        → (execute calendar draws cancel_it
            (run calendar ((draws, create wish) ∷ []) after_cancel)).0
          ≢ returned (some code))
cancelled_for_good_example =
    cancelled_for_good calendar ((draws, create wish) ∷ []) after_cancel (codes "ABC123") 1 draws
      cancel_it cancelled_held named
  where
    named : some (canonical (codes " abc123")) ≡ some (codes "ABC123")
    named = ap some canonical_runs

abbrev joined : Joined
joined = record { booked = booked; flight = flight; ancillary = some seat }

row_found : fetch_pnr_row (canonical (codes " abc123")) database ≡ some joined
unfolding fetch_pnr_row find_pnr find_first text_eq canonical upper strip find_flight_id
    find_ancillary
row_found = refl

cancel_succeeds_example :
    let (o, db') = execute calendar draws cancel_it database in
    ((code : Text) × (o ≡ returned (some code)))
    × (bookings db' (canonical (codes " abc123"))
        ≡ some (record { status = cancelled; flight_id = 1 }))
unfolding has_code find_first
cancel_succeeds_example =
    cancel_succeeds calendar draws (codes " abc123") (codes "voluntary") (codes "P1") none database
      joined 0 row_found refl (omega arith) refl
