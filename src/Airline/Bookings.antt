-- ===== src/Airline/Bookings.antt =====
-- The four calls of BookingAPI that change the database (airline/database/api.py), and any one of them
-- as a command.
use nemotron_voice_agent.Base.{
  ℕ, zero, suc, ◌&&◌, ◌||◌, not, Option, none, some, List, [], ◌∷◌, ◌++◌, filter, Text, codes,
  text_eq, is_empty, is_some, ltb, length, drop, take, if◌then◌else◌, find_first,
}
use nemotron_voice_agent.Airline.Tables.{
  Flight, Pnr, Ancillary, Leg, Activity, Db, active, canonical, first, find_pnr, find_flight_id,
}
use nemotron_voice_agent.Airline.Schedule.{
  Calendar, Outcome, returned, raised, integrity_error, on_route, select_template_for_time,
  materialize_flight_row,
}
use nemotron_voice_agent.Airline.Lookup.{Joined, Booking, fetch_pnr_row, get_pnr}
use nemotron_voice_agent.Airline.Changes.{
  Action, ◌>>=◌, ◌>>◌, pure, transaction, Draws, given, scheduled, set_flight, set_cancelled,
  issue_code, log_activity, apply_ancillary_updates,
}

abbrev pub leg : Flight → Leg
leg f = record {
  flight = f.flight_number;
  origin = f.origin;
  destination = f.destination;
  departure = f.departure;
}

-- `body` on the joined row of an active booking; nothing is returned for any other code.
unfoldable pub for_active {ℓ} :
    {A : Type ℓ} → Text → (Joined → Action (Option A)) → Action (Option A)
for_active k body db = elim (fetch_pnr_row k db) [
  | none ↦ (returned none, db)
  | some r ↦ if text_eq r.booked.status active then body r db else (returned none, db)
]

-- The row of the log, but for its id and its time.
abbrev pub entry :
    Text → Text → Option Text → Option Leg → Option Leg → Text → Text → Option Text → Activity
entry k action session from to outcome code policy = record {
  id = 0;
  pnr = k;
  action = action;
  session_id = session;
  from_leg = from;
  to_leg = to;
  outcome = outcome;
  confirmation_code = code;
  policy_ref = policy;
  created_at = [];
}

pub record Rebooked : Type 0 where
  pub confirmation_code : Text
  pub from_flight : Text
  pub to_flight : Text

unfoldable rebook_to :
    Draws
    → Text
    → Option Text
    → Option Text
    → Option Text
    → Joined
    → Flight
    → Action (Option Rebooked)
rebook_to d k session seat meal current f = do
  set_flight k f.id d.updated_at
  apply_ancillary_updates k seat meal
  code ← issue_code d k (codes "REBOOK")
  log_activity
      (entry k (codes "REBOOK") session (some (leg current.flight)) (some (leg f))
        (codes "committed") code none)
      d.logged_at
  pure (
      some (record {
        confirmation_code = code;
        from_flight = current.flight.flight_number;
        to_flight = f.flight_number;
      }))

unfoldable pub rebook_body :
    Draws
    → Text
    → Text
    → Option Text
    → Option Text
    → Option Text
    → Option Text
    → Joined
    → Action (Option Rebooked)
unfolding rebook_to
rebook_body d k fn session seat meal departure current db =
    elim (scheduled fn (given departure) db.flights) [
      | none ↦ (returned none, db)
      | some f ↦ rebook_to d k session seat meal current f db
    ]

-- The booking that the answer carries too is `get_pnr` of the changed database.
unfoldable pub commit_rebook :
    Draws
    → Text
    → Text
    → Option Text
    → Option Text
    → Option Text
    → Option Text
    → Action (Option Rebooked)
unfolding for_active rebook_body
commit_rebook d pnr new_flight_number session seat meal departure = transaction (
    for_active (canonical pnr)
      (rebook_body d (canonical pnr) (canonical new_flight_number) session seat meal departure))

unfoldable rebooked_booking : Text → Db → Option Booking
rebooked_booking pnr db = get_pnr (canonical pnr) db

unfoldable pub cancel_body :
    Draws → Text → Text → Text → Option Text → Joined → Action (Option Text)
cancel_body d k kind policy_ref session current = do
  set_cancelled k d.updated_at
  code ← issue_code d k (codes "CANCEL")
  log_activity
      (entry k (codes "CANCEL") session (some (leg current.flight)) none kind code
        (some policy_ref))
      d.logged_at
  pure (some code)

unfoldable pub cancel_booking : Draws → Text → Text → Text → Option Text → Action (Option Text)
unfolding for_active cancel_body
cancel_booking d pnr kind policy_ref session =
    transaction (for_active (canonical pnr) (cancel_body d (canonical pnr) kind policy_ref session))

unfoldable pub standby_body :
    Draws → Text → Text → Option Text → Option Text → Joined → Action (Option Text)
standby_body d k fn session departure current db =
    elim (scheduled fn (given departure) db.flights) [
      | none ↦ (returned none, db)
      | some f ↦
          (do
            code ← issue_code d k (codes "STANDBY")
            log_activity
                (entry k (codes "STANDBY") session (some (leg current.flight)) (some (leg f))
                  (codes "listed") code none)
                d.logged_at
            pure (some code))
            db
    ]

unfoldable pub list_standby : Draws → Text → Text → Option Text → Option Text → Action (Option Text)
unfolding for_active standby_body
list_standby d pnr standby_flight_number session departure = transaction (
    for_active (canonical pnr)
      (standby_body d (canonical pnr) (canonical standby_flight_number) session departure))

-- The first of the next `n` candidates that no booking has.
unfoldable pub fresh_pnr : ℕ → ℕ → Draws → Db → Option Text
fresh_pnr zero i d db = none
fresh_pnr (suc n) i d db =
    let rest = fresh_pnr n (suc i) d db in
    if is_some (find_pnr (d.candidates i) db) then rest else some (d.candidates i)

-- INSERT INTO pnrs, with its primary key and the reference to a flight.
unfoldable pub insert_pnr : Pnr → Action (Unit {0})
insert_pnr p db =
    if is_some (find_pnr p.pnr db) || not (is_some (find_flight_id p.flight_id db.flights))
    then (raised integrity_error, db)
    else (returned tt, record db { pnrs = db.pnrs ++ p ∷ [] })

unfoldable pub insert_ancillary : Ancillary → Action (Unit {0})
insert_ancillary a db =
    if is_some (find_first (λ b. text_eq b.pnr a.pnr) db.ancillaries)
      || not (is_some (find_pnr a.pnr db))
    then (raised integrity_error, db)
    else (returned tt, record db { ancillaries = db.ancillaries ++ a ∷ [] })

-- INSERT OR IGNORE INTO flights, with its unique (flight_number, departure).
unfoldable pub insert_flight : Flight → Db → Db
insert_flight f db =
    if is_some (
      find_first (λ g. text_eq g.flight_number f.flight_number && text_eq g.departure f.departure)
        db.flights)
    then db
    else record db {
      flights = db.flights ++ record f { id = db.next_flight_id } ∷ [];
      next_flight_id = suc db.next_flight_id;
    }

abbrev pub or_else : Text → Text → Text
or_else t other = if is_empty t then other else t

-- A flight by its number, route and departure.
abbrev pub exact_flight : Text → Text → Text → Text → Db → Option Flight
exact_flight fn origin destination departure db =
    find_first
      (λ f.
        text_eq f.flight_number fn
        && text_eq f.origin origin
        && text_eq f.destination destination
        && text_eq f.departure departure)
      db.flights

abbrev pub numbered : Text → List Flight → List Flight
numbered fn fs = filter (λ f. text_eq f.flight_number fn) fs

-- The copy is inserted, and read back by its departure.
unfoldable pub insert_copy : Text → Text → Text → Outcome Flight → Action (Option Flight)
unfolding insert_flight
insert_copy fn origin destination (raised e) db = (raised e, db)
insert_copy fn origin destination (returned f) db =
    let f' = record f { status = or_else f.status (codes "scheduled") } in
    let db' = insert_flight f' db in
    (returned (exact_flight fn origin destination f.departure db'), db')

module _ (c : Calendar) where
  -- From the rows of the number and the route: a copy of one of them at the requested departure.
  unfoldable pub create_flight_row :
      Text → Text → Text → Text → List Flight → Action (Option Flight)
  unfolding insert_copy
  create_flight_row fn origin destination departure [] db = (returned none, db)
  create_flight_row fn origin destination departure (f ∷ fs) db =
      let requested_time = if ltb 11 (length departure) then drop 11 departure else [] in
      let template = select_template_for_time f fs requested_time in
      insert_copy fn origin destination
        (materialize_flight_row c template (take 10 departure) (some departure)) db

  unfoldable pub find_or_create_flight_row :
      Text → Text → Text → Option Text → Action (Option Flight)
  unfolding create_flight_row
  find_or_create_flight_row fn origin destination none db =
      (returned (first (numbered fn (on_route origin destination db.flights))), db)
  find_or_create_flight_row fn origin destination (some departure) db =
      elim (exact_flight fn origin destination departure db) [
        | some f ↦ (returned (some f), db)
        | none ↦
            create_flight_row fn origin destination departure
              (numbered fn (on_route origin destination db.flights)) db
      ]
