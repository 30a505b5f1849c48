-- ===== src/Airline/Schedule.antt =====
-- Flights of a route and their copies on other days (airline/database/api.py). The classes `datetime`,
-- `date` and `timedelta` of Python are a parameter; `none` is an exception of theirs.
use nemotron_voice_agent.Base.{
  ℕ, Bool, true, false, ◌&&◌, Option, none, some, List, [], ◌∷◌, ◌++◌, Text, text_eq, is_empty,
  drop, ◌==◌, if◌then◌else◌, find_first, filter,
}
use nemotron_voice_agent.Airline.Tables.{Flight, by_departure, canonical, first, Db}

-- `isoformat (replace s d)` is the stamp at the day `d`; `since` subtracts, and raises TypeError if one
-- stamp has a time zone and the other has none; `plus` raises OverflowError past the year 9999.
pub record Calendar : Type 1 where
  pub Stamp : Type 0
  pub Day : Type 0
  pub Span : Type 0
  pub fromisoformat : Text → Option Stamp
  pub day_fromisoformat : Text → Option Day
  pub isoformat : Stamp → Text
  pub replace : Stamp → Day → Stamp
  pub since : Stamp → Stamp → Option Span
  pub is_negative : Span → Bool
  pub add_day : Span → Span
  pub plus : Stamp → Span → Option Stamp

pub data Error : Type 0 where
  runtime_error integrity_error value_error type_error overflow_error : Error

pub data Outcome {ℓ} (A : Type ℓ) : Type ℓ where
  returned : A → Outcome A
  raised : Error → Outcome A

abbrev or_raise {ℓ} : {A : Type ℓ} → Option A → Error → Outcome A
or_raise none e = raised e
or_raise (some a) e = returned a

abbrev contains : Text → ℕ → Bool
contains [] c = false
contains (x ∷ xs) c = if x == c then true else contains xs c

-- `origin` and `destination` are a route, `flight_number` may narrow it.
unfoldable pub on_route : Text → Text → List Flight → List Flight
on_route origin destination fs =
    by_departure (filter (λ f. text_eq f.origin origin && text_eq f.destination destination) fs)

unfoldable route_exists : Text → Text → Db → Bool
unfolding on_route
route_exists origin destination db =
    elim (first (
      filter
        (λ f. text_eq f.origin (canonical origin) && text_eq f.destination (canonical destination))
        db.flights)) [ none ↦ false | some f ↦ true ]

-- The key of `_unique_daily_flight_rows`.
abbrev same_daily : Flight → Flight → Bool
same_daily f g =
    text_eq f.flight_number g.flight_number
    && text_eq f.origin g.origin
    && text_eq f.destination g.destination
    && text_eq (drop 11 f.departure) (drop 11 g.departure)

abbrev seen_in : Flight → List Flight → Bool
seen_in f [] = false
seen_in f (g ∷ gs) = if same_daily f g then true else seen_in f gs

-- The loop, with the rows kept so far.
unfoldable pub unique_from : List Flight → List Flight → List Flight
unique_from seen [] = []
unique_from seen (f ∷ fs) =
    let skip = unique_from seen fs in
    let kept = f ∷ unique_from (f ∷ seen) fs in if seen_in f seen then skip else kept

unfoldable pub unique_daily_flight_rows : List Flight → List Flight
unique_daily_flight_rows fs = unique_from [] fs

unfoldable pub select_template_for_time : Flight → List Flight → Text → Flight
select_template_for_time f fs requested_time =
    if is_empty requested_time
    then f
    else elim (find_first (λ g. text_eq (drop 11 g.departure) requested_time) (f ∷ fs)) [
      | some g ↦ g
      | none ↦ f
    ]

module _ (c : Calendar) where
  open c use {
    Stamp, Day, Span, fromisoformat, day_fromisoformat, isoformat, replace, since, is_negative,
    add_day, plus,
  }

  -- `str(data.get("arrival") or departure)`
  abbrev arrival_of : Flight → Text
  arrival_of f = if is_empty f.arrival then f.departure else f.arrival

  -- The ValueError branch: the day is written over the texts.
  unfoldable pub shift_texts : Flight → Text → Flight
  shift_texts f travel_date = record f {
    departure =
        if contains f.departure b'T' then travel_date ++ drop 10 f.departure else f.departure;
    arrival =
        if contains (arrival_of f) b'T' then travel_date ++ drop 10 (arrival_of f) else f.arrival;
  }

  -- The branch without a ValueError, for the departure that the row gets.
  unfoldable pub place : Flight → Stamp → Option Span → Outcome Flight
  place f at none = raised type_error
  place f at (some d) = elim (plus at (if is_negative d then add_day d else d)) [
    | none ↦ raised overflow_error
    | some arrives ↦ returned (record f { departure = isoformat at; arrival = isoformat arrives })
  ]

  unfoldable pub replan : Flight → Text → Option Stamp → Outcome Flight
  unfolding shift_texts place
  replan f travel_date override = elim (fromisoformat f.departure) [
    | none ↦ returned (shift_texts f travel_date)
    | some departs ↦ elim (fromisoformat (arrival_of f)) [
      | none ↦ returned (shift_texts f travel_date)
      | some arrives ↦ elim (day_fromisoformat travel_date) [
        | none ↦ returned (shift_texts f travel_date)
        | some day ↦ elim override [
          | none ↦ place f (replace departs day) (since arrives departs)
          | some at ↦ place f at (since arrives departs)
        ]
      ]
    ]
  ]

  -- A departure override that does not parse is a ValueError outside of the `try`.
  unfoldable pub materialize_flight_row : Flight → Text → Option Text → Outcome Flight
  unfolding replan
  materialize_flight_row f travel_date none = replan f travel_date none
  materialize_flight_row f travel_date (some at) =
      if is_empty at then replan f travel_date none else elim (fromisoformat at) [
        | none ↦ raised value_error
        | some t ↦ replan f travel_date (some t)
      ]

  -- `[_materialize_flight_row(row, travel_date) for row in …]`
  unfoldable pub materialize_all : List Flight → Text → Outcome (List Flight)
  unfolding materialize_flight_row
  materialize_all [] travel_date = returned []
  materialize_all (f ∷ fs) travel_date =
      let rest = materialize_all fs travel_date in
      elim (materialize_flight_row f travel_date none) [
        | raised e ↦ raised e
        | returned g ↦ elim rest [ raised e ↦ raised e | returned gs ↦ returned (g ∷ gs) ]
      ]

  unfoldable pub list_alternatives : Text → Text → Option Text → Db → Outcome (List Flight)
  unfolding on_route materialize_all
  list_alternatives origin destination none db =
      returned (on_route (canonical origin) (canonical destination) db.flights)
  list_alternatives origin destination (some day) db =
      let rows = on_route (canonical origin) (canonical destination) db.flights in
      if is_empty day then returned rows else materialize_all (unique_daily_flight_rows rows) day
