-- ===== src/Airline/CreateRule.antt =====
-- The rule for `create_booking` (airline/database/api.py): what holds of all its possible answers and
-- databases holds of the call.
use nemotron_voice_agent.Base.{
  ℕ, ◌≡◌, refl, ◌⊎◌, inl, inr, true, false, not, ◌||◌, Option, none, some, List, [], ◌∷◌, ◌++◌,
  Text, codes, text_eq, is_some, both, both_else, Option-cases, arith, find_first,
}
use nemotron_voice_agent.Airline.Tables.{
  Flight, Pnr, Ancillary, Db, find_pnr, find_flight_id, canonical,
}
use nemotron_voice_agent.Airline.Schedule.{
  Calendar, Error, Outcome, returned, raised, integrity_error, runtime_error,
}
use nemotron_voice_agent.Airline.Changes.{
  ◌>>=◌, ◌>>◌, after, settle, Draws, given, issue_code, log_activity,
}
use nemotron_voice_agent.Airline.Bookings.{
  leg, entry, or_else, fresh_pnr, insert_pnr, insert_ancillary, insert_flight, insert_copy,
  exact_flight, create_flight_row, find_or_create_flight_row,
}
use nemotron_voice_agent.Airline.Creation.{
  Wish, Created, receipt, new_pnr_row, new_ancillary, book_on, create_on, create_booking,
}
use nemotron_voice_agent.Airline.Rules.{IsFresh, code_at, issue_code_rule, recorded}

-- The database after a flight may have been added.
abbrev Grown : Db → Db → Type 0
Grown db db' = (db' ≡ db) ⊎ ((g : Flight) × (db' ≡ insert_flight g db))

-- A new flight changes no other table.
pub record SameBookings (db db' : Db) : Type 0 where
  pub same_pnrs : db'.pnrs ≡ db.pnrs
  pub same_ancillaries : db'.ancillaries ≡ db.ancillaries
  pub same_log : db'.activity_log ≡ db.activity_log
  pub same_codes : db'.confirmation_codes ≡ db.confirmation_codes
  pub same_next_activity : db'.next_activity_id ≡ db.next_activity_id

SameBookings-refl : (db : Db) → SameBookings db db
SameBookings-refl db = record {
  same_pnrs = refl;
  same_ancillaries = refl;
  same_log = refl;
  same_codes = refl;
  same_next_activity = refl;
}

pub Grown-SameBookings : {db db' : Db} → Grown db db' → SameBookings db db'
unfolding insert_flight
Grown-SameBookings {db} (inl e) = rw e (SameBookings-refl db)
Grown-SameBookings {db} (inr (g, e)) = rw e (
    both (SameBookings db) (is_some (find_first _ db.flights)) _ _ (SameBookings-refl db) (record {
      same_pnrs = refl;
      same_ancillaries = refl;
      same_log = refl;
      same_codes = refl;
      same_next_activity = refl;
    }))

module _ {ℓ} (c : Calendar) (fn origin destination : Text) (db : Db)
    (P : Outcome (Option Flight) × Db → Type ℓ) (fails : (e : Error) → P (raised e, db))
    (works : (o : Option Flight) (db' : Db) → Grown db db' → P (returned o, db')) where
  insert_copy_rule : (o : Outcome Flight) → P (insert_copy fn origin destination o db)
  unfolding insert_copy
  insert_copy_rule (raised e) = fails e
  insert_copy_rule (returned f) =
      works _ _ (inr (record f { status = or_else f.status (codes "scheduled") }, refl))

  create_flight_rule :
      (departure : Text) (fs : List Flight)
      → P (create_flight_row c fn origin destination departure fs db)
  unfolding create_flight_row
  create_flight_rule departure [] = works none db (inl refl)
  create_flight_rule departure (f ∷ fs) = insert_copy_rule _

  flight_rule :
      (departure : Option Text) → P (find_or_create_flight_row c fn origin destination departure db)
  unfolding find_or_create_flight_row
  flight_rule none = works _ db (inl refl)
  flight_rule (some departure) =
      elim (Option-cases (exact_flight fn origin destination departure db)) [
        | inl e ↦ rw (e, find_or_create_flight_row) (create_flight_rule departure _)
        | inr (f, e) ↦ rw (e, find_or_create_flight_row) (works (some f) db (inl refl))
      ]

-- A booking that is added.
abbrev pub booked_db : Draws → ℕ → Wish → Text → Flight → Db → Db
booked_db d j w k f db =
    recorded d j k (codes "BOOK")
      (entry k (codes "BOOK") w.session_id none (some (leg f)) (codes "booked") (code_at d j) none)
      (record db {
        pnrs = db.pnrs ++ new_pnr_row d w k f ∷ [];
        ancillaries = db.ancillaries ++ new_ancillary w k ∷ [];
      })

-- No row of the tables has the new code, and the flight has one.
pub record IsFree (k : Text) (f : Flight) (db : Db) : Type 0 where
  pub no_pnr : is_some (find_pnr k db) ≡ false
  pub no_ancillary : is_some (find_first (λ b. text_eq b.pnr k) db.ancillaries) ≡ false
  pub has_flight : is_some (find_flight_id f.id db.flights) ≡ true

insert_pnr_rule {ℓ} :
    (p : Pnr) (db : Db) (P : Outcome (Unit {0}) × Db → Type ℓ)
    → P (raised integrity_error, db)
    → (is_some (find_pnr p.pnr db) ≡ false
        → is_some (find_flight_id p.flight_id db.flights) ≡ true
        → P (returned tt, record db { pnrs = db.pnrs ++ p ∷ [] }))
    → P (insert_pnr p db)
unfolding insert_pnr
insert_pnr_rule p db P fails works =
    let old = is_some (find_pnr p.pnr db) in
    let known = is_some (find_flight_id p.flight_id db.flights) in
    both_else P (old || not known) _ _ fails (λ e. works (ground arith) (ground arith))

insert_ancillary_rule {ℓ} :
    (a : Ancillary) (db : Db) (P : Outcome (Unit {0}) × Db → Type ℓ)
    → P (raised integrity_error, db)
    → (is_some (find_first (λ b. text_eq b.pnr a.pnr) db.ancillaries) ≡ false
        → P (returned tt, record db { ancillaries = db.ancillaries ++ a ∷ [] }))
    → P (insert_ancillary a db)
unfolding insert_ancillary
insert_ancillary_rule a db P fails works =
    both_else P
      (is_some (find_first (λ b. text_eq b.pnr a.pnr) db.ancillaries)
        || not (is_some (find_pnr a.pnr db)))
      _ _ fails (λ e. works (ground arith))

module _ {ℓ} (d : Draws) (w : Wish) (db : Db) (P : Outcome (Option Created) × Db → Type ℓ)
    (fails : (e : Error) → P (raised e, db)) where
  book_rule :
      (start : Db) (f : Flight) (k : Text)
      → ((j : ℕ)
          → IsFree k f start
          → IsFresh d j start
          → P (returned (some (receipt w f k (code_at d j))), booked_db d j w k f start))
      → P (settle db (book_on d w f k start))
  unfolding book_on log_activity
  book_rule start f k works =
      let logged = λ (code : Text).
        log_activity
          (entry k (codes "BOOK") w.session_id none (some (leg f)) (codes "booked") code none)
          d.logged_at
        >> (λ db'. (returned (some (receipt w f k code)), db')) in
      let with_pnr = record start { pnrs = start.pnrs ++ new_pnr_row d w k f ∷ [] } in
      insert_pnr_rule (new_pnr_row d w k f) start
        (λ o. P (
          settle db (
            after o (λ _.
              insert_ancillary (new_ancillary w k) >> (issue_code d k (codes "BOOK") >>= logged)))))
        (fails integrity_error)
        (λ no_pnr has_flight.
          insert_ancillary_rule (new_ancillary w k) with_pnr
            (λ o. P (settle db (after o (λ _. issue_code d k (codes "BOOK") >>= logged))))
            (fails integrity_error)
            (λ no_ancillary.
              issue_code_rule d k (codes "BOOK")
                (record with_pnr { ancillaries = start.ancillaries ++ new_ancillary w k ∷ [] })
                (λ o. P (settle db (after o logged))) (fails runtime_error)
                (λ j fresh.
                  works j
                    (record {
                      no_pnr = no_pnr;
                      no_ancillary = no_ancillary;
                      has_flight = has_flight;
                    })
                    fresh)))

  -- All that `create_booking` can end with.
  pub create_rule :
      (c : Calendar)
      → ((db' : Db) → Grown db db' → P (returned none, db'))
      → ((db' : Db) (f : Flight) (k : Text) (j : ℕ)
          → Grown db db'
          → IsFree k f db'
          → IsFresh d j db'
          → P (returned (some (receipt w f k (code_at d j))), booked_db d j w k f db'))
      → P (create_booking c d w db)
  unfolding create_booking create_on
  create_rule c refused works =
      flight_rule c (canonical w.flight_number) (canonical w.origin) (canonical w.destination) db
        (λ o. P (settle db (after o (create_on d w)))) fails found (given w.departure)
    where
      booked : (f : Flight) (db' : Db) → Grown db db' → P (settle db (create_on d w (some f) db'))
      booked f db' grown = elim (Option-cases (fresh_pnr 8 0 d db')) [
        | inl e ↦ rw (e, create_on) (refused db' grown)
        | inr (k, e) ↦
            rw (e, create_on) (book_rule db' f k (λ j free fresh. works db' f k j grown free fresh))
      ]

      found : (o : Option Flight) (db' : Db) → Grown db db' → P (settle db (create_on d w o db'))
      found none db' grown = refused db' grown
      found (some f) db' grown = booked f db' grown
