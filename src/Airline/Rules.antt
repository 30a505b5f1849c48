-- ===== src/Airline/Rules.antt =====
-- One rule for each call of BookingAPI that changes the database (airline/database/api.py): what holds
-- of all its possible answers and databases holds of the call.
use nemotron_voice_agent.Base.{
  ℕ, zero, suc, ◌≡◌, refl, ◌⊎◌, inl, inr, false, Option, none, some, [], ◌∷◌, ◌++◌, Text, codes,
  text_eq, text_eq_sound, Bool-cases, Option-cases,
}
use nemotron_voice_agent.Airline.Tables.{Flight, Activity, Db, active, upper, canonical, has_code}
use nemotron_voice_agent.Airline.Schedule.{Outcome, returned, raised, runtime_error}
use nemotron_voice_agent.Airline.Lookup.{Joined, fetch_pnr_row}
use nemotron_voice_agent.Airline.Changes.{
  Action, ◌>>◌, after, settle, transaction, Draws, given, scheduled, set_flight, set_cancelled,
  issue_from, issue_code, log_activity, apply_ancillary_updates,
}
use nemotron_voice_agent.Airline.Bookings.{
  leg, entry, for_active, Rebooked, rebook_body, commit_rebook, cancel_body, cancel_booking,
  standby_body, list_standby,
}

-- The code of the try number `j`, and its row.
abbrev pub code_at : Draws → ℕ → Text
code_at d j = upper (d.tokens j)

abbrev pub issued : Draws → ℕ → Text → Text → Db → Db
issued d j k action db = record db {
  confirmation_codes =
      db.confirmation_codes
      ++ record { code = code_at d j; pnr = k; action = action; issued_at = d.issued_at j } ∷ [];
}

abbrev pub IsFresh : Draws → ℕ → Db → Type 0
IsFresh d j db = has_code (code_at d j) db.confirmation_codes ≡ false

abbrev Issues : Draws → Text → Text → Db → Outcome Text × Db → Type 0
Issues d k action db r =
    (r ≡ (raised runtime_error, db))
    ⊎ ((j : ℕ) × IsFresh d j db × (r ≡ (returned (code_at d j), issued d j k action db)))

issue_from-Issues :
    (n i : ℕ) (d : Draws) (k action : Text) (db : Db)
    → Issues d k action db (issue_from n i d k action db)
unfolding issue_from
issue_from-Issues zero i d k action db = inl refl
issue_from-Issues (suc n) i d k action db =
    elim (Bool-cases (has_code (code_at d i) db.confirmation_codes)) [
      | inl taken ↦ rw taken (issue_from-Issues n (suc i) d k action db)
      | inr fresh ↦ inr (i, fresh, rw fresh refl)
    ]

-- Issuing a code raises, or adds the row of a new code.
pub issue_code_rule {ℓ} :
    (d : Draws) (k action : Text) (db : Db) (P : Outcome Text × Db → Type ℓ)
    → P (raised runtime_error, db)
    → ((j : ℕ) → IsFresh d j db → P (returned (code_at d j), issued d j k action db))
    → P (issue_code d k action db)
unfolding issue_code
issue_code_rule d k action db P fails works = elim (issue_from-Issues 10 0 d k action db) [
  | inl e ↦ rw e fails
  | inr (j, fresh, e) ↦ rw e (works j fresh)
]

-- A code that is issued and the row of the log that carries it.
abbrev pub recorded : Draws → ℕ → Text → Text → Activity → Db → Db
recorded d j k action a db =
    let db' = issued d j k action db in
    record db' {
      activity_log =
          db'.activity_log ++ record a { id = db'.next_activity_id; created_at = d.logged_at } ∷ [];
      next_activity_id = suc db'.next_activity_id;
    }

for_active_rule {ℓ} :
    {A : Type 0} (k : Text) (body : Joined → Action (Option A)) (db : Db)
    (P : Outcome (Option A) × Db → Type ℓ)
    → P (returned none, db)
    → ((r : Joined)
        → fetch_pnr_row k db ≡ some r
        → r.booked.status ≡ active
        → P (transaction (body r) db))
    → P (transaction (for_active k body) db)
unfolding for_active
for_active_rule k body db P refused works = elim (Option-cases (fetch_pnr_row k db)) [
  | inl e ↦ rw (e, for_active) refused
  | inr (r, e) ↦ elim (Bool-cases (text_eq r.booked.status active)) [
    | inl a ↦ rw (e, for_active) (rw a (works r e (text_eq_sound _ _ a)))
    | inr a ↦ rw (e, for_active) (rw a refused)
  ]
]

-- A cancelled booking.
abbrev pub cancelled_db : Draws → ℕ → Text → Text → Text → Option Text → Joined → Db → Db
cancelled_db d j k kind policy_ref session r db =
    recorded d j k (codes "CANCEL")
      (entry k (codes "CANCEL") session (some (leg r.flight)) none kind (code_at d j)
        (some policy_ref))
      (set_cancelled k d.updated_at db).1

pub cancel_rule {ℓ} :
    (d : Draws) (pnr kind policy_ref : Text) (session : Option Text) (db : Db)
    (P : Outcome (Option Text) × Db → Type ℓ)
    → P (returned none, db)
    → P (raised runtime_error, db)
    → ((r : Joined) (j : ℕ)
        → fetch_pnr_row (canonical pnr) db ≡ some r
        → r.booked.status ≡ active
        → IsFresh d j db
        → P (
          returned (some (code_at d j)),
          cancelled_db d j (canonical pnr) kind policy_ref session r db,
        ))
    → P (cancel_booking d pnr kind policy_ref session db)
unfolding cancel_booking log_activity set_cancelled
cancel_rule d pnr kind policy_ref session db P refused fails works =
    let k = canonical pnr in
    for_active_rule k (cancel_body d k kind policy_ref session) db P refused (λ r e a.
      issue_code_rule d k (codes "CANCEL") (set_cancelled k d.updated_at db).1
        (λ o. P (
          settle db (
            after o (λ code.
              log_activity
                (entry k (codes "CANCEL") session (some (leg r.flight)) none kind code
                  (some policy_ref))
                d.logged_at
              >> (λ db'. (returned (some code), db'))))))
        fails (λ j fresh. works r j e a fresh))

-- A booking on standby.
abbrev pub listed_db : Draws → ℕ → Text → Option Text → Joined → Flight → Db → Db
listed_db d j k session r f db =
    recorded d j k (codes "STANDBY")
      (entry k (codes "STANDBY") session (some (leg r.flight)) (some (leg f)) (codes "listed")
        (code_at d j) none)
      db

pub standby_rule {ℓ} :
    (d : Draws) (pnr fn : Text) (session departure : Option Text) (db : Db)
    (P : Outcome (Option Text) × Db → Type ℓ)
    → P (returned none, db)
    → P (raised runtime_error, db)
    → ((r : Joined) (f : Flight) (j : ℕ)
        → fetch_pnr_row (canonical pnr) db ≡ some r
        → r.booked.status ≡ active
        → IsFresh d j db
        → P (returned (some (code_at d j)), listed_db d j (canonical pnr) session r f db))
    → P (list_standby d pnr fn session departure db)
unfolding list_standby log_activity
standby_rule d pnr fn session departure db P refused fails works =
    let k = canonical pnr in
    for_active_rule k (standby_body d k (canonical fn) session departure) db P refused (λ r e a.
      elim (Option-cases (scheduled (canonical fn) (given departure) db.flights)) [
        | inl missing ↦ rw (missing, standby_body) refused
        | inr (f, found) ↦
            rw (found, standby_body)
              (issue_code_rule d k (codes "STANDBY") db
                (λ o. P (
                  settle db (
                    after o (λ code.
                      log_activity
                        (entry k (codes "STANDBY") session (some (leg r.flight)) (some (leg f))
                          (codes "listed") code none)
                        d.logged_at
                      >> (λ db'. (returned (some code), db'))))))
                fails (λ j fresh. works r f j e a fresh))
      ])

-- A booking on another flight.
abbrev pub rebooked_db :
    Draws → ℕ → Text → Option Text → Option Text → Option Text → Joined → Flight → Db → Db
rebooked_db d j k session seat meal r f db =
    recorded d j k (codes "REBOOK")
      (entry k (codes "REBOOK") session (some (leg r.flight)) (some (leg f)) (codes "committed")
        (code_at d j) none)
      (apply_ancillary_updates k seat meal (set_flight k f.id d.updated_at db).1).1

pub rebook_rule {ℓ} :
    (d : Draws) (pnr fn : Text) (session seat meal departure : Option Text) (db : Db)
    (P : Outcome (Option Rebooked) × Db → Type ℓ)
    → P (returned none, db)
    → P (raised runtime_error, db)
    → ((r : Joined) (f : Flight) (j : ℕ)
        → fetch_pnr_row (canonical pnr) db ≡ some r
        → r.booked.status ≡ active
        → scheduled (canonical fn) (given departure) db.flights ≡ some f
        → IsFresh d j db
        → P (
          returned (
              some (record {
                confirmation_code = code_at d j;
                from_flight = r.flight.flight_number;
                to_flight = f.flight_number;
              })),
          rebooked_db d j (canonical pnr) session seat meal r f db,
        ))
    → P (commit_rebook d pnr fn session seat meal departure db)
unfolding commit_rebook log_activity set_flight apply_ancillary_updates
rebook_rule d pnr fn session seat meal departure db P refused fails works =
    let k = canonical pnr in
    for_active_rule k (rebook_body d k (canonical fn) session seat meal departure) db P refused
      (λ r e a. elim (Option-cases (scheduled (canonical fn) (given departure) db.flights)) [
        | inl missing ↦ rw (missing, rebook_body) refused
        | inr (f, found) ↦
            rw (found, rebook_body)
              (issue_code_rule d k (codes "REBOOK")
                ((apply_ancillary_updates k seat meal (set_flight k f.id d.updated_at db).1).1)
                (λ o. P (
                  settle db (
                    after o (λ code.
                      log_activity
                        (entry k (codes "REBOOK") session (some (leg r.flight)) (some (leg f))
                          (codes "committed") code none)
                        d.logged_at
                      >> (λ db'. (
                        returned (
                            some (record {
                              confirmation_code = code;
                              from_flight = r.flight.flight_number;
                              to_flight = f.flight_number;
                            })),
                        db',
                      ))))))
                fails (λ j fresh. works r f j e a found fresh))
      ])
