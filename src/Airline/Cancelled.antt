-- ===== src/Airline/Cancelled.antt =====
-- What follows a cancellation, and that an active booking can be cancelled (airline/database/api.py).
use nemotron_voice_agent.Base.{
  ℕ, zero, suc, ◌+◌, ◌<◌, ◌≡◌, ◌≢◌, refl, sym, ap, ◌∙◌, inl, inr, false, Option, none, some, List,
  [], ◌∷◌, Text, codes, text_eq, text_eq_sound, text_eq_refl, arith, Bool-cases,
}
use nemotron_voice_agent.Airline.Tables.{Db, active, cancelled, canonical, upper, has_code}
use nemotron_voice_agent.Airline.Schedule.{Calendar, Outcome, returned}
use nemotron_voice_agent.Airline.Lookup.{Joined, fetch_pnr_row}
use nemotron_voice_agent.Airline.Changes.{
  Action, Draws, issue_from, issue_code, set_cancelled, log_activity,
}
use nemotron_voice_agent.Airline.Bookings.{for_active, cancel_body, cancel_booking}
use nemotron_voice_agent.Airline.Creation.{Command, create, rebook, cancel, standby, execute}
use nemotron_voice_agent.Airline.Rules.{IsFresh, code_at, issued, cancelled_db}
use nemotron_voice_agent.Airline.Audit.{run}
use nemotron_voice_agent.Airline.Lifecycle.{
  Held, Bookings, bookings, Becomes, NoCode, Step, refuses, books, moves, cancels, lists,
  execute-Step, Becomes-update_pnr, fetch-find,
}

abbrev gone : ℕ → Option Held
gone f = some (record { status = cancelled; flight_id = f })

active-ne-cancelled : {f g : ℕ} → some (record { status = active; flight_id = g }) ≢ gone f
active-ne-cancelled e = cc

none-ne-gone : {f : ℕ} → none ≢ gone f
none-ne-gone e = cc

Becomes-other :
    (k j : Text) (h : Held) (f : ℕ) (v v' : Bookings)
    → v k ≢ gone f
    → Becomes k h v v'
    → v j ≡ gone f
    → v' j ≡ gone f
Becomes-other k j h f v v' ne b e = elim (Bool-cases (text_eq k j)) [
  | inl same ↦ absurd (ne (ap v (text_eq_sound k j same) ∙ e))
  | inr other ↦ (rw other at (b j)) ∙ e
]

-- No step changes a cancelled booking.
Step-gone :
    (j : Text) (f : ℕ) {v v' : Bookings} {cmd : Command} {o : Outcome (Option Text)}
    → Step v v' cmd o
    → v j ≡ gone f
    → v' j ≡ gone f
Step-gone j f (refuses no_code same) e = same j ∙ e
Step-gone j f {v} {v'} (books k flight_id free b) e =
    Becomes-other k j _ f v v' (λ h. none-ne-gone (sym free ∙ h)) b e
Step-gone j f {v} {v'} (moves {pnr} from to here b) e =
    Becomes-other (canonical pnr) j _ f v v' (λ h. active-ne-cancelled (sym here ∙ h)) b e
Step-gone j f {v} {v'} (cancels {pnr} flight_id here b) e =
    Becomes-other (canonical pnr) j _ f v v' (λ h. active-ne-cancelled (sym here ∙ h)) b e
Step-gone j f (lists flight_id here same) e = same j ∙ e

-- The booking that a call names.
abbrev concerns : Command → Option Text
concerns (create w) = none
concerns (rebook pnr fn session seat meal departure) = some (canonical pnr)
concerns (cancel pnr kind policy_ref session) = some (canonical pnr)
concerns (standby pnr fn session departure) = some (canonical pnr)

some_inj : {j k : Text} → some j ≡ some k → j ≡ k
some_inj e = cc

not_active :
    (j k : Text) (f g : ℕ) (v : Bookings)
    → some j ≡ some k
    → v k ≡ gone f
    → v j ≢ some (record { status = active; flight_id = g })
not_active j k f g v e h a = active-ne-cancelled (sym a ∙ ap v (some_inj e) ∙ h)

Step-NoCode :
    (k : Text) (f : ℕ) {v v' : Bookings} {cmd : Command} {o : Outcome (Option Text)}
    → Step v v' cmd o
    → concerns cmd ≡ some k
    → v k ≡ gone f
    → NoCode o
Step-NoCode k f (refuses no_code same) named h = no_code
Step-NoCode k f (books j flight_id free b) named h = λ code e. cc
Step-NoCode k f {v} (moves {pnr} from to here b) named h =
    λ code e. not_active (canonical pnr) k f from v named h here
Step-NoCode k f {v} (cancels {pnr} flight_id here b) named h =
    λ code e. not_active (canonical pnr) k f flight_id v named h here
Step-NoCode k f {v} (lists {pnr} flight_id here same) named h =
    λ code e. not_active (canonical pnr) k f flight_id v named h here

run-gone :
    (c : Calendar) (calls : List (Draws × Command)) (db : Db) (k : Text) (f : ℕ)
    → bookings db k ≡ gone f
    → bookings (run c calls db) k ≡ gone f
run-gone c [] db k f h = h
run-gone c ((d, cmd) ∷ calls) db k f h =
    run-gone c calls _ k f (Step-gone k f (execute-Step c d cmd db) h)

-- A cancelled booking stays cancelled on its flight whatever calls follow, and each of them that names
-- it, a rebooking, a standby or a second cancellation, is answered without a code.
pub cancelled_for_good :
    (c : Calendar) (calls : List (Draws × Command)) (db : Db) (k : Text) (f : ℕ) (d : Draws)
    (cmd : Command)
    → bookings db k ≡ some (record { status = cancelled; flight_id = f })
    → concerns cmd ≡ some k
    → (bookings (run c calls db) k ≡ some (record { status = cancelled; flight_id = f }))
      × ((code : Text) → (execute c d cmd (run c calls db)).0 ≢ returned (some code))
cancelled_for_good c calls db k f d cmd h named =
    let after = run-gone c calls db k f h in
    (after, Step-NoCode k f (execute-Step c d cmd (run c calls db)) named after)

-- The try that succeeds.
Issued : ℕ → ℕ → Draws → Text → Text → Db → Type 0
Issued n i d k action db =
    (j : ℕ) × (issue_from n i d k action db ≡ (returned (code_at d j), issued d j k action db))

issue_from-Issued :
    (n i m : ℕ) (d : Draws) (k action : Text) (db : Db)
    → m < n
    → IsFresh d (i + m) db
    → Issued n i d k action db
unfolding issue_from Issued
issue_from-Issued zero i m d k action db h fresh = absurd (omega arith)
issue_from-Issued (suc n) i zero d k action db h fresh =
    let e : i + 0 ≡ i = omega arith in (i, rw (rw e at fresh) refl)
issue_from-Issued (suc n) i (suc m) d k action db h fresh =
    elim (Bool-cases (has_code (code_at d i) db.confirmation_codes)) [
      | inr free ↦ (i, rw free refl)
      | inl taken ↦
          let e : i + suc m ≡ suc i + m = omega arith in
          rw taken (issue_from-Issued n (suc i) m d k action db (omega arith) (rw e at fresh))
    ]

for_active-active :
    {A : Type 0} (k : Text) (body : Joined → Action (Option A)) (db : Db) (r : Joined)
    → fetch_pnr_row k db ≡ some r
    → r.booked.status ≡ active
    → for_active k body db ≡ body r db
unfolding for_active
for_active-active k body db r e a =
    let t = ap (λ s. text_eq s active) a ∙ text_eq_refl active in rw (e, for_active) (rw t refl)

-- An active booking of a known flight is cancelled by the call, unless all the ten random codes that may
-- be drawn are taken.
pub cancel_succeeds :
    (c : Calendar) (d : Draws) (pnr kind policy_ref : Text) (session : Option Text) (db : Db)
    (r : Joined) (m : ℕ)
    → fetch_pnr_row (canonical pnr) db ≡ some r
    → r.booked.status ≡ active
    → m < 10
    → has_code (upper (d.tokens m)) db.confirmation_codes ≡ false
    → let (o, db') = execute c d (cancel pnr kind policy_ref session) db in
      ((code : Text) × (o ≡ returned (some code)))
      × (bookings db' (canonical pnr)
          ≡ some (record { status = cancelled; flight_id = r.booked.flight_id }))
unfolding execute cancel_booking issue_code set_cancelled log_activity Issued
cancel_succeeds c d pnr kind policy_ref session db r m e a h fresh =
    let k = canonical pnr in
    let e0 : m ≡ 0 + m = omega arith in
    let (j, issue) =
      issue_from-Issued 10 0 m d k (codes "CANCEL") (set_cancelled k d.updated_at db).1 h
        (rw e0 at fresh) in
    rw (for_active-active k (cancel_body d k kind policy_ref session) db r e a) (
      rw (issue, cancel_body)
        (
          (code_at d j, refl),
          Becomes-update_pnr (λ p. record p { status = cancelled; updated_at = d.updated_at }) k db
                (cancelled_db d j k kind policy_ref session r db) r.booked (λ q. refl)
                (fetch-find k db e) refl k
              ∙ rw (text_eq_refl k) refl,
        ))
