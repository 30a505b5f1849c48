-- ===== src/Airline/Lifecycle.antt =====
-- The life of a booking in the database (airline/database/api.py): a code is free, then active on a
-- flight, then cancelled. The calls as steps of that.
use nemotron_voice_agent.Base.{
  ℕ, ◌≡◌, ◌≢◌, refl, sym, ap, ◌∙◌, inl, inr, Bool, false, Option, none, some, List, [], ◌∷◌, ◌++◌,
  Text, codes, text_eq, text_eq_iff, text_eq_sound, is_some, find_first, arith, Bool-cases,
  if◌then◌else◌,
}
use nemotron_voice_agent.Airline.Tables.{
  Pnr, Db, active, cancelled, canonical, find_pnr, update_pnr,
}
use nemotron_voice_agent.Airline.Schedule.{Calendar, Outcome, returned}
use nemotron_voice_agent.Airline.Lookup.{Joined, join, fetch_pnr_row}
use nemotron_voice_agent.Airline.Changes.{Draws, set_flight, set_cancelled, apply_ancillary_updates}
use nemotron_voice_agent.Airline.Creation.{
  Wish, Command, create, rebook, cancel, standby, execute, answer, created_code, rebooked_code,
  new_pnr_row,
}
use nemotron_voice_agent.Airline.Rules.{
  cancel_rule, standby_rule, rebook_rule, cancelled_db, rebooked_db, listed_db,
}
use nemotron_voice_agent.Airline.CreateRule.{Grown-SameBookings, booked_db, create_rule}

-- A booking as its caller knows it: whether it is active, and its flight.
pub record Held : Type 0 where
  pub status : Text
  pub flight_id : ℕ

abbrev pub Bookings : Type 0
Bookings = Text → Option Held

abbrev pub held : Pnr → Held
held p = record { status = p.status; flight_id = p.flight_id }

abbrev held? : Option Pnr → Option Held
held? none = none
held? (some p) = some (held p)

-- The bookings that the database stands for.
abbrev pub bookings : Db → Bookings
bookings db k = held? (find_pnr k db)

abbrev Same : Bookings → Bookings → Type 0
Same v v' = (j : Text) → v' j ≡ v j

-- `v'` is `v` but for the booking `k`.
abbrev pub Becomes : Text → Held → Bookings → Bookings → Type 0
Becomes k h v v' = (j : Text) → v' j ≡ (if text_eq k j then some h else v j)

abbrev pub NoCode : Outcome (Option Text) → Type 0
NoCode o = (code : Text) → o ≢ returned (some code)

-- What a call may do to the bookings, with its answer.
pub data Step (v v' : Bookings) : Command → Outcome (Option Text) → Type 0 where
  refuses : {cmd : Command} {o : Outcome (Option Text)} → NoCode o → Same v v' → Step v v' cmd o
  books :
      {w : Wish} {code : Text} (k : Text) (flight_id : ℕ)
      → v k ≡ none
      → Becomes k (record { status = active; flight_id = flight_id }) v v'
      → Step v v' (create w) (returned (some code))
  moves :
      {pnr fn code : Text} {session seat meal departure : Option Text} (from to : ℕ)
      → v (canonical pnr) ≡ some (record { status = active; flight_id = from })
      → Becomes (canonical pnr) (record { status = active; flight_id = to }) v v'
      → Step v v' (rebook pnr fn session seat meal departure) (returned (some code))
  cancels :
      {pnr kind policy_ref code : Text} {session : Option Text} (flight_id : ℕ)
      → v (canonical pnr) ≡ some (record { status = active; flight_id = flight_id })
      → Becomes (canonical pnr) (record { status = cancelled; flight_id = flight_id }) v v'
      → Step v v' (cancel pnr kind policy_ref session) (returned (some code))
  lists :
      {pnr fn code : Text} {session departure : Option Text} (flight_id : ℕ)
      → v (canonical pnr) ≡ some (record { status = active; flight_id = flight_id })
      → Same v v'
      → Step v v' (standby pnr fn session departure) (returned (some code))

pub fetch-find :
    (k : Text) (db : Db) {r : Joined} → fetch_pnr_row k db ≡ some r → find_pnr k db ≡ some r.booked
unfolding fetch_pnr_row join
fetch-find k db {r} h = ground arith

abbrev map_option : (Pnr → Pnr) → Option Pnr → Option Pnr
map_option g none = none
map_option g (some p) = some (g p)

find-update_pnr :
    (g : Pnr → Pnr) (k j : Text) (ps : List Pnr)
    → ((p : Pnr) → (g p).pnr ≡ p.pnr)
    → find_first (λ p. text_eq p.pnr j) (update_pnr g k ps) ≡ (
        if text_eq k j
        then map_option g (find_first (λ p. text_eq p.pnr j) ps)
        else find_first (λ p. text_eq p.pnr j) ps)
unfolding find_first update_pnr
find-update_pnr g k j [] keeps = ground arith
find-update_pnr g k j (p ∷ ps) keeps = ground (
  arith,
  keeps p,
  find-update_pnr g k j ps keeps,
  text_eq_iff p.pnr k,
  text_eq_iff p.pnr j,
  text_eq_iff k j,
)

abbrev first_of {ℓ} : {A : Type ℓ} → Option A → Option A → Option A
first_of none o = o
first_of (some y) o = some y

first_of-none {ℓ} : {A : Type ℓ} (o : Option A) → first_of o none ≡ o
first_of-none none = refl
first_of-none (some y) = refl

find_first-snoc {ℓ} :
    {A : Type ℓ} (t : A → Bool) (xs : List A) (x : A)
    → find_first t (xs ++ x ∷ []) ≡ first_of (find_first t xs) (if t x then some x else none)
unfolding find_first
find_first-snoc t [] x = refl
find_first-snoc t (y ∷ xs) x = elim (Bool-cases (t y)) [
  | inl e ↦ rw e refl
  | inr e ↦ rw e (find_first-snoc t xs x)
]

Same-pnrs : (db db' : Db) → db'.pnrs ≡ db.pnrs → Same (bookings db) (bookings db')
unfolding find_pnr
Same-pnrs db db' e j = ap (λ ps. held? (find_first (λ p. text_eq p.pnr j) ps)) e

Same-Becomes :
    (k : Text) (h : Held) {u v w : Bookings} → Same u v → Becomes k h v w → Becomes k h u w
Same-Becomes k h same b j = b j ∙ ap (λ o. if text_eq k j then some h else o) (same j)

-- An update of one booking in the table.
pub Becomes-update_pnr :
    (g : Pnr → Pnr) (k : Text) (db db' : Db) (p : Pnr)
    → ((q : Pnr) → (g q).pnr ≡ q.pnr)
    → find_pnr k db ≡ some p
    → db'.pnrs ≡ update_pnr g k db.pnrs
    → Becomes k (held (g p)) (bookings db) (bookings db')
unfolding find_pnr
Becomes-update_pnr g k db db' p keeps found e j = rw e (
    ap held? (find-update_pnr g k j db.pnrs keeps) ∙ elim (Bool-cases (text_eq k j)) [
      | inl same ↦ rw same (rw (text_eq_sound k j same) at (ap (λ o. held? (map_option g o)) found))
      | inr other ↦ rw other refl
    ])

-- A new booking in the table.
Becomes-new :
    (p : Pnr) (db db' : Db)
    → find_pnr p.pnr db ≡ none
    → db'.pnrs ≡ db.pnrs ++ p ∷ []
    → Becomes p.pnr (held p) (bookings db) (bookings db')
unfolding find_pnr
Becomes-new p db db' free e j = rw e (
    ap held? (find_first-snoc (λ q. text_eq q.pnr j) db.pnrs p)
    ∙ elim (Bool-cases (text_eq p.pnr j)) [
      | inl same ↦ rw same (
          ap (λ o. held? (first_of o (some p)))
            (ap (λ k. find_pnr k db) (sym (text_eq_sound p.pnr j same)) ∙ free))
      | inr other ↦ rw other (ap held? (first_of-none (find_first (λ q. text_eq q.pnr j) db.pnrs)))
    ])

is_none : (o : Option Pnr) → is_some o ≡ false → o ≡ none
is_none none h = refl
is_none (some p) h = cc

abbrev Behaves : Command → Db → Outcome (Option Text) × Db → Type 0
Behaves cmd db r = Step (bookings db) (bookings r.1) cmd r.0

active-held :
    (k : Text) (db : Db) {r : Joined}
    → fetch_pnr_row k db ≡ some r
    → r.booked.status ≡ active
    → bookings db k ≡ some (record { status = active; flight_id = r.booked.flight_id })
active-held k db {r} e a =
    ap held? (fetch-find k db e)
    ∙ ap (λ s. some (record { status = s; flight_id = r.booked.flight_id })) a

unchanged :
    {cmd : Command} {o : Outcome (Option Text)} (db : Db) → NoCode o → Behaves cmd db (o, db)
unchanged db no_code = refuses no_code (λ j. refl)

-- Every call does to the bookings what its step allows, whatever it draws and however it ends.
pub execute-Step :
    (c : Calendar) (d : Draws) (cmd : Command) (db : Db)
    → Step (bookings db) (bookings (execute c d cmd db).1) cmd (execute c d cmd db).0
unfolding execute set_flight set_cancelled apply_ancillary_updates
execute-Step c d (create w) db =
    create_rule d w db (λ r. Behaves (create w) db (answer created_code r))
      (λ e. unchanged db (λ k. cc)) c
      (λ db' grown. refuses (λ k. cc) (Same-pnrs db db' (Grown-SameBookings grown).same_pnrs))
      (λ db' f k j grown free fresh.
        let same = Same-pnrs db db' (Grown-SameBookings grown).same_pnrs in
        let absent = is_none (find_pnr k db') free.no_pnr in
        books k f.id (sym (same k) ∙ ap held? absent) (
          Same-Becomes k (held (new_pnr_row d w k f)) same
            (Becomes-new (new_pnr_row d w k f) db' (booked_db d j w k f db') absent refl)))
execute-Step c d (rebook pnr fn session seat meal departure) db =
    rebook_rule d pnr fn session seat meal departure db
      (λ r. Behaves (rebook pnr fn session seat meal departure) db (answer rebooked_code r))
      (unchanged db (λ k. cc)) (unchanged db (λ k. cc))
      (λ r f j e a s fresh. moves r.booked.flight_id f.id (active-held (canonical pnr) db e a) (
        rw a at (
          Becomes-update_pnr (λ p. record p { flight_id = f.id; updated_at = d.updated_at })
            (canonical pnr) db (rebooked_db d j (canonical pnr) session seat meal r f db) r.booked
            (λ q. refl) (fetch-find (canonical pnr) db e) refl)))
execute-Step c d (cancel pnr kind policy_ref session) db =
    cancel_rule d pnr kind policy_ref session db (Behaves (cancel pnr kind policy_ref session) db)
      (unchanged db (λ k. cc)) (unchanged db (λ k. cc))
      (λ r j e a fresh. cancels r.booked.flight_id (active-held (canonical pnr) db e a) (
        Becomes-update_pnr (λ p. record p { status = codes "cancelled"; updated_at = d.updated_at })
          (canonical pnr) db (cancelled_db d j (canonical pnr) kind policy_ref session r db)
          r.booked (λ q. refl) (fetch-find (canonical pnr) db e) refl))
execute-Step c d (standby pnr fn session departure) db =
    standby_rule d pnr fn session departure db (Behaves (standby pnr fn session departure) db)
      (unchanged db (λ k. cc)) (unchanged db (λ k. cc))
      (λ r f j e a fresh.
        lists r.booked.flight_id (active-held (canonical pnr) db e a)
          (Same-pnrs db (listed_db d j (canonical pnr) session r f db) refl))
