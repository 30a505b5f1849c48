-- ===== src/Airline/Audit.antt =====
-- The audit trail of the booking database (airline/database/api.py): the rows of the log against the
-- confirmation codes, for any sequence of calls.
use mathlib.Core.Path.{ap₂}
use mathlib.Core.List.{map-append}
use nemotron_voice_agent.Base.{
  ℕ, ◌≡◌, ◌≢◌, refl, ap, sym, ◌∙◌, false, Option, none, some, List, [], ◌∷◌, ◌++◌, map, Text, codes,
  text_eq, text_eq_iff, find_first, arith,
}
use nemotron_voice_agent.Airline.Tables.{Activity, Confirmation, Db, canonical, has_code}
use nemotron_voice_agent.Airline.Schedule.{Calendar, Outcome, returned}
use nemotron_voice_agent.Airline.Changes.{Draws, set_flight, set_cancelled, apply_ancillary_updates}
use nemotron_voice_agent.Airline.Bookings.{leg, entry}
use nemotron_voice_agent.Airline.Creation.{
  Command, create, rebook, cancel, standby, execute, answer, created_code, rebooked_code,
}
use nemotron_voice_agent.Airline.Rules.{
  IsFresh, code_at, recorded, cancel_rule, standby_rule, rebook_rule,
}
use nemotron_voice_agent.Airline.CreateRule.{Grown-SameBookings, create_rule}

-- What the log and the confirmation codes both tell of a call that succeeded.
pub record Trace : Type 0 where
  pub code : Text
  pub pnr : Text
  pub action : Text

abbrev pub logged : List Activity → List Trace
logged = map (λ a. record { code = a.confirmation_code; pnr = a.pnr; action = a.action })

abbrev confirmed : List Confirmation → List Trace
confirmed = map (λ c. record { code = c.code; pnr = c.pnr; action = c.action })

-- One step of the trail: an answer with a code adds one row to the log and one confirmation with it,
-- which is new; any other answer adds none.
data Trail (db db' : Db) : Outcome (Option Text) → Type 0 where
  silent :
      {o : Outcome (Option Text)}
      → ((k : Text) → o ≢ returned (some k))
      → db'.activity_log ≡ db.activity_log
      → db'.confirmation_codes ≡ db.confirmation_codes
      → Trail db db' o
  told :
      (a : Activity) (c : Confirmation)
      → db'.activity_log ≡ db.activity_log ++ a ∷ []
      → db'.confirmation_codes ≡ db.confirmation_codes ++ c ∷ []
      → has_code c.code db.confirmation_codes ≡ false
      → a.confirmation_code ≡ c.code
      → a.pnr ≡ c.pnr
      → a.action ≡ c.action
      → Trail db db' (returned (some c.code))

abbrev Follows : Db → Outcome (Option Text) × Db → Type 0
Follows db r = Trail db r.1 r.0

-- What is recorded after changes of the other tables.
recorded-Trail :
    (d : Draws) (j : ℕ) (k action : Text) (a : Activity) (db mid : Db)
    → mid.activity_log ≡ db.activity_log
    → mid.confirmation_codes ≡ db.confirmation_codes
    → IsFresh d j db
    → a.confirmation_code ≡ code_at d j
    → a.pnr ≡ k
    → a.action ≡ action
    → Trail db (recorded d j k action a mid) (returned (some (code_at d j)))
recorded-Trail d j k action a db mid same_log same_codes fresh e f g =
    let row = record a { id = mid.next_activity_id; created_at = d.logged_at } in
    let c : Confirmation = record {
      code = code_at d j;
      pnr = k;
      action = action;
      issued_at = d.issued_at j;
    } in
    told row c (ap (λ l. l ++ row ∷ []) same_log) (ap (λ l. l ++ c ∷ []) same_codes) fresh e f g

execute-Trail :
    (c : Calendar) (d : Draws) (cmd : Command) (db : Db) → Follows db (execute c d cmd db)
unfolding execute set_flight set_cancelled apply_ancillary_updates
execute-Trail c d (create w) db =
    create_rule d w db (λ r. Follows db (answer created_code r)) (λ e. silent (λ k. cc) refl refl) c
      (λ db' grown.
        let same = Grown-SameBookings grown in silent (λ k. cc) same.same_log same.same_codes)
      (λ db' f k j grown free fresh.
        let same = Grown-SameBookings grown in
        recorded-Trail d j k _
          (entry k (codes "BOOK") w.session_id none (some (leg f)) (codes "booked") (code_at d j)
            none)
          db _ same.same_log same.same_codes (rw same.same_codes at fresh) refl refl refl)
execute-Trail c d (rebook pnr fn session seat meal departure) db =
    rebook_rule d pnr fn session seat meal departure db (λ r. Follows db (answer rebooked_code r))
      (silent (λ k. cc) refl refl) (silent (λ k. cc) refl refl)
      (λ r f j e a s fresh.
        recorded-Trail d j _ _
          (entry (canonical pnr) (codes "REBOOK") session (some (leg r.flight)) (some (leg f))
            (codes "committed") (code_at d j) none)
          db _ refl refl fresh refl refl refl)
execute-Trail c d (cancel pnr kind policy_ref session) db =
    cancel_rule d pnr kind policy_ref session db (Follows db) (silent (λ k. cc) refl refl)
      (silent (λ k. cc) refl refl)
      (λ r j e a fresh.
        recorded-Trail d j _ _
          (entry (canonical pnr) (codes "CANCEL") session (some (leg r.flight)) none kind
            (code_at d j) (some policy_ref))
          db _ refl refl fresh refl refl refl)
execute-Trail c d (standby pnr fn session departure) db =
    standby_rule d pnr fn session departure db (Follows db) (silent (λ k. cc) refl refl)
      (silent (λ k. cc) refl refl)
      (λ r f j e a fresh.
        recorded-Trail d j _ _
          (entry (canonical pnr) (codes "STANDBY") session (some (leg r.flight)) (some (leg f))
            (codes "listed") (code_at d j) none)
          db _ refl refl fresh refl refl refl)

abbrev AllDistinct : List Confirmation → Type 0
AllDistinct [] = Unit
AllDistinct (c ∷ cs) = (has_code c.code cs ≡ false) × AllDistinct cs

has_code-snoc :
    (k : Text) (c : Confirmation) (cs : List Confirmation)
    → text_eq c.code k ≡ false
    → has_code k cs ≡ false
    → has_code k (cs ++ c ∷ []) ≡ false
unfolding has_code find_first
has_code-snoc k c [] h e = rw h refl
has_code-snoc k c (b ∷ cs) h e = ground (arith, has_code-snoc k c cs h)

has_code_head :
    (k : Text) (b : Confirmation) (cs : List Confirmation)
    → has_code k (b ∷ cs) ≡ false
    → (text_eq b.code k ≡ false) × (has_code k cs ≡ false)
unfolding has_code find_first
has_code_head k b cs h = ground arith

text_eq_comm : (a b : Text) → text_eq a b ≡ false → text_eq b a ≡ false
text_eq_comm a b h = ground (arith, text_eq_iff a b, text_eq_iff b a)

AllDistinct-snoc :
    (c : Confirmation) (cs : List Confirmation)
    → has_code c.code cs ≡ false
    → AllDistinct cs
    → AllDistinct (cs ++ c ∷ [])
AllDistinct-snoc c [] h d = (h, tt)
AllDistinct-snoc c (b ∷ cs) h d =
    let (other, rest) = has_code_head c.code b cs h in
    (has_code-snoc b.code c cs (text_eq_comm _ _ other) d.0, AllDistinct-snoc c cs rest d.1)

trace_eq :
    (a : Activity) (c : Confirmation)
    → a.confirmation_code ≡ c.code
    → a.pnr ≡ c.pnr
    → a.action ≡ c.action
    → ◌≡◌ {A = Trace}
        (record { code = a.confirmation_code; pnr = a.pnr; action = a.action })
        (record { code = c.code; pnr = c.pnr; action = c.action })
trace_eq a c e f g = rw e (rw f (rw g refl))

-- The log and the confirmations tell the same, row by row, and no two confirmations have one code.
pub record IsAudited (db : Db) : Type 0 where
  pub agree : logged db.activity_log ≡ confirmed db.confirmation_codes
  pub distinct : AllDistinct db.confirmation_codes

Trail-IsAudited :
    {db db' : Db} {o : Outcome (Option Text)} → Trail db db' o → IsAudited db → IsAudited db'
Trail-IsAudited {db} (silent _ same_log same_codes) h = record {
  agree = ap logged same_log ∙ h.agree ∙ sym (ap confirmed same_codes);
  distinct = rw same_codes h.distinct;
}
Trail-IsAudited {db} (told a c more_log more_codes fresh e f g) h = record {
  agree =
      ap logged more_log
      ∙ map-append _ db.activity_log (a ∷ [])
      ∙ ap₂ ◌++◌ h.agree (ap (λ t. t ∷ []) (trace_eq a c e f g))
      ∙ sym (map-append _ db.confirmation_codes (c ∷ []))
      ∙ sym (ap confirmed more_codes);
  distinct = rw more_codes (AllDistinct-snoc c db.confirmation_codes fresh h.distinct);
}

-- Any sequence of calls, each with what it draws; the database after it.
abbrev pub run : Calendar → List (Draws × Command) → Db → Db
run c [] db = db
run c ((d, cmd) ∷ calls) db = run c calls (execute c d cmd db).1

-- Whatever the calls are and however they end, the log and the confirmation codes tell the same and
-- no code is issued twice, if it was so before.
pub run-IsAudited :
    (c : Calendar) (calls : List (Draws × Command)) (db : Db)
    → IsAudited db
    → IsAudited (run c calls db)
run-IsAudited c [] db h = h
run-IsAudited c ((d, cmd) ∷ calls) db h =
    run-IsAudited c calls _ (Trail-IsAudited (execute-Trail c d cmd db) h)
