-- ===== src/Airline/Changes.antt =====
-- The statements by which BookingAPI (airline/database/api.py) changes the database, and its
-- transaction: a call that raises leaves the database as it was.
use nemotron_voice_agent.Base.{
  ℕ, zero, suc, ◌&&◌, not, Option, none, some, List, [], ◌∷◌, ◌++◌, map, filter, Text, codes,
  text_eq, text_in, strip, lower, is_empty, ◌==◌, if◌then◌else◌, find_first,
}
use nemotron_voice_agent.Base.Dict.{Dict, get}
use nemotron_voice_agent.Airline.Tables.{
  Flight, Activity, Confirmation, Db, upper, by_departure, first, has_code, update_pnr,
}
use nemotron_voice_agent.Airline.Schedule.{Outcome, returned, raised, runtime_error}

-- A call on the database, which may raise.
abbrev pub Action {ℓ} : Type ℓ → Type ℓ
Action A = Db → Outcome A × Db

-- What follows a call, unless it raised.
abbrev pub after {ℓ κ} :
    {A : Type ℓ} {B : Type κ} → Outcome A × Db → (A → Action B) → Outcome B × Db
after (returned a, db) f = f a db
after (raised e, db) f = (raised e, db)

infixl 5 ◌>>=◌ ◌>>◌
abbrev pub ◌>>=◌ {ℓ κ} : {A : Type ℓ} {B : Type κ} → Action A → (A → Action B) → Action B
◌>>=◌ m f db = after (m db) f

abbrev pub ◌>>◌ {ℓ κ} : {A : Type ℓ} {B : Type κ} → Action A → Action B → Action B
m >> k = m >>= λ _. k

abbrev pub pure {ℓ} : {A : Type ℓ} → A → Action A
pure a db = (returned a, db)

-- The end of `with self._conn:`: commit, or roll back to the database of the start.
abbrev pub settle {ℓ} : {A : Type ℓ} → Db → Outcome A × Db → Outcome A × Db
settle start (returned a, db) = (returned a, db)
settle start (raised e, db) = (raised e, start)

-- `with self._conn:`
abbrev pub transaction {ℓ} : {A : Type ℓ} → Action A → Action A
transaction body db = settle db (body db)

-- What a call draws: random codes by the number of the try, and the times that it writes.
pub record Draws : Type 0 where
  pub tokens : ℕ → Text
  pub candidates : ℕ → Text
  pub updated_at : Text
  pub issued_at : ℕ → Text
  pub logged_at : Text

-- `if departure:` of an optional text
abbrev pub given : Option Text → Option Text
given none = none
given (some t) = if is_empty t then none else some t

-- The flight of a number at a departure, or the first one to leave.
unfoldable pub scheduled : Text → Option Text → List Flight → Option Flight
scheduled fn none fs = first (by_departure (filter (λ f. text_eq f.flight_number fn) fs))
scheduled fn (some t) fs = find_first (λ f. text_eq f.flight_number fn && text_eq f.departure t) fs

unfoldable pub set_flight : Text → ℕ → Text → Action (Unit {0})
set_flight k flight_id now db = (
  returned tt,
  record db {
    pnrs = update_pnr (λ p. record p { flight_id = flight_id; updated_at = now }) k db.pnrs;
  },
)

unfoldable pub set_cancelled : Text → Text → Action (Unit {0})
set_cancelled k now db = (
  returned tt,
  record db {
    pnrs = update_pnr (λ p. record p { status = codes "cancelled"; updated_at = now }) k db.pnrs;
  },
)

abbrev code_retries : ℕ
code_retries = 10

-- `n` tries are left, the next one is number `i`.
unfoldable pub issue_from : ℕ → ℕ → Draws → Text → Text → Action Text
issue_from zero i d k action db = (raised runtime_error, db)
issue_from (suc n) i d k action db =
    let code = upper (d.tokens i) in
    let again = issue_from n (suc i) d k action db in
    let row : Confirmation = record {
      code = code;
      pnr = k;
      action = action;
      issued_at = d.issued_at i;
    } in
    if has_code code db.confirmation_codes
    then again
    else (returned code, record db { confirmation_codes = db.confirmation_codes ++ row ∷ [] })

unfoldable pub issue_code : Draws → Text → Text → Action Text
issue_code d k action = issue_from code_retries 0 d k action

unfoldable pub log_activity : Activity → Text → Action (Unit {0})
log_activity a now db =
    let row = record a { id = db.next_activity_id; created_at = now } in
    (
      returned tt,
      record db {
        activity_log = db.activity_log ++ row ∷ [];
        next_activity_id = suc db.next_activity_id;
      },
    )

abbrev keep_tokens : List Text
keep_tokens =
    codes "keep" ∷ codes "same" ∷ codes "no_change" ∷ codes "existing" ∷ codes "unchanged" ∷ []

abbrev meal_codes : Dict Text
meal_codes =
    (codes "vegetarian", codes "VGML")
    ∷ (codes "vegan", codes "VGML")
    ∷ (codes "non_vegetarian", codes "NVML")
    ∷ (codes "non-vegetarian", codes "NVML")
    ∷ (codes "nonvegetarian", codes "NVML")
    ∷ (codes "regular", codes "NVML")
    ∷ (codes "kosher", codes "KSML")
    ∷ (codes "halal", codes "MOML")
    ∷ (codes "gluten_free", codes "GFML")
    ∷ (codes "gluten-free", codes "GFML")
    ∷ []

-- `meal.strip().lower().replace(" ", "_")`
unfoldable meal_key : Text → Text
meal_key meal = map (λ c. if c == 32 then 95 else c) (lower (strip meal))

unfoldable meal_code : Text → Text
meal_code key = elim (get meal_codes key) [ none ↦ upper key | some code ↦ code ]

unfoldable pub canonical_meal : Option Text → Option Text
unfolding meal_key meal_code
canonical_meal none = none
canonical_meal (some meal) =
    if is_empty (meal_key meal) then none else some (meal_code (meal_key meal))

unfoldable new_seat : Option Text → Option Text → Option Text
new_seat none old = old
new_seat (some seat) old =
    if not (text_in (lower (strip seat)) keep_tokens) && not (is_empty (strip seat))
    then some (upper (strip seat))
    else old

unfoldable new_meal : Option Text → Option Text → Option Text
unfolding meal_key meal_code
new_meal none old = old
new_meal (some meal) old =
    if not (text_in (meal_key meal) keep_tokens) && not (is_empty (meal_key meal))
    then some (meal_code (meal_key meal))
    else old

-- The update is left out where nothing changes, which makes no difference to the row.
unfoldable pub apply_ancillary_updates : Text → Option Text → Option Text → Action (Unit {0})
unfolding new_seat new_meal
apply_ancillary_updates k seat meal db = (
  returned tt,
  record db {
    ancillaries =
        map
          (λ a.
            if text_eq a.pnr k
            then record a { seat = new_seat seat a.seat; meal = new_meal meal a.meal }
            else a)
          db.ancillaries;
  },
)
