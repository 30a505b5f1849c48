-- ===== src/Json.antt =====
-- JSON values as `json.loads` gives them: the messages and the session views that src/realtime reads.
-- A float is kept as the bit pattern of its double. A dictionary keeps its insertion order.
use nemotron_voice_agent.Base.{
  ℕ, suc, Bool, true, false, not, ◌&&◌, is_some, ◌==◌, Option, none, some, Text, text_eq,
  text_eq_iff, text_eq_sound, text_eq_refl, Bool-cases, inl, inr, ◌≡◌, refl, arith, if◌then◌else◌,
}

mutual
  pub data Json : Type 0 where
    null : Json
    boolean : Bool → Json
    int : ℕ → Json
    negative : ℕ → Json
    float : ℕ → Json
    str : Text → Json
    arr : Items → Json
    obj : Fields → Json

  pub data Items : Type 0 where
    nil : Items
    cons : Json → Items → Items

  pub data Fields : Type 0 where
    end : Fields
    field : Text → Json → Fields → Fields

-- `fields.get(key)`, `none` for a missing key
unfoldable pub lookup : Fields → Text → Option Json
lookup end k = none
lookup (field j v rest) k = let found = lookup rest k in if text_eq j k then some v else found

-- `fields[key] = value`: a present key keeps its place
unfoldable pub assign : Fields → Text → Json → Fields
assign end k v = field k v end
assign (field j w rest) k v =
    let changed = assign rest k v in if text_eq j k then field j v rest else field j w changed

-- `isinstance(value, str)` and the value, and so on
abbrev as_str : Json → Option Text
as_str (str t) = some t
as_str _ = none

abbrev as_obj : Json → Option Fields
as_obj (obj f) = some f
as_obj _ = none

-- `fields.get(key)` where a missing key and `None` are not told apart
abbrev pub or_null : Option Json → Json
or_null none = null
or_null (some v) = v

-- `key in fields`
abbrev pub has : Fields → Text → Bool
has f k = is_some (lookup f k)

unfoldable pub size : Fields → ℕ
size end = 0
size (field k v rest) = suc (size rest)

-- The second value may be missing. Float bit patterns, texts and so on are compared as they are;
-- dictionaries by their keys, whatever the order.
unfoldable mutual
  pub same : Json → Option Json → Bool
  same null (some null) = true
  same (boolean true) (some (boolean b)) = b
  same (boolean false) (some (boolean b)) = not b
  same (int n) (some (int m)) = n == m
  same (negative n) (some (negative m)) = n == m
  same (float n) (some (float m)) = n == m
  same (str s) (some (str t)) = text_eq s t
  same (arr xs) (some (arr ys)) = items_eq xs ys
  same (obj f) (some (obj g)) = size f == size g && fields_in f g
  same _ _ = false

  pub items_eq : Items → Items → Bool
  items_eq nil nil = true
  items_eq (cons x xs) (cons y ys) = same x (some y) && items_eq xs ys
  items_eq _ _ = false

  pub fields_in : Fields → Fields → Bool
  fields_in end g = true
  fields_in (field k v rest) g = same v (lookup g k) && fields_in rest g

-- `{key: value for key, value in fields.items() if p(key)}`
unfoldable pub keep : (Text → Bool) → Fields → Fields
keep p end = end
keep p (field k v rest) = let kept = keep p rest in if p k then field k v kept else kept

abbrev pub is_end : Fields → Bool
is_end end = true
is_end _ = false

pub lookup-assign :
    (f : Fields) (k j : Text) (v : Json)
    → lookup (assign f k v) j ≡ (if text_eq k j then some v else lookup f j)
unfolding lookup assign
lookup-assign end k j v = refl
lookup-assign (field i w rest) k j v =
    ground (arith, lookup-assign rest k j v, text_eq_iff k j, text_eq_iff i k, text_eq_iff i j)

pub lookup-keep :
    (p : Text → Bool) (f : Fields) (k : Text)
    → lookup (keep p f) k ≡ (if p k then lookup f k else none)
unfolding lookup keep
lookup-keep p end k = ground arith
lookup-keep p (field i v rest) k = elim (Bool-cases (text_eq i k)) [
  | inl e ↦ rw (text_eq_sound i k e) (ground (arith, lookup-keep p rest k, text_eq_refl k))
  | inr e ↦ ground (arith, lookup-keep p rest k)
]
