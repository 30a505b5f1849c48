-- ===== src/Realtime/Serializer/Messages.antt =====
-- Reading a client message (src/realtime/serializer.py): Python's truth of a value, `or`, and the text
-- of an item.
use nemotron_voice_agent.Base.{
  Bool, true, false, not, ◌||◌, Option, none, some, [], ◌∷◌, ◌++◌, Text, codes, text_in, text_eq,
  is_empty, ◌==◌, if◌then◌else◌,
}
use nemotron_voice_agent.Json.{
  Json, null, boolean, float, int, negative, str, arr, obj, Items, nil, cons, Fields, lookup,
  or_null, is_end,
}

-- `bool(value)`
unfoldable pub truthy : Json → Bool
truthy null = false
truthy (boolean b) = b
truthy (int n) = not (n == 0)
truthy (negative n) = true
truthy (float n) = not (n == 0 || n == 9223372036854775808)
truthy (str t) = not (is_empty t)
truthy (arr nil) = false
truthy (arr _) = true
truthy (obj f) = not (is_end f)

-- `(value or default) == t`
abbrev pub equals_text : Json → Text → Bool
equals_text (str s) t = text_eq s t
equals_text _ t = false

unfoldable pub or_default : Json → Text → Json
unfolding truthy
or_default v d = if truthy v then v else str d

unfoldable pub is_text_part : Json → Bool
unfolding text_in
is_text_part (str t) = text_in t (codes "input_text" ∷ codes "text" ∷ [])
is_text_part _ = false

abbrev pub as_text : Json → Option Text
as_text (str t) = some t
as_text _ = none

unfoldable pub part_text : Json → Option Text
unfolding is_text_part
part_text (obj f) =
    if is_text_part (or_null (lookup f (codes "type")))
    then as_text (or_null (lookup f (codes "text")))
    else none
part_text _ = none

-- The joined texts of the parts that have one, `none` if there is none.
unfoldable pub join : Option Text → Option Text → Option Text
join none rest = rest
join (some t) none = some t
join (some t) (some u) = some (t ++ u)

unfoldable pub join_parts : Items → Option Text
unfolding join part_text
join_parts nil = none
join_parts (cons part rest) = join (part_text part) (join_parts rest)

unfoldable pub item_text : Json → Option Text
unfolding join_parts
item_text (str t) = some t
item_text (arr parts) = join_parts parts
item_text _ = none

unfoldable pub extract_item_text : Fields → Option Text
unfolding item_text
extract_item_text item = item_text (or_null (lookup item (codes "content")))
