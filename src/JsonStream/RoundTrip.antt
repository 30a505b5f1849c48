-- ===== src/JsonStream/RoundTrip.antt =====
-- What a JSON encoder writes for a string field is decoded to the string, however the stream is cut
-- (src/examples/shared/json_stream.py).
use mathlib.Core.Bool.{false≢true}
use mathlib.Core.List.{flatten}
use nemotron_voice_agent.Base.{
  ℕ, zero, suc, ◌+◌, ◌/◌, ◌%◌, ◌<◌, ◌≡◌, refl, ap, ◌∙◌, Bool, true, false, some, List, [], ◌∷◌,
  ◌++◌, append_assoc, Text, codes, starts_with, starts_with_self, lstrip, is_space, length, drop,
  is_empty, ltb, ◌==◌, ==_iff, ltb→lt, All, arith, Bool-cases, inl, inr, if◌then◌else◌,
}
use nemotron_voice_agent.JsonStream.{
  Streamer, streamer, search, in_string, out, after_needle, at_search, at_colon, at_quote, round_at,
  advance, feed, feed_all, consume, take_char, take_at, take_plain, take_unicode, unicode_out,
  json_escape, emitted, after_output,
}
use nemotron_voice_agent.JsonStream.Search.{joined, lstrip-append}
use nemotron_voice_agent.JsonStream.Extend.{advance-out}
use nemotron_voice_agent.JsonStream.Chunks.{feed_all-feed}

abbrev pub hex : ℕ → ℕ
hex d = if ltb d 10 then 48 + d else 87 + d

-- A character as `json.dumps(…, ensure_ascii=False)` writes it.
abbrev pub escape : ℕ → Text
escape c =
    if c == b'"'
    then codes "\\\""
    else if c == b'\\'
    then codes "\\\\"
    else if c == 8
    then codes "\\b"
    else if c == 9
    then codes "\\t"
    else if c == 10
    then codes "\\n"
    else if c == 12
    then codes "\\f"
    else if c == 13
    then codes "\\r"
    else if ltb c 32
    then b'\\' ∷ b'u' ∷ b'0' ∷ b'0' ∷ hex (c / 16) ∷ hex (c % 16) ∷ []
    else c ∷ []

abbrev encode : Text → Text
encode [] = []
encode (c ∷ t) = escape c ++ encode t

-- Inside of the string, between two characters.
abbrev ready : Text → Text → Streamer
ready needle buffer = record {
  needle = needle;
  phase = in_string;
  buffer = buffer;
  escaped = false;
  unicode_remaining = 0;
  unicode_buffer = [];
  done = false;
}

-- Whether a test succeeds on every control character before `n`.
passes : (ℕ → Bool) → ℕ → Bool
passes test zero = true
passes test (suc n) = let earlier = passes test n in if test n then earlier else false

passes_at : (test : ℕ → Bool) (n c : ℕ) → c < n → passes test n ≡ true → test c ≡ true
unfolding passes
passes_at test zero c lt h = absurd (omega arith)
passes_at test (suc n) c lt h = elim (Bool-cases (test n)) [
  | inr e ↦ absurd (false≢true (rw e at h))
  | inl e ↦ elim (Bool-cases (c == n)) [
    | inl same ↦ rw ((==_iff c n).0 same) e
    | inr other ↦ passes_at test n c (ground arith) (rw e at h)
  ]
]

one_code : Text → ℕ → Bool
one_code (d ∷ []) c = d == c
one_code _ c = false

one_code_sound : (t : Text) (c : ℕ) → one_code t c ≡ true → t ≡ c ∷ []
unfolding one_code
one_code_sound [] c h = cc
one_code_sound (d ∷ []) c h = ap (λ x. x ∷ []) ((==_iff d c).0 h)
one_code_sound (d ∷ e ∷ t) c h = cc

control_table :
    passes (λ c. one_code (unicode_out (48 ∷ 48 ∷ hex (c / 16) ∷ hex (c % 16) ∷ [])) c) 32 ≡ true
unfolding passes one_code unicode_out
control_table = refl

module _ (needle buffer : Text) where
  consume-control :
      (c : ℕ) (rest : Text)
      → c < 32
      → consume
          (ready needle buffer)
          (b'\\' ∷ b'u' ∷ b'0' ∷ b'0' ∷ hex (c / 16) ∷ hex (c % 16) ∷ rest)
        ≡ after_output (c ∷ []) (consume (ready needle buffer) rest)
  unfolding consume take_char take_at take_plain take_unicode
  consume-control c rest h =
      let e : unicode_out (48 ∷ 48 ∷ hex (c / 16) ∷ hex (c % 16) ∷ []) ≡ c ∷ [] =
        one_code_sound _ c (passes_at _ 32 c h control_table) in
      rw e refl

  consume-plain :
      (c : ℕ) (rest : Text)
      → (c == b'"') ≡ false
      → (c == b'\\') ≡ false
      → consume (ready needle buffer) (c ∷ rest)
        ≡ after_output (c ∷ []) (consume (ready needle buffer) rest)
  unfolding consume take_char take_at take_plain
  consume-plain c rest q b = ground arith

  consume-escape :
      (c : ℕ) (rest : Text)
      → consume (ready needle buffer) (escape c ++ rest)
        ≡ after_output (c ∷ []) (consume (ready needle buffer) rest)
  unfolding consume take_char take_at take_plain json_escape
  consume-escape c rest = elim (Bool-cases (c == b'"')) [
    | inl e ↦ rw ((==_iff c b'"').0 e) refl
    | inr q ↦ elim (Bool-cases (c == b'\\')) [
      | inl e ↦ rw ((==_iff c b'\\').0 e) refl
      | inr b ↦ rw q (
          rw b (elim (Bool-cases (c == 8)) [
            | inl e ↦ rw ((==_iff c 8).0 e) refl
            | inr e ↦ rw e (elim (Bool-cases (c == 9)) [
              | inl e ↦ rw ((==_iff c 9).0 e) refl
              | inr e ↦ rw e (elim (Bool-cases (c == 10)) [
                | inl e ↦ rw ((==_iff c 10).0 e) refl
                | inr e ↦ rw e (elim (Bool-cases (c == 12)) [
                  | inl e ↦ rw ((==_iff c 12).0 e) refl
                  | inr e ↦ rw e (elim (Bool-cases (c == 13)) [
                    | inl e ↦ rw ((==_iff c 13).0 e) refl
                    | inr e ↦ rw e (elim (Bool-cases (ltb c 32)) [
                      | inl e ↦ rw e (consume-control c rest (ltb→lt c 32 e))
                      | inr e ↦ rw e (consume-plain c rest q b)
                    ])
                  ])
                ])
              ])
            ])
          ]))
    ]
  ]

  consume-encode :
      (t rest : Text)
      → consume (ready needle buffer) (encode t ++ b'"' ∷ rest)
        ≡ (t, record (ready needle buffer) { done = true })
  unfolding consume take_char take_at take_plain
  consume-encode [] rest = refl
  consume-encode (c ∷ t) rest =
      ap (consume (ready needle buffer)) (append_assoc (escape c) (encode t) (b'"' ∷ rest))
      ∙ consume-escape c (encode t ++ b'"' ∷ rest)
      ∙ ap (after_output (c ∷ [])) (consume-encode t rest)

drop_self : (n r : Text) → drop (length n) (n ++ r) ≡ r
drop_self [] r = refl
drop_self (c ∷ n) r = drop_self n r

abbrev NoQuote : Text → Type 0
NoQuote = All (λ c. (c == b'"') ≡ false)

-- A field name in quotes is found after a text without quotes.
after_needle-prefix :
    (n before r : Text)
    → NoQuote before
    → after_needle (b'"' ∷ n) (before ++ ((b'"' ∷ n) ++ r)) ≡ some r
unfolding after_needle starts_with
after_needle-prefix n [] r h = rw (starts_with_self n r) (ap some (drop_self n r))
after_needle-prefix n (c ∷ before) r h = rw h.0 (after_needle-prefix n before r h.1)

lstrip_over : (w b : Text) → lstrip w ≡ [] → lstrip (w ++ b) ≡ lstrip b
lstrip_over w b h = lstrip-append w b ∙ ap (λ t. joined t b) h

-- The text of an object up to a field and the rest of it, with white space `w` and `v` round the colon.
abbrev document : Text → Text → Text → Text → Text → Text → Text
document field_name before w v t rest =
    before
    ++ ((streamer field_name).needle ++ (w ++ b':' ∷ (v ++ b'"' ∷ (encode t ++ b'"' ∷ rest))))

not_empty : (before n : Text) → is_empty (before ++ b'"' ∷ n) ≡ false
not_empty [] n = refl
not_empty (c ∷ before) n = refl

module _ (field_name before w v t rest : Text) (h : NoQuote before) (e : lstrip w ≡ [])
    (e' : lstrip v ≡ []) where
  abbrev opened : Streamer
  opened = record (streamer field_name) { buffer = document field_name before w v t rest }

  first_round :
      round_at search opened
      ≡ out (encode t ++ b'"' ∷ rest) (record opened { phase = in_string; buffer = [] })
  unfolding round_at lstrip is_space
  first_round =
      let string = encode t ++ b'"' ∷ rest in
      ap (at_search opened)
        (after_needle-prefix (field_name ++ b'"' ∷ []) before (w ++ b':' ∷ (v ++ b'"' ∷ string)) h)
      ∙ ap (at_colon opened) (lstrip_over w (b':' ∷ (v ++ b'"' ∷ string)) e)
      ∙ ap (at_quote opened) (lstrip_over v (b'"' ∷ string) e')

  feed-document :
      feed (streamer field_name) (document field_name before w v t rest)
      ≡ some (t, record (streamer field_name) { phase = in_string; done = true })
  unfolding feed
  feed-document =
      let n = length (document field_name before w v t rest) in
      let z : n + 2 ≡ suc (n + 1) = omega arith in
      rw
        (not_empty before
          (field_name ++ b'"' ∷ [] ++ (w ++ b':' ∷ (v ++ b'"' ∷ (encode t ++ b'"' ∷ rest)))))
        (ap (λ f. emitted (advance f opened)) z
          ∙ ap emitted (advance-out (n + 1) opened _ _ first_round)
          ∙ ap some (consume-encode (streamer field_name).needle [] t rest))

-- The text of a string field that `json.dumps` with `ensure_ascii=False` writes is decoded to the string
-- and its end is seen, however the object is cut into chunks, if no quote stands before the field.
pub feed_all-encode :
    (field_name before w v t rest : Text) (chunks : List Text)
    → NoQuote before
    → lstrip w ≡ []
    → lstrip v ≡ []
    → flatten chunks ≡ document field_name before w v t rest
    → feed_all (streamer field_name) chunks
      ≡ some (t, record (streamer field_name) { phase = in_string; done = true })
feed_all-encode field_name before w v t rest chunks h e e' cut =
    feed_all-feed (streamer field_name) chunks (omega arith)
    ∙ ap (feed (streamer field_name)) cut
    ∙ feed-document field_name before w v t rest h e e'
