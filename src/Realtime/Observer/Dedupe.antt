-- ===== src/Realtime/Observer/Dedupe.antt =====
-- `_remember_frame` and `_remember_metric_frame` of src/realtime/observer.py: a set of frame ids next
-- to a queue of the last `max_frames` of them. The set is a list without order.
use mathlib.Core.Bool.{false≢true}
use nemotron_voice_agent.Base.{
  ℕ, zero, suc, ◌+◌, ◌-◌, ◌≤◌, ◌<◌, ◌≡◌, refl, sym, ap, ◌∙◌, Bool, true, false, ◌||◌, List, [], ◌∷◌,
  ◌++◌, length, drop, length-append, length-drop, ltb, ltb→lt, Bool-cases, inl, inr, append_assoc,
  arith, ◌==◌, if◌then◌else◌,
}

pub record Seen : Type 0 where
  pub processed : List ℕ
  pub history : List ℕ

abbrev pub nothing_seen : Seen
nothing_seen = record { processed = []; history = [] }

unfoldable pub mem : ℕ → List ℕ → Bool
mem n [] = false
mem n (x ∷ xs) = n == x || mem n xs

-- `deque(maxlen=max_frames).append`: the oldest entries, at the front, give way.
unfoldable push : ℕ → ℕ → List ℕ → List ℕ
push max_frames n history =
    let longer = history ++ n ∷ [] in drop (length longer - max_frames) longer

-- The result is whether the frame is new.
unfoldable pub remember : ℕ → ℕ → Seen → Seen × Bool
unfolding push
remember max_frames n seen =
    let processed = n ∷ seen.processed in
    let history = push max_frames n seen.history in
    if mem n seen.processed then (seen, false) else (
      record {
        processed = if ltb (length history) (length processed) then history else processed;
        history = history;
      },
      true,
    )

-- The set is the queue, and the queue is bounded.
pub record IsBounded (max_frames : ℕ) (seen : Seen) : Type 0 where
  pub same_length : length seen.processed ≡ length seen.history
  pub bounded : length seen.history ≤ max_frames
  pub same_members : (n : ℕ) → mem n seen.processed ≡ mem n seen.history

mem-append : (n m : ℕ) (xs : List ℕ) → mem n (xs ++ m ∷ []) ≡ mem n (m ∷ xs)
unfolding mem
mem-append n m [] = refl
mem-append n m (x ∷ xs) = ground (arith, mem-append n m xs)

length-push :
    (max_frames n : ℕ) (history : List ℕ)
    → length (push max_frames n history) ≡ length history + 1 - (length history + 1 - max_frames)
unfolding push
length-push max_frames n history = omega (
  arith,
  length-drop (length (history ++ n ∷ []) - max_frames) (history ++ n ∷ []),
  length-append history (n ∷ []),
)

push-short :
    (max_frames n : ℕ) (history : List ℕ)
    → length history < max_frames
    → push max_frames n history ≡ history ++ n ∷ []
unfolding push
push-short max_frames n history h =
    let none_over : length (history ++ n ∷ []) - max_frames ≡ 0 =
      omega (arith, length-append history (n ∷ [])) in
    ap (λ k. drop k (history ++ n ∷ [])) none_over

-- Where the set is the queue and the queue is within its bound, remembering a frame keeps the set equal to the queue, and the queue within its bound.
remember-IsBounded :
    (max_frames n : ℕ) (seen : Seen)
    → IsBounded max_frames seen
    → IsBounded max_frames (remember max_frames n seen).0
unfolding remember
remember-IsBounded max_frames n seen h = elim (Bool-cases (mem n seen.processed)) [
  | inl old ↦ rw old h
  | inr new ↦ elim (Bool-cases (ltb (length seen.history) max_frames)) [
    | inl room ↦
        let longer = push-short max_frames n seen.history (ltb→lt _ _ room) in
        let fits = length-append seen.history (n ∷ []) in
        rw (new, longer)
          (let kept : ltb (length (seen.history ++ n ∷ [])) (suc (length seen.processed)) ≡ false =
              ground (arith, h.same_length) in
            rw kept (record {
              same_length = omega (arith, h.same_length);
              bounded = ground arith;
              same_members = λ k. unfold mem in rw mem-append (ground (arith, h.same_members k));
            }))
    | inr full ↦
        let cut = length-push max_frames n seen.history in
        rw new (
          let over : ltb (length (push max_frames n seen.history)) (suc (length seen.processed))
              ≡ true =
            ground (arith, h.same_length, h.bounded) in
          rw over (record {
            same_length = refl;
            bounded = omega (arith, h.bounded);
            same_members = λ k. refl;
          }))
  ]
]

drop-append {ℓ} :
    {A : Type ℓ} (d : ℕ) (xs ys : List A) → d ≤ length xs → drop d (xs ++ ys) ≡ drop d xs ++ ys
drop-append zero xs ys h = refl
drop-append (suc d) [] ys h = absurd (omega arith)
drop-append (suc d) (x ∷ xs) ys h = drop-append d xs ys (omega arith)

mem-middle : (n : ℕ) (xs ys : List ℕ) → mem n (xs ++ n ∷ ys) ≡ true
unfolding mem
mem-middle n [] ys = ground arith
mem-middle n (x ∷ xs) ys = ground (arith, mem-middle n xs ys)

-- The frame `n` is in the queue, with at most `k` younger frames.
record Holds (n k : ℕ) (seen : Seen) : Type 0 where
  older : List ℕ
  younger : List ℕ
  split : seen.history ≡ older ++ n ∷ younger
  few : length younger ≤ k

push-Holds :
    (max_frames n k m : ℕ) (seen : Seen)
    → k + 1 < max_frames
    → Holds n k seen
    → Holds n (k + 1) (remember max_frames m seen).0
unfolding remember push
push-Holds max_frames n k m seen room h = elim (Bool-cases (mem m seen.processed)) [
  | inl old ↦
      rw old (record {
        older = h.older;
        younger = h.younger;
        split = h.split;
        few = omega (arith, h.few);
      })
  | inr new ↦
      let longer : seen.history ++ m ∷ [] ≡ h.older ++ (n ∷ h.younger ++ (m ∷ [])) =
        rw h.split (append_assoc h.older (n ∷ h.younger) (m ∷ [])) in
      let d = length (seen.history ++ m ∷ []) - max_frames in
      let small : d ≤ length h.older = omega (
        arith,
        h.few,
        ap length longer,
        length-append h.older (n ∷ h.younger ++ (m ∷ [])),
        length-append h.younger (m ∷ []),
      ) in
      rw new (record {
        older = drop d h.older;
        younger = h.younger ++ m ∷ [];
        split = ap (drop d) longer ∙ drop-append d h.older (n ∷ h.younger ++ (m ∷ [])) small;
        few = omega (arith, h.few, length-append h.younger (m ∷ []));
      })
]

unfoldable pub remember_all : ℕ → List ℕ → Seen → Seen
remember_all max_frames [] seen = seen
remember_all max_frames (m ∷ ms) seen = remember_all max_frames ms (remember max_frames m seen).0

remember_all-Holds :
    (max_frames n k : ℕ) (ms : List ℕ) (seen : Seen)
    → k + length ms < max_frames
    → Holds n k seen
    → Holds n (k + length ms) (remember_all max_frames ms seen)
unfolding remember_all
remember_all-Holds max_frames n k [] seen room h = record {
  older = h.older;
  younger = h.younger;
  split = h.split;
  few = omega (arith, h.few);
}
remember_all-Holds max_frames n k (m ∷ ms) seen room h =
    let rest =
      remember_all-Holds max_frames n (k + 1) ms (remember max_frames m seen).0 (omega arith)
        (push-Holds max_frames n k m seen (omega arith) h) in
    record {
      older = rest.older;
      younger = rest.younger;
      split = rest.split;
      few = omega (arith, rest.few);
    }

remember_all-IsBounded :
    (max_frames : ℕ) (ms : List ℕ) (seen : Seen)
    → IsBounded max_frames seen
    → IsBounded max_frames (remember_all max_frames ms seen)
unfolding remember_all
remember_all-IsBounded max_frames [] seen h = h
remember_all-IsBounded max_frames (m ∷ ms) seen h =
    remember_all-IsBounded max_frames ms (remember max_frames m seen).0
      (remember-IsBounded max_frames m seen h)

new-Holds :
    (max_frames n : ℕ) (seen : Seen)
    → 0 < max_frames
    → IsBounded max_frames seen
    → mem n seen.processed ≡ false
    → Holds n 0 (remember max_frames n seen).0
unfolding remember push
new-Holds max_frames n seen room h new =
    let d = length (seen.history ++ n ∷ []) - max_frames in
    let small : d ≤ length seen.history = omega (arith, length-append seen.history (n ∷ [])) in
    rw new (record {
      older = drop d seen.history;
      younger = [];
      split = drop-append d seen.history (n ∷ []) small;
      few = omega arith;
    })

remember-fresh :
    (max_frames n : ℕ) (seen : Seen)
    → mem n seen.processed ≡ false
    → (remember max_frames n seen).1 ≡ true
unfolding remember
remember-fresh max_frames n seen new = rw new

remember-old :
    (max_frames n : ℕ) (seen : Seen)
    → mem n seen.processed ≡ true
    → (remember max_frames n seen).1 ≡ false
unfolding remember
remember-old max_frames n seen old = rw old

pub remember_known :
    (max_frames n : ℕ) (seen : Seen)
    → (remember max_frames n seen).1 ≡ false
    → (remember max_frames n seen).0 ≡ seen
unfolding remember
remember_known max_frames n seen e = elim (Bool-cases (mem n seen.processed)) [
  | inl old ↦ rw old refl
  | inr new ↦ absurd (false≢true (sym e ∙ remember-fresh max_frames n seen new))
]

-- Where the set is the queue: a frame that is not in it is new, and is not new again after fewer than
-- `max_frames` others.
pub remember_twice :
    (max_frames n : ℕ) (ms : List ℕ) (seen : Seen)
    → IsBounded max_frames seen
    → mem n seen.processed ≡ false
    → length ms < max_frames
    → ((remember max_frames n seen).1 ≡ true)
      × ((remember max_frames n (remember_all max_frames ms (remember max_frames n seen).0)).1
          ≡ false)
remember_twice max_frames n ms seen h new few =
    let held =
      remember_all-Holds max_frames n 0 ms (remember max_frames n seen).0 (omega arith)
        (new-Holds max_frames n seen (omega arith) h new) in
    let bounded =
      remember_all-IsBounded max_frames ms (remember max_frames n seen).0
        (remember-IsBounded max_frames n seen h) in
    let there =
      bounded.same_members n ∙ ap (mem n) held.split ∙ mem-middle n held.older held.younger in
    (remember-fresh max_frames n seen new, remember-old max_frames n _ there)
