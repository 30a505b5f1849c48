-- ===== src/Realtime/Serializer/Accounting.antt =====
-- Bytes of input audio (src/realtime/serializer.py): what a client may send, what the pipeline gets, and
-- what a commit sees.
use nemotron_voice_agent.Base.{
  ℕ, ◌+◌, ◌≤◌, ◌<◌, ◌≡◌, ◌⊎◌, Option, none, some, List, [], ◌∷◌, Text, codes, arith, length, All,
}
use nemotron_voice_agent.Json.{
  Json, null, boolean, float, int, negative, str, arr, obj, Fields, or_null, lookup,
}
use nemotron_voice_agent.Realtime.Events.{input_audio_buffer_commit_empty, invalid_audio}
use nemotron_voice_agent.Realtime.World.{Schedule}
use nemotron_voice_agent.Realtime.Audio.{max_pending_input_bytes}
use nemotron_voice_agent.Realtime.Serializer.State.{
  Bytes, Libraries, PipelineFrame, Reply, Serializer, emit_event, input_audio, reject,
}
use nemotron_voice_agent.Realtime.Serializer.Buffer.{
  on_append, on_commit, append_audio, append_decoded, accept_audio, to_pipeline, decode_audio,
}

-- The bytes of audio in a frame for the pipeline.
abbrev pub forwarded : Option PipelineFrame → ℕ
forwarded (some (input_audio pcm rate)) = length pcm
forwarded _ = 0

module _ ⦃l : Libraries⦄ where
  pub record Counts (z : Serializer) (r : Reply) : Type 0 where
    pub within : forwarded r.1 ≤ max_pending_input_bytes
    pub counted : r.0.bytes_since_commit ≡ z.bytes_since_commit + forwarded r.1

  module _ (s : Schedule) (event_id : Option Text) where
    accept-Counts : (z : Serializer) (pcm : Bytes) → Counts z (accept_audio s event_id (z, pcm))
    unfolding accept_audio reject emit_event
    accept-Counts z pcm = ground arith

    to_pipeline-same :
        (pcm : Bytes) (z : Serializer)
        → (to_pipeline pcm z).0.bytes_since_commit ≡ z.bytes_since_commit
    unfolding to_pipeline
    to_pipeline-same pcm z = ground arith

    decoded-Counts :
        (raw : Option Bytes) (z : Serializer) → Counts z (append_decoded s event_id raw z)
    unfolding append_decoded reject emit_event
    decoded-Counts none z = ground arith
    decoded-Counts (some raw) z =
        let h = accept-Counts (to_pipeline raw z).0 (to_pipeline raw z).1 in
        let e = to_pipeline-same raw z in ground arith

    reject-Counts : (z : Serializer) → Counts z (reject s invalid_audio event_id z)
    unfolding reject emit_event
    reject-Counts z = ground arith

    audio-Counts : (j : Json) (z : Serializer) → Counts z (append_audio s j event_id z)
    unfolding append_audio reject emit_event
    audio-Counts (str t) z = let h = decoded-Counts (decode_audio t) z in ground arith
    audio-Counts null z = reject-Counts z
    audio-Counts (boolean b) z = reject-Counts z
    audio-Counts (float n) z = reject-Counts z
    audio-Counts (int n) z = reject-Counts z
    audio-Counts (negative n) z = reject-Counts z
    audio-Counts (arr i) z = reject-Counts z
    audio-Counts (obj m) z = reject-Counts z

    append-Counts : (m : Fields) (z : Serializer) → Counts z (on_append s m event_id z)
    unfolding on_append reject emit_event
    append-Counts m z = let h = audio-Counts (or_null (lookup m (codes "audio"))) z in ground arith

  -- Append messages one after the other, and the bytes that reach the pipeline, frame by frame.
  unfoldable pub append_messages :
      Schedule → List (Fields × Option Text) → Serializer → Serializer × List ℕ
  append_messages s [] z = (z, [])
  append_messages s ((m, e) ∷ ms) z =
      let r = on_append s m e z in
      let rest = append_messages s ms r.0 in (rest.0, forwarded r.1 ∷ rest.1)

  abbrev pub total : List ℕ → ℕ
  total [] = 0
  total (n ∷ ns) = n + total ns

  append_messages-count :
      (s : Schedule) (ms : List (Fields × Option Text)) (z : Serializer)
      → (append_messages s ms z).0.bytes_since_commit
        ≡ z.bytes_since_commit + total (append_messages s ms z).1
  unfolding append_messages
  append_messages-count s [] z = omega arith
  append_messages-count s ((m, e) ∷ ms) z =
      omega
        (arith, append_messages-count s ms (on_append s m e z).0, (append-Counts s e m z).counted)

  append_messages-within :
      (s : Schedule) (ms : List (Fields × Option Text)) (z : Serializer)
      → All (λ n. n ≤ max_pending_input_bytes) (append_messages s ms z).1
  unfolding append_messages
  append_messages-within s [] z = record {}
  append_messages-within s ((m, e) ∷ ms) z =
      ((append-Counts s e m z).within, append_messages-within s ms (on_append s m e z).0)

  -- From a commit on, whatever the client appends, accepted or not, and whatever the other tasks do: no
  -- message puts more than `max_pending_input_bytes` into the pipeline, and the next commit is answered
  -- with an error if and only if no byte reached the pipeline.
  pub commit-append_messages :
      (s : Schedule) (ms : List (Fields × Option Text)) (e : Option Text) (z : Serializer)
      → z.bytes_since_commit ≡ 0
      → let (after, frames) = append_messages s ms z in
        All (λ n. n ≤ max_pending_input_bytes) frames
        × (((total frames ≡ 0)
              × (on_commit s e after ≡ reject s input_audio_buffer_commit_empty e after))
            ⊎ ((0 < total frames)
                × (on_commit s e after ≡ (record after { bytes_since_commit = 0 }, none))))
  unfolding on_commit
  commit-append_messages s ms e z h =
      let n = append_messages-count s ms z in (append_messages-within s ms z, ground arith)
