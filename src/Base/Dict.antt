-- ===== src/Base/Dict.antt =====
-- Python's `dict` with text keys, in insertion order: `get`, `d[k] = v`, `pop` and their laws.
use mathlib.Core.Path.{◌≡◌, refl}
use mathlib.Core.Option.{Option, none, some}
use mathlib.Core.List.{List, [], ◌∷◌}
use native.Mathlib.Omega.{arith}
use package.nemotron_voice_agent.Base.Tests.{if◌then◌else◌}
use package.nemotron_voice_agent.Base.Strings.{Text, text_eq, text_eq_iff}

abbrev pub Dict {ℓ} : Type ℓ → Type ℓ
Dict V = List (Text × V)

module _ {ℓ} {V : Type ℓ} where
  -- d.get(k)
  unfoldable pub get : Dict V → Text → Option V
  get [] k = none
  get ((j, v) ∷ d) k = let rest = get d k in if text_eq j k then some v else rest

  -- d[k] = v: a present key keeps its place
  unfoldable pub put : Dict V → Text → V → Dict V
  put [] k v = (k, v) ∷ []
  put ((j, w) ∷ d) k v = let rest = put d k v in if text_eq j k then (j, v) ∷ d else (j, w) ∷ rest

  -- d.pop(k, None)
  unfoldable pub pop : Dict V → Text → Dict V
  pop [] k = []
  pop ((j, v) ∷ d) k = let rest = pop d k in if text_eq j k then rest else (j, v) ∷ rest

  pub get-put :
      (d : Dict V) (k j : Text) (v : V)
      → get (put d k v) j ≡ (if text_eq k j then some v else get d j)
  unfolding get put
  get-put [] k j v = refl
  get-put ((i, w) ∷ d) k j v =
      ground (arith, get-put d k j v, text_eq_iff k j, text_eq_iff i k, text_eq_iff i j)

  pub get-pop :
      (d : Dict V) (k j : Text) → get (pop d k) j ≡ (if text_eq k j then none else get d j)
  unfolding get pop
  get-pop [] k j = ground arith
  get-pop ((i, w) ∷ d) k j =
      ground (arith, get-pop d k j, text_eq_iff k j, text_eq_iff i k, text_eq_iff i j)
