-- ===== src/Base/Loops.antt =====
-- Loops over the keys of a map or over a slice, with the state passed along.
use nakama_playflow.Base.Outcome.{Result, ok, err}
use mathlib.Core.List.{List, [], ◌∷◌}

module _ {ℓ κ} {A : Type ℓ} {S : Type κ} where
  unfoldable pub each : (A → S → S) → List A → S → S
  each body [] s = s
  each body (x ∷ xs) s = each body xs (body x s)

  -- A loop whose body may return an error, which ends it.
  unfoldable pub each_ok : (A → S → Result S) → List A → S → Result S
  each_ok body [] s = ok s
  each_ok body (x ∷ xs) s = elim (body x s) [ ok s' ↦ each_ok body xs s' | err e ↦ err e ]
