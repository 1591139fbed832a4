-- ===== src/Base/Sort.antt =====
-- `sort.Slice` and `sort.Strings`: insertion sort by a strict order.
pub mod Least
use nakama_playflow.Base.Tests.{if◌then◌else◌}
use mathlib.Core.Bool.{Bool}
use mathlib.Core.List.{List, [], ◌∷◌}

module _ {ℓ} {A : Type ℓ} (less : A → A → Bool) where
  unfoldable pub place : A → List A → List A
  place x [] = x ∷ []
  place x (y ∷ ys) = if less y x then y ∷ place x ys else x ∷ y ∷ ys

  unfoldable pub sort : List A → List A
  unfolding place
  sort [] = []
  sort (x ∷ xs) = place x (sort xs)
