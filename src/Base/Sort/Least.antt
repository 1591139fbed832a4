-- ===== src/Base/Sort/Least.antt =====
-- The first element of what is sorted, for an order of which "not above" is transitive.
use nakama_playflow.Base.Lists.{All}
use nakama_playflow.Base.Tests.{Bool-cases}
use nakama_playflow.Base.Sort.{place, sort}
use mathlib.Core.Path.{◌≡◌, refl, sym, subst}
use mathlib.Core.Logic.{inl, inr}
use mathlib.Core.Bool.{Bool, true, false}
use mathlib.Core.List.{List, [], ◌∷◌}

module _ {A : Type 0} (less : A → A → Bool) (P : A → Type 0)
    (asym : (x y : A) → less x y ≡ true → less y x ≡ false) (irrefl : (x : A) → less x x ≡ false)
    (chain : (x y z : A) → less x y ≡ false → less y z ≡ false → less x z ≡ false) where
  -- The first element, if any, has the property and none is below it.
  abbrev pub StartsWithLeast : List A → List A → Type 0
  StartsWithLeast xs [] = xs ≡ []
  StartsWithLeast xs (h ∷ t) = P h × All (λ y. less y h ≡ false) xs

  All-chain :
      (h x : A) (xs : List A)
      → less h x ≡ false
      → All (λ y. less y h ≡ false) xs
      → All (λ y. less y x ≡ false) xs
  All-chain h x [] e a = tt
  All-chain h x (y ∷ xs) e a = (chain y h x a.0 e, All-chain h x xs e a.1)

  place-StartsWithLeast :
      (x : A) (xs ys : List A)
      → P x
      → StartsWithLeast xs ys
      → StartsWithLeast (x ∷ xs) (place less x ys)
  unfolding place
  place-StartsWithLeast x xs [] p e =
      (p, (irrefl x, subst (All (λ y. less y x ≡ false)) (sym e) tt))
  place-StartsWithLeast x xs (h ∷ t) p s = elim (Bool-cases (less h x)) [
    | inl e ↦ rw e (s.0, (asym h x e, s.1))
    | inr e ↦ rw e (p, (irrefl x, All-chain h x xs e s.1))
  ]

  pub sort-StartsWithLeast : (xs : List A) → All P xs → StartsWithLeast xs (sort less xs)
  unfolding sort
  sort-StartsWithLeast [] a = refl
  sort-StartsWithLeast (x ∷ xs) a =
      place-StartsWithLeast x xs (sort less xs) a.0 (sort-StartsWithLeast xs a.1)
