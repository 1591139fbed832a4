-- ===== src/Base/Assoc.antt =====
-- A Go map with string keys is an association list. A write through a pointer that a map holds is an
-- `insert` under its key. A loop `range m` visits the entries in the order of the list.
use nakama_playflow.Base.Tests.{if◌then◌else◌, Bool-cases, Option-cases, ◌==◌}
use nakama_playflow.Base.Strings.{Text, text_eq, text_eqb, text_eqb_iff, text_eqb_refl}
use nakama_playflow.Base.Lists.{All}
use Prim.Native.Nat.{ℕ, ◌+◌, ◌≤◌}
use mathlib.Core.Path.{◌≡◌, refl, subst}
use mathlib.Core.Logic.{inl, inr}
use mathlib.Core.Bool.{Bool, true, false}
use mathlib.Core.Option.{Option, none, some, some-injective}
use mathlib.Core.Option
use mathlib.Core.List.{List, [], ◌∷◌}
use native.Mathlib.Omega.{arith}

module _ {ℓ} {V : Type ℓ} where
  unfoldable pub lookup : Text → List (Text × V) → Option V
  lookup k [] = none
  lookup k ((j, v) ∷ m) = if j == k then some v else lookup k m

  -- `m[k] = v`: the entry keeps its place, and a new key goes to the end.
  unfoldable pub insert : Text → V → List (Text × V) → List (Text × V)
  insert k v [] = (k, v) ∷ []
  insert k v ((j, w) ∷ m) = if j == k then (j, v) ∷ m else (j, w) ∷ insert k v m

  -- `delete(m, k)`.
  unfoldable pub erase : Text → List (Text × V) → List (Text × V)
  erase k [] = []
  erase k ((j, v) ∷ m) = let rest = erase k m in if j == k then rest else (j, v) ∷ rest

  -- A loop that writes each value through its pointer.
  unfoldable pub map_values : (V → V) → List (Text × V) → List (Text × V)
  map_values f [] = []
  map_values f ((j, v) ∷ m) = (j, f v) ∷ map_values f m

  -- A loop that deletes the key of each entry whose value passes a test.
  unfoldable pub drop_if : (V → Bool) → List (Text × V) → List (Text × V)
  unfolding erase
  drop_if p [] = []
  drop_if p ((j, v) ∷ m) = let rest = drop_if p m in if p v then erase j rest else (j, v) ∷ rest

  unfoldable pub keys : List (Text × V) → List Text
  keys [] = []
  keys ((j, v) ∷ m) = j ∷ keys m

  -- How many values pass a test.
  unfoldable pub count_values : (V → Bool) → List (Text × V) → ℕ
  count_values p [] = 0
  count_values p ((j, v) ∷ m) = (if p v then 1 else 0) + count_values p m

  -- A flag that a loop sets at the values that pass a test.
  unfoldable pub exists_value : (V → Bool) → List (Text × V) → Bool
  exists_value p [] = false
  exists_value p ((j, v) ∷ m) = if p v then true else exists_value p m

  -- What a deletion by a test leaves of a value.
  abbrev pub drop_some : (V → Bool) → Option V → Option V
  drop_some p none = none
  drop_some p (some v) = if p v then none else some v

  -- How many entries a key has. A Go map has one at most.
  unfoldable pub copies : Text → List (Text × V) → ℕ
  copies k [] = 0
  copies k ((j, v) ∷ m) = (if j == k then 1 else 0) + copies k m

  abbrev pub Unique : List (Text × V) → Type 0
  Unique m = (k : Text) → copies k m ≤ 1

module _ {ℓ} {V : Type ℓ} where
  pub lookup-insert :
      (k j : Text) (v : V) (m : List (Text × V))
      → lookup j (insert k v m) ≡ (if text_eqb k j then some v else lookup j m)
  unfolding lookup insert
  lookup-insert k j v [] = refl
  lookup-insert k j v ((i, w) ∷ m) =
      ground (arith, text_eqb_iff k j, text_eqb_iff i k, text_eqb_iff i j, lookup-insert k j v m)

  pub lookup-map_values :
      (f : V → V) (k : Text) (m : List (Text × V))
      → lookup k (map_values f m) ≡ Option.map f (lookup k m)
  unfolding lookup map_values
  lookup-map_values f k [] = refl
  lookup-map_values f k ((j, v) ∷ m) = elim (Bool-cases (text_eqb j k)) [
    | inl e ↦ rw e
    | inr e ↦ rw e (lookup-map_values f k m)
  ]

  -- An entry that is replaced trades its own count for that of the new value.
  pub count_values-insert :
      (p : V → Bool) (k : Text) (v w : V) (m : List (Text × V))
      → lookup k m ≡ some v
      → count_values p (insert k w m) + (if p v then 1 else 0)
        ≡ count_values p m + (if p w then 1 else 0)
  unfolding lookup insert count_values
  count_values-insert p k v w [] h = cc
  count_values-insert p k v w ((j, u) ∷ m) h = ground (arith, count_values-insert p k v w m)

  -- A new entry adds its count.
  pub count_values-insert_new :
      (p : V → Bool) (k : Text) (w : V) (m : List (Text × V))
      → lookup k m ≡ none
      → count_values p (insert k w m) ≡ count_values p m + (if p w then 1 else 0)
  unfolding lookup insert count_values
  count_values-insert_new p k w [] h = omega arith
  count_values-insert_new p k w ((j, u) ∷ m) h = ground (arith, count_values-insert_new p k w m)

  pub lookup-erase :
      (k j : Text) (m : List (Text × V))
      → lookup k (erase j m) ≡ (if text_eqb j k then none else lookup k m)
  unfolding lookup erase
  lookup-erase k j [] = ground arith
  lookup-erase k j ((i, v) ∷ m) =
      ground (arith, lookup-erase k j m, text_eqb_iff i j, text_eqb_iff i k, text_eqb_iff j k)

  pub lookup-drop_if :
      (p : V → Bool) (k : Text) (m : List (Text × V))
      → lookup k (drop_if p m) ≡ drop_some p (lookup k m)
  unfolding lookup drop_if
  lookup-drop_if p k [] = refl
  lookup-drop_if p k ((j, v) ∷ m) =
      ground (arith, lookup-drop_if p k m, lookup-erase k j (drop_if p m))

  -- A key has an entry exactly if it has a value.
  pub lookup-copies : (k : Text) (m : List (Text × V)) → copies k m ≡ 0 → lookup k m ≡ none
  unfolding lookup copies
  lookup-copies k [] h = refl
  lookup-copies k ((j, v) ∷ m) h = ground (arith, lookup-copies k m)

  pub copies-lookup : (k : Text) (m : List (Text × V)) → lookup k m ≡ none → copies k m ≡ 0
  unfolding lookup copies
  copies-lookup k [] h = refl
  copies-lookup k ((j, v) ∷ m) h = ground (arith, copies-lookup k m)

  copies-insert :
      (k j : Text) (v w : V) (m : List (Text × V))
      → lookup j m ≡ some w
      → copies k (insert j v m) ≡ copies k m
  unfolding lookup insert copies
  copies-insert k j v w [] h = cc
  copies-insert k j v w ((i, u) ∷ m) h = ground (arith, copies-insert k j v w m)

  copies-insert_new :
      (k j : Text) (v : V) (m : List (Text × V))
      → lookup j m ≡ none
      → copies k (insert j v m) ≡ copies k m + (if text_eqb j k then 1 else 0)
  unfolding lookup insert copies
  copies-insert_new k j v [] h = ground arith
  copies-insert_new k j v ((i, u) ∷ m) h = ground (arith, copies-insert_new k j v m)

  copies-map_values :
      (f : V → V) (k : Text) (m : List (Text × V)) → copies k (map_values f m) ≡ copies k m
  unfolding copies map_values
  copies-map_values f k [] = refl
  copies-map_values f k ((j, v) ∷ m) = ground (arith, copies-map_values f k m)

  copies-erase-le : (k j : Text) (m : List (Text × V)) → copies k (erase j m) ≤ copies k m
  unfolding copies erase
  copies-erase-le k j [] = omega arith
  copies-erase-le k j ((i, v) ∷ m) = ground (arith, copies-erase-le k j m)

  copies-drop_if-le :
      (p : V → Bool) (k : Text) (m : List (Text × V)) → copies k (drop_if p m) ≤ copies k m
  unfolding copies drop_if
  copies-drop_if-le p k [] = omega arith
  copies-drop_if-le p k ((j, v) ∷ m) =
      ground (arith, copies-drop_if-le p k m, copies-erase-le k j (drop_if p m))

  pub Unique-rest : (k : Text) (v : V) (m : List (Text × V)) → Unique ((k, v) ∷ m) → Unique m
  unfolding copies
  Unique-rest k v m u j = ground (arith, u j)

  pub first_once : (k : Text) (v : V) (m : List (Text × V)) → Unique ((k, v) ∷ m) → copies k m ≡ 0
  unfolding copies
  first_once k v m u = ground (arith, u k, text_eqb_iff k k)

  -- Each entry is the one that its key finds.
  pub Unique-lookup :
      (m : List (Text × V)) → Unique m → All (λ (e : Text × V). lookup e.0 m ≡ some e.1) m
  unfolding lookup
  Unique-lookup [] u = tt
  Unique-lookup ((k, v) ∷ m) u =
      (rw (text_eqb_refl k) refl, later m (Unique-lookup m (Unique-rest k v m u)))
    where
      still : (j : Text) (w : V) → lookup j m ≡ some w → lookup j ((k, v) ∷ m) ≡ some w
      still j w e = elim (Bool-cases (text_eqb k j)) [
        | inl q ↦ ground (arith, q, e, text_eqb_iff k j, lookup-copies k m (first_once k v m u))
        | inr q ↦ rw q e
      ]

      later :
          (n : List (Text × V))
          → All (λ (e : Text × V). lookup e.0 m ≡ some e.1) n
          → All (λ (e : Text × V). lookup e.0 ((k, v) ∷ m) ≡ some e.1) n
      later [] a = tt
      later ((j, w) ∷ n) a = (still j w a.0, later n a.1)

  pub insert-Unique : (j : Text) (v : V) (m : List (Text × V)) → Unique m → Unique (insert j v m)
  insert-Unique j v m u k = elim (Option-cases (lookup j m)) [
    | inl e ↦ ground (arith, u k, copies-insert_new k j v m e, text_eqb_iff j k, copies-lookup j m)
    | inr (w, e) ↦ rw (copies-insert k j v w m e) (u k)
  ]

  pub map_values-Unique : (f : V → V) (m : List (Text × V)) → Unique m → Unique (map_values f m)
  map_values-Unique f m u k = rw (copies-map_values f k m) (u k)

  pub erase-Unique : (j : Text) (m : List (Text × V)) → Unique m → Unique (erase j m)
  erase-Unique j m u k = omega (arith, u k, copies-erase-le k j m)

  pub drop_if-Unique : (p : V → Bool) (m : List (Text × V)) → Unique m → Unique (drop_if p m)
  drop_if-Unique p m u k = omega (arith, u k, copies-drop_if-le p k m)

module _ {ℓ κ} {V : Type ℓ} (P : V → Type κ) where
  -- What holds of each value that a map has.
  abbrev pub Values : List (Text × V) → Type κ
  Values [] = Unit
  Values ((j, v) ∷ m) = P v × Values m

  pub lookup-Values :
      (k : Text) (m : List (Text × V)) (v : V) → Values m → lookup k m ≡ some v → P v
  unfolding lookup
  lookup-Values k [] v h e = absurd (ground arith)
  lookup-Values k ((j, w) ∷ m) v h e = elim (Bool-cases (text_eqb j k)) [
    | inl t ↦ subst P (some-injective w v (rw t at e)) h.0
    | inr t ↦ lookup-Values k m v h.1 (rw t at e)
  ]
