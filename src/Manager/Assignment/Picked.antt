-- ===== src/Manager/Assignment/Picked.antt =====
-- Which allocation `Assignment` is about (pkg/fleetmanager/manager.go).
use nakama_playflow.Base.{
  ◌≡◌, refl, subst, inl, inr, ◌⊎◌, true, false, ◌&&◌, List, [], ◌∷◌, Option, none, some, Text,
  text_eq, is_empty, lookup, All, Unique, Unique-lookup, if◌then◌else◌, if-cases, Bool-cases, ok,
  ok-injective,
}
use nakama_playflow.State.{State, Allocation, phase_eq, status_eq}
use nakama_playflow.Manager.Users.{contains}
use nakama_playflow.Manager.Assignment.{supersedes, latest, own, pick}

module _ (user : Text) (s : State) where
  -- The allocation is stored, and the user is in it.
  abbrev pub IsOwn : Option Allocation → Type 0
  IsOwn none = Unit {0}
  IsOwn (some a) =
      (k : Text) × (lookup k s.allocations ≡ some a) × (contains a.user_ids user ≡ true)

  latest-IsOwn :
      (es : List (Text × Allocation)) (found : Option Allocation)
      → All (λ (e : Text × Allocation). lookup e.0 s.allocations ≡ some e.1) es
      → IsOwn found
      → IsOwn (latest user es found)
  unfolding latest
  latest-IsOwn [] found v h = h
  latest-IsOwn ((aid, a) ∷ es) found v h =
      latest-IsOwn es _ v.1 (next (Bool-cases (contains a.user_ids user)))
    where
      next :
          (contains a.user_ids user ≡ true) ⊎ (contains a.user_ids user ≡ false)
          → IsOwn (if contains a.user_ids user && supersedes a found then some a else found)
      next (inl e) =
          if-cases IsOwn (contains a.user_ids user && supersedes a found) (λ _. (aid, v.0, e))
            (λ _. h)
      next (inr e) = rw e h

  -- And it is the one that was asked for.
  abbrev pub IsPicked : Text → Option Allocation → Type 0
  IsPicked allocation_id none = Unit {0}
  IsPicked allocation_id (some a) =
      (k : Text) × (lookup k s.allocations ≡ some a)
      × (contains a.user_ids user ≡ true)
      × (is_empty allocation_id ≡ false → k ≡ allocation_id)

  unasked :
      (allocation_id : Text) (found : Option Allocation)
      → is_empty allocation_id ≡ true
      → IsOwn found
      → IsPicked allocation_id found
  unasked allocation_id none e h = tt
  unasked allocation_id (some a) e (k, f, i) = (k, f, i, λ n. cc (e, n))

  own-IsPicked :
      (allocation_id : Text) (o found : Option Allocation)
      → lookup allocation_id s.allocations ≡ o
      → own user o ≡ ok found
      → IsPicked allocation_id found
  own-IsPicked allocation_id none found v h = subst (IsPicked allocation_id) (ok-injective h) tt
  own-IsPicked allocation_id (some a) found v h = elim (Bool-cases (contains a.user_ids user)) [
    | inl e ↦
        subst (IsPicked allocation_id) (ok-injective (rw e at h)) (allocation_id, v, e, λ _. refl)
    | inr e ↦ cc (rw e at h)
  ]

  pub pick-IsPicked :
      (allocation_id : Text) (found : Option Allocation)
      → Unique s.allocations
      → pick user allocation_id s ≡ ok found
      → IsPicked allocation_id found
  pick-IsPicked allocation_id found u h = elim (Bool-cases (is_empty allocation_id)) [
    | inl e ↦ unasked allocation_id found e (
        subst IsOwn (ok-injective (rw e at h))
          (latest-IsOwn s.allocations none (Unique-lookup s.allocations u) tt))
    | inr e ↦ own-IsPicked allocation_id (lookup allocation_id s.allocations) found refl (rw e at h)
  ]
