-- ===== src/Evolution/Loops.antt =====
-- Loops over steps that keep allocations to their diagram.
use nakama_playflow.Base.{
  ◌≡◌, refl, List, [], ◌∷◌, some, Text, lookup, Option-cases, inl, inr, subst, ok-injective, Result,
  ok, err, ◌>>=◌, each, each_ok,
}
use nakama_playflow.State.{State, Worker, Allocation}
use nakama_playflow.Lifecycle.{on_worker, on_allocation}
use nakama_playflow.Evolution.Phases.{Steady-refl, Steady-trans}
use nakama_playflow.Evolution.Steps.{Moves}

pub each-Moves {ℓ} :
    {A : Type ℓ} (body : A → State → State)
    → ((x : A) (s : State) → Moves s (body x s))
    → (xs : List A) (s : State) → Moves s (each body xs s)
unfolding each
each-Moves body h [] s = Steady-refl s.allocations
each-Moves body h (x ∷ xs) s = Steady-trans (h x s) (each-Moves body h xs (body x s))

-- What a result says of the state that it holds.
abbrev pub MovesTo : State → Result State → Type 0
MovesTo s (ok t) = Moves s t
MovesTo s (err e) = Unit {0}

-- A result that was reached through a step.
pub MovesTo-trans : (s t : State) (r : Result State) → Moves s t → MovesTo t r → MovesTo s r
MovesTo-trans s t (ok u) f g = Steady-trans f g
MovesTo-trans s t (err e) f g = tt

pub MovesTo-intro :
    (s : State) (r : Result State) → ((t : State) → r ≡ ok t → Moves s t) → MovesTo s r
MovesTo-intro s (ok t) h = h t refl
MovesTo-intro s (err e) h = tt

pub MovesTo-ok : (s t : State) (r : Result State) → MovesTo s r → r ≡ ok t → Moves s t
MovesTo-ok s t (ok u) f h = subst (Moves s) (ok-injective h) f
MovesTo-ok s t (err e) f h = cc

next-Moves :
    (s : State) (r : Result State) (rest : State → Result State)
    → MovesTo s r
    → ((t : State) → MovesTo t (rest t))
    → MovesTo s (elim r [ ok t ↦ rest t | err e ↦ err e ])
next-Moves s (ok t) rest f g = MovesTo-trans s t (rest t) f (g t)
next-Moves s (err e) rest f g = tt

pub each_ok-Moves {ℓ} :
    {A : Type ℓ} (body : A → State → Result State)
    → ((x : A) (s : State) → MovesTo s (body x s))
    → (xs : List A) (s : State) → MovesTo s (each_ok body xs s)
unfolding each_ok
each_ok-Moves body h [] s = Steady-refl s.allocations
each_ok-Moves body h (x ∷ xs) s =
    next-Moves s (body x s) (each_ok body xs) (h x s) (λ t. each_ok-Moves body h xs t)

pub on_worker-Moves :
    (body : Text → Worker → State → State)
    → ((wid : Text) (w : Worker) (s : State)
        → lookup wid s.workers ≡ some w
        → Moves s (body wid w s))
    → (wid : Text) (s : State) → Moves s (on_worker body wid s)
on_worker-Moves body h wid s = elim (Option-cases (lookup wid s.workers)) [
  | inl e ↦ rw (e, on_worker) (Steady-refl s.allocations)
  | inr (w, e) ↦ rw (e, on_worker) (h wid w s e)
]

pub on_allocation-Moves :
    (body : Text → Allocation → State → State)
    → ((aid : Text) (a : Allocation) (s : State)
        → lookup aid s.allocations ≡ some a
        → Moves s (body aid a s))
    → (aid : Text) (s : State) → Moves s (on_allocation body aid s)
on_allocation-Moves body h aid s = elim (Option-cases (lookup aid s.allocations)) [
  | inl e ↦ rw (e, on_allocation) (Steady-refl s.allocations)
  | inr (a, e) ↦ rw (e, on_allocation) (h aid a s e)
]

-- The same of a transaction that also returns a value.
abbrev pub Commits {ℓ} : {A : Type ℓ} → State → Result (State × A) → Type 0
Commits s (ok (t, a)) = Moves s t
Commits s (err e) = Unit {0}

pub Commits-bind {ℓ} :
    {A : Type ℓ} (s : State) (r : Result State) (f : State → Result (State × A))
    → MovesTo s r
    → ((t : State) → Commits t (f t))
    → Commits s (r >>= f)
Commits-bind {A = A} s (ok t) f g h = reach (f t) (h t)
  where
    reach : (o : Result (State × A)) → Commits t o → Commits s o
    reach (ok (u, a)) k = Steady-trans g k
    reach (err e) k = tt
Commits-bind s (err e) f g h = tt

-- Of a value that is found without a change.
pub MovesTo-bind {ℓ} :
    {A : Type ℓ} (s : State) (r : Result A) (f : A → Result State)
    → ((a : A) → MovesTo s (f a))
    → MovesTo s (r >>= f)
MovesTo-bind s (ok a) f h = h a
MovesTo-bind s (err e) f h = tt

pub MovesTo-next :
    (s : State) (r : Result State) (f : State → Result State)
    → MovesTo s r
    → ((t : State) → MovesTo t (f t))
    → MovesTo s (r >>= f)
MovesTo-next s (ok t) f g h = MovesTo-trans s t (f t) g (h t)
MovesTo-next s (err e) f g h = tt
