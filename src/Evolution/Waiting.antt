-- ===== src/Evolution/Waiting.antt =====
-- The loop of a tick over the waiting allocations: each key is there once, and only its own turn
-- changes it, so that it still waits when its turn comes.
use nakama_playflow.Base.{
  ℕ, ◌≤◌, ◌≡◌, refl, sym, subst, ◌∙◌, inl, inr, Bool, true, false, List, [], ◌∷◌, map, none, some,
  Text, arith, lookup, copies, Unique, keep, sort, place, All, Option-cases, if-cases,
  lookup-insert, lookup-copies, text_eqb, text_eqb_iff, each, ◌==◌,
}
use mathlib.Core.Option.{some-injective}
use nakama_playflow.State.{State, Allocation, Phase, phase_eq}
use nakama_playflow.Manager.{Manager, touch}
use nakama_playflow.Lifecycle.{
  on_allocation, before, is_waiting, waiting, Choice, choose, give_room, give_chosen,
  place_allocation, place_all,
}
use nakama_playflow.Evolution.Phases.{Evolves, Steady-refl, insert-Steady}
use nakama_playflow.Evolution.Phases
use nakama_playflow.Evolution.Steps.{Moves, Moves-trans, Touched-Evolves}

-- Sorting and filtering keep the entries and make no copies.
copies-place :
    (k : Text) (e : Text × Allocation) (m : List (Text × Allocation))
    → copies k (place before e m) ≡ copies k (e ∷ m)
unfolding copies place
copies-place k e [] = refl
copies-place k e (f ∷ m) = ground (arith, copies-place k e m)

copies-sort : (k : Text) (m : List (Text × Allocation)) → copies k (sort before m) ≡ copies k m
unfolding copies sort
copies-sort k [] = refl
copies-sort k (e ∷ m) = ground (arith, copies-place k e (sort before m), copies-sort k m)

copies-keep-le :
    (p : Text × Allocation → Bool) (k : Text) (m : List (Text × Allocation))
    → copies k (keep p m) ≤ copies k m
unfolding copies
copies-keep-le p k [] = omega arith
copies-keep-le p k (e ∷ m) = ground (arith, copies-keep-le p k m)

module _ {ℓ} (P : Text × Allocation → Type ℓ) where
  All-place :
      (e : Text × Allocation) (m : List (Text × Allocation))
      → P e
      → All P m
      → All P (place before e m)
  unfolding place
  All-place e [] h k = (h, tt)
  All-place e (f ∷ m) h k =
      if-cases (All P) (before f e) (λ _. (k.0, All-place e m h k.1)) (λ _. (h, k))

  All-sort : (m : List (Text × Allocation)) → All P m → All P (sort before m)
  unfolding sort
  All-sort [] h = tt
  All-sort (e ∷ m) h = All-place e (sort before m) h.0 (All-sort m h.1)

-- An entry of a list is what its key has in the map, and it waits.
abbrev Stands : List (Text × Allocation) → Text × Allocation → Type 0
Stands m e = (lookup e.0 m ≡ some e.1) × (is_waiting e ≡ true)

Unique-tail :
    (j : Text) (a : Allocation) (m : List (Text × Allocation)) → Unique ((j, a) ∷ m) → Unique m
unfolding copies
Unique-tail j a m u k = ground (arith, u k)

lookup-tail :
    (j : Text) (a : Allocation) (m : List (Text × Allocation)) (k : Text) (b : Allocation)
    → Unique ((j, a) ∷ m)
    → lookup k m ≡ some b
    → lookup k ((j, a) ∷ m) ≡ some b
unfolding lookup copies
lookup-tail j a m k b u e =
    ground (arith, u j, text_eqb_iff j j, text_eqb_iff j k, lookup-copies j m)

lookup-head :
    (j : Text) (a : Allocation) (m : List (Text × Allocation)) → lookup j ((j, a) ∷ m) ≡ some a
unfolding lookup
lookup-head j a m = ground (arith, text_eqb_iff j j)

keep-Stands :
    (n m : List (Text × Allocation))
    → Unique m
    → ((k : Text) (a : Allocation) → lookup k m ≡ some a → lookup k n ≡ some a)
    → All (Stands n) (keep is_waiting m)
keep-Stands n [] u h = tt
keep-Stands n ((j, a) ∷ m) u h =
    let rest = keep-Stands n m (Unique-tail j a m u) (λ k b e. h k b (lookup-tail j a m k b u e)) in
    if-cases (All (Stands n)) (is_waiting (j, a)) (λ w. ((h j a (lookup-head j a m), w), rest))
      (λ _. rest)

-- Keys that differ from each other.
abbrev Apart : Text → List Text → Type 0
Apart k ks = All (λ j. text_eqb k j ≡ false) ks

abbrev Distinct : List Text → Type 0
Distinct [] = Unit
Distinct (k ∷ ks) = Apart k ks × Distinct ks

Apart-keys : (k : Text) (m : List (Text × Allocation)) → copies k m ≡ 0 → Apart k (map (λ e. e.0) m)
unfolding copies
Apart-keys k [] h = tt
Apart-keys k (e ∷ m) h =
    (ground (arith, text_eqb_iff e.0 k, text_eqb_iff k e.0), Apart-keys k m (ground arith))

alone :
    (j : Text) (a : Allocation) (m : List (Text × Allocation))
    → Unique ((j, a) ∷ m)
    → copies j m ≡ 0
unfolding copies
alone j a m u = ground (arith, u j, text_eqb_iff j j)

Distinct-keys : (m : List (Text × Allocation)) → Unique m → Distinct (map (λ e. e.0) m)
Distinct-keys [] u = tt
Distinct-keys ((j, a) ∷ m) u =
    (Apart-keys j m (alone j a m u), Distinct-keys m (Unique-tail j a m u))

-- Under the key stands nothing but a waiting allocation.
abbrev Waits : State → Text → Type 0
Waits s k = (a : Allocation) → lookup k s.allocations ≡ some a → a.state ≡ Phase.waiting_capacity

waits_of_test : (p : Phase) → (p == Phase.waiting_capacity) ≡ true → p ≡ Phase.waiting_capacity
waits_of_test p h = ground arith

Waits-keys :
    (s : State) (m : List (Text × Allocation))
    → All (Stands s.allocations) m
    → All (Waits s) (map (λ e. e.0) m)
Waits-keys s [] h = tt
Waits-keys s (e ∷ m) h = (still, Waits-keys s m h.1)
  where
    still : Waits s e.0
    still a g =
        waits_of_test a.state
          (subst (λ b. is_waiting (e.0, b) ≡ true) (some-injective e.1 a (sym h.0.0 ∙ g)) h.0.1)

placed-Evolves :
    (a : Allocation) (worker_id : Text) (expires_at : ℕ)
    → a.state ≡ Phase.waiting_capacity
    → Evolves a (
        touch
          (record a { worker_id = worker_id; state = Phase.preparing; expires_at = expires_at }))
placed-Evolves a worker_id expires_at h =
    Touched-Evolves
      (record {
        id = refl;
        request_key = refl;
        room_id = refl;
        user_ids = refl;
        epoch = refl;
        revision = refl;
        worker = inl h;
      })
      (rw h Phases.place) (rw h)

give_chosen-Moves :
    (m : Manager) (now : ℕ) (aid : Text) (a : Allocation) (s : State) (c : Choice)
    → lookup aid s.allocations ≡ some a
    → a.state ≡ Phase.waiting_capacity
    → Moves s (give_chosen m now aid a s c)
unfolding give_room
give_chosen-Moves m now aid a s none h w = Steady-refl s.allocations
give_chosen-Moves m now aid a s (some (wid, v, n)) h w =
    insert-Steady aid a _ s.allocations h (placed-Evolves a v.id _ w)

turn : Manager → ℕ → Text → State → State
turn m now = on_allocation (place_allocation m now)

turn-Moves :
    (m : Manager) (now : ℕ) (aid : Text) (s : State) → Waits s aid → Moves s (turn m now aid s)
unfolding turn
turn-Moves m now aid s w = elim (Option-cases (lookup aid s.allocations)) [
  | inl e ↦ rw (e, on_allocation) (Steady-refl s.allocations)
  | inr (a, e) ↦
      rw (e, on_allocation)
        (give_chosen-Moves m now aid a s (choose m now a s s.workers none) e (w a e))
]

give_chosen-other :
    (m : Manager) (now : ℕ) (aid k : Text) (a : Allocation) (s : State) (c : Choice)
    → text_eqb aid k ≡ false
    → lookup k (give_chosen m now aid a s c).allocations ≡ lookup k s.allocations
unfolding give_room
give_chosen-other m now aid k a s none h = refl
give_chosen-other m now aid k a s (some (wid, v, n)) h = rw (lookup-insert aid k _ s.allocations, h)

-- The turn of one key leaves the others alone.
turn-other :
    (m : Manager) (now : ℕ) (aid k : Text) (s : State)
    → text_eqb aid k ≡ false
    → lookup k (turn m now aid s).allocations ≡ lookup k s.allocations
unfolding turn
turn-other m now aid k s h = elim (Option-cases (lookup aid s.allocations)) [
  | inl e ↦ rw (e, on_allocation)
  | inr (a, e) ↦
      rw (e, on_allocation) (give_chosen-other m now aid k a s (choose m now a s s.workers none) h)
]

Waits-after :
    (m : Manager) (now : ℕ) (aid : Text) (s : State) (ks : List Text)
    → Apart aid ks
    → All (Waits s) ks
    → All (Waits (turn m now aid s)) ks
Waits-after m now aid s [] d w = tt
Waits-after m now aid s (k ∷ ks) d w =
    (λ a e. w.0 a (sym (turn-other m now aid k s d.0) ∙ e), Waits-after m now aid s ks d.1 w.1)

turns-Moves :
    (m : Manager) (now : ℕ) (ks : List Text) (s : State)
    → Distinct ks
    → All (Waits s) ks
    → Moves s (each (turn m now) ks s)
unfolding each
turns-Moves m now [] s d w = Steady-refl s.allocations
turns-Moves m now (k ∷ ks) s d w =
    Moves-trans s (turn m now k s) (each (turn m now) ks (turn m now k s))
      (turn-Moves m now k s w.0)
      (turns-Moves m now ks (turn m now k s) d.1 (Waits-after m now k s ks d.0 w.1))

sorted_queue : State → List (Text × Allocation)
sorted_queue s = sort before (keep is_waiting s.allocations)

sorted_queue-Unique : (s : State) → Unique s.allocations → Unique (sorted_queue s)
unfolding sorted_queue
sorted_queue-Unique s u k = omega (
  arith,
  u k,
  copies-sort k (keep is_waiting s.allocations),
  copies-keep-le is_waiting k s.allocations,
)

pub place_all-Moves :
    (m : Manager) (now : ℕ) (s : State) → Unique s.allocations → Moves s (place_all m now s)
unfolding place_all waiting turn sorted_queue
place_all-Moves m now s u =
    turns-Moves m now (waiting s) s (Distinct-keys (sorted_queue s) (sorted_queue-Unique s u)) (
      Waits-keys s (sorted_queue s) (
        All-sort (Stands s.allocations) (keep is_waiting s.allocations)
          (keep-Stands s.allocations s.allocations u (λ k a e. e))))
