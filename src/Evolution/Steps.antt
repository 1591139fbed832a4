-- ===== src/Evolution/Steps.antt =====
-- The steps from which the transactions are built keep allocations to their diagram.
use nakama_playflow.Base.{
  ℕ, ◌+◌, ◌≡◌, sym, Bool, is_empty, ◌==◌, text_eq, ◌||◌, subst, ok-injective, refl, ◌⊎◌, inl, inr,
  true, false, List, some, Text, arith, lookup, Bool-cases, ok,
}
use nakama_playflow.State.{
  State, Worker, Allocation, Session, Phase, Reason, Fault, terminal, phase_eq,
}
use nakama_playflow.Manager.{
  Manager, finish, touch, cancel_at, cancelled_phase, reserve, same_users,
}
use nakama_playflow.Lifecycle.{stopped, lost, fail_on}
use nakama_playflow.Evolution.Phases.{
  ◌⟶◌, here, step, expire, give_up, clear_expired, clear_cancelled, stage_of, edges, withdraw, fail,
  assign, is_live, Evolves, Evolves-refl, Steady, Steady-refl, Steady-trans, insert-Steady,
  map_values-Steady,
}

-- From one state to another, allocations only evolve and end.
abbrev pub Moves : State → State → Type 0
Moves s t = Steady s.allocations t.allocations

pub Moves-trans : (s t u : State) → Moves s t → Moves t u → Moves s u
Moves-trans s t u f g = Steady-trans f g

-- A write that raises the revision by one and keeps the rest of the card.
pub record Touched (a b : Allocation) : Type 0 where
  pub id : b.id ≡ a.id
  pub request_key : b.request_key ≡ a.request_key
  pub room_id : b.room_id ≡ a.room_id
  pub user_ids : b.user_ids ≡ a.user_ids
  pub epoch : b.epoch ≡ a.epoch
  pub revision : b.revision ≡ a.revision + 1
  pub worker : (a.state ≡ Phase.waiting_capacity) ⊎ (b.worker_id ≡ a.worker_id)

-- Such a write along an edge of the diagram.
pub Touched-Evolves :
    {a b : Allocation}
    → Touched a b
    → stage_of a ⟶ stage_of b
    → terminal a.state ≡ false
    → Evolves a b
unfolding edges
Touched-Evolves t e live = record {
  same_id = t.id;
  same_key = t.request_key;
  same_room = t.room_id;
  same_users = t.user_ids;
  same_epoch = t.epoch;
  later = omega (arith, t.revision);
  marked = inr (omega (arith, t.revision));
  path = step e here;
  paced = omega (arith, t.revision);
  anchored = t.worker;
  frozen = λ h. cc (live, h);
}

finish-Touched :
    (a : Allocation) (p : Phase) (reason : Reason) (now : ℕ) → Touched a (finish a p reason now)
finish-Touched a p reason now = record {
  id = refl;
  request_key = refl;
  room_id = refl;
  user_ids = refl;
  epoch = refl;
  revision = refl;
  worker = inr refl;
}

pub finish-Evolves :
    (a : Allocation) (p : Phase) (reason : Reason) (now : ℕ)
    → stage_of a ⟶ (p, is_empty a.worker_id)
    → terminal a.state ≡ false
    → Evolves a (finish a p reason now)
finish-Evolves a p reason now e live = Touched-Evolves (finish-Touched a p reason now) e live

-- Only a live allocation fails with its worker.
pub fail_on-Evolves :
    (worker_id : Text) (reason : Reason) (now : ℕ) (a : Allocation)
    → Evolves a (fail_on worker_id reason now a)
fail_on-Evolves worker_id reason now a = elim (Bool-cases (a.worker_id == worker_id)) [
  | inr other ↦ rw other (Evolves-refl a)
  | inl mine ↦ elim (Bool-cases (terminal a.state)) [
    | inl over ↦ rw (mine, over) (Evolves-refl a)
    | inr live ↦ rw (mine, live) (finish-Evolves a Phase.failed reason now (fail live) live)
  ]
]

pub stopped-Moves : (wid : Text) (w : Worker) (now : ℕ) (s : State) → Moves s (stopped wid w now s)
unfolding stopped
stopped-Moves wid w now s =
    map_values-Steady _ s.allocations (fail_on-Evolves w.id Reason.server_stopped now)

pub lost-Moves :
    (wid : Text) (w : Worker) (fault : Fault) (now : ℕ) (s : State)
    → Moves s (lost wid w fault now s)
unfolding lost
lost-Moves wid w fault now s =
    map_values-Steady _ s.allocations (fail_on-Evolves w.id Reason.server_lost now)

unbound-⟶ :
    (p : Phase) (reason : Reason) → terminal p ≡ false → (p, true) ⟶ (cancelled_phase reason, true)
unbound-⟶ p Reason.cancelled live = give_up live
unbound-⟶ p _ live = expire live

cleared-⟶ : (b : Bool) (reason : Reason) → (Phase.cancelling, b) ⟶ (cancelled_phase reason, b)
cleared-⟶ b Reason.cancelled = clear_cancelled
cleared-⟶ b _ = clear_expired

-- An allocation without a worker ends by what it was cancelled for.
drop-Evolves :
    (a : Allocation) (reason : Reason) (now : ℕ)
    → terminal a.state ≡ false
    → is_empty a.worker_id ≡ true
    → Evolves a (finish a (cancelled_phase reason) reason now)
drop-Evolves a reason now live e =
    finish-Evolves a (cancelled_phase reason) reason now
      (subst (λ b. (a.state, b) ⟶ (cancelled_phase reason, b)) (sym e)
        (unbound-⟶ a.state reason live))
      live

-- And so does one that is being cancelled.
pub settle-Evolves :
    (a : Allocation) (reason : Reason) (now : ℕ)
    → a.state ≡ Phase.cancelling
    → Evolves a (finish a (cancelled_phase reason) reason now)
settle-Evolves a reason now h =
    finish-Evolves a (cancelled_phase reason) reason now
      (subst (λ p. (p, is_empty a.worker_id) ⟶ (cancelled_phase reason, is_empty a.worker_id))
        (sym h) (cleared-⟶ (is_empty a.worker_id) reason))
      (rw h refl)

abbrev withdrawn : Allocation → Reason → Allocation
withdrawn a reason = touch (record a { state = Phase.cancelling; error = reason })

withdrawn-Evolves :
    (a : Allocation) (reason : Reason)
    → is_live a.state ≡ true
    → terminal a.state ≡ false
    → is_empty a.worker_id ≡ false
    → Evolves a (withdrawn a reason)
withdrawn-Evolves a reason h live e =
    Touched-Evolves touched (subst (λ b. (a.state, b) ⟶ (Phase.cancelling, b)) (sym e) (withdraw h))
      live
  where
    touched : Touched a (withdrawn a reason)
    touched = record {
      id = refl;
      request_key = refl;
      room_id = refl;
      user_ids = refl;
      epoch = refl;
      revision = refl;
      worker = inr refl;
    }

-- The three branches of `cancel`.
pub cancel_at-Moves :
    (m : Manager) (aid : Text) (a : Allocation) (reason : Reason) (now : ℕ) (s : State)
    → lookup aid s.allocations ≡ some a
    → Moves s (cancel_at m aid a reason now s)
unfolding cancel_at
cancel_at-Moves m aid a reason now s h = elim (Bool-cases (terminal a.state)) [
  | inl over ↦ rw over (Steady-refl s.allocations)
  | inr live ↦ elim (Bool-cases (a.state == Phase.cancelling)) [
    | inl c ↦ rw (live, c) (Steady-refl s.allocations)
    | inr c ↦ elim (Bool-cases (is_empty a.worker_id)) [
      | inl e ↦
          rw (live, c, e) (insert-Steady aid a _ s.allocations h (drop-Evolves a reason now live e))
      | inr e ↦
          rw (live, c, e)
            (insert-Steady aid a _ s.allocations h
              (withdrawn-Evolves a reason (rw (live, c)) live e))
    ]
  ]
]

abbrev seated : Allocation → List Session → ℕ → Allocation
seated a sessions expires_at =
    touch (record a { state = Phase.assigned; sessions = sessions; expires_at = expires_at })

seated-Evolves :
    (a : Allocation) (sessions : List Session) (expires_at : ℕ)
    → a.state ≡ Phase.prepared
    → Evolves a (seated a sessions expires_at)
seated-Evolves a sessions expires_at h = Touched-Evolves touched (rw h assign) (rw h)
  where
    touched : Touched a (seated a sessions expires_at)
    touched = record {
      id = refl;
      request_key = refl;
      room_id = refl;
      user_ids = refl;
      epoch = refl;
      revision = refl;
      worker = inr refl;
    }

prepared_of_test : (p : Phase) → (p == Phase.prepared) ≡ true → p ≡ Phase.prepared
prepared_of_test p h = ground arith

-- The branches of `reserve` that return no error.
pub reserve-Moves :
    (m : Manager) (aid : Text) (a : Allocation) (users : List Text) (now ttl : ℕ) (s t : State)
    → lookup aid s.allocations ≡ some a
    → reserve m aid a users now ttl s ≡ ok t
    → Moves s t
unfolding reserve
reserve-Moves m aid a users now ttl s t h r = elim (Bool-cases (same_users a.user_ids users)) [
  | inr e ↦ absurd (ground arith)
  | inl e ↦ elim (Bool-cases (a.state == Phase.assigned || a.state == Phase.active)) [
    | inl b ↦ subst (Moves s) (ok-injective (rw (e, b) at r)) (Steady-refl s.allocations)
    | inr b ↦ elim (Bool-cases (a.state == Phase.prepared)) [
      | inr c ↦ absurd (ground arith)
      | inl c ↦ subst (Moves s) (ok-injective (rw (e, b, c) at r)) (
          insert-Steady aid a _ s.allocations h (seated-Evolves a _ _ (prepared_of_test a.state c)))
    ]
  ]
]
