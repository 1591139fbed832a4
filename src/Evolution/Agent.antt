-- ===== src/Evolution/Agent.antt =====
-- Heartbeats keep allocations to their diagram.
use nakama_playflow.Base.{
  ℕ, is_empty, ◌≡◌, refl, inl, inr, Bool, true, false, not, List, some, Text, arith, lookup, insert,
  if-cases, Option-cases, keys, ◌==◌, ◌||◌, ◌&&◌, bytes, text_eq, nat_eq, length,
}
use nakama_playflow.State.{State, Allocation, Session, Phase, Reason, terminal, phase_eq, order_eq}
use nakama_playflow.Manager.{Manager, touch}
use nakama_playflow.Lifecycle.{on_allocation}
use nakama_playflow.Agent.{
  RoomReport, see_players, see_room, add_players, see_allocation, see_report, see_reports,
}
use nakama_playflow.Evolution.Phases.{
  ◌⟶◌, edges, here, start, leave, complete, Evolves, Evolves-refl, Steady-refl, insert-Steady,
}
use nakama_playflow.Evolution.Steps.{Moves, Touched-Evolves, finish-Evolves}
use nakama_playflow.Evolution.Loops.{each-Moves, on_allocation-Moves}

-- Sessions are no part of the card.
seen_sessions-Evolves :
    (a : Allocation) (sessions : List Session)
    → terminal a.state ≡ false
    → Evolves a (record a { sessions = sessions })
unfolding edges
seen_sessions-Evolves a sessions live = record {
  same_id = refl;
  same_key = refl;
  same_room = refl;
  same_users = refl;
  same_epoch = refl;
  later = omega arith;
  marked = inl refl;
  path = here;
  paced = omega arith;
  anchored = inr refl;
  frozen = λ h. cc (live, h);
}

start-Evolves :
    (a : Allocation) (sessions : List Session)
    → a.state ≡ Phase.assigned
    → Evolves a (touch (record a { sessions = sessions; state = Phase.active }))
start-Evolves a sessions h =
    Touched-Evolves
      (record {
        id = refl;
        request_key = refl;
        room_id = refl;
        user_ids = refl;
        epoch = refl;
        revision = refl;
        worker = inr refl;
      })
      (rw h start) (rw h)

starts_assigned :
    (p q : Bool) (a : Phase) → (p && q && a == Phase.assigned) ≡ true → a ≡ Phase.assigned
starts_assigned p q a h = ground arith

see_players-Evolves :
    (m : Manager) (now : ℕ) (room : RoomReport) (a : Allocation)
    → terminal a.state ≡ false
    → Evolves a (see_players m now room a)
see_players-Evolves m now room a live =
    if-cases (Evolves a) _
      (λ e. start-Evolves a _ (
        starts_assigned (room.state == bytes "playing") (length room.user_ids == length a.user_ids)
          a.state e))
      (λ _. seen_sessions-Evolves a _ live)

completes :
    (p : Phase) (b : Bool)
    → (p == Phase.active || p == Phase.assigned) ≡ true
    → (p, b) ⟶ (Phase.completed, b)
completes Phase.active b h = complete
completes Phase.assigned b h = leave
completes Phase.waiting_capacity b h = cc
completes Phase.preparing b h = cc
completes Phase.prepared b h = cc
completes Phase.cancelling b h = cc
completes Phase.completed b h = cc
completes Phase.cancelled b h = cc
completes Phase.expired b h = cc
completes Phase.failed b h = cc

-- The allocation that a room's report leaves.
abbrev left_by : Allocation × Bool → Allocation
left_by p = p.0

see_room-Evolves :
    (m : Manager) (now : ℕ) (room : RoomReport) (a : Allocation)
    → terminal a.state ≡ false
    → Evolves a (left_by (see_room m now room a))
see_room-Evolves m now room a live =
    if-cases (λ p. Evolves a (left_by p)) (room.state == bytes "closed")
      (λ _.
        if-cases (λ p. Evolves a (left_by p)) _
          (λ e.
            finish-Evolves a Phase.completed Reason.none_given now
              (completes a.state (is_empty a.worker_id) e) live)
          (λ _. Evolves-refl a))
      (λ _.
        if-cases (λ p. Evolves a (left_by p)) _ (λ _. see_players-Evolves m now room a live)
          (λ _. Evolves-refl a))

add_players-Moves : (wid : Text) (n : ℕ) (s t : State) → Moves s t → Moves s (add_players wid n t)
add_players-Moves wid n s t f = elim (Option-cases (lookup wid t.workers)) [
  | inl e ↦ rw (e, add_players) f
  | inr (w, e) ↦ rw (e, add_players) f
]

third_false : (p q r : Bool) → (p || q || r) ≡ false → r ≡ false
third_false p q r h = ground arith

see_allocation-Moves :
    (m : Manager) (now : ℕ) (wid worker_id : Text) (room : RoomReport) (aid : Text) (a : Allocation)
    (s : State)
    → lookup aid s.allocations ≡ some a
    → Moves s (see_allocation m now wid worker_id room aid a s)
see_allocation-Moves m now wid worker_id room aid a s h =
    if-cases (Moves s)
      (not (a.room_id == room.room_id) || not (a.worker_id == worker_id) || terminal a.state)
      (λ _. Steady-refl s.allocations)
      (λ e.
        if-cases (Moves s) (see_room m now room a).1
          (λ _. add_players-Moves wid (length room.user_ids) s (seen s) (wrote e)) (λ _. wrote e))
  where
    seen : State → State
    seen s = record s { allocations = insert aid (see_room m now room a).0 s.allocations }

    wrote :
        (not (a.room_id == room.room_id) || not (a.worker_id == worker_id) || terminal a.state)
          ≡ false
        → Moves s (seen s)
    wrote e = insert-Steady aid a (see_room m now room a).0 s.allocations h (
        see_room-Evolves m now room a (
          third_false (not (a.room_id == room.room_id)) (not (a.worker_id == worker_id))
            (terminal a.state) e))

pub see_reports-Moves :
    (m : Manager) (now : ℕ) (wid worker_id : Text) (rooms : List RoomReport) (s : State)
    → Moves s (see_reports m now wid worker_id rooms s)
unfolding see_reports
see_reports-Moves m now wid worker_id rooms s =
    each-Moves (see_report m now wid worker_id)
      (λ room t.
        each-Moves (on_allocation (see_allocation m now wid worker_id room))
          (on_allocation-Moves (see_allocation m now wid worker_id room)
            (see_allocation-Moves m now wid worker_id room))
          (keys t.allocations) t)
      rooms s
