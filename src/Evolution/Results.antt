-- ===== src/Evolution/Results.antt =====
-- The results of commands keep allocations to their diagram.
use nakama_playflow.Base.{
  ℕ, ◌≡◌, refl, inl, inr, Bool, true, not, List, Option, none, some, Text, arith, lookup, insert,
  Option-cases, if-cases, ◌==◌, lookup-insert, ◌||◌, ◌&&◌, leb, text_eq, text_eqb_refl, nat_eq,
}
use nakama_playflow.State.{
  State, Worker, Allocation, Command, Phase, Order, Reason, phase_eq, order_eq,
}
use nakama_playflow.Manager.{Manager, eligible, touch}
use nakama_playflow.Agent.{
  CommandResult, close, assign_now, confirm_room, room_prepared, settle_room, settle_found,
  note_drain, fail_found, fail, apply_to, apply_result,
}
use nakama_playflow.Evolution.Phases.{confirm, Evolves, Steady-refl, insert-Steady}
use nakama_playflow.Evolution.Steps.{
  Moves, Touched-Evolves, settle-Evolves, cancel_at-Moves, reserve-Moves,
}
use nakama_playflow.Evolution.Loops.{MovesTo, MovesTo-intro, MovesTo-trans}

abbrev confirmed : Allocation → Allocation
confirmed a = touch (record a { state = Phase.prepared })

confirmed-Evolves : (a : Allocation) → a.state ≡ Phase.preparing → Evolves a (confirmed a)
confirmed-Evolves a h =
    Touched-Evolves
      (record {
        id = refl;
        request_key = refl;
        room_id = refl;
        user_ids = refl;
        epoch = refl;
        revision = refl;
        worker = inr refl;
      })
      (rw h confirm) (rw h)

lookup_written :
    (aid : Text) (a : Allocation) (m : List (Text × Allocation))
    → lookup aid (insert aid a m) ≡ some a
lookup_written aid a m = rw (lookup-insert aid aid a m, text_eqb_refl aid)

assign_now-Moves :
    (m : Manager) (now : ℕ) (aid : Text) (a : Allocation) (w : Worker) (s : State)
    → lookup aid s.allocations ≡ some a
    → MovesTo s (assign_now m now aid a w s)
assign_now-Moves m now aid a w s h =
    if-cases (MovesTo s) (eligible m w now)
      (λ _.
        MovesTo-intro s _ (λ t. reserve-Moves m aid a a.user_ids now m.cfg.reservation_ttl s t h))
      (λ _. Steady-refl s.allocations)

room_prepared-Moves :
    (m : Manager) (now : ℕ) (c : Command) (aid : Text) (a : Allocation) (w : Worker) (s : State)
    → lookup aid s.allocations ≡ some a
    → a.state ≡ Phase.preparing
    → MovesTo s (room_prepared m now c aid a w s)
room_prepared-Moves m now c aid a w s h p =
    if-cases (MovesTo s) (leb c.expires_at now || w.draining)
      (λ _. cancel_at-Moves m aid a Reason.prepare_expired now s h)
      (λ _.
        MovesTo-trans s (confirm_room m now aid a s) _
          (insert-Steady aid a (confirmed a) s.allocations h (confirmed-Evolves a p))
          (assign_now-Moves m now aid (confirmed a) w (confirm_room m now aid a s)
            (lookup_written aid (confirmed a) s.allocations)))

is_preparing : (b : Bool) (p : Phase) → (b && p == Phase.preparing) ≡ true → p ≡ Phase.preparing
is_preparing b p h = ground arith

is_cancelling : (b : Bool) (p : Phase) → (b && p == Phase.cancelling) ≡ true → p ≡ Phase.cancelling
is_cancelling b p h = ground arith

settle_room-Moves :
    (m : Manager) (now : ℕ) (c : Command) (aid : Text) (a : Allocation) (w : Worker) (s : State)
    → lookup aid s.allocations ≡ some a
    → MovesTo s (settle_room m now c aid a w s)
settle_room-Moves m now c aid a w s h =
    if-cases (MovesTo s) (not (a.epoch == c.epoch)) (λ _. Steady-refl s.allocations)
      (λ _.
        if-cases (MovesTo s) (c.type == Order.prepare_room && a.state == Phase.preparing)
          (λ e.
            room_prepared-Moves m now c aid a w s h
              (is_preparing (c.type == Order.prepare_room) a.state e))
          (λ _.
            if-cases (MovesTo s) (c.type == Order.cancel_room && a.state == Phase.cancelling)
              (λ e. insert-Steady aid a _ s.allocations h (
                settle-Evolves a a.error now
                  (is_cancelling (c.type == Order.cancel_room) a.state e)))
              (λ _. Steady-refl s.allocations)))

settle_found-Moves :
    (m : Manager) (now : ℕ) (c : Command) (w : Worker) (s : State) (o : Option Allocation)
    → lookup c.allocation_id s.allocations ≡ o
    → MovesTo s (settle_found m now c w s o)
settle_found-Moves m now c w s none h = Steady-refl s.allocations
settle_found-Moves m now c w s (some a) h = settle_room-Moves m now c c.allocation_id a w s h

fail_found-Moves :
    (m : Manager) (now : ℕ) (c : Command) (s : State) (o : Option Allocation)
    → lookup c.allocation_id s.allocations ≡ o
    → Moves s (fail_found m now c s o)
fail_found-Moves m now c s none h = Steady-refl s.allocations
fail_found-Moves m now c s (some a) h =
    if-cases (Moves s) (a.state == Phase.preparing)
      (λ _. cancel_at-Moves m c.allocation_id a Reason.room_prepare_failed now s h)
      (λ _. Steady-refl s.allocations)

fail-Moves :
    (m : Manager) (now : ℕ) (cid : Text) (c : Command) (s : State) → Moves s (fail m now cid c s)
fail-Moves m now cid c s =
    if-cases (Moves s) (c.type == Order.prepare_room)
      (λ _. fail_found-Moves m now c (close cid c s) (lookup c.allocation_id s.allocations) refl)
      (λ _. Steady-refl s.allocations)

apply_to-Moves :
    (m : Manager) (now : ℕ) (wid : Text) (result : CommandResult) (w : Worker) (c : Command)
    (s : State)
    → MovesTo s (apply_to m now wid result w c s)
apply_to-Moves m now wid result w c s =
    if-cases (MovesTo s) (not (c.worker_id == w.id)) (λ _. tt)
      (λ _.
        if-cases (MovesTo s) c.done (λ _. Steady-refl s.allocations)
          (λ _.
            if-cases (MovesTo s) result.success
              (λ _.
                settle_found-Moves m now c (note_drain wid c w)
                  (record (close result.command_id c s) {
                    workers = insert wid (note_drain wid c w) s.workers;
                  })
                  (lookup c.allocation_id s.allocations) refl)
              (λ _. fail-Moves m now result.command_id c s)))

pub apply_result-Moves :
    (m : Manager) (now : ℕ) (wid : Text) (result : CommandResult) (s : State)
    → MovesTo s (apply_result m now wid result s)
unfolding apply_result
apply_result-Moves m now wid result s = elim (Option-cases (lookup result.command_id s.commands)) [
  | inl e ↦ rw (e, apply_result) tt
  | inr (c, e) ↦ elim (Option-cases (lookup wid s.workers)) [
    | inl e' ↦ rw (e, apply_result, e') tt
    | inr (w, e') ↦ rw (e, apply_result, e') (apply_to-Moves m now wid result w c s)
  ]
]
