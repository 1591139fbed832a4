-- ===== src/Agent/Spares.antt =====
-- The results of commands write no worker but to note a drain (`heartbeatHTTP`,
-- pkg/fleetmanager/http.go).
use nakama_playflow.Base.{
  ℕ, ◌≡◌, refl, not, ◌&&◌, ◌||◌, List, Option, none, some, Text, text_eq, lookup, if-cases, ◌==◌,
  leb, nat_eq, is_empty, Result, ok, err,
}
use nakama_playflow.State.{
  State, Worker, Allocation, Command, Phase, Order, Reason, terminal, phase_eq, order_eq, status_eq,
}
use nakama_playflow.Manager.{Manager, cancel_at, reserve, eligible, same_users, touch}
use nakama_playflow.Agent.Results.{
  close, confirm_room, room_prepared, settle_found, fail_found, fail,
}

-- The workers are left as they are, if the result is a state.
abbrev pub Spares : State → Result State → Type 0
Spares s (ok t) = t.workers ≡ s.workers
Spares s (err e) = Unit {0}

cancel_at-Spares :
    (m : Manager) (aid : Text) (a : Allocation) (reason : Reason) (now : ℕ) (s : State)
    → (cancel_at m aid a reason now s).workers ≡ s.workers
unfolding cancel_at
cancel_at-Spares m aid a reason now s =
    if-cases (λ (t : State). t.workers ≡ s.workers)
      (terminal a.state || a.state == Phase.cancelling) (λ _. refl)
      (λ _.
        if-cases (λ (t : State). t.workers ≡ s.workers) (is_empty a.worker_id) (λ _. refl)
          (λ _. refl))

reserve-Spares :
    (m : Manager) (aid : Text) (a : Allocation) (users : List Text) (now ttl : ℕ) (s : State)
    → Spares s (reserve m aid a users now ttl s)
unfolding reserve
reserve-Spares m aid a users now ttl s =
    if-cases (Spares s) (not (same_users a.user_ids users)) (λ _. tt)
      (λ _.
        if-cases (Spares s) (a.state == Phase.assigned || a.state == Phase.active) (λ _. refl)
          (λ _. if-cases (Spares s) (not (a.state == Phase.prepared)) (λ _. tt) (λ _. refl)))

room_prepared-Spares :
    (m : Manager) (now : ℕ) (c : Command) (aid : Text) (a : Allocation) (w : Worker) (s : State)
    → Spares s (room_prepared m now c aid a w s)
room_prepared-Spares m now c aid a w s =
    if-cases (Spares s) (leb c.expires_at now || w.draining)
      (λ _. cancel_at-Spares m aid a Reason.prepare_expired now s)
      (λ _.
        if-cases (Spares s) (eligible m w now)
          (λ _.
            reserve-Spares m aid (touch (record a { state = Phase.prepared })) a.user_ids now
              m.cfg.reservation_ttl (confirm_room m now aid a s))
          (λ _. refl))

pub settle_found-Spares :
    (m : Manager) (now : ℕ) (c : Command) (w : Worker) (s : State) (o : Option Allocation)
    → Spares s (settle_found m now c w s o)
settle_found-Spares m now c w s none = refl
settle_found-Spares m now c w s (some a) =
    if-cases (Spares s) (not (a.epoch == c.epoch)) (λ _. refl)
      (λ _.
        if-cases (Spares s) (c.type == Order.prepare_room && a.state == Phase.preparing)
          (λ _. room_prepared-Spares m now c c.allocation_id a w s)
          (λ _.
            if-cases (Spares s) (c.type == Order.cancel_room && a.state == Phase.cancelling)
              (λ _. refl) (λ _. refl)))

pub fail-Spares :
    (m : Manager) (now : ℕ) (cid : Text) (c : Command) (s : State)
    → (fail m now cid c s).workers ≡ s.workers
fail-Spares m now cid c s =
    if-cases (λ (t : State). t.workers ≡ s.workers) (c.type == Order.prepare_room)
      (λ _. found (lookup c.allocation_id s.allocations)) (λ _. refl)
  where
    found : (o : Option Allocation) → (fail_found m now c (close cid c s) o).workers ≡ s.workers
    found none = refl
    found (some a) =
        if-cases (λ (t : State). t.workers ≡ s.workers) (a.state == Phase.preparing)
          (λ _. cancel_at-Spares m c.allocation_id a Reason.room_prepare_failed now (close cid c s))
          (λ _. refl)
