-- ===== src/Evolution/Tick.antt =====
-- The transaction of a tick keeps allocations to their diagram.
use nakama_playflow.Base.{
  ℕ, ◌≡◌, inl, inr, Bool, true, false, Option, none, some, Text, arith, lookup, Bool-cases,
  Option-cases, if◌then◌else◌, keys, ◌==◌, exists, ◌||◌, leb,
}
use nakama_playflow.State.{State, Worker, Allocation, Phase, Reason, Fault, terminal, phase_eq}
use nakama_playflow.Manager.{Manager, cancel_at, begin_drain, eligible}
use nakama_playflow.Lifecycle.{
  on_worker, on_allocation, lost, drain_expiring, doubt_create, suspect_late, lose_silent,
  watch_worker, watch_allocation, watch_workers, watch_allocations, prune_history, prune_workers,
  prune_worker, is_old_allocation, preferred_gone, reconnect_over, assign_to, assign_prepared,
  assign_all,
}
use nakama_playflow.Evolution.Phases.{Steady-refl, drop_if-Steady}
use nakama_playflow.Evolution.Steps.{Moves, Moves-trans, lost-Moves, cancel_at-Moves, reserve-Moves}
use nakama_playflow.Evolution.Loops.{
  MovesTo, MovesTo-intro, each-Moves, each_ok-Moves, on_worker-Moves, on_allocation-Moves,
}

-- A step that writes no allocation.
pub unmoved-Moves : (s t : State) → t.allocations ≡ s.allocations → Moves s t
unmoved-Moves s t e = rw e (Steady-refl s.allocations)

pub allocations-begin_drain :
    (m : Manager) (wid : Text) (w : Worker) (now : ℕ) (s : State)
    → (begin_drain m wid w now s).allocations ≡ s.allocations
unfolding begin_drain
allocations-begin_drain m wid w now s = ground arith

drain_expiring-Moves :
    (m : Manager) (now : ℕ) (wid : Text) (w : Worker) (s : State)
    → Moves s (drain_expiring m now wid w s)
drain_expiring-Moves m now wid w s =
    unmoved-Moves s (drain_expiring m now wid w s)
      (ground (arith, allocations-begin_drain m wid w now s))

doubt_create-Moves :
    (now : ℕ) (wid : Text) (w : Worker) (s : State) → Moves s (doubt_create now wid w s)
doubt_create-Moves now wid w s = unmoved-Moves s (doubt_create now wid w s) (ground arith)

suspect_late-Moves :
    (m : Manager) (now : ℕ) (wid : Text) (w : Worker) (s : State)
    → Moves s (suspect_late m now wid w s)
suspect_late-Moves m now wid w s = unmoved-Moves s (suspect_late m now wid w s) (ground arith)

-- Of two states, whichever a test picks.
pub if-Moves : (b : Bool) (s t u : State) → Moves s t → Moves s u → Moves s (if b then t else u)
if-Moves true s t u f g = f
if-Moves false s t u f g = g

lose_silent-Moves :
    (m : Manager) (now : ℕ) (wid : Text) (w : Worker) (s : State)
    → Moves s (lose_silent m now wid w s)
lose_silent-Moves m now wid w s =
    if-Moves _ s (lost wid w Fault.agent_lost now s) s (lost-Moves wid w Fault.agent_lost now s)
      (Steady-refl s.allocations)

watch_worker-Moves :
    (m : Manager) (now : ℕ) (wid : Text) (s : State) → Moves s (watch_worker m now wid s)
unfolding watch_worker
watch_worker-Moves m now wid s =
    let s1 = on_worker (drain_expiring m now) wid s in
    let s2 = on_worker (doubt_create now) wid s1 in
    let s3 = on_worker (suspect_late m now) wid s2 in
    Moves-trans s s1 (watch_worker m now wid s)
      (on_worker-Moves (drain_expiring m now) (λ i w t _. drain_expiring-Moves m now i w t) wid s)
      (Moves-trans s1 s2 (watch_worker m now wid s)
        (on_worker-Moves (doubt_create now) (λ i w t _. doubt_create-Moves now i w t) wid s1)
        (Moves-trans s2 s3 (watch_worker m now wid s)
          (on_worker-Moves (suspect_late m now) (λ i w t _. suspect_late-Moves m now i w t) wid s2)
          (on_worker-Moves (lose_silent m now) (λ i w t _. lose_silent-Moves m now i w t) wid s3)))

pub watch_workers-Moves : (m : Manager) (now : ℕ) (s : State) → Moves s (watch_workers m now s)
unfolding watch_workers
watch_workers-Moves m now s =
    each-Moves (watch_worker m now) (watch_worker-Moves m now) (keys s.workers) s

watch_allocation-Moves :
    (m : Manager) (now : ℕ) (aid : Text) (a : Allocation) (s : State)
    → lookup aid s.allocations ≡ some a
    → Moves s (watch_allocation m now aid a s)
watch_allocation-Moves m now aid a s h =
    elim (Bool-cases (terminal a.state || a.state == Phase.cancelling)) [
      | inl e ↦ rw e still
      | inr e ↦ elim (Bool-cases (preferred_gone a s)) [
        | inl g ↦ rw (e, g) (ends Reason.server_failed)
        | inr g ↦ elim (Bool-cases (a.state == Phase.active)) [
          | inl c ↦
              rw (e, g, c)
                (elim (Bool-cases (exists (reconnect_over now) a.sessions)) [
                  | inl o ↦ rw o (ends Reason.reconnect_expired)
                  | inr o ↦ rw o still
                ])
          | inr c ↦
              rw (e, g, c)
                (elim (Bool-cases (leb a.expires_at now)) [
                  | inl o ↦ rw o (ends Reason.allocation_expired)
                  | inr o ↦ rw o still
                ])
        ]
      ]
    ]
  where
    still : Moves s s
    still = Steady-refl s.allocations

    ends : (r : Reason) → Moves s (cancel_at m aid a r now s)
    ends r = cancel_at-Moves m aid a r now s h

pub watch_allocations-Moves :
    (m : Manager) (now : ℕ) (s : State) → Moves s (watch_allocations m now s)
unfolding watch_allocations
watch_allocations-Moves m now s =
    each-Moves (on_allocation (watch_allocation m now))
      (on_allocation-Moves (watch_allocation m now) (watch_allocation-Moves m now))
      (keys s.allocations) s

old_is_over : (now : ℕ) (a : Allocation) → is_old_allocation now a ≡ true → terminal a.state ≡ true
old_is_over now a h = ground arith

pub prune_history-Moves : (now : ℕ) (s : State) → Moves s (prune_history now s)
unfolding prune_history
prune_history-Moves now s = drop_if-Steady _ s.allocations (old_is_over now)

prune_worker-Moves :
    (now : ℕ) (wid : Text) (w : Worker) (s : State) → Moves s (prune_worker now wid w s)
prune_worker-Moves now wid w s = unmoved-Moves s (prune_worker now wid w s) (ground arith)

pub prune_workers-Moves : (now : ℕ) (s : State) → Moves s (prune_workers now s)
unfolding prune_workers
prune_workers-Moves now s =
    each-Moves (on_worker (prune_worker now))
      (on_worker-Moves (prune_worker now) (λ i w t _. prune_worker-Moves now i w t))
      (keys s.workers) s

assign_to-Moves :
    (m : Manager) (now : ℕ) (aid : Text) (a : Allocation) (s : State) (o : Option Worker)
    → lookup aid s.allocations ≡ some a
    → MovesTo s (assign_to m now aid a s o)
assign_to-Moves m now aid a s none h = Steady-refl s.allocations
assign_to-Moves m now aid a s (some w) h = elim (Bool-cases (eligible m w now)) [
  | inr e ↦ rw e (Steady-refl s.allocations)
  | inl e ↦
      rw e
        (MovesTo-intro s _ (λ t. reserve-Moves m aid a a.user_ids now m.cfg.reservation_ttl s t h))
]

assign_prepared-Moves :
    (m : Manager) (now : ℕ) (aid : Text) (s : State) → MovesTo s (assign_prepared m now aid s)
unfolding assign_prepared
assign_prepared-Moves m now aid s = elim (Option-cases (lookup aid s.allocations)) [
  | inl e ↦ rw (e, assign_prepared) (Steady-refl s.allocations)
  | inr (a, e) ↦ elim (Bool-cases (a.state == Phase.prepared)) [
    | inl p ↦
        rw (e, assign_prepared, p) (assign_to-Moves m now aid a s (lookup a.worker_id s.workers) e)
    | inr p ↦ rw (e, assign_prepared, p) (Steady-refl s.allocations)
  ]
]

pub assign_all-Moves : (m : Manager) (now : ℕ) (s : State) → MovesTo s (assign_all m now s)
unfolding assign_all
assign_all-Moves m now s =
    each_ok-Moves (assign_prepared m now) (assign_prepared-Moves m now) (keys s.allocations) s
