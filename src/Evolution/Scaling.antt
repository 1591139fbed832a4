-- ===== src/Evolution/Scaling.antt =====
-- Growing and shrinking the fleet writes no allocation, and the whole tick keeps to the diagram.
use nakama_playflow.Base.{
  ℕ, ◌≡◌, refl, ◌∙◌, inl, inr, List, [], ◌∷◌, Text, arith, lookup, insert, keys, Unique,
  Option-cases, if-cases, each, Result, ok, err, ◌>>=◌,
}
use nakama_playflow.State.{State, Worker}
use nakama_playflow.Manager.{Manager, new_worker}
use nakama_playflow.Lifecycle.{
  acquire_lease, watch_workers, watch_allocations, prune_history, prune_workers, assign_all,
  place_all, scale, scale_up, settle_all, settle_worker, rest_at, rest_worker, stop_drained,
  on_worker, tick_run, wants_worker, queue_length, open_count, idle_from,
}
use nakama_playflow.Evolution.Steps.{Moves, Moves-trans}
use nakama_playflow.Evolution.Loops.{MovesTo, Commits}
use nakama_playflow.Evolution.Tick.{
  allocations-begin_drain, unmoved-Moves, watch_workers-Moves, watch_allocations-Moves,
  prune_history-Moves, prune_workers-Moves, assign_all-Moves,
}
use nakama_playflow.Evolution.Waiting.{place_all-Moves}

pub allocations-scale_up :
    (m : Manager) (now : ℕ) (s : State) → (scale_up m now s).allocations ≡ s.allocations
unfolding scale_up new_worker
allocations-scale_up m now s =
    if-cases (λ (t : State). t.allocations ≡ s.allocations) (wants_worker m now s) (λ _. refl)
      (λ _. refl)

allocations-rest_worker :
    (m : Manager) (now q : ℕ) (wid : Text) (w : Worker) (s : State) (ready_left : ℕ)
    → (rest_worker m now q wid w (s, ready_left)).0.allocations ≡ s.allocations
allocations-rest_worker m now q wid w s ready_left = ground (
  arith,
  allocations-begin_drain m wid (idle_from now w) now
      (record s { workers = insert wid (idle_from now w) s.workers }),
)

allocations-stop_drained :
    (m : Manager) (now : ℕ) (wid : Text) (s : State)
    → (on_worker (stop_drained m now) wid s).allocations ≡ s.allocations
allocations-stop_drained m now wid s = ground arith

allocations-rest_at :
    (m : Manager) (now q : ℕ) (wid : Text) (s : State) (ready_left : ℕ)
    → (rest_at m now q wid (s, ready_left)).0.allocations ≡ s.allocations
allocations-rest_at m now q wid s ready_left = elim (Option-cases (lookup wid s.workers)) [
  | inl e ↦ rw (e, rest_at)
  | inr (w, e) ↦ rw (e, rest_at) (allocations-rest_worker m now q wid w s ready_left)
]

pub allocations-settle_worker :
    (m : Manager) (now q : ℕ) (wid : Text) (p : State × ℕ)
    → (settle_worker m now q wid p).0.allocations ≡ p.0.allocations
unfolding settle_worker
allocations-settle_worker m now q wid (s, ready_left) =
    allocations-stop_drained m now wid (rest_at m now q wid (s, ready_left)).0
    ∙ allocations-rest_at m now q wid s ready_left

allocations-settle_each :
    (m : Manager) (now q : ℕ) (ks : List Text) (p : State × ℕ)
    → (each (settle_worker m now q) ks p).0.allocations ≡ p.0.allocations
unfolding each
allocations-settle_each m now q [] p = refl
allocations-settle_each m now q (k ∷ ks) p =
    allocations-settle_each m now q ks (settle_worker m now q k p)
    ∙ allocations-settle_worker m now q k p

pub allocations-scale :
    (m : Manager) (now : ℕ) (s : State) → (scale m now s).allocations ≡ s.allocations
unfolding scale settle_all
allocations-scale m now s =
    allocations-settle_each m now (queue_length s) (keys (scale_up m now s).workers)
      (scale_up m now s, open_count s)
    ∙ allocations-scale_up m now s

allocations-acquire_lease :
    (m : Manager) (now : ℕ) (s t : State)
    → acquire_lease m now s ≡ ok t
    → t.allocations ≡ s.allocations
unfolding acquire_lease
allocations-acquire_lease m now s t h = ground arith

-- A tick, from a map with one entry to a key.
pub tick_run-Commits :
    (m : Manager) (now : ℕ) (s : State) → Unique s.allocations → Commits s (tick_run m now s)
unfolding tick_run
tick_run-Commits m now s u = leased (acquire_lease m now s) refl
  where
    before_rooms : State → State
    before_rooms t =
        prune_workers now (prune_history now (watch_allocations m now (watch_workers m now t)))

    prepared : (t : State) → Moves t (before_rooms t)
    prepared t =
        let t1 = watch_workers m now t in
        let t2 = watch_allocations m now t1 in
        let t3 = prune_history now t2 in
        Moves-trans t t1 (before_rooms t) (watch_workers-Moves m now t) (
          Moves-trans t1 t2 (before_rooms t) (watch_allocations-Moves m now t1) (
            Moves-trans t2 t3 (before_rooms t) (prune_history-Moves now t2)
              (prune_workers-Moves now t3)))

    placed : (t : State) → Moves s t → Moves s (scale m now (place_all m now t))
    placed t f =
        let p = place_all m now t in
        Moves-trans s t (scale m now p) f (
          Moves-trans t p (scale m now p) (place_all-Moves m now t (f.unique u))
            (unmoved-Moves p (scale m now p) (allocations-scale m now p)))

    assigned :
        (t : State) (r : Result State)
        → Moves s t
        → MovesTo t r
        → Commits {0} {A = Unit {0}} s (r >>= λ v. ok (scale m now (place_all m now v), tt))
    assigned t (ok v) f g = placed v (Moves-trans s t v f g)
    assigned t (err e) f g = tt

    leased :
        (r : Result State)
        → acquire_lease m now s ≡ r
        → Commits {0} {A = Unit {0}} s (
            r >>= λ t.
            assign_all m now (before_rooms t) >>= λ v. ok (scale m now (place_all m now v), tt))
    leased (ok t) e =
        assigned (before_rooms t) (assign_all m now (before_rooms t))
          (Moves-trans s t (before_rooms t)
            (unmoved-Moves s t (allocations-acquire_lease m now s t e)) (prepared t))
          (assign_all-Moves m now (before_rooms t))
    leased (err e) h = tt
