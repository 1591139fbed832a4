-- ===== src/Evolution/Provider.antt =====
-- The transactions around the provider's calls keep allocations to their diagram.
use nakama_playflow.Base.{
  ℕ, inl, inr, not, List, Option, none, some, Text, lookup, insert, Option-cases, if-cases, Result,
  ok, err, ◌==◌, ltb, leb, bytes, ◌+◌, ◌&&◌, ◌||◌, text_eq, Error,
}
use nakama_playflow.State.{State, Worker, Status, Fault, status_eq, occupied}
use nakama_playflow.Manager.{Manager, work_finished}
use nakama_playflow.Lifecycle.{holds_lease}
use nakama_playflow.Provider.{
  Instance, Answer, Readings, success, failure, provider_lifetime, start_begin, begin_start,
  start_end, note_start, reconcile_unknown, reconcile_at, poll, poll_at, poll_answer, poll_instance,
  poll_worker, may_stop, stop_check, stop_failed, stop_end, confirm_stop, confirms_stop,
  note_stop_failed, ttl_seconds, outcome_unknown, status_is, owned,
}
use nakama_playflow.Evolution.Phases.{Steady-refl}
use nakama_playflow.Evolution.Steps.{Moves, Moves-trans, stopped-Moves, lost-Moves}
use nakama_playflow.Evolution.Loops.{Commits}

-- A transaction under a test on the leader, on a worker that has to be there.
module _ (s : State) (wid : Text) (body : Worker → Result (State × Unit {0})) (absent : Error) where
  abbrev at_worker : Result (State × Unit {0})
  at_worker = elim (lookup wid s.workers) [ none ↦ err absent | some w ↦ body w ]

  at_worker-Commits : ((w : Worker) → Commits s (body w)) → Commits s at_worker
  at_worker-Commits h = elim (Option-cases (lookup wid s.workers)) [
    | inl e ↦ rw (e, at_worker) tt
    | inr (w, e) ↦ rw (e, at_worker) (h w)
  ]

provider_lifetime-Moves :
    (m : Manager) (now : ℕ) (wid : Text) (w : Worker) (i : Instance) (s : State)
    → Moves s (provider_lifetime m now wid w i s)
unfolding provider_lifetime
provider_lifetime-Moves m now wid w i s =
    if-cases (Moves s) (leb (ttl_seconds i.ttl) 0) (λ _. Steady-refl s.allocations)
      (λ _.
        if-cases (Moves s)
          (leb (ttl_seconds i.ttl) (m.cfg.min_lifetime_for_admission + m.cfg.launch_timeout))
          (λ _. Steady-refl s.allocations) (λ _. Steady-refl s.allocations))

pub start_begin-Commits :
    (m : Manager) (now : ℕ) (wid : Text) (s : State) → Commits s (start_begin m now wid s)
unfolding start_begin
start_begin-Commits m now wid s =
    if-cases (Commits {A = Unit {0}} s) (not (holds_lease m now s)) (λ _. tt)
      (λ _.
        at_worker-Commits s wid (λ w. begin_start now wid w s) Error.nil_pointer
          (λ w.
            if-cases (Commits {A = Unit {0}} s) (not (w.state == Status.requested)) (λ _. tt)
              (λ _. Steady-refl s.allocations)))

note_start-Moves :
    (m : Manager) (now : ℕ) (later : Readings) (wid : Text) (w : Worker) (result : Answer Instance)
    (s : State)
    → Moves s (note_start m now later wid w result s)
note_start-Moves m now later wid w (failure e) s =
    if-cases (Moves s) (outcome_unknown e) (λ _. Steady-refl s.allocations)
      (λ _. Steady-refl s.allocations)
note_start-Moves m now later wid w (success i) s =
    let w' = record w {
      updated_at = later.updated;
      provider_id = i.instance_id;
      state = Status.launching;
      next_check_at = later.checked;
    } in
    provider_lifetime-Moves m later.ended wid w' i (record s { workers = insert wid w' s.workers })

pub start_end-Commits :
    (m : Manager) (now : ℕ) (later : Readings) (wid : Text) (result : Answer Instance) (s : State)
    → Commits s (start_end m now later wid result s)
unfolding start_end
start_end-Commits m now later wid result s =
    if-cases (Commits {A = Unit {0}} s) (not (s.leader == m.owner)) (λ _. Steady-refl s.allocations)
      (λ _.
        at_worker-Commits s wid (λ w. ok (note_start m now later wid w result s, tt))
          Error.nil_pointer (λ w. note_start-Moves m now later wid w result s))

pub reconcile_unknown-Commits :
    (m : Manager) (now : ℕ) (snapshot : Worker) (listed : Answer (List Instance)) (s : State)
    → Commits s (reconcile_unknown m now snapshot listed s)
unfolding reconcile_unknown
reconcile_unknown-Commits m now snapshot listed s =
    if-cases (Commits {A = Unit {0}} s) (not (s.leader == m.owner)) (λ _. Steady-refl s.allocations)
      (λ _.
        at_worker-Commits s snapshot.id (λ w. ok (reconcile_at m now snapshot listed w s, tt))
          Error.nil_pointer
          (λ w.
            if-cases (Moves s) (not (w.state == Status.unknown)) (λ _. Steady-refl s.allocations)
              (λ _. Steady-refl s.allocations)))

poll_worker-Moves :
    (m : Manager) (now : ℕ) (i : Instance) (wid : Text) (w : Worker) (s : State)
    → Moves s (poll_worker m now i wid w s)
poll_worker-Moves m now i wid w s =
    if-cases (Moves s) (w.state == Status.stopping) (λ _. still)
      (λ _.
        if-cases (Moves s) (i.status == bytes "stopped") (λ _. stopped-Moves wid w now s)
          (λ _.
            if-cases (Moves s) (w.state == Status.lost) (λ _. still)
              (λ _.
                if-cases (Moves s)
                  (leb (w.created_at + m.cfg.launch_timeout) now
                    && (w.state == Status.launching || w.state == Status.bootstrapping))
                  (λ _. still)
                  (λ _.
                    if-cases (Moves s) (i.status == bytes "running") (λ _. still) (λ _. still)))))
  where
    still : Moves s s
    still = Steady-refl s.allocations

abbrev poll_found : Manager → ℕ → Worker → Instance → State → Option Worker → State
poll_found m now snapshot i t o = elim o [
  | none ↦ t
  | some w' ↦ poll_worker m now i snapshot.id w' t
]

after_lifetime :
    (m : Manager) (now : ℕ) (snapshot : Worker) (i : Instance) (t : State) (o : Option Worker)
    → Moves t (poll_found m now snapshot i t o)
after_lifetime m now snapshot i t none = Steady-refl t.allocations
after_lifetime m now snapshot i t (some w) = poll_worker-Moves m now i snapshot.id w t

poll_instance-Moves :
    (m : Manager) (now : ℕ) (snapshot : Worker) (i : Instance) (w : Worker) (s : State)
    → Moves s (poll_instance m now snapshot i w s)
poll_instance-Moves m now snapshot i w s =
    if-cases (Moves s) (not (owned m i snapshot))
      (λ _. lost-Moves snapshot.id w Fault.provider_ownership_mismatch now s)
      (λ _.
        let t = provider_lifetime m now snapshot.id w i s in
        Moves-trans s t (poll_found m now snapshot i t (lookup snapshot.id t.workers))
          (provider_lifetime-Moves m now snapshot.id w i s)
          (after_lifetime m now snapshot i t (lookup snapshot.id t.workers)))

poll_answer-Moves :
    (m : Manager) (now : ℕ) (snapshot : Worker) (result : Answer Instance) (w : Worker) (s : State)
    → Moves s (poll_answer m now snapshot result w s)
poll_answer-Moves m now snapshot (failure e) w s =
    if-cases (Moves s) (status_is 404 e) (λ _. stopped-Moves snapshot.id w now s)
      (λ _. Steady-refl s.allocations)
poll_answer-Moves m now snapshot (success i) w s = poll_instance-Moves m now snapshot i w s

pub poll-Commits :
    (m : Manager) (now : ℕ) (snapshot : Worker) (result : Answer Instance) (s : State)
    → Commits s (poll m now snapshot result s)
unfolding poll
poll-Commits m now snapshot result s =
    if-cases (Commits {A = Unit {0}} s) (not (s.leader == m.owner)) (λ _. Steady-refl s.allocations)
      (λ _.
        at_worker-Commits s snapshot.id (λ w. ok (poll_at m now snapshot result w s, tt))
          Error.nil_pointer
          (λ w.
            if-cases (Moves s) (not (w.provider_id == snapshot.provider_id))
              (λ _. Steady-refl s.allocations)
              (λ _.
                let w' = record w { next_check_at = now + m.cfg.provider_poll_seconds } in
                poll_answer-Moves m now snapshot result w'
                  (record s { workers = insert snapshot.id w' s.workers }))))

pub stop_check-Commits :
    (m : Manager) (now later : ℕ) (snapshot : Worker) (s : State)
    → Commits s (stop_check m now later snapshot s)
unfolding stop_check
stop_check-Commits m now later snapshot s =
    if-cases (Commits {A = Unit {0}} s) (not (holds_lease m now s)) (λ _. tt)
      (λ _.
        at_worker-Commits s snapshot.id (λ w. may_stop m later snapshot w s) Error.busy
          (λ w.
            if-cases (Commits {A = Unit {0}} s)
              (not (w.state == Status.stopping) || not (w.provider_id == snapshot.provider_id))
              (λ _. tt)
              (λ _.
                if-cases (Commits {A = Unit {0}} s)
                  (w.draining
                    && (not w.drain_ack
                        || ltb 0 (occupied s snapshot.id)
                        || ltb 0 w.player_count
                        || not (work_finished w.metrics)
                        || ltb (w.last_heartbeat + m.cfg.heartbeat_timeout) later))
                  (λ _. tt) (λ _. Steady-refl s.allocations))))

pub stop_failed-Commits :
    (m : Manager) (now : ℕ) (snapshot : Worker) (s : State)
    → Commits s (stop_failed m now snapshot s)
unfolding stop_failed
stop_failed-Commits m now snapshot s =
    if-cases (Commits {A = Unit {0}} s) (not (s.leader == m.owner)) (λ _. Steady-refl s.allocations)
      (λ _.
        at_worker-Commits s snapshot.id (λ w. ok (note_stop_failed m now snapshot w s, tt))
          Error.nil_pointer (λ w. Steady-refl s.allocations))

pub stop_end-Commits :
    (m : Manager) (now : ℕ) (snapshot : Worker) (read : Answer Instance) (s : State)
    → Commits s (stop_end m now snapshot read s)
unfolding stop_end
stop_end-Commits m now snapshot read s =
    if-cases (Commits {A = Unit {0}} s) (not (s.leader == m.owner)) (λ _. Steady-refl s.allocations)
      (λ _.
        at_worker-Commits s snapshot.id (λ w. ok (confirm_stop m now snapshot read w s, tt))
          Error.nil_pointer
          (λ w.
            if-cases (Moves s) (confirms_stop m snapshot read)
              (λ _.
                stopped-Moves snapshot.id
                  (record w { next_check_at = now + m.cfg.provider_poll_seconds }) now s)
              (λ _. Steady-refl s.allocations)))
