-- ===== src/Evolution/Heartbeat.antt =====
-- Every transaction of an agent keeps allocations to their diagram (`bootstrapHTTP` and
-- `heartbeatHTTP`, pkg/fleetmanager/http.go).
use nakama_playflow.Base.{
  ℕ, inl, inr, not, [], Text, lookup, insert, Option-cases, if-cases, ok, each_ok, ◌==◌, ltb, ◌||◌,
  ◌&&◌, is_empty, text_eq,
}
use nakama_playflow.State.{State, Worker}
use nakama_playflow.Manager.{Manager}
use nakama_playflow.Lifecycle.{on_worker}
use nakama_playflow.Agent.{
  HeartbeatRequest, BootstrapRequest, apply_result, accept_report, refresh, reset_players,
  check_rooms, see_reports, beat, bootstrap_run, heartbeat_run, respond_for, is_dead,
}
use nakama_playflow.Evolution.Phases.{Steady-refl}
use nakama_playflow.Evolution.Steps.{Moves, Moves-trans}
use nakama_playflow.Evolution.Loops.{
  MovesTo, MovesTo-bind, MovesTo-next, Commits, Commits-bind, each_ok-Moves, on_worker-Moves,
}
use nakama_playflow.Evolution.Agent.{see_reports-Moves}
use nakama_playflow.Evolution.Results.{apply_result-Moves}

accept_report-Moves :
    (m : Manager) (input : HeartbeatRequest) (now : ℕ) (w : Worker) (s : State)
    → MovesTo s (accept_report m input now w s)
unfolding accept_report
accept_report-Moves m input now w s =
    MovesTo-bind s (check_rooms w.id s.allocations [] input.rooms) _ λ _.
      MovesTo-next s (each_ok (apply_result m now input.worker_id) input.command_results fresher)
        (λ t. ok (finished t))
        (each_ok-Moves (apply_result m now input.worker_id)
          (apply_result-Moves m now input.worker_id) input.command_results fresher)
        ends
  where
    fresher : State
    fresher = record s { workers = insert input.worker_id (refresh input now w) s.workers }

    finished : State → State
    finished t =
        see_reports m now input.worker_id w.id input.rooms
          (on_worker reset_players input.worker_id t)

    ends : (t : State) → Moves t (finished t)
    ends t =
        Moves-trans t (on_worker reset_players input.worker_id t) (finished t)
          (on_worker-Moves reset_players (λ i v u _. Steady-refl u.allocations) input.worker_id t)
          (see_reports-Moves m now input.worker_id w.id input.rooms
            (on_worker reset_players input.worker_id t))

beat-Moves :
    (m : Manager) (input : HeartbeatRequest) (now : ℕ) (w : Worker) (s : State)
    → MovesTo s (beat m input now w s)
beat-Moves m input now w s =
    if-cases (MovesTo s) (not (w.boot_id == input.boot_id) || is_dead w.state) (λ _. tt)
      (λ _.
        if-cases (MovesTo s) (ltb w.last_sequence input.sequence)
          (λ _. accept_report-Moves m input now w s) (λ _. Steady-refl s.allocations))

respond_for-Commits : (wid : Text) (now : ℕ) (s : State) → Commits s (respond_for wid now s)
respond_for-Commits wid now s = elim (Option-cases (lookup wid s.workers)) [
  | inl e ↦ rw (e, respond_for) tt
  | inr (w, e) ↦ rw (e, respond_for) (Steady-refl s.allocations)
]

pub heartbeat_run-Commits :
    (m : Manager) (input : HeartbeatRequest) (now : ℕ) (s : State)
    → Commits s (heartbeat_run m input now s)
unfolding heartbeat_run
heartbeat_run-Commits m input now s = elim (Option-cases (lookup input.worker_id s.workers)) [
  | inl e ↦ rw (e, heartbeat_run) tt
  | inr (w, e) ↦
      rw (e, heartbeat_run)
        (Commits-bind s (beat m input now w s) (respond_for input.worker_id now)
          (beat-Moves m input now w s) (respond_for-Commits input.worker_id now))
]

pub bootstrap_run-Commits :
    (input : BootstrapRequest) (s : State) → Commits s (bootstrap_run input s)
unfolding bootstrap_run
bootstrap_run-Commits input s = elim (Option-cases (lookup input.worker_id s.workers)) [
  | inl e ↦ rw (e, bootstrap_run) tt
  | inr (w, e) ↦
      rw (e, bootstrap_run)
        (if-cases (Commits {A = Unit {0}} s) (is_dead w.state) (λ _. tt)
          (λ _.
            if-cases (Commits {A = Unit {0}} s)
              (not (is_empty w.boot_id) && not (w.boot_id == input.boot_id)) (λ _. tt)
              (λ _. Steady-refl s.allocations)))
]
