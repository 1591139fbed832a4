-- ===== src/Agent/Replay.antt =====
-- A heartbeat that is sent again (`heartbeatHTTP`, pkg/fleetmanager/http.go).
use nakama_playflow.Base.{
  ℕ, ◌≡◌, refl, inl, inr, true, false, not, ◌||◌, [], some, Text, text_eq, arith, lookup, insert,
  Option-cases, if-cases, subst, ◌==◌, ltb, each_ok, nat_eq, Result, ok, err, ◌>>=◌, >>=-eq-ok,
}
use nakama_playflow.State.{State, Worker, phase_eq, order_eq, status_eq}
use nakama_playflow.Manager.{Manager}
use nakama_playflow.Lifecycle.{on_worker}
use nakama_playflow.Agent.Reports.{HeartbeatRequest}
use nakama_playflow.Agent.Rooms.{check_rooms, see_reports}
use nakama_playflow.Agent.Results.{apply_result}
use nakama_playflow.Agent.Heartbeat.{
  HeartbeatResponse, is_dead, refresh, reset_players, accept_report, respond, respond_for, beat,
  heartbeat_run,
}
use nakama_playflow.Agent.Heard.{
  Heard, HeardTo, Heard-write, apply_result-Heard, each_ok-Heard, see_reports-Heard, reset-Heard,
  refresh-IsHeard,
}

HeardTo-bind {ℓ} :
    {A : Type ℓ} (wid boot_id : Text) (sequence : ℕ) (r : Result A) (f : A → Result State)
    → ((a : A) → HeardTo wid boot_id sequence (f a))
    → HeardTo wid boot_id sequence (r >>= f)
HeardTo-bind wid boot_id sequence (ok a) f h = h a
HeardTo-bind wid boot_id sequence (err e) f h = tt

HeardTo-then :
    (wid boot_id : Text) (sequence : ℕ) (r : Result State) (f : State → State)
    → HeardTo wid boot_id sequence r
    → ((t : State) → Heard wid boot_id sequence t → Heard wid boot_id sequence (f t))
    → HeardTo wid boot_id sequence (r >>= λ t. ok (f t))
HeardTo-then wid boot_id sequence (ok t) f h g = g t h
HeardTo-then wid boot_id sequence (err e) f h g = tt

module _ (m : Manager) (input : HeartbeatRequest) (now : ℕ) where
  abbrev Sent : State → Type 0
  Sent = Heard input.worker_id input.boot_id input.sequence

  abbrev SentTo : Result State → Type 0
  SentTo = HeardTo input.worker_id input.boot_id input.sequence

  accept_report-Sent :
      (w : Worker) (s : State)
      → (w.boot_id == input.boot_id) ≡ true
      → is_dead w.state ≡ false
      → SentTo (accept_report m input now w s)
  unfolding accept_report
  accept_report-Sent w s b d =
      HeardTo-bind input.worker_id input.boot_id input.sequence
        (check_rooms w.id s.allocations [] input.rooms) _
        λ _.
          HeardTo-then input.worker_id input.boot_id input.sequence
            (each_ok (apply_result m now input.worker_id) input.command_results fresher) finished
            (each_ok-Heard input.worker_id input.boot_id input.sequence
              (apply_result m now input.worker_id)
              (apply_result-Heard input.worker_id input.boot_id input.sequence m now)
              input.command_results fresher
              (Heard-write input.worker_id input.boot_id input.sequence (refresh input now w) s
                (refresh-IsHeard input now w b d)))
            (λ t h.
              see_reports-Heard input.worker_id input.boot_id input.sequence m now w.id input.rooms
                (on_worker reset_players input.worker_id t)
                (reset-Heard input.worker_id input.boot_id input.sequence t h))
    where
      fresher : State
      fresher = record s { workers = insert input.worker_id (refresh input now w) s.workers }

      finished : State → State
      finished t =
          see_reports m now input.worker_id w.id input.rooms
            (on_worker reset_players input.worker_id t)

  beat-Sent :
      (w : Worker) (s : State)
      → lookup input.worker_id s.workers ≡ some w
      → SentTo (beat m input now w s)
  beat-Sent w s e =
      if-cases SentTo (not (w.boot_id == input.boot_id) || is_dead w.state) (λ _. tt)
        (λ f.
          if-cases SentTo (ltb w.last_sequence input.sequence)
            (λ _. accept_report-Sent w s (ground arith) (ground arith))
            (λ o. (w, e, (ground arith, ground arith, o))))

  respond_for-Sent :
      (s t : State) (r : HeartbeatResponse)
      → Sent s
      → respond_for input.worker_id now s ≡ ok (t, r)
      → Sent t
  respond_for-Sent s t r (w, e, h) g = subst Sent (same (rw (respond_for, e) at g)) (w, e, h)
    where
      same :
          {q : HeartbeatResponse}
          → ◌≡◌ {A = Result (State × HeartbeatResponse)} (ok (s, q)) (ok (t, r))
          → s ≡ t
      same k = cc

  heartbeat_run-Sent :
      (s t : State) (r : HeartbeatResponse) → heartbeat_run m input now s ≡ ok (t, r) → Sent t
  unfolding heartbeat_run
  heartbeat_run-Sent s t r h = elim (Option-cases (lookup input.worker_id s.workers)) [
    | inl e ↦ cc (rw (heartbeat_run, e) at h)
    | inr (w, e) ↦ reached w e (rw (heartbeat_run, e) at h)
  ]
    where
      reached :
          (w : Worker)
          → lookup input.worker_id s.workers ≡ some w
          → (beat m input now w s >>= respond_for input.worker_id now) ≡ ok (t, r)
          → Sent t
      reached w e g =
          let (u, b, k) = >>=-eq-ok (beat m input now w s) (respond_for input.worker_id now) g in
          respond_for-Sent u t r (subst SentTo b (beat-Sent w s e)) k

answered :
    (other : Manager) (input : HeartbeatRequest) (now' : ℕ) (t : State) (w : Worker)
    → lookup input.worker_id t.workers ≡ some w
    → (w.boot_id == input.boot_id) ≡ true
    → is_dead w.state ≡ false
    → ltb w.last_sequence input.sequence ≡ false
    → heartbeat_run other input now' t ≡ ok (t, respond now' t w)
unfolding heartbeat_run
answered other input now' t w e b d o = rw (heartbeat_run, e, b, d, o, respond_for, e) refl

-- A heartbeat that was answered, sent again before another transaction, at whatever time and to
-- whichever process, is answered again and changes nothing.
pub heartbeat_run-replay :
    (m other : Manager) (input : HeartbeatRequest) (now now' : ℕ) (s t : State)
    (r : HeartbeatResponse)
    → heartbeat_run m input now s ≡ ok (t, r)
    → (r' : HeartbeatResponse) × (heartbeat_run other input now' t ≡ ok (t, r'))
heartbeat_run-replay m other input now now' s t r h =
    let (w, e, (b, d, o)) = heartbeat_run-Sent m input now s t r h in
    (respond now' t w, answered other input now' t w e b d o)
