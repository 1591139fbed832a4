-- ===== src/Provider/Stop.antt =====
-- An instance is stopped (`stop`, pkg/fleetmanager/lifecycle.go): a recheck, the call, and a read
-- that confirms it.
use nakama_playflow.Base.{
  ℕ, ◌+◌, Bool, not, ◌&&◌, ◌||◌, none, some, text_eq, ◌==◌, ltb, bytes, lookup, insert,
  if◌then◌else◌, Result, ok, err, Error,
}
use nakama_playflow.State.{State, Worker, Status, Fault, status_eq, occupied}
use nakama_playflow.Manager.{Manager, work_finished}
use nakama_playflow.Lifecycle.{holds_lease, stopped}
use nakama_playflow.Provider.Instances.{Instance, Answer, success, failure, status_is, owned}

-- The clock is read once for the lease and once for the heartbeat.
abbrev pub may_stop : Manager → ℕ → Worker → Worker → State → Result (State × Unit {0})
may_stop m later snapshot w s =
    if not (w.state == Status.stopping) || not (w.provider_id == snapshot.provider_id)
    then err Error.busy
    else if w.draining
        && (not w.drain_ack
            || ltb 0 (occupied s snapshot.id)
            || ltb 0 w.player_count
            || not (work_finished w.metrics)
            || ltb (w.last_heartbeat + m.cfg.heartbeat_timeout) later)
    then err Error.busy
    else ok (s, tt)

-- The recheck before the provider is asked to stop the instance of the snapshot.
unfoldable pub stop_check : Manager → ℕ → ℕ → Worker → State → Result (State × Unit {0})
stop_check m now later snapshot s =
    if not (holds_lease m now s)
    then err Error.lease_held
    else elim (lookup snapshot.id s.workers) [
      | none ↦ err Error.busy
      | some w ↦ may_stop m later snapshot w s
    ]

abbrev pub note_stop_failed : Manager → ℕ → Worker → Worker → State → State
note_stop_failed m now snapshot w s = record s {
  workers =
      insert snapshot.id
        (record w {
          error = Fault.provider_stop_failed;
          next_check_at = now + m.cfg.provider_poll_seconds;
        })
        s.workers;
}

-- The transaction after a stop that failed.
unfoldable pub stop_failed : Manager → ℕ → Worker → State → Result (State × Unit {0})
stop_failed m now snapshot s =
    if not (s.leader == m.owner) then ok (s, tt) else elim (lookup snapshot.id s.workers) [
      | none ↦ err Error.nil_pointer
      | some w ↦ ok (note_stop_failed m now snapshot w s, tt)
    ]

abbrev pub confirms_stop : Manager → Worker → Answer Instance → Bool
confirms_stop m snapshot (success i) = i.status == bytes "stopped" && owned m i snapshot
confirms_stop m snapshot (failure e) = status_is 404 e

abbrev pub confirm_stop : Manager → ℕ → Worker → Answer Instance → Worker → State → State
confirm_stop m now snapshot read w s =
    let w' = record w { next_check_at = now + m.cfg.provider_poll_seconds } in
    if confirms_stop m snapshot read then stopped snapshot.id w' now s else record s {
      workers =
          insert snapshot.id (record w' { error = Fault.awaiting_stop_confirmation }) s.workers;
    }

-- The transaction after the read that follows a stop that succeeded.
unfoldable pub stop_end : Manager → ℕ → Worker → Answer Instance → State → Result (State × Unit {0})
stop_end m now snapshot read s =
    if not (s.leader == m.owner) then ok (s, tt) else elim (lookup snapshot.id s.workers) [
      | none ↦ err Error.nil_pointer
      | some w ↦ ok (confirm_stop m now snapshot read w s, tt)
    ]
