-- ===== src/Provider/Poll.antt =====
-- The provider is asked about a running instance (`poll`, pkg/fleetmanager/lifecycle.go).
use nakama_playflow.Base.{
  ℕ, ◌+◌, not, ◌&&◌, ◌||◌, none, some, Text, text_eq, ◌==◌, leb, is_empty, bytes, lookup, insert,
  if◌then◌else◌, Result, ok, err, Error,
}
use nakama_playflow.State.{State, Worker, Status, Fault, status_eq}
use nakama_playflow.Manager.{Manager}
use nakama_playflow.Lifecycle.{stopped, lost}
use nakama_playflow.Provider.Instances.{
  Instance, Answer, success, failure, status_is, owned, provider_lifetime, endpoint,
}

-- The state of a worker whose instance runs at a valid endpoint.
abbrev pub run_at : Manager → ℕ → Text → ℕ → Worker → Worker
run_at m now host port w =
    let w' = record w { host = host; port = port } in
    if w.ready && not (is_empty w.boot_id) && leb now (w.last_heartbeat + m.cfg.heartbeat_timeout)
    then record w' {
      state = (if w.draining then Status.draining else Status.ready);
      error = Fault.healthy;
    }
    else if w.state == Status.launching || w.state == Status.bootstrapping
    then record w' { state = Status.bootstrapping }
    else if not w.draining
    then record w' { state = Status.suspect }
    else w'

abbrev pub run_or_fault : Manager → ℕ → Worker → Result (Text × ℕ) → Worker
run_or_fault m now w (err e) = record w { error = Fault.invalid_provider_endpoint }
run_or_fault m now w (ok (host, port)) = run_at m now host port w

-- What follows `providerLifetime`, on the worker as it left it.
abbrev pub poll_worker : Manager → ℕ → Instance → Text → Worker → State → State
poll_worker m now i wid w s =
    if w.state == Status.stopping
    then s
    else if i.status == bytes "stopped"
    then stopped wid w now s
    else if w.state == Status.lost
    then s
    else if leb (w.created_at + m.cfg.launch_timeout) now
        && (w.state == Status.launching || w.state == Status.bootstrapping)
    then record s {
      workers =
          insert wid
            (record w {
              state = Status.stopping;
              error = Fault.launch_timeout;
              next_check_at = now;
            })
            s.workers;
    }
    else if i.status == bytes "running"
    then record s {
      workers =
          insert wid (run_or_fault m now w (endpoint m.cfg.port_name i.network_ports)) s.workers;
    }
    else s

abbrev pub poll_instance : Manager → ℕ → Worker → Instance → Worker → State → State
poll_instance m now snapshot i w s =
    if not (owned m i snapshot)
    then lost snapshot.id w Fault.provider_ownership_mismatch now s
    else (let s' = provider_lifetime m now snapshot.id w i s in
        elim (lookup snapshot.id s'.workers) [
          | none ↦ s'
          | some w' ↦ poll_worker m now i snapshot.id w' s'
        ])

abbrev pub poll_answer : Manager → ℕ → Worker → Answer Instance → Worker → State → State
poll_answer m now snapshot (failure e) w s =
    if status_is 404 e then stopped snapshot.id w now s else record s {
      workers = insert snapshot.id (record w { error = Fault.provider_query_failed }) s.workers;
    }
poll_answer m now snapshot (success i) w s = poll_instance m now snapshot i w s

abbrev pub poll_at : Manager → ℕ → Worker → Answer Instance → Worker → State → State
poll_at m now snapshot result w s =
    if not (w.provider_id == snapshot.provider_id)
    then s
    else (let w' = record w { next_check_at = now + m.cfg.provider_poll_seconds } in
        poll_answer m now snapshot result w'
          (record s { workers = insert snapshot.id w' s.workers }))

-- `snapshot` is the worker that was asked about.
unfoldable pub poll : Manager → ℕ → Worker → Answer Instance → State → Result (State × Unit {0})
poll m now snapshot result s =
    if not (s.leader == m.owner) then ok (s, tt) else elim (lookup snapshot.id s.workers) [
      | none ↦ err Error.nil_pointer
      | some w ↦ ok (poll_at m now snapshot result w s, tt)
    ]
