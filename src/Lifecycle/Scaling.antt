-- ===== src/Lifecycle/Scaling.antt =====
-- The fleet grows and shrinks (the last loops of the transaction of `Tick`,
-- pkg/fleetmanager/lifecycle.go).
use nakama_playflow.Base.{
  ℕ, ◌+◌, ◌-◌, Bool, true, false, not, ◌&&◌, ◌||◌, List, [], ◌∷◌, none, some, Text, text_eq, ◌==◌,
  nat_eq, leb, ltb, is_empty, lookup, insert, keys, count_values, each, if◌then◌else◌,
}
use nakama_playflow.State.{
  State, Worker, Allocation, Status, Phase, phase_eq, status_eq, occupied, is_not_blocked,
}
use nakama_playflow.Manager.{Manager, begin_drain, live_count, new_worker, work_finished}
use nakama_playflow.Lifecycle.Watch.{on_worker}

-- `q`: the allocations that wait for any worker.
abbrev pub is_queued : Allocation → Bool
is_queued a = a.state == Phase.waiting_capacity && is_empty a.preferred_worker_id

abbrev pub queue_length : State → ℕ
queue_length s = count_values is_queued s.allocations

-- `ready`.
abbrev pub is_open : Worker → Bool
is_open w = w.state == Status.ready && not w.draining

abbrev pub open_count : State → ℕ
open_count s = count_values is_open s.workers

-- `bootCapacity`: the rooms of workers that still come up.
abbrev pub is_booting : Status → Bool
is_booting Status.requested = true
is_booting Status.starting = true
is_booting Status.launching = true
is_booting Status.bootstrapping = true
is_booting _ = false

unfoldable pub boot_capacity : Manager → ℕ → List (Text × Worker) → ℕ
boot_capacity m now [] = 0
boot_capacity m now ((wid, w) ∷ rest) =
    (if is_booting w.state && ltb now (w.created_at + m.cfg.launch_timeout) then w.max_rooms else 0)
    + boot_capacity m now rest

abbrev pub wants_worker : Manager → ℕ → State → Bool
wants_worker m now s =
    is_not_blocked s.creation_blocked_reason
    && leb s.next_create_at now
    && ltb (live_count s) m.cfg.max_instances
    && (ltb (boot_capacity m now s.workers) (queue_length s)
        || ltb (open_count s) m.cfg.min_instances && boot_capacity m now s.workers == 0)

unfoldable pub scale_up : Manager → ℕ → State → State
scale_up m now s =
    if wants_worker m now s
    then record (new_worker m now m.cfg.max_rooms s).0 { next_create_at = now + 1 }
    else s

-- An idle worker, with `ready` as it stands; `q` is computed before the loop.
abbrev pub idle_from : ℕ → Worker → Worker
idle_from now w = if w.idle_since == 0 then record w { idle_since = now } else w

abbrev pub rest_worker : Manager → ℕ → ℕ → Text → Worker → State × ℕ → State × ℕ
rest_worker m now q wid w (s, ready_left) =
    if is_open w
    then (if occupied s w.id == 0
        then (let w' = idle_from now w in
            let s' = record s { workers = insert wid w' s.workers } in
            if leb (w'.idle_since + m.cfg.idle_seconds) now
              && ltb m.cfg.min_instances ready_left
              && q == 0
            then (begin_drain m wid w' now s', ready_left - 1)
            else (s', ready_left))
        else (
          record s { workers = insert wid (record w { idle_since = 0 }) s.workers },
          ready_left,
        ))
    else (s, ready_left)

-- A drained worker is stopped only when nothing is left on it.
abbrev pub is_drained : Manager → ℕ → Worker → State → Bool
is_drained m now w s =
    w.state == Status.draining
    && w.drain_ack
    && occupied s w.id == 0
    && w.player_count == 0
    && work_finished w.metrics
    && leb now (w.last_heartbeat + m.cfg.heartbeat_timeout)

abbrev pub stop_drained : Manager → ℕ → Text → Worker → State → State
stop_drained m now wid w s =
    if is_drained m now w s
    then record s {
      workers = insert wid (record w { state = Status.stopping; next_check_at = now }) s.workers;
    }
    else s

abbrev pub rest_at : Manager → ℕ → ℕ → Text → State × ℕ → State × ℕ
rest_at m now q wid (s, ready_left) = elim (lookup wid s.workers) [
  | none ↦ (s, ready_left)
  | some w ↦ rest_worker m now q wid w (s, ready_left)
]

unfoldable pub settle_worker : Manager → ℕ → ℕ → Text → State × ℕ → State × ℕ
settle_worker m now q wid (s, ready_left) =
    let (s', left) = rest_at m now q wid (s, ready_left) in
    (on_worker (stop_drained m now) wid s', left)

unfoldable pub settle_all : Manager → ℕ → ℕ → ℕ → State → State
unfolding settle_worker
settle_all m now q ready_left s = (each (settle_worker m now q) (keys s.workers) (s, ready_left)).0
