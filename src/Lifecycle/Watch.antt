-- ===== src/Lifecycle/Watch.antt =====
-- The first loops of the transaction of `Tick`: workers that are late, allocations that ran out, and
-- old history (`Tick`, `stopped` and `lost` of pkg/fleetmanager/lifecycle.go).
use nakama_playflow.Base.{
  ℕ, ◌+◌, Bool, true, false, not, ◌&&◌, ◌||◌, Option, none, some, Text, text_eq, ◌==◌, nat_eq, leb,
  ltb, is_empty, lookup, insert, erase, map_values, drop_if, keys, exists_value, exists, each,
  if◌then◌else◌,
}
use nakama_playflow.State.{
  State, Worker, Allocation, Command, Session, Status, Phase, Reason, Fault, terminal, phase_eq,
  status_eq,
}
use nakama_playflow.Manager.{Manager, finish, cancel_at, begin_drain}

-- The body of a loop over a map, for the entry that it is at.
abbrev pub on_worker : (Text → Worker → State → State) → Text → State → State
on_worker body wid s = elim (lookup wid s.workers) [ none ↦ s | some w ↦ body wid w s ]

abbrev pub on_allocation : (Text → Allocation → State → State) → Text → State → State
on_allocation body aid s = elim (lookup aid s.allocations) [ none ↦ s | some a ↦ body aid a s ]

-- The allocations of a worker that is gone fail, and its commands are closed.
abbrev pub fail_on : Text → Reason → ℕ → Allocation → Allocation
fail_on worker_id reason now a =
    if a.worker_id == worker_id && not (terminal a.state)
    then finish a Phase.failed reason now
    else a

abbrev pub close_on : Text → Command → Command
close_on worker_id c = if c.worker_id == worker_id then record c { done = true } else c

unfoldable pub stopped : Text → Worker → ℕ → State → State
stopped wid w now s = record s {
  workers =
      insert wid
        (record w {
          state = Status.stopped;
          ready = false;
          error = Fault.healthy;
          updated_at = now;
        })
        s.workers;
  allocations = map_values (fail_on w.id Reason.server_stopped now) s.allocations;
  commands = map_values (close_on w.id) s.commands;
}

unfoldable pub lost : Text → Worker → Fault → ℕ → State → State
lost wid w fault now s = record s {
  workers =
      insert wid (record w { state = Status.lost; ready = false; error = fault; updated_at = now })
        s.workers;
  allocations = map_values (fail_on w.id Reason.server_lost now) s.allocations;
  commands = map_values (close_on w.id) s.commands;
}

-- The four tests on a worker, in order. Each sees what the one before it wrote.
abbrev pub drain_expiring : Manager → ℕ → Text → Worker → State → State
drain_expiring m now wid w s =
    if w.state == Status.ready
      && ltb 0 w.provider_expires_at
      && leb w.provider_expires_at (now + m.cfg.min_lifetime_for_admission)
    then begin_drain m wid w now s
    else s

abbrev pub doubt_create : ℕ → Text → Worker → State → State
doubt_create now wid w s =
    if w.state == Status.starting && ltb (w.updated_at + 15) now
    then record s {
      workers =
          insert wid (record w { state = Status.unknown; error = Fault.interrupted_create })
            s.workers;
    }
    else s

abbrev pub suspect_late : Manager → ℕ → Text → Worker → State → State
suspect_late m now wid w s =
    if w.state == Status.ready && ltb (w.last_heartbeat + m.cfg.heartbeat_timeout) now
    then record s { workers = insert wid (record w { state = Status.suspect }) s.workers }
    else s

abbrev pub lose_silent : Manager → ℕ → Text → Worker → State → State
lose_silent m now wid w s =
    if ltb 0 w.last_heartbeat
      && ltb (w.last_heartbeat + m.cfg.lost_timeout) now
      && not (w.state == Status.stopped)
      && not (w.state == Status.failed)
      && not (w.state == Status.lost)
    then lost wid w Fault.agent_lost now s
    else s

unfoldable pub watch_worker : Manager → ℕ → Text → State → State
watch_worker m now wid s =
    let s1 = on_worker (drain_expiring m now) wid s in
    let s2 = on_worker (doubt_create now) wid s1 in
    let s3 = on_worker (suspect_late m now) wid s2 in on_worker (lose_silent m now) wid s3

-- Whether the worker that an allocation prefers is there and will not come up.
abbrev pub is_gone : Option Worker → Bool
is_gone none = false
is_gone (some w) = w.state == Status.failed || w.state == Status.lost || w.state == Status.stopped

abbrev pub preferred_gone : Allocation → State → Bool
preferred_gone a s =
    not (is_empty a.preferred_worker_id) && is_gone (lookup a.preferred_worker_id s.workers)

abbrev pub reconnect_over : ℕ → Session → Bool
reconnect_over now session = ltb 0 session.reconnect_until && leb session.reconnect_until now

-- The loop over the allocations; its inner loop cancels at the first session that ran out.
abbrev pub watch_allocation : Manager → ℕ → Text → Allocation → State → State
watch_allocation m now aid a s =
    if terminal a.state || a.state == Phase.cancelling
    then s
    else if preferred_gone a s
    then cancel_at m aid a Reason.server_failed now s
    else if a.state == Phase.active
    then (if exists (reconnect_over now) a.sessions
        then cancel_at m aid a Reason.reconnect_expired now s
        else s)
    else if leb a.expires_at now
    then cancel_at m aid a Reason.allocation_expired now s
    else s

-- Old terminal history.
abbrev pub is_old_allocation : ℕ → Allocation → Bool
is_old_allocation now a = terminal a.state && ltb (a.terminal_at + 86400) now

abbrev pub is_old_command : ℕ → Command → Bool
is_old_command now c = c.done && ltb (c.expires_at + 3600) now

unfoldable pub prune_history : ℕ → State → State
prune_history now s = record s {
  allocations = drop_if (is_old_allocation now) s.allocations;
  commands = drop_if (is_old_command now) s.commands;
}

abbrev pub awaits : Text → Allocation → Bool
awaits wid a = (a.worker_id == wid || a.preferred_worker_id == wid) && not (terminal a.state)

abbrev pub is_of : Text → Command → Bool
is_of wid c = c.worker_id == wid

abbrev pub prune_worker : ℕ → Text → Worker → State → State
prune_worker now wid w s =
    if (w.state == Status.stopped || w.state == Status.failed && is_empty w.provider_id)
      && ltb (w.updated_at + 86400) now
    then (if exists_value (awaits wid) s.allocations
        then s
        else record s { workers = erase wid s.workers; commands = drop_if (is_of wid) s.commands })
    else s

unfoldable pub watch_workers : Manager → ℕ → State → State
unfolding watch_worker
watch_workers m now s = each (watch_worker m now) (keys s.workers) s

unfoldable pub watch_allocations : Manager → ℕ → State → State
watch_allocations m now s = each (on_allocation (watch_allocation m now)) (keys s.allocations) s

unfoldable pub prune_workers : ℕ → State → State
prune_workers now s = each (on_worker (prune_worker now)) (keys s.workers) s
