-- ===== src/Agent/Results.antt =====
-- The results of commands in a heartbeat (`heartbeatHTTP`, pkg/fleetmanager/http.go).
use nakama_playflow.Base.{
  ℕ, ◌+◌, ◌*◌, ◌^◌, min, true, false, not, ◌&&◌, ◌||◌, Option, none, some, Text, text_eq, ◌==◌,
  nat_eq, leb, lookup, insert, if◌then◌else◌, Result, ok, err, Error,
}
use nakama_playflow.State.{
  State, Worker, Allocation, Command, Phase, Order, Reason, phase_eq, order_eq,
}
use nakama_playflow.Manager.{Manager, cancel_at, cancelled_phase, eligible, finish, reserve, touch}
use nakama_playflow.Agent.Reports.{CommandResult}

abbrev pub close : Text → Command → State → State
close cid c s = record s { commands = insert cid (record c { done = true }) s.commands }

-- A prepared room is assigned at once if its worker may take players.
abbrev pub assign_now : Manager → ℕ → Text → Allocation → Worker → State → Result State
assign_now m now aid a w s =
    if eligible m w now then reserve m aid a a.user_ids now m.cfg.reservation_ttl s else ok s

abbrev pub confirm_room : Manager → ℕ → Text → Allocation → State → State
confirm_room m now aid a s = record s {
  allocations = insert aid (touch (record a { state = Phase.prepared })) s.allocations;
}

abbrev pub room_prepared : Manager → ℕ → Command → Text → Allocation → Worker → State → Result State
room_prepared m now c aid a w s =
    if leb c.expires_at now || w.draining
    then ok (cancel_at m aid a Reason.prepare_expired now s)
    else assign_now m now aid (touch (record a { state = Phase.prepared })) w
        (confirm_room m now aid a s)

-- What a command that succeeded does to its allocation.
abbrev pub settle_room : Manager → ℕ → Command → Text → Allocation → Worker → State → Result State
settle_room m now c aid a w s =
    if not (a.epoch == c.epoch)
    then ok s
    else if c.type == Order.prepare_room && a.state == Phase.preparing
    then room_prepared m now c aid a w s
    else if c.type == Order.cancel_room && a.state == Phase.cancelling
    then ok (record s {
      allocations = insert aid (finish a (cancelled_phase a.error) a.error now) s.allocations;
    })
    else ok s

abbrev pub settle_found : Manager → ℕ → Command → Worker → State → Option Allocation → Result State
settle_found m now c w s none = ok s
settle_found m now c w s (some a) = settle_room m now c c.allocation_id a w s

-- A drain that succeeded is noted on the worker.
abbrev pub note_drain : Text → Command → Worker → Worker
note_drain wid c w = if c.type == Order.drain then record w { drain_ack = true } else w

abbrev pub succeed : Manager → ℕ → Text → Text → Command → Worker → State → Result State
succeed m now wid cid c w s =
    let s1 = close cid c s in
    let w' = note_drain wid c w in
    let s2 = record s1 { workers = insert wid w' s1.workers } in
    settle_found m now c w' s2 (lookup c.allocation_id s2.allocations)

abbrev pub fail_found : Manager → ℕ → Command → State → Option Allocation → State
fail_found m now c s none = s
fail_found m now c s (some a) =
    if a.state == Phase.preparing
    then cancel_at m c.allocation_id a Reason.room_prepare_failed now s
    else s

-- A command is tried again under a new identifier, later each time.
abbrev pub retry : Text → ℕ → Command → Command
retry id now c = record c {
  id = id;
  done = false;
  attempts = c.attempts + 1;
  not_before = now + 2 * 2 ^ min (c.attempts + 1) 4;
  expires_at = now + 3600;
}

abbrev pub fail : Manager → ℕ → Text → Command → State → State
fail m now cid c s =
    let s1 = close cid c s in
    if c.type == Order.prepare_room
    then fail_found m now c s1 (lookup c.allocation_id s1.allocations)
    else record s1 {
      commands = insert (m.fresh s1.drawn) (retry (m.fresh s1.drawn) now c) s1.commands;
      drawn = s1.drawn + 1;
    }

abbrev pub apply_to : Manager → ℕ → Text → CommandResult → Worker → Command → State → Result State
apply_to m now wid result w c s =
    if not (c.worker_id == w.id)
    then err Error.forbidden
    else if c.done
    then ok s
    else if result.success
    then succeed m now wid result.command_id c w s
    else ok (fail m now result.command_id c s)

-- The body of the loop over the results.
unfoldable pub apply_result : Manager → ℕ → Text → CommandResult → State → Result State
apply_result m now wid result s = elim (lookup result.command_id s.commands) [
  | none ↦ err Error.forbidden
  | some c ↦ elim (lookup wid s.workers) [
    | none ↦ err Error.nil_pointer
    | some w ↦ apply_to m now wid result w c s
  ]
]
