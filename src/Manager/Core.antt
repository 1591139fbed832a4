-- ===== src/Manager/Core.antt =====
-- The steps from which the transactions are built (pkg/fleetmanager/manager.go and, for `eligible`,
-- pkg/fleetmanager/lifecycle.go).
use nakama_playflow.Base.{
  ℕ, ◌+◌, Bool, true, false, not, ◌&&◌, ◌||◌, List, [], ◌∷◌, Text, text_eq, ◌==◌, nat_eq, leb, ltb,
  is_empty, length, is_zero, ℤ, Float64, float_leb, num, ◌*◌, ◌^◌, insert, map_values, count_values,
  if◌then◌else◌, Result, ok, err, Error,
}
use nakama_playflow.Config.{Config}
use nakama_playflow.State.{
  State, Worker, Allocation, Command, Session, Metrics, Status, Phase, Order, Reason, Fault,
  terminal, phase_eq, status_eq, order_eq, is_cancelled,
}
use nakama_playflow.Manager.Users.{same_users}

-- What the methods read of `Manager`. `fresh n` is the n-th identifier that `id()` draws.
pub record Manager : Type 0 where
  pub cfg : Config
  pub owner : Text
  pub fresh : ℕ → Text

-- `FrameP99MS <= 100`, in units of 2 ^ -1074.
unfoldable pub frame_limit : Float64
frame_limit = num (100 * 2 ^ 1074)

-- `eligible`, with `now - t <= limit` written `now <= t + limit`.
unfoldable pub eligible : Manager → Worker → ℕ → Bool
unfolding frame_limit
eligible m w now =
    w.state == Status.ready
    && w.build_hash == m.cfg.build_hash
    && w.region == m.cfg.region
    && not w.draining
    && w.ready
    && not (is_empty w.host)
    && not (is_empty w.boot_id)
    && leb now (w.last_heartbeat + m.cfg.heartbeat_timeout)
    && float_leb w.metrics.simulation_oldest_seconds m.cfg.max_queue_age_seconds
    && float_leb w.metrics.frame_p99_ms frame_limit
    && (w.provider_expires_at == 0
        || ltb (now + m.cfg.min_lifetime_for_admission) w.provider_expires_at)

abbrev pub touch : Allocation → Allocation
touch a = record a { revision = a.revision + 1 }

abbrev pub finish : Allocation → Phase → Reason → ℕ → Allocation
finish a phase reason now = touch (record a { state = phase; error = reason; terminal_at = now })

abbrev pub withdraw : Text → Command → Command
withdraw allocation_id c =
    if c.allocation_id == allocation_id && c.type == Order.prepare_room
    then record c { done = true }
    else c

abbrev pub cancel_command : Manager → Text → Allocation → ℕ → Command
cancel_command m id a now = record {
  id = id;
  type = Order.cancel_room;
  worker_id = a.worker_id;
  room_id = a.room_id;
  allocation_id = a.id;
  epoch = a.epoch;
  user_ids = [];
  expires_at = now + m.cfg.prepare_timeout;
  done = false;
  attempts = 0;
  not_before = 0;
}

-- `phase` is cancelled if the player cancelled, else expired.
abbrev pub cancelled_phase : Reason → Phase
cancelled_phase reason = if is_cancelled reason then Phase.cancelled else Phase.expired

-- `cancel` on the allocation `a` under the key `aid`.
unfoldable pub cancel_at : Manager → Text → Allocation → Reason → ℕ → State → State
cancel_at m aid a reason now s =
    if terminal a.state || a.state == Phase.cancelling
    then s
    else if is_empty a.worker_id
    then record s {
      allocations = insert aid (finish a (cancelled_phase reason) reason now) s.allocations;
    }
    else record s {
      allocations =
          insert aid (touch (record a { state = Phase.cancelling; error = reason })) s.allocations;
      commands =
          insert (m.fresh s.drawn) (cancel_command m (m.fresh s.drawn) a now)
            (map_values (withdraw a.id) s.commands);
      drawn = s.drawn + 1;
    }

abbrev pub new_record : Manager → Text → ℕ → ℕ → Worker
new_record m id now max_rooms = record {
  id = id;
  provider_id = [];
  provider_expires_at = 0;
  boot_id = [];
  state = Status.requested;
  region = m.cfg.region;
  build_hash = m.cfg.build_hash;
  host = [];
  port = 0;
  max_rooms = max_rooms;
  created_at = now;
  updated_at = now;
  last_heartbeat = 0;
  last_sequence = 0;
  next_check_at = now;
  idle_since = 0;
  ready = false;
  draining = false;
  drain_ack = false;
  player_count = 0;
  metrics = record {
    simulation_pending = ℤ.pos 0;
    simulation_active = ℤ.pos 0;
    simulation_oldest_seconds = num 0;
    frame_p99_ms = num 0;
    memory_bytes = ℤ.pos 0;
    audit_pending = ℤ.pos 0;
    audit_active = ℤ.pos 0;
    pending_results = ℤ.pos 0;
  };
  error = Fault.healthy;
  initial_allocation_id = [];
}

unfoldable pub new_worker : Manager → ℕ → ℕ → State → State × Worker
new_worker m now max_rooms s =
    let id = m.fresh s.drawn in
    let w = new_record m id now max_rooms in
    (record s { workers = insert id w s.workers; drawn = s.drawn + 1 }, w)

abbrev pub counts_as_live : Worker → Bool
counts_as_live w =
    not (w.state == Status.stopped) && not (w.state == Status.failed && is_empty w.provider_id)

unfoldable pub live_count : State → ℕ
live_count s = count_values counts_as_live s.workers

-- The loop of `reserve` over `a.UserIDs`, from seat `i` on.
unfoldable pub seat_users : (ℕ → Text) → ℕ → ℕ → ℕ → List Text → List Session
seat_users fresh drawn expires_at i [] = []
seat_users fresh drawn expires_at i (user ∷ users) =
    record {
      id = fresh drawn;
      user_id = user;
      seat = i;
      expires_at = expires_at;
      connected = false;
      ever_connected = false;
      reconnect_until = 0;
    }
    ∷ seat_users fresh (drawn + 1) expires_at (i + 1) users

-- `reserve` on the allocation under the key `aid`.
unfoldable pub reserve : Manager → Text → Allocation → List Text → ℕ → ℕ → State → Result State
unfolding same_users
reserve m aid a users now ttl s =
    if not (same_users a.user_ids users)
    then err Error.forbidden
    else if a.state == Phase.assigned || a.state == Phase.active
    then ok s
    else if not (a.state == Phase.prepared)
    then err Error.busy
    else ok (record s {
      allocations =
          insert aid
            (touch (record a {
              state = Phase.assigned;
              sessions = seat_users m.fresh s.drawn (now + ttl) 0 a.user_ids;
              expires_at = now + ttl;
            }))
            s.allocations;
      drawn = s.drawn + length a.user_ids;
    })

abbrev pub drainable : Worker → Bool
drainable w = w.state == Status.ready || w.state == Status.suspect || w.state == Status.draining

abbrev pub work_finished : Metrics → Bool
work_finished metrics =
    is_zero metrics.simulation_active
    && is_zero metrics.simulation_pending
    && is_zero metrics.audit_active
    && is_zero metrics.audit_pending
    && is_zero metrics.pending_results

abbrev pub drain_command : Text → Worker → ℕ → Command
drain_command id w now = record {
  id = id;
  type = Order.drain;
  worker_id = w.id;
  room_id = [];
  allocation_id = [];
  epoch = 1;
  user_ids = [];
  expires_at = now + 3600;
  done = false;
  attempts = 0;
  not_before = 0;
}

-- `beginDrain` on the worker `w` under the key `wid`.
unfoldable pub begin_drain : Manager → Text → Worker → ℕ → State → State
begin_drain m wid w now s = if w.draining then s else record s {
  workers =
      insert wid (record w { draining = true; state = Status.draining; updated_at = now })
        s.workers;
  commands = insert (m.fresh s.drawn) (drain_command (m.fresh s.drawn) w now) s.commands;
  drawn = s.drawn + 1;
}
