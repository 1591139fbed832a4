-- ===== src/Lifecycle/Placement.antt =====
-- Rooms are given to workers (the loops of `Tick` over the prepared and over the waiting
-- allocations, pkg/fleetmanager/lifecycle.go).
use nakama_playflow.Base.{
  ℕ, ◌+◌, Bool, true, false, ◌&&◌, ◌||◌, List, [], ◌∷◌, map, Option, none, some, Text, text_eq,
  text_ltb, ◌==◌, nat_eq, ltb, is_empty, lookup, insert, keys, keep, sort, each, each_ok,
  if◌then◌else◌, Result, ok,
}
use nakama_playflow.State.{State, Worker, Allocation, Command, Phase, Order, phase_eq, occupied}
use nakama_playflow.Manager.{Manager, eligible, reserve, touch}
use nakama_playflow.Lifecycle.Watch.{on_allocation}

abbrev pub assign_to : Manager → ℕ → Text → Allocation → State → Option Worker → Result State
assign_to m now aid a s none = ok s
assign_to m now aid a s (some w) =
    if eligible m w now then reserve m aid a a.user_ids now m.cfg.reservation_ttl s else ok s

-- A prepared room is assigned as soon as its worker may take players.
unfoldable pub assign_prepared : Manager → ℕ → Text → State → Result State
assign_prepared m now aid s = elim (lookup aid s.allocations) [
  | none ↦ ok s
  | some a ↦
      if a.state == Phase.prepared
      then assign_to m now aid a s (lookup a.worker_id s.workers)
      else ok s
]

-- The order of the queue: those that prefer a worker, then the oldest, then by identifier.
unfoldable pub before : Text × Allocation → Text × Allocation → Bool
before (i, a) (j, b) =
    if is_empty a.preferred_worker_id
    then (if is_empty b.preferred_worker_id
        then (if a.created_at == b.created_at
            then text_ltb a.id b.id
            else ltb a.created_at b.created_at)
        else false)
    else (if is_empty b.preferred_worker_id
        then true
        else (if a.created_at == b.created_at
            then text_ltb a.id b.id
            else ltb a.created_at b.created_at))

abbrev pub is_waiting : Text × Allocation → Bool
is_waiting (aid, a) = a.state == Phase.waiting_capacity

unfoldable pub waiting : State → List Text
unfolding before
waiting s = map (λ e. e.0) (sort before (keep is_waiting s.allocations))

-- The worker chosen so far, under its key, and how many rooms it has: `best` is -1 for none.
abbrev pub Choice : Type 0
Choice = Option (Text × Worker × ℕ)

-- A worker that may take the room of `a`, before its load is looked at.
abbrev pub suits : Manager → ℕ → Allocation → Worker → Bool
suits m now a w =
    eligible m w now && (is_empty a.preferred_worker_id || a.preferred_worker_id == w.id)

-- `n > best || n == best && (chosen == nil || w.ID < chosen.ID)`.
abbrev pub improves : Worker → ℕ → Choice → Bool
improves w n none = true
improves w n (some (cid, c, best)) = ltb best n || n == best && text_ltb w.id c.id

-- The loop over the workers.
unfoldable pub choose : Manager → ℕ → Allocation → State → List (Text × Worker) → Choice → Choice
choose m now a s [] chosen = chosen
choose m now a s ((wid, w) ∷ rest) chosen =
    let n = occupied s w.id in
    choose m now a s rest (
      if suits m now a w && (ltb n w.max_rooms && improves w n chosen)
      then some (wid, w, n)
      else chosen)

abbrev pub prepare_command : Text → Text → Allocation → ℕ → Command
prepare_command id worker_id a expires_at = record {
  id = id;
  type = Order.prepare_room;
  worker_id = worker_id;
  room_id = a.room_id;
  allocation_id = a.id;
  epoch = a.epoch;
  user_ids = a.user_ids;
  expires_at = expires_at;
  done = false;
  attempts = 0;
  not_before = 0;
}

-- The allocation `a` gets a room on the worker `w`.
unfoldable pub give_room : Manager → ℕ → Text → Allocation → Text → Worker → State → State
give_room m now aid a wid w s = record s {
  allocations =
      insert aid
        (touch (record a {
          worker_id = w.id;
          state = Phase.preparing;
          expires_at = now + m.cfg.prepare_timeout;
        }))
        s.allocations;
  workers = insert wid (record w { idle_since = 0 }) s.workers;
  commands =
      insert (m.fresh s.drawn)
        (prepare_command (m.fresh s.drawn) w.id a (now + m.cfg.prepare_timeout)) s.commands;
  drawn = s.drawn + 1;
}

abbrev pub give_chosen : Manager → ℕ → Text → Allocation → State → Choice → State
give_chosen m now aid a s none = s
give_chosen m now aid a s (some (wid, w, n)) = give_room m now aid a wid w s

abbrev pub place_allocation : Manager → ℕ → Text → Allocation → State → State
place_allocation m now aid a s = give_chosen m now aid a s (choose m now a s s.workers none)

unfoldable pub assign_all : Manager → ℕ → State → Result State
assign_all m now s = each_ok (assign_prepared m now) (keys s.allocations) s

unfoldable pub place_all : Manager → ℕ → State → State
place_all m now s = each (on_allocation (place_allocation m now)) (waiting s) s
