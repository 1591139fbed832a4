-- ===== src/Manager/Calls.antt =====
-- The calls of the FleetManager interface that change the state (pkg/fleetmanager/manager.go). Each is
-- one transaction, `Name.run`, of which `Name` makes the call; a body that fails changes nothing.
use nakama_playflow.Base.{
  ℕ, ◌*◌, ◌/◌, ◌%◌, not, ◌&&◌, ◌||◌, List, [], ◌∷◌, ◌++◌, Option, none, some, Text, text_eq, ◌==◌,
  nat_eq, leb, ltb, length, lookup, insert, exists, if◌then◌else◌, Result, ok, err, Error, ◌>>=◌,
  ◌>>◌, guard, ℤ, bytes,
}
use nakama_playflow.State.{
  State, Worker, Allocation, Session, Status, Phase, Reason, terminal, phase_eq, status_eq,
  occupied, is_not_blocked,
}
use nakama_playflow.State.Store.{update}
use nakama_playflow.Manager.Users.{valid_users, contains}
use nakama_playflow.Manager.Requests.{allocation}
use nakama_playflow.Manager.Core.{
  Manager, cancel_at, new_worker, live_count, reserve, eligible, begin_drain, drainable,
  work_finished,
}

-- `Allocate`.
unfoldable pub allocate_run : Manager → List Text → Text → ℕ → State → Result (State × Text)
allocate_run m users key now s = do
  answer ← allocation m.fresh users key now m.cfg.allocation_timeout s
  ok (answer.0, answer.1.1.id)

unfoldable pub allocate : Manager → List Text → Text → ℕ → State → State × Result Text
allocate m users key now s = update s (allocate_run m users key now)

-- `Cancel`.
unfoldable pub cancel_run : Manager → Text → Text → ℕ → State → Result (State × Unit {0})
cancel_run m user allocation_id now s = elim (lookup allocation_id s.allocations) [
  | none ↦ err Error.not_found
  | some a ↦
      if not (contains a.user_ids user)
      then err Error.forbidden
      else if terminal a.state || a.state == Phase.cancelling
      then ok (s, tt)
      else if a.state == Phase.active
      then err Error.busy
      else ok (cancel_at m allocation_id a Reason.cancelled now s, tt)
]

unfoldable pub cancel : Manager → Text → Text → ℕ → State → State × Result (Unit {0})
cancel m user allocation_id now s = update s (cancel_run m user allocation_id now)

-- `Create` gives a new instance its first room: the allocation prefers the worker, and the worker
-- names the allocation.
abbrev pub adopt_room : Text → Worker → State × (Text × Allocation) → State × Text
adopt_room wid w (s, (aid, a)) = (
  record s {
    allocations = insert aid (record a { preferred_worker_id = w.id }) s.allocations;
    workers = insert wid (record w { initial_allocation_id = a.id }) s.workers;
  },
  w.id,
)

abbrev pub open_room : Manager → List Text → ℕ → State × Worker → Result (State × Text)
open_room m users now (s, w) =
    if leb (length users) 0
    then ok (s, w.id)
    else (allocation m.fresh users (bytes "create:" ++ w.id) now m.cfg.allocation_timeout s
        >>= λ answer. ok (adopt_room w.id w answer))

unfoldable pub create_run : Manager → ℕ → List Text → ℕ → State → Result (State × Text)
create_run m max_players users now s = do
  guard (ltb (live_count s) m.cfg.max_instances && is_not_blocked s.creation_blocked_reason)
      Error.busy
  open_room m users now (new_worker m now (max_players / 2) s)

-- `Create`, of which the callback that Nakama passes is kept outside the state. A negative number of
-- players is below 2. `regions` are those of the players' latencies.
unfoldable pub create : Manager → ℤ → List Text → List Text → ℕ → State → State × Result Text
create m (ℤ.negsuc n) users regions now s = (s, err Error.invalid)
create m (ℤ.pos max_players) users regions now s =
    if ltb max_players 2 || not (max_players % 2 == 0) || ltb (m.cfg.max_rooms * 2) max_players
    then (s, err Error.invalid)
    else if ltb 0 (length users) && not (valid_users users)
    then (s, err Error.invalid)
    else if exists (λ region. not (region == m.cfg.region)) regions
    then (s, err Error.invalid)
    else update s (create_run m max_players users now)

-- `JoinInfo`, the instance by its record and the sessions by user and identifier.
pub record JoinInfo : Type 0 where
  pub instance_info : Worker
  pub session_info : List (Text × Text)

unfoldable pub session_info : List Session → List (Text × Text)
session_info [] = []
session_info (s ∷ sessions) = (s.user_id, s.id) ∷ session_info sessions

abbrev pub join_answer : Text → Worker → State → Option Allocation → Result (State × JoinInfo)
join_answer allocation_id w s none = err Error.nil_pointer
join_answer allocation_id w s (some a) =
    ok (s, record { instance_info = w; session_info = session_info a.sessions })

-- `Join`, which reads the clock once for each of its two tests.
unfoldable pub join_run :
    Manager → Text → List Text → Text → ℕ → ℕ → State → Result (State × JoinInfo)
join_run m worker_id users allocation_id now now' s = elim (lookup allocation_id s.allocations) [
  | none ↦ err Error.not_found
  | some a ↦ elim (lookup worker_id s.workers) [
    | none ↦ err Error.not_found
    | some w ↦ do
      guard (a.worker_id == worker_id) Error.forbidden
      guard (eligible m w now) Error.busy
      s' ← reserve m allocation_id a users now' m.cfg.reservation_ttl s
      join_answer allocation_id w s' (lookup allocation_id s'.allocations)
  ]
]

unfoldable pub join : Manager → Text → List Text → Text → ℕ → ℕ → State → State × Result JoinInfo
join m worker_id users allocation_id now now' s =
    update s (join_run m worker_id users allocation_id now now')

-- `Update`.
abbrev pub set_players : Text → Worker → ℤ → ℕ → State → Result (State × Unit {0})
set_players worker_id w (ℤ.negsuc n) entries s = err Error.invalid
set_players worker_id w (ℤ.pos n) entries s =
    if ltb (w.max_rooms * 2) n
    then err Error.invalid
    else if ltb 0 entries
    then err Error.invalid
    else ok (record s { workers = insert worker_id (record w { player_count = n }) s.workers }, tt)

-- `entries` is the number of entries of the metadata.
unfoldable pub update_run : Manager → Text → ℤ → ℕ → State → Result (State × Unit {0})
update_run m worker_id player_count entries s = elim (lookup worker_id s.workers) [
  | none ↦ err Error.not_found
  | some w ↦ set_players worker_id w player_count entries s
]

unfoldable pub update_players : Manager → Text → ℤ → ℕ → State → State × Result (Unit {0})
update_players m worker_id player_count entries s =
    update s (update_run m worker_id player_count entries)

-- `Delete`.
unfoldable pub delete_run : Manager → Text → ℕ → State → Result (State × Unit {0})
delete_run m worker_id now s = elim (lookup worker_id s.workers) [
  | none ↦ err Error.not_found
  | some w ↦
      if w.state == Status.stopped
      then ok (s, tt)
      else if not (drainable w)
          || ltb 0 (occupied s worker_id)
          || ltb 0 w.player_count
          || not (work_finished w.metrics)
      then err Error.busy
      else ok (begin_drain m worker_id w now s, tt)
]

unfoldable pub delete : Manager → Text → ℕ → State → State × Result (Unit {0})
delete m worker_id now s = update s (delete_run m worker_id now)

-- `Drain`.
unfoldable pub drain_run : Manager → Text → ℕ → State → Result (State × Unit {0})
drain_run m worker_id now s = elim (lookup worker_id s.workers) [
  | none ↦ err Error.not_found
  | some w ↦
      if w.state == Status.stopped
      then ok (s, tt)
      else if not (drainable w)
      then err Error.busy
      else ok (begin_drain m worker_id w now s, tt)
]

unfoldable pub drain : Manager → Text → ℕ → State → State × Result (Unit {0})
drain m worker_id now s = update s (drain_run m worker_id now)
