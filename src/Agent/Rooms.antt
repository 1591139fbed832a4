-- ===== src/Agent/Rooms.antt =====
-- The rooms of a heartbeat (`heartbeatHTTP`, pkg/fleetmanager/http.go): the checks on them, and what
-- they do to the allocations.
use nakama_playflow.Base.{
  ℕ, ◌+◌, Bool, true, false, not, ◌&&◌, ◌||◌, List, [], ◌∷◌, map, Option, none, some, Text, text_eq,
  ◌==◌, nat_eq, leb, length, bytes, lookup, insert, keys, each, if◌then◌else◌, Result, ok, err,
  Error, ◌>>=◌,
}
use nakama_playflow.State.{State, Allocation, Session, Phase, Reason, terminal, phase_eq}
use nakama_playflow.Manager.{Manager, contains, finish, touch}
use nakama_playflow.Lifecycle.{on_allocation}
use nakama_playflow.Agent.Reports.{RoomReport, valid_room_state}

-- The first allocation of the room on the worker.
unfoldable pub find_room : Text → Text → List (Text × Allocation) → Option Allocation
find_room room_id worker_id [] = none
find_room room_id worker_id ((aid, a) ∷ rest) =
    if a.room_id == room_id && a.worker_id == worker_id
    then some a
    else find_room room_id worker_id rest

-- The users of a room are users of its allocation, each named once.
unfoldable pub check_users : Allocation → List Text → List Text → Result (Unit {0})
check_users a seen [] = ok tt
check_users a seen (user ∷ users) =
    let rest = check_users a (user ∷ seen) users in
    if not (contains a.user_ids user) || contains seen user then err Error.forbidden else rest

abbrev pub check_found : RoomReport → Option Allocation → Result (Unit {0})
check_found room none = err Error.forbidden
check_found room (some a) =
    if valid_room_state room.state then check_users a [] room.user_ids else err Error.forbidden

unfoldable pub check_rooms :
    Text → List (Text × Allocation) → List Text → List RoomReport → Result (Unit {0})
unfolding find_room check_users
check_rooms worker_id allocations seen [] = ok tt
check_rooms worker_id allocations seen (room ∷ rooms) =
    let rest = check_rooms worker_id allocations (room.room_id ∷ seen) rooms in
    if contains seen room.room_id || not (leb (length room.user_ids) 2)
    then err Error.forbidden
    else (check_found room (find_room room.room_id worker_id allocations) >>= λ _. rest)

-- What a heartbeat says of a session.
abbrev pub see_session : ℕ → ℕ → List Text → Session → Session
see_session now reconnect_seconds users session =
    if contains users session.user_id
    then record session { ever_connected = true; reconnect_until = 0; connected = true }
    else if session.connected && session.reconnect_until == 0
    then record session { reconnect_until = now + reconnect_seconds; connected = false }
    else record session { connected = false }

-- The room starts once all its users are there.
abbrev pub see_players : Manager → ℕ → RoomReport → Allocation → Allocation
see_players m now room a =
    let seen = record a {
      sessions = map (see_session now m.cfg.reconnect_seconds room.user_ids) a.sessions;
    } in
    if room.state == bytes "playing"
      && length room.user_ids == length a.user_ids
      && a.state == Phase.assigned
    then touch (record seen { state = Phase.active })
    else seen

-- The body of the loop over the allocations for one room: the allocation, and whether the players
-- of the room count.
abbrev pub see_room : Manager → ℕ → RoomReport → Allocation → Allocation × Bool
see_room m now room a =
    if room.state == bytes "closed"
    then (if a.state == Phase.active || a.state == Phase.assigned
        then (finish a Phase.completed Reason.none_given now, false)
        else (a, false))
    else if a.state == Phase.assigned || a.state == Phase.active
    then (see_players m now room a, true)
    else (a, true)

abbrev pub add_players : Text → ℕ → State → State
add_players wid n s = elim (lookup wid s.workers) [
  | none ↦ s
  | some w ↦ record s {
    workers = insert wid (record w { player_count = w.player_count + n }) s.workers;
  }
]

abbrev pub see_allocation :
    Manager → ℕ → Text → Text → RoomReport → Text → Allocation → State → State
see_allocation m now wid worker_id room aid a s =
    if not (a.room_id == room.room_id) || not (a.worker_id == worker_id) || terminal a.state
    then s
    else (let (a', counted) = see_room m now room a in
        let s' = record s { allocations = insert aid a' s.allocations } in
        if counted then add_players wid (length room.user_ids) s' else s')

unfoldable pub see_report : Manager → ℕ → Text → Text → RoomReport → State → State
see_report m now wid worker_id room s =
    each (on_allocation (see_allocation m now wid worker_id room)) (keys s.allocations) s

unfoldable pub see_reports : Manager → ℕ → Text → Text → List RoomReport → State → State
unfolding see_report
see_reports m now wid worker_id rooms s = each (see_report m now wid worker_id) rooms s
