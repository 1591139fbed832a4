-- ===== src/Manager/Requests.antt =====
-- Requests for a room (`allocation`, pkg/fleetmanager/manager.go).
use nakama_playflow.Base.{
  ℕ, ◌+◌, Bool, not, ◌&&◌, List, [], ◌∷◌, Option, none, some, Text, text_eq, ◌==◌, nat_eq, leb,
  is_empty, length, insert, exists, if◌then◌else◌, Result, ok, err, Error, ◌>>=◌, ◌>>◌, guard,
}
use nakama_playflow.State.{
  State, Allocation, Phase, Reason, terminal, phase_eq, status_eq, order_eq,
}
use nakama_playflow.Manager.Users.{valid_users, contains, same_users}

-- Whether a live allocation holds one of the users.
unfoldable pub holds_user : Allocation → List Text → Bool
unfolding contains
holds_user a users = exists (contains a.user_ids) users

-- The loop of `allocation`: `some` is the allocation that already answers the request.
unfoldable pub find_request :
    List (Text × Allocation) → List Text → Text → Result (Option (Text × Allocation))
find_request [] users key = ok none
find_request ((aid, a) ∷ rest) users key =
    let later = find_request rest users key in
    if a.request_key == key
    then (if same_users a.user_ids users then ok (some (aid, a)) else err Error.forbidden)
    else if not (terminal a.state) && holds_user a users
    then err Error.busy
    else later

abbrev pub new_allocation : Text → Text → List Text → Text → ℕ → ℕ → Allocation
new_allocation id room users key now timeout = record {
  id = id;
  request_key = key;
  room_id = room;
  worker_id = [];
  preferred_worker_id = [];
  user_ids = users;
  state = Phase.waiting_capacity;
  epoch = 1;
  revision = 1;
  created_at = now;
  expires_at = now + timeout;
  sessions = [];
  error = Reason.none_given;
  terminal_at = 0;
  notified_revision = 0;
}

-- What `allocation` does when no allocation answers the request.
abbrev pub open_allocation :
    (ℕ → Text) → List Text → Text → ℕ → ℕ → State → State × (Text × Allocation)
open_allocation fresh users key now timeout s =
    let aid = fresh s.drawn in
    let a = new_allocation aid (fresh (s.drawn + 1)) users key now timeout in
    (record s { allocations = insert aid a s.allocations; drawn = s.drawn + 2 }, (aid, a))

abbrev pub answer_request :
    (ℕ → Text)
    → List Text
    → Text
    → ℕ
    → ℕ
    → State
    → Option (Text × Allocation)
    → State × (Text × Allocation)
answer_request fresh users key now timeout s none = open_allocation fresh users key now timeout s
answer_request fresh users key now timeout s (some found) = (s, found)

unfoldable pub allocation :
    (ℕ → Text) → List Text → Text → ℕ → ℕ → State → Result (State × (Text × Allocation))
allocation fresh users key now timeout s = do
  guard (valid_users users && not (is_empty key) && leb (length key) 256) Error.invalid
  found ← find_request s.allocations users key
  ok (answer_request fresh users key now timeout s found)

-- A preparation that was not dispatched is withdrawn.
