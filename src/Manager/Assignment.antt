-- ===== src/Manager/Assignment.antt =====
-- The assignment of a user (`Assignment`, pkg/fleetmanager/manager.go), with the token that admits the
-- user to the game server. It reads the state and changes nothing.
pub mod Picked
pub mod Admission
use nakama_playflow.Base.{
  ℕ, ◌+◌, Bool, true, not, ◌&&◌, ◌||◌, List, [], ◌∷◌, ◌++◌, Option, none, some, Text, text_eq, ◌==◌,
  leb, ltb, is_empty, bytes, lookup, ℤ, pos, negsuc, if◌then◌else◌, Result, ok, err, Error,
}
use nakama_playflow.State.{
  State, Worker, Allocation, Session, Status, Phase, Reason, terminal, phase_eq, status_eq,
}
use nakama_playflow.Token.{AdmissionClaims, Crypto, derive, sign}
use nakama_playflow.Manager.Core.{Manager}
use nakama_playflow.Manager.Users.{contains}

-- `Endpoint`; the transport is always `tugboat-udp`.
pub record Endpoint : Type 0 where
  pub host : Text
  pub port : ℕ
  pub transport : Text

pub record Assignment : Type 0 where
  pub schema_version : ℕ
  pub allocation_id : Text
  pub revision : ℕ
  pub state : Phase
  pub worker_id : Text
  pub boot_id : Text
  pub room_id : Text
  pub seat : ℤ
  pub endpoint : Option Endpoint
  pub build_hash : Text
  pub admission_token : Text
  pub expires_at : ℕ
  pub reconnect_seconds : ℕ
  pub error : Reason

-- Whether a candidate replaces the allocation that was found so far.
abbrev pub supersedes : Allocation → Option Allocation → Bool
supersedes candidate none = true
supersedes candidate (some a) =
    terminal a.state && not (terminal candidate.state)
    || not (terminal a.state)
      && not (terminal candidate.state)
      && ltb a.created_at candidate.created_at
    || terminal a.state && terminal candidate.state && ltb a.created_at candidate.created_at

-- The loop over the allocations when no identifier is given.
unfoldable pub latest : Text → List (Text × Allocation) → Option Allocation → Option Allocation
unfolding contains
latest user [] found = found
latest user ((aid, candidate) ∷ rest) found = latest user rest (
    if contains candidate.user_ids user && supersedes candidate found
    then some candidate
    else found)

abbrev pub own : Text → Option Allocation → Result (Option Allocation)
own user none = ok none
own user (some a) = if contains a.user_ids user then ok (some a) else err Error.forbidden

abbrev pub pick : Text → Text → State → Result (Option Allocation)
pick user allocation_id s =
    if is_empty allocation_id
    then ok (latest user s.allocations none)
    else own user (lookup allocation_id s.allocations)

-- The assignment before a server is looked at.
abbrev pub plain_assignment : Manager → Allocation → Assignment
plain_assignment m a = record {
  schema_version = 1;
  allocation_id = a.id;
  revision = a.revision;
  state = a.state;
  worker_id = a.worker_id;
  boot_id = [];
  room_id = a.room_id;
  seat = negsuc 0;
  endpoint = none;
  build_hash = m.cfg.build_hash;
  admission_token = [];
  expires_at = a.expires_at;
  reconnect_seconds = m.cfg.reconnect_seconds;
  error = a.error;
}

-- The server is up and was heard of in time, `now - t > limit` written `t + limit < now`.
abbrev pub is_reachable : Manager → ℕ → Worker → Bool
is_reachable m now w =
    w.ready
    && not (is_empty w.boot_id)
    && not (is_empty w.host)
    && leb now (w.last_heartbeat + m.cfg.heartbeat_timeout)
    && (w.state == Status.ready || w.state == Status.draining)

abbrev pub is_over : ℕ → Session → Bool
is_over now session = ltb 0 session.reconnect_until && leb session.reconnect_until now

-- When the token of a session ends.
unfoldable pub expiry : ℕ → Bool → Session → Result ℕ
expiry now resume session =
    if resume
    then (if not session.ever_connected || is_over now session
        then err Error.busy
        else if ltb 0 session.reconnect_until && ltb session.reconnect_until (now + 45)
        then ok session.reconnect_until
        else ok (now + 45))
    else if leb session.expires_at now
    then err Error.busy
    else ok session.expires_at

abbrev pub claims_of : Text → Worker → Allocation → Session → ℕ → Text → Bool → AdmissionClaims
claims_of user w a session expires nonce resume = record {
  schema_version = pos 1;
  user_id = user;
  worker_id = w.id;
  boot_id = w.boot_id;
  room_id = a.room_id;
  allocation_id = a.id;
  reservation_id = session.id;
  seat = pos session.seat;
  epoch = pos a.epoch;
  expires_at = pos expires;
  nonce = nonce;
  resume = resume;
}

-- The key of a worker's tokens.
abbrev pub admission_key : Crypto → Manager → Text → Text
admission_key c m worker_id = derive c m.cfg.signing_key (bytes "admission:" ++ worker_id)

unfoldable pub admit :
    Crypto → Manager → Text → Worker → Allocation → Session → Text → Bool → ℕ → Assignment
admit c m user w a session nonce resume expires = record (plain_assignment m a) {
  build_hash = w.build_hash;
  boot_id = w.boot_id;
  seat = pos session.seat;
  endpoint = some (record { host = w.host; port = w.port; transport = bytes "tugboat-udp" });
  admission_token =
      sign c (admission_key c m w.id) (claims_of user w a session expires nonce resume);
  expires_at = expires;
}

abbrev pub admit_until :
    Crypto
    → Manager
    → Text
    → Worker
    → Allocation
    → Session
    → Text
    → Bool
    → Result ℕ
    → Result Assignment
admit_until c m user w a session nonce resume (err e) = err e
admit_until c m user w a session nonce resume (ok expires) =
    ok (admit c m user w a session nonce resume expires)

-- The loop over the sessions.
unfoldable pub seat_of :
    Crypto
    → Manager
    → Text
    → Worker
    → Allocation
    → Text
    → Bool
    → ℕ
    → List Session
    → Result Assignment
unfolding expiry
seat_of c m user w a nonce resume now [] = err Error.forbidden
seat_of c m user w a nonce resume now (session ∷ sessions) =
    if session.user_id == user
    then admit_until c m user w a session nonce resume (expiry now resume session)
    else seat_of c m user w a nonce resume now sessions

abbrev pub on_server :
    Crypto → Manager → Text → Allocation → Text → Bool → ℕ → Option Worker → Result Assignment
on_server c m user a nonce resume now none = err Error.busy
on_server c m user a nonce resume now (some w) =
    if is_reachable m now w
    then seat_of c m user w a nonce resume now a.sessions
    else err Error.busy

abbrev pub assign :
    Crypto → Manager → Text → Text → Bool → ℕ → State → Option Allocation → Result Assignment
assign c m user nonce resume now s none = err Error.not_found
assign c m user nonce resume now s (some a) =
    if a.state == Phase.assigned || a.state == Phase.active
    then on_server c m user a nonce resume now (lookup a.worker_id s.workers)
    else ok (plain_assignment m a)

abbrev pub assign_picked :
    Crypto
    → Manager
    → Text
    → Text
    → Bool
    → ℕ
    → State
    → Result (Option Allocation)
    → Result Assignment
assign_picked c m user nonce resume now s (err e) = err e
assign_picked c m user nonce resume now s (ok o) = assign c m user nonce resume now s o

-- `Assignment`, with the nonce that `id()` draws.
unfoldable pub assignment :
    Crypto → Manager → Text → Text → Bool → Text → ℕ → State → Result Assignment
unfolding latest contains seat_of
assignment c m user allocation_id resume nonce now s =
    assign_picked c m user nonce resume now s (pick user allocation_id s)
