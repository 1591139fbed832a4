-- ===== src/Agent/Heartbeat.antt =====
-- `bootstrapHTTP` and `heartbeatHTTP` (pkg/fleetmanager/http.go). The tokens that the controller
-- derives from its signing key are parameters, and so is the decoder: `none` is a body that it
-- refuses.
use nakama_playflow.Base.{
  ℕ, ◌+◌, Bool, not, ◌&&◌, ◌||◌, List, [], ◌∷◌, Option, none, some, Text, text_eq, text_ltb, ◌==◌,
  nat_eq, leb, ltb, is_empty, length, take, lookup, insert, each_ok, sort, if◌then◌else◌, Result,
  ok, err, Error, ◌>>=◌,
}
use nakama_playflow.State.{State, Worker, Command, Status, status_eq}
use nakama_playflow.State.Store.{update}
use nakama_playflow.Manager.{Manager}
use nakama_playflow.Lifecycle.{on_worker}
use nakama_playflow.Agent.Reports.{BootstrapRequest, HeartbeatRequest, equal_token, valid_heartbeat}
use nakama_playflow.Agent.Rooms.{check_rooms, see_reports}
use nakama_playflow.Agent.Results.{apply_result}

-- What a handler answers: the body of a 200, or the status of an error.
pub data Reply {ℓ} (A : Type ℓ) : Type ℓ where
  answer : A → Reply A
  refuse : ℕ → Reply A

-- `failHTTP`.
abbrev pub status_of : Error → ℕ
status_of Error.forbidden = 403
status_of Error.not_found = 404
status_of Error.busy = 409
status_of _ = 500

abbrev pub reply {ℓ} : {A : Type ℓ} → State × Result A → State × Reply A
reply (s, ok a) = (s, answer a)
reply (s, err e) = (s, refuse (status_of e))

abbrev pub is_dead : Status → Bool
is_dead status = status == Status.stopped || status == Status.failed || status == Status.lost

abbrev pub boot : BootstrapRequest → Worker → State → Result (State × Unit {0})
boot input w s =
    if is_dead w.state
    then err Error.busy
    else if not (is_empty w.boot_id) && not (w.boot_id == input.boot_id)
    then err Error.forbidden
    else ok (
      record s {
        workers = insert input.worker_id (record w { boot_id = input.boot_id }) s.workers;
      },
      tt,
    )

unfoldable pub bootstrap_run : BootstrapRequest → State → Result (State × Unit {0})
bootstrap_run input s = elim (lookup input.worker_id s.workers) [
  | none ↦ err Error.not_found
  | some w ↦ boot input w s
]

-- `bootstrapHTTP`. `token` is the bootstrap token of a worker.
unfoldable pub bootstrap :
    Manager → (Text → Text) → Option BootstrapRequest → State → State × Reply (Unit {0})
bootstrap m token none s = (s, refuse 400)
bootstrap m token (some input) s =
    if is_empty input.worker_id || is_empty input.boot_id || ltb 128 (length input.boot_id)
    then (s, refuse 400)
    else if not (equal_token input.bootstrap_token (token input.worker_id))
        || not (input.build_hash == m.cfg.build_hash)
    then (s, refuse 403)
    else reply (update s (bootstrap_run input))

-- The worker as a heartbeat that is not stale leaves it.
abbrev pub refresh : HeartbeatRequest → ℕ → Worker → Worker
refresh input now w =
    let w' = record w {
      last_heartbeat = now;
      last_sequence = input.sequence;
      ready = input.ready;
      metrics = input.metrics;
    } in
    if not (is_empty w.host)
      && input.ready
      && not (w.state == Status.stopping)
      && not (w.state == Status.unknown)
      && not (w.state == Status.requested)
      && not (w.state == Status.starting)
    then record w' { state = (if w.draining then Status.draining else Status.ready) }
    else w'

abbrev pub reset_players : Text → Worker → State → State
reset_players wid w s = record s { workers = insert wid (record w { player_count = 0 }) s.workers }

-- A heartbeat with a new sequence number. An error rolls all of it back.
unfoldable pub accept_report : Manager → HeartbeatRequest → ℕ → Worker → State → Result State
accept_report m input now w s = do
  checked ← check_rooms w.id s.allocations [] input.rooms
  let fresher = record s { workers = insert input.worker_id (refresh input now w) s.workers }
  settled ← each_ok (apply_result m now input.worker_id) input.command_results fresher
  ok (
      see_reports m now input.worker_id w.id input.rooms
        (on_worker reset_players input.worker_id settled))

pub record HeartbeatResponse : Type 0 where
  pub commands : List Command
  pub draining : Bool
  pub revision : ℕ

-- The commands that are due for the worker.
unfoldable pub due_commands : Text → ℕ → List (Text × Command) → List Command
due_commands worker_id now [] = []
due_commands worker_id now ((cid, c) ∷ rest) =
    let later = due_commands worker_id now rest in
    if c.worker_id == worker_id && (not c.done && leb c.not_before now) then c ∷ later else later

unfoldable pub respond : ℕ → State → Worker → HeartbeatResponse
unfolding due_commands
respond now s w = record {
  commands = take 64 (sort (λ a b. text_ltb a.id b.id) (due_commands w.id now s.commands));
  draining = w.draining;
  revision = s.revision + 1;
}

abbrev pub respond_for : Text → ℕ → State → Result (State × HeartbeatResponse)
respond_for wid now s = elim (lookup wid s.workers) [
  | none ↦ err Error.nil_pointer
  | some w ↦ ok (s, respond now s w)
]

abbrev pub beat : Manager → HeartbeatRequest → ℕ → Worker → State → Result State
beat m input now w s =
    if not (w.boot_id == input.boot_id) || is_dead w.state
    then err Error.forbidden
    else if ltb w.last_sequence input.sequence
    then accept_report m input now w s
    else ok s

unfoldable pub heartbeat_run :
    Manager → HeartbeatRequest → ℕ → State → Result (State × HeartbeatResponse)
heartbeat_run m input now s = elim (lookup input.worker_id s.workers) [
  | none ↦ err Error.not_found
  | some w ↦ beat m input now w s >>= respond_for input.worker_id now
]

-- `heartbeatHTTP`. `token` is the agent token of a worker and its boot, `got` the bearer token.
unfoldable pub heartbeat :
    Manager
    → (Text → Text → Text)
    → Text
    → Option HeartbeatRequest
    → ℕ
    → State
    → State × Reply HeartbeatResponse
heartbeat m token got none now s = (s, refuse 400)
heartbeat m token got (some input) now s =
    if not (valid_heartbeat m.cfg input)
    then (s, refuse 400)
    else if not (equal_token got (token input.worker_id input.boot_id))
    then (s, refuse 403)
    else reply (update s (heartbeat_run m input now))
