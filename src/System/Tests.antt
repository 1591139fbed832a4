-- ===== src/System/Tests.antt =====
-- A fleet of one worker and one request, on which the theorems are applied.
mod Tokens
mod Reading
mod Settings
mod Calls
mod Matches
mod Storing
mod Serving
mod Telling
mod Opening
use nakama_playflow.Base.{
  ◌≡◌, refl, true, false, pos, some, List, [], ◌∷◌, All, none, Text, bytes, arith, lookup, insert,
  copies, count_values, Unique, insert-Unique, ok, num, text_eqb, text_eqb_iff, ◌⊎◌, err, Error,
  each_ok, each,
}
use nakama_playflow.Config.{Config}
use nakama_playflow.State.{State, Worker, Allocation, Status, Phase, empty_state, occupied}
use nakama_playflow.Manager.{
  Manager, new_record, new_allocation, allocation, find_request, contains, same_users, valid_users,
  holds_user,
}
use nakama_playflow.Manager.Calls.{allocate_run, cancel_run}
use nakama_playflow.State.Store.{update}
use nakama_playflow.Lifecycle.Choosing.{IsFrom, IsSound, Beaten, choose_best}
use nakama_playflow.Lifecycle.{choose, holds_lease}
use nakama_playflow.Provider.{stop_check, start_begin}
use nakama_playflow.Provider.Safety.{MayStop, stop_check_safe}
use nakama_playflow.Provider.Exclusion.{start_begin_once}
use nakama_playflow.Agent.{
  HeartbeatRequest, HeartbeatResponse, heartbeat_run, accept_report, check_rooms, see_reports,
  respond,
}
use nakama_playflow.Agent.Replay.{heartbeat_run-replay}
use nakama_playflow.Evolution.Phases.{Steady}
use nakama_playflow.Token.{AdmissionClaims, Crypto}
use nakama_playflow.System.Events.{ticks, cancels, apply, run}
use nakama_playflow.System.History.{apply-Steady, terminal_absorbs}
use nakama_playflow.System.Requests.{OneLive, apply-OneLive, allocation-OneLive}
use nakama_playflow.System.Reachable.{asks, does, reach, reach-OneLive, reach-KeyOnce}
use nakama_playflow.System.Requests.Keys.{KeyOnce, InOrder}
use nakama_playflow.System.Requests.Shuffled.{IsShuffled}
use nakama_playflow.System.Replay.{allocate_run-replay}

abbrev pub config : Config
config = record {
  deployment_id = bytes "fleet";
  database_url = [];
  play_flow_url = [];
  play_flow_api_key = [];
  control_url = [];
  build_hash = bytes "dm-v1";
  region = bytes "eu";
  compute_size = bytes "small";
  port_name = bytes "game";
  provider_version = 1;
  max_rooms = 4;
  min_instances = 0;
  max_instances = 2;
  admin_token = [];
  signing_key = [];
  server_environment = [];
  allow_http = false;
  mode = bytes "mock";
  interval = 1;
  launch_timeout = 120;
  allocation_timeout = 180;
  prepare_timeout = 20;
  reservation_ttl = 60;
  reconnect_seconds = 90;
  heartbeat_timeout = 8;
  lost_timeout = 60;
  idle_seconds = 600;
  provider_poll_seconds = 10;
  min_lifetime_for_admission = 60;
  max_queue_age_seconds = num 2;
}

abbrev pub manager : Manager
manager = record { cfg = config; owner = bytes "m"; fresh = λ n. n ∷ [] }

abbrev pub users : List Text
users = bytes "ann" ∷ bytes "bob" ∷ []

-- A worker that takes players, under the key "w".
abbrev pub worker : Worker
worker = record (new_record manager (bytes "w") 0 4) {
  state = Status.ready;
  ready = true;
  host = bytes "h";
  boot_id = bytes "b";
  last_heartbeat = 10;
}

abbrev pub claims : AdmissionClaims
claims = record {
  schema_version = pos 1;
  user_id = bytes "ann";
  worker_id = bytes "w";
  boot_id = bytes "b";
  room_id = bytes "r";
  allocation_id = bytes "a";
  reservation_id = bytes "s";
  seat = pos 0;
  epoch = pos 1;
  expires_at = pos 45;
  nonce = bytes "n";
  resume = false;
}

-- A codec that knows one value, and a constant for the hash.
abbrev pub crypto : Crypto
crypto = record {
  mac = λ key message. bytes "m";
  marshal = λ c. bytes "c";
  unmarshal = λ raw. some claims;
}

abbrev pub request : Allocation
request = new_allocation (bytes "a") (bytes "r") users (bytes "k") 10 180

abbrev pub fleet : State
fleet = record empty_state {
  workers = insert (bytes "w") worker [];
  allocations = insert (bytes "a") request [];
}

nothing-Unique : Unique {V = Allocation} []
unfolding copies
nothing-Unique k = omega arith

pub fleet-Unique : Unique fleet.allocations
unfolding empty_state
fleet-Unique = insert-Unique (bytes "a") request [] nothing-Unique

apply-Steady_example : Steady fleet.allocations (apply (ticks manager 12) fleet).allocations
apply-Steady_example = apply-Steady (ticks manager 12) fleet fleet-Unique

abbrev over : Allocation
over = record request { state = Phase.completed; revision = 5; terminal_at = 9 }

abbrev closed_fleet : State
closed_fleet = record fleet { allocations = insert (bytes "a") over [] }

closed_fleet-Unique : Unique closed_fleet.allocations
closed_fleet-Unique = insert-Unique (bytes "a") over [] nothing-Unique

terminal_absorbs_example :
    (over.state ≡ over.state)
    × (over.revision ≡ over.revision)
    × (over.worker_id ≡ over.worker_id)
    × (over.sessions ≡ over.sessions)
unfolding run update cancel_run lookup insert contains text_eqb empty_state
terminal_absorbs_example =
    terminal_absorbs (cancels manager (bytes "ann") (bytes "a") 20 ∷ []) closed_fleet (bytes "a")
      over over closed_fleet-Unique refl refl refl

fleet-OneLive : OneLive fleet
unfolding insert lookup empty_state
fleet-OneLive j k a b d ea eb la lb user ca =
    ground (arith, text_eqb_iff (bytes "a") j, text_eqb_iff (bytes "a") k, text_eqb_iff j k)

apply-OneLive_example : OneLive (apply (ticks manager 12) fleet)
apply-OneLive_example = apply-OneLive (ticks manager 12) fleet fleet-Unique fleet-OneLive

abbrev others : List Text
others = bytes "cid" ∷ bytes "dan" ∷ []

abbrev second : Text × Allocation
second = (0 ∷ [], new_allocation (0 ∷ []) (1 ∷ []) others (bytes "q") 11 180)

abbrev grown : State
grown = record fleet { allocations = insert (0 ∷ []) second.1 fleet.allocations; drawn = 2 }

allocation-OneLive_example : OneLive grown
unfolding empty_state allocation find_request holds_user valid_users same_users contains text_eqb
    insert
allocation-OneLive_example =
    allocation-OneLive manager.fresh others (bytes "q") 11 180 fleet grown second refl fleet-OneLive

fleet-KeyOnce : KeyOnce fleet
unfolding insert lookup empty_state
fleet-KeyOnce j k a b d ea eb =
    ground (arith, text_eqb_iff (bytes "a") j, text_eqb_iff (bytes "a") k, text_eqb_iff j k)

pub fleet-InOrder : InOrder fleet
fleet-InOrder = record { unique = fleet-Unique; one_live = fleet-OneLive; key_once = fleet-KeyOnce }

-- The map of the grown fleet, walked from its other end.
abbrev turned : List (Text × Allocation)
turned = second ∷ (bytes "a", request) ∷ []

turned-IsShuffled : IsShuffled grown turned
unfolding insert lookup text_eqb copies empty_state
turned-IsShuffled = record {
  unique = λ k. ground (arith, text_eqb_iff (bytes "a") k, text_eqb_iff (0 ∷ []) k);
  same = λ k. ground (arith, text_eqb_iff (bytes "a") k, text_eqb_iff (0 ∷ []) k);
}

allocate_run-replay_example :
    allocate_run manager others (bytes "q") 50 (record grown { allocations = turned })
    ≡ ok (record grown { allocations = turned }, 0 ∷ [])
unfolding empty_state allocate_run allocation find_request holds_user valid_users same_users
    contains text_eqb insert lookup
allocate_run-replay_example =
    allocate_run-replay manager others (bytes "q") 11 50 fleet grown (0 ∷ []) turned refl refl
      fleet-InOrder (λ h. refl, (λ h. refl, tt)) turned-IsShuffled

choose_best_example :
    IsFrom manager 12 request fleet fleet.workers
      (choose manager 12 request fleet fleet.workers none)
    × IsSound manager 12 request fleet (choose manager 12 request fleet fleet.workers none)
    × All
        (λ e.
          Beaten manager 12 request fleet e (choose manager 12 request fleet fleet.workers none))
        fleet.workers
choose_best_example = choose_best manager 12 request fleet fleet.workers

abbrev leaving : Worker
leaving = record worker {
  state = Status.stopping;
  draining = true;
  drain_ack = true;
  provider_id = bytes "p";
}

abbrev shrinking : State
shrinking = record empty_state {
  leader = bytes "m";
  lease_until = 40;
  workers = insert (bytes "w") leaving [];
}

stop_check_safe_example : (shrinking ≡ shrinking) × MayStop manager 12 13 leaving shrinking
unfolding stop_check holds_lease occupied empty_state insert lookup text_eqb count_values
stop_check_safe_example = stop_check_safe manager 12 13 leaving shrinking shrinking refl

abbrev rival : Manager
rival = record manager { owner = bytes "n" }

abbrev growing : State
growing = record shrinking { workers = insert (bytes "w") (new_record manager (bytes "w") 0 4) [] }

abbrev begun : State
begun = record growing {
  workers =
      insert (bytes "w")
        (record (new_record manager (bytes "w") 0 4) { state = Status.starting; updated_at = 12 })
        [];
}

start_begin_once_example :
    (start_begin rival 45 (bytes "w") begun ≡ err Error.lease_held)
    ⊎ (start_begin rival 45 (bytes "w") begun ≡ err Error.busy)
unfolding start_begin holds_lease insert lookup text_eqb empty_state
start_begin_once_example = start_begin_once manager rival 12 45 (bytes "w") growing begun refl

abbrev report : HeartbeatRequest
report = record {
  worker_id = bytes "w";
  boot_id = bytes "b";
  sequence = 1;
  ready = true;
  rooms = [];
  command_results = [];
  metrics = worker.metrics;
}

abbrev reported : Worker
reported = record worker { last_heartbeat = 12; last_sequence = 1 }

abbrev heard : State
heard = record fleet { workers = insert (bytes "w") reported [] }

heartbeat_run-replay_example :
    (r : HeartbeatResponse) × (heartbeat_run rival report 15 heard ≡ ok (heard, r))
unfolding heartbeat_run accept_report check_rooms each_ok each see_reports lookup insert text_eqb
    empty_state
heartbeat_run-replay_example =
    heartbeat_run-replay manager rival report 12 15 fleet heard (respond 12 heard reported) refl

reach-OneLive_example : OneLive (
    reach
      (asks manager users (bytes "k") 10
        ∷ does (ticks manager 12)
        ∷ asks rival users (bytes "q") 13
        ∷ [])
      empty_state)
reach-OneLive_example = reach-OneLive (
    asks manager users (bytes "k") 10
    ∷ does (ticks manager 12)
    ∷ asks rival users (bytes "q") 13
    ∷ [])

reach-KeyOnce_example : KeyOnce (
    reach
      (asks manager users (bytes "k") 10
        ∷ does (ticks manager 12)
        ∷ asks rival users (bytes "q") 13
        ∷ [])
      empty_state)
reach-KeyOnce_example = reach-KeyOnce (
    asks manager users (bytes "k") 10
    ∷ does (ticks manager 12)
    ∷ asks rival users (bytes "q") 13
    ∷ [])
