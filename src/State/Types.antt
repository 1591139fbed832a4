-- ===== src/State/Types.antt =====
-- The stored records and the tests on phases (internal/state/state.go).
use nakama_playflow.Base.{
  ℕ, Bool, true, false, List, [], ◌&&◌, Text, Eq, nat_eqb, ◌==◌, not, ℤ, Float64, count_values,
  text_eq,
}

-- `Worker.State`.
pub data Status : Type 0 where
  requested starting unknown launching bootstrapping ready suspect draining stopping stopped failed
        lost :
      Status

-- `Allocation.State`.
pub data Phase : Type 0 where
  waiting_capacity preparing prepared assigned active cancelling completed cancelled expired
        failed :
      Phase

-- `Command.Type`.
pub data Order : Type 0 where
  prepare_room cancel_room drain : Order

-- `Allocation.Error`; `none_given` is the empty string.
pub data Reason : Type 0 where
  none_given cancelled server_failed reconnect_expired allocation_expired prepare_expired
        room_prepare_failed server_stopped server_lost :
      Reason

-- `Worker.Error`; `healthy` is the empty string.
pub data Fault : Type 0 where
  healthy interrupted_create agent_lost create_outcome_unknown provider_create_failed
        create_still_unknown multiple_instances provider_query_failed provider_ownership_mismatch
        launch_timeout invalid_provider_endpoint provider_stop_failed awaiting_stop_confirmation :
      Fault

-- `State.CreationBlockedReason`; `not_blocked` is the empty string.
pub data Block : Type 0 where
  not_blocked provider_configuration provider_lifetime_too_short : Block

abbrev pub status_index : Status → ℕ
status_index Status.requested = 0
status_index Status.starting = 1
status_index Status.unknown = 2
status_index Status.launching = 3
status_index Status.bootstrapping = 4
status_index Status.ready = 5
status_index Status.suspect = 6
status_index Status.draining = 7
status_index Status.stopping = 8
status_index Status.stopped = 9
status_index Status.failed = 10
status_index Status.lost = 11

abbrev pub phase_index : Phase → ℕ
phase_index Phase.waiting_capacity = 0
phase_index Phase.preparing = 1
phase_index Phase.prepared = 2
phase_index Phase.assigned = 3
phase_index Phase.active = 4
phase_index Phase.cancelling = 5
phase_index Phase.completed = 6
phase_index Phase.cancelled = 7
phase_index Phase.expired = 8
phase_index Phase.failed = 9

abbrev pub order_index : Order → ℕ
order_index Order.prepare_room = 0
order_index Order.cancel_room = 1
order_index Order.drain = 2

instance abbrev pub status_eq : Eq Status
status_eq = record { beq = λ a b. nat_eqb (status_index a) (status_index b) }

instance abbrev pub phase_eq : Eq Phase
phase_eq = record { beq = λ a b. nat_eqb (phase_index a) (phase_index b) }

instance abbrev pub order_eq : Eq Order
order_eq = record { beq = λ a b. nat_eqb (order_index a) (order_index b) }

abbrev pub is_cancelled : Reason → Bool
is_cancelled Reason.cancelled = true
is_cancelled _ = false

abbrev pub is_not_blocked : Block → Bool
is_not_blocked Block.not_blocked = true
is_not_blocked _ = false

pub record Metrics : Type 0 where
  pub simulation_pending : ℤ
  pub simulation_active : ℤ
  pub simulation_oldest_seconds : Float64
  pub frame_p99_ms : Float64
  pub memory_bytes : ℤ
  pub audit_pending : ℤ
  pub audit_active : ℤ
  pub pending_results : ℤ

pub record Worker : Type 0 where
  pub id : Text
  pub provider_id : Text
  pub provider_expires_at : ℕ
  pub boot_id : Text
  pub state : Status
  pub region : Text
  pub build_hash : Text
  pub host : Text
  pub port : ℕ
  pub max_rooms : ℕ
  pub created_at : ℕ
  pub updated_at : ℕ
  pub last_heartbeat : ℕ
  pub last_sequence : ℕ
  pub next_check_at : ℕ
  pub idle_since : ℕ
  pub ready : Bool
  pub draining : Bool
  pub drain_ack : Bool
  pub player_count : ℕ
  pub metrics : Metrics
  pub error : Fault
  pub initial_allocation_id : Text

pub record Session : Type 0 where
  pub id : Text
  pub user_id : Text
  pub seat : ℕ
  pub expires_at : ℕ
  pub connected : Bool
  pub ever_connected : Bool
  pub reconnect_until : ℕ

pub record Allocation : Type 0 where
  pub id : Text
  pub request_key : Text
  pub room_id : Text
  pub worker_id : Text
  pub preferred_worker_id : Text
  pub user_ids : List Text
  pub state : Phase
  pub epoch : ℕ
  pub revision : ℕ
  pub created_at : ℕ
  pub expires_at : ℕ
  pub sessions : List Session
  pub error : Reason
  pub terminal_at : ℕ
  pub notified_revision : ℕ

pub record Command : Type 0 where
  pub id : Text
  pub type : Order
  pub worker_id : Text
  pub room_id : Text
  pub allocation_id : Text
  pub epoch : ℕ
  pub user_ids : List Text
  pub expires_at : ℕ
  pub done : Bool
  pub attempts : ℕ
  pub not_before : ℕ

-- `drawn` is no field of the source: it says how many identifiers `id()` has drawn so far.
pub record State : Type 0 where
  pub profile : Text
  pub revision : ℕ
  pub leader : Text
  pub lease_until : ℕ
  pub next_create_at : ℕ
  pub creation_blocked_reason : Block
  pub workers : List (Text × Worker)
  pub allocations : List (Text × Allocation)
  pub commands : List (Text × Command)
  pub drawn : ℕ

-- `New`.
unfoldable pub empty_state : State
empty_state = record {
  profile = [];
  revision = 0;
  leader = [];
  lease_until = 0;
  next_create_at = 0;
  creation_blocked_reason = Block.not_blocked;
  workers = [];
  allocations = [];
  commands = [];
  drawn = 0;
}

-- `Terminal`.
abbrev pub terminal : Phase → Bool
terminal Phase.completed = true
terminal Phase.cancelled = true
terminal Phase.expired = true
terminal Phase.failed = true
terminal _ = false

-- `LiveWorker`.
abbrev pub live_worker : Status → Bool
live_worker phase =
    not (phase == Status.stopped) && not (phase == Status.failed) && not (phase == Status.lost)

-- Whether an allocation takes a room of the worker.
abbrev pub occupies : Text → Allocation → Bool
occupies worker_id a = a.worker_id == worker_id && not (terminal a.state)

-- `Occupied`.
unfoldable pub occupied : State → Text → ℕ
occupied s worker_id = count_values (occupies worker_id) s.allocations
