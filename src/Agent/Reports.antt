-- ===== src/Agent/Reports.antt =====
-- What an agent sends, and the checks on it that read no state (pkg/fleetmanager/http.go).
use nakama_playflow.Base.{
  ℕ, Bool, not, ◌&&◌, ◌||◌, List, Text, text_eq, ◌==◌, nat_eq, leb, ltb, length, is_nonneg, is_nan,
  is_inf, float_leb, num, Float64, bytes,
}
use nakama_playflow.Config.{Config}
use nakama_playflow.State.{Metrics}

pub record BootstrapRequest : Type 0 where
  pub worker_id : Text
  pub bootstrap_token : Text
  pub boot_id : Text
  pub build_hash : Text

pub record RoomReport : Type 0 where
  pub room_id : Text
  pub state : Text
  pub user_ids : List Text

pub record CommandResult : Type 0 where
  pub command_id : Text
  pub success : Bool
  pub error : Text

pub record HeartbeatRequest : Type 0 where
  pub worker_id : Text
  pub boot_id : Text
  pub sequence : ℕ
  pub ready : Bool
  pub rooms : List RoomReport
  pub metrics : Metrics
  pub command_results : List CommandResult

-- `hmac.Equal` on two byte strings is their equality.
unfoldable pub equal_token : Text → Text → Bool
equal_token got want = ltb 0 (length got) && got == want

abbrev pub is_finite_nonneg : Float64 → Bool
is_finite_nonneg f = float_leb (num 0) f && not (is_nan f) && not (is_inf f)

unfoldable pub valid_metrics : Metrics → Bool
valid_metrics metrics =
    is_nonneg metrics.simulation_pending
    && is_nonneg metrics.simulation_active
    && is_nonneg metrics.audit_active
    && is_nonneg metrics.audit_pending
    && is_nonneg metrics.pending_results
    && is_nonneg metrics.memory_bytes
    && is_finite_nonneg metrics.simulation_oldest_seconds
    && is_finite_nonneg metrics.frame_p99_ms

unfoldable pub valid_room_state : Text → Bool
valid_room_state value =
    value == bytes "waiting_players"
    || value == bytes "playing"
    || value == bytes "closing"
    || value == bytes "closed"
    || value == bytes "between_rounds"

-- The checks that `heartbeatHTTP` makes on the body before it looks at the token.
unfoldable pub valid_heartbeat : Config → HeartbeatRequest → Bool
unfolding valid_metrics
valid_heartbeat cfg input =
    not (input.sequence == 0)
    && leb (length input.rooms) cfg.max_rooms
    && leb (length input.command_results) 256
    && valid_metrics input.metrics
