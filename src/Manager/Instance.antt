-- ===== src/Manager/Instance.antt =====
-- What Nakama is told of a worker (`instanceInfo`, pkg/fleetmanager/manager.go).
use nakama_playflow.Base.{ℕ, Bool, Text, bytes}
use nakama_playflow.State.{Worker, Status}

-- The fields of `InstanceInfo`, its connection and its metadata.
pub record InstanceInfo : Type 0 where
  pub id : Text
  pub create_time : ℕ
  pub player_count : ℕ
  pub status : Status
  pub dns_name : Text
  pub port : ℕ
  pub provider_instance_id : Text
  pub region : Text
  pub build_hash : Text
  pub max_rooms : ℕ
  pub draining : Bool
  pub last_heartbeat : ℕ

abbrev pub instance_info : Worker → InstanceInfo
instance_info w = record {
  id = w.id;
  create_time = w.created_at;
  player_count = w.player_count;
  status = w.state;
  dns_name = w.host;
  port = w.port;
  provider_instance_id = w.provider_id;
  region = w.region;
  build_hash = w.build_hash;
  max_rooms = w.max_rooms;
  draining = w.draining;
  last_heartbeat = w.last_heartbeat;
}

-- The strings that the source uses for the states of a worker.
abbrev pub status_text : Status → Text
status_text Status.requested = bytes "requested"
status_text Status.starting = bytes "starting"
status_text Status.unknown = bytes "unknown"
status_text Status.launching = bytes "launching"
status_text Status.bootstrapping = bytes "bootstrapping"
status_text Status.ready = bytes "ready"
status_text Status.suspect = bytes "suspect"
status_text Status.draining = bytes "draining"
status_text Status.stopping = bytes "stopping"
status_text Status.stopped = bytes "stopped"
status_text Status.failed = bytes "failed"
status_text Status.lost = bytes "lost"
