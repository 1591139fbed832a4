-- ===== src/Config/Settings.antt =====
-- The configuration of a fleet (`Config` of pkg/fleetmanager/config.go). Numbers below zero, which
-- `Validate` refuses, have no value here; the ones that the controllers read are all checked there.
-- `interval` is in nanoseconds, all other times are in seconds.
use nakama_playflow.Base.{ℕ, Bool, List, Text, Float64}

pub record Config : Type 0 where
  pub deployment_id : Text
  pub database_url : Text
  pub play_flow_url : Text
  pub play_flow_api_key : Text
  pub control_url : Text
  pub build_hash : Text
  pub region : Text
  pub compute_size : Text
  pub port_name : Text
  pub provider_version : ℕ
  pub max_rooms : ℕ
  pub min_instances : ℕ
  pub max_instances : ℕ
  pub admin_token : Text
  pub signing_key : Text
  pub server_environment : List (Text × Text)
  pub allow_http : Bool
  pub mode : Text
  pub interval : ℕ
  pub launch_timeout : ℕ
  pub allocation_timeout : ℕ
  pub prepare_timeout : ℕ
  pub reservation_ttl : ℕ
  pub reconnect_seconds : ℕ
  pub heartbeat_timeout : ℕ
  pub lost_timeout : ℕ
  pub idle_seconds : ℕ
  pub provider_poll_seconds : ℕ
  pub min_lifetime_for_admission : ℕ
  pub max_queue_age_seconds : Float64
