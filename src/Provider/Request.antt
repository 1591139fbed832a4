-- ===== src/Provider/Request.antt =====
-- The request that asks the provider for an instance (`StartRequest` of internal/playflow/types.go, and
-- `start`, pkg/fleetmanager/lifecycle.go).
pub mod Laws
use nakama_playflow.Base.{ℕ, Bool, false, List, [], ◌∷◌, ◌++◌, Text, bytes, insert, show, ℤ, pos}
use nakama_playflow.State.{Worker}
use nakama_playflow.Token.{Crypto, derive, encoded}
use nakama_playflow.Manager.{Manager}

pub record PortConfig : Type 0 where
  pub name : Text
  pub internal_port : ℤ
  pub protocol : Text
  pub tls_enabled : Bool

-- The custom data are strings here, as in the only request that is made.
pub record StartRequest : Type 0 where
  pub name : Text
  pub region : Text
  pub startup_args : Text
  pub compute_size : Text
  pub version_tag : Text
  pub version : ℤ
  pub ttl : ℤ
  pub auto_restart : Bool
  pub custom_data : List (Text × Text)
  pub match_id : Text
  pub environment_variables : List (Text × Text)
  pub port_configs : List PortConfig

-- What the controller itself tells the server.
abbrev pub own_variables : Crypto → Manager → Worker → List (Text × Text)
own_variables c m w =
    (bytes "FLEET_WORKER_ID", w.id)
    ∷ (
      bytes "FLEET_BOOTSTRAP_TOKEN",
      encoded (derive c m.cfg.signing_key (bytes "bootstrap:" ++ w.id)),
    )
    ∷ (
      bytes "FLEET_ADMISSION_KEY",
      encoded (derive c m.cfg.signing_key (bytes "admission:" ++ w.id)),
    )
    ∷ (bytes "FLEET_CONTROL_URL", m.cfg.control_url)
    ∷ (bytes "FLEET_BUILD_HASH", m.cfg.build_hash)
    ∷ (bytes "FLEET_MAX_ROOMS", show w.max_rooms)
    ∷ []

-- The loop that copies the custom variables.
unfoldable pub add_variables : List (Text × Text) → List (Text × Text) → List (Text × Text)
add_variables [] variables = variables
add_variables ((name, value) ∷ rest) variables = add_variables rest (insert name value variables)

unfoldable pub start_request : Crypto → Manager → Worker → StartRequest
unfolding add_variables
start_request c m w = record {
  name = bytes "nk-" ++ w.id;
  region = m.cfg.region;
  startup_args = [];
  compute_size = m.cfg.compute_size;
  version_tag = [];
  version = pos m.cfg.provider_version;
  ttl = pos 0;
  auto_restart = false;
  custom_data =
      (bytes "fleet_owner", m.cfg.deployment_id)
      ∷ (bytes "worker_id", w.id)
      ∷ (bytes "build_hash", m.cfg.build_hash)
      ∷ [];
  match_id = [];
  environment_variables = add_variables m.cfg.server_environment (own_variables c m w);
  port_configs = [];
}
