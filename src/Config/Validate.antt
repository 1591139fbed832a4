-- ===== src/Config/Validate.antt =====
-- Reading and checking a configuration (`FromEnv` and `Validate`, pkg/fleetmanager/config.go).
use nakama_playflow.Base.{
  ℕ, ◌*◌, ◌^◌, Bool, false, not, ◌&&◌, ◌||◌, List, Option, none, some, Text, text_eq, ◌==◌, nat_eq,
  leb, ltb, is_empty, length, bytes, ℤ, pos, negsuc, num, parse_int, trim_space, Url, if◌then◌else◌,
  Result, ok, err, Error, ◌>>=◌, ◌>>◌, guard,
}
use nakama_playflow.Base.Base64.{decode}
use nakama_playflow.Config.Settings.{Config}
use nakama_playflow.Config.Environment.{
  Token, validate_server_environment, parse_server_environment,
}

abbrev pub has_credentials : Config → Bool
has_credentials c =
    not (is_empty c.deployment_id)
    && not (is_empty c.build_hash)
    && not (is_empty c.region)
    && not (is_empty c.play_flow_api_key)
    && not (is_empty c.control_url)

abbrev pub has_keys : Config → Bool
has_keys c = length c.signing_key == 32 && leb 32 (length c.admin_token)

abbrev pub has_capacity : Config → Bool
has_capacity c =
    leb 1 c.max_rooms
    && leb c.max_rooms 512
    && leb 1 c.max_instances
    && leb c.max_instances 1000
    && leb c.min_instances c.max_instances
    && leb 1 c.provider_version

abbrev pub has_timeouts : Config → Bool
has_timeouts c =
    leb 1 c.interval
    && leb 1 c.prepare_timeout
    && leb c.prepare_timeout 120
    && c.reservation_ttl == 60
    && leb 1 c.reconnect_seconds
    && leb 1 c.launch_timeout
    && leb 1 c.allocation_timeout
    && leb 1 c.heartbeat_timeout
    && ltb c.heartbeat_timeout c.lost_timeout
    && leb 1 c.idle_seconds
    && leb 1 c.provider_poll_seconds
    && leb 60 c.min_lifetime_for_admission

-- `none` is a URL that `url.Parse` refuses.
abbrev pub has_control : Config → Option Url → Bool
has_control c none = false
has_control c (some u) =
    not (is_empty u.host)
    && not u.has_user
    && is_empty u.raw_query
    && is_empty u.fragment
    && (u.scheme == bytes "https"
        || u.scheme == bytes "http" && c.allow_http && c.mode == bytes "mock")

abbrev pub has_mode : Config → Bool
has_mode c = c.mode == bytes "production" || c.mode == bytes "mock"

-- `Validate`. `parse_url` is `url.Parse`, and `marshal` is `json.Marshal` at a map of strings.
unfoldable pub validate :
    (Text → Option Url) → (List (Text × Text) → Text) → Config → Result (Unit {0})
validate parse_url marshal c = do
  guard (has_credentials c) Error.invalid
  guard (has_keys c) Error.invalid
  guard (has_capacity c) Error.invalid
  guard (has_timeouts c) Error.invalid
  guard (has_control c (parse_url c.control_url)) Error.invalid
  guard (has_mode c) Error.invalid
  validate_server_environment marshal c.server_environment

-- `env`.
abbrev pub or_else : Text → Text → Text
or_else s fallback = if is_empty s then fallback else s

unfoldable pub env : (Text → Text) → Text → Text → Text
env getenv key fallback = or_else (trim_space (getenv key)) fallback

-- A number that is not negative: `Validate` refuses a negative one in each place.
abbrev pub natural : Option ℤ → Result ℕ
natural none = err Error.invalid
natural (some (negsuc n)) = err Error.invalid
natural (some (pos n)) = ok n

-- The loops over the settings, of which one that is absent keeps its default.
unfoldable pub setting : (Text → Text) → Text → ℕ → Result ℕ
setting getenv key default =
    if is_empty (getenv key) then ok default else natural (parse_int (getenv key))

abbrev pub signing_key_of : Option Text → Result Text
signing_key_of none = err Error.invalid
signing_key_of (some key) = ok key

-- `FromEnv` up to its check. The loops over the settings visit them in the order of the source.
unfoldable pub read_env :
    (Text → List Token) → (List (Text × Text) → Text) → (Text → Text) → Result Config
unfolding env setting
read_env scan marshal getenv = do
  guard (not (is_empty (getenv (bytes "FLEET_DATABASE_URL")))) Error.invalid
  version ← natural (parse_int (getenv (bytes "FLEET_PROVIDER_VERSION")))
  rooms ← natural (parse_int (getenv (bytes "FLEET_MAX_ROOMS")))
  least ← setting getenv (bytes "FLEET_MIN_INSTANCES") 0
  most ← natural (parse_int (getenv (bytes "FLEET_MAX_INSTANCES")))
  idle ← setting getenv (bytes "FLEET_IDLE_SECONDS") 600
  launch ← setting getenv (bytes "FLEET_LAUNCH_TIMEOUT") 120
  waits ← setting getenv (bytes "FLEET_ALLOCATION_TIMEOUT") 180
  polls ← setting getenv (bytes "FLEET_PROVIDER_POLL_SECONDS") 10
  lifetime ← setting getenv (bytes "FLEET_MIN_LIFETIME_FOR_ADMISSION_SECONDS") 1800
  key ← signing_key_of (decode (getenv (bytes "FLEET_SIGNING_KEY")))
  variables ← parse_server_environment scan marshal (getenv (bytes "FLEET_SERVER_ENV_JSON"))
  ok (record {
    deployment_id = env getenv (bytes "FLEET_DEPLOYMENT_ID") (bytes "default");
    database_url = getenv (bytes "FLEET_DATABASE_URL");
    play_flow_url =
        env getenv (bytes "FLEET_PLAYFLOW_URL") (bytes "https://api.computeflow.cloud/api");
    play_flow_api_key = getenv (bytes "FLEET_PLAYFLOW_API_KEY");
    control_url = getenv (bytes "FLEET_CONTROL_URL");
    build_hash = getenv (bytes "FLEET_BUILD_HASH");
    region = getenv (bytes "FLEET_REGION");
    compute_size = env getenv (bytes "FLEET_COMPUTE_SIZE") (bytes "small");
    port_name = env getenv (bytes "FLEET_PORT_NAME") (bytes "game");
    provider_version = version;
    max_rooms = rooms;
    min_instances = least;
    max_instances = most;
    admin_token = getenv (bytes "FLEET_ADMIN_TOKEN");
    signing_key = key;
    server_environment = variables;
    allow_http = getenv (bytes "FLEET_ALLOW_HTTP") == bytes "true";
    mode = env getenv (bytes "FLEET_MODE") (bytes "production");
    interval = 1000000000;
    launch_timeout = launch;
    allocation_timeout = waits;
    prepare_timeout = 20;
    reservation_ttl = 60;
    reconnect_seconds = 90;
    heartbeat_timeout = 8;
    lost_timeout = 60;
    idle_seconds = idle;
    provider_poll_seconds = polls;
    min_lifetime_for_admission = lifetime;
    max_queue_age_seconds = num (2 * 2 ^ 1074);
  })

-- `FromEnv`.
unfoldable pub from_env :
    (Text → Option Url)
    → (Text → List Token)
    → (List (Text × Text) → Text)
    → (Text → Text)
    → Result Config
unfolding read_env validate
from_env parse_url scan marshal getenv = do
  c ← read_env scan marshal getenv
  checked ← validate parse_url marshal c
  ok c
