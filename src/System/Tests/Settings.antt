-- ===== src/System/Tests/Settings.antt =====
-- A configuration that is read, and a request for a server (pkg/fleetmanager/config.go and
-- lifecycle.go).
use nakama_playflow.Base.{
  exists_value, false, ◌≡◌, refl, false, [], ◌∷◌, some, none, Option, Text, bytes, lookup, insert,
  List, ◌⊎◌, text_eqb, valid_utf8, is_blank, has_prefix, has_char, upper, Unique, insert-Unique,
  copies, arith, ℕ, zero, suc, num, ◌*◌, ◌^◌,
}
use nakama_playflow.Base.Urls.{Url}
use nakama_playflow.Config.{Config}
use nakama_playflow.Config.Environment.{
  Token, parse_server_environment, validate_server_environment, valid_entries, valid_entry,
  is_name_from, members,
}
use nakama_playflow.Config.Environment.Laws.{valid_entries-All, IsEnvironment, parse-IsEnvironment}
use nakama_playflow.Config.Validate.{validate}
use nakama_playflow.Manager.{Manager}
use nakama_playflow.Manager.Opening.{Fingerprints, new_manager, profile_of}
use nakama_playflow.Manager.Opening.Agreement.{IsSamePool, new_manager-IsSamePool}
use nakama_playflow.Manager.Admin.{is_foreign, profile_run}
use nakama_playflow.State.{State, empty_state}
use nakama_playflow.State.Store.{update}
use nakama_playflow.Provider.Request.{start_request}
use nakama_playflow.Provider.Request.Laws.{start_request-lookup}
use nakama_playflow.System.Tests.{crypto, config, manager, worker}

-- `{"A": "b"}` as the decoder reads it.
abbrev scan : Text → List Token
scan raw = Token.opening ∷ Token.name (bytes "A") ∷ Token.value (bytes "b") ∷ Token.closing ∷ []

abbrev marshal : List (Text × Text) → Text
marshal values = bytes "{}"

abbrev variables : List (Text × Text)
variables = (bytes "A", bytes "b") ∷ []

parse-IsEnvironment_example : (variables ≡ []) ⊎ IsEnvironment marshal variables
unfolding parse_server_environment validate_server_environment valid_entries valid_entry
    is_name_from members valid_utf8 is_blank has_prefix has_char upper insert lookup text_eqb
parse-IsEnvironment_example = parse-IsEnvironment scan marshal (bytes "{}") variables refl

abbrev url : Url
url = record {
  scheme = bytes "https";
  opaque = [];
  has_user = false;
  host = bytes "c";
  hostname = bytes "c";
  path = [];
  raw_path = [];
  raw_query = [];
  fragment = [];
}

abbrev digits_32 : Text
digits_32 = bytes "01234567890123456789012345678901"

unfoldable zeros : ℕ → Text
zeros zero = []
zeros (suc n) = 0 ∷ zeros n

abbrev settings : List (Text × Text)
settings =
    (bytes "FLEET_DATABASE_URL", bytes "db")
    ∷ (bytes "FLEET_PLAYFLOW_API_KEY", bytes "key")
    ∷ (bytes "FLEET_CONTROL_URL", bytes "https://c")
    ∷ (bytes "FLEET_BUILD_HASH", bytes "dm-v1")
    ∷ (bytes "FLEET_REGION", bytes "eu")
    ∷ (bytes "FLEET_PROVIDER_VERSION", bytes "1")
    ∷ (bytes "FLEET_MAX_ROOMS", bytes "4")
    ∷ (bytes "FLEET_MAX_INSTANCES", bytes "2")
    ∷ (bytes "FLEET_ADMIN_TOKEN", digits_32)
    ∷ (bytes "FLEET_SIGNING_KEY", bytes "AAAAAAAAAAAAAAAAAAAAAAAAAAAAAAAAAAAAAAAAAAA")
    ∷ []

abbrev value_or_none : Option Text → Text
value_or_none none = []
value_or_none (some v) = v

abbrev getenv : Text → Text
getenv name = value_or_none (lookup name settings)

abbrev checked : Config
checked = record config {
  deployment_id = bytes "default";
  database_url = bytes "db";
  play_flow_url = bytes "https://api.computeflow.cloud/api";
  play_flow_api_key = bytes "key";
  control_url = bytes "https://c";
  max_rooms = 4;
  admin_token = digits_32;
  signing_key = zeros 32;
  mode = bytes "production";
  interval = 1000000000;
  min_lifetime_for_admission = 1800;
  max_queue_age_seconds = num (2 * 2 ^ 1074);
}

abbrev host : Manager
host = record manager { cfg = record config { server_environment = variables } }

nothing-Unique : Unique {V = Text} []
unfolding copies
nothing-Unique k = omega arith

start_request-lookup_example :
    lookup (bytes "FLEET_WORKER_ID") (start_request crypto host worker).environment_variables
    ≡ some (bytes "w")
unfolding valid_entries has_prefix upper valid_utf8 has_char insert
start_request-lookup_example =
    (start_request-lookup crypto host worker (valid_entries-All variables refl)
      (insert-Unique (bytes "A") (bytes "b") [] nothing-Unique) (omega arith)).0

abbrev fingerprints : Fingerprints
fingerprints = record {
  marshal_values = marshal;
  marshal_parts = λ parts. bytes "parts";
  sha = λ message. bytes "h";
}

abbrev opener : Manager
opener = record manager { cfg = checked }

abbrev opened : State
opened = (new_manager (λ raw. some url) crypto fingerprints opener empty_state).0

abbrev reopened : State
reopened = (new_manager (λ raw. some url) crypto fingerprints opener opened).0

new_manager-IsSamePool_example :
    IsSamePool checked checked
    × (exists_value (is_foreign opener) reopened.workers ≡ false)
    × (exists_value (is_foreign opener) reopened.workers ≡ false)
unfolding new_manager profile_of validate validate_server_environment valid_entries update
    profile_run exists_value empty_state zeros text_eqb has_prefix upper valid_utf8 has_char
new_manager-IsSamePool_example =
    new_manager-IsSamePool (λ raw. some url) crypto fingerprints opener opener empty_state opened
      reopened refl (λ e. refl) refl refl
