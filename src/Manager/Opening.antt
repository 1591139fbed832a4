-- ===== src/Manager/Opening.antt =====
-- A manager is made on a store (`New`, pkg/fleetmanager/manager.go). SHA-256 in hexadecimal digits and
-- the JSON encoder are arguments.
pub mod Agreement
use nakama_playflow.Base.{
  ℕ, ◌++◌, List, [], ◌∷◌, Option, Text, bytes, leb, length, Url, if◌then◌else◌, Result, ok, err,
}
use nakama_playflow.Config.{Config}
use nakama_playflow.Config.Validate.{validate}
use nakama_playflow.State.{State}
use nakama_playflow.State.Store.{update}
use nakama_playflow.Token.{Crypto, derive, encoded}
use nakama_playflow.Manager.Core.{Manager}
use nakama_playflow.Manager.Admin.{profile_run}

-- A part of the profile.
pub data Part : Type 0 where
  word : Text → Part
  number : ℕ → Part

-- The encoder at a map of strings and at the parts, and the hash.
pub record Fingerprints : Type 0 where
  pub marshal_values : List (Text × Text) → Text
  pub marshal_parts : List Part → Text
  pub sha : Text → Text

abbrev pub environment_part : Crypto → Fingerprints → Config → List Part
environment_part c f cfg =
    if leb (length cfg.server_environment) 0
    then []
    else word (
        encoded (
          derive c cfg.signing_key
            (bytes "server-environment:" ++ f.marshal_values cfg.server_environment)))
      ∷ []

abbrev pub profile_parts : Crypto → Fingerprints → Config → List Part
profile_parts c f cfg =
    word cfg.build_hash
    ∷ word cfg.region
    ∷ number cfg.provider_version
    ∷ number cfg.max_rooms
    ∷ word cfg.port_name
    ∷ word cfg.compute_size
    ∷ word (encoded (derive c cfg.signing_key (bytes "profile")))
    ∷ environment_part c f cfg

unfoldable pub profile_of : Crypto → Fingerprints → Config → Text
profile_of c f cfg = f.sha (f.marshal_parts (profile_parts c f cfg))

abbrev pub register : Text → Manager → State → Result (Unit {0}) → State × Result (Unit {0})
register profile m s (err e) = (s, err e)
register profile m s (ok x) = update s (profile_run m profile)

-- `New`: what it does to the store, and whether there is a manager then.
unfoldable pub new_manager :
    (Text → Option Url) → Crypto → Fingerprints → Manager → State → State × Result (Unit {0})
new_manager parse_url c f m s =
    register (profile_of c f m.cfg) m s (validate parse_url f.marshal_values m.cfg)
