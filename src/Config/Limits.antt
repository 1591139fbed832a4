-- ===== src/Config/Limits.antt =====
-- What a configuration that was accepted promises (pkg/fleetmanager/config.go).
use nakama_playflow.Base.{
  ◌≤◌, ◌<◌, ◌≡◌, refl, inl, inr, ◌⊎◌, Bool, true, false, List, Option, none, some, Text, text_eq,
  text_eqb-eq, ◌==◌, nat_eq, length, bytes, arith, All, Url, Bool-cases, Result, ok, Error, ◌>>◌,
  guard,
}
use nakama_playflow.Config.Settings.{Config}
use nakama_playflow.Config.Environment.{validate_server_environment}
use nakama_playflow.Config.Environment.Laws.{IsVariable, valid_entries-All}
use nakama_playflow.Config.Validate.{
  has_credentials, has_keys, has_capacity, has_timeouts, has_control, has_mode, validate,
}

-- The limits within which a fleet runs.
pub record IsBounded (c : Config) : Type 0 where
  pub some_rooms : 1 ≤ c.max_rooms
  pub few_rooms : c.max_rooms ≤ 512
  pub some_instances : 1 ≤ c.max_instances
  pub few_instances : c.max_instances ≤ 1000
  pub instances_in_order : c.min_instances ≤ c.max_instances
  pub pinned_version : 1 ≤ c.provider_version
  pub minute_seats : c.reservation_ttl ≡ 60
  pub lost_later : c.heartbeat_timeout < c.lost_timeout
  pub heard_for : 1 ≤ c.heartbeat_timeout
  pub prepares : (1 ≤ c.prepare_timeout) × (c.prepare_timeout ≤ 120)
  pub lives : 60 ≤ c.min_lifetime_for_admission
  pub full_key : length c.signing_key ≡ 32
  pub long_token : 32 ≤ length c.admin_token

guard-eq :
    (b : Bool) (e : Error) (k : Result (Unit {0}))
    → (guard b e >> k) ≡ ok tt
    → (b ≡ true) × (k ≡ ok tt)
guard-eq true e k h = (refl, h)
guard-eq false e k h = cc

-- Every test of `validate` in turn.
pub validated_all :
    (parse_url : Text → Option Url) (marshal : List (Text × Text) → Text) (c : Config)
    → validate parse_url marshal c ≡ ok tt
    → (has_credentials c ≡ true)
      × (has_keys c ≡ true)
      × (has_capacity c ≡ true)
      × (has_timeouts c ≡ true)
      × (has_control c (parse_url c.control_url) ≡ true)
      × (has_mode c ≡ true)
      × (validate_server_environment marshal c.server_environment ≡ ok tt)
unfolding validate
validated_all parse_url marshal c h =
    let (a, h1) = guard-eq (has_credentials c) Error.invalid _ h in
    let (b, h2) = guard-eq (has_keys c) Error.invalid _ h1 in
    let (d, h3) = guard-eq (has_capacity c) Error.invalid _ h2 in
    let (e, h4) = guard-eq (has_timeouts c) Error.invalid _ h3 in
    let (f, h5) = guard-eq (has_control c (parse_url c.control_url)) Error.invalid _ h4 in
    let (g, h6) = guard-eq (has_mode c) Error.invalid _ h5 in (a, b, d, e, f, g, h6)

bounded :
    (c : Config) → has_keys c ≡ true → has_capacity c ≡ true → has_timeouts c ≡ true → IsBounded c
bounded c k a t = ground arith

-- The control URL is one of HTTPS, unless the fleet is a mock that allows plain HTTP.
controlled :
    (c : Config) (u : Option Url)
    → has_control c u ≡ true
    → (url : Url) × (u ≡ some url)
      × ((url.scheme ≡ bytes "https")
          ⊎ ((url.scheme ≡ bytes "http") × (c.allow_http ≡ true) × (c.mode ≡ bytes "mock")))
controlled c none h = cc
controlled c (some u) h = (u, refl, secure (Bool-cases (u.scheme == bytes "https")))
  where
    secure :
        ((u.scheme == bytes "https") ≡ true) ⊎ ((u.scheme == bytes "https") ≡ false)
        → (u.scheme ≡ bytes "https")
          ⊎ ((u.scheme ≡ bytes "http") × (c.allow_http ≡ true) × (c.mode ≡ bytes "mock"))
    secure (inl e) = inl (text_eqb-eq u.scheme (bytes "https") e)
    secure (inr e) = inr (
      text_eqb-eq u.scheme (bytes "http") (ground arith),
      ground arith,
      text_eqb-eq c.mode (bytes "mock") (ground arith),
    )

-- What `validate` and the control URL have settled.
pub record IsChecked (parse_url : Text → Option Url) (c : Config) : Type 0 where
  pub limits : IsBounded c
  pub control :
      (url : Url) × (parse_url c.control_url ≡ some url)
      × ((url.scheme ≡ bytes "https")
          ⊎ ((url.scheme ≡ bytes "http") × (c.allow_http ≡ true) × (c.mode ≡ bytes "mock")))
  pub known_mode : (c.mode ≡ bytes "production") ⊎ (c.mode ≡ bytes "mock")
  pub few_variables : length c.server_environment ≤ 64
  pub variables : All (λ (e : Text × Text). IsVariable e.0 e.1) c.server_environment

moded : (c : Config) → has_mode c ≡ true → (c.mode ≡ bytes "production") ⊎ (c.mode ≡ bytes "mock")
moded c h = elim (Bool-cases (c.mode == bytes "production")) [
  | inl e ↦ inl (text_eqb-eq c.mode (bytes "production") e)
  | inr e ↦ inr (text_eqb-eq c.mode (bytes "mock") (ground arith))
]

pub validate-IsChecked :
    (parse_url : Text → Option Url) (marshal : List (Text × Text) → Text) (c : Config)
    → validate parse_url marshal c ≡ ok tt
    → IsChecked parse_url c
unfolding validate_server_environment
validate-IsChecked parse_url marshal c h =
    let (a, k, p, t, u, d, e) = validated_all parse_url marshal c h in
    record {
      limits = bounded c k p t;
      control = controlled c (parse_url c.control_url) u;
      known_mode = moded c d;
      few_variables = ground arith;
      variables = valid_entries-All c.server_environment (ground arith);
    }
