-- ===== src/Provider/Instances.antt =====
-- Instances as the provider reports them, and its errors (internal/playflow/types.go and
-- client.go; `providerLifetime`, `endpoint` and `owned` of pkg/fleetmanager/lifecycle.go).
use nakama_playflow.Base.{
  ℕ, ◌+◌, Bool, false, not, ◌&&◌, ◌||◌, List, [], ◌∷◌, Option, none, some, Text, text_eq, ◌==◌,
  nat_eq, leb, ltb, is_empty, insert, ℤ, bytes, if◌then◌else◌, Result, ok, err, Error,
}
use nakama_playflow.State.{State, Worker, Status, Block, status_eq}
use nakama_playflow.Manager.{Manager}

pub record Port : Type 0 where
  pub name : Text
  pub host : Text
  pub external_port : ℤ
  pub internal_port : ℤ
  pub protocol : Text
  pub tls_enabled : Bool

-- The fields of `Instance` that the controller reads. `fleet_owner` and `owner_worker` are the
-- entries `fleet_owner` and `worker_id` of its custom data, `none` unless a string is there.
-- `started_at` is the time that `time.Parse` reads, if it reads one.
pub record Instance : Type 0 where
  pub instance_id : Text
  pub status : Text
  pub network_ports : List Port
  pub started_at : Option ℕ
  pub fleet_owner : Option Text
  pub owner_worker : Option Text
  pub ttl : ℤ

-- An error of a provider call: an `APIError` with its status and `OutcomeUnknown`, or another one.
pub data CallError : Type 0 where
  api : ℕ → Bool → CallError
  other : CallError

pub data Answer {ℓ} (A : Type ℓ) : Type ℓ where
  success : A → Answer A
  failure : CallError → Answer A

abbrev pub outcome_unknown : CallError → Bool
outcome_unknown (api status unknown) = unknown
outcome_unknown other = false

abbrev pub status_is : ℕ → CallError → Bool
status_is code (api status unknown) = status == code
status_is code other = false

abbrev pub text_is : Option Text → Text → Bool
text_is none b = false
text_is (some a) b = a == b

-- `owned`, for the worker of the snapshot.
unfoldable pub owned : Manager → Instance → Worker → Bool
owned m i w = text_is i.fleet_owner m.cfg.deployment_id && text_is i.owner_worker w.id

-- `int64(instance.TTL)`, which is positive where it is read.
abbrev pub ttl_seconds : ℤ → ℕ
ttl_seconds (ℤ.pos n) = n
ttl_seconds (ℤ.negsuc n) = 0

abbrev pub start_of : Instance → Worker → ℕ
start_of i w = elim i.started_at [ none ↦ w.created_at | some t ↦ t ]

-- `providerLifetime` on the worker `w` under the key `wid`.
unfoldable pub provider_lifetime : Manager → ℕ → Text → Worker → Instance → State → State
provider_lifetime m now wid w i s =
    if leb (ttl_seconds i.ttl) 0
    then s
    else (let w' = record w { provider_expires_at = start_of i w + ttl_seconds i.ttl } in
        if leb (ttl_seconds i.ttl) (m.cfg.min_lifetime_for_admission + m.cfg.launch_timeout)
        then record s {
          creation_blocked_reason = Block.provider_lifetime_too_short;
          workers =
              insert wid
                (if w.state == Status.launching || w.state == Status.bootstrapping
                  then record w' { state = Status.stopping; next_check_at = now }
                  else w')
                s.workers;
        }
        else record s { workers = insert wid w' s.workers })

abbrev pub port_number : ℤ → Option ℕ
port_number (ℤ.negsuc n) = none
port_number (ℤ.pos n) = if ltb n 1 || ltb 65535 n then none else some n

abbrev pub check_port : Port → Option ℕ → Result (Text × ℕ)
check_port p none = err Error.invalid
check_port p (some n) =
    if not (p.protocol == bytes "udp") || is_empty p.host then err Error.invalid else ok (p.host, n)

-- `endpoint`: the first port of that name decides.
unfoldable pub endpoint : Text → List Port → Result (Text × ℕ)
endpoint name [] = err Error.invalid
endpoint name (p ∷ ports) =
    if p.name == name then check_port p (port_number p.external_port) else endpoint name ports
