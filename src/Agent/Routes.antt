-- ===== src/Agent/Routes.antt =====
-- The handler of all requests over HTTP (`HTTPHandler` and `admin`, pkg/fleetmanager/http.go). The JSON
-- decoder at each type of body is an argument.
pub mod Guard
use nakama_playflow.Base.{
  ℕ, Bool, true, false, not, ◌||◌, ◌&&◌, List, [], ◌∷◌, ◌++◌, Option, none, some, Text, text_eq,
  ◌==◌, bytes, drop, has_prefix, length, if◌then◌else◌, Result, ok, err, Error,
}
use nakama_playflow.State.{State}
use nakama_playflow.State.Store.{update}
use nakama_playflow.Token.{Crypto, derive, encoded}
use nakama_playflow.Manager.{Manager, valid_users}
use nakama_playflow.Manager.Calls
use nakama_playflow.Manager.Calls.{allocate}
use nakama_playflow.Manager.Admin.{retry_creation_run}
use nakama_playflow.Agent.Reports.{BootstrapRequest, HeartbeatRequest, equal_token}
use nakama_playflow.Agent.Heartbeat.{
  HeartbeatResponse, Reply, answer, refuse, status_of, bootstrap, heartbeat,
}

pub record HttpRequest : Type 0 where
  pub method : Text
  pub path : Text
  pub authorization : Text
  pub body : Text

-- `decodeBody` at each type of body.
pub record Decoder : Type 0 where
  pub bootstrap_body : Text → Option BootstrapRequest
  pub heartbeat_body : Text → Option HeartbeatRequest
  pub drain_body : Text → Option Text
  pub allocate_body : Text → Option (List Text × Text)

-- What is written: the body of a success, or the status of an error. `unrouted` is what the router of
-- the standard library answers by itself.
pub data HttpAnswer : Type 0 where
  booted : Text → HttpAnswer
  beaten : HeartbeatResponse → HttpAnswer
  document : State → HttpAnswer
  done : HttpAnswer
  allocated : Text → HttpAnswer
  failed : ℕ → HttpAnswer
  unrouted : HttpAnswer

-- `bearer`, with `strings.TrimPrefix`.
abbrev pub trim_prefix : Text → Text → Text
trim_prefix s prefix = if has_prefix s prefix then drop (length prefix) s else s

unfoldable pub bearer : HttpRequest → Text
bearer r = trim_prefix r.authorization (bytes "Bearer ")

pub data Route : Type 0 where
  agent_bootstrap agent_heartbeat admin_retry admin_status admin_drain admin_allocate nowhere :
      Route

abbrev pub post_route : Manager → Text → Route
post_route m path =
    if path == bytes "/fleet/v1/agent/bootstrap"
    then Route.agent_bootstrap
    else if path == bytes "/fleet/v1/agent/heartbeat"
    then Route.agent_heartbeat
    else if path == bytes "/fleet/v1/admin/retry-creation"
    then Route.admin_retry
    else if path == bytes "/fleet/v1/admin/drain"
    then Route.admin_drain
    else if path == bytes "/fleet/v1/admin/allocate" && m.cfg.mode == bytes "mock"
    then Route.admin_allocate
    else Route.nowhere

-- The patterns of the router. One for GET matches HEAD too.
unfoldable pub route_of : Manager → Text → Text → Route
route_of m method path =
    if method == bytes "POST"
    then post_route m path
    else if (method == bytes "GET" || method == bytes "HEAD")
        && path == bytes "/fleet/v1/admin/status"
    then Route.admin_status
    else Route.nowhere

abbrev pub bootstrap_token : Crypto → Manager → Text → Text
bootstrap_token c m worker_id =
    encoded (derive c m.cfg.signing_key (bytes "bootstrap:" ++ worker_id))

abbrev pub agent_token : Crypto → Manager → Text → Text → Text
agent_token c m worker_id boot_id =
    encoded (derive c m.cfg.signing_key (bytes "agent:" ++ worker_id ++ bytes ":" ++ boot_id))

abbrev pub written {ℓ} : {A : Type ℓ} → (A → HttpAnswer) → State × Result A → State × HttpAnswer
written f (s, ok a) = (s, f a)
written f (s, err e) = (s, HttpAnswer.failed (status_of e))

abbrev pub replied {ℓ} : {A : Type ℓ} → (A → HttpAnswer) → State × Reply A → State × HttpAnswer
replied f (s, answer a) = (s, f a)
replied f (s, refuse code) = (s, HttpAnswer.failed code)

-- The token that a server gets for its body, which has been decoded by then.
abbrev pub token_for : Crypto → Manager → Option BootstrapRequest → Text
token_for c m none = []
token_for c m (some input) = agent_token c m input.worker_id input.boot_id

abbrev pub serve_drain : Manager → Option Text → ℕ → State → State × HttpAnswer
serve_drain m none now s = (s, HttpAnswer.failed 400)
serve_drain m (some worker_id) now s =
    written (λ _. HttpAnswer.done) (Calls.drain m worker_id now s)

abbrev pub serve_allocate : Manager → Option (List Text × Text) → ℕ → State → State × HttpAnswer
serve_allocate m none now s = (s, HttpAnswer.failed 400)
serve_allocate m (some (users, key)) now s =
    if not (valid_users users)
    then (s, HttpAnswer.failed 400)
    else written HttpAnswer.allocated (allocate m users key now s)

-- `admin`.
abbrev pub admin : Manager → HttpRequest → State → State × HttpAnswer → State × HttpAnswer
admin m r s next =
    if not (equal_token (bearer r) m.cfg.admin_token) then (s, HttpAnswer.failed 403) else next

abbrev pub serve_route :
    Crypto → Decoder → Manager → HttpRequest → ℕ → State → Route → State × HttpAnswer
serve_route c d m r now s Route.agent_bootstrap =
    replied (λ _. HttpAnswer.booted (token_for c m (d.bootstrap_body r.body)))
      (bootstrap m (bootstrap_token c m) (d.bootstrap_body r.body) s)
serve_route c d m r now s Route.agent_heartbeat =
    replied HttpAnswer.beaten
      (heartbeat m (agent_token c m) (bearer r) (d.heartbeat_body r.body) now s)
serve_route c d m r now s Route.admin_retry =
    admin m r s (written (λ _. HttpAnswer.done) (update s retry_creation_run))
serve_route c d m r now s Route.admin_status = admin m r s (s, HttpAnswer.document s)
serve_route c d m r now s Route.admin_drain =
    admin m r s (serve_drain m (d.drain_body r.body) now s)
serve_route c d m r now s Route.admin_allocate =
    admin m r s (serve_allocate m (d.allocate_body r.body) now s)
serve_route c d m r now s Route.nowhere = (s, HttpAnswer.unrouted)

-- `HTTPHandler`.
unfoldable pub serve : Crypto → Decoder → Manager → HttpRequest → ℕ → State → State × HttpAnswer
serve c d m r now s = serve_route c d m r now s (route_of m r.method r.path)
