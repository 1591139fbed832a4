-- ===== src/Agent/Routes/Guard.antt =====
-- Who may do what over HTTP (pkg/fleetmanager/http.go).
use nakama_playflow.Base.{
  ◌==◌, ℕ, ◌≡◌, refl, inl, inr, ◌⊎◌, Bool, true, false, ◌||◌, Option, none, some, Text, Bool-cases,
  is_empty, ltb, length, text_eq, text_eqb-eq, bytes, arith,
}
use nakama_playflow.State.{State}
use nakama_playflow.Token.{Crypto}
use nakama_playflow.Manager.{Manager}
use nakama_playflow.Agent.Reports.{BootstrapRequest, HeartbeatRequest, equal_token, valid_heartbeat}
use nakama_playflow.Agent.Heartbeat.{refuse, bootstrap, heartbeat}
use nakama_playflow.Agent.Routes.{
  HttpRequest, Decoder, HttpAnswer, admin, bearer, Route, route_of, bootstrap_token, agent_token,
  serve_route, serve,
}

-- A server that starts shows the token of its worker, and runs the build of the controller.
pub record IsStarting (c : Crypto) (d : Decoder) (m : Manager) (r : HttpRequest) : Type 0 where
  pub input : BootstrapRequest
  pub read : d.bootstrap_body r.body ≡ some input
  pub shown : equal_token input.bootstrap_token (bootstrap_token c m input.worker_id) ≡ true
  pub same_build : input.build_hash ≡ m.cfg.build_hash

-- A server that reports shows the token of its worker and its boot.
pub record IsReporting (c : Crypto) (d : Decoder) (m : Manager) (r : HttpRequest) : Type 0 where
  pub input : HeartbeatRequest
  pub read : d.heartbeat_body r.body ≡ some input
  pub shown : equal_token (bearer r) (agent_token c m input.worker_id input.boot_id) ≡ true

-- By the route.
pub IsAuthorized : Crypto → Decoder → Manager → HttpRequest → Route → Type 0
IsAuthorized c d m r Route.agent_bootstrap = IsStarting c d m r
IsAuthorized c d m r Route.agent_heartbeat = IsReporting c d m r
IsAuthorized c d m r Route.nowhere = ⊥
IsAuthorized c d m r _ = equal_token (bearer r) m.cfg.admin_token ≡ true

abbrev pub is_failure : HttpAnswer → Bool
is_failure (HttpAnswer.failed code) = true
is_failure HttpAnswer.unrouted = true
is_failure _ = false

-- Nothing has changed, and nothing is told but a failure.
abbrev pub IsRefused : State → State × HttpAnswer → Type 0
IsRefused s (t, x) = (t ≡ s) × (is_failure x ≡ true)

bootstrap_guard :
    (c : Crypto) (d : Decoder) (m : Manager) (r : HttpRequest) (now : ℕ) (s : State)
    (o : Option BootstrapRequest)
    → d.bootstrap_body r.body ≡ o
    → IsStarting c d m r ⊎ ((code : ℕ) × (bootstrap m (bootstrap_token c m) o s ≡ (s, refuse code)))
unfolding bootstrap
bootstrap_guard c d m r now s none e = inr (400, refl)
bootstrap_guard c d m r now s (some input) e =
    elim (Bool-cases
      (is_empty input.worker_id || is_empty input.boot_id || ltb 128 (length input.boot_id))) [
        | inl g ↦ inr (400, rw g refl)
        | inr g ↦
            elim (Bool-cases
              (equal_token input.bootstrap_token (bootstrap_token c m input.worker_id))) [
                | inr f ↦ inr (403, rw (g, f) refl)
                | inl f ↦ elim (Bool-cases (input.build_hash == m.cfg.build_hash)) [
                  | inr k ↦ inr (403, rw (g, f, k) refl)
                  | inl k ↦ inl (record {
                    input = input;
                    read = e;
                    shown = f;
                    same_build = text_eqb-eq input.build_hash m.cfg.build_hash k;
                  })
                ]
              ]
      ]

heartbeat_guard :
    (c : Crypto) (d : Decoder) (m : Manager) (r : HttpRequest) (now : ℕ) (s : State)
    (o : Option HeartbeatRequest)
    → d.heartbeat_body r.body ≡ o
    → IsReporting c d m r
      ⊎ ((code : ℕ) × (heartbeat m (agent_token c m) (bearer r) o now s ≡ (s, refuse code)))
unfolding heartbeat
heartbeat_guard c d m r now s none e = inr (400, refl)
heartbeat_guard c d m r now s (some input) e =
    elim (Bool-cases (equal_token (bearer r) (agent_token c m input.worker_id input.boot_id))) [
      | inl f ↦ inl (record { input = input; read = e; shown = f })
      | inr f ↦ elim (Bool-cases (valid_heartbeat m.cfg input)) [
        | inl g ↦ inr (403, rw (g, f) refl)
        | inr g ↦ inr (400, rw g refl)
      ]
    ]

admin_guard :
    (m : Manager) (r : HttpRequest) (s : State) (next : State × HttpAnswer)
    → (equal_token (bearer r) m.cfg.admin_token ≡ true) ⊎ IsRefused s (admin m r s next)
admin_guard m r s next = elim (Bool-cases (equal_token (bearer r) m.cfg.admin_token)) [
  | inl e ↦ inl e
  | inr e ↦ inr (rw e (refl, refl))
]

route_guard :
    (c : Crypto) (d : Decoder) (m : Manager) (r : HttpRequest) (now : ℕ) (s : State) (route : Route)
    → IsAuthorized c d m r route ⊎ IsRefused s (serve_route c d m r now s route)
unfolding IsAuthorized
route_guard c d m r now s Route.agent_bootstrap =
    elim (bootstrap_guard c d m r now s (d.bootstrap_body r.body) refl) [
      | inl a ↦ inl a
      | inr (code, e) ↦ inr (rw e (refl, refl))
    ]
route_guard c d m r now s Route.agent_heartbeat =
    elim (heartbeat_guard c d m r now s (d.heartbeat_body r.body) refl) [
      | inl a ↦ inl a
      | inr (code, e) ↦ inr (rw e (refl, refl))
    ]
route_guard c d m r now s Route.admin_retry = admin_guard m r s _
route_guard c d m r now s Route.admin_status = admin_guard m r s _
route_guard c d m r now s Route.admin_drain = admin_guard m r s _
route_guard c d m r now s Route.admin_allocate = admin_guard m r s _
route_guard c d m r now s Route.nowhere = inr (refl, refl)

allocates_in_mock :
    (m : Manager) (method path : Text)
    → route_of m method path ≡ Route.admin_allocate
    → m.cfg.mode ≡ bytes "mock"
unfolding route_of
allocates_in_mock m method path h = text_eqb-eq m.cfg.mode (bytes "mock") (ground (arith, h))

-- A request over HTTP, whatever its method, path and body, is refused with nothing changed and nothing
-- told, unless it shows the token that its route asks for: the admin token of the configuration, the
-- token that the worker which starts was given, with the build of the manager, or the one of the worker
-- that reports and its boot. Room requests are served over HTTP only in mock mode.
pub serve_guarded :
    (c : Crypto) (d : Decoder) (m : Manager) (r : HttpRequest) (now : ℕ) (s : State)
    → (IsAuthorized c d m r (route_of m r.method r.path) ⊎ IsRefused s (serve c d m r now s))
      × (route_of m r.method r.path ≡ Route.admin_allocate → m.cfg.mode ≡ bytes "mock")
unfolding serve
serve_guarded c d m r now s =
    (route_guard c d m r now s (route_of m r.method r.path), allocates_in_mock m r.method r.path)
