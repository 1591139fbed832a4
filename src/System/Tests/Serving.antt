-- ===== src/System/Tests/Serving.antt =====
-- An operator drains a server over HTTP (pkg/fleetmanager/http.go).
use nakama_playflow.Base.{◌≡◌, ◌⊎◌, none, some, bytes}
use nakama_playflow.Agent.Routes.{HttpRequest, Decoder, Route, route_of, serve}
use nakama_playflow.Agent.Routes.Guard.{IsAuthorized, IsRefused, serve_guarded}
use nakama_playflow.Manager.{Manager}
use nakama_playflow.System.Tests.{config, crypto, manager, fleet}

abbrev guarded : Manager
guarded = record manager { cfg = record config { admin_token = bytes "secret" } }

abbrev decoder : Decoder
decoder = record {
  bootstrap_body = λ body. none;
  heartbeat_body = λ body. none;
  drain_body = λ body. some (bytes "w");
  allocate_body = λ body. none;
}

abbrev order : HttpRequest
order = record {
  method = bytes "POST";
  path = bytes "/fleet/v1/admin/drain";
  authorization = bytes "Bearer secret";
  body = bytes "{}";
}

serve_guarded_example :
    (IsAuthorized crypto decoder guarded order (route_of guarded order.method order.path)
      ⊎ IsRefused fleet (serve crypto decoder guarded order 12 fleet))
    × (route_of guarded order.method order.path ≡ Route.admin_allocate
        → guarded.cfg.mode ≡ bytes "mock")
serve_guarded_example = serve_guarded crypto decoder guarded order 12 fleet
