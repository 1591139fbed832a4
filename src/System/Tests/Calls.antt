-- ===== src/System/Tests/Calls.antt =====
-- A start that the provider refuses, and a list of one page (internal/playflow/client.go).
use nakama_playflow.Base.{
  ◌≡◌, refl, ℕ, zero, suc, true, false, [], ◌∷◌, some, none, bytes, pos, text_eqb, is_blank,
  parse_int,
}
use nakama_playflow.Manager.{contains}
use nakama_playflow.Provider.{Instance}
use nakama_playflow.Provider.Request.{StartRequest, start_request}
use nakama_playflow.Client.{
  Cause, ApiError, local_error, Outcome, done, Exchange, Call, Input, request, start, valid_id,
  ListResponse, list, list_from, add_servers,
}
use nakama_playflow.Client.Creation.{IsHonest, IsLocal, leaves, start-IsHonest}
use nakama_playflow.Client.Snapshot.{IsSnapshot, list-IsSnapshot}
use nakama_playflow.System.Tests.{crypto, manager, worker}

abbrev input : StartRequest
input = start_request crypto manager worker

abbrev call : Call
call = record {
  ended = Cause.no_cause;
  exchange = Exchange.response 503 [] (some []);
  parse_time = λ value. none;
  now = 10;
}

abbrev refused : ApiError
refused = record (local_error (bytes "start") (bytes "provider_rejected_request")) {
  status_code = 503;
  outcome_unknown = true;
}

start-IsHonest_example :
    (leaves (λ r. Input.body []) input call ≡ true → IsHonest call.exchange refused)
    × (leaves (λ r. Input.body []) input call ≡ false → IsLocal refused)
unfolding start request start_request is_blank parse_int
start-IsHonest_example = start-IsHonest (λ r. Input.body []) (λ b. none) input call refused refl

abbrev instance_1 : Instance
instance_1 = record {
  instance_id = bytes "i";
  status = bytes "running";
  network_ports = [];
  started_at = none;
  fleet_owner = none;
  owner_worker = none;
  ttl = pos 0;
}

-- Two pages of which the second repeats the instance of the first.
abbrev fetch : ℕ → ℕ → Outcome ListResponse
fetch zero offset =
    done (record { servers = instance_1 ∷ []; limit = pos 1; offset = pos 0; has_more = some true })
fetch (suc n) offset =
    done
      (record { servers = instance_1 ∷ []; limit = pos 1; offset = pos 1; has_more = some false })

list-IsSnapshot_example : IsSnapshot fetch (instance_1 ∷ [])
unfolding list list_from add_servers contains text_eqb valid_id
list-IsSnapshot_example = list-IsSnapshot fetch (instance_1 ∷ []) refl
