-- ===== src/System/Tests/Storing.antt =====
-- A request for a room on a row of the database (internal/state/postgres.go).
use nakama_playflow.Base.{refl, some, bytes}
use nakama_playflow.State.Store.{update}
use nakama_playflow.State.Postgres.{Codec, Database, Failure, postgres_update}
use nakama_playflow.State.Postgres.Refinement.{Implements, postgres_update-Implements}
use nakama_playflow.Manager.Calls.{cancel_run}
use nakama_playflow.System.Tests.{manager, fleet}

-- A codec that knows one document.
abbrev codec : Codec
codec = record {
  marshal = λ s. some (bytes "{}");
  stored = λ raw. raw;
  unmarshal = λ drawn raw. some fleet;
}

abbrev row : Database
row = record { payload = some (bytes "{}"); drawn = fleet.drawn }

postgres_update-Implements_example :
    Implements codec Failure.no_failure fleet
      (update fleet (cancel_run manager (bytes "ann") (bytes "a") 12))
      (postgres_update codec Failure.no_failure row
        (cancel_run manager (bytes "ann") (bytes "a") 12))
postgres_update-Implements_example =
    postgres_update-Implements codec Failure.no_failure fleet row
      (cancel_run manager (bytes "ann") (bytes "a") 12) (λ raw e. refl)
      (bytes "{}", refl, refl, refl)
