-- ===== src/System/Tests/Reading.antt =====
-- The fleet as the calls that read it answer (pkg/fleetmanager/manager.go).
use nakama_playflow.Base.{
  ◌≡◌, refl, false, [], ◌∷◌, bytes, text_ltb, arith, ok, lookup, insert, Unique, copies, sort,
  text_eqb, List,
}
use nakama_playflow.State.{State, Allocation, Session, Phase}
use nakama_playflow.Manager.{contains}
use nakama_playflow.Manager.Instance.{InstanceInfo}
use nakama_playflow.Manager.Listing.{Filter, infos, listed}
use nakama_playflow.Manager.Listing.Contents.{matching}
use nakama_playflow.Manager.Listing.Pages.{walk, walk_complete}
use nakama_playflow.Manager.Listing.Order.{IsRising}
use nakama_playflow.Manager.Assignment.{Assignment, assignment, latest, admit, seat_of, expiry}
use nakama_playflow.Manager.Assignment.Admission.{Serves, assignment-Serves}
use nakama_playflow.System.Tests.{crypto, manager, worker, request, fleet}

abbrev any : Filter
any = record { state = []; region = [] }

workers-Unique : Unique fleet.workers
unfolding insert text_eqb copies
workers-Unique k = ground arith

walk_complete_example :
    IsRising (matching any [] fleet)
    × ((out : List InstanceInfo) × (infos fleet (matching any [] fleet) ≡ ok out)
        × (walk any 1 5 [] fleet ≡ ok out))
unfolding insert listed sort text_ltb
walk_complete_example =
    walk_complete any 1 5 fleet workers-Unique ((omega arith, tt), tt) (omega arith) (omega arith)
      (omega arith)

abbrev seat : Session
seat = record {
  id = bytes "s";
  user_id = bytes "ann";
  seat = 0;
  connected = false;
  ever_connected = false;
  reconnect_until = 0;
  expires_at = 50;
}

abbrev seated : Allocation
seated = record request { state = Phase.assigned; worker_id = bytes "w"; sessions = seat ∷ [] }

abbrev serving : State
serving = record fleet { allocations = insert (bytes "a") seated [] }

abbrev admitted : Assignment
admitted = admit crypto manager (bytes "ann") worker seated seat (bytes "n") false 50

serving-Unique : Unique serving.allocations
unfolding insert text_eqb copies
serving-Unique k = ground arith

assignment-Serves_example :
    Serves crypto manager (bytes "ann") [] (bytes "n") false 12 serving admitted
unfolding insert assignment latest contains text_eqb lookup seat_of expiry
assignment-Serves_example =
    assignment-Serves crypto manager (bytes "ann") [] (bytes "n") false 12 serving admitted refl
      refl serving-Unique
      (
        record {
          id_there = refl;
          room_there = refl;
          epoch_there = omega arith;
          seats = ((refl, omega arith), tt);
        },
        tt,
      )
      (refl, tt) refl
