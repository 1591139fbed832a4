-- ===== src/System/Tests/Matches.antt =====
-- A match on the sample fleet (pkg/fleetmanager/nakama.go), and what a tick does next (lifecycle.go).
use nakama_playflow.Base.{
  ◌≡◌, refl, false, [], ◌∷◌, ◌+◌, some, none, Text, bytes, arith, lookup, insert, List, text_eqb,
  text_eqb_iff, Unique, copies,
}
use nakama_playflow.State.{State, Worker, Allocation, empty_state}
use nakama_playflow.Manager.{
  new_record, new_allocation, allocation, find_request, holds_user, contains, valid_users,
  same_users,
}
use nakama_playflow.Manager.Assignment.{assignment, latest}
use nakama_playflow.Lifecycle.Due.{picked}
use nakama_playflow.Lifecycle.Due.Next.{IsNext, picked-IsNext}
use nakama_playflow.Hooks.{
  Property, MatchEntry, accepted, matched, match_key, collect, validate_client_profile,
  AssignmentCodec, empty_request, assignment_rpc,
}
use nakama_playflow.System.Requests.Shuffled.{IsShuffled}
use nakama_playflow.Hooks.Matches.{MatchEnds, matched-MatchEnds, matched_once}
use nakama_playflow.Hooks.Assignments.{IsAnswer, assignment_rpc-IsAnswer}
use nakama_playflow.Manager.Calls.{allocate, allocate_run}
use nakama_playflow.State.Store.{update}
use nakama_playflow.System.Tests.{
  crypto, manager, worker, request, fleet, fleet-Unique, fleet-InOrder,
}

abbrev profile : List (Text × Property)
profile =
    (bytes "build_hash", Property.text (bytes "dm-v1"))
    ∷ (bytes "region", Property.text (bytes "eu"))
    ∷ []

abbrev cid : MatchEntry
cid = record { properties = profile; user_id = bytes "cid"; ticket = bytes "2" }

abbrev dan : MatchEntry
dan = record { properties = profile; user_id = bytes "dan"; ticket = bytes "1" }

abbrev sha : Text → Text
sha message = bytes "h"

abbrev after_match : State
after_match = (matched sha manager (cid ∷ dan ∷ []) 11 fleet).0

matched-MatchEnds_example :
    MatchEnds sha manager (cid ∷ dan ∷ []) 11 fleet (matched sha manager (cid ∷ dan ∷ []) 11 fleet)
matched-MatchEnds_example = matched-MatchEnds sha manager (cid ∷ dan ∷ []) 11 fleet

abbrev turned : List (Text × Allocation)
turned =
    (
      0 ∷ [],
      new_allocation (0 ∷ []) (1 ∷ []) (bytes "cid" ∷ bytes "dan" ∷ []) (bytes "matchmaker:h") 11
          180,
    )
    ∷ (bytes "a", request)
    ∷ []

turned-IsShuffled : IsShuffled after_match turned
unfolding matched collect validate_client_profile allocate allocate_run allocation find_request
    holds_user contains valid_users same_users lookup insert text_eqb update empty_state match_key
    copies
turned-IsShuffled = record {
  unique = λ k. ground (arith, text_eqb_iff (bytes "a") k, text_eqb_iff (0 ∷ []) k);
  same = λ k. ground (arith, text_eqb_iff (bytes "a") k, text_eqb_iff (0 ∷ []) k);
}

abbrev turned_match : State
turned_match = record after_match { allocations = turned }

matched_once_example :
    (matched sha manager (cid ∷ dan ∷ []) 50 turned_match
      ≡ (record turned_match { revision = turned_match.revision + 1 }, accepted []))
    × (matched sha manager (dan ∷ cid ∷ []) 50 turned_match
        ≡ (record turned_match { revision = turned_match.revision + 1 }, accepted []))
unfolding matched collect validate_client_profile allocate allocate_run allocation find_request
    holds_user contains valid_users same_users lookup insert text_eqb update empty_state match_key
matched_once_example =
    matched_once sha manager cid dan 11 50 fleet after_match [] turned refl refl fleet-InOrder
      (λ h. refl, (λ h. refl, tt)) turned-IsShuffled

abbrev codec : AssignmentCodec
codec = record {
  decode = λ payload. some empty_request;
  decode_text = λ raw. some none;
  marshal = λ out. out.allocation_id;
}

assignment_rpc-IsAnswer_example :
    IsAnswer crypto codec manager (bytes "ann") [] (bytes "n") false 12 fleet (bytes "a")
unfolding insert assignment_rpc assignment latest contains text_eqb
assignment_rpc-IsAnswer_example =
    assignment_rpc-IsAnswer crypto codec manager (bytes "ann") [] (bytes "n") false 12 fleet
      (bytes "a") refl fleet-Unique
      (record { id_there = refl; room_there = refl; epoch_there = omega arith; seats = tt }, tt)
      (refl, tt) refl

abbrev fresh_worker : Worker
fresh_worker = new_record manager (bytes "v") 3 4

abbrev two_workers : State
two_workers = record fleet { workers = (bytes "w", worker) ∷ (bytes "v", fresh_worker) ∷ [] }

two_workers-Unique : Unique two_workers.workers
unfolding copies text_eqb
two_workers-Unique k = ground (arith, k)

picked-IsNext_example : IsNext 12 two_workers (picked 12 two_workers)
picked-IsNext_example = picked-IsNext 12 two_workers two_workers-Unique
