-- ===== src/Lifecycle/Callbacks.antt =====
-- The answers to `Create` that are owed to Nakama (`deliverCallbacks`, pkg/fleetmanager/lifecycle.go).
-- The callbacks are kept in the process: which one is owed for which worker.
pub mod Once
use nakama_playflow.Base.{
  ℕ, ◌+◌, Bool, true, ◌&&◌, ◌||◌, List, [], ◌∷◌, Option, none, some, Text, text_eq, ◌==◌, ltb,
  is_empty, lookup, if◌then◌else◌,
}
use nakama_playflow.State.{State, Worker, Allocation, Status, Phase, status_eq, phase_eq}
use nakama_playflow.Manager.{Manager}

pub data CreateStatus : Type 0 where
  create_success create_timeout : CreateStatus

-- The instance that the callback is invoked with is the worker's, the sessions are the room's; after a
-- timeout it is invoked with an error and neither.
pub record Delivery : Type 0 where
  pub callback : Text
  pub status : CreateStatus
  pub worker : Option Worker
  pub room : Option Allocation

abbrev pub first_room : State → Worker → Option Allocation
first_room s w =
    if is_empty w.initial_allocation_id then none else lookup w.initial_allocation_id s.allocations

abbrev pub is_served : Option Allocation → Bool
is_served none = true
is_served (some a) = a.state == Phase.assigned || a.state == Phase.active

-- `now - created > timeout`, written as a sum.
abbrev pub is_given_up : Manager → ℕ → Worker → Bool
is_given_up m now w =
    w.state == Status.failed
    || w.state == Status.stopped
    || w.state == Status.lost
    || ltb (w.created_at + m.cfg.launch_timeout) now

unfoldable pub delivery_of : Manager → ℕ → State → Text → Option Worker → Option Delivery
delivery_of m now s callback none = none
delivery_of m now s callback (some w) =
    if w.state == Status.ready && is_served (first_room s w)
    then some (record {
      callback = callback;
      status = CreateStatus.create_success;
      worker = some w;
      room = first_room s w;
    })
    else if is_given_up m now w
    then some (record {
      callback = callback;
      status = CreateStatus.create_timeout;
      worker = none;
      room = none;
    })
    else none

-- One round of the loop over the callbacks: one that is ready moves to the deliveries.
abbrev pub sort_out :
    Option Delivery
    → Text × Text
    → List Delivery × List (Text × Text)
    → List Delivery × List (Text × Text)
sort_out none owed (ready, kept) = (ready, owed ∷ kept)
sort_out (some d) owed (ready, kept) = (d ∷ ready, kept)

-- The deliveries that are made, with one reading of the clock for all of the loop, and the callbacks that are owed still.
unfoldable pub deliver_callbacks :
    Manager → ℕ → State → List (Text × Text) → List Delivery × List (Text × Text)
unfolding delivery_of lookup
deliver_callbacks m now s [] = ([], [])
deliver_callbacks m now s ((wid, callback) ∷ owed) =
    sort_out (delivery_of m now s callback (lookup wid s.workers)) (wid, callback)
      (deliver_callbacks m now s owed)
