-- ===== src/Lifecycle/Callbacks/Once.antt =====
-- Which callbacks are delivered, and how often (`deliverCallbacks`, pkg/fleetmanager/lifecycle.go).
use nakama_playflow.Base.{
  ℕ, ◌≡◌, true, false, ◌&&◌, ◌==◌, List, [], ◌∷◌, Option, none, some, Text, lookup,
}
use nakama_playflow.State.{State, Worker, Status, status_eq, phase_eq}
use nakama_playflow.Manager.{Manager}
use nakama_playflow.Lifecycle.Callbacks.{CreateStatus, Delivery, first_room, is_served, is_given_up}

-- What a delivery is to the callback that is owed for a worker: it invokes that callback, with that
-- worker, which takes players and has its first room open, or with nothing, and then that worker is
-- gone or late.
pub Answers : Manager → ℕ → State → Text → Text → Delivery → Type 0
Answers m now s wid callback d =
    (d.callback ≡ callback)
    × ((w : Worker) × (lookup wid s.workers ≡ some w) × elim d.status [
      | CreateStatus.create_success ↦
          (d.worker ≡ some w)
          × (d.room ≡ first_room s w)
          × ((w.state == Status.ready) ≡ true)
          × (is_served (first_room s w) ≡ true)
      | CreateStatus.create_timeout ↦
          (d.worker ≡ none) × (d.room ≡ none) × (is_given_up m now w ≡ true)
    ])

-- There is nothing to say of a worker: none has the identifier, or it is neither up nor given up.
abbrev pub IsUndecided : Manager → ℕ → State → Text → Type 0
IsUndecided m now s wid =
    (w : Worker)
    → lookup wid s.workers ≡ some w
    → ((w.state == Status.ready && is_served (first_room s w)) ≡ false)
      × (is_given_up m now w ≡ false)

-- Each callback that is owed has one delivery of its own or stays owed, in the order of the list.
pub data Sorted (m : Manager) (now : ℕ) (s : State)
    : List (Text × Text) → List Delivery → List (Text × Text) → Type 0 where
  done : Sorted m now s [] [] []
  told :
      {wid callback : Text} {owed kept : List (Text × Text)} {d : Delivery} {ds : List Delivery}
      → Answers m now s wid callback d
      → Sorted m now s owed ds kept
      → Sorted m now s ((wid, callback) ∷ owed) (d ∷ ds) kept
  held :
      {wid callback : Text} {owed kept : List (Text × Text)} {ds : List Delivery}
      → IsUndecided m now s wid
      → Sorted m now s owed ds kept
      → Sorted m now s ((wid, callback) ∷ owed) ds ((wid, callback) ∷ kept)
