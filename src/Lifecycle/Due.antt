-- ===== src/Lifecycle/Due.antt =====
-- The one operation of a tick at the provider (`Tick`, pkg/fleetmanager/lifecycle.go).
pub mod Next
use nakama_playflow.Base.{
  ℕ, Bool, true, false, not, ◌&&◌, ◌||◌, List, [], ◌∷◌, Option, none, some, Text, text_eq, text_ltb,
  ◌==◌, nat_eq, leb, ltb, is_empty, take, lookup, sort, if◌then◌else◌,
}
use nakama_playflow.State.{State, Worker, Status, status_eq}

-- The states in which a worker with an instance is polled.
abbrev pub is_polled : Worker → Bool
is_polled w =
    w.state == Status.launching
    || w.state == Status.bootstrapping
    || w.state == Status.ready
    || w.state == Status.suspect
    || w.state == Status.draining
    || w.state == Status.lost

unfoldable pub is_due : ℕ → Worker → Bool
is_due now w =
    w.state == Status.requested
    || leb w.next_check_at now
      && (w.state == Status.unknown
          || w.state == Status.stopping
          || not (is_empty w.provider_id) && is_polled w)

-- The loop over the workers.
unfoldable pub due_ids : ℕ → List (Text × Worker) → List Text
unfolding is_due
due_ids now [] = []
due_ids now ((wid, w) ∷ ws) = let rest = due_ids now ws in if is_due now w then wid ∷ rest else rest

abbrev pub due_of : Worker → ℕ
due_of w = if w.next_check_at == 0 then w.updated_at else w.next_check_at

-- The instant of a worker that is stored; no other is asked for.
abbrev pub due_at : Option Worker → ℕ
due_at none = 0
due_at (some w) = due_of w

abbrev pub earlier : ℕ → ℕ → Text → Text → Bool
earlier a_due b_due a b = if a_due == b_due then text_ltb a b else ltb a_due b_due

unfoldable pub due_before : State → Text → Text → Bool
unfolding lookup
due_before s a b = earlier (due_at (lookup a s.workers)) (due_at (lookup b s.workers)) a b

-- The operation that is started, if any: the least of those that are due.
unfoldable pub picked : ℕ → State → List Text
unfolding due_ids due_before sort
picked now s = take 1 (sort (due_before s) (due_ids now s.workers))

-- What is done for a worker.
pub data Operation : Type 0 where
  idle starts reconciles polls stops : Operation

abbrev pub if_due : ℕ → Worker → Operation → Operation
if_due now w operation = if leb w.next_check_at now then operation else Operation.idle

unfoldable pub operation : ℕ → Worker → Operation
operation now w = elim w.state [
  | Status.requested ↦ Operation.starts
  | Status.unknown ↦ if_due now w Operation.reconciles
  | Status.starting ↦ Operation.idle
  | Status.stopped ↦ Operation.idle
  | Status.failed ↦ Operation.idle
  | Status.stopping ↦ if_due now w Operation.stops
  | _ ↦ if not (is_empty w.provider_id) then if_due now w Operation.polls else Operation.idle
]
