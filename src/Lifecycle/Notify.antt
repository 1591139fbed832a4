-- ===== src/Lifecycle/Notify.antt =====
-- Telling players about their allocations (`notify`, pkg/fleetmanager/lifecycle.go). Whether a
-- notification is sent is an argument, by its user and the allocation it is about; so is what other transactions do
-- to the state between the view and each update.
pub mod Told
pub mod Honest
use nakama_playflow.Base.{ℕ, Bool, not, List, [], ◌∷◌, Text, leb, exists, if◌then◌else◌}
use nakama_playflow.State.{State, Allocation}
use nakama_playflow.State.Store.{update}
use nakama_playflow.Manager.Admin.{notified_run}

-- The loop over the users, which goes on after a failure.
abbrev pub tells_all : (Text → Allocation → Bool) → Allocation → Bool
tells_all send a = not (exists (λ user. not (send user a)) a.user_ids)

-- One round of the loop over the allocations of the snapshot, on the state that is stored by then.
abbrev pub tell : (Text → Allocation → Bool) → Allocation → State → State
tell send a t =
    if leb a.revision a.notified_revision
    then t
    else if tells_all send a
    then (update t (notified_run a.id a.revision)).0
    else t

-- Before each round comes what others did since the one before.
unfoldable pub tell_each :
    (Text → Allocation → Bool)
    → (Allocation → State → State)
    → List (Text × Allocation)
    → State
    → State
unfolding update
tell_each send between [] t = t
tell_each send between ((aid, a) ∷ rest) t = tell_each send between rest (tell send a (between a t))

unfoldable pub notify : (Text → Allocation → Bool) → (Allocation → State → State) → State → State
unfolding tell_each
notify send between s = tell_each send between s.allocations s
