-- ===== src/System/Tests/Telling.antt =====
-- Players are told about their room, and Nakama about the server it asked for
-- (pkg/fleetmanager/lifecycle.go).
use nakama_playflow.Base.{
  ◌≡◌, ◌≤◌, refl, arith, true, [], ◌∷◌, ℕ, Text, text_eqb_iff, bytes, insert, lookup, List,
}
use nakama_playflow.State.{State, Allocation}
use nakama_playflow.State.Store.{update}
use nakama_playflow.Manager.Admin.{notified_run}
use nakama_playflow.Lifecycle.Notify.{notify}
use nakama_playflow.Lifecycle.Notify.Told.{noted_some, alone, notify-lookup}
use nakama_playflow.Lifecycle.Notify.Honest.{IsHonest, noted-IsHonest, notify-IsHonest}
use nakama_playflow.System.Tests.{fleet, fleet-Unique}

notify-lookup_example :
    lookup (bytes "a") (notify (λ user a. true) alone fleet).allocations
    ≡ noted_some (λ user a. true) (lookup (bytes "a") fleet.allocations)
unfolding insert
notify-lookup_example = notify-lookup (λ user a. true) fleet (bytes "a") fleet-Unique (refl, tt)

-- A player may be told of any revision from the first on.
abbrev Heard : Text → ℕ → Type 0
Heard k n = 1 ≤ n

fleet-IsHonest : IsHonest Heard fleet
unfolding insert lookup
fleet-IsHonest k b e = ground (arith, text_eqb_iff (bytes "a") k)

-- In between, another controller notes the ninth revision.
abbrev elsewhere : Allocation → State → State
elsewhere a t = (update t (notified_run a.id 9)).0

notify-IsHonest_example : IsHonest Heard (notify (λ user a. true) elsewhere fleet)
unfolding insert
notify-IsHonest_example =
    notify-IsHonest Heard (λ user a. true) elsewhere fleet (λ h. omega arith, tt)
      (λ a t h. noted-IsHonest Heard a.id 9 t (omega arith) h) fleet-IsHonest

abbrev owed : List (Text × Text)
owed = (bytes "w", bytes "c") ∷ (bytes "v", bytes "d") ∷ []
