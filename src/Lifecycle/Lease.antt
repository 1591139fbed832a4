-- ===== src/Lifecycle/Lease.antt =====
-- The lease of a controller (`Tick`, `renewLease` and the release in `Run`), by which one of several
-- processes acts on the fleet.
use nakama_playflow.Base.{
  ℕ, ◌+◌, Bool, not, ◌&&◌, ◌||◌, text_eq, ◌==◌, leb, ltb, if◌then◌else◌, Result, ok, err, Error,
}
use nakama_playflow.State.{State}
use nakama_playflow.State.Store.{update}
use nakama_playflow.Manager.{Manager}

-- The head of the transaction of `Tick`.
unfoldable pub acquire_lease : Manager → ℕ → State → Result State
acquire_lease m now s =
    if not (s.leader == m.owner) && ltb now s.lease_until
    then err Error.lease_held
    else ok (record s { leader = m.owner; lease_until = now + 30 })

-- The test before each operation that follows a snapshot.
unfoldable pub holds_lease : Manager → ℕ → State → Bool
holds_lease m now s = s.leader == m.owner && ltb now s.lease_until

unfoldable pub renew_lease_run : Manager → ℕ → State → Result (State × Unit {0})
unfolding holds_lease
renew_lease_run m now s =
    if not (s.leader == m.owner) || leb s.lease_until now
    then err Error.lease_held
    else ok (record s { lease_until = now + 30 }, tt)

unfoldable pub renew_lease : Manager → ℕ → State → State × Result (Unit {0})
renew_lease m now s = update s (renew_lease_run m now)

-- What `Run` does when its context ends.
unfoldable pub release_lease : Manager → State → State × Result (Unit {0})
release_lease m s =
    update s (λ s. ok (if s.leader == m.owner then record s { lease_until = 0 } else s, tt))
