-- ===== src/Lifecycle/Tick.antt =====
-- The transaction of `Tick` (pkg/fleetmanager/lifecycle.go).
use nakama_playflow.Base.{ℕ, Result, ok, ◌>>=◌}
use nakama_playflow.State.{State}
use nakama_playflow.State.Store.{update}
use nakama_playflow.Manager.{Manager}
use nakama_playflow.Lifecycle.Lease.{acquire_lease}
use nakama_playflow.Lifecycle.Watch.{watch_workers, watch_allocations, prune_history, prune_workers}
use nakama_playflow.Lifecycle.Placement.{assign_all, place_all}
use nakama_playflow.Lifecycle.Scaling.{queue_length, open_count, scale_up, settle_all}

-- What follows the rooms' placement: `q` and `ready` are counted before a worker is added.
unfoldable pub scale : Manager → ℕ → State → State
scale m now s = settle_all m now (queue_length s) (open_count s) (scale_up m now s)

unfoldable pub tick_run : Manager → ℕ → State → Result (State × Unit {0})
unfolding scale
tick_run m now s = do
  leased ← acquire_lease m now s
  let watched = watch_allocations m now (watch_workers m now leased)
  assigned ← assign_all m now (prune_workers now (prune_history now watched))
  ok (scale m now (place_all m now assigned), tt)

unfoldable pub tick : Manager → ℕ → State → State × Result (Unit {0})
tick m now s = update s (tick_run m now)
