-- ===== src/System/Events.antt =====
-- The transactions, as events, and what each does to the stored state.
use nakama_playflow.Base.{ℕ, List, [], ◌∷◌, Text, ℤ}
use nakama_playflow.State.{State, Worker}
use nakama_playflow.State.Store.{update}
use nakama_playflow.Manager.{Manager}
use nakama_playflow.Manager.Calls.{cancel_run, join_run, update_run, delete_run, drain_run}
use nakama_playflow.Manager.Admin.{profile_run, notified_run, retry_creation_run}
use nakama_playflow.Lifecycle.{tick_run, renew_lease_run, release_lease}
use nakama_playflow.Agent.{BootstrapRequest, HeartbeatRequest, bootstrap_run, heartbeat_run}
use nakama_playflow.Provider.{
  Instance, Answer, Readings, start_begin, start_end, reconcile_unknown, poll, stop_check,
  stop_failed, stop_end,
}

-- The transactions that add no allocation.
pub data Event : Type 0 where
  profiles : Manager → Text → Event
  ticks renews : Manager → ℕ → Event
  releases : Manager → Event
  cancels : Manager → Text → Text → ℕ → Event
  joins : Manager → Text → List Text → Text → ℕ → ℕ → Event
  updates : Manager → Text → ℤ → ℕ → Event
  deletes drains : Manager → Text → ℕ → Event
  boots : BootstrapRequest → Event
  beats : Manager → HeartbeatRequest → ℕ → Event
  start_begins : Manager → ℕ → Text → Event
  start_ends : Manager → ℕ → Readings → Text → Answer Instance → Event
  reconciles : Manager → ℕ → Worker → Answer (List Instance) → Event
  polls : Manager → ℕ → Worker → Answer Instance → Event
  stop_checks : Manager → ℕ → ℕ → Worker → Event
  stop_fails : Manager → ℕ → Worker → Event
  stop_ends : Manager → ℕ → Worker → Answer Instance → Event
  notifies : Text → ℕ → Event
  retries : Event

-- The state after the transaction, which is as before if it returned an error.
unfoldable pub apply : Event → State → State
apply (profiles m profile) s = (update s (profile_run m profile)).0
apply (ticks m now) s = (update s (tick_run m now)).0
apply (renews m now) s = (update s (renew_lease_run m now)).0
apply (releases m) s = (release_lease m s).0
apply (cancels m user aid now) s = (update s (cancel_run m user aid now)).0
apply (joins m wid users aid now now') s = (update s (join_run m wid users aid now now')).0
apply (updates m wid n entries) s = (update s (update_run m wid n entries)).0
apply (deletes m wid now) s = (update s (delete_run m wid now)).0
apply (drains m wid now) s = (update s (drain_run m wid now)).0
apply (boots input) s = (update s (bootstrap_run input)).0
apply (beats m input now) s = (update s (heartbeat_run m input now)).0
apply (start_begins m now wid) s = (update s (start_begin m now wid)).0
apply (start_ends m now later wid result) s = (update s (start_end m now later wid result)).0
apply (reconciles m now w listed) s = (update s (reconcile_unknown m now w listed)).0
apply (polls m now w result) s = (update s (poll m now w result)).0
apply (stop_checks m now later w) s = (update s (stop_check m now later w)).0
apply (stop_fails m now w) s = (update s (stop_failed m now w)).0
apply (stop_ends m now w read) s = (update s (stop_end m now w read)).0
apply (notifies aid revision) s = (update s (notified_run aid revision)).0
apply retries s = (update s retry_creation_run).0

unfoldable pub run : List Event → State → State
unfolding apply
run [] s = s
run (e ∷ es) s = run es (apply e s)
