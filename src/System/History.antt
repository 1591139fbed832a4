-- ===== src/System/History.antt =====
-- What holds of an allocation over any history of transactions.
use nakama_playflow.Base.{
  ℕ, ◌≡◌, refl, true, List, [], ◌∷◌, Option, none, some, Text, arith, lookup, Unique, Result, ok,
  err, if-cases, ◌==◌, ◌||◌, not, leb, text_eq,
}
use nakama_playflow.State.{State, Allocation, terminal}
use nakama_playflow.State.Store.{update}
use nakama_playflow.Manager.{Manager}
use nakama_playflow.Manager.Admin.{retry_creation_run}
use nakama_playflow.Lifecycle.{renew_lease_run, release_lease}
use nakama_playflow.Evolution.Phases.{Kept, Steady, Steady-refl, Steady-trans}
use nakama_playflow.Evolution.Steps.{Moves}
use nakama_playflow.Evolution.Loops.{Commits}
use nakama_playflow.Evolution.Scaling.{tick_run-Commits}
use nakama_playflow.Evolution.Heartbeat.{heartbeat_run-Commits, bootstrap_run-Commits}
use nakama_playflow.Evolution.Provider.{
  start_begin-Commits, start_end-Commits, reconcile_unknown-Commits, poll-Commits,
  stop_check-Commits, stop_failed-Commits, stop_end-Commits,
}
use nakama_playflow.Evolution.Calls.{
  cancel_run-Commits, join_run-Commits, update_run-Commits, delete_run-Commits, drain_run-Commits,
  profile_run-Commits, notified_run-Commits,
}
use nakama_playflow.System.Events.{
  Event, profiles, ticks, renews, releases, cancels, joins, updates, deletes, drains, boots, beats,
  start_begins, start_ends, reconciles, polls, stop_checks, stop_fails, stop_ends, notifies,
  retries, apply, run,
}

-- A transaction that is stored, or rolled back.
update-Moves {ℓ} :
    {A : Type ℓ} (s : State) (fn : State → Result (State × A))
    → Commits s (fn s)
    → Moves s (update s fn).0
unfolding update
update-Moves {A = A} s fn h = stored (fn s) refl h
  where
    stored : (r : Result (State × A)) → fn s ≡ r → Commits s r → Moves s (update s fn).0
    stored (ok (t, a)) e k = rw (e, update) k
    stored (err x) e k = rw (e, update) (Steady-refl s.allocations)

renew_lease_run-Commits : (m : Manager) (now : ℕ) (s : State) → Commits s (renew_lease_run m now s)
unfolding renew_lease_run
renew_lease_run-Commits m now s =
    if-cases (Commits {A = Unit {0}} s) (not (s.leader == m.owner) || leb s.lease_until now)
      (λ _. tt) (λ _. Steady-refl s.allocations)

retry_creation_run-Commits : (s : State) → Commits s (retry_creation_run s)
unfolding retry_creation_run
retry_creation_run-Commits s = Steady-refl s.allocations

release_lease-Moves : (m : Manager) (s : State) → Moves s (release_lease m s).0
unfolding release_lease update
release_lease-Moves m s =
    if-cases (Moves s) (s.leader == m.owner) (λ _. Steady-refl s.allocations)
      (λ _. Steady-refl s.allocations)

-- After any one transaction that adds no allocation, whoever makes it and whether or not it fails:
-- no allocation is new; each that was there is there still, with the identifier, request key, room,
-- users and epoch it had, a phase that a path of the diagram reaches, a revision that is higher by each
-- edge of that path at least, and its worker unless it was waiting for one, and one that was over is as
-- it was; or it is gone, and was over when it went. By the diagram an allocation with a worker is
-- cancelled or expires only out of `cancelling`. Keys are unique before, and stay so.
pub apply-Steady :
    (e : Event) (s : State) → Unique s.allocations → Steady s.allocations (apply e s).allocations
unfolding apply
apply-Steady (profiles m profile) s u = update-Moves s _ (profile_run-Commits m profile s)
apply-Steady (ticks m now) s u = update-Moves s _ (tick_run-Commits m now s u)
apply-Steady (renews m now) s u = update-Moves s _ (renew_lease_run-Commits m now s)
apply-Steady (releases m) s u = release_lease-Moves m s
apply-Steady (cancels m user aid now) s u = update-Moves s _ (cancel_run-Commits m user aid now s)
apply-Steady (joins m wid users aid now now') s u =
    update-Moves s _ (join_run-Commits m wid users aid now now' s)
apply-Steady (updates m wid n entries) s u = update-Moves s _ (update_run-Commits m wid n entries s)
apply-Steady (deletes m wid now) s u = update-Moves s _ (delete_run-Commits m wid now s)
apply-Steady (drains m wid now) s u = update-Moves s _ (drain_run-Commits m wid now s)
apply-Steady (boots input) s u = update-Moves s _ (bootstrap_run-Commits input s)
apply-Steady (beats m input now) s u = update-Moves s _ (heartbeat_run-Commits m input now s)
apply-Steady (start_begins m now wid) s u = update-Moves s _ (start_begin-Commits m now wid s)
apply-Steady (start_ends m now later wid result) s u =
    update-Moves s _ (start_end-Commits m now later wid result s)
apply-Steady (reconciles m now w listed) s u =
    update-Moves s _ (reconcile_unknown-Commits m now w listed s)
apply-Steady (polls m now w result) s u = update-Moves s _ (poll-Commits m now w result s)
apply-Steady (stop_checks m now later w) s u = update-Moves s _ (stop_check-Commits m now later w s)
apply-Steady (stop_fails m now w) s u = update-Moves s _ (stop_failed-Commits m now w s)
apply-Steady (stop_ends m now w read) s u = update-Moves s _ (stop_end-Commits m now w read s)
apply-Steady (notifies aid revision) s u = update-Moves s _ (notified_run-Commits aid revision s)
apply-Steady retries s u = update-Moves s retry_creation_run (retry_creation_run-Commits s)

run-Steady :
    (es : List Event) (s : State)
    → Unique s.allocations
    → Steady s.allocations (run es s).allocations
unfolding run
run-Steady [] s u = Steady-refl s.allocations
run-Steady (e ∷ es) s u =
    let f = apply-Steady e s u in Steady-trans f (run-Steady es (apply e s) (f.unique u))

over_as_was :
    (a : Allocation) (o : Option Allocation) (b : Allocation)
    → Kept a o
    → terminal a.state ≡ true
    → o ≡ some b
    → (b.state ≡ a.state)
      × (b.revision ≡ a.revision)
      × (b.worker_id ≡ a.worker_id)
      × (b.sessions ≡ a.sessions)
over_as_was a none b k t e = cc
over_as_was a (some c) b k t e = ground (arith, k.frozen t)

-- Over any history of transactions that add no allocation, an allocation that is over, and is still
-- stored at the end, has the phase, the revision, the worker and the sessions that it had. Keys are
-- unique at the start.
pub terminal_absorbs :
    (es : List Event) (s : State) (k : Text) (a b : Allocation)
    → Unique s.allocations
    → lookup k s.allocations ≡ some a
    → terminal a.state ≡ true
    → lookup k (run es s).allocations ≡ some b
    → (b.state ≡ a.state)
      × (b.revision ≡ a.revision)
      × (b.worker_id ≡ a.worker_id)
      × (b.sessions ≡ a.sessions)
terminal_absorbs es s k a b u h t e =
    over_as_was a (lookup k (run es s).allocations) b ((run-Steady es s u).kept k a h) t e
