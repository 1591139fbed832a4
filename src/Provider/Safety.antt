-- ===== src/Provider/Safety.antt =====
-- When an instance may be stopped (`stop`, pkg/fleetmanager/lifecycle.go).
use nakama_playflow.Base.{
  ℕ, ◌+◌, ◌≤◌, ◌<◌, ◌≡◌, inl, inr, Bool, true, false, not, ◌&&◌, ◌||◌, some, Text, text_eqb-eq,
  arith, lookup, Option-cases, Bool-cases, Result, ok, ltb, ◌==◌, text_eq,
}
use nakama_playflow.State.{State, Worker, Status, status_eq, occupied}
use nakama_playflow.Manager.{Manager, work_finished}
use nakama_playflow.Lifecycle.{holds_lease}
use nakama_playflow.Provider.Stop.{may_stop, stop_check}

-- Nothing is left on a worker, and its last word on that is fresh.
pub record IsEmptied (m : Manager) (later : ℕ) (id : Text) (w : Worker) (s : State) : Type 0 where
  pub acknowledged : w.drain_ack ≡ true
  pub no_rooms : occupied s id ≡ 0
  pub no_players : w.player_count ≡ 0
  pub no_work : work_finished w.metrics ≡ true
  pub heard : later ≤ w.last_heartbeat + m.cfg.heartbeat_timeout

-- What the recheck has established when it lets the provider's stop go ahead.
pub record MayStop (m : Manager) (now later : ℕ) (snapshot : Worker) (s : State) : Type 0 where
  pub worker : Worker
  pub stored : lookup snapshot.id s.workers ≡ some worker
  pub leads : s.leader ≡ m.owner
  pub in_time : now < s.lease_until
  pub stopping : worker.state ≡ Status.stopping
  pub same_instance : worker.provider_id ≡ snapshot.provider_id
  pub emptied : worker.draining ≡ true → IsEmptied m later snapshot.id worker s

is_stopping : (p : Status) → (p == Status.stopping) ≡ true → p ≡ Status.stopping
is_stopping p h = ground arith

either_false : (p q : Bool) → (not p || not q) ≡ false → (p ≡ true) × (q ≡ true)
either_false p q h = ground arith

-- The test under which a drained worker may not be stopped yet.
abbrev busy_still : Manager → ℕ → Text → Worker → State → Bool
busy_still m later id w s =
    w.draining
    && (not w.drain_ack
        || ltb 0 (occupied s id)
        || ltb 0 w.player_count
        || not (work_finished w.metrics)
        || ltb (w.last_heartbeat + m.cfg.heartbeat_timeout) later)

test-IsEmptied :
    (m : Manager) (later : ℕ) (id : Text) (w : Worker) (s : State)
    → busy_still m later id w s ≡ false
    → w.draining ≡ true
    → IsEmptied m later id w s
test-IsEmptied m later id w s h d = record {
  acknowledged = ground arith;
  no_rooms = ground arith;
  no_players = ground arith;
  no_work = ground arith;
  heard = ground arith;
}

may_stop-inv :
    (m : Manager) (now later : ℕ) (snapshot w : Worker) (s t : State)
    → (s.leader ≡ m.owner) × (now < s.lease_until)
    → lookup snapshot.id s.workers ≡ some w
    → may_stop m later snapshot w s ≡ ok (t, tt)
    → (t ≡ s) × MayStop m now later snapshot s
may_stop-inv m now later snapshot w s t l e h =
    elim (Bool-cases
      (not (w.state == Status.stopping) || not (w.provider_id == snapshot.provider_id))) [
        | inl b ↦ cc (rw b at h)
        | inr b ↦ elim (Bool-cases (busy_still m later snapshot.id w s)) [
          | inl c ↦ cc (rw (b, c) at h)
          | inr c ↦ (
            kept (rw (b, c) at h),
            record {
              worker = w;
              stored = e;
              leads = l.0;
              in_time = l.1;
              stopping =
                  is_stopping w.state
                    (either_false (w.state == Status.stopping)
                      (w.provider_id == snapshot.provider_id) b).0;
              same_instance =
                  text_eqb-eq w.provider_id snapshot.provider_id
                    (either_false (w.state == Status.stopping)
                      (w.provider_id == snapshot.provider_id) b).1;
              emptied = test-IsEmptied m later snapshot.id w s c;
            },
          )
        ]
      ]
  where
    kept : ◌≡◌ {A = Result (State × Unit {0})} (ok (s, tt)) (ok (t, tt)) → t ≡ s
    kept g = cc

leads_of_test :
    (m : Manager) (now : ℕ) (s : State)
    → holds_lease m now s ≡ true
    → (s.leader ≡ m.owner) × (now < s.lease_until)
unfolding holds_lease
leads_of_test m now s h = ground (arith, text_eqb-eq s.leader m.owner)

-- The recheck before the provider is asked to stop an instance lets that go ahead only if the process
-- leads with a lease that has not run out, the worker is stored, is stopping and has the instance of
-- the snapshot, and, if it was drained, has acknowledged that, holds no room that is not over, no
-- player and no work in progress, and has been heard of in time. It changes nothing.
pub stop_check_safe :
    (m : Manager) (now later : ℕ) (snapshot : Worker) (s t : State)
    → stop_check m now later snapshot s ≡ ok (t, tt)
    → (t ≡ s) × MayStop m now later snapshot s
unfolding stop_check
stop_check_safe m now later snapshot s t h = elim (Bool-cases (holds_lease m now s)) [
  | inr l ↦ cc (rw l at h)
  | inl l ↦ elim (Option-cases (lookup snapshot.id s.workers)) [
    | inl e ↦ absurd (ground arith)
    | inr (w, e) ↦
        may_stop-inv m now later snapshot w s t (leads_of_test m now s l) e
          (rw (l, stop_check, e) at h)
  ]
]
