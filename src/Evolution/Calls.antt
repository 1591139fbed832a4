-- ===== src/Evolution/Calls.antt =====
-- The calls of the FleetManager interface keep allocations to their diagram (pkg/fleetmanager/manager.go).
use nakama_playflow.Base.{
  ℕ, ◌*◌, ◌≡◌, refl, inl, inr, Bool, true, false, not, List, Option, none, some, Text, arith,
  lookup, insert, Unique, nat_eq, exists_value, Option-cases, if-cases, Result, ok, err, ◌>>=◌,
  guard, ◌==◌, ◌||◌, Error, ℤ, text_eq, ltb, leb, is_empty, length, lookup-insert, text_eqb-eq,
  insert-Unique, ◌&&◌,
}
use nakama_playflow.State.{
  State, Worker, Allocation, Status, Phase, Reason, terminal, phase_eq, status_eq, occupied,
}
use nakama_playflow.Manager.{
  Manager, reserve, contains, eligible, begin_drain, drainable, work_finished, find_request,
  allocation, answer_request, valid_users,
}
use nakama_playflow.Manager.Calls.{
  cancel_run, join_run, join_answer, update_run, set_players, delete_run, drain_run,
}
use nakama_playflow.Manager.Admin.{is_foreign, profile_run, notified_run}
use nakama_playflow.Evolution.Phases.{Evolves, here, edges, insert-Steady, Steady-refl}
use nakama_playflow.Evolution.Steps.{Moves, cancel_at-Moves, reserve-Moves}
use nakama_playflow.Evolution.Loops.{MovesTo-intro, Commits, Commits-bind}
use nakama_playflow.Evolution.Tick.{allocations-begin_drain, unmoved-Moves}

pub cancel_run-Commits :
    (m : Manager) (user aid : Text) (now : ℕ) (s : State) → Commits s (cancel_run m user aid now s)
unfolding cancel_run
cancel_run-Commits m user aid now s = elim (Option-cases (lookup aid s.allocations)) [
  | inl e ↦ rw (e, cancel_run) tt
  | inr (a, e) ↦
      rw (e, cancel_run)
        (if-cases (Commits {A = Unit {0}} s) (not (contains a.user_ids user)) (λ _. tt)
          (λ _.
            if-cases (Commits {A = Unit {0}} s) (terminal a.state || a.state == Phase.cancelling)
              (λ _. Steady-refl s.allocations)
              (λ _.
                if-cases (Commits {A = Unit {0}} s) (a.state == Phase.active) (λ _. tt)
                  (λ _. cancel_at-Moves m aid a Reason.cancelled now s e))))
]

drained-Moves :
    (m : Manager) (wid : Text) (w : Worker) (now : ℕ) (s : State)
    → Moves s (begin_drain m wid w now s)
drained-Moves m wid w now s =
    unmoved-Moves s (begin_drain m wid w now s) (allocations-begin_drain m wid w now s)

pub delete_run-Commits :
    (m : Manager) (wid : Text) (now : ℕ) (s : State) → Commits s (delete_run m wid now s)
unfolding delete_run
delete_run-Commits m wid now s = elim (Option-cases (lookup wid s.workers)) [
  | inl e ↦ rw (e, delete_run) tt
  | inr (w, e) ↦
      rw (e, delete_run)
        (if-cases (Commits {A = Unit {0}} s) (w.state == Status.stopped)
          (λ _. Steady-refl s.allocations)
          (λ _.
            if-cases (Commits {A = Unit {0}} s)
              (not (drainable w)
                || ltb 0 (occupied s wid)
                || ltb 0 w.player_count
                || not (work_finished w.metrics))
              (λ _. tt) (λ _. drained-Moves m wid w now s)))
]

pub drain_run-Commits :
    (m : Manager) (wid : Text) (now : ℕ) (s : State) → Commits s (drain_run m wid now s)
unfolding drain_run
drain_run-Commits m wid now s = elim (Option-cases (lookup wid s.workers)) [
  | inl e ↦ rw (e, drain_run) tt
  | inr (w, e) ↦
      rw (e, drain_run)
        (if-cases (Commits {A = Unit {0}} s) (w.state == Status.stopped)
          (λ _. Steady-refl s.allocations)
          (λ _.
            if-cases (Commits {A = Unit {0}} s) (not (drainable w)) (λ _. tt)
              (λ _. drained-Moves m wid w now s)))
]

set_players-Commits :
    (wid : Text) (w : Worker) (n : ℤ) (entries : ℕ) (s : State)
    → Commits s (set_players wid w n entries s)
set_players-Commits wid w (ℤ.negsuc n) entries s = tt
set_players-Commits wid w (ℤ.pos n) entries s =
    if-cases (Commits {A = Unit {0}} s) (ltb (w.max_rooms * 2) n) (λ _. tt)
      (λ _.
        if-cases (Commits {A = Unit {0}} s) (ltb 0 entries) (λ _. tt)
          (λ _. Steady-refl s.allocations))

pub update_run-Commits :
    (m : Manager) (wid : Text) (n : ℤ) (entries : ℕ) (s : State)
    → Commits s (update_run m wid n entries s)
unfolding update_run
update_run-Commits m wid n entries s = elim (Option-cases (lookup wid s.workers)) [
  | inl e ↦ rw (e, update_run) tt
  | inr (w, e) ↦ rw (e, update_run) (set_players-Commits wid w n entries s)
]

join_answer-Commits :
    (aid : Text) (w : Worker) (s : State) (o : Option Allocation)
    → Commits s (join_answer aid w s o)
join_answer-Commits aid w s none = tt
join_answer-Commits aid w s (some a) = Steady-refl s.allocations

guard-Commits {ℓ} :
    {A : Type ℓ} (s : State) (b : Bool) (e : Error) (r : Result (State × A))
    → Commits s r
    → Commits s (guard b e >>= λ _. r)
guard-Commits s true e r f = f
guard-Commits s false e r f = tt

pub join_run-Commits :
    (m : Manager) (wid : Text) (users : List Text) (aid : Text) (now now' : ℕ) (s : State)
    → Commits s (join_run m wid users aid now now' s)
unfolding join_run
join_run-Commits m wid users aid now now' s = elim (Option-cases (lookup aid s.allocations)) [
  | inl e ↦ rw (e, join_run) tt
  | inr (a, e) ↦ elim (Option-cases (lookup wid s.workers)) [
    | inl e' ↦ rw (e, join_run, e') tt
    | inr (w, e') ↦
        rw (e, join_run, e')
          (guard-Commits s (a.worker_id == wid) Error.forbidden _ (
            guard-Commits s (eligible m w now) Error.busy _ (
              Commits-bind s (reserve m aid a users now' m.cfg.reservation_ttl s)
                (λ t. join_answer aid w t (lookup aid t.allocations))
                (MovesTo-intro s _
                  (λ t. reserve-Moves m aid a users now' m.cfg.reservation_ttl s t e))
                (λ t. join_answer-Commits aid w t (lookup aid t.allocations)))))
  ]
]

-- What a call that may add an allocation does to those that were there: nothing.
abbrev pub Adds : State → State → Type 0
Adds s t =
    ((k : Text) (a : Allocation)
      → lookup k s.allocations ≡ some a
      → lookup k t.allocations ≡ some a)
    × (Unique s.allocations → Unique t.allocations)

abbrev pub CommitsAdds {ℓ} : {A : Type ℓ} → State → Result (State × A) → Type 0
CommitsAdds s (ok (t, a)) = Adds s t
CommitsAdds s (err e) = Unit {0}

kept_by_insert :
    (j k : Text) (a b : Allocation) (m : List (Text × Allocation))
    → lookup j m ≡ none
    → lookup k m ≡ some b
    → lookup k (insert j a m) ≡ some b
kept_by_insert j k a b m h e = ground (arith, lookup-insert j k a m, text_eqb-eq j k)

answer_request-Adds :
    (fresh : ℕ → Text) (users : List Text) (key : Text) (now timeout : ℕ) (s : State)
    (found : Option (Text × Allocation))
    → lookup (fresh s.drawn) s.allocations ≡ none
    → Adds s (answer_request fresh users key now timeout s found).0
answer_request-Adds fresh users key now timeout s none h = (
  λ k b e. kept_by_insert (fresh s.drawn) k _ b s.allocations h e,
  insert-Unique (fresh s.drawn) _ s.allocations,
)
answer_request-Adds fresh users key now timeout s (some e) h = (λ k b g. g, λ u. u)

-- `allocation` leaves every allocation that was there alone, if `id()` draws a key that is not taken.
pub allocation-Adds :
    (fresh : ℕ → Text) (users : List Text) (key : Text) (now timeout : ℕ) (s : State)
    → lookup (fresh s.drawn) s.allocations ≡ none
    → CommitsAdds s (allocation fresh users key now timeout s)
unfolding allocation
allocation-Adds fresh users key now timeout s h =
    guarded (valid_users users && not (is_empty key) && leb (length key) 256)
  where
    found :
        (r : Result (Option (Text × Allocation)))
        → CommitsAdds {0} {A = Text × Allocation} s
            (r >>= λ f. ok (answer_request fresh users key now timeout s f))
    found (ok f) = answer_request-Adds fresh users key now timeout s f h
    found (err e) = tt

    guarded :
        (b : Bool)
        → CommitsAdds {0} {A = Text × Allocation} s (
            guard b Error.invalid >>= λ _. find_request s.allocations users key >>= λ f.
            ok (answer_request fresh users key now timeout s f))
    guarded true = found (find_request s.allocations users key)
    guarded false = tt

pub profile_run-Commits :
    (m : Manager) (profile : Text) (s : State) → Commits s (profile_run m profile s)
unfolding profile_run
profile_run-Commits m profile s =
    if-cases (Commits {A = Unit {0}} s) (not (is_empty s.profile) && not (s.profile == profile))
      (λ _. tt)
      (λ _.
        if-cases (Commits {A = Unit {0}} s) (exists_value (is_foreign m) s.workers) (λ _. tt)
          (λ _. Steady-refl s.allocations))

noted-Evolves :
    (a : Allocation) (revision : ℕ) → Evolves a (record a { notified_revision = revision })
unfolding edges
noted-Evolves a revision = record {
  same_id = refl;
  same_key = refl;
  same_room = refl;
  same_users = refl;
  same_epoch = refl;
  later = omega arith;
  marked = inl refl;
  path = here;
  paced = omega arith;
  anchored = inr refl;
  frozen = λ h. (refl, refl, refl, refl);
}

pub notified_run-Commits :
    (aid : Text) (revision : ℕ) (s : State) → Commits s (notified_run aid revision s)
unfolding notified_run
notified_run-Commits aid revision s = elim (Option-cases (lookup aid s.allocations)) [
  | inl e ↦ rw (e, notified_run) (Steady-refl s.allocations)
  | inr (a, e) ↦
      rw (e, notified_run)
        (if-cases (Moves s) (a.revision == revision)
          (λ _. insert-Steady aid a _ s.allocations e (noted-Evolves a revision))
          (λ _. Steady-refl s.allocations))
]
