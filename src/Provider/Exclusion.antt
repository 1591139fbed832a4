-- ===== src/Provider/Exclusion.antt =====
-- One start at a time: the durable mark that an instance is being created (`start`,
-- pkg/fleetmanager/lifecycle.go).
use nakama_playflow.Base.{
  ℕ, ◌≡◌, refl, ◌⊎◌, inl, inr, Text, text_eq, text_eqb_refl, lookup, lookup-insert, Option-cases,
  Bool-cases, some, subst, Result, ok, err, Error, ◌==◌,
}
use nakama_playflow.State.{State, Worker, Status, status_eq}
use nakama_playflow.Manager.{Manager}
use nakama_playflow.Lifecycle.{holds_lease}
use nakama_playflow.Provider.Launch.{start_begin, begin_start}

-- What a start that goes ahead leaves of the worker.
abbrev IsStarting : Text → State → Type 0
IsStarting wid t = (w : Worker) × (lookup wid t.workers ≡ some w) × (w.state ≡ Status.starting)

begun :
    (now : ℕ) (wid : Text) (w : Worker) (s t : State)
    → begin_start now wid w s ≡ ok (t, tt)
    → IsStarting wid t
begun now wid w s t h = elim (Bool-cases (w.state == Status.requested)) [
  | inr e ↦ cc (rw e at h)
  | inl e ↦ subst (IsStarting wid) (written (rw e at h)) (
    record w { state = Status.starting; updated_at = now },
    rw
        (
          lookup-insert wid wid (record w { state = Status.starting; updated_at = now }) s.workers,
          text_eqb_refl wid,
        )
        refl,
    refl,
  )
]
  where
    written : {a b : State} → ◌≡◌ {A = Result (State × Unit {0})} (ok (a, tt)) (ok (b, tt)) → a ≡ b
    written g = cc

start_begin-IsStarting :
    (m : Manager) (now : ℕ) (wid : Text) (s t : State)
    → start_begin m now wid s ≡ ok (t, tt)
    → IsStarting wid t
unfolding start_begin
start_begin-IsStarting m now wid s t h = elim (Bool-cases (holds_lease m now s)) [
  | inr l ↦ cc (rw l at h)
  | inl l ↦ elim (Option-cases (lookup wid s.workers)) [
    | inl e ↦ cc (rw (l, e) at h)
    | inr (w, e) ↦ begun now wid w s t (rw (l, e) at h)
  ]
]

-- A start of an instance that was let go ahead is not let go ahead again: made next, by whichever
-- process and at whatever time, it is refused, for the lease or because the worker is no longer
-- requested.
pub start_begin_once :
    (m other : Manager) (now now' : ℕ) (wid : Text) (s t : State)
    → start_begin m now wid s ≡ ok (t, tt)
    → (start_begin other now' wid t ≡ err Error.lease_held)
      ⊎ (start_begin other now' wid t ≡ err Error.busy)
unfolding start_begin
start_begin_once m other now now' wid s t h =
    let (w, e, p) = start_begin-IsStarting m now wid s t h in
    elim (Bool-cases (holds_lease other now' t)) [
      | inr l ↦ inl (rw l refl)
      | inl l ↦ inr (rw (l, e, p) refl)
    ]
