-- ===== src/Provider/Launch.antt =====
-- An instance is created (`start`), and found again after a create whose outcome is unknown
-- (`reconcileUnknown`; pkg/fleetmanager/lifecycle.go). `w` is the worker of the snapshot.
use nakama_playflow.Base.{
  ℕ, ◌+◌, Bool, not, ◌||◌, List, [], ◌∷◌, none, some, Text, text_eq, ◌==◌, lookup, insert, keep,
  if◌then◌else◌, Result, ok, err, Error,
}
use nakama_playflow.State.{State, Worker, Status, Fault, Block, status_eq}
use nakama_playflow.Manager.{Manager}
use nakama_playflow.Lifecycle.{holds_lease}
use nakama_playflow.Provider.Instances.{
  Instance, CallError, Answer, success, failure, outcome_unknown, status_is, owned,
  provider_lifetime,
}

-- The transaction before the call: the intent is durable before the provider is asked.
abbrev pub begin_start : ℕ → Text → Worker → State → Result (State × Unit {0})
begin_start now wid w s =
    if not (w.state == Status.requested)
    then err Error.busy
    else ok (
      record s {
        workers = insert wid (record w { state = Status.starting; updated_at = now }) s.workers;
      },
      tt,
    )

unfoldable pub start_begin : Manager → ℕ → Text → State → Result (State × Unit {0})
start_begin m now wid s =
    if not (holds_lease m now s) then err Error.lease_held else elim (lookup wid s.workers) [
      | none ↦ err Error.nil_pointer
      | some w ↦ begin_start now wid w s
    ]

abbrev pub needs_review : CallError → Bool
needs_review e =
    status_is 400 e || status_is 401 e || status_is 403 e || status_is 404 e || status_is 422 e

abbrev pub note_failure : ℕ → Text → Worker → CallError → State → State
note_failure now wid w e s =
    if outcome_unknown e
    then record s {
      workers =
          insert wid
            (record w {
              state = Status.unknown;
              error = Fault.create_outcome_unknown;
              next_check_at = now + 1;
            })
            s.workers;
      next_create_at = now + 15;
    }
    else record s {
      workers =
          insert wid (record w { state = Status.failed; error = Fault.provider_create_failed })
            s.workers;
      creation_blocked_reason =
          if needs_review e then Block.provider_configuration else s.creation_blocked_reason;
      next_create_at = now + 15;
    }

-- The readings of the clock in that transaction: of the update, of the next check, and in
-- `providerLifetime`.
pub record Readings : Type 0 where
  pub updated : ℕ
  pub checked : ℕ
  pub ended : ℕ

abbrev pub note_start : Manager → ℕ → Readings → Text → Worker → Answer Instance → State → State
note_start m now later wid w (failure e) s =
    note_failure now wid (record w { updated_at = later.updated }) e s
note_start m now later wid w (success i) s =
    let w' = record w {
      updated_at = later.updated;
      provider_id = i.instance_id;
      state = Status.launching;
      next_check_at = later.checked;
    } in
    provider_lifetime m later.ended wid w' i (record s { workers = insert wid w' s.workers })

-- The transaction after the call, `now` before the call and `later` after it.
unfoldable pub start_end :
    Manager → ℕ → Readings → Text → Answer Instance → State → Result (State × Unit {0})
start_end m now later wid result s =
    if not (s.leader == m.owner) then ok (s, tt) else elim (lookup wid s.workers) [
      | none ↦ err Error.nil_pointer
      | some w ↦ ok (note_start m now later wid w result s, tt)
    ]

-- What a list of instances says of a create whose outcome is unknown. An instance that is not
-- listed may still come up.
abbrev pub adopt_match : ℕ → Worker → List Instance → Worker
adopt_match now w [] = record w { error = Fault.create_still_unknown }
adopt_match now w (i ∷ []) = record w {
  provider_id = i.instance_id;
  state = Status.launching;
  error = Fault.healthy;
  next_check_at = now;
}
adopt_match now w (i ∷ j ∷ rest) = record w { error = Fault.multiple_instances }

abbrev pub reconcile_with : Manager → ℕ → Worker → Worker → Answer (List Instance) → Worker
reconcile_with m now snapshot w (failure e) = w
reconcile_with m now snapshot w (success instances) =
    adopt_match now w (keep (λ i. owned m i snapshot) instances)

abbrev pub reconcile_at : Manager → ℕ → Worker → Answer (List Instance) → Worker → State → State
reconcile_at m now snapshot listed w s =
    if not (w.state == Status.unknown)
    then s
    else (let w' = record w { next_check_at = now + m.cfg.provider_poll_seconds } in
        record s {
          workers = insert snapshot.id (reconcile_with m now snapshot w' listed) s.workers;
        })

unfoldable pub reconcile_unknown :
    Manager → ℕ → Worker → Answer (List Instance) → State → Result (State × Unit {0})
reconcile_unknown m now snapshot listed s =
    if not (s.leader == m.owner) then ok (s, tt) else elim (lookup snapshot.id s.workers) [
      | none ↦ err Error.nil_pointer
      | some w ↦ ok (reconcile_at m now snapshot listed w s, tt)
    ]
