-- ===== src/State/Store.antt =====
-- The transactional store (`Memory` of internal/state/state.go, and `Update` of
-- internal/state/postgres.go): a transaction that fails changes nothing.
use nakama_playflow.Base.{◌+◌, Result, ok, err}
use nakama_playflow.State.Types.{State}

-- `Memory.Update`: the callback works on a clone, which replaces the state only if it returns nil.
-- What it hands out besides the new state is the value that the callback leaves in its captured
-- variables.
unfoldable pub update {ℓ} : {A : Type ℓ} → State → (State → Result (State × A)) → State × Result A
update s fn = elim (fn s) [
  | ok (next, a) ↦ (record next { revision = next.revision + 1 }, ok a)
  | err e ↦ (s, err e)
]
