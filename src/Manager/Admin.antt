-- ===== src/Manager/Admin.antt =====
-- Smaller transactions: the profile that `New` checks (pkg/fleetmanager/manager.go), the note that a
-- player was told (`notify`, pkg/fleetmanager/lifecycle.go) and the operator's `retry-creation`
-- (pkg/fleetmanager/http.go).
use nakama_playflow.Base.{
  ℕ, Bool, not, ◌&&◌, ◌||◌, none, some, Text, text_eq, ◌==◌, nat_eq, is_empty, lookup, insert,
  exists_value, if◌then◌else◌, Result, ok, err, Error,
}
use nakama_playflow.State.{State, Worker, Allocation, Block}
use nakama_playflow.Manager.Core.{Manager}

abbrev pub is_foreign : Manager → Worker → Bool
is_foreign m w = not (w.build_hash == m.cfg.build_hash) || not (w.region == m.cfg.region)

-- `profile` is the fingerprint of the configuration.
unfoldable pub profile_run : Manager → Text → State → Result (State × Unit {0})
profile_run m profile s =
    if not (is_empty s.profile) && not (s.profile == profile)
    then err Error.invalid
    else if exists_value (is_foreign m) s.workers
    then err Error.invalid
    else ok (record s { profile = profile }, tt)

abbrev pub note_revision : Text → ℕ → Allocation → State → State
note_revision aid revision a s =
    if a.revision == revision
    then record s {
      allocations = insert aid (record a { notified_revision = revision }) s.allocations;
    }
    else s

-- The allocation under `aid` was told at `revision`, which may be past by now.
unfoldable pub notified_run : Text → ℕ → State → Result (State × Unit {0})
notified_run aid revision s = elim (lookup aid s.allocations) [
  | none ↦ ok (s, tt)
  | some a ↦ ok (note_revision aid revision a s, tt)
]

unfoldable pub retry_creation_run : State → Result (State × Unit {0})
retry_creation_run s =
    ok (record s { creation_blocked_reason = Block.not_blocked; next_create_at = 0 }, tt)
