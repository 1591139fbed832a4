-- ===== src/State/Postgres.antt =====
-- The store in PostgreSQL (internal/state/postgres.go). The database itself and the JSON codec of the
-- document are arguments: at which statement the database fails, if any, and what a value encodes to.
pub mod Refinement
use nakama_playflow.Base.{
  ℕ, ◌+◌, ◌*◌, ◌^◌, Bool, Option, none, some, Text, is_empty, ltb, length, if◌then◌else◌, Result,
  ok, err, Error, ◌>>=◌,
}
use nakama_playflow.State.Types.{State, empty_state}

-- The row of the namespace, if there is one. The identifiers drawn are counted next to it: they stand
-- for the random generator, and are no part of the payload.
pub record Database : Type 0 where
  pub payload : Option Text
  pub drawn : ℕ

-- `json.Marshal` at a document, which may fail, what a column of JSONB makes of it, and `json.Unmarshal` with
-- `Normalize`.
pub record Codec : Type 0 where
  pub marshal : State → Option Text
  pub stored : Text → Text
  pub unmarshal : ℕ → Text → Option State

-- Where the database fails: nowhere, before the row is read, when it is written, at a commit that is
-- not carried out, or at one that is carried out and not confirmed.
pub data Failure : Type 0 where
  no_failure at_read at_write at_commit unconfirmed : Failure

abbrev pub max_payload_bytes : ℕ
max_payload_bytes = 16 * 2 ^ 20

abbrev pub decoded : Codec → ℕ → Option Text → Result State
decoded c drawn none = err Error.invalid
decoded c drawn (some raw) = elim (c.unmarshal drawn raw) [
  | none ↦ err Error.invalid
  | some s ↦ ok s
]

-- The row as a statement reads it.
abbrev pub read_row : Codec → Failure → Database → Result State
read_row c Failure.at_read db = err Error.invalid
read_row c _ db = decoded c db.drawn db.payload

-- `Postgres.View`.
unfoldable pub view : Codec → Failure → Database → Result State
view c fault db = read_row c fault db

-- Writing the row and committing, after which a deferred rollback does nothing.
abbrev pub write_row {ℓ} : {A : Type ℓ} → Failure → Database → Database → A → Database × Result A
write_row Failure.no_failure db next a = (next, ok a)
write_row Failure.at_read db next a = (db, err Error.invalid)
write_row Failure.at_write db next a = (db, err Error.invalid)
write_row Failure.at_commit db next a = (db, err Error.invalid)
write_row Failure.unconfirmed db next a = (next, err Error.invalid)

-- The document is stored if it was encoded and fits.
abbrev pub store_raw {ℓ} :
    {A : Type ℓ} → Codec → Failure → Database → State → A → Option Text → Database × Result A
store_raw c fault db next a none = (db, err Error.invalid)
store_raw c fault db next a (some raw) =
    if ltb max_payload_bytes (length raw)
    then (db, err Error.invalid)
    else write_row fault db (record { payload = some (c.stored raw); drawn = next.drawn }) a

-- What follows the callback.
abbrev pub store_next {ℓ} :
    {A : Type ℓ} → Codec → Failure → Database → Result (State × A) → Database × Result A
store_next c fault db (err e) = (db, err e)
store_next c fault db (ok (next, a)) =
    let t = record next { revision = next.revision + 1 } in store_raw c fault db t a (c.marshal t)

-- `Postgres.Update`: the row is locked from the read to the end of the transaction.
unfoldable pub postgres_update {ℓ} :
    {A : Type ℓ} → Codec → Failure → Database → (State → Result (State × A)) → Database × Result A
postgres_update c fault db fn = store_next c fault db (read_row c fault db >>= fn)

abbrev pub or_new : Codec → Text → Option Text → Option Text
or_new c document none = some (c.stored document)
or_new c document (some raw) = some raw

-- A document that is not encoded is a null, which the column refuses.
abbrev pub insert_new : Codec → Bool → Database → Option Text → Database × Result (Unit {0})
insert_new c inserted db none = (db, err Error.invalid)
insert_new c inserted db (some document) =
    if inserted
    then (record db { payload = or_new c document db.payload }, ok tt)
    else (db, err Error.invalid)

-- `NewPostgres`: a row that is there stays as it is. `inserted` is whether the statement succeeds.
unfoldable pub new_postgres : Codec → Text → Bool → Database → Database × Result (Unit {0})
new_postgres c namespace inserted db =
    if is_empty namespace
    then (db, err Error.invalid)
    else insert_new c inserted db (c.marshal empty_state)
