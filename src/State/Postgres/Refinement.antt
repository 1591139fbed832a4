-- ===== src/State/Postgres/Refinement.antt =====
-- The store in PostgreSQL next to the one in memory (internal/state/postgres.go and state.go).
use nakama_playflow.Base.{
  ℕ, ◌+◌, ◌≡◌, refl, inl, inr, ◌⊎◌, Bool, true, false, Option, none, some, Text, ltb, length,
  Bool-cases, if◌then◌else◌, Result, ok, err, Error, ◌>>=◌,
}
use nakama_playflow.State.Types.{State}
use nakama_playflow.State.Store.{update}
use nakama_playflow.State.Postgres.{
  Database, Codec, Failure, max_payload_bytes, decoded, write_row, store_raw, store_next,
  postgres_update,
}

-- The document, if it is encoded, is read back.
abbrev pub IsReadBack : Codec → State → Type 0
IsReadBack c s = (raw : Text) → c.marshal s ≡ some raw → c.unmarshal s.drawn (c.stored raw) ≡ some s

-- The row holds the document.
abbrev pub Holds : Codec → State → Database → Type 0
Holds c s db =
    (raw : Text) × (c.marshal s ≡ some raw)
    × (db.payload ≡ some (c.stored raw))
    × (db.drawn ≡ s.drawn)

abbrev pub fits_raw : Option Text → Bool
fits_raw none = false
fits_raw (some raw) = if ltb max_payload_bytes (length raw) then false else true

-- The document is encoded, in 16 MiB at most.
abbrev pub fits : Codec → State → Bool
fits c s = fits_raw (c.marshal s)

-- Whether the database carries out a transaction, whatever it reports.
abbrev pub is_carried_out : Failure → Bool
is_carried_out Failure.no_failure = true
is_carried_out Failure.unconfirmed = true
is_carried_out _ = false

-- How a transaction at the database ends, next to the same one in memory: with its outcome; or with an
-- error of its own, and then the row holds the document before it, or the one after it if the commit
-- was not confirmed. Without a failure the error is that the document is not encoded or does not fit.
pub Implements :
    {A : Type 0} → Codec → Failure → State → State × Result A → Database × Result A → Type 0
Implements c fault s (t, answer) (db, ok a) = (answer ≡ ok a) × Holds c t db
Implements c fault s (t, err e) (db, err x) =
    Holds c s db × ((fault ≡ Failure.no_failure) → (x ≡ e))
Implements c fault s (t, ok a) (db, err x) =
    (Holds c s db × ((fault ≡ Failure.no_failure) → (fits c t ≡ false)))
    ⊎ (Holds c t db × (fault ≡ Failure.unconfirmed))

decoded_row :
    (c : Codec) (s : State) (d : ℕ) (p : Option Text) (raw : Text)
    → IsReadBack c s
    → c.marshal s ≡ some raw
    → p ≡ some (c.stored raw)
    → d ≡ s.drawn
    → decoded c d p ≡ ok s
decoded_row c s d p raw f g e h = rw (e, h, decoded, f raw g) refl

stored_raw :
    {A : Type 0} (c : Codec) (fault : Failure) (s t : State) (a : A) (db : Database)
    (o : Option Text)
    → c.marshal t ≡ o
    → Holds c s db
    → Implements c fault s (t, ok a) (store_raw c fault db t a o)
unfolding Implements
stored_raw c fault s t a db none e k = inl (k, λ _. rw e refl)
stored_raw c fault s t a db (some raw) e k =
    elim (Bool-cases (ltb max_payload_bytes (length raw))) [
      | inl f ↦ rw f (inl (k, λ _. rw (e, f) refl))
      | inr f ↦ rw f (written fault)
    ]
  where
    written :
        (fault : Failure)
        → Implements c fault s
            (t, ok a)
            (write_row fault db (record { payload = some (c.stored raw); drawn = t.drawn }) a)
    written Failure.no_failure = (refl, (raw, e, refl, refl))
    written Failure.at_read = inl (k, λ e. cc)
    written Failure.at_write = inl (k, λ e. cc)
    written Failure.at_commit = inl (k, λ e. cc)
    written Failure.unconfirmed = inr ((raw, e, refl, refl), refl)

stored_next :
    {A : Type 0} (c : Codec) (fault : Failure) (s : State) (db : Database)
    (fn : State → Result (State × A)) (r : Result (State × A))
    → fn s ≡ r
    → Holds c s db
    → Implements c fault s (update s fn) (store_next c fault db r)
unfolding Implements update
stored_next c fault s db fn (err e) h k = rw (h, update) (k, λ _. refl)
stored_next c fault s db fn (ok (next, a)) h k =
    let t = record next { revision = next.revision + 1 } in
    rw (h, update) (stored_raw c fault s t a db (c.marshal t) refl k)

unread :
    {A : Type 0} (c : Codec) (s : State) (db : Database) (fn : State → Result (State × A))
    (r : Result (State × A))
    → fn s ≡ r
    → Holds c s db
    → Implements c Failure.at_read s (update s fn) (db, err Error.invalid)
unfolding Implements update
unread c s db fn (err e) h k = rw (h, update) (k, λ f. cc)
unread c s db fn (ok (next, a)) h k = rw (h, update) (inl (k, λ f. cc))

read_next :
    {A : Type 0} (c : Codec) (fault : Failure) (s : State) (db : Database)
    (fn : State → Result (State × A))
    → IsReadBack c s
    → Holds c s db
    → Implements c fault s
        (update s fn)
        (store_next c fault db (decoded c db.drawn db.payload >>= fn))
read_next c fault s db fn f k =
    rw (decoded_row c s db.drawn db.payload k.0 f k.1 k.2 k.3)
      (stored_next c fault s db fn (fn s) refl k)

-- A transaction on a row that holds a document does to the row what the same transaction on the store
-- in memory does to the document, and has the same outcome; or it reports an error of the database's,
-- and has done nothing, or all of it if only the confirmation of the commit was lost. Without a failure
-- of the database that happens only to a document that is not encoded, or in more than 16 MiB. The codec must read back the
-- document that was there.
pub postgres_update-Implements :
    {A : Type 0} (c : Codec) (fault : Failure) (s : State) (db : Database)
    (fn : State → Result (State × A))
    → IsReadBack c s
    → Holds c s db
    → Implements c fault s (update s fn) (postgres_update c fault db fn)
unfolding postgres_update
postgres_update-Implements c Failure.at_read s db fn f k = unread c s db fn (fn s) refl k
postgres_update-Implements c Failure.no_failure s db fn f k =
    read_next c Failure.no_failure s db fn f k
postgres_update-Implements c Failure.at_write s db fn f k = read_next c Failure.at_write s db fn f k
postgres_update-Implements c Failure.at_commit s db fn f k =
    read_next c Failure.at_commit s db fn f k
postgres_update-Implements c Failure.unconfirmed s db fn f k =
    read_next c Failure.unconfirmed s db fn f k
