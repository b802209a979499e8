-- ===== src/Server/Control.antt =====
-- crates/eggwork-server/src/lib.rs: `control`, the handler that renews and cancels, and `observe`.
-- Other tasks run between the handler's reads, so the tables of the two lookups, the snapshot that
-- it clones and the record that it then changes are given apart. SHA-256 of a lease is given.
pub mod Checked
pub mod Holder
use eggwork.Prelude.{
  ℕ, ◌+◌, ◌-◌, ◌==◌, Bool, true, false, not, ◌&&◌, ◌||◌, Option, none, some, leb, min, ltb, i64_max,
  Result, ok, err, reject_if, ◌>>=◌, ◌>>◌, length, if◌then◌else◌,
}
use eggwork.Prelude.Bytes.{Bytes, bytes, bytes_eq, is_empty}
use eggwork.Core.Limits.{max_id_bytes}
use eggwork.Core.Execution.{
  ExecutionState, accepted, preparing, running, cancelling, succeeded, failed, cancelled, timed_out,
  interrupted, EventKind, ExecutionSnapshot, ExecutionHandle,
}
use eggwork.Store.Tables.{Json, Db, Stored}
use eggwork.Store.Leases.{update_lease}
use eggwork.Store.Reads.{ExistingExecution, lookup, load_snapshot, load_snapshot_for_principal}
use eggwork.Server.Events.{is_terminal}
use eggwork.Server.Records.{ExecutionRecord, publish}
use eggwork.Server.Admission.{api_schema_version}
use eggwork.Server.Queries.{query_parameter, read_generation}

pub record ControlRequest : Type 0 where
  pub schema_version : ℕ
  pub handle : ExecutionHandle
  pub renewal_id : Option Bytes

-- What `read_limited_body` and `serde_json::from_slice` make of the body.
pub data Body : Type 0 where
  too_large malformed : Body
  decoded : ControlRequest → Body

-- A record in memory: `entry` is what `publish` works on, and `expired` and `expires_at` are of its
-- `LeaseState`; `notified` tells that the waiters were woken.
pub record Held : Type 0 where
  pub entry : ExecutionRecord
  pub lease_hash : Bytes
  pub expired : Bool
  pub expires_at : ℕ
  pub notified : Bool

-- The clocks, in the order in which they are read: the test of the lease, the requested expiry, the
-- two readings of `update_lease`, the remaining time and the new deadline; and the one of `publish`.
pub record Clock : Type 0 where
  pub tested : ℕ
  pub requested : ℕ
  pub refused_at : ℕ
  pub updated : ℕ
  pub remaining_from : ℕ
  pub deadline_from : ℕ
  pub published : ℕ

-- A response: a status with an error code, the store's error, or a status with the snapshot.
pub data Reply : Type 0 where
  refused : ℕ × Bytes → Reply
  unavailable : Reply
  snapshot : ℕ → ExecutionSnapshot → Reply

abbrev pub is_cancelling : ExecutionState → Bool
is_cancelling cancelling = true
is_cancelling _ = false

-- The lease has run out in memory.
abbrev pub has_expired : ℕ → Held → Bool
has_expired now r = r.expired || leb r.expires_at now

abbrev pub cancelled_entry : ExecutionRecord → ExecutionRecord
cancelled_entry e = record e { cancelled = true }

-- `if !is_terminal(&record.snapshot.read().await.state) { cancel }`
abbrev pub cancel_unless_over : ExecutionRecord → ExecutionRecord
cancel_unless_over e = if is_terminal e.snapshot.state then e else cancelled_entry e

-- The renewal identifier is there, not empty and not too long.
abbrev pub check_renewal_id : Option Bytes → Result Reply Bytes
check_renewal_id none = err (refused (400, bytes "invalid_request"))
check_renewal_id (some renewal_id) =
    if is_empty renewal_id || ltb max_id_bytes (length renewal_id)
    then err (refused (400, bytes "invalid_request"))
    else ok renewal_id

abbrev pub read_body : Body → Result Reply ControlRequest
read_body too_large = err (refused (413, bytes "request_too_large"))
read_body malformed = err (refused (400, bytes "invalid_request"))
read_body (decoded q) = ok q

-- `else { return 404 }` of a `let Some`, after the `?` on the store's error.
abbrev pub or_not_found {ℓ} : {A : Type ℓ} → Stored (Option A) → Result Reply A
or_not_found (err e) = err unavailable
or_not_found (ok none) = err (refused (404, bytes "execution_not_found"))
or_not_found (ok (some x)) = ok x

module _ (js : Json) where
  open js use {Encoded}

  -- What the handler gives back: the response, the record and the tables.
  abbrev pub Outcome : Type 0
  Outcome = Reply × Held × Db Encoded

  -- What `update_lease` has given, for the record whose lock is held.
  abbrev pub renewed :
      Clock → ExecutionSnapshot → Held → Db Encoded → Stored (Option ℕ × Db Encoded) → Outcome
  renewed clock seen r db (err e) = (unavailable, r, db)
  renewed clock seen r db (ok (none, db')) = (refused (409, bytes "lease_expired"), r, db')
  renewed clock seen r db (ok (some expires_unix_ms, db')) = (
    snapshot 200 seen,
    record r {
      expires_at = clock.deadline_from + (expires_unix_ms - clock.remaining_from);
      notified = true;
    },
    db',
  )

  -- The branch of a renewal.
  abbrev pub renew_identified :
      Bytes
      → ControlRequest
      → Bytes
      → ℕ
      → Clock
      → Result Reply Bytes
      → ExecutionSnapshot
      → Held
      → Db Encoded
      → Outcome
  renew_identified id q hash lease_ttl_ms clock (err refusal) seen r db = (refusal, r, db)
  renew_identified id q hash lease_ttl_ms clock (ok renewal_id) seen r db =
      if is_terminal seen.state
      then (refused (409, bytes "execution_terminal"), r, db)
      else if has_expired clock.tested r
      then (refused (409, bytes "lease_expired"), r, db)
      else renewed clock seen r db (
          update_lease id q.handle.generation
            (record {
              lease_token_hash = hash;
              renewal_id = renewal_id;
              lease_expires_unix_ms = min (clock.requested + min lease_ttl_ms i64_max) i64_max;
            })
            clock.refused_at clock.updated db)

  -- The branch of a cancellation.
  abbrev pub published_cancelling : Held → ExecutionRecord × Db Encoded → Outcome
  published_cancelling r (entry, db) = (
    snapshot 202 (cancel_unless_over entry).snapshot,
    record r { entry = cancel_unless_over entry },
    db,
  )

  abbrev pub cancel_execution : Clock → ExecutionSnapshot → Held → Db Encoded → Outcome
  cancel_execution clock seen r db =
      if not (is_terminal seen.state) && not (is_cancelling seen.state)
      then (if has_expired clock.tested r
          then (refused (409, bytes "lease_expired"), r, db)
          else published_cancelling r (
              publish js clock.published cancelling none (EventKind.state cancelling)
                (r.entry, db)))
      else if is_cancelling seen.state
      then (snapshot 202 r.entry.snapshot, record r { entry = cancelled_entry r.entry }, db)
      else (snapshot 202 r.entry.snapshot, r, db)

  -- The checks on the request and on the store's rows, up to the record in memory.
  unfoldable pub check_control :
      (Bytes → Bytes)
      → Bytes
      → Bytes
      → Body
      → Db Encoded
      → Db Encoded
      → Result Reply (ControlRequest × ExistingExecution)
  check_control lease_hash principal id body at_lookup at_latest = do
    q ← read_body body
    reject_if
        (not (q.schema_version == api_schema_version) || not (bytes_eq q.handle.execution_id id))
        (refused (400, bytes "invalid_request"))
    existing ← or_not_found (lookup js id q.handle.generation at_lookup)
    reject_if (not (bytes_eq existing.principal_id principal)) (refused (403, bytes "forbidden"))
    reject_if (not (bytes_eq existing.lease_token_hash (lease_hash q.handle.lease_id)))
        (refused (403, bytes "invalid_lease"))
    newest ← or_not_found (load_snapshot js id none at_latest)
    reject_if (not (newest.generation == q.handle.generation))
        (refused (409, bytes "generation_mismatch"))
    ok (q, existing)

  -- The rest, for a record that is in memory.
  abbrev pub act :
      Bytes
      → Bool
      → ℕ
      → Clock
      → Result Reply (ControlRequest × ExistingExecution)
      → ExecutionSnapshot
      → Held
      → Db Encoded
      → Outcome
  act id renew lease_ttl_ms clock (err refusal) seen r db = (refusal, r, db)
  act id renew lease_ttl_ms clock (ok (q, existing)) seen r db =
      if not (bytes_eq r.lease_hash existing.lease_token_hash)
      then (refused (403, bytes "invalid_lease"), r, db)
      else if renew
      then renew_identified id q existing.lease_token_hash lease_ttl_ms clock
          (check_renewal_id q.renewal_id) seen r db
      else cancel_execution clock seen r db

  -- `control`, where the record is in memory
  unfoldable pub control :
      (Bytes → Bytes)
      → Bytes
      → Bytes
      → Bool
      → ℕ
      → Clock
      → Body
      → Db Encoded
      → Db Encoded
      → ExecutionSnapshot
      → Held
      → Db Encoded
      → Outcome
  control lease_hash principal id renew lease_ttl_ms clock body at_lookup at_latest seen r db =
      act id renew lease_ttl_ms clock
        (check_control lease_hash principal id body at_lookup at_latest) seen r db

  -- `control`, where no record is
  abbrev pub not_in_memory : Result Reply (ControlRequest × ExistingExecution) → Reply
  not_in_memory (err refusal) = refusal
  not_in_memory (ok v) = refused (404, bytes "execution_not_found")

  -- `observe`
  abbrev pub generation_of : Result (Unit {0}) (Option Bytes) → Result Reply (Option ℕ)
  generation_of (ok none) = ok none
  generation_of (err e) = err (refused (400, bytes "invalid_request"))
  generation_of (ok (some value)) = elim (read_generation (ok (some value))) [
    | err refusal ↦ err (refused refusal)
    | ok generation ↦ ok (some generation)
  ]

  abbrev pub observed :
      Bytes → Bytes → Result Reply (Option ℕ) → Db Encoded → Result Reply ExecutionSnapshot
  observed principal id (err refusal) db = err refusal
  observed principal id (ok generation) db =
      or_not_found (load_snapshot_for_principal js id generation principal db)

  unfoldable pub observe :
      Bytes → Bytes → Option Bytes → Db Encoded → Result Reply ExecutionSnapshot
  observe principal id query db =
      observed principal id (generation_of (query_parameter query (bytes "generation"))) db
