-- ===== src/Store/Journal.antt =====
-- crates/eggwork-server/src/store.rs: `commit_event` and `recover`, which append to the journal.
pub mod Rows
pub mod Invariant
pub mod Append
pub mod Commit
pub mod Recovery
use eggwork.Prelude.{
  ℕ, ◌+◌, String, Bool, true, false, List, [], ◌∷◌, ◌++◌, Option, none, some, ltb, any, keep_if,
  Result, ok, err, reject_if, ◌>>=◌, ◌>>◌, ◌==◌, ◌&&◌, if◌then◌else◌,
}
use eggwork.Prelude.Bytes.{Bytes}
use eggwork.Core.Error.{ValidationError}
use eggwork.Core.Execution.{
  ExecutionState, EventKind, ExecutionEvent, ExecutionSnapshot, ExecutionResult, ExecutionFailure,
  validate_event,
}
use eggwork.Store.Tables.{
  Json, Row, EventRow, Db, Stored, StoreError, sql, json, worker, invalid_event,
  max_retained_event_bytes, state_name, is_terminal_name, is_active_name, event_has, find_row,
  update_rows,
}
use eggwork.Store.Trim.{trim_events}

-- `serde_json::to_vec(…)?` and `from_slice(…)?`
abbrev pub json_result {ℓ} : {A : Type ℓ} → Option A → Stored A
json_result none = err json
json_result (some a) = ok a

-- `.map_err(|_| StoreError::InvalidEvent)?`
abbrev pub or_invalid : Result ValidationError (Unit {0}) → Stored (Unit {0})
or_invalid (ok u) = ok u
or_invalid (err e) = err invalid_event

-- The trimming loop ends, which the fuel has to be enough for; `worker` stands for a loop that runs
-- on.
abbrev pub trimmed {ℓ} : {A : Type ℓ} → Option A → Stored A
trimmed none = err worker
trimmed (some a) = ok a

module _ (js : Json) where
  open js use {Encoded, size, snapshot_to_vec, snapshot_from_slice, event_to_vec}

  -- `INSERT INTO execution_events`, under the table's primary key.
  unfoldable pub insert_event :
      EventRow Encoded → List (EventRow Encoded) → Stored (List (EventRow Encoded))
  insert_event e es =
      if any (λ x. event_has e.execution_id e.generation x && x.sequence == e.sequence) es
      then err sql
      else ok (es ++ e ∷ [])

  abbrev pub new_event : ℕ → EventKind → ExecutionEvent
  new_event sequence kind = record {
    sequence = sequence;
    kind = kind;
    metadata = record { fields = [] };
  }

  -- The `UPDATE` of both methods.
  abbrev pub advance : String → ℕ → Encoded → ℕ → Row Encoded → Row Encoded
  advance state sequence snapshot now r = record r {
    state = state;
    next_sequence = sequence + 1;
    snapshot_json = snapshot;
    updated_unix_ms = now;
  }

  -- The three statements that append an event: update the row, insert the event, trim.
  unfoldable pub append_event :
      Bytes → ℕ → String → ℕ → Encoded → Encoded → ℕ → Db Encoded → Stored (Db Encoded)
  append_event id g state sequence snapshot encoded now db = do
    inserted ←
        insert_event
          (record { execution_id = id; generation = g; sequence = sequence; encoded = encoded })
          db.events
    kept ← trimmed (trim_events js id g inserted)
    ok (record db {
      executions = update_rows id g (advance state sequence snapshot now) db.executions;
      events = kept;
    })

  -- The rest of `commit_event` for a live row.
  unfoldable pub commit_live :
      ExecutionSnapshot
      → EventKind
      → ℕ
      → ℕ
      → Db Encoded
      → Stored (Option ExecutionEvent × Db Encoded)
  commit_live snapshot kind sequence now db =
      let event = new_event sequence kind in
      do
        or_invalid (validate_event event)
        encoded ← json_result (event_to_vec event)
        reject_if (ltb max_retained_event_bytes (size encoded)) invalid_event
        stored ← json_result (snapshot_to_vec snapshot)
        db' ←
            append_event snapshot.execution_id snapshot.generation (state_name snapshot.state)
              sequence stored encoded now db
        ok (some event, db')

  -- `ExecutionStore::commit_event`, at the time `now`.
  unfoldable pub commit_event :
      ExecutionSnapshot → EventKind → ℕ → Db Encoded → Stored (Option ExecutionEvent × Db Encoded)
  unfolding commit_live
  commit_event snapshot kind now db =
      elim (find_row snapshot.execution_id snapshot.generation db.executions) [
        | none ↦ ok (none, db)
        | some r ↦
            if is_terminal_name r.state
            then ok (none, db)
            else commit_live snapshot kind r.next_sequence now db
      ]

  -- `rows.map(…).collect::<Result<Vec<_>, _>>()?`
  unfoldable pub decode_all : List (Row Encoded) → Stored (List ExecutionSnapshot)
  decode_all [] = ok []
  decode_all (r ∷ rs) = do
    s ← json_result (snapshot_from_slice r.snapshot_json)
    ss ← decode_all rs
    ok (s ∷ ss)

  abbrev pub interrupted_result : ExecutionResult
  interrupted_result = record {
    state = ExecutionState.interrupted;
    exit_code = none;
    failure = some ExecutionFailure.interrupted;
    stdout_bytes = 0;
    stderr_bytes = 0;
    stdout_omitted = 0;
    stderr_omitted = 0;
    cleanup_warning = none;
    finalization_failure = none;
    artifact_count = 0;
    sandbox = none;
    resources = none;
  }

  -- What `recover` makes of a snapshot.
  abbrev pub interrupt : ExecutionSnapshot → ExecutionSnapshot
  interrupt s = record s { state = ExecutionState.interrupted; result = some interrupted_result }

  -- `query_row` without `optional` fails where no row is found.
  abbrev pub next_of_row : Option (Row Encoded) → Stored ℕ
  next_of_row none = err sql
  next_of_row (some r) = ok r.next_sequence

  -- One round of the loop of `recover`, on the snapshot as it was changed.
  unfoldable pub recover_one : ℕ → ExecutionSnapshot → Db Encoded → Stored (Db Encoded)
  recover_one now s db = do
    sequence ← next_of_row (find_row s.execution_id s.generation db.executions)
    stored ← json_result (snapshot_to_vec s)
    encoded ←
        json_result (event_to_vec (new_event sequence (EventKind.state ExecutionState.interrupted)))
    append_event s.execution_id s.generation "Interrupted" sequence stored encoded now db

  unfoldable pub recover_all :
      ℕ → List ExecutionSnapshot → Db Encoded → Stored (List ExecutionSnapshot × Db Encoded)
  recover_all now [] db = ok ([], db)
  recover_all now (s ∷ ss) db = do
    db' ← recover_one now (interrupt s) db
    rest ← recover_all now ss db'
    ok (interrupt s ∷ rest.0, rest.1)

  -- `ExecutionStore::recover`; every round has the same clock.
  unfoldable pub recover : ℕ → Db Encoded → Stored (List ExecutionSnapshot × Db Encoded)
  recover now db = do
    snapshots ← decode_all (keep_if (λ r. is_active_name r.state) db.executions)
    recover_all now snapshots db
