-- ===== src/Store/Tests/Calls/Repeats.antt =====
-- The theorems on repeated calls at work: a restart comes before the repeated reservation, and output
-- is journalled before the repeated renewal.
use eggwork.Prelude.{ℕ, ◌≡◌, refl, sym, ap, [], ◌∷◌, none, some, ok, arith, if◌then◌else◌}
use eggwork.Prelude.Bytes.{Bytes, bytes}
use eggwork.Core.Execution.{ExecutionState, EventKind}
use eggwork.Store.Tables.{Row, Db, find_row, is_terminal_name}
use eggwork.Store.Journal.{new_event, commit_event}
use eggwork.Store.Leases.{update_lease}
use eggwork.Store.History.{created, committing}
use eggwork.Store.History.Later.{Later, start, step, restart}
use eggwork.Store.History.Repeated.{Anyone, Answered, reserve-again, update_lease-again}
use eggwork.Store.Tests.{
  Encoded, snapshot_of, plain, new_db, job, snapshot_in, row_in, accepted_job, admission, admitted,
  started, event_row, running_db, interrupted_db, admit, start_job, recovered, Reached-running,
  some_injective,
}
use eggwork.Store.Tests.Calls.{renewal, renewed_db, renewing_it}

restarted_later : Later plain Anyone admitted interrupted_db
restarted_later =
    restart 200 _
      (step start (committing (snapshot_in ExecutionState.running) started 110 _ start_job) tt)
      recovered

reserve-again_example : Answered plain accepted_job admission 400 interrupted_db
reserve-again_example =
    reserve-again plain accepted_job admission 100 400 new_db admitted interrupted_db
      (λ s e h. ap snapshot_of (some_injective (sym h))) created admit restarted_later

abbrev said : EventKind
said = EventKind.stdout (bytes "hi")

abbrev talking_row : Row Encoded
talking_row = record (row_in "Running" ExecutionState.running 3 140) {
  lease_expires_unix_ms = 900;
  last_renewal_id = some (bytes "r1");
}

abbrev talking_db : Db Encoded
talking_db = record {
  executions = talking_row ∷ [];
  events = event_row 1 started ∷ event_row 2 said ∷ [];
  node_metrics = [];
}

talk :
    commit_event plain (snapshot_in ExecutionState.running) said 140 renewed_db
    ≡ ok (some (new_event plain 2 said), talking_db)
unfolding commit_event find_row eggwork.Store.Tables.same_key eggwork.Prelude.Bytes.bytes_eq
    is_terminal_name eggwork.Core.Execution.validate_event eggwork.Store.Journal.append_event
    eggwork.Store.Journal.insert_event eggwork.Store.Trim.trim_events eggwork.Store.Trim.trim_loop
    eggwork.Store.Trim.fits eggwork.Store.Tables.events_of eggwork.Store.Tables.update_rows
    eggwork.Store.Tables.state_name
talk = refl

update_lease-again_example :
    (r : Row Encoded) × (find_row job 1 talking_db.executions ≡ some r)
    × (update_lease job 1 (record renewal { lease_expires_unix_ms = 5000 }) 700 701 talking_db
        ≡ ok (if is_terminal_name r.state then none else some 900, talking_db))
update_lease-again_example =
    update_lease-again plain job 1 renewal 120 130 900 5000 700 701 running_db renewed_db talking_db
      Reached-running renewing_it
      (step start (committing (snapshot_in ExecutionState.running) said 140 _ talk) tt)
      (omega arith)

-- Another renewal between, and the repeated one is taken for a new one.
abbrev renewed_by : Bytes → ℕ → ℕ → Db Encoded
renewed_by renewal_id expiry now = record running_db {
  executions =
      record (row_in "Running" ExecutionState.running 2 now) {
        lease_expires_unix_ms = expiry;
        last_renewal_id = some renewal_id;
      }
      ∷ [];
}

second :
    update_lease job 1 (record renewal { renewal_id = bytes "r2" }) 140 141 renewed_db
    ≡ ok (some 900, renewed_by (bytes "r2") 900 141)
unfolding update_lease find_row eggwork.Store.Tables.same_key eggwork.Prelude.Bytes.bytes_eq
    is_terminal_name eggwork.Store.Tables.update_rows
second = refl

third :
    update_lease job 1
      (record renewal { lease_expires_unix_ms = 2000 })
      150
      151
      (renewed_by (bytes "r2") 900 141)
    ≡ ok (some 2000, renewed_by (bytes "r1") 2000 151)
unfolding update_lease find_row eggwork.Store.Tables.same_key eggwork.Prelude.Bytes.bytes_eq
    is_terminal_name eggwork.Store.Tables.update_rows
third = refl
