-- ===== src/Store/Tests/Calls.antt =====
-- The theorems on admissions, leases, pages, counters and trimming at work on small tables.
mod Repeats
use eggwork.Prelude.{
  ℕ, ◌≡◌, ◌≤◌, ◌<◌, ◌+◌, ◌⊎◌, ◌++◌, inl, inr, refl, sym, ap, Bool, true, false, List, [], ◌∷◌,
  Option, none, some, ok, err, length, min, i64_max, arith, Result, All, String,
}
use eggwork.Prelude.Bytes.{Bytes, bytes}
use eggwork.Core.Execution.{ExecutionState, ExecutionSnapshot}
use eggwork.Store.Tables.{
  Json, Row, EventRow, Db, StoreError, max_execution_identities, same_key, find_row, events_of,
  is_terminal_name, is_active_name,
}
use eggwork.Store.Run.{Run}
use eggwork.Store.Trim.{trim_events}
use eggwork.Store.Trim.Longest.{IsLongest, trim_events-IsLongest}
use eggwork.Store.Journal.{new_event}
use eggwork.Store.Reserve.{ReserveResult, reserve}
use eggwork.Store.Reserve.Fencing.{IsNext, reserve-IsNext}
use eggwork.Store.Reserve.Invariant.{IsStore, reserve-IsStore}
use eggwork.Store.Leases.{Renewal, update_lease}
use eggwork.Store.Leases.Monotone.{Renewed, update_lease-Renewed}
use eggwork.Store.Reads.{EventPage, load_page}
use eggwork.Store.Reads.Pages.{Served, load_page-Served}
use eggwork.Store.Metrics.{increment_metrics, metric}
use eggwork.Store.Metrics.Saturating.{total, increment_metrics-total}
use eggwork.Store.History.{reserving, done, next}
use eggwork.Store.History.Ended.{steps-ended}
use eggwork.Store.Tests.{
  Encoded, a_snapshot, snapshot_of, plain, new_db, job, accepted_job, admission, row_in, admitted,
  ended_kind, running_db, ended_db, admit, ended_sound, some_injective,
}

abbrev next_job : ExecutionSnapshot
next_job = record accepted_job { generation = 2 }

abbrev readmitted : Db Encoded
readmitted = record ended_db {
  executions =
      row_in "Succeeded" ExecutionState.succeeded 3 120
      ∷ record (row_in "Accepted" ExecutionState.accepted 1 300) {
        generation = 2;
        snapshot_json = a_snapshot next_job;
        created_unix_ms = 300;
      }
      ∷ [];
}

admit_next : reserve plain next_job admission 300 ended_db ≡ ok (ReserveResult.created, readmitted)
unfolding reserve find_row same_key eggwork.Prelude.Bytes.bytes_eq eggwork.Store.Tables.latest
    is_terminal_name eggwork.Store.Tables.state_name
admit_next = refl

reserve-IsNext_example :
    (find_row job 2 ended_db.executions ≡ none)
    × (length ended_db.executions < max_execution_identities)
    × IsNext plain job 2 ended_db.executions
reserve-IsNext_example = reserve-IsNext plain next_job admission 300 ended_db readmitted admit_next

reserve-IsStore_example : IsStore plain readmitted
reserve-IsStore_example =
    reserve-IsStore plain next_job admission 300 ended_db readmitted ReserveResult.created
      ended_sound admit_next

found_ended :
    find_row job 1 ended_db.executions ≡ some (row_in "Succeeded" ExecutionState.succeeded 3 120)
unfolding find_row same_key eggwork.Prelude.Bytes.bytes_eq
found_ended = refl

succeeded_over : is_terminal_name "Succeeded" ≡ true
unfolding is_terminal_name
succeeded_over = refl

ended-Run : Run 1 (events_of job 1 ended_db.events) 3
unfolding events_of same_key eggwork.Prelude.Bytes.bytes_eq
ended-Run = (refl, (refl, refl))

steps-ended_example :
    (find_row job 1 readmitted.executions
      ≡ some (row_in "Succeeded" ExecutionState.succeeded 3 120))
    × (events_of job 1 readmitted.events ≡ events_of job 1 ended_db.events)
steps-ended_example =
    steps-ended plain job 1 (row_in "Succeeded" ExecutionState.succeeded 3 120) ended_db readmitted
      ended_sound found_ended succeeded_over
      (next (reserving next_job admission 300 ReserveResult.created admit_next) done)

abbrev renewal : Renewal
renewal = record {
  lease_token_hash = bytes "token";
  renewal_id = bytes "r1";
  lease_expires_unix_ms = 900;
}

abbrev renewed_db : Db Encoded
renewed_db = record running_db {
  executions =
      record (row_in "Running" ExecutionState.running 2 130) {
        lease_expires_unix_ms = 900;
        last_renewal_id = some (bytes "r1");
      }
      ∷ [];
}

renewing_it : update_lease job 1 renewal 120 130 running_db ≡ ok (some 900, renewed_db)
unfolding update_lease find_row same_key eggwork.Prelude.Bytes.bytes_eq is_terminal_name
    eggwork.Store.Tables.update_rows
renewing_it = refl

update_lease-Renewed_example : Renewed job 1 renewal 120 900 running_db renewed_db
update_lease-Renewed_example =
    update_lease-Renewed job 1 renewal 120 130 900 running_db renewed_db renewing_it

abbrev second_page : EventPage
second_page = record {
  base_sequence = 1;
  next_sequence = 3;
  events = new_event plain 2 ended_kind ∷ [];
}

reading : load_page plain job 1 1 ended_db ≡ ok (some second_page)
unfolding load_page find_row same_key eggwork.Prelude.Bytes.bytes_eq
    eggwork.Store.Tables.min_sequence events_of eggwork.Store.Reads.decode_events
    eggwork.Store.Reads.rows_after eggwork.Prelude.Sorting.sort_by
reading = refl

load_page-Served_example : Served plain job 1 1 ended_db second_page
load_page-Served_example =
    load_page-Served plain job 1 1 ended_db second_page (omega arith) ended_sound.journal reading

abbrev counted : Db Encoded
counted = record new_db { node_metrics = (bytes "runs", 5) ∷ [] }

counting_them : increment_metrics ((bytes "runs", 2) ∷ (bytes "runs", 3) ∷ []) new_db ≡ ok counted
unfolding increment_metrics eggwork.Prelude.Bytes.is_empty eggwork.Store.Metrics.upsert_all
    eggwork.Store.Metrics.upsert eggwork.Prelude.Bytes.bytes_eq
counting_them = refl

no_counter : (name : Bytes) → metric name [] ≤ i64_max
unfolding metric
no_counter name = omega arith

increment_metrics-total_example :
    metric (bytes "runs") counted.node_metrics
    ≡ min
        (metric (bytes "runs") new_db.node_metrics
          + total (bytes "runs") ((bytes "runs", 2) ∷ (bytes "runs", 3) ∷ []))
        i64_max
increment_metrics-total_example =
    increment_metrics-total (bytes "runs") ((bytes "runs", 2) ∷ (bytes "runs", 3) ∷ []) new_db
      counted no_counter counting_them

trim_events-IsLongest_example :
    (kept : List (EventRow Encoded)) × (trim_events plain job 1 ended_db.events ≡ some kept)
    × IsLongest plain (events_of job 1 ended_db.events) (events_of job 1 kept)
    × ((i : Bytes) (h : ℕ)
        → same_key job 1 i h ≡ false
        → events_of i h kept ≡ events_of i h ended_db.events)
trim_events-IsLongest_example = trim_events-IsLongest plain job 1 1 3 ended_db.events ended-Run
