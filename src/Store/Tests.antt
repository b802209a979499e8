-- ===== src/Store/Tests.antt =====
-- The store's theorems at work on a new database and on what a few calls make of it.
mod Calls
mod Restarts
use eggwork.Prelude.{
  ℕ, ◌≡◌, refl, sym, ap, false, [], ◌∷◌, Option, none, some, ok, min, Result, All, String,
}
use eggwork.Prelude.Bytes.{Bytes, bytes}
use eggwork.Core.Execution.{ExecutionState, EventKind, ExecutionEvent, ExecutionSnapshot}
use eggwork.Store.Tables.{
  Json, Row, EventRow, Db, same_key, find_row, events_of, is_terminal_name, is_active_name,
}
use eggwork.Store.Run.{Run}
use eggwork.Store.Trim.{trim_events}
use eggwork.Store.Journal.{commit_event, new_event, interrupt, recover}
use eggwork.Store.Journal.Invariant.{IsJournal}
use eggwork.Store.Journal.Commit.{Committed, commit_event-Committed}
use eggwork.Store.Journal.Recovery.{IsCoherent, recover-idle}
use eggwork.Store.Reserve.{ReserveResult, Admission, reserve}
use eggwork.Store.Reserve.Invariant.{IsStore}
use eggwork.Store.Metrics.{metric}
use eggwork.Store.History.{reserving, committing, next, empty_db, Reached, created, stepped}
use eggwork.Store.History.Reachable.{Reached-IsStore}

data Encoded : Type 0 where
  a_snapshot : ExecutionSnapshot → Encoded
  an_event : ExecutionEvent → Encoded

abbrev snapshot_of : Encoded → Option ExecutionSnapshot
snapshot_of (a_snapshot s) = some s
snapshot_of (an_event e) = none

abbrev event_of : Encoded → Option ExecutionEvent
event_of (a_snapshot s) = none
event_of (an_event e) = some e

abbrev encode_event_of : ExecutionEvent → EventKind → Option Encoded
encode_event_of e (EventKind.state s) = some (an_event e)
encode_event_of e (EventKind.stdout v) = some (an_event e)
encode_event_of e (EventKind.stderr v) = none
encode_event_of e (EventKind.diagnostic v) = some (an_event e)

-- Keeps the values, each of the size 10; encodes no event that holds output on the error stream.
abbrev plain : Json
plain = record {
  Encoded = Encoded;
  size = λ e. 10;
  snapshot_to_vec = λ s. some (a_snapshot s);
  snapshot_from_slice = snapshot_of;
  event_to_vec = λ e. encode_event_of e e.kind;
  event_from_slice = event_of;
}

abbrev new_db : Db Encoded
new_db = empty_db plain

abbrev job : Bytes
job = bytes "job"

abbrev snapshot_in : ExecutionState → ExecutionSnapshot
snapshot_in s = record {
  schema_version = 1;
  execution_id = job;
  generation = 1;
  state = s;
  result = none;
}

abbrev accepted_job : ExecutionSnapshot
accepted_job = snapshot_in ExecutionState.accepted

abbrev admission : Admission
admission = record {
  canonical_version = 2;
  digest = bytes "digest";
  principal_id = bytes "user";
  lease_token_hash = bytes "token";
  lease_expires_unix_ms = 500;
}

abbrev row_in : String → ExecutionState → ℕ → ℕ → Row Encoded
row_in name s n now = record {
  execution_id = job;
  generation = 1;
  canonical_version = 2;
  digest = bytes "digest";
  principal_id = bytes "user";
  lease_token_hash = bytes "token";
  lease_expires_unix_ms = 500;
  last_renewal_id = none;
  state = name;
  next_sequence = n;
  snapshot_json = a_snapshot (snapshot_in s);
  created_unix_ms = 100;
  updated_unix_ms = now;
}

-- The tables after the admission.
abbrev admitted : Db Encoded
admitted = record {
  executions = row_in "Accepted" ExecutionState.accepted 1 100 ∷ [];
  events = [];
  node_metrics = [];
}

abbrev started : EventKind
started = EventKind.state ExecutionState.running

abbrev ended_kind : EventKind
ended_kind = EventKind.state ExecutionState.succeeded

abbrev event_row : ℕ → EventKind → EventRow Encoded
event_row n kind = record {
  execution_id = job;
  generation = 1;
  sequence = n;
  encoded = an_event (new_event plain n kind);
}

abbrev running_db : Db Encoded
running_db = record {
  executions = row_in "Running" ExecutionState.running 2 110 ∷ [];
  events = event_row 1 started ∷ [];
  node_metrics = [];
}

abbrev ended_db : Db Encoded
ended_db = record {
  executions = row_in "Succeeded" ExecutionState.succeeded 3 120 ∷ [];
  events = event_row 1 started ∷ event_row 2 ended_kind ∷ [];
  node_metrics = [];
}

admit : reserve plain accepted_job admission 100 new_db ≡ ok (ReserveResult.created, admitted)
unfolding reserve find_row eggwork.Store.Tables.latest eggwork.Store.Tables.state_name
admit = refl

start_job :
    commit_event plain (snapshot_in ExecutionState.running) started 110 admitted
    ≡ ok (some (new_event plain 1 started), running_db)
unfolding commit_event find_row same_key eggwork.Prelude.Bytes.bytes_eq is_terminal_name
    eggwork.Core.Execution.validate_event eggwork.Store.Journal.append_event
    eggwork.Store.Journal.insert_event trim_events eggwork.Store.Trim.trim_loop
    eggwork.Store.Trim.fits events_of eggwork.Store.Tables.update_rows
    eggwork.Store.Tables.state_name
start_job = refl

finish :
    commit_event plain (snapshot_in ExecutionState.succeeded) ended_kind 120 running_db
    ≡ ok (some (new_event plain 2 ended_kind), ended_db)
unfolding commit_event find_row same_key eggwork.Prelude.Bytes.bytes_eq is_terminal_name
    eggwork.Core.Execution.validate_event eggwork.Store.Journal.append_event
    eggwork.Store.Journal.insert_event trim_events eggwork.Store.Trim.trim_loop
    eggwork.Store.Trim.fits events_of eggwork.Store.Tables.update_rows
    eggwork.Store.Tables.state_name
finish = refl

Reached-admitted : Reached plain admitted
Reached-admitted =
    stepped created (reserving accepted_job admission 100 ReserveResult.created admit)

Reached-running : Reached plain running_db
Reached-running =
    stepped Reached-admitted
      (committing (snapshot_in ExecutionState.running) started 110 _ start_job)

Reached-ended : Reached plain ended_db
Reached-ended =
    stepped Reached-running
      (committing (snapshot_in ExecutionState.succeeded) ended_kind 120 _ finish)

admitted_sound : IsStore plain admitted
admitted_sound = Reached-IsStore plain admitted Reached-admitted

Reached-IsStore_example : IsStore plain ended_db
Reached-IsStore_example = Reached-IsStore plain ended_db Reached-ended

commit_event-Committed_example :
    Committed plain
      (snapshot_in ExecutionState.running)
      started
      110
      admitted
      (some (new_event plain 1 started))
      running_db
commit_event-Committed_example =
    commit_event-Committed plain (snapshot_in ExecutionState.running) started 110 admitted
      running_db (some (new_event plain 1 started)) admitted_sound.journal start_job

running_sound : IsStore plain running_db
running_sound = Reached-IsStore plain running_db Reached-running

ended_sound : IsStore plain ended_db
ended_sound = Reached-IsStore plain ended_db Reached-ended

some_injective : {A : Type 0} {a b : A} → some a ≡ some b → a ≡ b
some_injective h = cc

abbrev interrupted_db : Db Encoded
interrupted_db = record {
  executions =
      record (row_in "Interrupted" ExecutionState.interrupted 3 200) {
        snapshot_json = a_snapshot (interrupt plain (snapshot_in ExecutionState.running));
      }
      ∷ [];
  events = event_row 1 started ∷ event_row 2 (EventKind.state ExecutionState.interrupted) ∷ [];
  node_metrics = [];
}

recovered :
    recover plain 200 running_db
    ≡ ok (interrupt plain (snapshot_in ExecutionState.running) ∷ [], interrupted_db)
unfolding recover eggwork.Store.Journal.decode_all is_active_name eggwork.Store.Journal.recover_all
    eggwork.Store.Journal.recover_one find_row same_key eggwork.Prelude.Bytes.bytes_eq
    eggwork.Store.Journal.append_event eggwork.Store.Journal.insert_event trim_events
    eggwork.Store.Trim.trim_loop eggwork.Store.Trim.fits events_of eggwork.Store.Tables.update_rows
recovered = refl
