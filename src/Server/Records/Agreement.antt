-- ===== src/Server/Records/Agreement.antt =====
-- crates/eggwork-server/src/lib.rs, `publish`: the record in memory against the execution's row.
use eggwork.Prelude.{
  ℕ, ◌≡◌, refl, sym, ap, ◌∙◌, true, false, [], ◌∷◌, ◌++◌, Option, none, some, ok, err, Bool-cases,
  inl, inr,
}
use eggwork.Core.Execution.{
  ExecutionState, accepted, preparing, running, cancelling, succeeded, failed, cancelled, timed_out,
  interrupted, EventKind, ExecutionEvent, ExecutionResult,
}
use eggwork.Store.Tables.{Json, Row, Db, Stored, state_name, is_terminal_name, find_row}
use eggwork.Store.Journal.{commit_event, new_event}
use eggwork.Store.Journal.Invariant.{IsJournal}
use eggwork.Store.Journal.Commit.{Committed, missing, ended, live, commit_event-Committed}
use eggwork.Server.Events.{is_terminal}
use eggwork.Server.Records.{ExecutionRecord, proposed_of, after_commit, publish}

-- The names of the store tell the terminal states.
state_name-terminal : (s : ExecutionState) → is_terminal_name (state_name s) ≡ is_terminal s
unfolding state_name is_terminal_name is_terminal
state_name-terminal accepted = refl
state_name-terminal preparing = refl
state_name-terminal running = refl
state_name-terminal cancelling = refl
state_name-terminal succeeded = refl
state_name-terminal failed = refl
state_name-terminal cancelled = refl
state_name-terminal timed_out = refl
state_name-terminal interrupted = refl

module _ (js : Json) where
  open js use {Encoded, snapshot_to_vec}

  -- The row of the execution generation holds the record's snapshot, and its state.
  pub record Agrees (r : ExecutionRecord) (db : Db Encoded) : Type 0 where
    pub journal : IsJournal js db
    pub row : Row Encoded
    pub found : find_row r.snapshot.execution_id r.snapshot.generation db.executions ≡ some row
    pub state : row.state ≡ state_name r.snapshot.state
    pub stored : snapshot_to_vec r.snapshot ≡ some row.snapshot_json

  -- What a call of `publish` does.
  pub data Published (to : ExecutionState) (result : Option ExecutionResult) (kind : EventKind)
      (r : ExecutionRecord) (db : Db Encoded) : ExecutionRecord × Db Encoded → Type 0 where
    -- the execution has ended, and nothing changes
    kept : is_terminal r.snapshot.state ≡ true → Published to result kind r db (r, db)
    -- the event is in the journal and on the channel, and record and row agree on the new snapshot
    committed :
        {db' : Db Encoded} (event : ExecutionEvent)
        → is_terminal r.snapshot.state ≡ false
        → event.kind ≡ kind
        → Agrees
            (record r { snapshot = proposed_of r.snapshot to result; sent = r.sent ++ event ∷ [] })
            db'
        → Published to result kind r db (
          record r { snapshot = proposed_of r.snapshot to result; sent = r.sent ++ event ∷ [] },
          db',
        )
    -- the store failed: the node drains, the execution is cancelled, and the rest is as it was
    refused :
        is_terminal r.snapshot.state ≡ false
        → Published to result kind r db (record r { draining = true; cancelled = true }, db)

  committed-Published :
      (to : ExecutionState) (result : Option ExecutionResult) (kind : EventKind) (now : ℕ)
      (r : ExecutionRecord) (db db' : Db Encoded) (o : Option ExecutionEvent)
      → Agrees r db
      → is_terminal r.snapshot.state ≡ false
      → Committed js (proposed_of r.snapshot to result) kind now db o db'
      → Published to result kind r db
          (after_commit js (proposed_of r.snapshot to result) r db (ok (o, db')))
  committed-Published to result kind now r db db' o a on (missing absent) =
      let clash : some a.row ≡ none = sym a.found ∙ absent in cc
  committed-Published to result kind now r db db' o a on (ended row found over) =
      let same : row ≡ a.row = cc in
      let clash : true ≡ false =
        sym over
        ∙ ap (λ row. is_terminal_name row.state) same
        ∙ ap is_terminal_name a.state
        ∙ state_name-terminal r.snapshot.state
        ∙ on in
      cc
  committed-Published to result kind now r db db' o a on
        (live row stored encoded held found lives valid snapshot event appended last) =
      committed (new_event js row.next_sequence kind) on refl (record {
        journal = appended.journal;
        row = _;
        found = appended.row;
        state = refl;
        stored = snapshot;
      })

  returned-Published :
      (to : ExecutionState) (result : Option ExecutionResult) (kind : EventKind) (now : ℕ)
      (r : ExecutionRecord) (db : Db Encoded) (out : Stored (Option ExecutionEvent × Db Encoded))
      → Agrees r db
      → is_terminal r.snapshot.state ≡ false
      → commit_event js (proposed_of r.snapshot to result) kind now db ≡ out
      → Published to result kind r db (after_commit js (proposed_of r.snapshot to result) r db out)
  returned-Published to result kind now r db (err e) a on h = refused on
  returned-Published to result kind now r db (ok (o, db')) a on h =
      committed-Published to result kind now r db db' o a on
        (commit_event-Committed js (proposed_of r.snapshot to result) kind now db db' o a.journal h)

  -- While the execution's row holds the record's snapshot and state, a call of `publish` leaves all
  -- as it was, where the record is terminal, and the event is not published; and else it either
  -- commits: the event is on the channel, and record and row agree again, on the new state and
  -- result; or, where the store fails, it sets the node to drain, cancels the execution, and leaves
  -- the snapshot, the channel and the store as they were, without the event.
  pub publish-Published :
      (now : ℕ) (to : ExecutionState) (result : Option ExecutionResult) (kind : EventKind)
      (r : ExecutionRecord) (db : Db Encoded)
      → Agrees r db
      → Published to result kind r db (publish js now to result kind (r, db))
  unfolding publish
  publish-Published now to result kind r db a = elim (Bool-cases (is_terminal r.snapshot.state)) [
    | inl over ↦ rw over (kept over)
    | inr on ↦ rw on (returned-Published to result kind now r db _ a on refl)
  ]
