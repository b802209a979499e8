-- ===== src/Store/Journal/Commit.antt =====
-- crates/eggwork-server/src/store.rs, `commit_event`: one more event at the end of the journal.
use mathlib.Core.Path.{subst₂}
use eggwork.Prelude.{
  ℕ, ◌≡◌, refl, ◌∙◌, true, false, List, [], ◌∷◌, ◌++◌, Option, none, some, arith, ltb, ok, err,
  >>=-eq-ok, >>-eq-ok, reject_if-eq-ok, Bool-cases, Option-cases, inl, inr,
}
use eggwork.Core.Execution.{EventKind, ExecutionEvent, ExecutionSnapshot, validate_event}
use eggwork.Store.Tables.{
  Json, Row, EventRow, Db, StoreError, json, max_retained_event_bytes, state_name, is_terminal_name,
  events_of, find_row,
}
use eggwork.Store.Trim.{fits}
use eggwork.Store.Trim.Longest.{shrink}
use eggwork.Store.Journal.{json_result, or_invalid, new_event, advance, commit_live, commit_event}
use eggwork.Store.Journal.Invariant.{IsJournal}
use eggwork.Store.Journal.Append.{Appended, append_event-Appended}

module _ (js : Json) where
  open js use {Encoded, size, snapshot_to_vec, event_to_vec}

  -- A record that is within the limits alone survives at the end.
  pub shrink-snoc :
      (es : List (EventRow Encoded)) (x : EventRow Encoded)
      → fits js (x ∷ []) ≡ true
      → (kept : List (EventRow Encoded)) × (shrink js (es ++ x ∷ []) ≡ kept ++ x ∷ [])
  unfolding shrink
  shrink-snoc [] x h = ([], rw h)
  shrink-snoc (e ∷ es) x h = elim (Bool-cases (fits js (e ∷ es ++ x ∷ []))) [
    | inl f ↦ (e ∷ es, rw f)
    | inr f ↦ let (kept, s) = shrink-snoc es x h in (kept, rw f s)
  ]

  fits-one :
      (x : EventRow Encoded)
      → ltb max_retained_event_bytes (size x.encoded) ≡ false
      → fits js (x ∷ []) ≡ true
  unfolding fits
  fits-one x h = ground arith

  -- What a call that returns has done.
  pub data Committed (snapshot : ExecutionSnapshot) (kind : EventKind) (now : ℕ) (db : Db Encoded)
      : Option ExecutionEvent → Db Encoded → Type 0 where
    -- there is no such execution generation
    missing :
        find_row snapshot.execution_id snapshot.generation db.executions ≡ none
        → Committed snapshot kind now db none db
    -- it has ended
    ended :
        (r : Row Encoded)
        → find_row snapshot.execution_id snapshot.generation db.executions ≡ some r
        → is_terminal_name r.state ≡ true
        → Committed snapshot kind now db none db
    -- its row has the new state and the next number, and the event is the last of its journal
    live :
        {db' : Db Encoded} (r : Row Encoded) (stored encoded : Encoded)
        (kept : List (EventRow Encoded))
        → find_row snapshot.execution_id snapshot.generation db.executions ≡ some r
        → is_terminal_name r.state ≡ false
        → validate_event (new_event js r.next_sequence kind) ≡ ok tt
        → snapshot_to_vec snapshot ≡ some stored
        → event_to_vec (new_event js r.next_sequence kind) ≡ some encoded
        → Appended js snapshot.execution_id snapshot.generation r
            (advance js (state_name snapshot.state) r.next_sequence stored now)
            encoded
            db
            db'
        → events_of snapshot.execution_id snapshot.generation db'.events
          ≡ kept
            ++ record {
              execution_id = snapshot.execution_id;
              generation = snapshot.generation;
              sequence = r.next_sequence;
              encoded = encoded;
            }
              ∷ []
        → Committed snapshot kind now db (some (new_event js r.next_sequence kind)) db'

  json_result-ok {ℓ} : {A : Type ℓ} (o : Option A) (a : A) → json_result o ≡ ok a → o ≡ some a
  json_result-ok none a h = cc
  json_result-ok (some b) a h = cc

  or_invalid-ok : (v : _) → or_invalid v ≡ ok tt → v ≡ ok tt
  or_invalid-ok (ok tt) h = refl
  or_invalid-ok (err e) h = cc

  commit_live-Committed :
      (snapshot : ExecutionSnapshot) (kind : EventKind) (now : ℕ) (db db' : Db Encoded)
      (r : Row Encoded) (o : Option ExecutionEvent)
      → IsJournal js db
      → find_row snapshot.execution_id snapshot.generation db.executions ≡ some r
      → is_terminal_name r.state ≡ false
      → commit_live js snapshot kind r.next_sequence now db ≡ ok (o, db')
      → Committed snapshot kind now db o db'
  unfolding commit_live
  commit_live-Committed snapshot kind now db db' r o j found lives h =
      let (checked, h₁) =
        >>-eq-ok (or_invalid (validate_event (new_event js r.next_sequence kind))) _ h in
      let (encoded, e, h₂) =
        >>=-eq-ok (json_result (event_to_vec (new_event js r.next_sequence kind))) _ h₁ in
      let (small, h₃) = reject_if-eq-ok (ltb max_retained_event_bytes (size encoded)) _ _ h₂ in
      let (stored, s, h₄) = >>=-eq-ok (json_result (snapshot_to_vec snapshot)) _ h₃ in
      let (db'', done, a) =
        append_event-Appended js snapshot.execution_id snapshot.generation
          (state_name snapshot.state) stored encoded now db r j found in
      let (kept, last) =
        shrink-snoc (events_of snapshot.execution_id snapshot.generation db.events) _
          (fits-one _ small) in
      subst₂ (Committed snapshot kind now db) (ground (arith, done, h₄)) (ground (arith, done, h₄))
        (live r stored encoded kept found lives (or_invalid-ok _ checked)
          (json_result-ok _ stored s) (json_result-ok _ encoded e) a (a.events ∙ last))

  -- A call of `commit_event` that returns has done one of three things: nothing, where there is no
  -- such execution generation; nothing, where it has ended; or else it has given the event the next
  -- number of the row, moved the row to the new state and number, and left the event as the last
  -- one of a journal that is well formed again, with every other execution generation as it was.
  pub commit_event-Committed :
      (snapshot : ExecutionSnapshot) (kind : EventKind) (now : ℕ) (db db' : Db Encoded)
      (o : Option ExecutionEvent)
      → IsJournal js db
      → commit_event js snapshot kind now db ≡ ok (o, db')
      → Committed snapshot kind now db o db'
  unfolding commit_event
  commit_event-Committed snapshot kind now db db' o j h =
      elim (Option-cases (find_row snapshot.execution_id snapshot.generation db.executions)) [
        | inl absent ↦
            subst₂ (Committed snapshot kind now db) (ground (arith, h, absent))
              (ground (arith, h, absent)) (missing absent)
        | inr (r, found) ↦ elim (Bool-cases (is_terminal_name r.state)) [
          | inl over ↦
              subst₂ (Committed snapshot kind now db) (ground (arith, h, found, over))
                (ground (arith, h, found, over)) (ended r found over)
          | inr lives ↦
              commit_live-Committed snapshot kind now db db' r o j found lives
                (ground (arith, h, found, lives))
        ]
      ]

  json_result-err {ℓ} :
      {A : Type ℓ} (o : Option A) (e : StoreError) → json_result o ≡ err e → e ≡ json
  json_result-err none e h = ground arith
  json_result-err (some b) e h = cc
