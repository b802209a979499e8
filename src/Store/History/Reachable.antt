-- ===== src/Store/History/Reachable.antt =====
-- crates/eggwork-server/src/store.rs: what holds of the tables after any history.
use eggwork.Prelude.{
  ℕ, ◌≡◌, refl, subst, true, false, List, [], ◌∷◌, Option, some, arith, any, ok, >>=-eq-ok,
  Bool-cases, Option-cases, inl, inr,
}
use eggwork.Prelude.Bytes.{Bytes}
use eggwork.Core.Execution.{ExecutionSnapshot, EventKind, ExecutionEvent}
use eggwork.Store.Tables.{Json, Row, Db, is_terminal_name, find_row, update_rows, events_of}
use eggwork.Store.Trim.{fits}
use eggwork.Store.Journal.{advance, decode_all, interrupt, recover_one, recover_all, recover}
use eggwork.Store.Journal.Rows.{KeepsKey, find_row-update}
use eggwork.Store.Journal.Invariant.{IsJournal, next_of}
use eggwork.Store.Journal.Append.{advance-KeepsKey}
use eggwork.Store.Journal.Commit.{Committed, commit_event-Committed}
use eggwork.Store.Journal.Recovery.{recover_one-Appended}
use eggwork.Store.Reserve.Invariant.{IsStore, reserve-IsStore}
use eggwork.Store.Leases.{Renewal, renew, update_lease}
use eggwork.Store.Leases.Monotone.{renew-KeepsKey, update_lease-rows}
use eggwork.Store.Metrics.{increment_metrics, is_bad_name}
use eggwork.Store.History.{
  Step, reserving, committing, renewing, counting, Reached, created, stepped, restarted, empty_db,
}
use eggwork.Store.History.Updates.{length-update, update-IsFenced}

module _ (js : Json) where
  open js use {Encoded}

  -- The rows may change by an update that revives none; the journal is looked after.
  update-IsStore :
      (id : Bytes) (g : ℕ) (f : Row Encoded → Row Encoded) (db db' : Db Encoded)
      → IsStore js db
      → KeepsKey f
      → ((r : Row Encoded)
          → find_row id g db.executions ≡ some r
          → is_terminal_name (f r).state ≡ false
          → is_terminal_name r.state ≡ false)
      → db'.executions ≡ update_rows id g f db.executions
      → IsJournal js db'
      → IsStore js db'
  update-IsStore id g f db db' w k keeps rows j = record {
    journal = j;
    fenced = rw rows (update-IsFenced id g f db.executions k keeps w.fenced);
    bounded = rw (rows, length-update id g f db.executions) w.bounded;
  }

  Committed-IsStore :
      (s : ExecutionSnapshot) (kind : EventKind) (now : ℕ) (db db' : Db Encoded)
      (o : Option ExecutionEvent)
      → IsStore js db
      → Committed js s kind now db o db'
      → IsStore js db'
  Committed-IsStore s kind now db db' o w (Committed.missing absent) = w
  Committed-IsStore s kind now db db' o w (Committed.ended r found over) = w
  Committed-IsStore s kind now db db' o w
        (Committed.live r stored encoded kept found lives v e₁ e₂ a last) =
      update-IsStore s.execution_id s.generation _ db db' w
        (advance-KeepsKey js _ r.next_sequence stored now)
        (λ r' f' l. ground (arith, found, f', lives)) a.executions a.journal

  interrupted_over : is_terminal_name "Interrupted" ≡ true
  unfolding is_terminal_name
  interrupted_over = refl

  -- One round of the restart.
  pub recover_one-IsStore :
      (now : ℕ) (s : ExecutionSnapshot) (db db' : Db Encoded)
      → IsStore js db
      → recover_one js now (interrupt js s) db ≡ ok db'
      → IsStore js db'
  recover_one-IsStore now s db db' w one =
      let (n, stored, encodes, j, rows) =
        recover_one-Appended js now (interrupt js s) db db' w.journal one in
      update-IsStore s.execution_id s.generation (advance js "Interrupted" n stored now) db db' w
        (advance-KeepsKey js "Interrupted" n stored now)
        (λ r' f' l. absurd (ground (arith, l, interrupted_over))) rows j

  recover_all-IsStore :
      (now : ℕ) (ss out : List ExecutionSnapshot) (db db' : Db Encoded)
      → IsStore js db
      → recover_all js now ss db ≡ ok (out, db')
      → IsStore js db'
  unfolding recover_all
  recover_all-IsStore now [] out db db' w h =
      let same : db ≡ db' = ground (arith, h) in subst (IsStore js) same w
  recover_all-IsStore now (s ∷ ss) out db db' w h =
      let (db₁, one, h₁) = >>=-eq-ok (recover_one js now (interrupt js s) db) _ h in
      let (rest, two, h₂) = >>=-eq-ok (recover_all js now ss db₁) _ h₁ in
      let same : rest.1 ≡ db' = ground (arith, h₂) in
      subst (IsStore js) same
        (recover_all-IsStore now ss rest.0 db₁ rest.1 (recover_one-IsStore now s db db₁ w one) two)

  recover-IsStore :
      (now : ℕ) (out : List ExecutionSnapshot) (db db' : Db Encoded)
      → IsStore js db
      → recover js now db ≡ ok (out, db')
      → IsStore js db'
  unfolding recover
  recover-IsStore now out db db' w h =
      let (ss, decoded, h₁) = >>=-eq-ok (decode_all js _) _ h in
      recover_all-IsStore now ss out db db' w h₁

  renew-next :
      (v : Renewal) (updated : ℕ) (r : Row Encoded)
      → (renew v updated r).next_sequence ≡ r.next_sequence
  renew-next v updated r = ground arith

  renew-state : (v : Renewal) (updated : ℕ) (r : Row Encoded) → (renew v updated r).state ≡ r.state
  renew-state v updated r = ground arith

  next_of-renew :
      (id i : Bytes) (g h : ℕ) (v : Renewal) (updated : ℕ) (rows : List (Row Encoded))
      → next_of (find_row i h (update_rows id g (renew v updated) rows))
        ≡ next_of (find_row i h rows)
  next_of-renew id i g h v updated rows =
      let e = find_row-update id i g h (renew v updated) rows (renew-KeepsKey v updated) in
      elim (Option-cases (find_row i h rows)) [
        | inl absent ↦ ground (arith, e, absent)
        | inr (r, found) ↦ ground (arith, e, found, renew-next v updated r)
      ]

  renewed-IsStore :
      (id : Bytes) (g : ℕ) (v : Renewal) (updated : ℕ) (db : Db Encoded)
      → IsStore js db
      → IsStore js (record db { executions = update_rows id g (renew v updated) db.executions })
  renewed-IsStore id g v updated db w =
      update-IsStore id g (renew v updated) db _ w (renew-KeepsKey v updated)
        (λ r f l. rw (← renew-state v updated r) l) refl
        (record {
          at = λ i h.
              let ((a, one, run), within) = w.journal.at i h in
              ((a, one, rw (next_of-renew id i g h v updated db.executions) run), within);
        })

  update_lease-IsStore :
      (id : Bytes) (g : ℕ) (v : Renewal) (now updated : ℕ) (o : Option ℕ) (db db' : Db Encoded)
      → IsStore js db
      → update_lease id g v now updated db ≡ ok (o, db')
      → IsStore js db'
  update_lease-IsStore id g v now updated o db db' w h =
      elim (update_lease-rows id g v now updated o db db' h) [
        | inl same ↦ subst (IsStore js) same w
        | inr same ↦ subst (IsStore js) same (renewed-IsStore id g v updated db w)
      ]

  increment_metrics-IsStore :
      (deltas : List (Bytes × ℕ)) (db db' : Db Encoded)
      → IsStore js db
      → increment_metrics deltas db ≡ ok db'
      → IsStore js db'
  unfolding increment_metrics
  increment_metrics-IsStore deltas db db' w h = elim (Bool-cases (any is_bad_name deltas)) [
    | inl bad ↦ absurd (ground (arith, h, bad))
    | inr good ↦
        let rows : db.executions ≡ db'.executions = ground (arith, h, good) in
        let events : db.events ≡ db'.events = ground (arith, h, good) in
        record {
          journal = record { at = λ i k. rw (← rows, ← events) (w.journal.at i k) };
          fenced = rw (← rows) w.fenced;
          bounded = rw (← rows) w.bounded;
        }
  ]

  pub Step-IsStore : (db db' : Db Encoded) → IsStore js db → Step js db db' → IsStore js db'
  Step-IsStore db db' w (reserving s a now o h) = reserve-IsStore js s a now db db' o w h
  Step-IsStore db db' w (committing s kind now o h) =
      Committed-IsStore s kind now db db' o w
        (commit_event-Committed js s kind now db db' o w.journal h)
  Step-IsStore db db' w (renewing id g v now updated o h) =
      update_lease-IsStore id g v now updated o db db' w h
  Step-IsStore db db' w (counting deltas h) = increment_metrics-IsStore deltas db db' w h

  empty-IsStore : IsStore js (empty_db js)
  unfolding events_of find_row fits
  empty-IsStore = record {
    journal = record { at = λ i h. ((1, omega arith, refl), refl) };
    fenced = λ id g h r found lives lt. refl;
    bounded = omega arith;
  }

  -- Whatever admissions, events, renewals, counters and restarts made of a new database, its
  -- tables are well formed: each journal is a run of consecutive numbers that ends just before the
  -- next one and is within the retention limits, an execution has no generation after one that has
  -- not ended, and there are at most 2048 rows.
  pub Reached-IsStore : (db : Db Encoded) → Reached js db → IsStore js db
  Reached-IsStore db created = empty-IsStore
  Reached-IsStore db (stepped {db = before} r s) =
      Step-IsStore before db (Reached-IsStore before r) s
  Reached-IsStore db (restarted {db = before} now out r h) =
      recover-IsStore now out before db (Reached-IsStore before r) h
