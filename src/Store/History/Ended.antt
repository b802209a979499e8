-- ===== src/Store/History/Ended.antt =====
-- crates/eggwork-server/src/store.rs: an execution that has ended stays as it ended.
use eggwork.Prelude.{
  ℕ, ◌≡◌, refl, subst, ap, ◌∙◌, true, List, Option, none, some, arith, any, ok, Bool-cases, inl,
  inr,
}
use eggwork.Prelude.Bytes.{Bytes}
use eggwork.Core.Execution.{ExecutionSnapshot, EventKind, ExecutionEvent}
use eggwork.Store.Tables.{Json, Row, Db, is_terminal_name, same_key, find_row, events_of}
use eggwork.Store.Run.{same_key_eq}
use eggwork.Store.History.Updates.{find_row-update_other}
use eggwork.Store.Journal.Append.{advance-KeepsKey}
use eggwork.Store.Journal.Commit.{Committed, commit_event-Committed}
use eggwork.Store.Reserve.{ReserveResult, Admission, reserve}
use eggwork.Store.Reserve.Fencing.{reserve-Created}
use eggwork.Store.Reserve.Latest.{find_row-append_old}
use eggwork.Store.Reserve.Invariant.{IsStore, reserve-others}
use eggwork.Store.Leases.{Renewal, update_lease}
use eggwork.Store.Leases.Monotone.{update_lease-Renewed, update_lease-none}
use eggwork.Store.Metrics.{increment_metrics, is_bad_name}
use eggwork.Store.History.{Step, reserving, committing, renewing, counting, Steps, done, next}
use eggwork.Store.History.Reachable.{Step-IsStore}

module _ (js : Json) where
  open js use {Encoded}

  -- The row and the journal of an execution generation are the same in both.
  abbrev Unchanged : Bytes → ℕ → Row Encoded → Db Encoded → Db Encoded → Type 0
  Unchanged i h r db db' =
      (find_row i h db'.executions ≡ some r) × (events_of i h db'.events ≡ events_of i h db.events)

  reserve-ended :
      (i : Bytes) (h : ℕ) (r : Row Encoded) (s : ExecutionSnapshot) (a : Admission) (now : ℕ)
      (o : ReserveResult) (db db' : Db Encoded)
      → find_row i h db.executions ≡ some r
      → reserve js s a now db ≡ ok (o, db')
      → Unchanged i h r db db'
  reserve-ended i h r s a now o db db' found e = elim (reserve-others js s a now db db' o e) [
    | inl made ↦
        let c =
          reserve-Created js s a now db db'
            (subst (λ x. reserve js s a now db ≡ ok (x, db')) made e) in
        (rw c.rows (find_row-append_old i h db.executions _ r found), rw c.events refl)
    | inr same ↦ subst (Unchanged i h r db) same (found, refl)
  ]

  commit-ended :
      (i : Bytes) (h : ℕ) (r : Row Encoded) (s : ExecutionSnapshot) (kind : EventKind) (now : ℕ)
      (o : Option ExecutionEvent) (db db' : Db Encoded)
      → find_row i h db.executions ≡ some r
      → is_terminal_name r.state ≡ true
      → Committed js s kind now db o db'
      → Unchanged i h r db db'
  commit-ended i h r s kind now o db db' found over (Committed.missing absent) = (found, refl)
  commit-ended i h r s kind now o db db' found over (Committed.ended _ _ _) = (found, refl)
  commit-ended i h r s kind now o db db' found over
        (Committed.live r' stored encoded kept found' lives v e₁ e₂ a last) =
      elim (Bool-cases (same_key s.execution_id s.generation i h)) [
        | inl own ↦
            let (id, g) = same_key_eq s.execution_id i s.generation h own in
            let found'' : find_row i h db.executions ≡ some r' = rw (← id, ← g) found' in
            absurd (ground (arith, found'', found, lives, over))
        | inr apart ↦ (
          rw a.executions (
              find_row-update_other s.execution_id i s.generation h _ db.executions
                (advance-KeepsKey js _ r'.next_sequence stored now) apart
              ∙ found),
          a.others i h apart,
        )
      ]

  update_lease-ended :
      (i : Bytes) (h : ℕ) (r : Row Encoded) (id : Bytes) (g : ℕ) (v : Renewal) (now updated : ℕ)
      (o : Option ℕ) (db db' : Db Encoded)
      → find_row i h db.executions ≡ some r
      → is_terminal_name r.state ≡ true
      → update_lease id g v now updated db ≡ ok (o, db')
      → Unchanged i h r db db'
  update_lease-ended i h r id g v now updated (some expiry) db db' found over e =
      let n = update_lease-Renewed id g v now updated expiry db db' e in
      elim (Bool-cases (same_key id g i h)) [
        | inl own ↦
            let (j, m) = same_key_eq id i g h own in
            let before : find_row i h db.executions ≡ some n.before = rw (← j, ← m) n.found in
            absurd (ground (arith, before, found, n.live, over))
        | inr apart ↦ (n.others i h apart ∙ found, ap (events_of i h) n.events)
      ]
  update_lease-ended i h r id g v now updated none db db' found over e =
      subst (Unchanged i h r db) (update_lease-none id g v now updated db db' e) (found, refl)

  increment_metrics-ended :
      (i : Bytes) (h : ℕ) (r : Row Encoded) (deltas : List (Bytes × ℕ)) (db db' : Db Encoded)
      → find_row i h db.executions ≡ some r
      → increment_metrics deltas db ≡ ok db'
      → Unchanged i h r db db'
  unfolding increment_metrics
  increment_metrics-ended i h r deltas db db' found e = elim (Bool-cases (any is_bad_name deltas)) [
    | inl bad ↦ absurd (ground (arith, e, bad))
    | inr good ↦
        let rows : db.executions ≡ db'.executions = ground (arith, e, good) in
        let events : db.events ≡ db'.events = ground (arith, e, good) in
        (rw (← rows) found, rw (← events) refl)
  ]

  Step-ended :
      (i : Bytes) (h : ℕ) (r : Row Encoded) (db db' : Db Encoded)
      → IsStore js db
      → find_row i h db.executions ≡ some r
      → is_terminal_name r.state ≡ true
      → Step js db db'
      → Unchanged i h r db db'
  Step-ended i h r db db' w found over (reserving s a now o e) =
      reserve-ended i h r s a now o db db' found e
  Step-ended i h r db db' w found over (committing s kind now o e) =
      commit-ended i h r s kind now o db db' found over
        (commit_event-Committed js s kind now db db' o w.journal e)
  Step-ended i h r db db' w found over (renewing id g v now updated o e) =
      update_lease-ended i h r id g v now updated o db db' found over e
  Step-ended i h r db db' w found over (counting deltas e) =
      increment_metrics-ended i h r deltas db db' found e

  -- From well-formed tables, no sequence of admissions, events, renewals and counters changes the
  -- row or the journal of an execution generation that has ended.
  pub steps-ended :
      (i : Bytes) (h : ℕ) (r : Row Encoded) (db db' : Db Encoded)
      → IsStore js db
      → find_row i h db.executions ≡ some r
      → is_terminal_name r.state ≡ true
      → Steps js db db'
      → (find_row i h db'.executions ≡ some r)
        × (events_of i h db'.events ≡ events_of i h db.events)
  steps-ended i h r db db' w found over done = (found, refl)
  steps-ended i h r db db' w found over (next {db' = middle} s rest) =
      let (kept, events) = Step-ended i h r db middle w found over s in
      let (kept', events') =
        steps-ended i h r middle db' (Step-IsStore js db middle w s) kept over rest in
      (kept', events' ∙ events)
