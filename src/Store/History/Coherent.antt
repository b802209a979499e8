-- ===== src/Store/History/Coherent.antt =====
-- crates/eggwork-server/src/store.rs: each row holds a snapshot of its own execution generation.
use eggwork.Prelude.{
  ℕ, ◌≡◌, refl, sym, subst, ap, ◌∙◌, true, List, [], ◌∷◌, ◌++◌, Option, some, arith, All, any, ok,
  String, >>=-eq-ok, Bool-cases, inl, inr,
}
use eggwork.Prelude.Bytes.{Bytes}
use eggwork.Core.Execution.{ExecutionSnapshot, EventKind, ExecutionEvent}
use eggwork.Store.Tables.{Json, Row, Db, state_name, row_has, update_rows}
use eggwork.Store.Run.{same_key_eq}
use eggwork.Store.Journal.{advance, decode_all, interrupt, recover_one, recover_all, recover}
use eggwork.Store.Journal.Commit.{Committed, commit_event-Committed}
use eggwork.Store.Journal.Recovery.{recover_one-Appended}
use eggwork.Store.Reserve.{Admission, reserve}
use eggwork.Store.Reserve.Fencing.{Created, reserve-Created}
use eggwork.Store.Reserve.Invariant.{IsStore, reserve-others}
use eggwork.Store.Leases.{Renewal, renew}
use eggwork.Store.Leases.Monotone.{renew-KeepsKey, update_lease-rows}
use eggwork.Store.Metrics.{increment_metrics, is_bad_name}
use eggwork.Store.History.{
  Step, reserving, committing, renewing, counting, Reached, created, stepped, restarted,
}
use eggwork.Store.History.Reachable.{recover_one-IsStore, Reached-IsStore}

module _ (js : Json) where
  open js use {Encoded, snapshot_to_vec, snapshot_from_slice}

  -- `serde_json` reads back the snapshot that it wrote.
  abbrev pub ReadsBack : Type 0
  ReadsBack =
      (s : ExecutionSnapshot) (e : Encoded)
      → snapshot_to_vec s ≡ some e
      → snapshot_from_slice e ≡ some s

  -- The stored snapshot of a row can be read, and is one of the row's execution generation.
  abbrev pub IsReadable : Row Encoded → Type 0
  IsReadable r =
      (s : ExecutionSnapshot) × (snapshot_from_slice r.snapshot_json ≡ some s)
      × (s.execution_id ≡ r.execution_id)
      × (s.generation ≡ r.generation)

  abbrev pub Coherent : List (Row Encoded) → Type 0
  Coherent = All IsReadable

  Coherent-update :
      (id : Bytes) (g : ℕ) (f : Row Encoded → Row Encoded) (rows : List (Row Encoded))
      → ((r : Row Encoded) → row_has id g r ≡ true → IsReadable r → IsReadable (f r))
      → Coherent rows
      → Coherent (update_rows id g f rows)
  unfolding update_rows
  Coherent-update id g f [] keeps c = tt
  Coherent-update id g f (r ∷ rows) keeps c = elim (Bool-cases (row_has id g r)) [
    | inl own ↦ rw own (keeps r own c.0, Coherent-update id g f rows keeps c.1)
    | inr other ↦ rw other (c.0, Coherent-update id g f rows keeps c.1)
  ]

  Coherent-append :
      (rows : List (Row Encoded)) (x : Row Encoded)
      → Coherent rows
      → IsReadable x
      → Coherent (rows ++ x ∷ [])
  Coherent-append [] x c k = (k, tt)
  Coherent-append (r ∷ rows) x c k = (c.0, Coherent-append rows x c.1 k)

  -- The row that an event of `s` moved on holds `s`.
  advance-IsReadable :
      (s : ExecutionSnapshot) (state : String) (n : ℕ) (stored : Encoded) (now : ℕ)
      → ReadsBack
      → snapshot_to_vec s ≡ some stored
      → (r : Row Encoded) → row_has s.execution_id s.generation r ≡ true
      → IsReadable r
      → IsReadable (advance js state n stored now r)
  advance-IsReadable s state n stored now back encodes r own c =
      let (id, g) = same_key_eq s.execution_id r.execution_id s.generation r.generation own in
      (s, back s stored encodes, id, g)

  Created-Coherent :
      (s : ExecutionSnapshot) (a : Admission) (now : ℕ) (db db' : Db Encoded)
      → ReadsBack
      → Coherent db.executions
      → Created js s a now db db'
      → Coherent db'.executions
  Created-Coherent s a now db db' back c m =
      subst Coherent (sym m.rows)
        (Coherent-append db.executions _ c (s, back s m.stored m.encodes, refl, refl))

  Committed-Coherent :
      (s : ExecutionSnapshot) (kind : EventKind) (now : ℕ) (db db' : Db Encoded)
      (o : Option ExecutionEvent)
      → ReadsBack
      → Coherent db.executions
      → Committed js s kind now db o db'
      → Coherent db'.executions
  Committed-Coherent s kind now db db' o back c (Committed.missing absent) = c
  Committed-Coherent s kind now db db' o back c (Committed.ended r found over) = c
  Committed-Coherent s kind now db db' o back c
        (Committed.live r stored encoded kept found lives v encodes e a last) =
      subst Coherent (sym a.executions) (
        Coherent-update s.execution_id s.generation _ db.executions
          (advance-IsReadable s (state_name s.state) r.next_sequence stored now back encodes) c)

  renew-snapshot :
      (v : Renewal) (updated : ℕ) (r : Row Encoded)
      → (renew v updated r).snapshot_json ≡ r.snapshot_json
  renew-snapshot v updated r = ground arith

  renew-IsReadable :
      (v : Renewal) (updated : ℕ) (r : Row Encoded) → IsReadable r → IsReadable (renew v updated r)
  renew-IsReadable v updated r (s, reads, id, g) =
      let k = renew-KeepsKey v updated in
      (
        s,
        ap snapshot_from_slice (renew-snapshot v updated r) ∙ reads,
        id ∙ sym (k.execution_id r),
        g ∙ sym (k.generation r),
      )

  pub increment_metrics-rows :
      (deltas : List (Bytes × ℕ)) (db db' : Db Encoded)
      → increment_metrics deltas db ≡ ok db'
      → db.executions ≡ db'.executions
  unfolding increment_metrics
  increment_metrics-rows deltas db db' h = elim (Bool-cases (any is_bad_name deltas)) [
    | inl bad ↦ absurd (ground (arith, h, bad))
    | inr good ↦ ground (arith, h, good)
  ]

  Step-Coherent :
      (db db' : Db Encoded)
      → ReadsBack
      → IsStore js db
      → Coherent db.executions
      → Step js db db'
      → Coherent db'.executions
  Step-Coherent db db' back w c (reserving s a now o h) =
      elim (reserve-others js s a now db db' o h) [
        | inl made ↦ Created-Coherent s a now db db' back c (
            reserve-Created js s a now db db'
              (subst (λ x. reserve js s a now db ≡ ok (x, db')) made h))
        | inr same ↦ subst (λ d. Coherent d.executions) same c
      ]
  Step-Coherent db db' back w c (committing s kind now o h) =
      Committed-Coherent s kind now db db' o back c
        (commit_event-Committed js s kind now db db' o w.journal h)
  Step-Coherent db db' back w c (renewing id g v now updated o h) =
      elim (update_lease-rows id g v now updated o db db' h) [
        | inl same ↦ subst (λ d. Coherent d.executions) same c
        | inr same ↦
            subst (λ d. Coherent d.executions) same
              (Coherent-update id g (renew v updated) db.executions
                (λ r own k. renew-IsReadable v updated r k) c)
      ]
  Step-Coherent db db' back w c (counting deltas h) =
      subst Coherent (increment_metrics-rows deltas db db' h) c

  recover_all-Coherent :
      (now : ℕ) (ss out : List ExecutionSnapshot) (db db' : Db Encoded)
      → ReadsBack
      → IsStore js db
      → Coherent db.executions
      → recover_all js now ss db ≡ ok (out, db')
      → Coherent db'.executions
  unfolding recover_all
  recover_all-Coherent now [] out db db' back w c h =
      let same : db ≡ db' = ground (arith, h) in subst (λ d. Coherent d.executions) same c
  recover_all-Coherent now (s ∷ ss) out db db' back w c h =
      let (db₁, one, h₁) = >>=-eq-ok (recover_one js now (interrupt js s) db) _ h in
      let (rest, two, h₂) = >>=-eq-ok (recover_all js now ss db₁) _ h₁ in
      let (n, stored, encodes, j₁, rows) =
        recover_one-Appended js now (interrupt js s) db db₁ w.journal one in
      let c₁ =
        Coherent-update s.execution_id s.generation (advance js "Interrupted" n stored now)
          db.executions
          (advance-IsReadable (interrupt js s) "Interrupted" n stored now back encodes) c in
      let same : rest.1 ≡ db' = ground (arith, h₂) in
      subst (λ d. Coherent d.executions) same
        (recover_all-Coherent now ss rest.0 db₁ rest.1 back
          (recover_one-IsStore js now s db db₁ w one) (subst Coherent (sym rows) c₁) two)

  recover-Coherent :
      (now : ℕ) (out : List ExecutionSnapshot) (db db' : Db Encoded)
      → ReadsBack
      → IsStore js db
      → Coherent db.executions
      → recover js now db ≡ ok (out, db')
      → Coherent db'.executions
  unfolding recover
  recover-Coherent now out db db' back w c h =
      let (ss, decoded, h₁) = >>=-eq-ok (decode_all js _) _ h in
      recover_all-Coherent now ss out db db' back w c h₁

  pub Reached-Coherent : (db : Db Encoded) → ReadsBack → Reached js db → Coherent db.executions
  Reached-Coherent db back created = tt
  Reached-Coherent db back (stepped {db = before} r s) =
      Step-Coherent before db back (Reached-IsStore js before r) (Reached-Coherent before back r) s
  Reached-Coherent db back (restarted {db = before} now out r h) =
      recover-Coherent now out before db back (Reached-IsStore js before r)
        (Reached-Coherent before back r) h
