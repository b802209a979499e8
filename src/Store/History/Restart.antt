-- ===== src/Store/History/Restart.antt =====
-- crates/eggwork-server/src/store.rs: a restart of whatever was reached returns, and leaves nothing
-- running.
use eggwork.Prelude.{
  ℕ, ◌≡◌, refl, sym, subst, ap, ◌∙◌, false, List, [], ◌∷◌, String, some, arith, All, keep_if, ok,
  Bool-cases, inl, inr,
}
use eggwork.Prelude.Bytes.{Bytes}
use eggwork.Core.Execution.{ExecutionState, ExecutionSnapshot, EventKind, ExecutionEvent}
use eggwork.Store.Tables.{Json, Row, Db, is_active_name, same_key, row_has, find_row, update_rows}
use eggwork.Store.Run.{same_key_refl}
use eggwork.Store.Journal.{
  advance, new_event, decode_all, interrupt, recover_one, recover_all, recover,
}
use eggwork.Store.Journal.Rows.{find_row-update}
use eggwork.Store.Journal.Append.{append_event-Appended, advance-KeepsKey}
use eggwork.Store.Journal.Recovery.{IsCoherent, recover_one-Appended, recover-idle}
use eggwork.Store.Reserve.Invariant.{IsStore}
use eggwork.Store.History.{Reached}
use eggwork.Store.History.Reachable.{recover_one-IsStore, Reached-IsStore}
use eggwork.Store.History.Coherent.{ReadsBack, Coherent, Reached-Coherent}

module _ (js : Json) where
  open js use {Encoded, snapshot_to_vec, snapshot_from_slice, event_to_vec}

  -- `serde_json` writes every snapshot and every event.
  abbrev pub Writes : Type 0
  Writes =
      ((s : ExecutionSnapshot) → (e : Encoded) × (snapshot_to_vec s ≡ some e))
      × ((v : ExecutionEvent) → (e : Encoded) × (event_to_vec v ≡ some e))

  -- There is a row under the key.
  abbrev Present : List (Row Encoded) → Bytes → ℕ → Type 0
  Present rows id g = (r : Row Encoded) × (find_row id g rows ≡ some r)

  Present-cons :
      (x : Row Encoded) (rows : List (Row Encoded)) (id : Bytes) (g : ℕ)
      → Present rows id g
      → Present (x ∷ rows) id g
  unfolding find_row
  Present-cons x rows id g (r, found) = elim (Bool-cases (row_has id g x)) [
    | inl own ↦ (x, rw own)
    | inr other ↦ (r, rw other found)
  ]

  Present-own :
      (x : Row Encoded) (rows : List (Row Encoded)) → Present (x ∷ rows) x.execution_id x.generation
  unfolding find_row
  Present-own x rows = (x, rw (same_key_refl x.execution_id x.generation))

  AllPresent-cons :
      (x : Row Encoded) (rows : List (Row Encoded)) (ss : List ExecutionSnapshot)
      → All (λ s. Present rows s.execution_id s.generation) ss
      → All (λ s. Present (x ∷ rows) s.execution_id s.generation) ss
  AllPresent-cons x rows [] p = tt
  AllPresent-cons x rows (s ∷ ss) p =
      (Present-cons x rows s.execution_id s.generation p.0, AllPresent-cons x rows ss p.1)

  -- Readable rows decode, each to a snapshot whose row is there.
  decode_active :
      (rows : List (Row Encoded))
      → Coherent js rows
      → (ss : List ExecutionSnapshot) × (decode_all js (keep_if (λ r. is_active_name r.state) rows)
          ≡ ok ss)
        × All (λ s. Present rows s.execution_id s.generation) ss
  unfolding decode_all
  decode_active [] c = ([], refl, tt)
  decode_active (r ∷ rows) ((s, reads, id, g), c) =
      let (ss, decoded, present) = decode_active rows c in
      elim (Bool-cases (is_active_name r.state)) [
        | inr idle ↦ (ss, rw idle decoded, AllPresent-cons r rows ss present)
        | inl active ↦ (
          s ∷ ss,
          rw (active, reads, decoded),
          (rw (id, g) (Present-own r rows), AllPresent-cons r rows ss present),
        )
      ]

  recover_one-ok :
      (now : ℕ) (s : ExecutionSnapshot) (db : Db Encoded)
      → Writes
      → IsStore js db
      → Present db.executions s.execution_id s.generation
      → (db' : Db Encoded) × (recover_one js now s db ≡ ok db')
  unfolding recover_one
  recover_one-ok now s db (snapshots, events) w (r, found) =
      let (stored, encodes) = snapshots s in
      let (encoded, e) =
        events (new_event js r.next_sequence (EventKind.state ExecutionState.interrupted)) in
      let (db', done, a) =
        append_event-Appended js s.execution_id s.generation "Interrupted" stored encoded now db r
          w.journal found in
      (db', rw (found, encodes, e) done)

  Present-update :
      (id i : Bytes) (g h : ℕ) (state : String) (n : ℕ) (stored : Encoded) (now : ℕ)
      (rows : List (Row Encoded))
      → Present rows i h
      → Present (update_rows id g (advance js state n stored now) rows) i h
  Present-update id i g h state n stored now rows (r, found) =
      let moved =
        find_row-update id i g h (advance js state n stored now) rows
          (advance-KeepsKey js state n stored now) in
      elim (Bool-cases (same_key id g i h)) [
        | inl own ↦ (advance js state n stored now r, ground (arith, moved, own, found))
        | inr other ↦ (r, ground (arith, moved, other, found))
      ]

  AllPresent-update :
      (id : Bytes) (g : ℕ) (state : String) (n : ℕ) (stored : Encoded) (now : ℕ)
      (rows : List (Row Encoded)) (ss : List ExecutionSnapshot)
      → All (λ s. Present rows s.execution_id s.generation) ss
      → All
          (λ s.
            Present
              (update_rows id g (advance js state n stored now) rows)
              s.execution_id
              s.generation)
          ss
  AllPresent-update id g state n stored now rows [] p = tt
  AllPresent-update id g state n stored now rows (s ∷ ss) p = (
    Present-update id s.execution_id g s.generation state n stored now rows p.0,
    AllPresent-update id g state n stored now rows ss p.1,
  )

  recover_all-ok :
      (now : ℕ) (ss : List ExecutionSnapshot) (db : Db Encoded)
      → Writes
      → IsStore js db
      → All (λ s. Present db.executions s.execution_id s.generation) ss
      → (out : List ExecutionSnapshot) × (db' : Db Encoded) × (recover_all js now ss db
          ≡ ok (out, db'))
  unfolding recover_all
  recover_all-ok now [] db writes w p = ([], db, refl)
  recover_all-ok now (s ∷ ss) db writes w (present, p) =
      let (db₁, one) = recover_one-ok now (interrupt js s) db writes w present in
      let (n, stored, encodes, j₁, rows) =
        recover_one-Appended js now (interrupt js s) db db₁ w.journal one in
      let p₁ =
        AllPresent-update s.execution_id s.generation "Interrupted" n stored now db.executions ss
          p in
      let (out, db₂, rest) =
        recover_all-ok now ss db₁ writes (recover_one-IsStore js now s db db₁ w one)
          (subst (λ r. All (λ x. Present r x.execution_id x.generation) ss) (sym rows) p₁) in
      (interrupt js s ∷ out, db₂, rw (one, rest))

  -- A readable row is about its own execution generation.
  IsCoherent-of_readable : (rows : List (Row Encoded)) → Coherent js rows → All (IsCoherent js) rows
  IsCoherent-of_readable [] c = tt
  IsCoherent-of_readable (r ∷ rows) ((s, reads, id, g), c) = (
    λ s' h.
        let same : s ≡ s' = ground (arith, reads, h) in
        (sym (ap (λ x. x.execution_id) same) ∙ id, sym (ap (λ x. x.generation) same) ∙ g),
    IsCoherent-of_readable rows c,
  )

  -- Where every snapshot and event encodes and a snapshot decodes to what was encoded, `recover`
  -- returns on whatever tables the admissions, events, renewals, counters and restarts before it
  -- made of a new database, leaves no row in an active state, and reports only interrupted
  -- snapshots.
  pub recover-returns :
      (now : ℕ) (db : Db Encoded)
      → ReadsBack js
      → Writes
      → Reached js db
      → (out : List ExecutionSnapshot) × (db' : Db Encoded) × (recover js now db ≡ ok (out, db'))
        × All (λ r. is_active_name r.state ≡ false) db'.executions
        × All (λ s. s.state ≡ ExecutionState.interrupted) out
  recover-returns now db back writes reached =
      let w = Reached-IsStore js db reached in
      let c = Reached-Coherent js db back reached in
      let (ss, decoded, present) = decode_active db.executions c in
      let (out, db', done) = recover_all-ok now ss db writes w present in
      let returned : recover js now db ≡ ok (out, db') = unfold recover in rw decoded done in
      let (journal, idle, ended) =
        recover-idle js now out db db' w.journal (IsCoherent-of_readable db.executions c)
          returned in
      (out, db', returned, idle, ended)
