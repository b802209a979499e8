-- ===== src/Store/Journal/Recovery.antt =====
-- crates/eggwork-server/src/store.rs, `recover`: after a restart nothing is left running.
use eggwork.Prelude.{
  ℕ, ◌≡◌, refl, sym, subst, Bool, true, false, List, [], ◌∷◌, Option, none, some, arith, any, All,
  keep_if, ok, >>=-eq-ok, Bool-cases, Option-cases, inl, inr,
}
use eggwork.Core.Execution.{ExecutionState, EventKind, ExecutionSnapshot}
use eggwork.Store.Tables.{Json, Row, Db, is_active_name, row_has, find_row, update_rows}
use eggwork.Store.Run.{same_key_refl}
use eggwork.Store.Journal.{
  json_result, new_event, advance, decode_all, interrupt, recover_one, recover_all, recover,
}
use eggwork.Store.Journal.Invariant.{IsJournal}
use eggwork.Store.Journal.Append.{append_event-Appended}

module _ (js : Json) where
  open js use {Encoded, snapshot_to_vec, snapshot_from_slice, event_to_vec}

  -- The stored snapshot of a row is one of the execution generation that the row is about.
  abbrev pub IsCoherent : Row Encoded → Type 0
  IsCoherent r =
      (s : ExecutionSnapshot)
      → snapshot_from_slice r.snapshot_json ≡ some s
      → (s.execution_id ≡ r.execution_id) × (s.generation ≡ r.generation)

  abbrev covers : Row Encoded → ExecutionSnapshot → Bool
  covers r s = row_has s.execution_id s.generation r

  -- Each active row is in the list of those that remain to be interrupted.
  abbrev Covered : List ExecutionSnapshot → List (Row Encoded) → Type 0
  Covered ss = All (λ r. is_active_name r.state ≡ true → any (covers r) ss ≡ true)

  abbrev IsIdle : List (Row Encoded) → Type 0
  IsIdle = All (λ r. is_active_name r.state ≡ false)

  IsIdle-of_Covered : (rows : List (Row Encoded)) → Covered [] rows → IsIdle rows
  IsIdle-of_Covered [] c = tt
  IsIdle-of_Covered (r ∷ rows) c = (ground (arith, c.0), IsIdle-of_Covered rows c.1)

  interrupted_idle : is_active_name "Interrupted" ≡ false
  unfolding is_active_name
  interrupted_idle = refl

  cover_next :
      (s : ExecutionSnapshot) (ss : List ExecutionSnapshot) (n now : ℕ) (stored : Encoded)
      (rows : List (Row Encoded))
      → Covered (s ∷ ss) rows
      → Covered ss
          (update_rows s.execution_id s.generation (advance js "Interrupted" n stored now) rows)
  unfolding update_rows
  cover_next s ss n now stored [] c = tt
  cover_next s ss n now stored (r ∷ rows) c = elim (Bool-cases (covers r s)) [
    | inl own ↦
        rw own (λ a. ground (arith, a, interrupted_idle), cover_next s ss n now stored rows c.1)
    | inr other ↦
        rw other (λ a. ground (arith, c.0 a, other), cover_next s ss n now stored rows c.1)
  ]

  -- One round appends the event of the interruption.
  pub recover_one-Appended :
      (now : ℕ) (s : ExecutionSnapshot) (db db' : Db Encoded)
      → IsJournal js db
      → recover_one js now s db ≡ ok db'
      → (n : ℕ) × (stored : Encoded) × (snapshot_to_vec s ≡ some stored)
        × IsJournal js db'
        × (db'.executions
            ≡ update_rows s.execution_id s.generation
                (advance js "Interrupted" n stored now)
                db.executions)
  unfolding recover_one
  recover_one-Appended now s db db' j h =
      elim (Option-cases (find_row s.execution_id s.generation db.executions)) [
        | inl absent ↦ absurd (ground (arith, h, absent))
        | inr (r, found) ↦ elim (Option-cases (snapshot_to_vec s)) [
          | inl failed ↦ absurd (ground (arith, h, found, failed))
          | inr (stored, encodes) ↦
              elim (Option-cases (
                event_to_vec
                  (new_event js r.next_sequence (EventKind.state ExecutionState.interrupted)))) [
                    | inl failed ↦ absurd (ground (arith, h, found, encodes, failed))
                    | inr (encoded, e) ↦
                        let (db'', done, a) =
                          append_event-Appended js s.execution_id s.generation "Interrupted" stored
                            encoded now db r j found in
                        let same : db'' ≡ db' = ground (arith, h, found, encodes, e, done) in
                        (
                          r.next_sequence,
                          stored,
                          encodes,
                          rw (← same) a.journal,
                          rw (← same) a.executions,
                        )
                  ]
        ]
      ]

  recover_all-IsIdle :
      (now : ℕ) (ss out : List ExecutionSnapshot) (db db' : Db Encoded)
      → IsJournal js db
      → Covered ss db.executions
      → recover_all js now ss db ≡ ok (out, db')
      → IsJournal js db'
        × IsIdle db'.executions
        × All (λ s. s.state ≡ ExecutionState.interrupted) out
  unfolding recover_all
  recover_all-IsIdle now [] out db db' j c h =
      let same : db ≡ db' = ground (arith, h) in
      let nothing : out ≡ [] = ground (arith, h) in
      (rw (← same) j, rw (← same) (IsIdle-of_Covered db.executions c), rw nothing tt)
  recover_all-IsIdle now (s ∷ ss) out db db' j c h =
      let (db₁, one, h₁) = >>=-eq-ok (recover_one js now (interrupt js s) db) _ h in
      let (rest, two, h₂) = >>=-eq-ok (recover_all js now ss db₁) _ h₁ in
      let (n, stored, encodes, j₁, rows) = recover_one-Appended now (interrupt js s) db db₁ j one in
      let (j₂, idle, ended) =
        recover_all-IsIdle now ss rest.0 db₁ rest.1 j₁
          (rw rows (cover_next (interrupt js s) ss n now stored db.executions c)) two in
      let same : rest.1 ≡ db' = ground (arith, h₂) in
      let outs : out ≡ interrupt js s ∷ rest.0 = ground (arith, h₂) in
      (rw (← same) j₂, rw (← same) idle, rw outs (refl, ended))

  Covered-more :
      (s : ExecutionSnapshot) (ss : List ExecutionSnapshot) (rows : List (Row Encoded))
      → Covered ss rows
      → Covered (s ∷ ss) rows
  Covered-more s ss [] c = tt
  Covered-more s ss (r ∷ rows) c = (λ a. ground (arith, c.0 a), Covered-more s ss rows c.1)

  covered_own :
      (r : Row Encoded) (s : ExecutionSnapshot) (ss : List ExecutionSnapshot)
      → (s.execution_id ≡ r.execution_id) × (s.generation ≡ r.generation)
      → any (covers r) (s ∷ ss) ≡ true
  covered_own r s ss (i, g) =
      let own : covers r s ≡ true = rw (i, g) (same_key_refl r.execution_id r.generation) in
      ground (arith, own)

  json_result-ok : {A : Type 0} → (o : Option A) (a : A) → json_result o ≡ ok a → o ≡ some a
  json_result-ok none a h = absurd (ground (arith, h))
  json_result-ok (some b) a h = ground (arith, h)

  Covered-start :
      (rows : List (Row Encoded)) (ss : List ExecutionSnapshot)
      → All IsCoherent rows
      → decode_all js (keep_if (λ r. is_active_name r.state) rows) ≡ ok ss
      → Covered ss rows
  unfolding decode_all
  Covered-start [] ss k h = tt
  Covered-start (r ∷ rows) ss k h = elim (Bool-cases (is_active_name r.state)) [
    | inl active ↦
        let h₀ : decode_all js (r ∷ keep_if (λ x. is_active_name x.state) rows) ≡ ok ss =
          rw active at h in
        let (s, one, h₁) = >>=-eq-ok (json_result (snapshot_from_slice r.snapshot_json)) _ h₀ in
        let (rest, two, h₂) =
          >>=-eq-ok (decode_all js (keep_if (λ x. is_active_name x.state) rows)) _ h₁ in
        let outs : ss ≡ s ∷ rest = ground (arith, h₂) in
        let own = k.0 s (json_result-ok (snapshot_from_slice r.snapshot_json) s one) in
        subst (λ x. Covered x (r ∷ rows)) (sym outs)
          (
            λ a. covered_own r s rest own,
            Covered-more s rest rows (Covered-start rows rest k.1 two),
          )
    | inr idle ↦ (λ a. ground (arith, a, idle), Covered-start rows ss k.1 (rw idle at h))
  ]

  -- On a well-formed journal whose rows hold snapshots of their own executions, a `recover` that
  -- returns leaves the journal well formed and no row in an active state, and every snapshot that
  -- it reports is interrupted.
  pub recover-idle :
      (now : ℕ) (out : List ExecutionSnapshot) (db db' : Db Encoded)
      → IsJournal js db
      → All IsCoherent db.executions
      → recover js now db ≡ ok (out, db')
      → IsJournal js db'
        × All (λ r. is_active_name r.state ≡ false) db'.executions
        × All (λ s. s.state ≡ ExecutionState.interrupted) out
  unfolding recover
  recover-idle now out db db' j k h =
      let (ss, decoded, h₁) =
        >>=-eq-ok (decode_all js (keep_if (λ r. is_active_name r.state) db.executions)) _ h in
      recover_all-IsIdle now ss out db db' j (Covered-start db.executions ss k decoded) h₁
