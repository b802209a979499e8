-- ===== src/Store/Reserve/Invariant.antt =====
-- crates/eggwork-server/src/store.rs, `reserve`: what an admission keeps of the tables.
use eggwork.Prelude.{
  ℕ, ◌≤◌, ◌≡◌, ◌⊎◌, subst, [], ◌∷◌, arith, length, length-append, leb, ok, Bool-cases, Option-cases,
  inl, inr,
}
use eggwork.Core.Execution.{ExecutionSnapshot}
use eggwork.Store.Tables.{Json, Db, max_execution_identities, find_row, latest}
use eggwork.Store.Journal.Invariant.{IsJournal}
use eggwork.Store.Reserve.{
  ReserveResult, Admission, is_same, is_stale, new_row, reserve_new, reserve,
}
use eggwork.Store.Reserve.Kept.{Created-IsJournal, append-IsFenced}
use eggwork.Store.Reserve.Fencing.{IsFenced, reserve-Created, reserve-IsNext}

module _ (js : Json) where
  open js use {Encoded, snapshot_to_vec, snapshot_from_slice}

  -- The tables are well formed: so is the journal, a newer generation of an execution exists only
  -- where the older has ended, and there are at most 2048 rows.
  pub record IsStore (db : Db Encoded) : Type 0 where
    pub journal : IsJournal js db
    pub fenced : IsFenced db.executions
    pub bounded : length db.executions ≤ max_execution_identities

  Created-IsStore :
      (s : ExecutionSnapshot) (a : Admission) (now : ℕ) (db db' : Db Encoded)
      → IsStore db
      → reserve js s a now db ≡ ok (ReserveResult.created, db')
      → IsStore db'
  Created-IsStore s a now db db' w h =
      let c = reserve-Created js s a now db db' h in
      let n = (reserve-IsNext js s a now db db' h).2 in
      record {
        journal = Created-IsJournal js s a now db db' w.journal c;
        fenced =
            rw c.rows (append-IsFenced js db.executions (new_row js s a now c.stored) w.fenced n);
        bounded =
            rw c.rows (
              omega
                (arith, length-append db.executions (new_row js s a now c.stored ∷ []), c.room));
      }

  -- A reservation that does not create a row changes nothing.
  reserve_new-others :
      (s : ExecutionSnapshot) (a : Admission) (now : ℕ) (db db' : Db Encoded) (o : ReserveResult)
      → reserve_new js s a now db ≡ ok (o, db')
      → (o ≡ ReserveResult.created) ⊎ (db ≡ db')
  unfolding reserve_new
  reserve_new-others s a now db db' o h =
      elim (Bool-cases (is_stale js s.generation (latest s.execution_id db.executions))) [
        | inl stale ↦ ground (arith, h, stale)
        | inr fresh ↦ elim (Bool-cases (leb max_execution_identities (length db.executions))) [
          | inl full ↦ ground (arith, h, fresh, full)
          | inr room ↦ elim (Option-cases (snapshot_to_vec s)) [
            | inl failed ↦ absurd (ground (arith, h, fresh, room, failed))
            | inr (stored, encodes) ↦ inl (ground (arith, h, fresh, room, encodes))
          ]
        ]
      ]

  pub reserve-others :
      (s : ExecutionSnapshot) (a : Admission) (now : ℕ) (db db' : Db Encoded) (o : ReserveResult)
      → reserve js s a now db ≡ ok (o, db')
      → (o ≡ ReserveResult.created) ⊎ (db ≡ db')
  unfolding reserve
  reserve-others s a now db db' o h =
      elim (Option-cases (find_row s.execution_id s.generation db.executions)) [
        | inl absent ↦ reserve_new-others s a now db db' o (ground (arith, h, absent))
        | inr (r, found) ↦ elim (Bool-cases (is_same js a r)) [
          | inr differs ↦ ground (arith, h, found, differs)
          | inl same ↦ elim (Option-cases (snapshot_from_slice r.snapshot_json)) [
            | inl failed ↦ absurd (ground (arith, h, found, same, failed))
            | inr (old, decodes) ↦ ground (arith, h, found, same, decodes)
          ]
        ]
      ]

  -- A `reserve` that returns keeps the tables well formed, whatever it answers: the journal, the
  -- rule that a live generation of an execution is its newest, and the bound of 2048 rows.
  pub reserve-IsStore :
      (s : ExecutionSnapshot) (a : Admission) (now : ℕ) (db db' : Db Encoded) (o : ReserveResult)
      → IsStore db
      → reserve js s a now db ≡ ok (o, db')
      → IsStore db'
  reserve-IsStore s a now db db' o w h = elim (reserve-others s a now db db' o h) [
    | inl made ↦
        Created-IsStore s a now db db' w (subst (λ x. reserve js s a now db ≡ ok (x, db')) made h)
    | inr same ↦ subst IsStore same w
  ]
