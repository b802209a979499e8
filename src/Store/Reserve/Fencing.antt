-- ===== src/Store/Reserve/Fencing.antt =====
-- crates/eggwork-server/src/store.rs, `reserve`: what an admission needs and what it leaves.
use eggwork.Prelude.{
  ℕ, ◌+◌, ◌<◌, ◌≡◌, ◌⊎◌, true, false, List, [], ◌∷◌, ◌++◌, none, some, arith, leb, length, ok,
  Bool-cases, Option-cases, inl, inr,
}
use eggwork.Prelude.Bytes.{Bytes}
use eggwork.Core.Execution.{ExecutionSnapshot}
use eggwork.Store.Tables.{
  Json, Row, Db, max_execution_identities, is_terminal_name, find_row, latest,
}
use eggwork.Store.Reserve.{
  ReserveResult, Admission, is_same, is_stale, new_row, reserve_new, reserve,
}
use eggwork.Store.Reserve.Latest.{IsNewest, latest-none, latest-IsNewest}

module _ {E : Type 0} where
  -- Where a generation of an execution has not ended, there is no newer one.
  abbrev pub IsFenced : List (Row E) → Type 0
  IsFenced rows =
      (id : Bytes) (g h : ℕ) (r : Row E)
      → find_row id g rows ≡ some r
      → is_terminal_name r.state ≡ false
      → g < h
      → find_row id h rows ≡ none

module _ (js : Json) where
  open js use {Encoded, snapshot_to_vec, snapshot_from_slice}

  -- What an admission that created a row has found and done.
  pub record Created (s : ExecutionSnapshot) (a : Admission) (now : ℕ) (db db' : Db Encoded)
      : Type 0 where
    pub absent : find_row s.execution_id s.generation db.executions ≡ none
    pub fresh : is_stale js s.generation (latest s.execution_id db.executions) ≡ false
    pub room : length db.executions < max_execution_identities
    pub stored : Encoded
    pub encodes : snapshot_to_vec s ≡ some stored
    pub rows : db'.executions ≡ db.executions ++ new_row js s a now stored ∷ []
    pub events : db'.events ≡ db.events

  reserve_new-Created :
      (s : ExecutionSnapshot) (a : Admission) (now : ℕ) (db db' : Db Encoded)
      → find_row s.execution_id s.generation db.executions ≡ none
      → reserve_new js s a now db ≡ ok (ReserveResult.created, db')
      → Created s a now db db'
  unfolding reserve_new
  reserve_new-Created s a now db db' absent h =
      elim (Bool-cases (is_stale js s.generation (latest s.execution_id db.executions))) [
        | inl stale ↦ absurd (ground (arith, h, stale))
        | inr fresh ↦ elim (Bool-cases (leb max_execution_identities (length db.executions))) [
          | inl full ↦ absurd (ground (arith, h, fresh, full))
          | inr room ↦ elim (Option-cases (snapshot_to_vec s)) [
            | inl failed ↦ absurd (ground (arith, h, fresh, room, failed))
            | inr (stored, encodes) ↦ record {
              absent = absent;
              fresh = fresh;
              room = ground (arith, room);
              stored = stored;
              encodes = encodes;
              rows = ground (arith, h, fresh, room, encodes);
              events = ground (arith, h, fresh, room, encodes);
            }
          ]
        ]
      ]

  pub reserve-Created :
      (s : ExecutionSnapshot) (a : Admission) (now : ℕ) (db db' : Db Encoded)
      → reserve js s a now db ≡ ok (ReserveResult.created, db')
      → Created s a now db db'
  unfolding reserve
  reserve-Created s a now db db' h =
      elim (Option-cases (find_row s.execution_id s.generation db.executions)) [
        | inl absent ↦ reserve_new-Created s a now db db' absent (ground (arith, h, absent))
        | inr (r, found) ↦ elim (Bool-cases (is_same js a r)) [
          | inr differs ↦ absurd (ground (arith, h, found, differs))
          | inl same ↦ elim (Option-cases (snapshot_from_slice r.snapshot_json)) [
            | inl failed ↦ absurd (ground (arith, h, found, same, failed))
            | inr (old, decodes) ↦ absurd (ground (arith, h, found, same, decodes))
          ]
        ]
      ]

  -- What lies before an admission: the execution is new and its generation is 1, or the newest
  -- generation of the execution has ended, and the generation is the next one.
  abbrev pub IsNext : Bytes → ℕ → List (Row Encoded) → Type 0
  IsNext id g rows =
      ((g ≡ 1) × ((h : ℕ) → find_row id h rows ≡ none))
      ⊎ ((r : Row Encoded) × (find_row id r.generation rows ≡ some r)
          × (is_terminal_name r.state ≡ true)
          × (g ≡ r.generation + 1)
          × ((h : ℕ) → r.generation < h → find_row id h rows ≡ none))

  nothing_newer :
      (id : Bytes) (rows : List (Row Encoded)) (l : Row Encoded) (h : ℕ)
      → IsNewest id rows l
      → l.generation < h
      → find_row id h rows ≡ none
  nothing_newer id rows l h n lt = elim (Option-cases (find_row id h rows)) [
    | inl absent ↦ absent
    | inr (r, found) ↦ absurd (ground (arith, n.newest h r found, lt))
  ]

  IsNext-of_fresh :
      (id : Bytes) (g : ℕ) (rows : List (Row Encoded))
      → is_stale js g (latest id rows) ≡ false
      → IsNext id g rows
  IsNext-of_fresh id g rows fresh = elim (Option-cases (latest id rows)) [
    | inl absent ↦ inl (ground (arith, fresh, absent), λ h. latest-none id rows h absent)
    | inr (l, found) ↦
        let n = latest-IsNewest id rows l found in
        inr (
          l,
          n.found,
          ground (arith, fresh, found),
          ground (arith, fresh, found),
          λ h lt. nothing_newer id rows l h n lt,
        )
  ]

  -- A `reserve` that creates a row has met no row of that execution generation and fewer than
  -- 2048 rows, and either the execution was new and the generation is 1, or the newest generation
  -- of the execution had ended and the new one is its successor.
  pub reserve-IsNext :
      (s : ExecutionSnapshot) (a : Admission) (now : ℕ) (db db' : Db Encoded)
      → reserve js s a now db ≡ ok (ReserveResult.created, db')
      → (find_row s.execution_id s.generation db.executions ≡ none)
        × (length db.executions < max_execution_identities)
        × IsNext s.execution_id s.generation db.executions
  reserve-IsNext s a now db db' h =
      let c = reserve-Created s a now db db' h in
      (c.absent, c.room, IsNext-of_fresh s.execution_id s.generation db.executions c.fresh)
