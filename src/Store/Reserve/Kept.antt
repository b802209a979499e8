-- ===== src/Store/Reserve/Kept.antt =====
-- crates/eggwork-server/src/store.rs, `reserve`: the row it inserts, among the rows and events
-- that are there.
use eggwork.Prelude.{
  ℕ, ◌≤◌, ◌<◌, ◌≡◌, refl, sym, subst, ◌∙◌, true, false, List, [], ◌∷◌, ◌++◌, none, some, arith, ltb,
  Bool-cases, Option-cases, inl, inr,
}
use eggwork.Prelude.Bytes.{Bytes}
use eggwork.Core.Execution.{ExecutionSnapshot}
use eggwork.Store.Tables.{
  Json, Row, Db, EventRow, is_terminal_name, same_key, row_has, events_of, find_row,
}
use eggwork.Store.Run.{Run, length-Run, same_key_refl, same_key_symm, same_key_eq}
use eggwork.Store.Journal.Invariant.{IsJournal, IsJournal-at, next_of}
use eggwork.Store.Reserve.{Admission, new_row}
use eggwork.Store.Reserve.Latest.{find_row-append}
use eggwork.Store.Reserve.Fencing.{IsFenced, IsNext, Created}

module _ (js : Json) where
  open js use {Encoded, snapshot_to_vec, snapshot_from_slice}

  pub find_row-new :
      (id : Bytes) (g : ℕ) (rows : List (Row Encoded)) (x : Row Encoded)
      → find_row id g rows ≡ none
      → row_has id g x ≡ true
      → find_row id g (rows ++ x ∷ []) ≡ some x
  find_row-new id g rows x absent own = ground (arith, find_row-append id g rows x, absent, own)

  find_row-old :
      (id : Bytes) (g : ℕ) (rows : List (Row Encoded)) (x : Row Encoded)
      → row_has id g x ≡ false
      → find_row id g (rows ++ x ∷ []) ≡ find_row id g rows
  find_row-old id g rows x other = elim (Option-cases (find_row id g rows)) [
    | inl absent ↦ ground (arith, find_row-append id g rows x, absent, other)
    | inr (r, found) ↦ ground (arith, find_row-append id g rows x, found)
  ]

  no_events : (es : List (EventRow Encoded)) (a : ℕ) → Run a es 1 → 1 ≤ a → es ≡ []
  no_events [] a r le = refl
  no_events (e ∷ es) a r le = absurd (omega (arith, length-Run a 1 (e ∷ es) r, le))

  pub Created-IsJournal :
      (s : ExecutionSnapshot) (a : Admission) (now : ℕ) (db db' : Db Encoded)
      → IsJournal js db
      → Created js s a now db db'
      → IsJournal js db'
  Created-IsJournal s a now db db' j c =
      let id = s.execution_id in
      let g = s.generation in
      let x = new_row js s a now c.stored in
      let ((b, one, run), within) = j.at id g in
      let before : Run b (events_of id g db.events) 1 =
        subst (λ o. Run b (events_of id g db.events) (next_of o)) c.absent run in
      let nothing : events_of id g db.events ≡ [] =
        no_events (events_of id g db.events) b before one in
      let row : find_row id g db'.executions ≡ some x =
        rw c.rows (find_row-new id g db.executions x c.absent (same_key_refl id g)) in
      IsJournal-at js db db' id g j (rw (c.events, row) ((b, one, before), within)) (λ i h apart. (
        rw c.events,
        rw c.rows (find_row-old i h db.executions x (other s a now i h c.stored apart)),
      ))
    where
      other :
          (s : ExecutionSnapshot) (a : Admission) (now : ℕ) (i : Bytes) (h : ℕ) (e : Encoded)
          → same_key s.execution_id s.generation i h ≡ false
          → row_has i h (new_row js s a now e) ≡ false
      other s a now i h e apart =
          ground (arith, apart, same_key_symm i s.execution_id h s.generation)

  -- No row of the execution is live, so the new one is the only one that may be.
  nothing_live :
      (id : Bytes) (g k : ℕ) (rows : List (Row Encoded)) (r : Row Encoded)
      → IsFenced rows
      → IsNext js id g rows
      → find_row id k rows ≡ some r
      → is_terminal_name r.state ≡ true
  nothing_live id g k rows r f (inl (one, absent)) found = ground (arith, absent k, found)
  nothing_live id g k rows r f (inr (l, newest, ended, next, none_newer)) found =
      elim (Bool-cases (is_terminal_name r.state)) [
        | inl over ↦ over
        | inr lives ↦ elim (Bool-cases (ltb k l.generation)) [
          | inl below ↦ ground (arith, newest, below, f id k l.generation r found lives)
          | inr above ↦ elim (Bool-cases (ltb l.generation k)) [
            | inl beyond ↦ ground (arith, none_newer k, beyond, found)
            | inr level ↦
                let same : k ≡ l.generation = ground (arith, above, level) in
                let found' : find_row id l.generation rows ≡ some r =
                  subst (λ n. find_row id n rows ≡ some r) same found in
                ground (arith, newest, found', ended)
          ]
        ]
      ]

  none_beyond :
      (id : Bytes) (g h : ℕ) (rows : List (Row Encoded))
      → IsNext js id g rows
      → g < h
      → find_row id h rows ≡ none
  none_beyond id g h rows (inl (one, absent)) lt = absent h
  none_beyond id g h rows (inr (l, newest, ended, next, none_newer)) lt = none_newer h (omega arith)

  apart_above :
      (i : Bytes) (g h : ℕ) (x : Row Encoded) → row_has i g x ≡ true → g < h → row_has i h x ≡ false
  unfolding same_key
  apart_above i g h x own lt = ground (arith, own, lt)

  pub append-IsFenced :
      (rows : List (Row Encoded)) (x : Row Encoded)
      → IsFenced rows
      → IsNext js x.execution_id x.generation rows
      → IsFenced (rows ++ x ∷ [])
  append-IsFenced rows x f n i g h r found lives lt = elim (Option-cases (find_row i g rows)) [
    | inl absent ↦ elim (Bool-cases (row_has i g x)) [
      | inr other ↦ absurd (ground (arith, find_row-old i g rows x other, absent, found))
      | inl own ↦
          let (id, level) = same_key_eq i x.execution_id g x.generation own in
          let clear : find_row i h rows ≡ none =
            subst (λ k. find_row k h rows ≡ none) (sym id)
              (none_beyond x.execution_id x.generation h rows n (omega arith)) in
          find_row-old i h rows x (apart_above i g h x own lt) ∙ clear
    ]
    | inr (old, was) ↦ elim (Bool-cases (row_has i h x)) [
      | inr other ↦
          let same : old ≡ r = ground (arith, find_row-append i g rows x, was, found) in
          let alive : is_terminal_name old.state ≡ false = rw same lives in
          find_row-old i h rows x other ∙ f i g h old was alive lt
      | inl own ↦
          let same : old ≡ r = ground (arith, find_row-append i g rows x, was, found) in
          let (id, level) = same_key_eq i x.execution_id h x.generation own in
          let alive : is_terminal_name old.state ≡ false = rw same lives in
          let was' : find_row x.execution_id g rows ≡ some old =
            subst (λ k. find_row k g rows ≡ some old) id was in
          absurd
            (ground (arith, nothing_live x.execution_id x.generation g rows old f n was', alive))
    ]
  ]
