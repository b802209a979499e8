-- ===== src/Store/Journal/Invariant.antt =====
-- crates/eggwork-server/src/store.rs: what holds of the journal between two transactions.
use mathlib.Core.Path.{subst₂}
use eggwork.Prelude.{ℕ, ◌≤◌, ◌≡◌, true, false, Option, none, some, Bool-cases, inl, inr}
use eggwork.Prelude.Bytes.{Bytes}
use eggwork.Store.Tables.{Json, Row, Db, same_key, events_of, find_row}
use eggwork.Store.Run.{Run, same_key_eq}
use eggwork.Store.Trim.{fits}

abbrev pub next_of : {E : Type 0} → Option (Row E) → ℕ
next_of none = 1
next_of (some r) = r.next_sequence

-- The retained events of one execution generation have consecutive numbers, which start at 1 or
-- later and end just before the next number of its row, and they are within the retention limits.
-- A generation without a row has no events.
abbrev pub JournalAt : (js : Json) → Db js.Encoded → Bytes → ℕ → Type 0
JournalAt js db id g =
    ((a : ℕ) × (1 ≤ a) × Run a (events_of id g db.events) (next_of (find_row id g db.executions)))
    × (fits js (events_of id g db.events) ≡ true)

-- So it is for every execution generation.
pub record IsJournal (js : Json) (db : Db js.Encoded) : Type 0 where
  pub at : (id : Bytes) (g : ℕ) → JournalAt js db id g

-- A transaction on one execution generation that leaves the others as they are.
pub IsJournal-at :
    (js : Json) (db db' : Db js.Encoded) (id : Bytes) (g : ℕ)
    → IsJournal js db
    → JournalAt js db' id g
    → ((i : Bytes) (h : ℕ)
        → same_key id g i h ≡ false
        → (events_of i h db'.events ≡ events_of i h db.events)
          × (find_row i h db'.executions ≡ find_row i h db.executions))
    → IsJournal js db'
IsJournal-at js db db' id g j own others = record {
  at = λ i h. elim (Bool-cases (same_key id g i h)) [
    | inl same ↦
        subst₂ (JournalAt js db') (same_key_eq id i g h same).0 (same_key_eq id i g h same).1 own
    | inr apart ↦
        let (events, row) = others i h apart in
        let ((a, one, run), bounded) = j.at i h in
        ((a, one, rw (events, row) run), rw events bounded)
  ];
}
