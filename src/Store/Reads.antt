-- ===== src/Store/Reads.antt =====
-- crates/eggwork-server/src/store.rs: the methods that read: `lookup`, `load_snapshot`,
-- `load_snapshot_for_principal`, `load_all` and `load_page`.
pub mod Pages
use eggwork.Prelude.{
  ℕ, ◌+◌, ◌^◌, Bool, true, false, ◌&&◌, List, [], ◌∷◌, map, Option, none, some, ltb, leb, keep_if,
  max, saturating_add, Result, ok, err, ◌>>=◌, if◌then◌else◌,
}
use eggwork.Prelude.Bytes.{Bytes, bytes_eq, cmp_bytes}
use eggwork.Prelude.Sorting.{sort_by}
use eggwork.Core.Execution.{ExecutionEvent, ExecutionSnapshot}
use eggwork.Core.Digest.{le_of, then_with}
use eggwork.Store.Tables.{
  Json, Row, EventRow, Db, Stored, find_row, latest, events_of, min_sequence,
}
use eggwork.Store.Journal.{json_result, decode_all}
use Prim.Native.Nat.{compare}

pub record ExistingExecution : Type 0 where
  pub canonical_version : ℕ
  pub digest : Bytes
  pub principal_id : Bytes
  pub lease_token_hash : Bytes
  pub snapshot : ExecutionSnapshot

pub record EventPage : Type 0 where
  pub base_sequence : ℕ
  pub next_sequence : ℕ
  pub events : List ExecutionEvent

-- `sequence > ?3` with `after_sequence as i64`, which is negative from 2^63 on.
unfoldable pub is_after : ℕ → ℕ → Bool
is_after after sequence = if ltb after (2 ^ 63) then ltb after sequence else true

abbrev pub sequence_le : {E : Type 0} → EventRow E → EventRow E → Bool
sequence_le a b = leb a.sequence b.sequence

module _ (js : Json) where
  open js use {Encoded, snapshot_from_slice, event_from_slice}

  -- `row.map(|r| from_slice(r)).transpose()`
  unfoldable pub decode_row : Option (Row Encoded) → Stored (Option ExecutionSnapshot)
  decode_row none = ok none
  decode_row (some r) = do s ← json_result (snapshot_from_slice r.snapshot_json); ok (some s)

  unfoldable pub lookup : Bytes → ℕ → Db Encoded → Stored (Option ExistingExecution)
  lookup id g db = elim (find_row id g db.executions) [
    | none ↦ ok none
    | some r ↦ (do
      s ← json_result (snapshot_from_slice r.snapshot_json)
      ok (
          some (record {
            canonical_version = r.canonical_version;
            digest = r.digest;
            principal_id = r.principal_id;
            lease_token_hash = r.lease_token_hash;
            snapshot = s;
          })))
  ]

  unfoldable pub load_snapshot : Bytes → Option ℕ → Db Encoded → Stored (Option ExecutionSnapshot)
  load_snapshot id (some g) db = decode_row (find_row id g db.executions)
  load_snapshot id none db = decode_row (latest id db.executions)

  -- `AND principal_id = ?`
  abbrev pub owned_by : Bytes → List (Row Encoded) → List (Row Encoded)
  owned_by principal_id = keep_if (λ r. bytes_eq r.principal_id principal_id)

  unfoldable pub load_snapshot_for_principal :
      Bytes → Option ℕ → Bytes → Db Encoded → Stored (Option ExecutionSnapshot)
  load_snapshot_for_principal id (some g) principal_id db =
      decode_row (find_row id g (owned_by principal_id db.executions))
  load_snapshot_for_principal id none principal_id db =
      decode_row (latest id (owned_by principal_id db.executions))

  -- `ORDER BY execution_id, generation`
  abbrev pub row_le : Row Encoded → Row Encoded → Bool
  row_le a b =
      le_of
        (then_with (cmp_bytes a.execution_id b.execution_id) (compare a.generation b.generation))

  unfoldable pub load_all : Db Encoded → Stored (List ExecutionSnapshot)
  load_all db = decode_all js (sort_by row_le db.executions)

  unfoldable pub decode_events : List (EventRow Encoded) → Stored (List ExecutionEvent)
  decode_events [] = ok []
  decode_events (e ∷ es) = do
    v ← json_result (event_from_slice e.encoded)
    vs ← decode_events es
    ok (v ∷ vs)

  -- `base_sequence.unwrap_or(next_sequence).max(1)`
  abbrev pub base_of : Option ℕ → ℕ → ℕ
  base_of none next = max next 1
  base_of (some n) next = max n 1

  -- `… AND sequence > ?3 ORDER BY sequence ASC`
  unfoldable pub rows_after : ℕ → List (EventRow Encoded) → List (EventRow Encoded)
  unfolding is_after
  rows_after after es = sort_by sequence_le (keep_if (λ e. is_after after e.sequence) es)

  unfoldable pub page_of : ℕ → ℕ → List (EventRow Encoded) → Stored (Option EventPage)
  page_of after next mine =
      let base = base_of (min_sequence mine) next in
      if ltb (saturating_add after 1) base
      then ok (some (record { base_sequence = base; next_sequence = next; events = [] }))
      else do
        events ← decode_events (rows_after after mine)
        ok (some (record { base_sequence = base; next_sequence = next; events = events }))

  unfoldable pub load_page : Bytes → ℕ → ℕ → Db Encoded → Stored (Option EventPage)
  unfolding page_of
  load_page id g after db = elim (find_row id g db.executions) [
    | none ↦ ok none
    | some r ↦ page_of after r.next_sequence (events_of id g db.events)
  ]
