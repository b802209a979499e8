-- ===== src/Store/Tables.antt =====
-- crates/eggwork-server/src/store.rs: the tables, and the SQL statements on them as functions.
use text.Mathlib.Text.{◌==◌ as str_eq}
use eggwork.Prelude.{
  ℕ, ◌==◌, Bool, not, ◌&&◌, ◌||◌, String, List, [], ◌∷◌, map, Option, none, some, ltb, keep_if,
  Result, if◌then◌else◌,
}
use eggwork.Prelude.Bytes.{Bytes, bytes_eq}
use eggwork.Core.Limits.{max_event_bytes}
use eggwork.Core.Execution.{
  ExecutionState, accepted, preparing, running, cancelling, succeeded, failed, cancelled, timed_out,
  interrupted, ExecutionEvent, ExecutionSnapshot,
}

abbrev pub max_retained_events : ℕ
max_retained_events = 256

abbrev pub max_retained_event_bytes : ℕ
max_retained_event_bytes = max_event_bytes

abbrev pub max_execution_identities : ℕ
max_execution_identities = 2048

pub data StoreError : Type 0 where
  sql json worker invalid_event : StoreError

abbrev pub Stored {ℓ} : Type ℓ → Type ℓ
Stored A = Result StoreError A

-- `serde_json::to_vec` and `from_slice` of what is stored; `none` is a `serde_json` error.
pub record Json : Type 1 where
  pub Encoded : Type 0
  pub size : Encoded → ℕ
  pub snapshot_to_vec : ExecutionSnapshot → Option Encoded
  pub snapshot_from_slice : Encoded → Option ExecutionSnapshot
  pub event_to_vec : ExecutionEvent → Option Encoded
  pub event_from_slice : Encoded → Option ExecutionEvent

-- A row of `executions`.
pub record Row (E : Type 0) : Type 0 where
  pub execution_id : Bytes
  pub generation : ℕ
  pub canonical_version : ℕ
  pub digest : Bytes
  pub principal_id : Bytes
  pub lease_token_hash : Bytes
  pub lease_expires_unix_ms : ℕ
  pub last_renewal_id : Option Bytes
  pub state : String
  pub next_sequence : ℕ
  pub snapshot_json : E
  pub created_unix_ms : ℕ
  pub updated_unix_ms : ℕ

-- A row of `execution_events`.
pub record EventRow (E : Type 0) : Type 0 where
  pub execution_id : Bytes
  pub generation : ℕ
  pub sequence : ℕ
  pub encoded : E

pub record Db (E : Type 0) : Type 0 where
  pub executions : List (Row E)
  pub events : List (EventRow E)
  pub node_metrics : List (Bytes × ℕ)

unfoldable pub state_name : ExecutionState → String
state_name accepted = "Accepted"
state_name preparing = "Preparing"
state_name running = "Running"
state_name cancelling = "Cancelling"
state_name succeeded = "Succeeded"
state_name failed = "Failed"
state_name cancelled = "Cancelled"
state_name timed_out = "TimedOut"
state_name interrupted = "Interrupted"

unfoldable pub is_terminal_name : String → Bool
is_terminal_name s =
    str_eq s "Succeeded"
    || str_eq s "Failed"
    || str_eq s "Cancelled"
    || str_eq s "TimedOut"
    || str_eq s "Interrupted"

-- `state IN ('Accepted', 'Preparing', 'Running', 'Cancelling')`
unfoldable pub is_active_name : String → Bool
is_active_name s =
    str_eq s "Accepted" || str_eq s "Preparing" || str_eq s "Running" || str_eq s "Cancelling"

-- `WHERE execution_id = ?1 AND generation = ?2`
unfoldable pub same_key : Bytes → ℕ → Bytes → ℕ → Bool
same_key id g i h = bytes_eq id i && g == h

module _ {E : Type 0} where
  abbrev pub row_has : Bytes → ℕ → Row E → Bool
  row_has id g r = same_key id g r.execution_id r.generation

  -- `SELECT … WHERE execution_id = ?1 AND generation = ?2`, of at most one row: the primary key.
  unfoldable pub find_row : Bytes → ℕ → List (Row E) → Option (Row E)
  find_row id g [] = none
  find_row id g (r ∷ rs) = if row_has id g r then some r else find_row id g rs

  -- `UPDATE executions SET … WHERE execution_id = ?1 AND generation = ?2`
  unfoldable pub update_rows : Bytes → ℕ → (Row E → Row E) → List (Row E) → List (Row E)
  update_rows id g f = map (λ r. if row_has id g r then f r else r)

  -- The newer of two rows of one execution.
  abbrev pub newer : Row E → Option (Row E) → Option (Row E)
  newer r none = some r
  newer r (some s) = if ltb r.generation s.generation then some s else some r

  -- `WHERE execution_id = ?1 ORDER BY generation DESC LIMIT 1`
  unfoldable pub latest : Bytes → List (Row E) → Option (Row E)
  latest id [] = none
  latest id (r ∷ rs) =
      let rest = latest id rs in if bytes_eq id r.execution_id then newer r rest else rest

  abbrev pub event_has : Bytes → ℕ → EventRow E → Bool
  event_has id g e = same_key id g e.execution_id e.generation

  -- The events of one execution generation, in the order of the table.
  unfoldable pub events_of : Bytes → ℕ → List (EventRow E) → List (EventRow E)
  events_of id g = keep_if (event_has id g)

  -- `SELECT MIN(sequence)`
  unfoldable pub min_sequence : List (EventRow E) → Option ℕ
  min_sequence [] = none
  min_sequence (e ∷ es) = elim (min_sequence es) [
    | none ↦ some e.sequence
    | some n ↦ if ltb e.sequence n then some e.sequence else some n
  ]

  -- `DELETE … WHERE … AND sequence = n`
  unfoldable pub delete_event : Bytes → ℕ → ℕ → List (EventRow E) → List (EventRow E)
  delete_event id g n = keep_if (λ e. not (event_has id g e && e.sequence == n))
