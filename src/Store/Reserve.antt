-- ===== src/Store/Reserve.antt =====
-- crates/eggwork-server/src/store.rs: `reserve`, which admits an execution generation.
pub mod Latest
pub mod Fencing
pub mod Kept
pub mod Invariant
use eggwork.Prelude.{
  ℕ, Bool, ◌+◌, ◌==◌, ◌&&◌, ◌||◌, not, List, [], ◌∷◌, ◌++◌, Option, none, some, leb, length, Result,
  ok, err, ◌>>=◌, if◌then◌else◌,
}
use eggwork.Prelude.Bytes.{Bytes, bytes_eq}
use eggwork.Core.Execution.{ExecutionSnapshot}
use eggwork.Store.Tables.{
  Json, Row, Db, Stored, max_execution_identities, state_name, is_terminal_name, find_row, latest,
}
use eggwork.Store.Journal.{json_result}

pub data ReserveResult : Type 0 where
  created conflict stale_generation storage_full : ReserveResult
  existing : ExecutionSnapshot → ReserveResult

-- The arguments of `reserve` after the snapshot.
pub record Admission : Type 0 where
  pub canonical_version : ℕ
  pub digest : Bytes
  pub principal_id : Bytes
  pub lease_token_hash : Bytes
  pub lease_expires_unix_ms : ℕ

module _ (js : Json) where
  open js use {Encoded, snapshot_to_vec, snapshot_from_slice}

  -- The four comparisons with the row that is there.
  abbrev pub is_same : Admission → Row Encoded → Bool
  is_same a r =
      r.canonical_version == a.canonical_version
      && bytes_eq r.digest a.digest
      && bytes_eq r.principal_id a.principal_id
      && bytes_eq r.lease_token_hash a.lease_token_hash

  -- The `match latest`: the arms that return `StaleGeneration`.
  abbrev pub is_stale : ℕ → Option (Row Encoded) → Bool
  is_stale generation none = not (generation == 1)
  is_stale generation (some r) =
      not (generation == r.generation + 1) || not (is_terminal_name r.state)

  -- `INSERT INTO executions …`
  abbrev pub new_row : ExecutionSnapshot → Admission → ℕ → Encoded → Row Encoded
  new_row s a now encoded = record {
    execution_id = s.execution_id;
    generation = s.generation;
    canonical_version = a.canonical_version;
    digest = a.digest;
    principal_id = a.principal_id;
    lease_token_hash = a.lease_token_hash;
    lease_expires_unix_ms = a.lease_expires_unix_ms;
    last_renewal_id = none;
    state = state_name s.state;
    next_sequence = 1;
    snapshot_json = encoded;
    created_unix_ms = now;
    updated_unix_ms = now;
  }

  -- What follows where the identity is not stored yet.
  unfoldable pub reserve_new :
      ExecutionSnapshot → Admission → ℕ → Db Encoded → Stored (ReserveResult × Db Encoded)
  reserve_new s a now db =
      if is_stale s.generation (latest s.execution_id db.executions)
      then ok (ReserveResult.stale_generation, db)
      else if leb max_execution_identities (length db.executions)
      then ok (ReserveResult.storage_full, db)
      else do
        encoded ← json_result (snapshot_to_vec s)
        ok (
          ReserveResult.created,
          record db { executions = db.executions ++ new_row s a now encoded ∷ [] },
        )

  -- `ExecutionStore::reserve`, at the time `now`.
  unfoldable pub reserve :
      ExecutionSnapshot → Admission → ℕ → Db Encoded → Stored (ReserveResult × Db Encoded)
  unfolding reserve_new
  reserve s a now db = elim (find_row s.execution_id s.generation db.executions) [
    | none ↦ reserve_new s a now db
    | some r ↦
        if is_same a r
        then (do
          old ← json_result (snapshot_from_slice r.snapshot_json)
          ok (ReserveResult.existing old, db))
        else ok (ReserveResult.conflict, db)
  ]
