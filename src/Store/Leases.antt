-- ===== src/Store/Leases.antt =====
-- crates/eggwork-server/src/store.rs: `update_lease`, the renewal of an execution's lease.
pub mod Monotone
use eggwork.Prelude.{
  ℕ, Bool, false, not, ◌||◌, Option, none, some, leb, max, Result, ok, if◌then◌else◌,
}
use eggwork.Prelude.Bytes.{Bytes, bytes_eq}
use eggwork.Store.Tables.{Json, Row, Db, Stored, is_terminal_name, find_row, update_rows, row_has}

-- The token, the renewal and the expiry that it asks for.
pub record Renewal : Type 0 where
  pub lease_token_hash : Bytes
  pub renewal_id : Bytes
  pub lease_expires_unix_ms : ℕ

-- `last_renewal_id.as_deref() == Some(renewal_id.as_str())`
abbrev pub is_last : Bytes → Option Bytes → Bool
is_last renewal_id none = false
is_last renewal_id (some last) = bytes_eq last renewal_id

module _ {E : Type 0} where
  -- The test before the rollback: another token, an ended execution or an expired lease.
  abbrev pub is_refused : Renewal → ℕ → Row E → Bool
  is_refused v now r =
      not (bytes_eq r.lease_token_hash v.lease_token_hash)
      || is_terminal_name r.state
      || leb r.lease_expires_unix_ms now

  -- The `UPDATE`; its condition on the token holds of the row that was read.
  abbrev pub renew : Renewal → ℕ → Row E → Row E
  renew v updated r =
      if bytes_eq r.lease_token_hash v.lease_token_hash
      then record r {
        lease_expires_unix_ms = max r.lease_expires_unix_ms v.lease_expires_unix_ms;
        last_renewal_id = some v.renewal_id;
        updated_unix_ms = updated;
      }
      else r

  -- `ExecutionStore::update_lease`. It reads the clock twice: `now` for the test, and `updated`.
  unfoldable pub update_lease : Bytes → ℕ → Renewal → ℕ → ℕ → Db E → Stored (Option ℕ × Db E)
  update_lease id g v now updated db = elim (find_row id g db.executions) [
    | none ↦ ok (none, db)
    | some r ↦
        if is_refused v now r
        then ok (none, db)
        else if is_last v.renewal_id r.last_renewal_id
        then ok (some r.lease_expires_unix_ms, db)
        else ok (
          some (max r.lease_expires_unix_ms v.lease_expires_unix_ms),
          record db { executions = update_rows id g (renew v updated) db.executions },
        )
  ]
