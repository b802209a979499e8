-- ===== src/Store/Metrics.antt =====
-- crates/eggwork-server/src/store.rs: `increment_metric` and `increment_metrics`, the counters.
pub mod Saturating
use eggwork.Prelude.{
  ℕ, ◌+◌, ◌-◌, ◌==◌, Bool, true, ◌||◌, List, [], ◌∷◌, any, Option, none, some, ltb, length, min,
  i64_max, Result, ok, err, if◌then◌else◌,
}
use eggwork.Prelude.Bytes.{Bytes, bytes_eq, is_empty}
use eggwork.Store.Tables.{Db, Stored, StoreError, invalid_event}

-- `ON CONFLICT(name) DO UPDATE SET value=CASE … END`
abbrev pub add_capped : ℕ → ℕ → ℕ
add_capped value excluded = if ltb (i64_max - excluded) value then i64_max else value + excluded

-- `INSERT … ON CONFLICT(name) …`; the primary key is the name.
unfoldable pub upsert : Bytes → ℕ → List (Bytes × ℕ) → List (Bytes × ℕ)
upsert name amount [] = (name, amount) ∷ []
upsert name amount ((n, v) ∷ rows) =
    let rest = upsert name amount rows in
    if bytes_eq n name then (n, add_capped v amount) ∷ rows else (n, v) ∷ rest

-- The loop over the deltas.
unfoldable pub upsert_all : List (Bytes × ℕ) → List (Bytes × ℕ) → List (Bytes × ℕ)
upsert_all [] rows = rows
upsert_all ((name, amount) ∷ deltas) rows =
    upsert_all deltas (upsert name (min amount i64_max) rows)

-- `name.is_empty() || name.len() > 64`
abbrev pub is_bad_name : Bytes × ℕ → Bool
is_bad_name d = is_empty d.0 || ltb 64 (length d.0)

-- `ExecutionStore::increment_metrics`
unfoldable pub increment_metrics : {E : Type 0} → List (Bytes × ℕ) → Db E → Stored (Db E)
increment_metrics deltas db =
    if any is_bad_name deltas
    then err invalid_event
    else ok (record db { node_metrics = upsert_all deltas db.node_metrics })

-- `ExecutionStore::increment_metric`
unfoldable pub increment_metric : {E : Type 0} → Bytes → ℕ → Db E → Stored (Db E)
unfolding increment_metrics
increment_metric name amount db = increment_metrics ((name, amount) ∷ []) db

-- `SELECT value … WHERE name = ?`, which is 0 where there is no row.
unfoldable pub metric : Bytes → List (Bytes × ℕ) → ℕ
metric name [] = 0
metric name ((n, v) ∷ rows) = if bytes_eq n name then v else metric name rows
