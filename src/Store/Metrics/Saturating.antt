-- ===== src/Store/Metrics/Saturating.antt =====
-- crates/eggwork-server/src/store.rs, `increment_metrics`: a batch adds up, and stops at the top.
use eggwork.Prelude.{
  ℕ, ◌+◌, ◌≤◌, ◌≡◌, List, [], ◌∷◌, any, arith, min, i64_max, ok, Bool-cases, inl, inr,
  if◌then◌else◌,
}
use eggwork.Prelude.Bytes.{Bytes, bytes_eq, bytes_eq_iff}
use eggwork.Store.Tables.{Db}
use eggwork.Store.Metrics.{add_capped, upsert, upsert_all, is_bad_name, increment_metrics, metric}

-- What a batch adds to one counter.
abbrev pub total : Bytes → List (Bytes × ℕ) → ℕ
total name [] = 0
total name ((n, amount) ∷ deltas) =
    let rest = total name deltas in if bytes_eq n name then amount + rest else rest

-- No counter is beyond `i64::MAX`.
abbrev pub IsCapped : List (Bytes × ℕ) → Type 0
IsCapped rows = (name : Bytes) → metric name rows ≤ i64_max

add_capped_min : (v a : ℕ) → v ≤ i64_max → a ≤ i64_max → add_capped v a ≡ min (v + a) i64_max
add_capped_min v a p q = ground arith

metric-upsert :
    (name m : Bytes) (amount : ℕ) (rows : List (Bytes × ℕ))
    → metric name rows ≤ i64_max
    → amount ≤ i64_max
    → metric name (upsert m amount rows)
      ≡ (if bytes_eq m name then min (metric name rows + amount) i64_max else metric name rows)
unfolding metric upsert
metric-upsert name m amount [] p q = ground arith
metric-upsert name m amount ((n, v) ∷ rows) p q = elim (Bool-cases (bytes_eq n name)) [
  | inl hit ↦ elim (Bool-cases (bytes_eq n m)) [
    | inl own ↦ ground (
      arith,
      hit,
      own,
      add_capped_min v amount,
      bytes_eq_iff n name,
      bytes_eq_iff n m,
      bytes_eq_iff m name,
    )
    | inr other ↦
        ground (arith, hit, other, bytes_eq_iff n name, bytes_eq_iff n m, bytes_eq_iff m name)
  ]
  | inr miss ↦ elim (Bool-cases (bytes_eq n m)) [
    | inl own ↦
        ground (arith, miss, own, bytes_eq_iff n name, bytes_eq_iff n m, bytes_eq_iff m name)
    | inr other ↦
        ground (arith, miss, other, metric-upsert name m amount rows (ground (arith, miss)) q)
  ]
]

metric-upsert_all :
    (name : Bytes) (deltas rows : List (Bytes × ℕ))
    → IsCapped rows
    → metric name (upsert_all deltas rows) ≡ min (metric name rows + total name deltas) i64_max
unfolding upsert_all
metric-upsert_all name [] rows c = omega (arith, c name)
metric-upsert_all name ((n, amount) ∷ deltas) rows c =
    let rows' = upsert n (min amount i64_max) rows in
    let c' : IsCapped rows' =
      λ m. ground (arith, metric-upsert m n (min amount i64_max) rows (c m) (omega arith), c m) in
    let one = metric-upsert name n (min amount i64_max) rows (c name) (omega arith) in
    elim (Bool-cases (bytes_eq n name)) [
      | inl own ↦ ground (arith, metric-upsert_all name deltas rows' c', one, own)
      | inr other ↦ ground (arith, metric-upsert_all name deltas rows' c', one, other)
    ]

-- A batch of increments that is accepted adds to each counter what its entries for that counter
-- sum up to, and stops at the largest `i64`, where no counter was beyond it before.
pub increment_metrics-total :
    {E : Type 0} (name : Bytes) (deltas : List (Bytes × ℕ)) (db db' : Db E)
    → IsCapped db.node_metrics
    → increment_metrics deltas db ≡ ok db'
    → metric name db'.node_metrics ≡ min (metric name db.node_metrics + total name deltas) i64_max
unfolding increment_metrics
increment_metrics-total name deltas db db' c h = elim (Bool-cases (any is_bad_name deltas)) [
  | inl bad ↦ absurd (ground (arith, h, bad))
  | inr good ↦
      let same : upsert_all deltas db.node_metrics ≡ db'.node_metrics = ground (arith, h, good) in
      rw (← same) (metric-upsert_all name deltas db.node_metrics c)
]
