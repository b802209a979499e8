-- ===== src/Store/Journal/Rows.antt =====
-- crates/eggwork-server/src/store.rs: how an `UPDATE` by key acts on the lookups by key.
use eggwork.Prelude.{
  ℕ, ◌≡◌, true, false, List, [], ◌∷◌, Option, none, some, arith, Bool-cases, inl, inr,
  if◌then◌else◌,
}
use eggwork.Prelude.Bytes.{Bytes}
use eggwork.Store.Tables.{Row, same_key, row_has, find_row, update_rows}
use eggwork.Store.Run.{same_key_join, same_key_trans, same_key_eq}

module _ {E : Type 0} where
  -- An update that leaves the key of a row alone.
  pub record KeepsKey (f : Row E → Row E) : Type 0 where
    pub execution_id : (r : Row E) → (f r).execution_id ≡ r.execution_id
    pub generation : (r : Row E) → (f r).generation ≡ r.generation

  abbrev pub on_row : (Row E → Row E) → Option (Row E) → Option (Row E)
  on_row f none = none
  on_row f (some r) = some (f r)

  pub find_row-has :
      (id : Bytes) (g : ℕ) (rows : List (Row E)) (r : Row E)
      → find_row id g rows ≡ some r
      → (id ≡ r.execution_id) × (g ≡ r.generation)
  unfolding find_row
  find_row-has id g [] r h = cc
  find_row-has id g (x ∷ rows) r h = elim (Bool-cases (row_has id g x)) [
    | inl hit ↦
        let e : x ≡ r = ground (arith, h, hit) in
        rw (← e) (same_key_eq id x.execution_id g x.generation hit)
    | inr miss ↦ find_row-has id g rows r (ground (arith, h, miss))
  ]

  pub find_row-update :
      (id i : Bytes) (g h : ℕ) (f : Row E → Row E) (rows : List (Row E))
      → KeepsKey f
      → find_row i h (update_rows id g f rows)
        ≡ (if same_key id g i h then on_row f (find_row i h rows) else find_row i h rows)
  unfolding find_row update_rows
  find_row-update id i g h f [] k = ground arith
  find_row-update id i g h f (x ∷ rows) k = elim (Bool-cases (row_has id g x)) [
    | inl own ↦ elim (Bool-cases (row_has i h x)) [
      | inl hit ↦
          let kept : row_has i h (f x) ≡ true = rw (k.execution_id x, k.generation x) hit in
          rw (own, kept, hit, same_key_join id i x.execution_id g h x.generation own hit)
      | inr miss ↦
          let kept : row_has i h (f x) ≡ false = rw (k.execution_id x, k.generation x) miss in
          rw (own, kept, miss) (find_row-update id i g h f rows k)
    ]
    | inr other ↦ elim (Bool-cases (row_has i h x)) [
      | inl hit ↦
          let apart : same_key id g i h ≡ false =
            ground (arith, same_key_trans id i x.execution_id g h x.generation, other, hit) in
          rw (other, hit, apart)
      | inr miss ↦ rw (other, miss) (find_row-update id i g h f rows k)
    ]
  ]
