-- ===== src/Store/History/Updates.antt =====
-- crates/eggwork-server/src/store.rs: an `UPDATE` by key and the rules on the rows.
use eggwork.Prelude.{
  ℕ, suc, ◌≡◌, refl, ap, false, List, [], ◌∷◌, none, some, arith, length, Bool-cases, Option-cases,
  inl, inr,
}
use eggwork.Prelude.Bytes.{Bytes}
use eggwork.Store.Tables.{Row, is_terminal_name, same_key, find_row, update_rows}
use eggwork.Store.Run.{same_key_eq}
use eggwork.Store.Journal.Rows.{KeepsKey, find_row-update}
use eggwork.Store.Reserve.Fencing.{IsFenced}

module _ {E : Type 0} where
  pub length-update :
      (id : Bytes) (g : ℕ) (f : Row E → Row E) (rows : List (Row E))
      → length (update_rows id g f rows) ≡ length rows
  unfolding update_rows
  length-update id g f [] = refl
  length-update id g f (r ∷ rows) = ap suc (length-update id g f rows)

  -- A key that finds nothing finds nothing after an update.
  pub absent-update :
      (id i : Bytes) (g h : ℕ) (f : Row E → Row E) (rows : List (Row E))
      → KeepsKey f
      → find_row i h rows ≡ none
      → find_row i h (update_rows id g f rows) ≡ none
  absent-update id i g h f rows k absent = ground (arith, find_row-update id i g h f rows k, absent)

  -- An update leaves the rows of other keys.
  pub find_row-update_other :
      (id i : Bytes) (g h : ℕ) (f : Row E → Row E) (rows : List (Row E))
      → KeepsKey f
      → same_key id g i h ≡ false
      → find_row i h (update_rows id g f rows) ≡ find_row i h rows
  find_row-update_other id i g h f rows k apart =
      ground (arith, find_row-update id i g h f rows k, apart)

  -- An update that revives no ended row keeps the rule on live generations.
  pub update-IsFenced :
      (id : Bytes) (g : ℕ) (f : Row E → Row E) (rows : List (Row E))
      → KeepsKey f
      → ((r : Row E)
          → find_row id g rows ≡ some r
          → is_terminal_name (f r).state ≡ false
          → is_terminal_name r.state ≡ false)
      → IsFenced rows
      → IsFenced (update_rows id g f rows)
  update-IsFenced id g f rows k keeps fenced i n h r found lives lt =
      elim (Option-cases (find_row i n rows)) [
        | inl absent ↦ absurd (ground (arith, absent-update id i g n f rows k absent, found))
        | inr (old, was) ↦
            let live : is_terminal_name old.state ≡ false = elim (Bool-cases (same_key id g i n)) [
              | inr other ↦
                  let same : old ≡ r =
                    ground (arith, find_row-update id i g n f rows k, was, other, found) in
                  rw same lives
              | inl own ↦
                  let same : f old ≡ r =
                    ground (arith, find_row-update id i g n f rows k, was, own, found) in
                  let (j, m) = same_key_eq id i g n own in keeps old (rw (j, m) was) (rw same lives)
            ] in
            absent-update id i g h f rows k (fenced i n h old was live lt)
      ]
