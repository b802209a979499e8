-- ===== src/Store/Trim.antt =====
-- crates/eggwork-server/src/store.rs: `trim_events`, the bound on what the journal retains.
pub mod Longest
use eggwork.Prelude.{
  ℕ, zero, suc, ◌+◌, Bool, ◌&&◌, List, [], ◌∷◌, Option, none, some, leb, length, if◌then◌else◌,
}
use eggwork.Prelude.Bytes.{Bytes}
use eggwork.Store.Tables.{
  Json, EventRow, max_retained_events, max_retained_event_bytes, events_of, min_sequence,
  delete_event,
}

module _ (json : Json) where
  open json use {Encoded, size}

  -- `COALESCE(SUM(length(encoded)), 0)`
  unfoldable pub total_size : List (EventRow Encoded) → ℕ
  total_size [] = 0
  total_size (e ∷ es) = size e.encoded + total_size es

  -- The loop's exit test.
  unfoldable pub fits : List (EventRow Encoded) → Bool
  unfolding total_size
  fits es = leb (length es) max_retained_events && leb (total_size es) max_retained_event_bytes

  -- `DELETE … AND sequence = (SELECT MIN(sequence) …)`; without a row the minimum is NULL, and no
  -- row equals it.
  unfoldable pub delete_oldest : Bytes → ℕ → List (EventRow Encoded) → List (EventRow Encoded)
  delete_oldest id g es = elim (min_sequence (events_of id g es)) [
    | none ↦ es
    | some n ↦ delete_event id g n es
  ]

  -- The `loop` on fuel; `none` means that the fuel ran out.
  unfoldable pub trim_loop :
      ℕ → Bytes → ℕ → List (EventRow Encoded) → Option (List (EventRow Encoded))
  trim_loop zero id g es = none
  trim_loop (suc fuel) id g es =
      let again = trim_loop fuel id g (delete_oldest id g es) in
      if fits (events_of id g es) then some es else again

  -- `trim_events`, with a round for each event of the table and one more for the last test.
  unfoldable pub trim_events :
      Bytes → ℕ → List (EventRow Encoded) → Option (List (EventRow Encoded))
  trim_events id g es = trim_loop (suc (length es)) id g es
