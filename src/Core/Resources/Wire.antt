-- ===== src/Core/Resources/Wire.antt =====
-- crates/eggwork-core/src/lib.rs, `Requirement`: the JSON form is read back as it was written.
use eggwork.Prelude.{◌≡◌, true, false, List, none, some}
use eggwork.Prelude.Bytes.{Bytes, bytes_eq}
use eggwork.Core.Resources.{
  Requirement, not_requested, best_effort, required, Json, serialize, deserialize,
}

-- The documented behaviour of `serde_json`: documents are told apart by their kind, and a number is
-- written as a number and read back.
pub record IsJson {A : Type 0} (j : Json A) : Type 0 where
  pub is_null-null : j.is_null j.null ≡ true
  pub is_null-object : (fs : List (Bytes × j.Value)) → j.is_null (j.object fs) ≡ false
  pub as_object-object : (fs : List (Bytes × j.Value)) → j.as_object (j.object fs) ≡ some fs
  pub is_null-to_value : (a : A) → j.is_null (j.to_value a) ≡ false
  pub as_object-to_value : (a : A) → j.as_object (j.to_value a) ≡ none
  pub from_value-to_value : (a : A) → j.from_value (j.to_value a) ≡ some a

-- Every requirement, of each of the three kinds, survives a round trip through its JSON form: a
-- best-effort limit and a required one are never read as one another.
pub deserialize-serialize :
    {A : Type 0} (j : Json A)
    → IsJson j
    → (r : Requirement A) → deserialize j (serialize j r) ≡ some r
unfolding deserialize serialize bytes_eq
deserialize-serialize j l not_requested = rw l.is_null-null
deserialize-serialize j l (best_effort v) =
    rw (l.is_null-to_value v, l.as_object-to_value v, l.from_value-to_value v)
deserialize-serialize j l (required v) =
    rw (l.is_null-object _, l.as_object-object _, l.from_value-to_value v)
