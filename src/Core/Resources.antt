-- ===== src/Core/Resources.antt =====
-- crates/eggwork-core/src/lib.rs: `Requirement`, its JSON form, and `ResourceRequirements`.
pub mod Wire
use mathlib.Core.Option
use eggwork.Prelude.{
  ℕ, ◌^◌, ◌==◌, Bool, true, not, ◌&&◌, List, [], ◌∷◌, Option, none, some, leb, length, reject_if,
  if◌then◌else◌,
}
use eggwork.Prelude.Bytes.{Bytes, bytes, bytes_eq}
use eggwork.Core.Error.{Validation, out_of_range}

pub data Requirement {ℓ} (A : Type ℓ) : Type ℓ where
  not_requested : Requirement A
  best_effort : A → Requirement A
  required : A → Requirement A

pub record ResourceRequirements : Type 0 where
  pub memory_bytes : Requirement ℕ
  pub cpu_millis : Requirement ℕ
  pub pids : Requirement ℕ

-- `matches!(r, NotRequested | BestEffort(1..=top) | Required(1..=top))`
abbrev pub in_range : ℕ → Requirement ℕ → Bool
in_range top not_requested = true
in_range top (best_effort v) = leb 1 v && leb v top
in_range top (required v) = leb 1 v && leb v top

abbrev pub max_memory_bytes : ℕ
max_memory_bytes = 1_125_899_906_842_624

abbrev pub max_cpu_millis : ℕ
max_cpu_millis = 1_000_000

abbrev pub max_pids : ℕ
max_pids = 1_000_000

-- `ResourceRequirements::validate`
unfoldable pub validate_resources : ResourceRequirements → Validation
validate_resources r =
    let memory_valid = in_range max_memory_bytes r.memory_bytes in
    let cpu_valid = in_range max_cpu_millis r.cpu_millis in
    let pids_valid = in_range max_pids r.pids in
    reject_if (not (memory_valid && cpu_valid && pids_valid)) (out_of_range "resource requirements")

pub data ResourceDimension : Type 0 where
  memory cpu pids : ResourceDimension

-- What the code uses of `serde_json::Value`, and the number type's own serializer.
pub record Json (A : Type 0) : Type 1 where
  pub Value : Type 0
  pub null : Value
  pub object : List (Bytes × Value) → Value
  pub is_null : Value → Bool
  pub as_object : Value → Option (List (Bytes × Value))
  pub to_value : A → Value
  pub from_value : Value → Option A

module _ {A : Type 0} (j : Json A) where
  -- `object.get(key)`
  unfoldable pub field : Bytes → List (Bytes × j.Value) → Option j.Value
  field k [] = none
  field k ((i, v) ∷ fs) = if bytes_eq k i then some v else field k fs

  -- `Requirement::serialize`
  unfoldable pub serialize : Requirement A → j.Value
  serialize not_requested = j.null
  serialize (best_effort v) = j.to_value v
  serialize (required v) = j.object ((bytes "required", j.to_value v) ∷ [])

  abbrev as_required : Option (List (Bytes × j.Value)) → Option j.Value
  as_required none = none
  as_required (some object) = if length object == 1 then field (bytes "required") object else none

  -- `Requirement::deserialize`; `none` is a deserialization error.
  unfoldable pub deserialize : j.Value → Option (Requirement A)
  unfolding field
  deserialize value =
      if j.is_null value then some not_requested else elim (as_required (j.as_object value)) [
        | some inner ↦ Option.map required (j.from_value inner)
        | none ↦ Option.map best_effort (j.from_value value)
      ]
