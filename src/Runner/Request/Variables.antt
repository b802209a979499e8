-- ===== src/Runner/Request/Variables.antt =====
-- crates/eggwork-runner/src/lib.rs, `direct_command`: which variables a child sees.
use mathlib.Core.Option
use eggwork.Prelude.{
  ℕ, ◌≡◌, refl, sym, ap, ◌∙◌, arith, true, false, List, [], ◌∷◌, Option, none, some, Bool-cases,
  Option-cases, inl, inr, if◌then◌else◌, any,
}
use eggwork.Prelude.Bytes.{Bytes, bytes, bytes_eq, bytes_eq_iff}
use eggwork.Prelude.TreeMap.{TreeMap, get, insert, get-insert}
use eggwork.Runner.Request.{
  RunnerRequest, denied_environment_key, baseline_child_environment, set_all, set_allowed,
  set_execution_id, set_generation, direct_environment,
}

abbrev pub first_some : Option Bytes → Option Bytes → Option Bytes
first_some none other = other
first_some (some v) other = some v

abbrev pub named : Bytes → Bytes → Option Bytes → Option Bytes
named key name v = if bytes_eq key name then v else none

-- The value that the last entry of that name gives.
abbrev pub last_value : Bytes → List (Bytes × Bytes) → Option Bytes
last_value key [] = none
last_value key (e ∷ es) = first_some (last_value key es) (named key e.0 (some e.1))

abbrev pub requested : Bytes → List (Bytes × Bytes) → Option Bytes
requested key es = if denied_environment_key key then none else last_value key es

-- The value in the fixed baseline.
abbrev pub baseline : Bytes → Option Bytes
baseline key = get key (set_all baseline_child_environment [])

denied_apart :
    (key name : Bytes)
    → denied_environment_key key ≡ false
    → denied_environment_key name ≡ true
    → bytes_eq key name ≡ false
denied_apart key name free denied = elim (Bool-cases (bytes_eq key name)) [
  | inl same ↦
      let e = (bytes_eq_iff key name).0 same in
      let clash : true ≡ false = sym denied ∙ ap denied_environment_key (sym e) ∙ free in cc
  | inr other ↦ other
]

first_some_keeps :
    (o other : Option Bytes) → first_some (first_some o none) other ≡ first_some o other
first_some_keeps none other = refl
first_some_keeps (some v) other = refl

first_some-named :
    (key name : Bytes) (o v other : Option Bytes)
    → first_some o (first_some (named key name v) other)
      ≡ first_some (first_some o (named key name v)) other
first_some-named key name none v other = refl
first_some-named key name (some w) v other = refl

named-some :
    (key name value : Bytes) (other : Option Bytes)
    → (if bytes_eq key name then some value else other)
      ≡ first_some (named key name (some value)) other
named-some key name value other = ground arith

allowed-get :
    (key : Bytes) (es : List (Bytes × Bytes)) (variables : TreeMap Bytes)
    → denied_environment_key key ≡ false
    → get key (set_allowed es variables) ≡ first_some (last_value key es) (get key variables)
allowed-get key [] variables free = refl
allowed-get key (e ∷ es) variables free = elim (Bool-cases (denied_environment_key e.0)) [
  | inl denied ↦
      rw (denied, denied_apart key e.0 free denied, allowed-get key es variables free)
        (sym (first_some_keeps (last_value key es) (get key variables)))
  | inr kept ↦
      rw
        (
          kept,
          allowed-get key es (insert e.0 e.1 variables) free,
          get-insert key e.0 e.1 variables,
          named-some key e.0 e.1 (get key variables),
        )
        (first_some-named key e.0 (last_value key es) (some e.1) (get key variables))
]

denied_kept_apart :
    (key name : Bytes)
    → denied_environment_key key ≡ true
    → denied_environment_key name ≡ false
    → bytes_eq key name ≡ false
denied_kept_apart key name denied kept = elim (Bool-cases (bytes_eq key name)) [
  | inl same ↦
      let e = (bytes_eq_iff key name).0 same in
      let clash : true ≡ false = sym denied ∙ ap denied_environment_key e ∙ kept in cc
  | inr other ↦ other
]

denied-get :
    (key : Bytes) (es : List (Bytes × Bytes)) (variables : TreeMap Bytes)
    → denied_environment_key key ≡ true
    → get key (set_allowed es variables) ≡ get key variables
denied-get key [] variables denied = refl
denied-get key (e ∷ es) variables denied = elim (Bool-cases (denied_environment_key e.0)) [
  | inl same ↦ rw (same, denied-get key es variables denied)
  | inr kept ↦ rw (
    kept,
    denied-get key es (insert e.0 e.1 variables) denied,
    get-insert key e.0 e.1 variables,
    denied_kept_apart key e.0 denied kept,
  )
]

allowed-requested :
    (key : Bytes) (es : List (Bytes × Bytes)) (variables : TreeMap Bytes)
    → get key (set_allowed es variables) ≡ first_some (requested key es) (get key variables)
allowed-requested key es variables = elim (Bool-cases (denied_environment_key key)) [
  | inl denied ↦ rw (denied, denied-get key es variables denied)
  | inr free ↦ rw (free, allowed-get key es variables free)
]

id-get :
    (key : Bytes) (id : Option Bytes) (variables : TreeMap Bytes)
    → get key (set_execution_id id variables)
      ≡ first_some (named key (bytes "EGGWORK_EXECUTION_ID") id) (get key variables)
id-get key none variables = ground arith
id-get key (some id) variables =
    get-insert key _ id variables ∙ named-some key _ id (get key variables)

generation-get :
    (to_string : ℕ → Bytes) (key : Bytes) (generation : Option ℕ) (variables : TreeMap Bytes)
    → get key (set_generation to_string generation variables)
      ≡ first_some
          (named key (bytes "EGGWORK_EXECUTION_GENERATION") (Option.map to_string generation))
          (get key variables)
generation-get to_string key none variables = ground arith
generation-get to_string key (some g) variables =
    get-insert key _ (to_string g) variables ∙ named-some key _ (to_string g) (get key variables)

-- A child sees as the value of a variable: the attribution's, for the two names of the attribution;
-- else the last one that the request gives, unless the name is denied; else the baseline's. There
-- are no others.
pub direct_environment-get :
    (to_string : ℕ → Bytes) (r : RunnerRequest) (key : Bytes)
    → get key (direct_environment to_string r)
      ≡ first_some
          (named key
            (bytes "EGGWORK_EXECUTION_GENERATION")
            (Option.map to_string r.provenance.generation))
          (first_some
            (named key (bytes "EGGWORK_EXECUTION_ID") r.provenance.execution_id)
            (first_some (requested key r.environment) (baseline key)))
unfolding direct_environment
direct_environment-get to_string r key = rw (
  generation-get to_string key r.provenance.generation _,
  id-get key r.provenance.execution_id _,
  allowed-requested key r.environment _,
)

generation_kept : denied_environment_key (bytes "EGGWORK_EXECUTION_GENERATION") ≡ false
unfolding denied_environment_key bytes_eq eggwork.Prelude.Bytes.to_ascii_uppercase
    eggwork.Prelude.Bytes.strip_prefix
generation_kept = refl

id_kept : denied_environment_key (bytes "EGGWORK_EXECUTION_ID") ≡ false
unfolding denied_environment_key bytes_eq eggwork.Prelude.Bytes.to_ascii_uppercase
    eggwork.Prelude.Bytes.strip_prefix
id_kept = refl

-- A variable with a denied name has in the child the baseline's value or none, whatever the request
-- and its attribution say.
direct_environment-denied :
    (to_string : ℕ → Bytes) (r : RunnerRequest) (key : Bytes)
    → denied_environment_key key ≡ true
    → get key (direct_environment to_string r) ≡ baseline key
direct_environment-denied to_string r key denied =
    let generation =
      denied_kept_apart key (bytes "EGGWORK_EXECUTION_GENERATION") denied generation_kept in
    let id = denied_kept_apart key (bytes "EGGWORK_EXECUTION_ID") denied id_kept in
    direct_environment-get to_string r key ∙ rw (generation, id, denied)
