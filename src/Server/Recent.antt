-- ===== src/Server/Recent.antt =====
-- crates/eggwork-server/src/lib.rs, `execute`: the identity that a request's execution already has,
-- and the room that is made among the executions in memory.
pub mod Room
use eggwork.Prelude.{
  ℕ, ◌-◌, Bool, true, false, not, ◌||◌, ◌==◌, List, [], ◌∷◌, ◌++◌, Option, none, some, any, keep_if,
  leb, ltb, length, ok, err, if◌then◌else◌,
}
use eggwork.Prelude.Bytes.{Bytes, bytes, bytes_eq}
use eggwork.Core.Execution.{ExecutionSnapshot}
use eggwork.Store.Tables.{Stored}
use eggwork.Store.Reads.{ExistingExecution}

abbrev pub max_recent_executions : ℕ
max_recent_executions = 1024

-- What the loop reads of a record in the map: its key, and whether its snapshot is terminal.
pub record Recent : Type 0 where
  pub id : Bytes
  pub is_over : Bool

-- The loop over `executions.iter()`, in the map's order, with what it has collected: the terminal
-- ones, until removing them makes room.
unfoldable pub collect : ℕ → List Bytes → List Recent → List Bytes
collect size terminal [] = terminal
collect size terminal (r ∷ rs) =
    let found = if r.is_over then terminal ++ r.id ∷ [] else terminal in
    let rest = collect size found rs in
    if ltb (size - length found) max_recent_executions then found else rest

-- `for old_id in terminal { executions.remove(&old_id); }`
abbrev pub remove_id : Bytes → List Recent → List Recent
remove_id id = keep_if (λ r. not (bytes_eq r.id id))

unfoldable pub remove_all : List Bytes → List Recent → List Recent
remove_all [] executions = executions
remove_all (id ∷ ids) executions = remove_all ids (remove_id id executions)

unfoldable pub make_room : List Recent → List Recent
unfolding collect remove_all
make_room executions =
    if leb max_recent_executions (length executions)
    then remove_all (collect (length executions) [] executions) executions
    else executions

-- What the lookup of a request's identity means for it.
pub data Identity : Type 0 where
  new_identity unavailable : Identity
  replayed : ExistingExecution → Identity
  refused : ℕ → Bytes → Identity

-- The `if let Some(existing)` of `execute`.
unfoldable pub identify : ℕ → Bytes → Bytes → Bytes → Stored (Option ExistingExecution) → Identity
identify version digest principal lease_hash (err e) = unavailable
identify version digest principal lease_hash (ok none) = new_identity
identify version digest principal lease_hash (ok (some e)) =
    if not (e.canonical_version == version)
    then refused 409 (bytes "canonicalization_version_mismatch")
    else if not (bytes_eq e.principal_id principal)
    then refused 403 (bytes "forbidden")
    else if not (bytes_eq e.digest digest) || not (bytes_eq e.lease_token_hash lease_hash)
    then refused 409 (bytes "execution_identity_conflict")
    else replayed e
