-- ===== src/Core/Digest.antt =====
-- crates/eggwork-core/src/lib.rs: canonical digests of requests and manifests. `serde_json` and
-- SHA-256 are parameters: the canonical bytes are what they are given.
pub mod Stable
use Prim.Native.Nat.{Ordering}
use eggwork.Prelude.{
  ℕ, Bool, true, false, ◌++◌, List, [], ◌∷◌, Option, none, some, Result, ok, err, ◌>>=◌,
}
use eggwork.Prelude.Bytes.{Bytes, bytes, cmp_bytes}
use eggwork.Prelude.Sorting.{sort_by}
use eggwork.Core.Environment.{EnvironmentEntry, DeclaredOutput}
use eggwork.Core.Command.{CommandSpec, ExecutionSpec}
use eggwork.Core.Workspace.{WorkspaceEntry, raw_path, WorkspaceManifest}

-- `serde_json::to_vec` of the values that are hashed, and `BlobDigest::from_bytes`, the lowercase
-- hexadecimal SHA-256.
pub record Hashing : Type 1 where
  pub JsonError : Type 0
  pub spec_to_vec : ExecutionSpec → Result JsonError Bytes
  pub workspace_request_to_vec : ExecutionSpec → Bytes → Result JsonError Bytes
  pub manifest_to_vec : WorkspaceManifest → Result JsonError Bytes
  pub from_bytes : Bytes → Bytes

-- `cmp(…) != Greater`, which is all that a stable sort asks of a comparator.
abbrev pub le_of : Ordering → Bool
le_of Ordering.gt = false
le_of _ = true

-- `Ordering::then_with`
abbrev pub then_with : Ordering → Ordering → Ordering
then_with Ordering.eq second = second
then_with first _ = first

-- `bool::cmp`
abbrev pub cmp_bool : Bool → Bool → Ordering
cmp_bool false true = Ordering.lt
cmp_bool true false = Ordering.gt
cmp_bool _ _ = Ordering.eq

abbrev pub entry_le : EnvironmentEntry → EnvironmentEntry → Bool
entry_le a b = le_of (cmp_bytes a.name b.name)

abbrev pub metadata_le : Bytes × Bytes → Bytes × Bytes → Bool
metadata_le a b = le_of (then_with (cmp_bytes a.0 b.0) (cmp_bytes a.1 b.1))

abbrev pub output_le : DeclaredOutput → DeclaredOutput → Bool
output_le a b =
    le_of (then_with (cmp_bytes a.path.text b.path.text) (cmp_bool a.required b.required))

abbrev pub manifest_le : WorkspaceEntry → WorkspaceEntry → Bool
manifest_le a b = le_of (cmp_bytes (raw_path a) (raw_path b))

-- `normalize_execution_spec`
unfoldable pub normalize : ExecutionSpec → ExecutionSpec
normalize s = record s {
  command = record s.command {
    environment = sort_by entry_le s.command.environment;
    declared_outputs = sort_by output_le s.command.declared_outputs;
  };
  metadata = sort_by metadata_le s.metadata;
}

abbrev pub canonical_request_version : ℕ
canonical_request_version = 2

abbrev pub canonical_workspace_request_version : ℕ
canonical_workspace_request_version = 3

module _ (h : Hashing) where
  open h use {JsonError, spec_to_vec, workspace_request_to_vec, manifest_to_vec, from_bytes}

  unfoldable pub request_digest : ExecutionSpec → Result JsonError Bytes
  unfolding normalize
  request_digest s = do
    json ← spec_to_vec (normalize s)
    ok (from_bytes (bytes "eggwork-execution-spec" ++ 0 ∷ bytes "canonical-json-v2" ++ 0 ∷ json))

  unfoldable pub request_digest_with_workspace :
      ExecutionSpec → Option Bytes → Result JsonError (ℕ × Bytes)
  unfolding request_digest
  request_digest_with_workspace s none = do
    digest ← request_digest s
    ok (canonical_request_version, digest)
  request_digest_with_workspace s (some workspace_id) = do
    json ← workspace_request_to_vec (normalize s) workspace_id
    ok (
      canonical_workspace_request_version,
      from_bytes (bytes "eggwork-execution-spec" ++ 0 ∷ bytes "canonical-json-v3" ++ 0 ∷ json),
    )

  -- `WorkspaceManifest::digest`
  unfoldable pub manifest_digest : WorkspaceManifest → Result JsonError Bytes
  manifest_digest m = do
    json ← manifest_to_vec (record m { entries = sort_by manifest_le m.entries })
    ok (
        from_bytes
          (bytes "eggwork-workspace-manifest" ++ 0 ∷ bytes "canonical-json-v1" ++ 0 ∷ json))
