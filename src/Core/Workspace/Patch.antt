-- ===== src/Core/Workspace/Patch.antt =====
-- crates/eggwork-core/src/lib.rs: `WorkspaceManifestPatch`. The `BTreeMap` of the patched tree is a
-- `TreeMap` of entries.
pub mod Order
pub mod Outcome
use eggwork.Prelude.{
  ℕ, ◌==◌, Bool, not, List, [], ◌∷◌, map, ltb, length, ok, reject_if, ◌>>=◌, ◌>>◌,
}
use eggwork.Prelude.Bytes.{Bytes}
use eggwork.Prelude.Distinct.{repeats}
use eggwork.Prelude.TreeMap
use eggwork.Prelude.TreeMap.{TreeMap}
use eggwork.Core.Error.{Checked, Validation, too_many, invalid_syntax, out_of_range}
use eggwork.Core.Limits.{max_workspace_entries}
use eggwork.Core.RelativePath.{RelativePath}
use eggwork.Core.Workspace.{WorkspaceEntry, directory, file, raw_path, WorkspaceManifest}
use eggwork.Core.Workspace.Manifest.{validate_manifest}

pub data PatchEntry : Type 0 where
  remove : RelativePath → PatchEntry
  upsert_directory : RelativePath → PatchEntry
  -- path, digest, size in bytes, executable
  upsert_file : RelativePath → Bytes → ℕ → Bool → PatchEntry

-- `WorkspacePatchEntry::path`
abbrev pub patch_path : PatchEntry → Bytes
patch_path (remove p) = p.text
patch_path (upsert_directory p) = p.text
patch_path (upsert_file p digest size executable) = p.text

pub record ManifestPatch : Type 0 where
  pub schema_version : ℕ
  pub base_manifest_digest : Bytes
  pub entries : List PatchEntry

-- `WorkspaceManifestPatch::validate`
unfoldable pub validate_patch : ManifestPatch → Validation
validate_patch p = do
  reject_if (not (p.schema_version == 1)) (out_of_range "workspace patch schema version")
  reject_if (ltb max_workspace_entries (length p.entries))
      (too_many "workspace patch entries" max_workspace_entries)
  reject_if (repeats [] (map patch_path p.entries))
      (invalid_syntax "duplicate workspace patch path")

abbrev pub Tree : Type 0
Tree = TreeMap WorkspaceEntry

-- `for entry in &base.entries { tree.insert(…) }`
unfoldable pub base_tree : Tree → List WorkspaceEntry → Tree
base_tree t [] = t
base_tree t (e ∷ es) = base_tree (TreeMap.insert (raw_path e) e t) es

-- The `match` of the second loop.
unfoldable pub apply_entry : Tree → PatchEntry → Tree
apply_entry t (remove p) = TreeMap.remove p.text t
apply_entry t (upsert_directory p) = TreeMap.insert p.text (directory p) t
apply_entry t (upsert_file p digest size executable) =
    TreeMap.insert p.text (file p digest size executable) t

unfoldable pub apply_entries : Tree → List PatchEntry → Tree
apply_entries t [] = t
apply_entries t (e ∷ es) = apply_entries (apply_entry t e) es

-- `WorkspaceManifestPatch::apply_to`
unfoldable pub apply_to : ManifestPatch → WorkspaceManifest → Checked WorkspaceManifest
apply_to p base = do
  validate_patch p
  let tree = apply_entries (base_tree [] base.entries) p.entries
  let final_manifest =
      let m : WorkspaceManifest = record { schema_version = 1; entries = TreeMap.values tree } in m
  validate_manifest final_manifest
  ok final_manifest
