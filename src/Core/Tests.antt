-- ===== src/Core/Tests.antt =====
-- The theorems on paths, manifests and patches at work on small values.
mod Requests
use eggwork.Prelude.{
  ◌≡◌, ◌≤◌, ◌↔◌, ◌++◌, refl, ap, true, false, List, [], ◌∷◌, none, some, ok, Permᴰ, length,
}
use mathlib.Core.List.{reverse}
use eggwork.Prelude.Bytes.{Bytes, bytes, is_ascii, split}
use eggwork.Prelude.Sorting.{IsSorted}
use eggwork.Core.Limits.{max_path_bytes, max_workspace_depth}
use eggwork.Core.RelativePath.{RelativePath, new}
use eggwork.Core.RelativePath.Confined.{walk, new-confined}
use eggwork.Core.Workspace.{WorkspaceEntry, directory, file, WorkspaceManifest}
use eggwork.Core.Workspace.Portable.{validate_portable}
use eggwork.Core.Workspace.Portable.Relative.{validate_portable-new}
use eggwork.Core.Workspace.Manifest.{validate_manifest, logical_bytes}
use eggwork.Core.Workspace.Manifest.Scanned.{file_bytes}
use eggwork.Core.Workspace.Manifest.Valid.{ManifestIsValid, validate_manifest_iff}
use eggwork.Core.Workspace.Patch.{
  PatchEntry, upsert_directory, upsert_file, ManifestPatch, apply_to,
}
use eggwork.Core.Workspace.Patch.Order.{apply_to-Permᴰ}
use eggwork.Core.Workspace.Patch.Outcome.{apply_to-outcome, path_le, last_at, patched}
use eggwork.Core.Digest.{manifest_digest}

abbrev source_dir : RelativePath
source_dir = record { text = bytes "src" }

abbrev main_file : RelativePath
main_file = record { text = bytes "src/main.rs" }

main_new : new (bytes "src/main.rs") ≡ ok main_file
unfolding new
main_new = refl

new-confined_example :
    (main_file.text ≡ bytes "src/main.rs")
    × (length main_file.text ≤ max_path_bytes)
    × (walk (bytes "work" ∷ []) (split b'/' main_file.text)
        ≡ some (reverse (split b'/' main_file.text) ++ bytes "work" ∷ []))
new-confined_example = new-confined (bytes "src/main.rs") main_file (bytes "work" ∷ []) main_new

abbrev main_entry : WorkspaceEntry
main_entry = file main_file (bytes "d1") 40 false

abbrev two_entries : WorkspaceManifest
two_entries = record { schema_version = 1; entries = main_entry ∷ directory source_dir ∷ [] }

two_entries_valid : validate_manifest two_entries ≡ ok tt
unfolding validate_manifest eggwork.Core.Workspace.Manifest.scan
    eggwork.Core.Workspace.Manifest.scan_entry eggwork.Core.Workspace.Portable.validate_portable
    eggwork.Prelude.Distinct.mem_bytes eggwork.Prelude.TreeMap.get
    eggwork.Core.Workspace.Manifest.add_size eggwork.Prelude.Bytes.to_ascii_lowercase
    eggwork.Prelude.TreeMap.insert eggwork.Prelude.Bytes.cmp_bytes
    eggwork.Core.Workspace.Manifest.check_parents
two_entries_valid = refl

validate_manifest_iff_example :
    (validate_manifest two_entries ≡ ok tt) ↔ ManifestIsValid two_entries
validate_manifest_iff_example = validate_manifest_iff two_entries

-- Replaces the main file and adds a directory.
abbrev patch : ManifestPatch
patch = record {
  schema_version = 1;
  base_manifest_digest = bytes "b";
  entries =
      upsert_file main_file (bytes "d2") 7 true
      ∷ upsert_directory (record { text = bytes "doc" })
      ∷ [];
}

abbrev swapped_patch : List PatchEntry
swapped_patch =
    upsert_directory (record { text = bytes "doc" })
    ∷ upsert_file main_file (bytes "d2") 7 true
    ∷ []

abbrev patched_tree : WorkspaceManifest
patched_tree = record {
  schema_version = 1;
  entries =
      directory (record { text = bytes "doc" })
      ∷ directory source_dir
      ∷ file main_file (bytes "d2") 7 true
      ∷ [];
}

patch_applies : apply_to patch two_entries ≡ ok patched_tree
unfolding apply_to eggwork.Core.Workspace.Patch.validate_patch eggwork.Prelude.Distinct.repeats
    eggwork.Prelude.Bytes.bytes_eq validate_manifest eggwork.Prelude.TreeMap.values
    eggwork.Core.Workspace.Patch.apply_entries eggwork.Core.Workspace.Patch.apply_entry
    eggwork.Prelude.TreeMap.insert eggwork.Core.Workspace.Patch.base_tree
    eggwork.Prelude.Bytes.cmp_bytes eggwork.Core.Workspace.Manifest.scan
    eggwork.Core.Workspace.Manifest.scan_entry eggwork.Core.Workspace.Portable.validate_portable
    eggwork.Prelude.TreeMap.get eggwork.Core.Workspace.Manifest.add_size
    eggwork.Prelude.Bytes.to_ascii_lowercase eggwork.Core.Workspace.Manifest.check_parents
patch_applies = refl

apply_to-outcome_example :
    (validate_manifest patched_tree ≡ ok tt)
    × IsSorted path_le patched_tree.entries
    × ((q : Bytes)
        → last_at q patched_tree.entries none
          ≡ patched q patch.entries (last_at q two_entries.entries none))
apply_to-outcome_example = apply_to-outcome patch two_entries patched_tree patch_applies

apply_to-Permᴰ_example :
    apply_to patch two_entries ≡ apply_to (record patch { entries = swapped_patch }) two_entries
apply_to-Permᴰ_example = apply_to-Permᴰ patch swapped_patch two_entries (Permᴰ.swap refl refl)

main_portable : validate_portable (bytes "src/main.rs") ≡ ok tt
unfolding validate_portable
main_portable = refl

validate_portable-new_example :
    (new (bytes "src/main.rs") ≡ ok (record { text = bytes "src/main.rs" }))
    × (is_ascii (bytes "src/main.rs") ≡ true)
    × (length (split b'/' (bytes "src/main.rs")) ≤ max_workspace_depth)
validate_portable-new_example = validate_portable-new (bytes "src/main.rs") main_portable
