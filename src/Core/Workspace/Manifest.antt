-- ===== src/Core/Workspace/Manifest.antt =====
-- crates/eggwork-core/src/lib.rs: `WorkspaceManifest::validate` and `logical_bytes`. The state of
-- the validator's first loop is the record `Scan`.
mod Found
pub mod Scanned
pub mod Valid
use eggwork.Prelude.{
  ℕ, ◌==◌, ◌++◌, Bool, true, false, not, ◌||◌, List, [], ◌∷◌, Option, none, some, ltb, is_some,
  length, saturating_add, ok, err, Result, reject_if, for_each, ◌>>=◌, ◌>>◌, if◌then◌else◌,
}
use eggwork.Prelude.Bytes.{Bytes, to_ascii_lowercase}
use eggwork.Prelude.Distinct.{mem_bytes}
use eggwork.Prelude.TreeMap
use eggwork.Prelude.TreeMap.{TreeMap}
use eggwork.Core.Error.{
  Checked, Validation, too_many, invalid_syntax, forbidden, invalid_path, out_of_range,
}
use eggwork.Core.Limits.{
  max_workspace_entries, max_workspace_path_bytes, max_workspace_logical_bytes,
}
use eggwork.Core.Workspace.{WorkspaceEntry, directory, file, symlink, raw_path, WorkspaceManifest}
use eggwork.Core.Workspace.Portable.{validate_portable}

pub record Scan : Type 0 where
  pub paths : TreeMap Bool
  pub folded : List Bytes
  pub total_path_bytes : ℕ
  pub total_file_bytes : ℕ

abbrev pub start : Scan
start = record { paths = []; folded = []; total_path_bytes = 0; total_file_bytes = 0 }

abbrev pub is_directory : WorkspaceEntry → Bool
is_directory (directory p) = true
is_directory (file p digest size executable) = false
is_directory (symlink p target) = false

-- The `match entry` at the end of the loop's body.
unfoldable pub add_size : Scan → WorkspaceEntry → Checked Scan
add_size s (directory p) = ok s
add_size s (file p digest size executable) =
    let total = saturating_add s.total_file_bytes size in
    do
      reject_if (ltb max_workspace_logical_bytes total) (out_of_range "workspace logical bytes")
      ok (record s { total_file_bytes = total })
add_size s (symlink p target) = err (forbidden "workspace symlink")

-- One round of the first loop.
unfoldable pub scan_entry : Scan → WorkspaceEntry → Checked Scan
scan_entry s e =
    let raw = raw_path e in
    let total = saturating_add s.total_path_bytes (length raw) in
    let folded = to_ascii_lowercase raw in
    do
      validate_portable raw
      reject_if (ltb max_workspace_path_bytes total) (out_of_range "workspace path bytes")
      reject_if (mem_bytes folded s.folded) (invalid_syntax "workspace case collision")
      reject_if (is_some (TreeMap.get raw s.paths)) (invalid_syntax "duplicate workspace path")
      add_size
          (record {
            paths = TreeMap.insert raw (is_directory e) s.paths;
            folded = folded ∷ s.folded;
            total_path_bytes = total;
            total_file_bytes = s.total_file_bytes;
          })
          e

unfoldable pub scan : Scan → List WorkspaceEntry → Checked Scan
scan s [] = ok s
scan s (e ∷ es) = do s' ← scan_entry s e; scan s' es

-- `paths.get(parent) == Some(&true)`
abbrev pub is_true : Option Bool → Bool
is_true none = false
is_true (some b) = b

-- The `while let` over the separators of a path: `before` is `path[..parent_end]`.
unfoldable pub check_parents : TreeMap Bool → Bytes → Bytes → Validation
check_parents paths before [] = ok tt
check_parents paths before (b ∷ rest) =
    let later = check_parents paths (before ++ b ∷ []) rest in
    if b == b'/'
    then (if is_true (TreeMap.get before paths)
        then later
        else err (invalid_path "workspace parent directory"))
    else later

-- `WorkspaceManifest::validate`
unfoldable pub validate_manifest : WorkspaceManifest → Validation
validate_manifest m = do
  reject_if (not (m.schema_version == 1)) (out_of_range "workspace schema version")
  reject_if (ltb max_workspace_entries (length m.entries))
      (too_many "workspace entries" max_workspace_entries)
  s ← scan start m.entries
  for_each (λ e. check_parents s.paths [] (raw_path e)) m.entries

abbrev pub size_bytes : WorkspaceEntry → ℕ
size_bytes (file p digest size executable) = size
size_bytes _ = 0

-- `WorkspaceManifest::logical_bytes`: a left fold of saturating additions.
unfoldable pub add_sizes : ℕ → List WorkspaceEntry → ℕ
add_sizes total [] = total
add_sizes total (e ∷ es) = add_sizes (saturating_add total (size_bytes e)) es

unfoldable pub logical_bytes : WorkspaceManifest → ℕ
unfolding add_sizes
logical_bytes m = add_sizes 0 m.entries
