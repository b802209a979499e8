-- ===== src/Core/Workspace.antt =====
-- crates/eggwork-core/src/lib.rs: `WorkspaceManifest`, `WorkspaceEntry` and what their validator
-- is made of. The modules below model the validator and the patches, and prove what they do.
pub mod Portable
pub mod Manifest
pub mod Patch
use eggwork.Prelude.{ℕ, Bool, List, map}
use eggwork.Prelude.Bytes.{Bytes}
use eggwork.Core.RelativePath.{RelativePath}

pub data WorkspaceEntry : Type 0 where
  directory : RelativePath → WorkspaceEntry
  -- path, digest, size in bytes, executable
  file : RelativePath → Bytes → ℕ → Bool → WorkspaceEntry
  -- path, target
  symlink : RelativePath → Bytes → WorkspaceEntry

-- `WorkspaceEntry::path`
abbrev pub path : WorkspaceEntry → RelativePath
path (directory p) = p
path (file p digest size executable) = p
path (symlink p target) = p

abbrev pub raw_path : WorkspaceEntry → Bytes
raw_path e = (path e).text

abbrev pub raw_paths : List WorkspaceEntry → List Bytes
raw_paths = map raw_path

pub record WorkspaceManifest : Type 0 where
  pub schema_version : ℕ
  pub entries : List WorkspaceEntry
