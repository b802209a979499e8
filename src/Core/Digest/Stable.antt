-- ===== src/Core/Digest/Stable.antt =====
-- crates/eggwork-core/src/lib.rs: digests do not depend on the order of unordered fields.
use eggwork.Prelude.{◌≡◌, true, false, List, map, Permᴰ, Option, none, some, arith, ok}
use eggwork.Prelude.Bytes.{
  Bytes, cmp_bytes, cmp_bytes_refl, eq_of_cmp_bytes, cmp_bytes-gt, cmp_bytes-lt, cmp_bytes_trans,
}
use eggwork.Prelude.Distinct.{IsDistinct, eq_of_key}
use eggwork.Prelude.Sorting.{IsOrder, IsStrict, sort_by-Permᴰ}
use eggwork.Core.Environment.{EnvironmentEntry, DeclaredOutput}
use eggwork.Core.Command.{CommandSpec, ExecutionSpec, validate_command}
use eggwork.Core.Command.Valid.{validate_command_iff}
use eggwork.Core.Workspace.{WorkspaceEntry, raw_path, WorkspaceManifest}
use eggwork.Core.Workspace.Manifest.{validate_manifest}
use eggwork.Core.Workspace.Manifest.Valid.{validate_manifest_iff, IsDistinct-of_folded}
use eggwork.Core.Digest.{
  Hashing, le_of, entry_le, metadata_le, output_le, manifest_le, request_digest_with_workspace,
  manifest_digest,
}

bytes_total : (x y : Bytes) → le_of (cmp_bytes x y) ≡ false → le_of (cmp_bytes y x) ≡ true
bytes_total x y h = ground (arith, cmp_bytes-gt x y)

bytes_le_trans :
    (x y z : Bytes)
    → le_of (cmp_bytes x y) ≡ true
    → le_of (cmp_bytes y z) ≡ true
    → le_of (cmp_bytes x z) ≡ true
bytes_le_trans x y z h k =
    ground (arith, cmp_bytes_trans x y z, eq_of_cmp_bytes x y, eq_of_cmp_bytes y z)

bytes_le_antisymm :
    (x y : Bytes) → le_of (cmp_bytes x y) ≡ true → le_of (cmp_bytes y x) ≡ true → x ≡ y
bytes_le_antisymm x y h k = ground (arith, eq_of_cmp_bytes x y, cmp_bytes-lt x y)

key_IsOrder {ℓ} :
    {A : Type ℓ} (key : A → Bytes) → IsOrder (λ (a b : A). le_of (cmp_bytes (key a) (key b)))
key_IsOrder key = record {
  total = λ a b. bytes_total (key a) (key b);
  trans = λ a b c. bytes_le_trans (key a) (key b) (key c);
}

metadata_IsOrder : IsOrder metadata_le
metadata_IsOrder = record {
  total = λ a b h. ground (
    arith,
    cmp_bytes-gt a.0 b.0,
    cmp_bytes-gt a.1 b.1,
    eq_of_cmp_bytes a.0 b.0,
    cmp_bytes_refl a.0,
  );
  trans = λ a b c h k. ground (
    arith,
    cmp_bytes_trans a.0 b.0 c.0,
    eq_of_cmp_bytes a.0 b.0,
    eq_of_cmp_bytes b.0 c.0,
    bytes_le_trans a.1 b.1 c.1,
    cmp_bytes_refl a.0,
  );
}

metadata-IsStrict : (xs : List (Bytes × Bytes)) → IsStrict metadata_le xs
metadata-IsStrict xs a b m n h k = ground (
  arith,
  eq_of_cmp_bytes a.0 b.0,
  cmp_bytes-lt a.0 b.0,
  cmp_bytes_refl b.0,
  bytes_le_antisymm a.1 b.1,
)

output_IsOrder : IsOrder output_le
output_IsOrder = record {
  total = λ a b h. ground (
    arith,
    cmp_bytes-gt a.path.text b.path.text,
    eq_of_cmp_bytes a.path.text b.path.text,
    cmp_bytes_refl a.path.text,
  );
  trans = λ a b c h k. ground (
    arith,
    cmp_bytes_trans a.path.text b.path.text c.path.text,
    eq_of_cmp_bytes a.path.text b.path.text,
    eq_of_cmp_bytes b.path.text c.path.text,
    cmp_bytes_refl a.path.text,
  );
}

output-IsStrict : (xs : List DeclaredOutput) → IsStrict output_le xs
output-IsStrict xs a b m n h k = ground (
  arith,
  eq_of_cmp_bytes a.path.text b.path.text,
  cmp_bytes-lt a.path.text b.path.text,
  cmp_bytes_refl b.path.text,
)

key-IsStrict {ℓ} :
    {A : Type ℓ} (key : A → Bytes) (xs : List A)
    → IsDistinct (map key xs)
    → IsStrict (λ (a b : A). le_of (cmp_bytes (key a) (key b))) xs
key-IsStrict key xs d a b m n h k =
    eq_of_key key xs a b d m n (bytes_le_antisymm (key a) (key b) h k)

IsStrict-names : (c : CommandSpec) → validate_command c ≡ ok tt → IsStrict entry_le c.environment
IsStrict-names c v =
    key-IsStrict (λ (e : EnvironmentEntry). e.name) c.environment
      ((validate_command_iff c).0 v).env_distinct

-- A command specification that passes its validator has one digest, with or without a workspace, whatever the
-- order of its environment entries, declared outputs and metadata.
pub request_digest-Permᴰ :
    (h : Hashing) (s : ExecutionSpec) (environment : List EnvironmentEntry)
    (outputs : List DeclaredOutput) (metadata : List (Bytes × Bytes)) (workspace_id : Option Bytes)
    → validate_command s.command ≡ ok tt
    → Permᴰ s.command.environment environment
    → Permᴰ s.command.declared_outputs outputs
    → Permᴰ s.metadata metadata
    → request_digest_with_workspace h s workspace_id
      ≡ request_digest_with_workspace h
          (record s {
            command = record s.command { environment = environment; declared_outputs = outputs };
            metadata = metadata;
          })
          workspace_id
unfolding request_digest_with_workspace
request_digest-Permᴰ h s environment outputs metadata none v p q r = rw (
  sort_by-Permᴰ entry_le (key_IsOrder (λ e. e.name)) p (IsStrict-names s.command v),
  sort_by-Permᴰ output_le output_IsOrder q (output-IsStrict s.command.declared_outputs),
  sort_by-Permᴰ metadata_le metadata_IsOrder r (metadata-IsStrict s.metadata),
)
request_digest-Permᴰ h s environment outputs metadata (some w) v p q r = rw (
  sort_by-Permᴰ entry_le (key_IsOrder (λ e. e.name)) p (IsStrict-names s.command v),
  sort_by-Permᴰ output_le output_IsOrder q (output-IsStrict s.command.declared_outputs),
  sort_by-Permᴰ metadata_le metadata_IsOrder r (metadata-IsStrict s.metadata),
)

-- A manifest that passed its validator has the digest of every rearrangement of its entries.
pub manifest_digest-Permᴰ :
    (h : Hashing) (m : WorkspaceManifest) (entries : List WorkspaceEntry)
    → validate_manifest m ≡ ok tt
    → Permᴰ m.entries entries
    → manifest_digest h m ≡ manifest_digest h (record m { entries = entries })
unfolding manifest_digest
manifest_digest-Permᴰ h m entries v p =
    let d = IsDistinct-of_folded raw_path m.entries ((validate_manifest_iff m).0 v).distinct in
    rw (sort_by-Permᴰ manifest_le (key_IsOrder raw_path) p (key-IsStrict raw_path m.entries d))
