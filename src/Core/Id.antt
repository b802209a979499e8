-- ===== src/Core/Id.antt =====
-- crates/eggwork-core/src/lib.rs: the identifier newtypes (`id_type!`), `ExecutionGeneration` and
-- `BlobDigest`. The six identifier types share one body, and differ in the label of their errors.
use eggwork.Prelude.{ℕ, String, Bool, not, ◌&&◌, ◌||◌, ltb, ◌==◌, all, length, ok, ◌>>◌, reject_if}
use eggwork.Prelude.Bytes.{
  Bytes, is_empty, is_ascii_alphanumeric, is_ascii_hexdigit, is_ascii_uppercase,
}
use eggwork.Core.Error.{Checked, empty, too_long, invalid_syntax, out_of_range}
use eggwork.Core.Limits.{max_id_bytes}

-- The bytes that an identifier may hold.
unfoldable pub is_id_byte : ℕ → Bool
is_id_byte b = is_ascii_alphanumeric b || (b == b'-' || b == b'_' || b == b'.' || b == b':')

-- `$name::new`, at the label of one of the identifier types.
unfoldable pub new_id : String → Bytes → Checked Bytes
unfolding is_empty
new_id label value = do
  reject_if (is_empty value) (empty label)
  reject_if (ltb max_id_bytes (length value)) (too_long label max_id_bytes)
  reject_if (not (all is_id_byte value)) (invalid_syntax label)
  ok value

-- `ExecutionGeneration::new`
unfoldable pub new_generation : ℕ → Checked ℕ
new_generation value = do reject_if (value == 0) (out_of_range "execution generation"); ok value

abbrev pub is_digest_byte : ℕ → Bool
is_digest_byte b = is_ascii_hexdigit b && not (is_ascii_uppercase b)

-- `BlobDigest::parse`
unfoldable pub parse_digest : Bytes → Checked Bytes
parse_digest value = do
  reject_if (not (length value == 64) || not (all is_digest_byte value))
      (invalid_syntax "sha256 blob digest")
  ok value
