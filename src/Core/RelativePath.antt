-- ===== src/Core/RelativePath.antt =====
-- crates/eggwork-core/src/lib.rs: `RelativePath`.
pub mod Confined
use eggwork.Prelude.{◌||◌, Bool, ltb, ok, ◌>>◌, reject_if, length, any}
use eggwork.Prelude.Bytes.{Bytes, bytes, bytes_eq, is_empty, starts_with, contains, split}
use eggwork.Core.Error.{Checked, invalid_path}
use eggwork.Core.Limits.{max_path_bytes}

pub record RelativePath : Type 0 where
  pub text : Bytes

-- A path component that `RelativePath::new` refuses.
unfoldable pub is_special : Bytes → Bool
unfolding is_empty bytes_eq
is_special c = is_empty c || bytes_eq c (bytes ".") || bytes_eq c (bytes "..")

unfoldable pub new : Bytes → Checked RelativePath
unfolding is_empty starts_with contains split is_special
new value = do
  reject_if
      (is_empty value
        || ltb max_path_bytes (length value)
        || starts_with b'/' value
        || contains b'\\' value
        || contains 0 value)
      (invalid_path "relative path")
  reject_if (any is_special (split b'/' value)) (invalid_path "relative path")
  ok (record { text = value })
