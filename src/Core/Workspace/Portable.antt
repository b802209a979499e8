-- ===== src/Core/Workspace/Portable.antt =====
-- crates/eggwork-core/src/lib.rs: `validate_portable_workspace_path`.
pub mod Relative
use eggwork.Prelude.{
  ℕ, ◌==◌, Bool, false, not, ◌||◌, List, [], ◌∷◌, Option, none, some, ltb, any, length, reject_if,
  for_each, ◌>>◌,
}
use eggwork.Prelude.Bytes.{
  Bytes, bytes, bytes_eq, is_empty, is_ascii, starts_with, ends_with, contains, split, split_first,
  strip_prefix, to_ascii_uppercase,
}
use eggwork.Core.Error.{Validation, invalid_path}
use eggwork.Core.Limits.{max_path_bytes, max_workspace_depth}

-- `byte < 0x20 || matches!(byte, b'<' | b'>' | b':' | b'"' | b'|' | b'?' | b'*')`
abbrev is_forbidden_byte : ℕ → Bool
is_forbidden_byte b =
    ltb b 0x20
    || b == b'<'
    || b == b'>'
    || b == b':'
    || b == 0x22
    || b == b'|'
    || b == b'?'
    || b == b'*'

-- A component that no portable path has.
unfoldable pub is_unportable : Bytes → Bool
unfolding is_empty bytes_eq ends_with
is_unportable c =
    is_empty c
    || bytes_eq c (bytes ".")
    || bytes_eq c (bytes "..")
    || ends_with b'.' c
    || ends_with b' ' c
    || any is_forbidden_byte c

abbrev device_names : List Bytes
device_names =
    bytes "CON"
    ∷ bytes "PRN"
    ∷ bytes "AUX"
    ∷ bytes "NUL"
    ∷ bytes "CONIN$"
    ∷ bytes "CONOUT$"
    ∷ bytes "CLOCK$"
    ∷ []

-- `matches!(number, "1" | … | "9")`
abbrev is_port_number : Bytes → Bool
is_port_number [] = false
is_port_number (d ∷ []) =
    d == b'1'
    || d == b'2'
    || d == b'3'
    || d == b'4'
    || d == b'5'
    || d == b'6'
    || d == b'7'
    || d == b'8'
    || d == b'9'
is_port_number (d ∷ e ∷ ds) = false

abbrev or_else : Option Bytes → Option Bytes → Option Bytes
or_else none other = other
or_else (some x) other = some x

abbrev is_some_and : (Bytes → Bool) → Option Bytes → Bool
is_some_and p none = false
is_some_and p (some x) = p x

-- The name that Windows reads before the first dot, whatever its case.
unfoldable pub is_device : Bytes → Bool
unfolding bytes_eq split_first strip_prefix to_ascii_uppercase
is_device c =
    let basename = to_ascii_uppercase (split_first b'.' c) in
    any (bytes_eq basename) device_names
    || is_some_and is_port_number
        (or_else (strip_prefix (bytes "COM") basename) (strip_prefix (bytes "LPT") basename))

unfoldable pub check_component : Bytes → Validation
unfolding is_unportable is_device
check_component c = do
  reject_if (is_unportable c) (invalid_path "portable workspace path")
  reject_if (is_device c) (invalid_path "reserved workspace path")

-- `validate_portable_workspace_path`
unfoldable pub validate_portable : Bytes → Validation
unfolding check_component is_empty is_ascii starts_with contains split
validate_portable p = do
  reject_if
      (is_empty p
        || ltb max_path_bytes (length p)
        || ltb max_workspace_depth (length (split b'/' p))
        || not (is_ascii p)
        || starts_with b'/' p
        || contains b'\\' p
        || contains 0 p)
      (invalid_path "portable workspace path")
  for_each check_component (split b'/' p)
