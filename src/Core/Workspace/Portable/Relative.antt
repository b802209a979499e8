-- ===== src/Core/Workspace/Portable/Relative.antt =====
-- crates/eggwork-core/src/lib.rs: the paths that a manifest may hold are relative paths.
use eggwork.Prelude.{
  ◌≡◌, ◌≤◌, refl, true, false, not, ◌||◌, List, [], ◌∷◌, arith, ltb, any, length, ok, for_each,
  reject_if-eq-ok, >>-eq-ok,
}
use eggwork.Prelude.Bytes.{Bytes, is_empty, is_ascii, starts_with, contains, split}
use eggwork.Core.Limits.{max_path_bytes, max_workspace_depth}
use eggwork.Core.RelativePath.{is_special, new}
use eggwork.Core.Workspace.Portable.{is_unportable, check_component, validate_portable}

plain_component : (c : Bytes) → is_unportable c ≡ false → is_special c ≡ false
unfolding is_unportable is_special
plain_component c h = ground (arith, h)

plain_components :
    (cs : List Bytes) → for_each check_component cs ≡ ok tt → any is_special cs ≡ false
unfolding check_component
plain_components [] h = refl
plain_components (c ∷ cs) h =
    let (one, rest) = >>-eq-ok (check_component c) (for_each check_component cs) h in
    let (portable, named) = reject_if-eq-ok (is_unportable c) _ _ one in
    ground (arith, plain_component c portable, plain_components cs rest)

-- A path that `validate_portable_workspace_path` accepts is one that `RelativePath::new` keeps as
-- it is, of ASCII characters and with at most 128 components.
pub validate_portable-new :
    (p : Bytes)
    → validate_portable p ≡ ok tt
    → (new p ≡ ok (record { text = p }))
      × (is_ascii p ≡ true)
      × (length (split b'/' p) ≤ max_workspace_depth)
unfolding validate_portable new
validate_portable-new p h =
    let (head, components) =
      reject_if-eq-ok
        (is_empty p
          || ltb max_path_bytes (length p)
          || ltb max_workspace_depth (length (split b'/' p))
          || not (is_ascii p)
          || starts_with b'/' p
          || contains b'\\' p
          || contains 0 p)
        _ _ h in
    let plain = plain_components (split b'/' p) components in
    (ground (arith, head, plain), ground (arith, head), ground (arith, head))
