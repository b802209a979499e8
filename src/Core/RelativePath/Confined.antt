-- ===== src/Core/RelativePath/Confined.antt =====
-- crates/eggwork-core/src/lib.rs, `RelativePath`: an accepted path stays below its base directory.
use mathlib.Core.List.{reverse, reverse-cons, append_assoc}
use eggwork.Prelude.{
  ◌≤◌, ◌≡◌, refl, sym, ap, ◌∙◌, false, ◌||◌, List, [], ◌∷◌, ◌++◌, Option, none, some, arith,
  if◌then◌else◌, ltb, any, length, ok, reject_if-eq-ok,
}
use eggwork.Prelude.Bytes.{Bytes, bytes, bytes_eq, is_empty, starts_with, contains, split}
use eggwork.Core.Limits.{max_path_bytes}
use eggwork.Core.RelativePath.{RelativePath, is_special, new}

-- How a file system reads a path from a directory (its components, innermost first): empty and `.`
-- components stay, `..` leaves the directory, and `none` is an escape above the root.
unfoldable pub walk : List Bytes → List Bytes → Option (List Bytes)
walk dir [] = some dir
walk dir (c ∷ cs) =
    let stay = walk dir cs in
    let enter = walk (c ∷ dir) cs in
    let leave : Option (List Bytes) = elim dir [ [] ↦ none | _ ∷ parent ↦ walk parent cs ] in
    if is_empty c || bytes_eq c (bytes ".")
    then stay
    else if bytes_eq c (bytes "..")
    then leave
    else enter

walk_plain :
    (dir cs : List Bytes) → any is_special cs ≡ false → walk dir cs ≡ some (reverse cs ++ dir)
unfolding walk is_special
walk_plain dir [] h = refl
walk_plain dir (c ∷ cs) h =
    ground (arith, walk_plain (c ∷ dir) cs)
    ∙ ap some
        (sym (ap (λ l. l ++ dir) (reverse-cons c cs) ∙ append_assoc (reverse cs) (c ∷ []) dir))

-- A path that `RelativePath::new` accepts is kept as it is, within its length limit, and from any
-- directory a file system that follows its components ends below that directory, having entered
-- each component in turn and left none.
pub new-confined :
    (value : Bytes) (r : RelativePath) (dir : List Bytes)
    → new value ≡ ok r
    → (r.text ≡ value)
      × (length r.text ≤ max_path_bytes)
      × (walk dir (split b'/' r.text) ≡ some (reverse (split b'/' r.text) ++ dir))
unfolding new
new-confined value r dir h =
    let (short, h') =
      reject_if-eq-ok
        (is_empty value
          || ltb max_path_bytes (length value)
          || starts_with b'/' value
          || contains b'\\' value
          || contains 0 value)
        _ _ h in
    let (plain, e) = reject_if-eq-ok (any is_special (split b'/' value)) _ _ h' in
    let text : r.text ≡ value = ground arith in
    (text, rw text (ground arith), rw text (walk_plain dir (split b'/' value) plain))
