-- ===== src/Core/Workspace/Patch/Order.antt =====
-- crates/eggwork-core/src/lib.rs, `WorkspaceManifestPatch::apply_to`: what a patch makes of a tree,
-- and that the order of its entries makes no difference.
use eggwork.Prelude.{
  ◌≡◌, ◌≢◌, refl, sym, ap, ◌∙◌, List, [], ◌∷◌, map, Permᴰ, Option, none, some, arith, length-Permᴰ,
  Bool-cases, inl, inr, if◌then◌else◌,
}
use eggwork.Prelude.Bytes.{Bytes, bytes_eq, bytes_eq_iff}
use eggwork.Prelude.Distinct.{
  repeats, IsDistinct, repeats-IsDistinct, IsDistinct-repeats, IsDistinct-Permᴰ, map-Permᴰ,
}
use mathlib.Core.List.Permᴰ
use eggwork.Prelude.TreeMap
use eggwork.Prelude.TreeMap.{
  IsOrdered, get-insert, get-remove, insert-IsOrdered, remove-IsOrdered, TreeMap-ext,
}
use eggwork.Core.Workspace.{WorkspaceEntry, directory, file, raw_path, WorkspaceManifest}
use eggwork.Core.Workspace.Patch.{
  PatchEntry, remove, upsert_directory, upsert_file, patch_path, ManifestPatch, validate_patch,
  Tree, base_tree, apply_entry, apply_entries, apply_to,
}

-- What stands at the path of a patch entry once it has been applied.
abbrev pub outcome : PatchEntry → Option WorkspaceEntry
outcome (remove p) = none
outcome (upsert_directory p) = some (directory p)
outcome (upsert_file p digest size executable) = some (file p digest size executable)

pub apply_entry-IsOrdered : (t : Tree) (e : PatchEntry) → IsOrdered t → IsOrdered (apply_entry t e)
unfolding apply_entry
apply_entry-IsOrdered t (remove p) o = remove-IsOrdered p.text t o
apply_entry-IsOrdered t (upsert_directory p) o = insert-IsOrdered p.text _ t o
apply_entry-IsOrdered t (upsert_file p digest size executable) o = insert-IsOrdered p.text _ t o

pub apply_entries-IsOrdered :
    (t : Tree) (es : List PatchEntry) → IsOrdered t → IsOrdered (apply_entries t es)
unfolding apply_entries
apply_entries-IsOrdered t [] o = o
apply_entries-IsOrdered t (e ∷ es) o =
    apply_entries-IsOrdered (apply_entry t e) es (apply_entry-IsOrdered t e o)

pub base_tree-IsOrdered :
    (t : Tree) (es : List WorkspaceEntry) → IsOrdered t → IsOrdered (base_tree t es)
unfolding base_tree
base_tree-IsOrdered t [] o = o
base_tree-IsOrdered t (e ∷ es) o =
    base_tree-IsOrdered (TreeMap.insert (raw_path e) e t) es (insert-IsOrdered (raw_path e) e t o)

pub get-apply_entry :
    (q : Bytes) (t : Tree) (e : PatchEntry)
    → IsOrdered t
    → TreeMap.get q (apply_entry t e)
      ≡ (if bytes_eq q (patch_path e) then outcome e else TreeMap.get q t)
unfolding apply_entry
get-apply_entry q t (remove p) o = get-remove q p.text t o
get-apply_entry q t (upsert_directory p) o = get-insert q p.text _ t
get-apply_entry q t (upsert_file p digest size executable) o = get-insert q p.text _ t

apply_entry_comm :
    (t : Tree) (d e : PatchEntry)
    → IsOrdered t
    → patch_path d ≢ patch_path e
    → apply_entry (apply_entry t d) e ≡ apply_entry (apply_entry t e) d
apply_entry_comm t d e o n =
    TreeMap-ext _ _ (apply_entry-IsOrdered _ e od) (apply_entry-IsOrdered _ d oe) λ q. ground (
      arith,
      get-apply_entry q (apply_entry t d) e od,
      get-apply_entry q (apply_entry t e) d oe,
      get-apply_entry q t d o,
      get-apply_entry q t e o,
      bytes_eq_iff q (patch_path d),
      bytes_eq_iff q (patch_path e),
    )
  where
    od : IsOrdered (apply_entry t d)
    od = apply_entry-IsOrdered t d o

    oe : IsOrdered (apply_entry t e)
    oe = apply_entry-IsOrdered t e o

apply_entries-Permᴰ :
    (t : Tree) {xs ys : List PatchEntry}
    → IsOrdered t
    → Permᴰ xs ys
    → IsDistinct (map patch_path xs)
    → apply_entries t xs ≡ apply_entries t ys
unfolding apply_entries
apply_entries-Permᴰ t o Permᴰ.nil d = refl
apply_entries-Permᴰ t o (Permᴰ.cons {a = a} {l₂ = l} e p) d =
    apply_entries-Permᴰ (apply_entry t a) (apply_entry-IsOrdered t a o) p d.1
    ∙ ap (λ x. apply_entries (apply_entry t x) l) e
apply_entries-Permᴰ t o (Permᴰ.swap {a = a} {b = b} {l = l} e f) d =
    let flip = apply_entry_comm t a b o d.0.0 in ap (λ u. apply_entries u l) flip ∙ cc (e, f)
apply_entries-Permᴰ t o (Permᴰ.trans p q) d =
    apply_entries-Permᴰ t o p d
    ∙ apply_entries-Permᴰ t o q (IsDistinct-Permᴰ (map-Permᴰ patch_path p) d)

repeats-Permᴰ :
    {xs ys : List PatchEntry}
    → Permᴰ xs ys
    → repeats [] (map patch_path xs) ≡ repeats [] (map patch_path ys)
repeats-Permᴰ {xs} {ys} p = elim (Bool-cases (repeats [] (map patch_path xs))) [
  | inl r ↦ elim (Bool-cases (repeats [] (map patch_path ys))) [
    | inl s ↦ r ∙ sym s
    | inr s ↦
        let d =
          IsDistinct-Permᴰ (map-Permᴰ patch_path (Permᴰ.symm p))
            (repeats-IsDistinct (map patch_path ys) s) in
        IsDistinct-repeats (map patch_path xs) d ∙ sym s
  ]
  | inr r ↦
      let d =
        IsDistinct-Permᴰ (map-Permᴰ patch_path p) (repeats-IsDistinct (map patch_path xs) r) in
      r ∙ sym (IsDistinct-repeats (map patch_path ys) d)
]

-- The same patch with its entries in another order gives the same manifest, or the same error.
pub apply_to-Permᴰ :
    (p : ManifestPatch) (ys : List PatchEntry) (base : WorkspaceManifest)
    → Permᴰ p.entries ys
    → apply_to p base ≡ apply_to (record p { entries = ys }) base
unfolding apply_to validate_patch
apply_to-Permᴰ p ys base q = elim (Bool-cases (repeats [] (map patch_path p.entries))) [
  | inl twice ↦ ground (arith, twice, repeats-Permᴰ q, length-Permᴰ q)
  | inr once ↦
      let tree =
        apply_entries-Permᴰ (base_tree [] base.entries) (base_tree-IsOrdered [] base.entries tt) q
          (repeats-IsDistinct (map patch_path p.entries) once) in
      rw (length-Permᴰ q, repeats-Permᴰ q, tree)
]
