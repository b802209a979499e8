-- ===== src/Core/Workspace/Patch/Outcome.antt =====
-- crates/eggwork-core/src/lib.rs, `WorkspaceManifestPatch::apply_to`: the manifest that results.
use Prim.Native.Nat.{Ordering}
use mathlib.Core.Path.{subst, ap₂}
use eggwork.Prelude.{
  ◌≡◌, ◌≢◌, refl, sym, ap, ◌∙◌, ◌⊎◌, Bool, true, false, List, [], ◌∷◌, map, Option, none, some,
  arith, All, ok, >>-eq-ok, Bool-cases, inl, inr, if◌then◌else◌,
}
use eggwork.Prelude.Bytes.{
  Bytes, bytes_eq, bytes_eq_iff, cmp_bytes, cmp_bytes_refl, cmp_bytes_trans, eq_of_cmp_bytes,
}
use eggwork.Prelude.Distinct.{IsDistinct, repeats-IsDistinct, bytes_eq_of_ne}
use eggwork.Prelude.Sorting.{IsSorted}
use eggwork.Prelude.TreeMap
use eggwork.Prelude.TreeMap.{
  TreeMap, Ordering-cases, IsOrdered, Above, TreeMap-ext, get-insert, insert-IsOrdered,
}
use eggwork.Core.Workspace.{WorkspaceEntry, file, raw_path, WorkspaceManifest}
use eggwork.Core.Workspace.Manifest.{validate_manifest}
use eggwork.Core.Workspace.Patch.{
  PatchEntry, remove, upsert_directory, upsert_file, patch_path, ManifestPatch, validate_patch,
  Tree, base_tree, apply_entry, apply_entries, apply_to,
}
use eggwork.Core.Workspace.Patch.Order.{
  outcome, apply_entry-IsOrdered, apply_entries-IsOrdered, base_tree-IsOrdered, get-apply_entry,
}

-- Every entry stands at its own path.
abbrev pub IsKeyed : Tree → Type 0
IsKeyed = All (λ e. raw_path e.1 ≡ e.0)

insert-IsKeyed :
    (k : Bytes) (e : WorkspaceEntry) (t : Tree)
    → raw_path e ≡ k
    → IsKeyed t
    → IsKeyed (TreeMap.insert k e t)
unfolding TreeMap.insert
insert-IsKeyed k e [] h a = (h, tt)
insert-IsKeyed k e ((j, w) ∷ t) h a = ground (arith, insert-IsKeyed k e t h a.1)

remove-IsKeyed : (k : Bytes) (t : Tree) → IsKeyed t → IsKeyed (TreeMap.remove k t)
unfolding TreeMap.remove
remove-IsKeyed k [] a = tt
remove-IsKeyed k ((j, w) ∷ t) a = ground (arith, remove-IsKeyed k t a.1)

apply_entry-IsKeyed : (t : Tree) (e : PatchEntry) → IsKeyed t → IsKeyed (apply_entry t e)
unfolding apply_entry
apply_entry-IsKeyed t (remove p) a = remove-IsKeyed p.text t a
apply_entry-IsKeyed t (upsert_directory p) a = insert-IsKeyed p.text _ t refl a
apply_entry-IsKeyed t (upsert_file p digest size executable) a =
    insert-IsKeyed p.text (file p digest size executable) t refl a

apply_entries-IsKeyed : (t : Tree) (es : List PatchEntry) → IsKeyed t → IsKeyed (apply_entries t es)
unfolding apply_entries
apply_entries-IsKeyed t [] a = a
apply_entries-IsKeyed t (e ∷ es) a =
    apply_entries-IsKeyed (apply_entry t e) es (apply_entry-IsKeyed t e a)

base_tree-IsKeyed : (t : Tree) (es : List WorkspaceEntry) → IsKeyed t → IsKeyed (base_tree t es)
unfolding base_tree
base_tree-IsKeyed t [] a = a
base_tree-IsKeyed t (e ∷ es) a =
    base_tree-IsKeyed (TreeMap.insert (raw_path e) e t) es (insert-IsKeyed (raw_path e) e t refl a)

-- What `lookup` finds in the tree of a list of entries: the last one at the path.
abbrev pub last_at : Bytes → List WorkspaceEntry → Option WorkspaceEntry → Option WorkspaceEntry
last_at q [] found = found
last_at q (e ∷ es) found = last_at q es (if bytes_eq q (raw_path e) then some e else found)

pub get-base_tree :
    (q : Bytes) (t : Tree) (es : List WorkspaceEntry)
    → TreeMap.get q (base_tree t es) ≡ last_at q es (TreeMap.get q t)
unfolding base_tree
get-base_tree q t [] = refl
get-base_tree q t (e ∷ es) =
    get-base_tree q (TreeMap.insert (raw_path e) e t) es
    ∙ ap (last_at q es) (get-insert q (raw_path e) e t)

last_at_absent :
    (q : Bytes) (t : Tree) (found : Option WorkspaceEntry)
    → All (λ e. bytes_eq q (raw_path e.1) ≡ false) t
    → last_at q (TreeMap.values t) found ≡ found
unfolding TreeMap.values
last_at_absent q [] found h = refl
last_at_absent q (e ∷ t) found h = ground (arith, h.0, last_at_absent q t found h.1)

-- Keys beyond one that is not before `q` are not `q`.
beyond :
    (q k : Bytes) (t : Tree)
    → (cmp_bytes q k ≡ Ordering.lt) ⊎ (q ≡ k)
    → Above k t
    → IsKeyed t
    → All (λ e. bytes_eq q (raw_path e.1) ≡ false) t
beyond q k [] h a b = tt
beyond q k ((j, w) ∷ t) h a b = (bytes_eq_of_ne q (raw_path w) differ, beyond q k t h a.1 b.1)
  where
    differ : q ≢ raw_path w
    differ e = elim h [
      | inl before ↦
          let loop = cmp_bytes_trans q k j before a.0 in
          ground (arith, loop, cmp_bytes_refl q, e ∙ b.0)
      | inr same ↦ ground (arith, a.0, cmp_bytes_refl k, sym same ∙ e ∙ b.0)
    ]

abbrev or_found : Option WorkspaceEntry → Option WorkspaceEntry → Option WorkspaceEntry
or_found none found = found
or_found (some e) found = some e

last_at-values :
    (q : Bytes) (t : Tree) (found : Option WorkspaceEntry)
    → IsKeyed t
    → IsOrdered t
    → last_at q (TreeMap.values t) found ≡ or_found (TreeMap.get q t) found
unfolding TreeMap.values TreeMap.get
last_at-values q [] found a o = refl
last_at-values q ((j, w) ∷ t) found a o = elim (Ordering-cases (cmp_bytes q j)) [
  | inl c ↦
      last_at_absent q t _ (beyond q j t (inl c) o.0 a.1)
      ∙ ground (arith, c, bytes_eq_iff q (raw_path w), a.0, cmp_bytes_refl j)
  | inr (inl c) ↦
      let e = eq_of_cmp_bytes q j c in
      last_at_absent q t _ (beyond q j t (inr e) o.0 a.1)
      ∙ ground (arith, c, (bytes_eq_iff q (raw_path w)).1 (e ∙ sym a.0))
  | inr (inr c) ↦
      let miss : bytes_eq q (raw_path w) ≡ false =
        bytes_eq_of_ne q (raw_path w) (λ e. ground (arith, c, cmp_bytes_refl j, e ∙ a.0)) in
      ground (arith, miss, c, last_at-values q t found a.1 o.1)
]

-- What a path holds after the patch: what its patch entry says, or else what it held.
abbrev pub patched : Bytes → List PatchEntry → Option WorkspaceEntry → Option WorkspaceEntry
patched q [] found = found
patched q (e ∷ es) found = if bytes_eq q (patch_path e) then outcome e else patched q es found

absent :
    (q : Bytes) (t : Tree) (es : List PatchEntry)
    → IsOrdered t
    → All (λ p. q ≢ p) (map patch_path es)
    → TreeMap.get q (apply_entries t es) ≡ TreeMap.get q t
unfolding apply_entries
absent q t [] o h = refl
absent q t (e ∷ es) o h =
    absent q (apply_entry t e) es (apply_entry-IsOrdered t e o) h.1
    ∙ ground (arith, get-apply_entry q t e o, bytes_eq_of_ne q (patch_path e) h.0)

get-apply_entries :
    (q : Bytes) (t : Tree) (es : List PatchEntry)
    → IsOrdered t
    → IsDistinct (map patch_path es)
    → TreeMap.get q (apply_entries t es) ≡ patched q es (TreeMap.get q t)
unfolding apply_entries
get-apply_entries q t [] o d = refl
get-apply_entries q t (e ∷ es) o d = elim (Bool-cases (bytes_eq q (patch_path e))) [
  | inl same ↦
      let e' : patch_path e ≡ q = sym ((bytes_eq_iff q (patch_path e)).0 same) in
      absent q (apply_entry t e) es (apply_entry-IsOrdered t e o)
        (subst (λ k. All (λ p. k ≢ p) (map patch_path es)) e' d.0)
      ∙ ground (arith, get-apply_entry q t e o, same)
  | inr other ↦
      get-apply_entries q (apply_entry t e) es (apply_entry-IsOrdered t e o) d.1
      ∙ rw (get-apply_entry q t e o, other)
]

-- The order of paths.
abbrev pub path_le : WorkspaceEntry → WorkspaceEntry → Bool
path_le a b = elim (cmp_bytes (raw_path a) (raw_path b)) [ Ordering.gt ↦ false | _ ↦ true ]

values-IsSorted : (t : Tree) → IsKeyed t → IsOrdered t → IsSorted path_le (TreeMap.values t)
unfolding TreeMap.values
values-IsSorted [] a o = tt
values-IsSorted ((j, w) ∷ t) a o = (above t a.1 o.0, values-IsSorted t a.1 o.1)
  where
    above : (u : Tree) → IsKeyed u → Above j u → All (λ e. path_le w e ≡ true) (TreeMap.values u)
    above [] b h = tt
    above ((k, v) ∷ u) b h =
        let lt : cmp_bytes (raw_path w) (raw_path v) ≡ Ordering.lt = ap₂ cmp_bytes a.0 b.0 ∙ h.0 in
        (ground (arith, lt), above u b.1 h.1)

-- A patch that applies leaves a manifest that passes the validator, lists its entries in the order
-- of their paths, and holds at every path what the patch entry for that path says, or what the base
-- manifest held where the patch has no entry for it.
pub apply_to-outcome :
    (p : ManifestPatch) (base m : WorkspaceManifest)
    → apply_to p base ≡ ok m
    → (validate_manifest m ≡ ok tt)
      × IsSorted path_le m.entries
      × ((q : Bytes) → last_at q m.entries none ≡ patched q p.entries (last_at q base.entries none))
unfolding apply_to validate_patch TreeMap.get
apply_to-outcome p base m h =
    let tree = apply_entries (base_tree [] base.entries) p.entries in
    let final : WorkspaceManifest = record { schema_version = 1; entries = TreeMap.values tree } in
    let (fine, h₁) = >>-eq-ok (validate_patch p) _ h in
    let (good, e) = >>-eq-ok (validate_manifest final) _ h₁ in
    let same : m ≡ final = ground (arith, e) in
    let start = base_tree-IsOrdered [] base.entries tt in
    let keyed =
      apply_entries-IsKeyed (base_tree [] base.entries) p.entries
        (base_tree-IsKeyed [] base.entries tt) in
    let ordered = apply_entries-IsOrdered (base_tree [] base.entries) p.entries start in
    rw same (
      good,
      values-IsSorted tree keyed ordered,
      λ q.
          last_at-values q tree none keyed ordered
          ∙ or_none (TreeMap.get q tree)
          ∙ get-apply_entries q (base_tree [] base.entries) p.entries start (distinct fine)
          ∙ ap (patched q p.entries) (get-base_tree q [] base.entries),
    )
  where
    or_none : (o : Option WorkspaceEntry) → or_found o none ≡ o
    or_none none = refl
    or_none (some e) = refl

    distinct : validate_patch p ≡ ok tt → IsDistinct (map patch_path p.entries)
    distinct v = repeats-IsDistinct (map patch_path p.entries) (ground arith)
