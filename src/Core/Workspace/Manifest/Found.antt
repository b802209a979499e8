-- ===== src/Core/Workspace/Manifest/Found.antt =====
-- crates/eggwork-core/src/lib.rs, `WorkspaceManifest::validate`: what the map of paths finds.
use mathlib.Core.Path.{subst}
use eggwork.Prelude.{
  ◌≡◌, ◌≢◌, refl, sym, ap, ◌∙◌, ◌⊎◌, inl, inr, Bool, true, List, [], ◌∷◌, Memᴰ, some, arith, All,
  Bool-cases,
}
use eggwork.Prelude.Bytes.{Bytes, bytes_eq, bytes_eq_iff}
use eggwork.Prelude.Distinct.{IsDistinct, bytes_eq_of_ne}
use eggwork.Prelude.TreeMap
use eggwork.Prelude.TreeMap.{TreeMap, get-insert}
use eggwork.Core.Workspace.{WorkspaceEntry, raw_path, raw_paths}
use eggwork.Core.Workspace.Manifest.{is_directory}

-- Some entry of the list is a directory at the path.
abbrev pub HasDirectory : Bytes → List WorkspaceEntry → Type 0
HasDirectory q es = (e : WorkspaceEntry) × Memᴰ e es × (raw_path e ≡ q) × (is_directory e ≡ true)

-- The map that the first loop leaves.
abbrev pub insert_all : TreeMap Bool → List WorkspaceEntry → TreeMap Bool
insert_all m [] = m
insert_all m (e ∷ es) = insert_all (TreeMap.insert (raw_path e) (is_directory e) m) es

later :
    (q : Bytes) (e : WorkspaceEntry) (es : List WorkspaceEntry)
    → HasDirectory q es
    → HasDirectory q (e ∷ es)
later q e es (d, m, p, t) = (d, Memᴰ.tail m, p, t)

pub get-insert_all :
    (q : Bytes) (m : TreeMap Bool) (es : List WorkspaceEntry)
    → TreeMap.get q (insert_all m es) ≡ some true
    → HasDirectory q es ⊎ (TreeMap.get q m ≡ some true)
get-insert_all q m [] h = inr h
get-insert_all q m (e ∷ es) h =
    elim (get-insert_all q (TreeMap.insert (raw_path e) (is_directory e) m) es h) [
      | inl d ↦ inl (later q e es d)
      | inr g ↦ elim (Bool-cases (bytes_eq q (raw_path e))) [
        | inl same ↦ inl (
          e,
          Memᴰ.head refl,
          sym ((bytes_eq_iff q (raw_path e)).0 same),
          ground (arith, get-insert q (raw_path e) (is_directory e) m),
        )
        | inr other ↦ inr (ground (arith, get-insert q (raw_path e) (is_directory e) m))
      ]
    ]

get_untouched :
    (q : Bytes) (m : TreeMap Bool) (es : List WorkspaceEntry)
    → All (λ p. q ≢ p) (raw_paths es)
    → TreeMap.get q (insert_all m es) ≡ TreeMap.get q m
get_untouched q m [] h = refl
get_untouched q m (e ∷ es) h =
    get_untouched q (TreeMap.insert (raw_path e) (is_directory e) m) es h.1
    ∙ ground
        (arith, get-insert q (raw_path e) (is_directory e) m, bytes_eq_of_ne q (raw_path e) h.0)

pub HasDirectory-get :
    (q : Bytes) (m : TreeMap Bool) (es : List WorkspaceEntry)
    → IsDistinct (raw_paths es)
    → HasDirectory q es
    → TreeMap.get q (insert_all m es) ≡ some true
HasDirectory-get q m [] d (e, n, p, t) = elim n [ ]
HasDirectory-get q m (x ∷ es) d (e, Memᴰ.head f, p, t) =
    get_untouched q (TreeMap.insert (raw_path x) (is_directory x) m) es
      (subst (λ k. All (λ y. k ≢ y) (raw_paths es)) (ap raw_path (sym f) ∙ p) d.0)
    ∙ get-insert q (raw_path x) (is_directory x) m
    ∙ ground (arith, (bytes_eq_iff q (raw_path x)).1 (sym p ∙ ap raw_path f), ap is_directory f)
HasDirectory-get q m (x ∷ es) d (e, Memᴰ.tail n, p, t) =
    HasDirectory-get q (TreeMap.insert (raw_path x) (is_directory x) m) es d.1 (e, n, p, t)
