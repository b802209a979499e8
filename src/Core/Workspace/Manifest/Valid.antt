-- ===== src/Core/Workspace/Manifest/Valid.antt =====
-- crates/eggwork-core/src/lib.rs, `WorkspaceManifest::validate`: exactly which manifests pass.
use eggwork.Prelude.{
  ℕ, ◌+◌, ◌≤◌, ◌≡◌, ◌↔◌, refl, ap, ◌∙◌, ◌≢◌, ◌⊎◌, inl, inr, saturating_add, ◌==◌, ◌++◌, Bool, true,
  false, not, List, [], ◌∷◌, map, some, arith, ltb, All, All-map, length, ok, for_each, >>=-eq-ok,
  >>-eq-ok, reject_if-eq-ok, Bool-cases, if◌then◌else◌,
}
use eggwork.Prelude.Bytes.{Bytes, to_ascii_lowercase}
use eggwork.Core.Error.{Validation}
use eggwork.Prelude.Distinct.{IsDistinct, repeats-IsDistinct, IsDistinct-repeats}
use eggwork.Prelude.TreeMap
use eggwork.Prelude.TreeMap.{TreeMap}
use eggwork.Core.Limits.{
  max_workspace_entries, max_workspace_path_bytes, max_workspace_logical_bytes,
}
use eggwork.Core.Workspace.{WorkspaceEntry, raw_path, raw_paths, WorkspaceManifest}
use eggwork.Core.Workspace.Portable.{validate_portable}
use eggwork.Core.Workspace.Manifest.{
  start, scan, check_parents, validate_manifest, size_bytes, add_sizes, logical_bytes,
}
use eggwork.Core.Workspace.Manifest.Found.{
  HasDirectory, insert_all, get-insert_all, HasDirectory-get,
}
use eggwork.Core.Workspace.Manifest.Scanned.{
  start-IsScan, folded_paths, is_symlink, path_bytes, file_bytes, Scanned, scan-Scanned,
  Scanned-scan,
}

-- The directories above a path: what stands before each separator.
abbrev pub parents_after : Bytes → Bytes → List Bytes
parents_after before [] = []
parents_after before (b ∷ rest) =
    let later = parents_after (before ++ b ∷ []) rest in if b == b'/' then before ∷ later else later

abbrev pub parents : Bytes → List Bytes
parents = parents_after []

-- A valid manifest: within its limits, of portable paths that differ also where case is ignored,
-- without symbolic links, and with an entry for each directory that a path goes through.
pub record ManifestIsValid (m : WorkspaceManifest) : Type 0 where
  pub version : m.schema_version ≡ 1
  pub count : length m.entries ≤ max_workspace_entries
  pub portable : All (λ e. validate_portable (raw_path e) ≡ ok tt) m.entries
  pub distinct : IsDistinct (folded_paths m.entries)
  pub plain : All (λ e. is_symlink e ≡ false) m.entries
  pub path_total : path_bytes m.entries ≤ max_workspace_path_bytes
  pub file_total : file_bytes m.entries ≤ max_workspace_logical_bytes
  pub closed : All (λ e. All (λ q. HasDirectory q m.entries) (parents (raw_path e))) m.entries

module _ (paths : TreeMap Bool) where
  check_parents_iff :
      (before rest : Bytes)
      → (check_parents paths before rest ≡ ok tt)
        ↔ All (λ q. TreeMap.get q paths ≡ some true) (parents_after before rest)
  unfolding check_parents
  check_parents_iff before [] = (λ h. tt, λ h. refl)
  check_parents_iff before (b ∷ rest) =
      let later = check_parents_iff (before ++ b ∷ []) rest in
      elim (Bool-cases (b == b'/')) [
        | inl e ↦ rw e (λ h. (ground arith, later.0 (ground arith)), λ h. rw h.0 (later.1 h.1))
        | inr e ↦ rw e later
      ]

module _ {ℓ} {A : Type ℓ} where
  -- A loop of checks passes when each check does.
  for_each-eq-ok :
      (check : A → Validation) (xs : List A)
      → (for_each check xs ≡ ok tt) ↔ All (λ x. check x ≡ ok tt) xs
  for_each-eq-ok check [] = (λ h. tt, λ h. refl)
  for_each-eq-ok check (x ∷ xs) = (
    λ h.
        let (one, rest) = >>-eq-ok (check x) (for_each check xs) h in
        (one, (for_each-eq-ok check xs).0 rest),
    λ h. rw h.0 ((for_each-eq-ok check xs).1 h.1),
  )

  -- Texts that differ when folded differ.
  pub IsDistinct-of_folded :
      (key : A → Bytes) (xs : List A)
      → IsDistinct (map (λ x. to_ascii_lowercase (key x)) xs)
      → IsDistinct (map key xs)
  IsDistinct-of_folded key [] d = tt
  IsDistinct-of_folded key (x ∷ xs) d = (differ xs d.0, IsDistinct-of_folded key xs d.1)
    where
      differ :
          (ys : List A)
          → All (λ z. to_ascii_lowercase (key x) ≢ z) (map (λ y. to_ascii_lowercase (key y)) ys)
          → All (λ z. key x ≢ z) (map key ys)
      differ [] h = tt
      differ (y ∷ ys) h = (λ e. h.0 (ap to_ascii_lowercase e), differ ys h.1)

closed_iff :
    (m : WorkspaceManifest)
    → IsDistinct (folded_paths m.entries)
    → (for_each (λ e. check_parents (insert_all [] m.entries) [] (raw_path e)) m.entries ≡ ok tt)
      ↔ All (λ e. All (λ q. HasDirectory q m.entries) (parents (raw_path e))) m.entries
closed_iff m d = (
  λ h.
      All-map
        (λ e p.
          All-map (λ q g. or_none q (get-insert_all q [] m.entries g)) (parents (raw_path e))
            ((check_parents_iff paths [] (raw_path e)).0 p))
        m.entries ((for_each-eq-ok check m.entries).0 h),
  λ h. (for_each-eq-ok check m.entries).1 (
      All-map
        (λ e p.
          (check_parents_iff paths [] (raw_path e)).1
            (All-map (λ q g. HasDirectory-get q [] m.entries raw g) (parents (raw_path e)) p))
        m.entries h),
)
  where
    paths : TreeMap Bool
    paths = insert_all [] m.entries

    check : WorkspaceEntry → Validation
    check e = check_parents paths [] (raw_path e)

    raw : IsDistinct (raw_paths m.entries)
    raw = IsDistinct-of_folded raw_path m.entries d

    or_none :
        (q : Bytes)
        → HasDirectory q m.entries ⊎ (TreeMap.get q [] ≡ some true)
        → HasDirectory q m.entries
    or_none q (inl g) = g
    or_none q (inr g) = unfold TreeMap.get in cc g

-- `WorkspaceManifest::validate` accepts a manifest exactly when it has version 1, is within the
-- limits on its entries, path bytes and file bytes, has portable paths that differ also where case
-- is ignored and no symbolic link, and lists each directory that one of its paths goes through.
pub validate_manifest_iff :
    (m : WorkspaceManifest) → (validate_manifest m ≡ ok tt) ↔ ManifestIsValid m
unfolding validate_manifest
validate_manifest_iff m = (sound, complete)
  where
    sound : validate_manifest m ≡ ok tt → ManifestIsValid m
    sound h =
        let (version, h₁) = reject_if-eq-ok (not (m.schema_version == 1)) _ _ h in
        let (count, h₂) = reject_if-eq-ok (ltb max_workspace_entries (length m.entries)) _ _ h₁ in
        let (t, one, rest) =
          >>=-eq-ok (scan start m.entries)
            (λ t. for_each (λ e. check_parents t.paths [] (raw_path e)) m.entries) h₂ in
        let (r, p) = scan-Scanned start t m.entries start-IsScan one in
        let distinct = repeats-IsDistinct (folded_paths m.entries) r.fresh in
        record {
          version = ground arith;
          count = ground arith;
          portable = r.portable;
          distinct = distinct;
          plain = r.plain;
          path_total = omega (arith, r.path_total);
          file_total = omega (arith, r.file_total);
          closed = (closed_iff m distinct).0 (rw p at rest);
        }

    complete : ManifestIsValid m → validate_manifest m ≡ ok tt
    complete v =
        let r : Scanned start m.entries = record {
          portable = v.portable;
          fresh = IsDistinct-repeats (folded_paths m.entries) v.distinct;
          plain = v.plain;
          path_total = omega (arith, v.path_total);
          file_total = omega (arith, v.file_total);
        } in
        let (t, one, p) = Scanned-scan start m.entries start-IsScan r in
        let rest : for_each (λ e. check_parents t.paths [] (raw_path e)) m.entries ≡ ok tt =
          rw p ((closed_iff m v.distinct).1 v.closed) in
        ground (arith, v.version, v.count, one, rest)

total_exact :
    (total : ℕ) (es : List WorkspaceEntry)
    → total + file_bytes es ≤ max_workspace_logical_bytes
    → add_sizes total es ≡ total + file_bytes es
unfolding add_sizes
total_exact total [] h = omega arith
total_exact total (e ∷ es) h =
    let exact : saturating_add total (size_bytes e) ≡ total + size_bytes e = ground arith in
    rw exact (total_exact (total + size_bytes e) es (omega arith) ∙ omega arith)

-- Of a manifest that passed its validator, `logical_bytes` is the exact sum of the file sizes: the
-- saturating additions do not saturate.
logical_bytes_exact :
    (m : WorkspaceManifest) → validate_manifest m ≡ ok tt → logical_bytes m ≡ file_bytes m.entries
unfolding logical_bytes
logical_bytes_exact m h =
    let v = (validate_manifest_iff m).0 h in
    total_exact 0 m.entries (omega (arith, v.file_total)) ∙ omega arith
