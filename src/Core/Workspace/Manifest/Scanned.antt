-- ===== src/Core/Workspace/Manifest/Scanned.antt =====
-- crates/eggwork-core/src/lib.rs, `WorkspaceManifest::validate`: the first loop, as one statement.
use eggwork.Prelude.{
  ℕ, ◌+◌, ◌≤◌, ◌≡◌, refl, ap, Bool, true, false, List, [], ◌∷◌, map, arith, inl, inr, ltb, is_some,
  All, length, ok, >>=-eq-ok, >>-eq-ok, reject_if-eq-ok, saturating_add, Bool-cases,
}
use eggwork.Prelude.Bytes.{Bytes, bytes_eq, bytes_eq_iff, to_ascii_lowercase}
use eggwork.Prelude.Distinct.{mem_bytes, repeats}
use eggwork.Prelude.TreeMap
use eggwork.Prelude.TreeMap.{TreeMap, get-insert}
use eggwork.Core.Limits.{max_workspace_path_bytes, max_workspace_logical_bytes}
use eggwork.Core.Workspace.{WorkspaceEntry, directory, file, symlink, raw_path}
use eggwork.Core.Workspace.Portable.{validate_portable}
use eggwork.Core.Workspace.Manifest.{
  Scan, start, is_directory, add_size, scan_entry, scan, size_bytes,
}
use eggwork.Core.Workspace.Manifest.Found.{insert_all}

abbrev pub folded_path : WorkspaceEntry → Bytes
folded_path e = to_ascii_lowercase (raw_path e)

abbrev pub folded_paths : List WorkspaceEntry → List Bytes
folded_paths = map folded_path

abbrev pub is_symlink : WorkspaceEntry → Bool
is_symlink (symlink p target) = true
is_symlink _ = false

abbrev pub path_bytes : List WorkspaceEntry → ℕ
path_bytes [] = 0
path_bytes (e ∷ es) = length (raw_path e) + path_bytes es

abbrev pub file_bytes : List WorkspaceEntry → ℕ
file_bytes [] = 0
file_bytes (e ∷ es) = size_bytes e + file_bytes es

-- Every path of the map is among the case-folded paths.
pub record IsScan (s : Scan) : Type 0 where
  pub folded :
      (q : Bytes)
      → is_some (TreeMap.get q s.paths) ≡ true
      → mem_bytes (to_ascii_lowercase q) s.folded ≡ true
  pub path_fits : s.total_path_bytes ≤ max_workspace_path_bytes
  pub file_fits : s.total_file_bytes ≤ max_workspace_logical_bytes

pub start-IsScan : IsScan start
unfolding TreeMap.get
start-IsScan = record { folded = λ q h. cc; path_fits = omega arith; file_fits = omega arith }

-- What one round demands of its entry.
pub record Fits (s : Scan) (e : WorkspaceEntry) : Type 0 where
  pub portable : validate_portable (raw_path e) ≡ ok tt
  pub fresh : mem_bytes (folded_path e) s.folded ≡ false
  pub plain : is_symlink e ≡ false
  pub path_total : s.total_path_bytes + length (raw_path e) ≤ max_workspace_path_bytes
  pub file_total : s.total_file_bytes + size_bytes e ≤ max_workspace_logical_bytes

-- What it makes of the state.
abbrev pub next : Scan → WorkspaceEntry → Scan
next s e = record {
  paths = TreeMap.insert (raw_path e) (is_directory e) s.paths;
  folded = folded_path e ∷ s.folded;
  total_path_bytes = s.total_path_bytes + length (raw_path e);
  total_file_bytes = s.total_file_bytes + size_bytes e;
}

-- A path that is fresh when its case is folded is fresh: the later test never decides.
fresh_path :
    (s : Scan) (e : WorkspaceEntry)
    → IsScan s
    → mem_bytes (folded_path e) s.folded ≡ false
    → is_some (TreeMap.get (raw_path e) s.paths) ≡ false
fresh_path s e i h = ground (arith, i.folded (raw_path e))

next-IsScan : (s : Scan) (e : WorkspaceEntry) → IsScan s → Fits s e → IsScan (next s e)
unfolding mem_bytes
next-IsScan s e i f = record {
  folded = λ q h. elim (Bool-cases (bytes_eq q (raw_path e))) [
    | inl same ↦ ground (
      arith,
      (bytes_eq_iff (to_ascii_lowercase q) (folded_path e)).1
          (ap to_ascii_lowercase ((bytes_eq_iff q (raw_path e)).0 same)),
    )
    | inr other ↦ ground (arith, i.folded q, get-insert q (raw_path e) (is_directory e) s.paths)
  ];
  path_fits = f.path_total;
  file_fits = f.file_total;
}

no_saturation :
    (a b m : ℕ) → a + b ≤ m → m ≤ max_workspace_logical_bytes → saturating_add a b ≡ a + b
no_saturation a b m h k = ground arith

unsaturated :
    (a b m : ℕ) → ltb m (saturating_add a b) ≡ false → m ≤ max_workspace_logical_bytes → a + b ≤ m
unsaturated a b m h k = ground arith

scan_entry-next :
    (s : Scan) (e : WorkspaceEntry) → IsScan s → Fits s e → scan_entry s e ≡ ok (next s e)
unfolding scan_entry add_size
scan_entry-next s (symlink p target) i f = absurd (ground (arith, f.plain))
scan_entry-next s (directory p) i f =
    ground (arith, f.portable, f.fresh, f.path_total, fresh_path s (directory p) i f.fresh)
scan_entry-next s (file p digest size executable) i f = ground (
  arith,
  f.portable,
  f.fresh,
  f.path_total,
  f.file_total,
  fresh_path s (file p digest size executable) i f.fresh,
)

add_size-fits :
    (s t : Scan) (e : WorkspaceEntry)
    → s.total_file_bytes ≤ max_workspace_logical_bytes
    → add_size s e ≡ ok t
    → (is_symlink e ≡ false) × (s.total_file_bytes + size_bytes e ≤ max_workspace_logical_bytes)
unfolding add_size
add_size-fits s t (directory p) i h = (refl, omega arith)
add_size-fits s t (file p digest size executable) i h = (refl, ground arith)
add_size-fits s t (symlink p target) i h = cc

scan_entry-Fits : (s t : Scan) (e : WorkspaceEntry) → IsScan s → scan_entry s e ≡ ok t → Fits s e
unfolding scan_entry
scan_entry-Fits s t e i h =
    let total = saturating_add s.total_path_bytes (length (raw_path e)) in
    let (portable, h₁) = >>-eq-ok (validate_portable (raw_path e)) _ h in
    let (paths, h₂) = reject_if-eq-ok (ltb max_workspace_path_bytes total) _ _ h₁ in
    let (fresh, h₃) = reject_if-eq-ok (mem_bytes (folded_path e) s.folded) _ _ h₂ in
    let (once, h₄) = reject_if-eq-ok (is_some (TreeMap.get (raw_path e) s.paths)) _ _ h₃ in
    let (plain, sizes) = add_size-fits _ t e i.file_fits h₄ in
    record {
      portable = portable;
      fresh = fresh;
      plain = plain;
      path_total =
          unsaturated s.total_path_bytes (length (raw_path e)) max_workspace_path_bytes paths
            (omega arith);
      file_total = sizes;
    }

-- What the loop demands of the entries that are left, from a state.
pub record Scanned (s : Scan) (es : List WorkspaceEntry) : Type 0 where
  pub portable : All (λ e. validate_portable (raw_path e) ≡ ok tt) es
  pub fresh : repeats s.folded (folded_paths es) ≡ false
  pub plain : All (λ e. is_symlink e ≡ false) es
  pub path_total : s.total_path_bytes + path_bytes es ≤ max_workspace_path_bytes
  pub file_total : s.total_file_bytes + file_bytes es ≤ max_workspace_logical_bytes

cons-Scanned :
    (s : Scan) (e : WorkspaceEntry) (es : List WorkspaceEntry)
    → Fits s e
    → Scanned (next s e) es
    → Scanned s (e ∷ es)
unfolding repeats
cons-Scanned s e es f r = record {
  portable = (f.portable, r.portable);
  fresh = ground (arith, f.fresh, r.fresh);
  plain = (f.plain, r.plain);
  path_total = omega (arith, r.path_total);
  file_total = omega (arith, r.file_total);
}

uncons-Scanned :
    (s : Scan) (e : WorkspaceEntry) (es : List WorkspaceEntry)
    → Scanned s (e ∷ es)
    → Fits s e × Scanned (next s e) es
unfolding repeats
uncons-Scanned s e es r = (
  record {
    portable = r.portable.0;
    fresh = ground (arith, r.fresh);
    plain = r.plain.0;
    path_total = omega (arith, r.path_total);
    file_total = omega (arith, r.file_total);
  },
  record {
    portable = r.portable.1;
    fresh = ground (arith, r.fresh);
    plain = r.plain.1;
    path_total = omega (arith, r.path_total);
    file_total = omega (arith, r.file_total);
  },
)

pub scan-Scanned :
    (s t : Scan) (es : List WorkspaceEntry)
    → IsScan s
    → scan s es ≡ ok t
    → Scanned s es × (t.paths ≡ insert_all s.paths es)
unfolding scan repeats
scan-Scanned s t [] i h = (
  record {
    portable = tt;
    fresh = refl;
    plain = tt;
    path_total = omega (arith, i.path_fits);
    file_total = omega (arith, i.file_fits);
  },
  (let e : t ≡ s = ground arith in ap Scan.paths e),
)
scan-Scanned s t (e ∷ es) i h =
    let (u, one, rest) = >>=-eq-ok (scan_entry s e) (λ u. scan u es) h in
    let f = scan_entry-Fits s u e i one in
    let v : u ≡ next s e = ground (arith, scan_entry-next s e i f) in
    let (r, p) = scan-Scanned (next s e) t es (next-IsScan s e i f) (rw v at rest) in
    (cons-Scanned s e es f r, p)

pub Scanned-scan :
    (s : Scan) (es : List WorkspaceEntry)
    → IsScan s
    → Scanned s es
    → (t : Scan) × (scan s es ≡ ok t) × (t.paths ≡ insert_all s.paths es)
unfolding scan
Scanned-scan s [] i r = (s, refl, refl)
Scanned-scan s (e ∷ es) i r =
    let (f, r') = uncons-Scanned s e es r in
    let (t, q, p) = Scanned-scan (next s e) es (next-IsScan s e i f) r' in
    (t, rw (scan_entry-next s e i f) q, p)
