-- ===== src/Prelude/TreeMap.antt =====
-- `BTreeMap<String, V>` as the list of its entries in key order.
use Prim.Native.Nat.{Ordering}
use mathlib.Core.Path.{◌≡◌, refl, sym, ap₂, ◌∙◌}
use mathlib.Core.Logic.{◌⊎◌, inl, inr}
use mathlib.Core.Option.{Option, none, some}
use mathlib.Core.List.{List, [], ◌∷◌, map}
use native.Mathlib.Omega.{arith}
use eggwork.Prelude.Tests.{if◌then◌else◌}
use eggwork.Prelude.Lists.{All, All-map}
use eggwork.Prelude.Bytes.{
  Bytes, bytes_eq, bytes_eq_iff, cmp_bytes, cmp_bytes_refl, eq_of_cmp_bytes, cmp_bytes-gt,
  cmp_bytes-lt, cmp_bytes_trans,
}

abbrev pub TreeMap {ℓ} : Type ℓ → Type ℓ
TreeMap V = List (Bytes × V)

pub Ordering-cases : (o : Ordering) → (o ≡ Ordering.lt) ⊎ ((o ≡ Ordering.eq) ⊎ (o ≡ Ordering.gt))
Ordering-cases Ordering.lt = inl refl
Ordering-cases Ordering.eq = inr (inl refl)
Ordering-cases Ordering.gt = inr (inr refl)

module _ {ℓ} {V : Type ℓ} where
  unfoldable pub get : Bytes → TreeMap V → Option V
  get k [] = none
  get k ((j, w) ∷ m) =
      let rest = get k m in
      elim (cmp_bytes k j) [ Ordering.lt ↦ none | Ordering.eq ↦ some w | Ordering.gt ↦ rest ]

  unfoldable pub insert : Bytes → V → TreeMap V → TreeMap V
  insert k v [] = (k, v) ∷ []
  insert k v ((j, w) ∷ m) =
      let rest = insert k v m in
      elim (cmp_bytes k j) [
        | Ordering.lt ↦ (k, v) ∷ (j, w) ∷ m
        | Ordering.eq ↦ (k, v) ∷ m
        | Ordering.gt ↦ (j, w) ∷ rest
      ]

  unfoldable pub remove : Bytes → TreeMap V → TreeMap V
  remove k [] = []
  remove k ((j, w) ∷ m) =
      let rest = remove k m in
      elim (cmp_bytes k j) [
        | Ordering.lt ↦ (j, w) ∷ m
        | Ordering.eq ↦ m
        | Ordering.gt ↦ (j, w) ∷ rest
      ]

  unfoldable pub values : TreeMap V → List V
  values = map (λ e. e.1)

  -- Every key of `m` comes after `k`.
  abbrev pub Above : Bytes → TreeMap V → Type 0
  Above k = All (λ e. cmp_bytes k e.0 ≡ Ordering.lt)

  -- The keys rise along the list.
  abbrev pub IsOrdered : TreeMap V → Type 0
  IsOrdered [] = Unit
  IsOrdered (e ∷ m) = Above e.0 m × IsOrdered m

  insert-Above :
      (b k : Bytes) (v : V) (m : TreeMap V)
      → cmp_bytes b k ≡ Ordering.lt
      → Above b m
      → Above b (insert k v m)
  unfolding insert
  insert-Above b k v [] h a = (h, tt)
  insert-Above b k v ((j, w) ∷ m) h a = ground (arith, insert-Above b k v m h a.1)

  remove-Above : (b k : Bytes) (m : TreeMap V) → Above b m → Above b (remove k m)
  unfolding remove
  remove-Above b k [] a = tt
  remove-Above b k ((j, w) ∷ m) a = ground (arith, remove-Above b k m a.1)

  Above-trans : (b k : Bytes) (m : TreeMap V) → cmp_bytes b k ≡ Ordering.lt → Above k m → Above b m
  Above-trans b k m h = All-map (λ e p. cmp_bytes_trans b k e.0 h p) m

  pub insert-IsOrdered :
      (k : Bytes) (v : V) (m : TreeMap V) → IsOrdered m → IsOrdered (insert k v m)
  unfolding insert
  insert-IsOrdered k v [] o = (tt, tt)
  insert-IsOrdered k v ((j, w) ∷ m) o = ground (
    arith,
    insert-IsOrdered k v m o.1,
    Above-trans k j m,
    insert-Above j k v m,
    cmp_bytes-gt k j,
    eq_of_cmp_bytes k j,
  )

  pub remove-IsOrdered : (k : Bytes) (m : TreeMap V) → IsOrdered m → IsOrdered (remove k m)
  unfolding remove
  remove-IsOrdered k [] o = tt
  remove-IsOrdered k ((j, w) ∷ m) o =
      ground (arith, remove-IsOrdered k m o.1, remove-Above j k m o.0)

  pub get_below :
      (q k : Bytes) (m : TreeMap V) → Above k m → cmp_bytes q k ≡ Ordering.lt → get q m ≡ none
  unfolding get
  get_below q k [] a h = refl
  get_below q k ((j, w) ∷ m) a h = ground (arith, cmp_bytes_trans q k j h a.0)

  pub get_at : (k : Bytes) (m : TreeMap V) → Above k m → get k m ≡ none
  unfolding get
  get_at k [] a = refl
  get_at k ((j, w) ∷ m) a = ground arith

  pub get-insert :
      (q k : Bytes) (v : V) (m : TreeMap V)
      → get q (insert k v m) ≡ (if bytes_eq q k then some v else get q m)
  unfolding get insert
  get-insert q k v [] = ground (arith, bytes_eq_iff q k, eq_of_cmp_bytes q k, cmp_bytes_refl q)
  get-insert q k v ((j, w) ∷ m) = ground (
    arith,
    get-insert q k v m,
    bytes_eq_iff q k,
    eq_of_cmp_bytes q k,
    eq_of_cmp_bytes k j,
    eq_of_cmp_bytes q j,
    cmp_bytes_refl q,
    cmp_bytes_trans q k j,
    cmp_bytes_trans j q k,
    cmp_bytes-gt q k,
    cmp_bytes-lt q k,
    cmp_bytes-gt q j,
    cmp_bytes-gt k j,
    cmp_bytes-lt k j,
  )

  pub get-remove :
      (q k : Bytes) (m : TreeMap V)
      → IsOrdered m
      → get q (remove k m) ≡ (if bytes_eq q k then none else get q m)
  unfolding get remove
  get-remove q k [] o = ground arith
  get-remove q k ((j, w) ∷ m) o = ground (
    arith,
    get-remove q k m o.1,
    get_at j m o.0,
    get_below q j m o.0,
    bytes_eq_iff q k,
    eq_of_cmp_bytes k j,
    eq_of_cmp_bytes q j,
    cmp_bytes_refl k,
  )

  tail_get :
      (j : Bytes) (w : V) (m n : TreeMap V)
      → Above j m
      → Above j n
      → ((q : Bytes) → get q ((j, w) ∷ m) ≡ get q ((j, w) ∷ n))
      → (q : Bytes) → get q m ≡ get q n
  unfolding get
  tail_get j w m n a b h q = ground (
    arith,
    h q,
    get_below q j m a,
    get_below q j n b,
    get_at j m a,
    get_at j n b,
    eq_of_cmp_bytes q j,
  )

  -- Maps in key order are determined by their lookups.
  pub TreeMap-ext :
      (m n : TreeMap V) → IsOrdered m → IsOrdered n → ((q : Bytes) → get q m ≡ get q n) → m ≡ n
  unfolding get
  TreeMap-ext [] [] o p h = refl
  TreeMap-ext [] ((j, w) ∷ n) o p h = ground (arith, h j, cmp_bytes_refl j)
  TreeMap-ext ((j, w) ∷ m) [] o p h = ground (arith, h j, cmp_bytes_refl j)
  TreeMap-ext ((j, w) ∷ m) ((i, u) ∷ n) o p h = elim (Ordering-cases (cmp_bytes j i)) [
    | inl c ↦ ground (arith, h j, cmp_bytes_refl j)
    | inr (inl c) ↦
        let e : i ≡ j = sym (eq_of_cmp_bytes j i c) in
        let f : w ≡ u = ground (arith, h j, cmp_bytes_refl j) in
        let h' : (q : Bytes) → get q ((j, w) ∷ m) ≡ get q ((j, w) ∷ n) =
          λ q. h q ∙ ap₂ (λ k x. get q ((k, x) ∷ n)) e (sym f) in
        ap₂ (λ (x : Bytes × V) l. x ∷ l) (ground arith)
          (TreeMap-ext m n o.1 p.1 (tail_get j w m n o.0 (rw (← e) p.0) h'))
    | inr (inr c) ↦ ground (arith, h i, cmp_bytes_refl i, cmp_bytes-gt j i)
  ]
