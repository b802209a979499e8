-- ===== src/Prelude/Distinct.antt =====
-- `HashSet::insert` and `BTreeSet::insert` in a loop: does a text come twice?
use mathlib.Core.Path.{◌≡◌, refl, sym, ap, subst, ◌∙◌}
use mathlib.Core.Logic.{◌≢◌}
use mathlib.Core.Bool.{Bool, false, ◌||◌}
use mathlib.Core.List.{List, [], ◌∷◌, map, Memᴰ, Permᴰ}
use native.Mathlib.Omega.{arith}
use eggwork.Prelude.Lists.{any, All, All-map}
use eggwork.Prelude.Bytes.{Bytes, bytes_eq, bytes_eq_iff}

unfoldable pub mem_bytes : Bytes → List Bytes → Bool
mem_bytes k = any (bytes_eq k)

-- `xs.any(|x| !seen.insert(x))`
unfoldable pub repeats : List Bytes → List Bytes → Bool
unfolding mem_bytes
repeats seen [] = false
repeats seen (x ∷ xs) = mem_bytes x seen || repeats (x ∷ seen) xs

abbrev pub IsDistinct : List Bytes → Type 0
IsDistinct [] = Unit
IsDistinct (x ∷ xs) = All (λ y. x ≢ y) xs × IsDistinct xs

pub ne_of_bytes_eq : (x y : Bytes) → bytes_eq x y ≡ false → x ≢ y
ne_of_bytes_eq x y h e = ground (arith, bytes_eq_iff x y)

pub bytes_eq_of_ne : (x y : Bytes) → x ≢ y → bytes_eq x y ≡ false
bytes_eq_of_ne x y h = ground (arith, bytes_eq_iff x y)

repeats_fresh :
    (seen xs : List Bytes)
    → repeats seen xs ≡ false
    → IsDistinct xs × All (λ x. mem_bytes x seen ≡ false) xs
unfolding repeats
repeats_fresh seen [] h = (tt, tt)
repeats_fresh seen (x ∷ xs) h =
    let rest = repeats_fresh (x ∷ seen) xs (ground arith) in
    (
      (All-map (λ y p e. ground (arith, bytes_eq_iff y x)) xs rest.1, rest.0),
      (ground arith, All-map (λ y p. ground arith) xs rest.1),
    )

pub repeats-IsDistinct : (xs : List Bytes) → repeats [] xs ≡ false → IsDistinct xs
repeats-IsDistinct xs h = (repeats_fresh [] xs h).0

repeats_of_fresh :
    (seen xs : List Bytes)
    → IsDistinct xs
    → All (λ x. mem_bytes x seen ≡ false) xs
    → repeats seen xs ≡ false
unfolding repeats
repeats_of_fresh seen [] d f = refl
repeats_of_fresh seen (x ∷ xs) d f =
    let rest = repeats_of_fresh (x ∷ seen) xs d.1 (fresh xs d.0 f.1) in ground arith
  where
    fresh :
        (ys : List Bytes)
        → All (λ y. x ≢ y) ys
        → All (λ y. mem_bytes y seen ≡ false) ys
        → All (λ y. mem_bytes y (x ∷ seen) ≡ false) ys
    fresh [] a b = tt
    fresh (y ∷ ys) a b = (ground (arith, bytes_eq_of_ne y x (λ e. a.0 (sym e))), fresh ys a.1 b.1)

pub All-empty : (xs : List Bytes) → All (λ x. mem_bytes x [] ≡ false) xs
unfolding mem_bytes
All-empty [] = tt
All-empty (x ∷ xs) = (refl, All-empty xs)

pub IsDistinct-repeats : (xs : List Bytes) → IsDistinct xs → repeats [] xs ≡ false
IsDistinct-repeats xs d = repeats_of_fresh [] xs d (All-empty xs)

module _ {ℓ κ} {A : Type ℓ} (P : A → Type κ) where
  pub All-Permᴰ : {xs ys : List A} → Permᴰ xs ys → All P xs → All P ys
  All-Permᴰ Permᴰ.nil h = tt
  All-Permᴰ (Permᴰ.cons e p) h = (rw (← e) h.0, All-Permᴰ p h.1)
  All-Permᴰ (Permᴰ.swap e f) h = (rw (← f) h.1.0, (rw (← e) h.0, h.1.1))
  All-Permᴰ (Permᴰ.trans p q) h = All-Permᴰ q (All-Permᴰ p h)

pub IsDistinct-Permᴰ : {xs ys : List Bytes} → Permᴰ xs ys → IsDistinct xs → IsDistinct ys
IsDistinct-Permᴰ Permᴰ.nil d = tt
IsDistinct-Permᴰ (Permᴰ.cons {l₂ = l} e p) d =
    (subst (λ x. All (λ y. x ≢ y) l) e (All-Permᴰ _ p d.0), IsDistinct-Permᴰ p d.1)
IsDistinct-Permᴰ (Permᴰ.swap {l = l} e f) d = (
  (λ q. d.0.0 (e ∙ sym q ∙ sym f), subst (λ x. All (λ y. x ≢ y) l) f d.1.0),
  (subst (λ x. All (λ y. x ≢ y) l) e d.0.1, d.1.1),
)
IsDistinct-Permᴰ (Permᴰ.trans p q) d = IsDistinct-Permᴰ q (IsDistinct-Permᴰ p d)

module _ {ℓ} {A : Type ℓ} (key : A → Bytes) where
  key_absent :
      (a b : A) (xs : List A) → All (λ y. key a ≢ y) (map key xs) → Memᴰ b xs → key a ≢ key b
  key_absent a b [] h m = elim m [ ]
  key_absent a b (x ∷ xs) h (Memᴰ.head e) = λ q. h.0 (q ∙ ap key e)
  key_absent a b (x ∷ xs) h (Memᴰ.tail m) = key_absent a b xs h.1 m

  -- Members with one key are one member.
  pub eq_of_key :
      (xs : List A) (a b : A)
      → IsDistinct (map key xs)
      → Memᴰ a xs
      → Memᴰ b xs
      → key a ≡ key b
      → a ≡ b
  eq_of_key [] a b d m n q = elim m [ ]
  eq_of_key (x ∷ xs) a b d (Memᴰ.head e) (Memᴰ.head f) q = e ∙ sym f
  eq_of_key (x ∷ xs) a b d (Memᴰ.head e) (Memᴰ.tail n) q =
      absurd (key_absent x b xs d.0 n (ap key (sym e) ∙ q))
  eq_of_key (x ∷ xs) a b d (Memᴰ.tail m) (Memᴰ.head f) q =
      absurd (key_absent x a xs d.0 m (ap key (sym f) ∙ sym q))
  eq_of_key (x ∷ xs) a b d (Memᴰ.tail m) (Memᴰ.tail n) q = eq_of_key xs a b d.1 m n q

  pub map-Permᴰ : {xs ys : List A} → Permᴰ xs ys → Permᴰ (map key xs) (map key ys)
  map-Permᴰ Permᴰ.nil = Permᴰ.nil
  map-Permᴰ (Permᴰ.cons e p) = Permᴰ.cons (ap key e) (map-Permᴰ p)
  map-Permᴰ (Permᴰ.swap e f) = Permᴰ.swap (ap key e) (ap key f)
  map-Permᴰ (Permᴰ.trans p q) = Permᴰ.trans (map-Permᴰ p) (map-Permᴰ q)
