-- ===== src/Prelude/Lists.antt =====
-- Lists measured by native numbers, Boolean searches, and predicates by recursion.
use Prim.Native.Nat.{ℕ, suc, ◌+◌}
use mathlib.Core.Path.{◌≡◌, refl, sym, ap, ◌∙◌, subst}
use mathlib.Core.Bool.{Bool, true, false, ◌&&◌, ◌||◌}
use mathlib.Core.List.{List, [], ◌∷◌, ◌++◌, Memᴰ, Permᴰ}
use native.Mathlib.Omega.{arith}
use eggwork.Prelude.Tests.{if◌then◌else◌}

module _ {ℓ} {A : Type ℓ} where
  abbrev pub length : List A → ℕ
  length [] = 0
  length (x ∷ xs) = suc (length xs)

  pub length-append : (xs ys : List A) → length (xs ++ ys) ≡ length xs + length ys
  length-append [] ys = omega arith
  length-append (x ∷ xs) ys = omega (arith, length-append xs ys)

  abbrev pub all : (A → Bool) → List A → Bool
  all p [] = true
  all p (x ∷ xs) = p x && all p xs

  abbrev pub any : (A → Bool) → List A → Bool
  any p [] = false
  any p (x ∷ xs) = p x || any p xs

  abbrev pub keep_if : (A → Bool) → List A → List A
  keep_if p [] = []
  keep_if p (x ∷ xs) = let rest = keep_if p xs in if p x then x ∷ rest else rest

  abbrev pub All {κ} : (A → Type κ) → List A → Type κ
  All P [] = Unit
  All P (x ∷ xs) = P x × All P xs

  pub All-map {κ μ} :
      {P : A → Type κ} {Q : A → Type μ} (f : (x : A) → P x → Q x) (xs : List A)
      → All P xs
      → All Q xs
  All-map f [] h = tt
  All-map f (x ∷ xs) h = (f x h.0, All-map f xs h.1)

  pub all→All : (p : A → Bool) (xs : List A) → all p xs ≡ true → All (λ x. p x ≡ true) xs
  all→All p [] h = tt
  all→All p (x ∷ xs) h = let rest = all→All p xs in (ground arith, rest (ground arith))

  pub any→All : (p : A → Bool) (xs : List A) → any p xs ≡ false → All (λ x. p x ≡ false) xs
  any→All p [] h = tt
  any→All p (x ∷ xs) h = let rest = any→All p xs in (ground arith, rest (ground arith))

  pub All-any : (p : A → Bool) (xs : List A) → All (λ x. p x ≡ false) xs → any p xs ≡ false
  All-any p [] h = refl
  All-any p (x ∷ xs) h = ground (arith, All-any p xs h.1)

  pub All-Mem {κ} : (P : A → Type κ) {x : A} (xs : List A) → All P xs → Memᴰ x xs → P x
  All-Mem P [] h m = elim m [ ]
  All-Mem P (y ∷ ys) h (Memᴰ.head e) = subst P (sym e) h.0
  All-Mem P (y ∷ ys) h (Memᴰ.tail m) = All-Mem P ys h.1 m

  -- The members of a rearranged list.
  pub Memᴰ-Permᴰ : {x : A} {xs ys : List A} → Permᴰ xs ys → Memᴰ x ys → Memᴰ x xs
  Memᴰ-Permᴰ Permᴰ.nil m = elim m [ ]
  Memᴰ-Permᴰ (Permᴰ.cons e p) (Memᴰ.head m) = Memᴰ.head (m ∙ sym e)
  Memᴰ-Permᴰ (Permᴰ.cons e p) (Memᴰ.tail m) = Memᴰ.tail (Memᴰ-Permᴰ p m)
  Memᴰ-Permᴰ (Permᴰ.swap e f) (Memᴰ.head m) = Memᴰ.tail (Memᴰ.head (m ∙ sym f))
  Memᴰ-Permᴰ (Permᴰ.swap e f) (Memᴰ.tail (Memᴰ.head m)) = Memᴰ.head (m ∙ sym e)
  Memᴰ-Permᴰ (Permᴰ.swap e f) (Memᴰ.tail (Memᴰ.tail m)) = Memᴰ.tail (Memᴰ.tail m)
  Memᴰ-Permᴰ (Permᴰ.trans p q) m = Memᴰ-Permᴰ p (Memᴰ-Permᴰ q m)

  pub length-Permᴰ : {xs ys : List A} → Permᴰ xs ys → length xs ≡ length ys
  length-Permᴰ Permᴰ.nil = refl
  length-Permᴰ (Permᴰ.cons e p) = ap suc (length-Permᴰ p)
  length-Permᴰ (Permᴰ.swap e f) = refl
  length-Permᴰ (Permᴰ.trans p q) = length-Permᴰ p ∙ length-Permᴰ q
