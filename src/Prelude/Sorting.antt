-- ===== src/Prelude/Sorting.antt =====
-- `slice::sort_by`, a stable sort, as insertion sort: a stable sort has one result.
use mathlib.Core.Path.{◌≡◌, refl, ap, ◌∙◌}
use mathlib.Core.Bool.{Bool, true, false}
use mathlib.Core.List.{List, [], ◌∷◌, Memᴰ, Permᴰ}
use mathlib.Core.List.Permᴰ
use native.Mathlib.Omega.{arith}
use eggwork.Prelude.Tests.{if◌then◌else◌}
use eggwork.Prelude.Lists.{All, All-map, Memᴰ-Permᴰ}

-- `le a b` is `cmp(a, b) != Greater`.
module _ {ℓ} {A : Type ℓ} (le : A → A → Bool) where
  unfoldable pub insert : A → List A → List A
  insert x [] = x ∷ []
  insert x (y ∷ ys) = let rest = insert x ys in if le x y then x ∷ y ∷ ys else y ∷ rest

  unfoldable pub sort_by : List A → List A
  unfolding insert
  sort_by [] = []
  sort_by (x ∷ xs) = insert x (sort_by xs)

  abbrev pub IsSorted : List A → Type ℓ
  IsSorted [] = Unit
  IsSorted (x ∷ xs) = All (λ y. le x y ≡ true) xs × IsSorted xs

  insert_first : (x : A) (xs : List A) → All (λ y. le x y ≡ true) xs → insert x xs ≡ x ∷ xs
  unfolding insert
  insert_first x [] h = refl
  insert_first x (y ∷ ys) h = rw h.0

  -- A sorted list stays as it is.
  pub sort_by_of_IsSorted : (xs : List A) → IsSorted xs → sort_by xs ≡ xs
  unfolding sort_by
  sort_by_of_IsSorted [] h = refl
  sort_by_of_IsSorted (x ∷ xs) h =
      ap (insert x) (sort_by_of_IsSorted xs h.1) ∙ insert_first x xs h.0

  insert-perm : (x : A) (xs : List A) → Permᴰ (x ∷ xs) (insert x xs)
  unfolding insert
  insert-perm x [] = Permᴰ.cons refl Permᴰ.nil
  insert-perm x (y ∷ ys) = place (le x y) (insert-perm x ys)
    where
      place :
          (b : Bool)
          → Permᴰ (x ∷ ys) (insert x ys)
          → Permᴰ (x ∷ y ∷ ys) (if b then x ∷ y ∷ ys else y ∷ insert x ys)
      place true p = Permᴰ.refl (x ∷ y ∷ ys)
      place false p = Permᴰ.trans (Permᴰ.swap refl refl) (Permᴰ.cons refl p)

  pub sort_by-perm : (xs : List A) → Permᴰ xs (sort_by xs)
  unfolding sort_by
  sort_by-perm [] = Permᴰ.nil
  sort_by-perm (x ∷ xs) =
      Permᴰ.trans (Permᴰ.cons refl (sort_by-perm xs)) (insert-perm x (sort_by xs))

-- What Rust asks of the comparator: a total preorder.
pub record IsOrder {ℓ} {A : Type ℓ} (le : A → A → Bool) : Type ℓ where
  pub total : (a b : A) → le a b ≡ false → le b a ≡ true
  pub trans : (a b c : A) → le a b ≡ true → le b c ≡ true → le a c ≡ true

-- Members that compare equal are equal.
abbrev pub IsStrict {ℓ} : {A : Type ℓ} → (A → A → Bool) → List A → Type ℓ
IsStrict {A = A} le xs = (a b : A) → Memᴰ a xs → Memᴰ b xs → le a b ≡ true → le b a ≡ true → a ≡ b

module _ {ℓ} {A : Type ℓ} (le : A → A → Bool) (o : IsOrder le) where
  insert_comm :
      (x y : A) (xs : List A)
      → (le x y ≡ true → le y x ≡ true → x ≡ y)
      → insert le x (insert le y xs) ≡ insert le y (insert le x xs)
  unfolding insert
  insert_comm x y [] h = ground (arith, o.total x y, o.total y x)
  insert_comm x y (z ∷ zs) h = ground (
    arith,
    insert_comm x y zs h,
    o.total x y,
    o.total x z,
    o.total y z,
    o.trans x z y,
    o.trans y z x,
    o.trans x y z,
    o.trans y x z,
  )

  -- The result does not depend on the order of the input, where equal members are the same.
  pub sort_by-Permᴰ :
      {xs ys : List A} → Permᴰ xs ys → IsStrict le xs → sort_by le xs ≡ sort_by le ys
  unfolding sort_by
  sort_by-Permᴰ Permᴰ.nil h = refl
  sort_by-Permᴰ (Permᴰ.cons {a = a} {b = b} {l₁ = l₁} e p) h =
      let rest = sort_by-Permᴰ p (λ c d m n. h c d (Memᴰ.tail m) (Memᴰ.tail n)) in cc
  sort_by-Permᴰ (Permᴰ.swap {a = a} {b = b} {l = l} e f) h =
      let flip =
        insert_comm a b (sort_by le l) (h a b (Memᴰ.head refl) (Memᴰ.tail (Memᴰ.head refl))) in
      cc
  sort_by-Permᴰ (Permᴰ.trans p q) h =
      sort_by-Permᴰ p h ∙ sort_by-Permᴰ q (λ c d m n. h c d (Memᴰ-Permᴰ p m) (Memᴰ-Permᴰ p n))

  insert-All :
      (x : A) (xs : List A) (b : A)
      → le b x ≡ true
      → All (λ y. le b y ≡ true) xs
      → All (λ y. le b y ≡ true) (insert le x xs)
  unfolding insert
  insert-All x [] b h k = (h, tt)
  insert-All x (y ∷ ys) b h k = ground (arith, insert-All x ys b h k.1)

  insert-IsSorted : (x : A) (xs : List A) → IsSorted le xs → IsSorted le (insert le x xs)
  unfolding insert
  insert-IsSorted x [] h = (tt, tt)
  insert-IsSorted x (y ∷ ys) h = ground (
    arith,
    λ (p : le x y ≡ true). All-map (λ z q. o.trans x y z p q) ys h.0,
    λ (p : le y x ≡ true). insert-All x ys y p h.0,
    o.total x y,
    insert-IsSorted x ys h.1,
  )

  pub sort_by-IsSorted : (xs : List A) → IsSorted le (sort_by le xs)
  unfolding sort_by
  sort_by-IsSorted [] = tt
  sort_by-IsSorted (x ∷ xs) = insert-IsSorted x (sort_by le xs) (sort_by-IsSorted xs)
