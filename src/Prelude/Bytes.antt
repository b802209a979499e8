-- ===== src/Prelude/Bytes.antt =====
-- Rust's strings and byte vectors as lists of bytes. `len`, `contains` and `split` of a string read
-- its UTF-8 bytes, and every separator that the code looks for is ASCII, so bytes are enough.
use Prim.Native.Nat.{compare, Ordering}
use Prim.Native.Char.{code}
use eggwork.Prelude.Tests.{leb, ltb, ◌==◌, if◌then◌else◌}
use eggwork.Prelude.Lists.{all, any}
use Prim.Native.Nat.{ℕ, ◌+◌, ◌-◌}
use Prim.Native.String.{String}
use mathlib.Core.Path.{◌≡◌, refl, sym, ap, ◌∙◌}
use mathlib.Core.Logic.{◌↔◌}
use mathlib.Core.Bool.{Bool, true, false, ◌&&◌, ◌||◌}
use mathlib.Core.Option.{Option, none, some}
use mathlib.Core.List.{List, [], ◌∷◌, map}
use native.Mathlib.Omega.{arith}

abbrev pub Bytes : Type 0
Bytes = List ℕ

-- The bytes of an ASCII literal.
abbrev pub bytes : String → Bytes
bytes String.[] = []
bytes (String.◌∷◌ c s) = code c ∷ bytes s

unfoldable pub bytes_eq : Bytes → Bytes → Bool
bytes_eq [] [] = true
bytes_eq [] (y ∷ ys) = false
bytes_eq (x ∷ xs) [] = false
bytes_eq (x ∷ xs) (y ∷ ys) = x == y && bytes_eq xs ys

pub bytes_eq_refl : (xs : Bytes) → bytes_eq xs xs ≡ true
unfolding bytes_eq
bytes_eq_refl [] = refl
bytes_eq_refl (x ∷ xs) = ground (arith, bytes_eq_refl xs)

pub eq_of_bytes_eq : (xs ys : Bytes) → bytes_eq xs ys ≡ true → xs ≡ ys
unfolding bytes_eq
eq_of_bytes_eq [] [] h = refl
eq_of_bytes_eq [] (y ∷ ys) h = cc
eq_of_bytes_eq (x ∷ xs) [] h = cc
eq_of_bytes_eq (x ∷ xs) (y ∷ ys) h = ground (arith, eq_of_bytes_eq xs ys)

pub bytes_eq_iff : (xs ys : Bytes) → (bytes_eq xs ys ≡ true) ↔ (xs ≡ ys)
bytes_eq_iff xs ys =
    (eq_of_bytes_eq xs ys, λ e. ap (λ zs. bytes_eq xs zs) (sym e) ∙ bytes_eq_refl xs)

unfoldable pub contains : ℕ → Bytes → Bool
contains b = any (λ x. x == b)

unfoldable pub starts_with : ℕ → Bytes → Bool
starts_with b [] = false
starts_with b (x ∷ xs) = x == b

unfoldable pub ends_with : ℕ → Bytes → Bool
ends_with b [] = false
ends_with b (x ∷ []) = x == b
ends_with b (x ∷ y ∷ ys) = ends_with b (y ∷ ys)

unfoldable pub is_empty : Bytes → Bool
is_empty [] = true
is_empty (x ∷ xs) = false

-- `str::split` at one byte: never empty, and the separators are gone.
abbrev push_front : ℕ → List Bytes → List Bytes
push_front b [] = (b ∷ []) ∷ []
push_front b (c ∷ cs) = (b ∷ c) ∷ cs

unfoldable pub split : ℕ → Bytes → List Bytes
split sep [] = [] ∷ []
split sep (b ∷ bs) = let rest = split sep bs in if b == sep then [] ∷ rest else push_front b rest

-- The first component, `split(sep).next()`.
unfoldable pub split_first : ℕ → Bytes → Bytes
split_first sep [] = []
split_first sep (b ∷ bs) = let rest = split_first sep bs in if b == sep then [] else b ∷ rest

unfoldable pub is_ascii_digit : ℕ → Bool
is_ascii_digit b = leb b'0' b && leb b b'9'

unfoldable pub is_ascii_uppercase : ℕ → Bool
is_ascii_uppercase b = leb b'A' b && leb b b'Z'

unfoldable pub is_ascii_lowercase : ℕ → Bool
is_ascii_lowercase b = leb b'a' b && leb b b'z'

unfoldable pub is_ascii_alphanumeric : ℕ → Bool
unfolding is_ascii_digit is_ascii_uppercase is_ascii_lowercase
is_ascii_alphanumeric b = is_ascii_digit b || is_ascii_uppercase b || is_ascii_lowercase b

unfoldable pub is_ascii_hexdigit : ℕ → Bool
unfolding is_ascii_digit
is_ascii_hexdigit b = is_ascii_digit b || leb b'A' b && leb b b'F' || leb b'a' b && leb b b'f'

unfoldable pub is_ascii : Bytes → Bool
is_ascii = all (λ b. ltb b 128)

to_lower : ℕ → ℕ
unfolding is_ascii_uppercase
to_lower b = if is_ascii_uppercase b then b + 32 else b

to_upper : ℕ → ℕ
unfolding is_ascii_lowercase
to_upper b = if is_ascii_lowercase b then b - 32 else b

unfoldable pub to_ascii_lowercase : Bytes → Bytes
unfolding to_lower
to_ascii_lowercase = map to_lower

unfoldable pub to_ascii_uppercase : Bytes → Bytes
unfolding to_upper
to_ascii_uppercase = map to_upper

-- `str::strip_prefix`: the rest of the text, if it begins with the prefix.
unfoldable pub strip_prefix : Bytes → Bytes → Option Bytes
strip_prefix [] ys = some ys
strip_prefix (x ∷ xs) [] = none
strip_prefix (x ∷ xs) (y ∷ ys) = let rest = strip_prefix xs ys in if x == y then rest else none

-- `Ord` of strings: bytewise lexicographic order.
unfoldable pub cmp_bytes : Bytes → Bytes → Ordering
cmp_bytes [] [] = Ordering.eq
cmp_bytes [] (y ∷ ys) = Ordering.lt
cmp_bytes (x ∷ xs) [] = Ordering.gt
cmp_bytes (x ∷ xs) (y ∷ ys) =
    let rest = cmp_bytes xs ys in
    elim (compare x y) [
      | Ordering.lt ↦ Ordering.lt
      | Ordering.eq ↦ rest
      | Ordering.gt ↦ Ordering.gt
    ]

pub cmp_bytes_refl : (xs : Bytes) → cmp_bytes xs xs ≡ Ordering.eq
unfolding cmp_bytes
cmp_bytes_refl [] = refl
cmp_bytes_refl (x ∷ xs) = ground (arith, cmp_bytes_refl xs)

pub eq_of_cmp_bytes : (xs ys : Bytes) → cmp_bytes xs ys ≡ Ordering.eq → xs ≡ ys
unfolding cmp_bytes
eq_of_cmp_bytes [] [] h = refl
eq_of_cmp_bytes [] (y ∷ ys) h = cc
eq_of_cmp_bytes (x ∷ xs) [] h = cc
eq_of_cmp_bytes (x ∷ xs) (y ∷ ys) h = ground (arith, eq_of_cmp_bytes xs ys)

pub cmp_bytes-gt : (xs ys : Bytes) → cmp_bytes xs ys ≡ Ordering.gt → cmp_bytes ys xs ≡ Ordering.lt
unfolding cmp_bytes
cmp_bytes-gt [] [] h = cc
cmp_bytes-gt [] (y ∷ ys) h = cc
cmp_bytes-gt (x ∷ xs) [] h = refl
cmp_bytes-gt (x ∷ xs) (y ∷ ys) h = ground (arith, cmp_bytes-gt xs ys)

pub cmp_bytes-lt : (xs ys : Bytes) → cmp_bytes xs ys ≡ Ordering.lt → cmp_bytes ys xs ≡ Ordering.gt
unfolding cmp_bytes
cmp_bytes-lt [] [] h = cc
cmp_bytes-lt [] (y ∷ ys) h = refl
cmp_bytes-lt (x ∷ xs) [] h = cc
cmp_bytes-lt (x ∷ xs) (y ∷ ys) h = ground (arith, cmp_bytes-lt xs ys)

pub cmp_bytes_trans :
    (xs ys zs : Bytes)
    → cmp_bytes xs ys ≡ Ordering.lt
    → cmp_bytes ys zs ≡ Ordering.lt
    → cmp_bytes xs zs ≡ Ordering.lt
unfolding cmp_bytes
cmp_bytes_trans [] [] zs h k = cc
cmp_bytes_trans [] (y ∷ ys) [] h k = cc
cmp_bytes_trans [] (y ∷ ys) (z ∷ zs) h k = refl
cmp_bytes_trans (x ∷ xs) [] zs h k = cc
cmp_bytes_trans (x ∷ xs) (y ∷ ys) [] h k = cc
cmp_bytes_trans (x ∷ xs) (y ∷ ys) (z ∷ zs) h k = ground (arith, cmp_bytes_trans xs ys zs)
