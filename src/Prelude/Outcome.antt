-- ===== src/Prelude/Outcome.antt =====
-- Rust's `Result`, with `?` as a `do` block and `if test { return Err(e) }` as `reject_if test e`.
use mathlib.Core.Path.{◌≡◌, refl}
use mathlib.Core.Bool.{Bool, true, false}
use mathlib.Core.List.{List, [], ◌∷◌}

pub data Result {ℓ κ} (E : Type κ) (A : Type ℓ) : Type (ℓ ⊔ κ) where
  ok : A → Result E A
  err : E → Result E A

infixl 5 ◌>>=◌ ◌>>◌
abbrev pub ◌>>=◌ {ℓ κ μ} :
    {E : Type κ} {A : Type ℓ} {B : Type μ} → Result E A → (A → Result E B) → Result E B
err e >>= rest = err e
ok x >>= rest = rest x

abbrev pub ◌>>◌ {ℓ κ} : {E : Type κ} {B : Type ℓ} → Result E (Unit {0}) → Result E B → Result E B
m >> k = m >>= λ _. k

abbrev pub reject_if {κ} : {E : Type κ} → Bool → E → Result E (Unit {0})
reject_if true e = err e
reject_if false e = ok tt

-- `for x in xs { check(x)?; }`
abbrev pub for_each {ℓ κ} :
    {E : Type κ} {A : Type ℓ} → (A → Result E (Unit {0})) → List A → Result E (Unit {0})
for_each check [] = ok tt
for_each check (x ∷ xs) = check x >> for_each check xs

-- A block that returns has a first step that returned, and the rest of it returns on its value.
pub >>=-eq-ok {ℓ κ μ} :
    {E : Type κ} {A : Type ℓ} {B : Type μ} (step : Result E A) (rest : A → Result E B) {out : B}
    → (step >>= rest) ≡ ok out
    → (x : A) × (step ≡ ok x) × (rest x ≡ ok out)
>>=-eq-ok (err e) rest h = cc
>>=-eq-ok (ok x) rest h = (x, refl, h)

-- A block that returns has passed its guard, and the rest of it returns.
pub reject_if-eq-ok {ℓ κ} :
    {E : Type κ} {B : Type ℓ} (t : Bool) (e : E) (k : Result E B) {b : B}
    → (reject_if t e >> k) ≡ ok b
    → (t ≡ false) × (k ≡ ok b)
reject_if-eq-ok true e k h = cc
reject_if-eq-ok false e k h = (refl, h)

pub >>-eq-ok {ℓ κ} :
    {E : Type κ} {B : Type ℓ} (m : Result E (Unit {0})) (k : Result E B) {b : B}
    → (m >> k) ≡ ok b
    → (m ≡ ok tt) × (k ≡ ok b)
>>-eq-ok (ok tt) k h = (refl, h)
>>-eq-ok (err e) k h = cc
