-- ===== src/Core/Error.antt =====
-- crates/eggwork-core/src/lib.rs: `ValidationError`.
use eggwork.Prelude.{ℕ, String, Result}

pub data ValidationError : Type 0 where
  empty : String → ValidationError
  too_long : String → ℕ → ValidationError
  invalid_syntax : String → ValidationError
  too_many : String → ℕ → ValidationError
  forbidden : String → ValidationError
  invalid_path : String → ValidationError
  out_of_range : String → ValidationError

-- What a validator returns.
abbrev pub Checked {ℓ} : Type ℓ → Type ℓ
Checked A = Result ValidationError A

abbrev pub Validation : Type 0
Validation = Checked (Unit {0})
