-- ===== src/Base/Results.antt =====
-- Code that may panic. A `log.Fatal`, an index out of range and a write to a nil map are all
-- `panic`: the process ends.
use mathlib.Core.Path.{◌≡◌, refl}
use mathlib.Core.Logic.{◌⊎◌, inl, inr}
use mathlib.Core.Option.{Option, none, some}

pub data Result {ℓ} (A : Type ℓ) : Type ℓ where
  ok : A → Result A
  panic : Result A

infixl 5 ◌>>=◌
abbrev pub ◌>>=◌ {ℓ κ} : {A : Type ℓ} {B : Type κ} → Result A → (A → Result B) → Result B
panic >>= next = panic
ok value >>= next = next value

-- A value that the code demands: `nil` there is a panic.
abbrev pub demand {ℓ} : {A : Type ℓ} → Option A → Result A
demand none = panic
demand (some a) = ok a

pub Result-cases {ℓ} : {A : Type ℓ} (r : Result A) → (r ≡ panic) ⊎ ((a : A) × (r ≡ ok a))
Result-cases panic = inl refl
Result-cases (ok a) = inr (a, refl)

pub eq_of_ok {ℓ} : {A : Type ℓ} {a b : A} → ok a ≡ ok b → a ≡ b
eq_of_ok h = cc
