-- ===== src/Base/Outcome.antt =====
-- The result of a Go function with an error return. `Failure` names the place that made the error;
-- the texts that `fmt.Errorf` builds are not modelled.

use mathlib.Core.Path.{◌≡◌, refl, ap}

-- The status codes of gRPC that the servers answer with, and plain errors.
pub data Code : Type 0 where
  invalid_argument aborted internal unimplemented unavailable unknown : Code

pub data Result {ℓ κ} (E : Type κ) (A : Type ℓ) : Type (ℓ ⊔ κ) where
  ok : A → Result E A
  err : E → Result E A

-- One call that reads and writes a state and may fail; what it wrote before it failed stays.
abbrev pub Act {ℓ} : Type ℓ → Type ℓ → Type ℓ → Type ℓ
Act S E A = S → Result E A × S

infixl 10 ◌>>=◌
abbrev pub ◌>>=◌ {ℓ κ μ} :
    {E : Type κ} {A : Type ℓ} {B : Type μ} → Result E A → (A → Result E B) → Result E B
ok a >>= f = f a
err e >>= f = err e

module _ {ℓ κ} {E : Type κ} {A : Type ℓ} where
  value_or : A → Result E A → A
  value_or d (ok a) = a
  value_or d (err e) = d

  pub ok-injective : {a b : A} → ◌≡◌ {A = Result E A} (ok a) (ok b) → a ≡ b
  unfolding value_or
  ok-injective {a} e = ap (value_or a) e

-- A chain that succeeds had a first step that succeeded.
pub >>=-eq-ok {ℓ κ μ} :
    {E : Type κ} {A : Type ℓ} {B : Type μ} {last : B} (first : Result E A) (rest : A → Result E B)
    → (first >>= rest) ≡ ok last
    → (a : A) × (first ≡ ok a) × (rest a ≡ ok last)
>>=-eq-ok (err failure) rest h = cc
>>=-eq-ok (ok done) rest h = (done, refl, h)
