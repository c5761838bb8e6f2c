-- ===== src/Prelude/Outcome.antt =====
-- A Python call that may raise: its value, or the exception.
use mathlib.Core.Path.{◌≡◌, refl, ap, subst}
use mathlib.Core.Bool.{Bool, true, false}

pub data Result {ℓ κ} (E : Type ℓ) (A : Type κ) : Type (ℓ ⊔ κ) where
  ok : A → Result E A
  err : E → Result E A

infixl 5 ◌>>=◌
abbrev pub ◌>>=◌ {ℓ κ μ} :
    {E : Type ℓ} {A : Type κ} {B : Type μ} → Result E A → (A → Result E B) → Result E B
ok value >>= later = later value
err raised >>= later = err raised

-- `if test: raise e`
abbrev pub raise_if {ℓ} : {E : Type ℓ} → Bool → E → Result E (Unit {0})
raise_if true e = err e
raise_if false e = ok tt

-- A call for its effect, and what follows it
infixl 5 ◌>>◌
abbrev pub ◌>>◌ {ℓ κ} : {E : Type ℓ} {B : Type κ} → Result E (Unit {0}) → Result E B → Result E B
call >> later = call >>= λ _. later

pub >>=-eq-ok {ℓ κ μ} :
    {E : Type ℓ} {A : Type κ} {B : Type μ} (call : Result E A) (later : A → Result E B) {result : B}
    → (call >>= later) ≡ ok result
    → (value : A) × (call ≡ ok value) × (later value ≡ ok result)
>>=-eq-ok (ok value) later returned = (value, refl, returned)
>>=-eq-ok (err raised) later returned = cc

-- What holds of the value whenever the call returns one.
pub record Returns {ℓ κ μ} {E : Type ℓ} {A : Type κ} (P : A → Type μ) (m : Result E A)
    : Type (ℓ ⊔ κ ⊔ μ) where
  pub at : (a : A) → m ≡ ok a → P a

module _ {ℓ κ μ} {E : Type ℓ} {A : Type κ} {P : A → Type μ} where
  pub Returns-ok : {a : A} → P a → Returns {E = E} P (ok a)
  Returns-ok {a} h = record { at = λ b e. subst P (ap value e) h }
    where
      value : Result E A → A
      value (ok b) = b
      value (err _) = a

  pub Returns-err : (e : E) → Returns P (err e)
  Returns-err e = record { at = λ b p. cc }

module _ {ℓ κ μ ν ξ} {E : Type ℓ} {A : Type κ} {B : Type μ} {P : A → Type ν} {Q : B → Type ξ} where
  -- The rest of a block may use what its first call returns.
  pub Returns-bind :
      {m : Result E A} (f : A → Result E B)
      → Returns P m
      → ((a : A) → P a → Returns Q (f a))
      → Returns Q (m >>= f)
  Returns-bind {m = ok a} f hm hf = hf a (hm.at a refl)
  Returns-bind {m = err e} f hm hf = Returns-err e
