-- ===== src/Prelude/Results.antt =====
-- Fallible code: a value or an error, with `do`.
use mathlib.Core.Path.{◌≡◌, refl}
use mathlib.Core.Bool.{Bool, true, false}

pub data Result {ℓ κ} (E : Type ℓ) (A : Type κ) : Type (ℓ ⊔ κ) where
  ok : A → Result E A
  fail : E → Result E A

-- `if bad { return e }`
abbrev pub reject_if {ℓ} : {E : Type ℓ} → Bool → E → Result E (Unit {0})
reject_if false reason = ok tt
reject_if true reason = fail reason

module _ {ℓ κ} {E : Type ℓ} {B : Type κ} where
  infixl 5 ◌>>=◌
  abbrev pub ◌>>=◌ {μ} : {A : Type μ} → Result E A → (A → Result E B) → Result E B
  fail reason >>= next = fail reason
  ok value >>= next = next value

  infixl 5 ◌>>◌
  abbrev pub ◌>>◌ : Result E (Unit {0}) → Result E B → Result E B
  check >> next = check >>= λ passed. next

-- Where a successful bind comes from, for proofs where the parts stay shut.
module _ {ℓ κ μ} {E : Type ℓ} {A : Type κ} {B : Type μ} where
  pub >>=-eq-ok :
      (ran : Result E A) (next : A → Result E B) {final : B}
      → (ran >>= next) ≡ ok final
      → (value : A) × (ran ≡ ok value) × (next value ≡ ok final)
  >>=-eq-ok (fail reason) next came = cc
  >>=-eq-ok (ok value) next came = (value, refl, came)

-- What a guard that let the code go on has tested.
pub reject_if-ok {ℓ κ} :
    {E : Type ℓ} {A : Type κ} (bad : Bool) (e : E) (k : Result E A) {a : A}
    → (reject_if bad e >> k) ≡ ok a
    → (bad ≡ false) × (k ≡ ok a)
reject_if-ok true e k h = cc
reject_if-ok false e k h = (refl, h)
