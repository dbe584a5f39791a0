-- ===== src/Base/Errors.antt =====
-- Python code that may raise. An error is the text of its exception.
use Prim.Native.String.{String}
use mathlib.Core.Path.{◌≡◌, refl}
use mathlib.Core.Logic.{◌⊎◌, inl, inr}
use mathlib.Core.Bool.{Bool, true, false}

pub data Result {ℓ} (A : Type ℓ) : Type ℓ where
  ok : A → Result A
  err : String → Result A

infixl 5 ◌>>=◌ ◌>>◌
unfoldable pub ◌>>=◌ {ℓ κ} : {X : Type ℓ} {Y : Type κ} → Result X → (X → Result Y) → Result Y
err reason >>= next = err reason
ok x >>= next = next x

-- A test before the rest.
abbrev pub ◌>>◌ {κ} : {Y : Type κ} → Result (Unit {0}) → Result Y → Result Y
tested >> rest = tested >>= λ done. rest

-- `if not test: raise ...`
abbrev pub require : Bool → String → Result (Unit {0})
require true reason = ok tt
require false reason = err reason

abbrev pub is_ok {ℓ} : {A : Type ℓ} → Result A → Bool
is_ok (ok a) = true
is_ok (err e) = false

-- Inversion of a successful bind.
pub >>=-eq-ok {ℓ κ} :
    {X : Type ℓ} {Y : Type κ} (first : Result X) (next : X → Result Y) {y : Y}
    → (first >>= next) ≡ ok y
    → (x : X) × (first ≡ ok x) × (next x ≡ ok y)
unfolding ◌>>=◌
>>=-eq-ok (err reason) next h = cc
>>=-eq-ok (ok x) next h = (x, refl, h)

pub require-eq-ok {ℓ} :
    {B : Type ℓ} (test : Bool) (reason : String) (k : Result B) {b : B}
    → (require test reason >> k) ≡ ok b
    → (test ≡ true) × (k ≡ ok b)
unfolding ◌>>=◌
require-eq-ok true reason k h = (refl, h)
require-eq-ok false reason k h = cc

pub ok-injective {ℓ} : {A : Type ℓ} {a b : A} → ok a ≡ ok b → a ≡ b
ok-injective h = cc

pub Result-cases {ℓ} :
    {A : Type ℓ} (m : Result A) → ((a : A) × (m ≡ ok a)) ⊎ ((e : String) × (m ≡ err e))
Result-cases (ok a) = inl (a, refl)
Result-cases (err e) = inr (e, refl)

pub err-ok {ℓ} : {A : Type ℓ} {e : String} {a : A} → err e ≡ ok a → ⊥
err-ok h = cc
