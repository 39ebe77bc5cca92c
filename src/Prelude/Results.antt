-- ===== src/Prelude/Results.antt =====
-- What a call ends in: a value, a failed `assert`, or behaviour that the language leaves open.
-- `invalid` also stands for an index that no longer fits the `int` that keeps it.
use mathlib.Core.Path.{◌≡◌, refl, subst}
use mathlib.Core.Bool.{Bool, true, false}

pub data Outcome {ℓ} (A : Type ℓ) : Type ℓ where
  ok : A → Outcome A
  aborted : Outcome A
  invalid : Outcome A

-- A step that did not return ends the whole call.
infixl 5 ◌>>=◌ ◌>>◌
abbrev pub ◌>>=◌ {ℓ κ} : {A : Type ℓ} {B : Type κ} → Outcome A → (A → Outcome B) → Outcome B
aborted >>= rest = aborted
invalid >>= rest = invalid
ok value >>= rest = rest value

abbrev pub ◌>>◌ {κ} : {B : Type κ} → Outcome (Unit {0}) → Outcome B → Outcome B
aborted >> later = aborted
invalid >> later = invalid
ok tt >> later = later

-- `assert(test)`
abbrev pub assert : Bool → Outcome (Unit {0})
assert true = ok tt
assert false = aborted

-- A step that is defined only where the test holds.
abbrev pub require : Bool → Outcome (Unit {0})
require true = ok tt
require false = invalid

-- The call returns, and its value has the property.
abbrev pub Returns {ℓ κ} : {A : Type ℓ} → (A → Type κ) → Outcome A → Type (ℓ ⊔ κ)
Returns {A = A} P m = (a : A) × (m ≡ ok a) × P a

-- A call that returned has returned from each of its steps.
pub >>=-eq-ok {ℓ κ} :
    {A : Type ℓ} {B : Type κ} (step : Outcome A) (rest : A → Outcome B) {result : B}
    → (step >>= rest) ≡ ok result
    → (value : A) × (step ≡ ok value) × (rest value ≡ ok result)
>>=-eq-ok aborted rest e = cc
>>=-eq-ok invalid rest e = cc
>>=-eq-ok (ok value) rest e = (value, refl, e)

pub >>=-assoc {ℓ κ μ} :
    {A : Type ℓ} {B : Type κ} {C : Type μ} (step : Outcome A) (rest : A → Outcome B)
    (last : B → Outcome C)
    → (step >>= rest) >>= last ≡ (step >>= (λ a. rest a >>= last))
>>=-assoc aborted rest last = refl
>>=-assoc invalid rest last = refl
>>=-assoc (ok value) rest last = refl

pub >>=-same {ℓ κ} :
    {A : Type ℓ} {B : Type κ} (step : Outcome A) {rest rest' : A → Outcome B}
    → ((a : A) → rest a ≡ rest' a)
    → (step >>= rest) ≡ (step >>= rest')
>>=-same aborted h = refl
>>=-same invalid h = refl
>>=-same (ok value) h = h value

-- A call that returned has passed its assertion.
pub assert-eq-ok {κ} :
    {B : Type κ} (test : Bool) (rest : Outcome B) {result : B}
    → (assert test >> rest) ≡ ok result
    → (test ≡ true) × (rest ≡ ok result)
assert-eq-ok true rest e = (refl, e)
assert-eq-ok false rest e = cc

-- What is known of the value that a call returns holds of the value that it has returned.
pub of_returns {ℓ κ} :
    {A : Type ℓ} {P : A → Type κ} {o : Outcome A} (r : A) → Returns P o → o ≡ ok r → P r
of_returns {P = P} r (s, run, p) e = subst P same p
  where
    same : s ≡ r
    same = cc
