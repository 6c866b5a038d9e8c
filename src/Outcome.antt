-- ===== src/Outcome.antt =====
-- What a call that may raise gives: its value, or the exception.
use nexa_trade.Prelude.{◌≡◌, refl, Bool, true, false}

pub data Error : Type 0 where
  value_error validation_error zero_division connection_error backend_error : Error
  runtime_error attribute_error key_error : Error
  -- no exception of the source: the fuel of a loop ran out
  out_of_fuel : Error

pub data Outcome {ℓ} (A : Type ℓ) : Type ℓ where
  ok : A → Outcome A
  raised : Error → Outcome A

-- An exception ends the call; otherwise the next statement runs on the value.
infixl 5 ◌>>=◌ ◌>>◌
abbrev pub ◌>>=◌ {ℓ κ} : {A : Type ℓ} {B : Type κ} → Outcome A → (A → Outcome B) → Outcome B
raised exception >>= next = raised exception
ok value >>= next = next value

abbrev pub ◌>>◌ {κ} : {B : Type κ} → Outcome (Unit {0}) → Outcome B → Outcome B
m >> rest = m >>= λ _. rest

-- `if not c: raise e`
abbrev pub require : Bool → Error → Outcome (Unit {0})
require true e = ok tt
require false e = raised e

-- The call returns, and what it returns satisfies `P`.
abbrev pub Returns {ℓ} : {A : Type ℓ} → (A → Type 0) → Outcome A → Type 0
Returns P (ok a) = P a
Returns P (raised e) = ⊥

pub Returns->>= :
    {A B : Type 0} (P : A → Type 0) (Q : B → Type 0) (m : Outcome A) (f : A → Outcome B)
    → Returns P m
    → ((a : A) → P a → Returns Q (f a))
    → Returns Q (m >>= f)
Returns->>= P Q (ok a) f h k = k a h
Returns->>= P Q (raised e) f h k = absurd h

pub Returns-weaken :
    {A : Type 0} (P Q : A → Type 0) (m : Outcome A)
    → Returns P m
    → ((a : A) → P a → Q a)
    → Returns Q m
Returns-weaken P Q (ok a) h k = k a h
Returns-weaken P Q (raised e) h k = absurd h

pub Returns-ok :
    {A : Type 0} (P : A → Type 0) (m : Outcome A) → Returns P m → (a : A) × (m ≡ ok a) × P a
Returns-ok P (ok a) h = (a, refl, h)
Returns-ok P (raised e) h = absurd h

-- A result, if there is one, is as it should be.
abbrev pub May : {A : Type 0} → (A → Type 0) → Outcome A → Type 0
May P (ok a) = P a
May P (raised e) = Unit

pub May->>= :
    {A C : Type 0} (P : C → Type 0) (m : Outcome A) (k : A → Outcome C)
    → ((a : A) → m ≡ ok a → May P (k a))
    → May P (m >>= k)
May->>= P (ok a) k h = h a refl
May->>= P (raised e) k h = tt

pub May-weaken :
    {A : Type 0} (P Q : A → Type 0) (m : Outcome A) → May P m → ((a : A) → P a → Q a) → May Q m
May-weaken P Q (ok a) h k = k a h
May-weaken P Q (raised e) h k = tt

-- A call that returns, and whose result is as it should be if there is one.
pub Returns-May :
    {A : Type 0} (P Q : A → Type 0) (m : Outcome A)
    → Returns P m
    → May Q m
    → Returns (λ a. P a × Q a) m
Returns-May P Q (ok a) h k = (h, k)
Returns-May P Q (raised e) h k = absurd h
