-- ===== src/Float.antt =====
-- Python's `float` as the program uses it. The type and its operations are parameters (an instance
-- argument of every definition that computes with prices), since there is no floating point here.
-- `IsOrdered` states what IEEE 754 documents of `<=` and `<`, of adding and of rounding, away from
-- NaN, which is the value that is not `<=` itself.
pub mod Fixed
pub mod Order
use nexa_trade.Prelude.{
  ℕ, ◌≡◌, ◌⊎◌, Bool, true, false, not, if◌then◌else◌, Option, none, some, ◌&&◌,
}
use nexa_trade.Prelude.Int.{ℤ, pos}
use nexa_trade.Outcome.{Outcome, ok, raised, Error}

pub record Float (F : Type 0) : Type 0 where
  -- `float(n)`, and what an int becomes next to a float
  pub of_ℤ : ℤ → F
  -- the literal `m` with `e` decimals: `decimal 1 2` is 0.01
  pub decimal : ℕ → ℕ → F
  pub add : F → F → F
  pub sub : F → F → F
  pub mul : F → F → F
  -- `a / b` for a `b` that is not zero; the code's own division by zero is written out
  pub div : F → F → F
  pub le : F → F → Bool
  pub lt : F → F → Bool
  pub eq : F → F → Bool
  -- `round(x, n)`
  pub round : ℕ → F → F
  -- `int(x)`, and what it raises: a ValueError for NaN, an OverflowError for an infinity
  pub trunc : F → ℤ
  pub int_error : F → Option Error

abbrev pub int_unless : Option Error → ℤ → Outcome ℤ
int_unless none n = ok n
int_unless (some e) n = raised e

module _ {F : Type 0} ⦃f : Float F⦄ where
  infixl 65 ◌⊕◌ ◌⊖◌
  infixl 70 ◌⊗◌ ◌⊘◌
  abbrev pub ◌⊕◌ : F → F → F
  a ⊕ b = f.add a b

  abbrev pub ◌⊖◌ : F → F → F
  a ⊖ b = f.sub a b

  abbrev pub ◌⊗◌ : F → F → F
  a ⊗ b = f.mul a b

  abbrev pub ◌⊘◌ : F → F → F
  a ⊘ b = f.div a b

  -- `0.0`
  abbrev pub nought : F
  nought = f.decimal 0 1

  -- `int(x)` where it may raise
  abbrev pub int_of : F → Outcome ℤ
  int_of x = int_unless (f.int_error x) (f.trunc x)

  -- `100.0`
  abbrev pub hundred : F
  hundred = f.decimal 100 0

  -- `if x:` on a float
  abbrev pub truthy : F → Bool
  truthy x = not (f.eq x nought)

  -- `if x:` on an `Optional[float]`
  abbrev pub truthy? : Option F → Bool
  truthy? none = false
  truthy? (some x) = truthy x

  -- `min(a, b)`, `max(a, b)` and `abs(a)`: Python keeps the first of two that compare equal.
  abbrev pub min_f : F → F → F
  min_f a b = if f.lt b a then b else a

  abbrev pub max_f : F → F → F
  max_f a b = if f.lt a b then b else a

  abbrev pub abs_f : F → F
  abs_f a = if f.lt a nought then nought ⊖ a else a

infix 4 ◌≼◌
abbrev pub ◌≼◌ : {F : Type 0} ⦃f : Float F⦄ → F → F → Type 0
◌≼◌ ⦃f⦄ a b = f.le a b ≡ true

-- A value that is not NaN.
abbrev pub IsNumber : {F : Type 0} ⦃f : Float F⦄ → F → Type 0
IsNumber x = x ≼ x

pub record IsOrdered (F : Type 0) ⦃f : Float F⦄ : Type 0 where
  pub number_of_le : (a b : F) → a ≼ b → IsNumber a × IsNumber b
  pub le_trans : (a b c : F) → a ≼ b → b ≼ c → a ≼ c
  pub le_total : (a b : F) → IsNumber a → IsNumber b → (a ≼ b) ⊎ (b ≼ a)
  pub lt-not-le : (a b : F) → IsNumber a → IsNumber b → f.lt a b ≡ not (f.le b a)
  pub eq-le : (a b : F) → f.eq a b ≡ (f.le a b && f.le b a)
  -- rounding is monotone
  pub round_mono : (n : ℕ) (a b : F) → a ≼ b → f.round n a ≼ f.round n b
  -- adding is monotone
  pub add_mono : (a b c : F) → a ≼ b → IsNumber (a ⊕ c) → IsNumber (b ⊕ c) → a ⊕ c ≼ b ⊕ c
  pub sub_mono : (a b c : F) → a ≼ b → IsNumber (a ⊖ c) → IsNumber (b ⊖ c) → a ⊖ c ≼ b ⊖ c
  -- adding or taking away what is not negative
  pub le-add : (a b : F) → nought ≼ b → IsNumber (a ⊕ b) → a ≼ a ⊕ b
  pub sub-le : (a b : F) → nought ≼ b → IsNumber (a ⊖ b) → a ⊖ b ≼ a
  pub decimal_number : (m e : ℕ) → IsNumber (f.decimal m e)
  pub nought-le-cent : nought ≼ f.decimal 1 2
  pub cent-not-nought : f.le (f.decimal 1 2) nought ≡ false
