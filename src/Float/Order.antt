-- ===== src/Float/Order.antt =====
-- Minimum and maximum of floats that are not NaN.
use nexa_trade.Prelude.{arith}
use nexa_trade.Float.{Float, IsOrdered, IsNumber, ◌≼◌, min_f, max_f}

module _ {F : Type 0} ⦃f : Float F⦄ (laws : IsOrdered F) where
  open laws use {number_of_le, le_trans, le_total, lt-not-le}

  pub min_f-IsNumber : (a b : F) → IsNumber a → IsNumber b → IsNumber (min_f a b)
  min_f-IsNumber a b na nb = ground arith

  pub max_f-IsNumber : (a b : F) → IsNumber a → IsNumber b → IsNumber (max_f a b)
  max_f-IsNumber a b na nb = ground arith

  pub min_f-le : (a b : F) → IsNumber a → IsNumber b → (min_f a b ≼ a) × (min_f a b ≼ b)
  min_f-le a b na nb = ground (arith, lt-not-le b a nb na, le_total a b na nb)

  pub le-max_f : (a b : F) → IsNumber a → IsNumber b → (a ≼ max_f a b) × (b ≼ max_f a b)
  le-max_f a b na nb = ground (arith, lt-not-le a b na nb, le_total a b na nb)

  pub max_f-le : (a b c : F) → a ≼ c → b ≼ c → max_f a b ≼ c
  max_f-le a b c ac bc = ground arith

  pub max_f_mono : (a b c : F) → a ≼ b → IsNumber c → max_f a c ≼ max_f b c
  max_f_mono a b c ab nc =
      let (na, nb) = number_of_le a b ab in
      let (up, right) = le-max_f b c nb nc in
      max_f-le a c (max_f b c) (le_trans a b (max_f b c) ab up) right
