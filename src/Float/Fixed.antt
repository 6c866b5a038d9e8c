-- ===== src/Float/Fixed.antt =====
-- An instance of `Float` that runs, for tests and for showing that the assumptions can be met: whole
-- ten-thousandths. Products and quotients are cut off at four decimals, so rounding to four decimals
-- or more changes nothing, and rounding to fewer is not carried out.
use nexa_trade.Prelude.{ℕ, none, ◌*◌, ◌/◌, ◌^◌, ◌+◌, if◌then◌else◌, ◌==◌, arith}
use nexa_trade.Prelude.Int.{
  ℤ, pos, pos_part, neg_part, sub_ℕ, ◌+ℤ◌, ◌-ℤ◌, ◌*ℤ◌, leb_ℤ, ltb_ℤ, eqb_ℤ,
}
use nexa_trade.Float.{Float, IsOrdered}

abbrev pub Fixed : Type 0
Fixed = ℤ

-- a / d, towards zero
abbrev cut : ℤ → ℕ → ℤ
cut a d = sub_ℕ (pos_part a / d) (neg_part a / d)

abbrev quotient : ℤ → ℤ → ℤ
quotient a b =
    let d = pos_part b + neg_part b in
    if neg_part b == 0
    then sub_ℕ (pos_part a * 10000 / d) (neg_part a * 10000 / d)
    else sub_ℕ (neg_part a * 10000 / d) (pos_part a * 10000 / d)

instance unfoldable pub fixed_float : Float Fixed
unfolding ◌+ℤ◌ ◌-ℤ◌ ◌*ℤ◌
fixed_float = record {
  of_ℤ = λ n. n *ℤ pos 10000;
  decimal = λ m e. pos (m * 10000 / 10 ^ e);
  add = ◌+ℤ◌;
  sub = ◌-ℤ◌;
  mul = λ a b. cut (a *ℤ b) 10000;
  div = quotient;
  le = leb_ℤ;
  lt = ltb_ℤ;
  eq = eqb_ℤ;
  round = λ n x. x;
  trunc = λ x. cut x 10000;
  int_error = λ x. none;
}

pub Fixed-IsOrdered : IsOrdered Fixed
unfolding fixed_float ◌+ℤ◌ ◌-ℤ◌
Fixed-IsOrdered = record {
  number_of_le = λ a b h. ground arith;
  le_trans = λ a b c h k. ground arith;
  le_total = λ a b h k. ground arith;
  lt-not-le = λ a b h k. ground arith;
  eq-le = λ a b. ground arith;
  round_mono = λ n a b h. h;
  add_mono = λ a b c h k l. ground arith;
  sub_mono = λ a b c h k l. ground arith;
  le-add = λ a b h k. ground arith;
  sub-le = λ a b h k. ground arith;
  decimal_number = λ m e. ground arith;
  nought-le-cent = ground arith;
  cent-not-nought = ground arith;
}
