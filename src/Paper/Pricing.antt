-- ===== src/Paper/Pricing.antt =====
-- brokers/brokers/paper/paper_adapter.py, `_simulate_fill_price` and `_calculate_commission`.
pub mod Limits
use nexa_trade.Prelude.{Bool, Option, none, some, if◌then◌else◌, get_or}
use nexa_trade.Prelude.Int.{ℤ}
use nexa_trade.Text.{Text, upper}
use nexa_trade.Dict.{Dict, lookup}
use nexa_trade.Float.{Float, ◌⊕◌, ◌⊖◌, ◌⊗◌, ◌⊘◌, hundred, min_f, max_f}
use nexa_trade.Models.Enums.{TransactionType, is_buy}

module _ {F : Type 0} ⦃f : Float F⦄ where
  -- The price before the floor and the rounding: the last price moved by the slippage, and for an
  -- order with a price the better of that and its price.
  unfoldable pub slipped_price : F → F → TransactionType → Option F → F
  slipped_price ltp slippage side none = if is_buy side then ltp ⊕ slippage else ltp ⊖ slippage
  slipped_price ltp slippage side (some requested) =
      if is_buy side then min_f requested (ltp ⊕ slippage) else max_f requested (ltp ⊖ slippage)

  -- `round(max(fill_price, 0.01), 4)`
  unfoldable pub simulate_fill_price : F → Dict F → Text → TransactionType → Option F → F
  unfolding slipped_price
  simulate_fill_price slippage_pct last_prices symbol side requested =
      let ltp = get_or (lookup (upper symbol) last_prices) hundred in
      let slippage = ltp ⊗ (slippage_pct ⊘ hundred) in
      f.round 4 (max_f (slipped_price ltp slippage side requested) (f.decimal 1 2))

  unfoldable pub calculate_commission : F → ℤ → F → F
  calculate_commission commission_pct quantity price =
      f.round 4 (f.of_ℤ quantity ⊗ price ⊗ (commission_pct ⊘ hundred))
