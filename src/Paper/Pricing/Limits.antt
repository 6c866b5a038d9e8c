-- ===== src/Paper/Pricing/Limits.antt =====
-- How far a simulated fill price can be from the price that the order asks for.
use nexa_trade.Prelude.{◌≡◌, refl, Option, none, some, get_or}
use nexa_trade.Text.{Text, upper}
use nexa_trade.Dict.{Dict, lookup}
use nexa_trade.Float.{Float, IsOrdered, IsNumber, ◌≼◌, ◌⊗◌, ◌⊘◌, hundred, max_f}
use nexa_trade.Float.Order.{min_f-le, le-max_f, max_f_mono, min_f-IsNumber, max_f-IsNumber}
use nexa_trade.Models.Enums.{TransactionType}
use nexa_trade.Paper.Pricing.{slipped_price, simulate_fill_price}

module _ {F : Type 0} ⦃f : Float F⦄ where
  -- The last price of a symbol, and that price moved against the order by the slippage.
  abbrev pub last_price : Dict F → Text → F
  last_price last_prices symbol = get_or (lookup (upper symbol) last_prices) hundred

  abbrev pub market_price : F → Dict F → Text → TransactionType → F
  market_price slippage_pct last_prices symbol side =
      slipped_price (last_price last_prices symbol)
        (last_price last_prices symbol ⊗ (slippage_pct ⊘ hundred)) side none

  -- The price that an order with a price may not be filled worse than: its own price, floored and
  -- rounded as every fill price is.
  abbrev pub asked : F → F
  asked p = f.round 4 (max_f p (f.decimal 1 2))

  abbrev pub NoWorse : TransactionType → F → F → Type 0
  NoWorse TransactionType.buy limit price = price ≼ limit
  NoWorse TransactionType.sell limit price = limit ≼ price

  module _ (laws : IsOrdered F) where
    open laws use {round_mono, decimal_number}

    -- An order with a price never pays more on a buy, nor gets less on a sale, than that price
    -- (floored at 0.01 and rounded), whatever the last price and the slippage are, NaN apart.
    pub limit_protected :
        (slippage_pct : F) (prices : Dict F) (symbol : Text) (side : TransactionType) (limit : F)
        → IsNumber limit
        → IsNumber (market_price slippage_pct prices symbol side)
        → NoWorse side
            (asked limit)
            (simulate_fill_price slippage_pct prices symbol side (some limit))
    unfolding simulate_fill_price
    limit_protected sp prices symbol TransactionType.buy limit n m =
        round_mono 4 _ _ (max_f_mono laws _ _ _ (min_f-le laws limit _ n m).0 (decimal_number 1 2))
    limit_protected sp prices symbol TransactionType.sell limit n m =
        round_mono 4 _ _ (max_f_mono laws _ _ _ (le-max_f laws limit _ n m).0 (decimal_number 1 2))

    -- Every fill price is at least 0.01, rounded, where neither the market price nor the price that is
    -- asked for is NaN.
    pub cent-le-simulate_fill_price :
        (slippage_pct : F) (prices : Dict F) (symbol : Text) (side : TransactionType)
        → IsNumber (market_price slippage_pct prices symbol side)
        → (requested : Option F) → ((p : F) → requested ≡ some p → IsNumber p)
        → f.round 4 (f.decimal 1 2) ≼ simulate_fill_price slippage_pct prices symbol side requested
    unfolding simulate_fill_price
    cent-le-simulate_fill_price sp prices symbol side m none n =
        round_mono 4 _ _ (le-max_f laws _ _ m (decimal_number 1 2)).1
    cent-le-simulate_fill_price sp prices symbol TransactionType.buy m (some p) n =
        round_mono 4 _ _
          (le-max_f laws _ _ (min_f-IsNumber laws p _ (n p refl) m) (decimal_number 1 2)).1
    cent-le-simulate_fill_price sp prices symbol TransactionType.sell m (some p) n =
        round_mono 4 _ _
          (le-max_f laws _ _ (max_f-IsNumber laws p _ (n p refl) m) (decimal_number 1 2)).1
