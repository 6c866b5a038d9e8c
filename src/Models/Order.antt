-- ===== src/Models/Order.antt =====
-- brokers/models.py, section 2: order requests, responses and modifications.
use nexa_trade.Prelude.{ℕ, Bool, true, not, Option, none, some}
use nexa_trade.Prelude.Int.{ℤ, pos, ltb_ℤ}
use nexa_trade.Text.{Text}
use nexa_trade.Float.{Float, nought}
use nexa_trade.Outcome.{Outcome, ok, validation_error, ◌>>◌, require}
use nexa_trade.Models.Enums.{
  TransactionType, OrderType, OrderStatus, ProductType, Exchange, Segment, TradingMode, EnumField,
}
use nexa_trade.Models.Symbol.{normalise_symbol}

pub record OrderRequest (F : Type 0) : Type 0 where
  pub order_id : Text
  pub symbol : Text
  pub exchange : Exchange
  pub segment : EnumField Segment
  pub transaction_type : TransactionType
  pub order_type : OrderType
  pub product_type : ProductType
  pub quantity : ℤ
  pub price : Option F
  pub trigger_price : Option F
  pub strategy_name : Option Text
  pub trading_mode : TradingMode

pub record OrderResponse (F : Type 0) : Type 0 where
  pub order_id : Text
  pub broker_order_id : Option Text
  pub status : OrderStatus
  pub rejection_reason : Option Text
  pub filled_quantity : ℤ
  pub average_price : Option F
  pub placed_at : Option ℕ
  pub updated_at : Option ℕ
  pub broker_name : Text
  pub trading_mode : TradingMode

pub record OrderModifyRequest (F : Type 0) : Type 0 where
  pub order_id : Text
  pub broker_order_id : Text
  pub quantity : Option ℤ
  pub price : Option F
  pub trigger_price : Option F
  pub order_type : Option OrderType

module _ {F : Type 0} ⦃f : Float F⦄ where
  -- `validate_price` and `validate_trigger_price`: a price that is given must not be `<= 0`.
  abbrev pub price_allowed : Option F → Bool
  price_allowed none = true
  price_allowed (some p) = not (f.le p nought)

  -- `OrderRequest(...)`: the fields as the caller gives them, validated and normalised.
  unfoldable pub create : OrderRequest F → Outcome (OrderRequest F)
  create r = do
    require (ltb_ℤ (pos 0) r.quantity) validation_error
    require (price_allowed r.price) validation_error
    require (price_allowed r.trigger_price) validation_error
    ok (record r { symbol = normalise_symbol r.symbol })
