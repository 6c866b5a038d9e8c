-- ===== src/Requests.antt =====
-- strategies/strategy_engine.py, `StrategyEngine._signal_to_order_request`: the order that a signal
-- asks for.
use nexa_trade.Prelude.{◌≡◌, ◌⊎◌, true, false, Option, none, some, get_or, if◌then◌else◌}
use nexa_trade.Prelude.Int.{ℤ, pos, ◌≤ℤ◌, eqb_ℤ, max_ℤ}
use nexa_trade.Text.{Text, codes, text_eq}
use nexa_trade.Float.{Float, ◌⊗◌, nought, truthy, truthy?}
use nexa_trade.Outcome.{Outcome, ok, ◌>>=◌}
use nexa_trade.Models.Enums.{
  TransactionType, OrderType, ProductType, TradingMode, SignalDirection, revalidated,
}
use nexa_trade.Models.Symbol.{normalise_symbol}
use nexa_trade.Models.Signal.{StrategySignal}
use nexa_trade.Models.Order.{OrderRequest, create}
use nexa_trade.Checks.{RiskConfig}
use nexa_trade.Risk.{Context}

-- `txn_type`: none for a HOLD or a NONE.
abbrev pub transaction_of : SignalDirection → Option TransactionType
transaction_of SignalDirection.buy = some TransactionType.buy
transaction_of SignalDirection.sell = some TransactionType.sell
transaction_of SignalDirection.exit = some TransactionType.sell
transaction_of SignalDirection.hold = none
transaction_of SignalDirection.none_ = none

-- What a signal is that gives an order of a side.
abbrev pub AsksFor : TransactionType → SignalDirection → Type 0
AsksFor TransactionType.buy d = d ≡ SignalDirection.buy
AsksFor TransactionType.sell d = (d ≡ SignalDirection.sell) ⊎ (d ≡ SignalDirection.exit)

abbrev pub trading_mode_of : Text → TradingMode
trading_mode_of mode = if text_eq mode (codes "paper") then TradingMode.paper else TradingMode.live

module _ {F : Type 0} ⦃f : Float F⦄ where
  -- `max(1, int(max_size * signal.strength))`
  abbrev pub sized_quantity : RiskConfig F → F → ℤ
  sized_quantity cfg strength =
      max_ℤ (pos 1) (f.trunc (f.of_ℤ (get_or cfg.max_position_size (pos 100)) ⊗ strength))

  abbrev pub quantity_of : RiskConfig F → StrategySignal F → ℤ
  quantity_of cfg g =
      let quantity = get_or g.suggested_quantity (pos 0) in
      if eqb_ℤ quantity (pos 0) then sized_quantity cfg g.strength else quantity

  abbrev pub given_price : Option F → Option F
  given_price price = if truthy? price then price else none

  -- The request as its constructor gets it.
  unfoldable pub request_of :
      Context F → StrategySignal F → Text → Text → TransactionType → OrderRequest F
  request_of c g strategy_name order_id transaction_type = record {
    order_id = order_id;
    symbol = g.symbol;
    exchange = g.exchange;
    segment = revalidated g.segment;
    transaction_type = transaction_type;
    order_type = if truthy? g.suggested_price then OrderType.limit else OrderType.market;
    product_type = ProductType.intraday;
    quantity = quantity_of c.cfg g;
    price = given_price g.suggested_price;
    trigger_price = g.stop_loss_price;
    strategy_name = some strategy_name;
    trading_mode = trading_mode_of c.trading_mode;
  }

  unfoldable pub order_for :
      Context F
      → StrategySignal F
      → Text
      → Text
      → Option TransactionType
      → Outcome (Option (OrderRequest F))
  order_for c g strategy_name order_id none = ok none
  order_for c g strategy_name order_id (some transaction_type) =
      create (request_of c g strategy_name order_id transaction_type) >>= λ o. ok (some o)

  -- `_signal_to_order_request(signal, strategy_name, trading_mode)` with the identifier that the
  -- request gets; none where it returns `None`.
  unfoldable pub signal_to_order_request :
      Context F → StrategySignal F → Text → Text → Outcome (Option (OrderRequest F))
  signal_to_order_request c g strategy_name order_id =
      order_for c g strategy_name order_id (transaction_of g.direction)

  -- What a price says about an order: positive, or zero, which counts as no price.
  abbrev pub IsPrice : Option F → Type 0
  IsPrice none = Unit
  IsPrice (some p) = (truthy p ≡ false) ⊎ (f.le p nought ≡ false)

  -- The price and the type of an order, by the price that its signal suggests.
  abbrev pub PricedBy : Option F → OrderRequest F → Type 0
  PricedBy none o = (o.price ≡ none) × (o.order_type ≡ OrderType.market)
  PricedBy (some p) o =
      ((f.eq p nought ≡ true) × ((o.price ≡ none) × (o.order_type ≡ OrderType.market)))
      ⊎ ((f.eq p nought ≡ false) × ((o.price ≡ some p) × (o.order_type ≡ OrderType.limit)))

  -- What the order of a signal is like.
  pub record Orders (c : Context F) (g : StrategySignal F) (strategy_name : Text)
      (o : OrderRequest F) : Type 0 where
    pub side : AsksFor o.transaction_type g.direction
    pub positive : pos 1 ≤ℤ o.quantity
    pub priced : PricedBy g.suggested_price o
    pub symbol : o.symbol ≡ normalise_symbol g.symbol
    pub owner : o.strategy_name ≡ some strategy_name
    pub mode : o.trading_mode ≡ trading_mode_of c.trading_mode

  abbrev pub OrdersIf : Context F → StrategySignal F → Text → Option (OrderRequest F) → Type 0
  OrdersIf c g strategy_name none =
      (g.direction ≡ SignalDirection.hold) ⊎ (g.direction ≡ SignalDirection.none_)
  OrdersIf c g strategy_name (some o) = Orders c g strategy_name o
