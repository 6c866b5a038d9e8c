-- ===== src/Backtest/Pending.antt =====
-- backtesting/backtester.py: `process_pending_orders`, `_execute_fill` and `_on_strategy_signal`, with
-- the strategy's callback between them. The loop runs over a list that the callback may extend
-- (`submit_order` appends to the list that is being iterated), so it is a worklist on fuel.
pub mod Signals
pub mod Invariant
pub mod Matching
pub mod Counted
pub mod Livelock
pub mod Partition
use nexa_trade.Prelude.{
  ℕ, zero, suc, ◌+◌, Bool, true, false, Option, none, some, List, [], ◌∷◌, ◌++◌, if◌then◌else◌,
}
use nexa_trade.Prelude.Int.{ℤ, pos, eqb_ℤ}
use nexa_trade.Text.{Text, codes}
use nexa_trade.Float.{Float, ◌⊕◌, ◌⊖◌, ◌⊗◌, ◌⊘◌, hundred, truthy?, abs_f}
use nexa_trade.Outcome.{Outcome, ok, raised, out_of_fuel, ◌>>=◌, ◌>>◌}
use nexa_trade.Models.Enums.{
  TransactionType, OrderType, OrderStatus, ProductType, TradingMode, SignalDirection, given,
  revalidated, is_buy,
}
use nexa_trade.Models.Order.{OrderRequest, OrderResponse, create}
use nexa_trade.Models.Market.{Fill, Ohlcv}
use nexa_trade.Models.Signal.{StrategySignal}
use nexa_trade.Backtest.Broker.{
  SimulatedBroker, SimOrder, FilledOrder, submit_order, update_position,
}
use nexa_trade.Backtest.Prices.{fill_price}
use nexa_trade.Backtest.Strategy.{Strategy, Reaction}

-- What one backtest holds: the broker, the strategy's state, the candle buffer, and how many order
-- ids were drawn.
pub record Session (S F : Type 0) : Type 0 where
  pub broker : SimulatedBroker F
  pub strategy : S
  pub buffer : List (Ohlcv F)
  pub ids_drawn : ℕ

abbrev pub sim_name : Text
sim_name = codes "backtester"

-- `signal.suggested_quantity or 1`
abbrev pub quantity_or_one : Option ℤ → ℤ
quantity_or_one none = pos 1
quantity_or_one (some q) = if eqb_ℤ q (pos 0) then pos 1 else q

-- `_on_strategy_signal`: nothing for HOLD and NONE, a buy for BUY, a sale for SELL and EXIT.
abbrev pub side_of : SignalDirection → Option TransactionType
side_of SignalDirection.buy = some TransactionType.buy
side_of SignalDirection.sell = some TransactionType.sell
side_of SignalDirection.exit = some TransactionType.sell
side_of SignalDirection.hold = none
side_of SignalDirection.none_ = none

module _ {F : Type 0} ⦃f : Float F⦄ where
  -- The request of an executable signal, before validation.
  abbrev pub signal_request : Text → TransactionType → StrategySignal F → OrderRequest F
  signal_request order_id side g = record {
    order_id = order_id;
    symbol = g.symbol;
    exchange = g.exchange;
    segment = revalidated g.segment;
    transaction_type = side;
    order_type = if truthy? g.suggested_price then OrderType.limit else OrderType.market;
    product_type = ProductType.intraday;
    quantity = quantity_or_one g.suggested_quantity;
    price = g.suggested_price;
    trigger_price = g.stop_loss_price;
    strategy_name = some g.strategy_name;
    trading_mode = TradingMode.paper;
  }

  -- The update that the strategy is sent for a fill.
  abbrev pub fill_response : SimOrder F → F → Ohlcv F → OrderResponse F
  fill_response o price c = record {
    order_id = o.order_id;
    broker_order_id = some o.order_id;
    status = OrderStatus.complete;
    rejection_reason = none;
    filled_quantity = o.quantity;
    average_price = some (f.round 4 price);
    placed_at = none;
    updated_at = some c.datetime;
    broker_name = sim_name;
    trading_mode = TradingMode.paper;
  }

  -- `_execute_fill` up to the callback: commission, slippage, position, cash and the records.
  unfoldable pub book_fill :
      SimOrder F → F → Ohlcv F → SimulatedBroker F → Outcome (SimulatedBroker F)
  book_fill o price c b = do
    let trade_value = f.of_ℤ o.quantity ⊗ price
    let commission = trade_value ⊗ (b.commission_pct ⊘ hundred)
    (book, pnl) ← update_position o.symbol o.transaction_type o.quantity price b.positions
    let fill : Fill F = record {
      order_id = o.order_id;
      broker_order_id = some o.order_id;
      broker_name = sim_name;
      symbol = o.symbol;
      exchange = codes "NSE";
      transaction_type = o.transaction_type;
      quantity = o.quantity;
      price = f.round 4 price;
      commission = f.round 4 commission;
      trading_mode = TradingMode.paper;
      executed_at = c.datetime;
    }
    let filled : FilledOrder F = record {
      order = o;
      fill_price = price;
      fill_time = c.datetime;
      commission = commission;
      pnl = pnl;
    }
    ok (record b {
      cash =
          if is_buy o.transaction_type
          then b.cash ⊖ (trade_value ⊕ commission)
          else b.cash ⊕ (trade_value ⊖ commission);
      positions = book;
      fills = b.fills ++ fill ∷ [];
      filled_orders = b.filled_orders ++ filled ∷ [];
      total_commission = b.total_commission ⊕ commission;
      total_slippage = b.total_slippage ⊕ abs_f (price ⊖ c.open_) ⊗ f.of_ℤ o.quantity;
    })

-- A backtest's strategy, and the fresh order ids that it draws (`uuid4`).
pub record Setup (S F : Type 0) : Type 0 where
  pub strategy : Strategy S F
  pub fresh_id : ℕ → Text

module _ {S F : Type 0} ⦃f : Float F⦄ where
  -- The request that validation lets through is queued; what it raises, `emit_signal` swallows.
  abbrev pub submit_validated : Text → Session S F → Outcome (OrderRequest F) → Session S F
  submit_validated strategy_name s (ok r) = record s {
    broker = submit_order r strategy_name s.broker;
    ids_drawn = s.ids_drawn + 1;
  }
  submit_validated strategy_name s (raised e) = record s { ids_drawn = s.ids_drawn + 1 }

  unfoldable pub on_strategy_signal : Setup S F → StrategySignal F → Session S F → Session S F
  on_strategy_signal w g s = elim (side_of g.direction) [
    | none ↦ s
    | some side ↦
        submit_validated g.strategy_name s (create (signal_request (w.fresh_id s.ids_drawn) side g))
  ]

  unfoldable pub deliver : Setup S F → List (StrategySignal F) → Session S F → Session S F
  deliver w [] s = s
  deliver w (g ∷ gs) s = deliver w gs (on_strategy_signal w g s)

  -- After a method of the strategy: its new state, and its signals delivered.
  unfoldable pub react : Setup S F → Reaction S F → Session S F → Session S F
  react w r s = deliver w r.signals (record s { strategy = r.state })

  -- The callback of a fill; what the strategy raises is logged and dropped.
  unfoldable pub notify : Setup S F → OrderResponse F → Session S F → Session S F
  notify w r s = react w (w.strategy.on_order_update s.buffer r s.strategy) s

  unfoldable pub execute_fill :
      Setup S F → SimOrder F → F → Ohlcv F → Session S F → Outcome (Session S F)
  execute_fill w o price c s = do
    b ← book_fill o price c s.broker
    ok (notify w (fill_response o price c) (record s { broker = b }))

  -- One turn of the loop, on the orders not yet visited; `next` goes on with the orders kept so far.
  unfoldable pub turn :
      Setup S F
      → (List (SimOrder F) → Session S F → Outcome (Session S F))
      → Ohlcv F
      → List (SimOrder F)
      → List (SimOrder F)
      → Session S F
      → Outcome (Session S F)
  turn w next c still [] s = ok (record s { broker = record (s.broker) { pending_orders = still } })
  turn w next c still (o ∷ rest) s =
      let s' : Session S F = record s { broker = record (s.broker) { pending_orders = rest } } in
      elim (fill_price s.broker.slippage_pct o c) [
        | none ↦ next (still ++ o ∷ []) s'
        | some price ↦ execute_fill w o price c s' >>= next still
      ]

  unfoldable pub process_loop :
      Setup S F → ℕ → Ohlcv F → List (SimOrder F) → Session S F → Outcome (Session S F)
  process_loop w zero c still s = raised out_of_fuel
  process_loop w (suc n) c still s = turn w (process_loop w n c) c still s.broker.pending_orders s

  -- `process_pending_orders` on fuel.
  unfoldable pub process_pending_orders :
      Setup S F → ℕ → Ohlcv F → Session S F → Outcome (Session S F)
  process_pending_orders w fuel c s = process_loop w fuel c [] s
