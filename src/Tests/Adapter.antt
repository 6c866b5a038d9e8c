-- ===== src/Tests/Adapter.antt =====
-- The paper adapter on concrete orders and prices.
use nexa_trade.Prelude.{◌≡◌, ◌⊎◌, refl, none, some, List, [], ◌∷◌, ◌++◌, arith, if◌then◌else◌}
use nexa_trade.Prelude.Int.{pos, ◌*ℤ◌, ◌+ℤ◌}
use nexa_trade.Text.{Text, codes, text_eq, upper}
use nexa_trade.Dict.{Dict, lookup}
use nexa_trade.Float.{◌≼◌}
use nexa_trade.Float.Fixed.{Fixed, fixed_float, Fixed-IsOrdered}
use nexa_trade.Outcome.{raised, validation_error, Returns}
use nexa_trade.Models.Enums.{
  TransactionType, OrderType, OrderStatus, ProductType, Exchange, Segment, TradingMode, given,
  defaulted, exchange_text, segment_text,
}
use nexa_trade.Models.Market.{Fill}
use nexa_trade.Models.Order.{OrderRequest, OrderModifyRequest}
use nexa_trade.Paper.State.{Paper, OpenOrder, init}
use nexa_trade.Paper.Positions.{PaperPosition, position_key, update_position}
use nexa_trade.Paper.Positions.Quantity.{signed, net, held, update_position_moves}
use nexa_trade.Paper.Pricing.{simulate_fill_price}
use nexa_trade.Paper.Pricing.Limits.{limit_protected, cent-le-simulate_fill_price, NoWorse, asked}
use nexa_trade.Paper.Orders.{
  Call, place_order, modify_order, modified_request, cancel_order, get_order_status,
}
use nexa_trade.Paper.Orders.Lifecycle.{
  resting_order, place_order_rests, cancel_order_lem, get_order_status-cancel_order,
  modify_order_lem,
}
use nexa_trade.Paper.Ledger.{IsSound}
use nexa_trade.Paper.Ledger.Reach.{Action, Event, AreEventsAllowed, run, session_balanced}
use nexa_trade.Paper.Feed.{check_pending_fills}
use nexa_trade.Paper.Feed.Fills.{Fills, due, fires, check_pending_fills_lem}
use nexa_trade.Paper.Portfolio.{split_colon, report}
use nexa_trade.Paper.Portfolio.Keys.{split_colon-position_key, report_given, report_defaulted}

-- A limit buy of 10 at 100.00.
abbrev request : OrderRequest Fixed
request = record {
  order_id = codes "A1";
  symbol = codes "INFY";
  exchange = Exchange.nse;
  segment = given Segment.eq;
  transaction_type = TransactionType.buy;
  order_type = OrderType.limit;
  product_type = ProductType.intraday;
  quantity = pos 10;
  price = some (pos 1000000);
  trigger_price = none;
  strategy_name = none;
  trading_mode = TradingMode.paper;
}

-- A sale of 4 at the market.
abbrev sale : OrderRequest Fixed
sale = record request {
  order_id = codes "A2";
  transaction_type = TransactionType.sell;
  order_type = OrderType.market;
  quantity = pos 4;
  price = none;
}

abbrev call : Call Fixed
call = record { roll = pos 5000; fresh_id = codes "PAPER-1"; now = 7 }

abbrev change : OrderModifyRequest Fixed
change = record {
  order_id = codes "A1";
  broker_order_id = codes "PAPER-1";
  quantity = some (pos 6);
  price = none;
  trigger_price = none;
  order_type = none;
}

-- The limit buy rests, is made smaller, and a price of 99.00 fills it; the sale goes through at once.
abbrev session : List (Event Fixed)
session =
    Event.act (Action.place call request)
    ∷ Event.act (Action.modify 8 change)
    ∷ Event.act (Action.place call sale)
    ∷ Event.act (Action.tick (codes "INFY") (pos 990000))
    ∷ Event.task 9
    ∷ []

session-AreAllowed : AreEventsAllowed session
session-AreAllowed = (omega arith, (omega arith, (omega arith, (tt, tt))))

session_balanced_example : Returns IsSound (run (λ update. []) session init)
session_balanced_example = session_balanced (λ update. []) (λ update. tt) session session-AreAllowed

-- An adapter with the limit buy resting.
abbrev resting : Paper Fixed
unfolding init
resting = record init { open_orders = (codes "A1", resting_order call request) ∷ [] }

resting-IsSound : IsSound resting
unfolding resting signed lookup
resting-IsSound = record {
  balanced = refl;
  orders_positive = (omega arith, tt);
  unique = (refl, tt);
}

check_pending_fills_lem_example :
    Returns
      (λ out.
        IsSound out.1
        × (((j : Text)
              → lookup j out.1.open_orders ≡ (
                  if fires (codes "INFY") (pos 990000) (lookup j resting.open_orders)
                  then none
                  else lookup j resting.open_orders))
            × ((new : List (Fill Fixed)) × ((out.1.fills ≡ resting.fills ++ new)
                  × Fills (due (codes "INFY") (pos 990000) resting.open_orders) new out.0))))
      (check_pending_fills (λ update s. s) 9 (codes "INFY") (pos 990000) resting)
check_pending_fills_lem_example =
    check_pending_fills_lem (λ update s. s) (λ update s. refl) 9 (codes "INFY") (pos 990000) resting
      resting-IsSound

limit_protected_example :
    NoWorse TransactionType.buy
      (asked (pos 1000000))
      (simulate_fill_price (pos 500) [] (codes "INFY") TransactionType.buy (some (pos 1000000)))
unfolding fixed_float
limit_protected_example =
    limit_protected Fixed-IsOrdered (pos 500) [] (codes "INFY") TransactionType.buy (pos 1000000)
      (ground arith) (ground arith)

fill_price_positive :
    fixed_float.round 4 (fixed_float.decimal 1 2)
    ≼ simulate_fill_price (pos 500) [] (codes "INFY") TransactionType.buy (some (pos 1000000))
unfolding fixed_float
fill_price_positive =
    cent-le-simulate_fill_price Fixed-IsOrdered (pos 500) [] (codes "INFY") TransactionType.buy
      (ground arith) (some (pos 1000000)) (λ p e. ground arith)

position_moved :
    Returns
      (λ (book' : Dict (PaperPosition Fixed)).
        ((j : Text)
          → held j book' ≡ (
              if text_eq (codes "K") j
              then held {F = Fixed} (codes "K") [] +ℤ signed TransactionType.sell (pos 4)
              else held {F = Fixed} j []))
        × (net {F = Fixed} book' ≡ net {F = Fixed} [] +ℤ signed TransactionType.sell (pos 4)))
      (update_position (codes "K") TransactionType.sell (pos 4) (pos 1000000) [])
position_moved =
    update_position_moves (codes "K") TransactionType.sell (pos 4) (pos 1000000) [] (omega arith)

order_rests :
    Returns
      (λ out.
        (out.0.status ≡ OrderStatus.open_)
        × ((get_order_status (codes "A1") (codes "B") out.1).status ≡ OrderStatus.open_)
        × ((j : Text)
            → lookup j out.1.open_orders ≡ (
                if text_eq (codes "A1") j
                then some (resting_order call request)
                else lookup j (init {F = Fixed}).open_orders))
        × (out.1.positions ≡ (init {F = Fixed}).positions)
        × (out.1.fills ≡ (init {F = Fixed}).fills))
      (place_order call request init)
unfolding init fixed_float ◌*ℤ◌
order_rests = place_order_rests call request init (codes "B") refl refl

cancel_order_lem_example :
    let (r, s') = cancel_order 9 (codes "A1") (codes "PAPER-1") resting in
    (r.status ≡ OrderStatus.cancelled)
    × ((j : Text)
        → lookup j s'.open_orders
          ≡ (if text_eq (codes "A1") j then none else lookup j resting.open_orders))
    × ((cancel_order 9 (codes "A1") (codes "PAPER-1") s').0.status ≡ OrderStatus.rejected)
    × ((cancel_order 9 (codes "A1") (codes "PAPER-1") s').1 ≡ s')
unfolding resting lookup text_eq
cancel_order_lem_example = cancel_order_lem 9 (codes "A1") (codes "PAPER-1") resting refl

cancelled_reports_complete :
    (get_order_status
      (codes "A1")
      (codes "PAPER-1")
      (cancel_order 9 (codes "A1") (codes "PAPER-1") resting).1).status
    ≡ OrderStatus.complete
cancelled_reports_complete = get_order_status-cancel_order 9 (codes "A1") (codes "PAPER-1") resting

order_modified :
    ((lookup (codes "A1") resting.open_orders ≡ none)
      × ((modify_order 9 change resting).0.status ≡ OrderStatus.rejected)
      × ((modify_order 9 change resting).1 ≡ resting))
    ⊎ ((o : OpenOrder Fixed) × (lookup (codes "A1") resting.open_orders ≡ some o)
        × ((modify_order 9 change resting).0.status ≡ OrderStatus.modified)
        × ((j : Text)
            → lookup j (modify_order 9 change resting).1.open_orders ≡ (
                if text_eq (codes "A1") j
                then some (record o {
                  request = modified_request change o.request;
                  status = OrderStatus.modified;
                })
                else lookup j resting.open_orders)))
order_modified = modify_order_lem 9 change resting

-- A position of 10 at 100.00.
abbrev holding : PaperPosition Fixed
holding = record { quantity = pos 10; average_price = pos 1000000; realized_pnl = pos 0 }

split_key :
    split_colon (position_key (codes "infy") (codes "NSE") (codes "EQ"))
    ≡ upper (codes "infy") ∷ upper (codes "NSE") ∷ upper (codes "EQ") ∷ []
split_key =
    split_colon-position_key (codes "infy") (codes "NSE") (codes "EQ") (omega arith) (omega arith)
      (omega arith)

report_of_segment :
    Returns
      (λ r.
        (r.exchange ≡ Exchange.nse)
        × (r.segment ≡ Segment.eq)
        × (r.quantity ≡ pos 10)
        × (r.average_price ≡ pos 1000000))
      (report []
        (position_key (codes "INFY") (exchange_text Exchange.nse) (segment_text (given Segment.eq)))
        holding)
report_of_segment = report_given [] (codes "INFY") Exchange.nse Segment.eq holding (omega arith)

report_of_default :
    report []
      (position_key
        (codes "INFY")
        (exchange_text Exchange.nse)
        (segment_text (defaulted Segment.eq)))
      holding
    ≡ raised validation_error
report_of_default = report_defaulted [] (codes "INFY") Exchange.nse Segment.eq holding (omega arith)
