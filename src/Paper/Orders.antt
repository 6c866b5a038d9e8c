-- ===== src/Paper/Orders.antt =====
-- brokers/brokers/paper/paper_adapter.py, section 2: `place_order`, `modify_order`, `cancel_order`,
-- `get_order_status` and `get_order_history`. The random number, the fresh broker order id and the
-- time of a call are its `Call`. After the delay that `place_order` waits first, nothing interrupts it.
pub mod Lifecycle
use nexa_trade.Prelude.{
  ℕ, Bool, true, false, ◌&&◌, Option, none, some, List, [], ◌∷◌, ◌++◌, map, if◌then◌else◌, get_or,
}
use nexa_trade.Prelude.Int.{ℤ, pos, eqb_ℤ}
use nexa_trade.Text.{Text, codes}
use nexa_trade.Dict.{Dict, lookup, insert, erase}
use nexa_trade.Float.{Float, ◌⊗◌, hundred, nought, truthy}
use nexa_trade.Outcome.{Outcome, ok, raised, ◌>>=◌, ◌>>◌}
use nexa_trade.Models.Enums.{OrderType, OrderStatus, TradingMode, exchange_text, segment_text}
use nexa_trade.Models.Order.{OrderRequest, OrderResponse, OrderModifyRequest}
use nexa_trade.Models.Market.{Fill}
use nexa_trade.Paper.Positions.{position_key, update_position}
use nexa_trade.Paper.Pricing.{simulate_fill_price, calculate_commission}
use nexa_trade.Paper.State.{Paper, OpenOrder, broker_name}

pub record Call (F : Type 0) : Type 0 where
  -- `random.random()`
  pub roll : F
  -- `PAPER-` and eight hexadecimal digits
  pub fresh_id : Text
  -- `now_ist()`
  pub now : ℕ

-- An `OrderResponse` of this adapter with its optional fields left out.
abbrev pub response : {F : Type 0} → Text → Option Text → OrderStatus → OrderResponse F
response order_id broker_order_id status = record {
  order_id = order_id;
  broker_order_id = broker_order_id;
  status = status;
  rejection_reason = none;
  filled_quantity = pos 0;
  average_price = none;
  placed_at = none;
  updated_at = none;
  broker_name = broker_name;
  trading_mode = TradingMode.paper;
}

-- The key under which the book holds the position of an order.
abbrev pub key_of : {F : Type 0} → OrderRequest F → Text
key_of r = position_key r.symbol (exchange_text r.exchange) (segment_text r.segment)

abbrev pub is_market : OrderType → Bool
is_market OrderType.market = true
is_market _ = false

module _ {F : Type 0} ⦃f : Float F⦄ where
  -- The steps that `place_order` and `_check_pending_fills` share: price, commission, position and
  -- the record of the fill. The fill is returned too.
  unfoldable pub execute :
      Text → Text → Option F → ℕ → OrderRequest F → Paper F → Outcome (Fill F × Paper F)
  execute order_id broker_order_id requested now r s = do
    let price =
        simulate_fill_price s.slippage_pct s.last_prices r.symbol r.transaction_type requested
    book ← update_position (key_of r) r.transaction_type r.quantity price s.positions
    let fill : Fill F = record {
      order_id = order_id;
      broker_order_id = some broker_order_id;
      broker_name = broker_name;
      symbol = r.symbol;
      exchange = exchange_text r.exchange;
      transaction_type = r.transaction_type;
      quantity = r.quantity;
      price = price;
      commission = calculate_commission s.commission_pct r.quantity price;
      trading_mode = TradingMode.paper;
      executed_at = now;
    }
    ok (fill, record s { positions = book; fills = s.fills ++ fill ∷ [] })

  -- The stress test: with a rejection rate, some calls are refused at random.
  abbrev pub refused : Call F → Paper F → Bool
  refused c s = f.lt nought s.rejection_rate_pct && f.lt (c.roll ⊗ hundred) s.rejection_rate_pct

  unfoldable pub place_order :
      Call F → OrderRequest F → Paper F → Outcome (OrderResponse F × Paper F)
  place_order c r s =
      if refused c s
      then ok (
        record (response r.order_id none OrderStatus.rejected) {
          rejection_reason = some (codes "Simulated rejection (stress test)");
          placed_at = some c.now;
        },
        s,
      )
      else if is_market r.order_type
      then (do
        (fill, s') ← execute r.order_id c.fresh_id none c.now r s
        ok (
          record (response r.order_id (some c.fresh_id) OrderStatus.complete) {
            filled_quantity = r.quantity;
            average_price = some fill.price;
            placed_at = some c.now;
            updated_at = some c.now;
          },
          s',
        ))
      else ok (
        record (response r.order_id (some c.fresh_id) OrderStatus.open_) { placed_at = some c.now },
        record s {
          open_orders =
              insert r.order_id
                (record {
                  request = r;
                  broker_order_id = c.fresh_id;
                  status = OrderStatus.open_;
                  placed_at = c.now;
                })
                s.open_orders;
        },
      )

  -- `if request.price:` and so on: a value that is absent or zero changes nothing.
  abbrev pub with_price : Option F → OrderRequest F → OrderRequest F
  with_price none r = r
  with_price (some p) r = if truthy p then record r { price = some p } else r

  abbrev pub with_quantity : Option ℤ → OrderRequest F → OrderRequest F
  with_quantity none r = r
  with_quantity (some q) r = if eqb_ℤ q (pos 0) then r else record r { quantity = q }

  abbrev pub with_trigger : Option F → OrderRequest F → OrderRequest F
  with_trigger none r = r
  with_trigger (some p) r = if truthy p then record r { trigger_price = some p } else r

  -- The order type of the request is not looked at.
  unfoldable pub modified_request : OrderModifyRequest F → OrderRequest F → OrderRequest F
  modified_request m r =
      with_trigger m.trigger_price (with_quantity m.quantity (with_price m.price r))

  unfoldable pub modify_order : ℕ → OrderModifyRequest F → Paper F → OrderResponse F × Paper F
  modify_order now m s = elim (lookup m.order_id s.open_orders) [
    | none ↦ (
      record (response m.order_id (some m.broker_order_id) OrderStatus.rejected) {
        rejection_reason = some (codes "Order not found in paper orders.");
      },
      s,
    )
    | some o ↦ (
      record (response m.order_id (some m.broker_order_id) OrderStatus.modified) {
        updated_at = some now;
      },
      record s {
        open_orders =
            insert m.order_id
              (record o { request = modified_request m o.request; status = OrderStatus.modified })
              s.open_orders;
      },
    )
  ]

  unfoldable pub cancel_order : ℕ → Text → Text → Paper F → OrderResponse F × Paper F
  cancel_order now order_id broker_order_id s = elim (lookup order_id s.open_orders) [
    | some o ↦ (
      record (response order_id (some broker_order_id) OrderStatus.cancelled) {
        updated_at = some now;
      },
      record s { open_orders = erase order_id s.open_orders },
    )
    | none ↦ (
      record (response order_id (some broker_order_id) OrderStatus.rejected) {
        rejection_reason = some (codes "Order not found.");
      },
      s,
    )
  ]

  unfoldable pub get_order_status : Text → Text → Paper F → OrderResponse F
  get_order_status order_id broker_order_id s = elim (lookup order_id s.open_orders) [
    | some o ↦ response order_id (some broker_order_id) o.status
    | none ↦ response order_id (some broker_order_id) OrderStatus.complete
  ]

  abbrev pub history_entry : Fill F → OrderResponse F
  history_entry fill = record (response fill.order_id fill.broker_order_id OrderStatus.complete) {
    filled_quantity = fill.quantity;
    average_price = some fill.price;
    updated_at = some fill.executed_at;
  }

  unfoldable pub get_order_history : Paper F → List (OrderResponse F)
  get_order_history s = map history_entry s.fills
