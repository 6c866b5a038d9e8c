-- ===== src/Backtest/Broker.antt =====
-- backtesting/backtester.py, `SimulatedBroker`: its state, `submit_order` and `_update_position`.
pub mod Quantity
use nexa_trade.Prelude.{
  ℕ, Bool, true, false, Option, none, some, List, [], ◌∷◌, ◌++◌, if◌then◌else◌,
}
use nexa_trade.Prelude.Int.{ℤ, pos, ◌+ℤ◌, ◌-ℤ◌, ltb_ℤ, leb_ℤ, eqb_ℤ, abs_ℤ, min_ℤ}
use nexa_trade.Text.{Text}
use nexa_trade.Dict.{Dict, lookup, insert}
use nexa_trade.Float.{Float, ◌⊕◌, ◌⊖◌, ◌⊗◌, ◌⊘◌, nought}
use nexa_trade.Outcome.{Outcome, ok, raised, zero_division, ◌>>=◌}
use nexa_trade.Models.Enums.{TransactionType, OrderType, is_buy}
use nexa_trade.Models.Order.{OrderRequest}
use nexa_trade.Models.Market.{Fill}

pub record SimPosition (F : Type 0) : Type 0 where
  pub quantity : ℤ
  pub average_price : F
  pub realized_pnl : F
  pub buy_value : F
  pub sell_value : F

-- An entry of the order queue.
pub record SimOrder (F : Type 0) : Type 0 where
  pub order_id : Text
  pub strategy_name : Text
  pub symbol : Text
  pub transaction_type : TransactionType
  pub order_type : OrderType
  pub quantity : ℤ
  pub limit_price : Option F
  pub trigger_price : Option F

-- An entry of `filled_orders`: the order with what the fill wrote into it.
pub record FilledOrder (F : Type 0) : Type 0 where
  pub order : SimOrder F
  pub fill_price : F
  pub fill_time : ℕ
  pub commission : F
  pub pnl : F

pub record EquityPoint (F : Type 0) : Type 0 where
  pub datetime : ℕ
  pub portfolio_value : F
  pub cash : F
  pub realized_pnl : F
  pub unrealized_pnl : F
  pub drawdown_pct : F

pub record SimulatedBroker (F : Type 0) : Type 0 where
  pub initial_capital : F
  pub slippage_pct : F
  pub commission_pct : F
  pub cash : F
  pub positions : Dict (SimPosition F)
  pub pending_orders : List (SimOrder F)
  pub filled_orders : List (FilledOrder F)
  pub fills : List (Fill F)
  pub equity_curve : List (EquityPoint F)
  pub total_commission : F
  pub total_slippage : F

module _ {F : Type 0} where
  -- The queue entry of a request.
  abbrev pub order_entry : OrderRequest F → Text → SimOrder F
  order_entry r strategy_name = record {
    order_id = r.order_id;
    strategy_name = strategy_name;
    symbol = r.symbol;
    transaction_type = r.transaction_type;
    order_type = r.order_type;
    quantity = r.quantity;
    limit_price = r.price;
    trigger_price = r.trigger_price;
  }

  unfoldable pub submit_order : OrderRequest F → Text → SimulatedBroker F → SimulatedBroker F
  submit_order r strategy_name b = record b {
    pending_orders = b.pending_orders ++ order_entry r strategy_name ∷ [];
  }

module _ {F : Type 0} ⦃f : Float F⦄ where
  -- `SimulatedBroker(initial_capital, slippage_pct, commission_pct)`
  unfoldable pub fresh_broker : F → F → F → SimulatedBroker F
  fresh_broker initial_capital slippage_pct commission_pct = record {
    initial_capital = initial_capital;
    slippage_pct = slippage_pct;
    commission_pct = commission_pct;
    cash = initial_capital;
    positions = [];
    pending_orders = [];
    filled_orders = [];
    fills = [];
    equity_curve = [];
    total_commission = nought;
    total_slippage = nought;
  }

  abbrev pub blank : SimPosition F
  blank = record {
    quantity = pos 0;
    average_price = nought;
    realized_pnl = nought;
    buy_value = nought;
    sell_value = nought;
  }

  abbrev pub entry : Option (SimPosition F) → SimPosition F
  entry none = blank
  entry (some p) = p

  -- A fill's new position and the profit that it realises.
  unfoldable pub apply_buy : ℤ → F → SimPosition F → Outcome (SimPosition F × F)
  apply_buy quantity price p =
      let bought = p.buy_value ⊕ price ⊗ f.of_ℤ quantity in
      let new_qty = p.quantity +ℤ quantity in
      if leb_ℤ (pos 0) p.quantity
      then (if eqb_ℤ new_qty (pos 0)
          then raised zero_division
          else ok (
            record p {
              quantity = new_qty;
              average_price =
                  (p.average_price ⊗ f.of_ℤ p.quantity ⊕ price ⊗ f.of_ℤ quantity) ⊘ f.of_ℤ new_qty;
              buy_value = bought;
            },
            nought,
          ))
      else let pnl = (p.average_price ⊖ price) ⊗ f.of_ℤ (min_ℤ quantity (abs_ℤ p.quantity)) in
        ok (
          record p {
            quantity = new_qty;
            average_price = if ltb_ℤ (pos 0) new_qty then price else p.average_price;
            realized_pnl = p.realized_pnl ⊕ pnl;
            buy_value = bought;
          },
          pnl,
        )

  unfoldable pub apply_sell : ℤ → F → SimPosition F → Outcome (SimPosition F × F)
  apply_sell quantity price p =
      let sold = p.sell_value ⊕ price ⊗ f.of_ℤ quantity in
      let new_qty = p.quantity -ℤ quantity in
      if leb_ℤ p.quantity (pos 0)
      then ok (
        record p {
          quantity = new_qty;
          average_price =
              if eqb_ℤ new_qty (pos 0)
              then price
              else (p.average_price ⊗ f.of_ℤ (abs_ℤ p.quantity) ⊕ price ⊗ f.of_ℤ quantity)
                ⊘ f.of_ℤ (abs_ℤ new_qty);
          sell_value = sold;
        },
        nought,
      )
      else let pnl = (price ⊖ p.average_price) ⊗ f.of_ℤ (min_ℤ quantity p.quantity) in
        ok (
          record p {
            quantity = new_qty;
            average_price = if ltb_ℤ new_qty (pos 0) then price else p.average_price;
            realized_pnl = p.realized_pnl ⊕ pnl;
            sell_value = sold;
          },
          pnl,
        )

  unfoldable pub apply_fill : TransactionType → ℤ → F → SimPosition F → Outcome (SimPosition F × F)
  unfolding apply_buy apply_sell
  apply_fill side quantity price p =
      if is_buy side then apply_buy quantity price p else apply_sell quantity price p

  unfoldable pub update_position :
      Text → TransactionType → ℤ → F → Dict (SimPosition F) → Outcome (Dict (SimPosition F) × F)
  update_position symbol side quantity price book = do
    (p, pnl) ← apply_fill side quantity price (entry (lookup symbol book))
    ok (insert symbol p book, pnl)
