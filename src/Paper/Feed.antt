-- ===== src/Paper/Feed.antt =====
-- brokers/brokers/paper/paper_adapter.py, sections 5 and 7: `update_last_price`, the task that it
-- schedules, `_check_pending_fills`, and `unsubscribe_ticks`. The order updates that a check emits
-- are returned in order. Each is awaited before the next order is filled: what the callbacks that
-- receive it do to the adapter meanwhile is an argument, `heard`.
pub mod Fills
use nexa_trade.Prelude.{
  ℕ, Bool, true, false, not, ◌&&◌, Option, none, some, List, [], ◌∷◌, ◌++◌, if◌then◌else◌,
}
use nexa_trade.Text.{Text, upper, text_eq}
use nexa_trade.Dict.{Dict, lookup, insert, erase}
use nexa_trade.Float.{Float, truthy}
use nexa_trade.Outcome.{Outcome, ok, raised, ◌>>=◌}
use nexa_trade.Models.Enums.{OrderType, OrderStatus, TransactionType}
use nexa_trade.Models.Order.{OrderRequest, OrderResponse}
use nexa_trade.Paper.State.{Paper, OpenOrder}
use nexa_trade.Paper.Orders.{execute, response}

module _ {F : Type 0} ⦃f : Float F⦄ where
  -- `level and test(level)`
  abbrev pub at_level : Option F → (F → Bool) → Bool
  at_level none test = false
  at_level (some level) test = truthy level && test level

  -- A limit order fills at its price or better, a stop order once its trigger is crossed.
  unfoldable pub crosses : F → OrderType → TransactionType → Option F → Option F → Bool
  crosses now OrderType.limit TransactionType.buy price trigger = at_level price (λ p. f.le now p)
  crosses now OrderType.limit TransactionType.sell price trigger = at_level price (λ p. f.le p now)
  crosses now OrderType.stop_loss TransactionType.buy price trigger =
      at_level trigger (λ t. f.le t now)
  crosses now OrderType.stop_loss TransactionType.sell price trigger =
      at_level trigger (λ t. f.le now t)
  crosses now OrderType.stop_loss_market TransactionType.buy price trigger =
      at_level trigger (λ t. f.le t now)
  crosses now OrderType.stop_loss_market TransactionType.sell price trigger =
      at_level trigger (λ t. f.le now t)
  crosses now OrderType.market side price trigger = false

  unfoldable pub should_fill : Text → F → OrderRequest F → Bool
  should_fill symbol current_price r =
      text_eq (upper r.symbol) symbol
      && crosses current_price r.order_type r.transaction_type r.price r.trigger_price

  -- The first loop: the ids of the orders to fill.
  unfoldable pub to_fill : Text → F → Dict (OpenOrder F) → List Text
  to_fill symbol price [] = []
  to_fill symbol price ((order_id, o) ∷ orders) =
      if should_fill symbol price o.request
      then order_id ∷ to_fill symbol price orders
      else to_fill symbol price orders

  -- The update that is emitted for a fill.
  abbrev pub fill_update : ℕ → Text → OpenOrder F → F → OrderResponse F
  fill_update now order_id o price =
      record (response order_id (some o.broker_order_id) OrderStatus.complete) {
        filled_quantity = o.request.quantity;
        average_price = some price;
        updated_at = some now;
      }

  -- One order of the second loop, taken out of the open orders first.
  unfoldable pub fill_open : ℕ → Text → OpenOrder F → Paper F → Outcome (OrderResponse F × Paper F)
  fill_open now order_id o s = do
    (fill, s') ←
        execute order_id o.broker_order_id o.request.price now o.request
          (record s { open_orders = erase order_id s.open_orders })
    ok (fill_update now order_id o fill.price, s')

  -- The second loop.
  unfoldable pub fill_all :
      (OrderResponse F → Paper F → Paper F)
      → ℕ
      → List Text
      → Paper F
      → Outcome (List (OrderResponse F) × Paper F)
  fill_all heard now [] s = ok ([], s)
  fill_all heard now (order_id ∷ ids) s = elim (lookup order_id s.open_orders) [
    | none ↦ fill_all heard now ids s
    | some o ↦ fill_open now order_id o s >>= λ r.
        fill_all heard now ids (heard r.0 r.1) >>= λ rest. ok (r.0 ∷ rest.0, rest.1)
  ]

  unfoldable pub check_pending_fills :
      (OrderResponse F → Paper F → Paper F)
      → ℕ
      → Text
      → F
      → Paper F
      → Outcome (List (OrderResponse F) × Paper F)
  check_pending_fills heard now symbol current_price s =
      fill_all heard now (to_fill symbol current_price s.open_orders) s

  -- `update_last_price`: the price is stored at once, the check runs as a task later.
  unfoldable pub update_last_price : Text → F → Paper F → Paper F
  update_last_price symbol price s = record s {
    last_prices = insert (upper symbol) price s.last_prices;
    tasks = s.tasks ++ (upper symbol, price) ∷ [];
  }

  -- The event loop runs the task scheduled first; what it raises ends the task alone.
  unfoldable pub run_first :
      (OrderResponse F → Paper F → Paper F)
      → ℕ
      → List (Text × F)
      → Paper F
      → Outcome (List (OrderResponse F) × Paper F)
  run_first heard now [] s = ok ([], s)
  run_first heard now ((symbol, price) ∷ rest) s =
      check_pending_fills heard now symbol price (record s { tasks = rest })

  unfoldable pub run_task :
      (OrderResponse F → Paper F → Paper F)
      → ℕ
      → Paper F
      → Outcome (List (OrderResponse F) × Paper F)
  unfolding run_first
  run_task heard now s = run_first heard now s.tasks s

  unfoldable pub unsubscribe_ticks : List Text → Paper F → Paper F
  unsubscribe_ticks [] s = s
  unsubscribe_ticks (symbol ∷ symbols) s =
      unsubscribe_ticks symbols (record s { last_prices = erase (upper symbol) s.last_prices })
