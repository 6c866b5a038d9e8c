-- ===== src/Breeze/Orders.antt =====
-- The order calls: what is sent, and what is made of the reply.
use nexa_trade.Prelude.{
  ℕ, zero, Bool, false, Option, none, some, List, [], ◌∷◌, get_or, if◌then◌else◌,
}
use nexa_trade.Prelude.Int.{ℤ, pos}
use nexa_trade.Text.{Text, codes}
use nexa_trade.Dict.{Dict, lookup}
use nexa_trade.Float.{Float, nought, truthy}
use nexa_trade.Outcome.{Outcome, ok, raised, runtime_error, attribute_error, key_error, ◌>>=◌}
use nexa_trade.Models.Enums.{
  TransactionType, OrderType, OrderStatus, ProductType, TradingMode, exchange_text,
}
use nexa_trade.Models.Order.{OrderRequest, OrderResponse, OrderModifyRequest}
use nexa_trade.Brokers.{
  BrokerConfig, get_exchange_code, get_order_type_code, get_transaction_type_code,
}
use nexa_trade.Breeze.{Breeze, Success, nothing, one, many, Reply, OrderArgs, Vendor}

-- Python's conversions of the values in a reply and of numbers to texts.
pub record Values (J F : Type 0) : Type 0 where
  pub is_truthy : J → Bool
  pub int_of : J → Outcome ℤ
  pub float_of : J → Outcome F
  pub str_of : J → Text
  pub as_text : J → Option Text
  pub str_of_int : ℤ → Text
  pub str_of_float : F → Text

abbrev pub order_type_text : OrderType → Text
order_type_text OrderType.market = codes "MARKET"
order_type_text OrderType.limit = codes "LIMIT"
order_type_text OrderType.stop_loss = codes "STOP_LOSS"
order_type_text OrderType.stop_loss_market = codes "STOP_LOSS_MARKET"

abbrev pub transaction_type_text : TransactionType → Text
transaction_type_text TransactionType.buy = codes "BUY"
transaction_type_text TransactionType.sell = codes "SELL"

-- `product_map`
abbrev pub product_code : ProductType → Text
product_code ProductType.delivery = codes "cash"
product_code ProductType.intraday = codes "margin"
product_code ProductType.futures = codes "futures"
product_code ProductType.options = codes "options"

-- `(result.get("Success") or [{}])[0]`
abbrev pub first_row : {J : Type 0} → Success J → Outcome (Dict J)
first_row nothing = ok []
first_row (one []) = ok []
first_row (one (x ∷ d)) = raised key_error
first_row (many []) = ok []
first_row (many (d ∷ ds)) = ok d

-- `result.get("Success", {}) or {}`, of which `.get` is called
abbrev pub only_row : {J : Type 0} → Success J → Outcome (Dict J)
only_row nothing = ok []
only_row (one d) = ok d
only_row (many []) = ok []
only_row (many (d ∷ ds)) = raised attribute_error

-- `status_map` of `get_order_status`
abbrev pub status_map : Dict OrderStatus
status_map =
    (codes "Executed", OrderStatus.complete)
    ∷ (codes "Ordered", OrderStatus.open_)
    ∷ (codes "Cancelled", OrderStatus.cancelled)
    ∷ (codes "Rejected", OrderStatus.rejected)
    ∷ (codes "Modified", OrderStatus.modified)
    ∷ []

-- `status_map` of `get_order_history`
abbrev pub history_status_map : Dict OrderStatus
history_status_map =
    (codes "Executed", OrderStatus.complete)
    ∷ (codes "Ordered", OrderStatus.open_)
    ∷ (codes "Cancelled", OrderStatus.cancelled)
    ∷ (codes "Rejected", OrderStatus.rejected)
    ∷ []

-- What both make of a status: one that is not in the table, or no text, is OPEN.
unfoldable pub status_of : Dict OrderStatus → Option Text → OrderStatus
status_of table none = OrderStatus.open_
status_of table (some raw) = get_or (lookup raw table) OrderStatus.open_

-- Whether a reply is there and has status 200, and the error that is read of None.
abbrev pub replied : {J : Type 0} → Option (Reply J) → Bool
replied none = false
replied (some r) = r.is_ok

-- `.get` of a reply that may be None
abbrev pub reply_of : {J : Type 0} → Option (Reply J) → Outcome (Reply J)
reply_of none = raised attribute_error
reply_of (some r) = ok r

-- `result.get("Success", []) or []`, which is walked through: of a dict that is its keys, texts
-- that have no `get`
abbrev pub rows_of : {J : Type 0} → Success J → Outcome (List (Dict J))
rows_of nothing = ok []
rows_of (one []) = ok []
rows_of (one (x ∷ d)) = raised attribute_error
rows_of (many rows) = ok rows

-- `_get_client`, a call in a `try` whose exceptions become a RuntimeError, and what is made of the reply.
abbrev pub read_by :
    {B R A : Type 0} → Breeze → (R → Outcome A) → Outcome R × B → Outcome A × (Breeze × B)
read_by s make (raised e, b) = (raised runtime_error, (s, b))
read_by s make (ok reply, b) = (make reply, (s, b))

unfoldable pub call :
    {B R A : Type 0} → (B → Outcome R × B) → (R → Outcome A) → Breeze × B → Outcome A × (Breeze × B)
call api make (s, b) =
    if s.has_client then read_by s make (api b) else (raised runtime_error, (s, b))

module _ {B J F : Type 0} ⦃f : Float F⦄ (w : Vendor B J) (v : Values J F) where
  -- `str(price or 0)`
  abbrev pub price_text : Option F → Text
  price_text none = codes "0"
  price_text (some p) = if truthy p then v.str_of_float p else codes "0"

  -- `int(row.get(key, 0) or 0)`
  abbrev pub int_by : Option J → Outcome ℤ
  int_by none = ok (pos 0)
  int_by (some x) = if v.is_truthy x then v.int_of x else ok (pos 0)

  -- `float(row.get(key, 0.0) or 0.0)`
  abbrev pub float_by : Option J → Outcome F
  float_by none = ok nought
  float_by (some x) = if v.is_truthy x then v.float_of x else ok nought

  -- `str(row.get("order_id", ""))`
  abbrev pub text_by : Option J → Text
  text_by none = []
  text_by (some x) = v.str_of x

  -- `row.get("order_status", "")`, when it is a text
  abbrev pub raw_status : Option J → Option Text
  raw_status none = some []
  raw_status (some x) = v.as_text x

  abbrev pub order_args : BrokerConfig → OrderRequest F → OrderArgs
  order_args cfg request = record {
    stock_code = request.symbol;
    exchange_code = get_exchange_code cfg (exchange_text request.exchange);
    product = product_code request.product_type;
    action = get_transaction_type_code cfg (transaction_type_text request.transaction_type);
    order_type = get_order_type_code cfg (order_type_text request.order_type);
    quantity = v.str_of_int request.quantity;
    price = price_text request.price;
    stoploss = price_text request.trigger_price;
  }

  -- The fields that the responses share.
  abbrev pub response : Text → Option Text → OrderStatus → TradingMode → OrderResponse F
  response order_id broker_order_id status mode = record {
    order_id = order_id;
    broker_order_id = broker_order_id;
    status = status;
    rejection_reason = none;
    filled_quantity = pos 0;
    average_price = none;
    placed_at = none;
    updated_at = none;
    broker_name = codes "breeze";
    trading_mode = mode;
  }

  abbrev pub error_text : Option Text → Text
  error_text none = codes "Unknown error"
  error_text (some message) = message

  -- What `place_order` makes of a reply, at a point in time.
  unfoldable pub placed : ℕ → OrderRequest F → Option (Reply J) → Outcome (OrderResponse F)
  placed now request reply = reply_of reply >>= λ r.
      if r.is_ok
      then (only_row r.success >>= λ row.
          ok
            (record (response request.order_id (some (text_by (lookup (codes "order_id") row)))
              OrderStatus.open_ request.trading_mode) { placed_at = some now }))
      else ok (record (response request.order_id none OrderStatus.rejected request.trading_mode) {
        rejection_reason = some (error_text r.error);
        placed_at = some now;
      })

  unfoldable pub place_order :
      BrokerConfig → ℕ → OrderRequest F → Breeze × B → Outcome (OrderResponse F) × (Breeze × B)
  place_order cfg now request = call (w.place_order (order_args cfg request)) (placed now request)

  -- `str(quantity or "")`
  abbrev pub quantity_text : Option ℤ → Text
  quantity_text none = []
  quantity_text (some (pos zero)) = []
  quantity_text (some quantity) = v.str_of_int quantity

  -- A reply with status 200 gives one status, another gives REJECTED. The message reads of the reply.
  unfoldable pub changed :
      ℕ → Text → Text → OrderStatus → Option (Reply J) → Outcome (OrderResponse F)
  changed now order_id broker_order_id status reply = reply_of reply >>= λ r.
      ok
        (record (response order_id (some broker_order_id)
          (if r.is_ok then status else OrderStatus.rejected) TradingMode.live) {
            updated_at = some now;
          })

  unfoldable pub modify_order :
      ℕ → OrderModifyRequest F → Breeze × B → Outcome (OrderResponse F) × (Breeze × B)
  modify_order now request =
      call
        (w.modify_order record {
          order_id = request.broker_order_id;
          quantity = quantity_text request.quantity;
          price = price_text request.price;
          stoploss = price_text request.trigger_price;
        })
        (changed now request.order_id request.broker_order_id OrderStatus.open_)

  unfoldable pub cancel_order :
      ℕ → Text → Text → Breeze × B → Outcome (OrderResponse F) × (Breeze × B)
  cancel_order now order_id broker_order_id =
      call (w.cancel_order broker_order_id)
        (changed now order_id broker_order_id OrderStatus.cancelled)

  -- A response of a row of the client's.
  unfoldable pub row_response : Dict OrderStatus → Text → Text → Dict J → Outcome (OrderResponse F)
  row_response table order_id broker_order_id row =
      int_by (lookup (codes "executed_quantity") row) >>= λ filled.
      float_by (lookup (codes "average_price") row) >>= λ average.
      ok
        (record (response order_id (some broker_order_id)
          (status_of table (raw_status (lookup (codes "order_status") row))) TradingMode.live) {
            filled_quantity = filled;
            average_price = some average;
          })

  abbrev pub detail : Option (Reply J) → Outcome (Dict J)
  detail none = ok []
  detail (some r) = if r.is_ok then first_row r.success else ok []

  unfoldable pub order_status : ℕ → Text → Text → Option (Reply J) → Outcome (OrderResponse F)
  order_status now order_id broker_order_id reply = detail reply >>= λ row.
      row_response status_map order_id broker_order_id row >>= λ r.
      ok (record r { updated_at = some now })

  unfoldable pub get_order_status :
      ℕ → Text → Text → Breeze × B → Outcome (OrderResponse F) × (Breeze × B)
  get_order_status now order_id broker_order_id =
      call (w.get_order_detail broker_order_id) (order_status now order_id broker_order_id)

  unfoldable pub history_rows : List (Dict J) → Outcome (List (OrderResponse F))
  history_rows [] = ok []
  history_rows (row ∷ rows) =
      let id = text_by (lookup (codes "order_id") row) in
      row_response history_status_map id id row >>= λ r. history_rows rows >>= λ rs. ok (r ∷ rs)

  unfoldable pub order_history : Option (Reply J) → Outcome (List (OrderResponse F))
  order_history reply = reply_of reply >>= λ r. rows_of r.success >>= history_rows

  unfoldable pub get_order_history :
      Text → Text → Breeze × B → Outcome (List (OrderResponse F)) × (Breeze × B)
  get_order_history from_date to_date = call (w.get_order_list from_date to_date) order_history
