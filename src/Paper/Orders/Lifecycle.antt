-- ===== src/Paper/Orders/Lifecycle.antt =====
-- What the order calls of the paper adapter do to the open orders.
use nexa_trade.Prelude.{
  ℕ, ◌≡◌, ◌⊎◌, false, none, some, arith, Option-cases, inl, inr, if◌then◌else◌,
}
use nexa_trade.Text.{Text, text_eq}
use nexa_trade.Dict.{lookup, lookup-insert, lookup-erase, lookup-erase_self, lookup-insert_self}
use nexa_trade.Float.{Float}
use nexa_trade.Outcome.{Returns}
use nexa_trade.Models.Enums.{OrderStatus}
use nexa_trade.Models.Order.{OrderRequest, OrderModifyRequest}
use nexa_trade.Paper.State.{Paper, OpenOrder}
use nexa_trade.Paper.Orders.{
  Call, refused, is_market, place_order, modify_order, modified_request, cancel_order,
  get_order_status,
}

module _ {F : Type 0} ⦃f : Float F⦄ where
  -- What `place_order` stores for an order that rests.
  abbrev pub resting_order : Call F → OrderRequest F → OpenOrder F
  resting_order c r = record {
    request = r;
    broker_order_id = c.fresh_id;
    status = OrderStatus.open_;
    placed_at = c.now;
  }

  -- An accepted order that is not a market order rests under its id, with its request, and is
  -- reported as open, afterwards too. It trades nothing: the book, the fills and the other open
  -- orders stay as they were.
  pub place_order_rests :
      (c : Call F) (r : OrderRequest F) (s : Paper F) (b : Text)
      → refused c s ≡ false
      → is_market r.order_type ≡ false
      → Returns
          (λ out.
            (out.0.status ≡ OrderStatus.open_)
            × ((get_order_status r.order_id b out.1).status ≡ OrderStatus.open_)
            × ((j : Text)
                → lookup j out.1.open_orders ≡ (
                    if text_eq r.order_id j
                    then some (resting_order c r)
                    else lookup j s.open_orders))
            × (out.1.positions ≡ s.positions)
            × (out.1.fills ≡ s.fills))
          (place_order c r s)
  unfolding place_order get_order_status
  place_order_rests c r s b accepted resting = ground (
    arith,
    lookup-insert_self r.order_id (resting_order c r) s.open_orders,
    λ (j : Text). lookup-insert r.order_id j (resting_order c r) s.open_orders,
  )

  -- A cancelled order is gone from the open orders, no other order is touched, and a second cancel
  -- of it is rejected and changes nothing.
  pub cancel_order_lem :
      (now : ℕ) (id b : Text) (s : Paper F) {o : OpenOrder F}
      → lookup id s.open_orders ≡ some o
      → let (r, s') = cancel_order now id b s in
        (r.status ≡ OrderStatus.cancelled)
        × ((j : Text)
            → lookup j s'.open_orders ≡ (if text_eq id j then none else lookup j s.open_orders))
        × ((cancel_order now id b s').0.status ≡ OrderStatus.rejected)
        × ((cancel_order now id b s').1 ≡ s')
  unfolding cancel_order
  cancel_order_lem now id b s h = (
    ground arith,
    λ j. ground (arith, lookup-erase id j s.open_orders),
    ground (arith, lookup-erase_self id s.open_orders),
    ground (arith, lookup-erase_self id s.open_orders),
  )

  -- Once cancelled, an order is reported as complete.
  pub get_order_status-cancel_order :
      (now : ℕ) (id b : Text) (s : Paper F)
      → (get_order_status id b (cancel_order now id b s).1).status ≡ OrderStatus.complete
  unfolding cancel_order get_order_status
  get_order_status-cancel_order now id b s = ground (arith, lookup-erase_self id s.open_orders)

  -- Modifying an open order replaces its request by the modified one and marks it modified; it
  -- keeps its broker order id, its identity and its type, and no other order changes. An order that
  -- is not open is rejected, and nothing changes.
  pub modify_order_lem :
      (now : ℕ) (m : OrderModifyRequest F) (s : Paper F)
      → ((lookup m.order_id s.open_orders ≡ none)
          × ((modify_order now m s).0.status ≡ OrderStatus.rejected)
          × ((modify_order now m s).1 ≡ s))
        ⊎ ((o : OpenOrder F) × (lookup m.order_id s.open_orders ≡ some o)
            × ((modify_order now m s).0.status ≡ OrderStatus.modified)
            × ((j : Text)
                → lookup j (modify_order now m s).1.open_orders ≡ (
                    if text_eq m.order_id j
                    then some (record o {
                      request = modified_request m o.request;
                      status = OrderStatus.modified;
                    })
                    else lookup j s.open_orders)))
  unfolding modify_order
  modify_order_lem now m s = elim (Option-cases (lookup m.order_id s.open_orders)) [
    | inl e ↦ inl (e, ground arith, ground arith)
    | inr (o, e) ↦ inr (
      o,
      e,
      ground arith,
      λ j. ground (
        arith,
        lookup-insert m.order_id j
            (record o { request = modified_request m o.request; status = OrderStatus.modified })
            s.open_orders,
      ),
    )
  ]
