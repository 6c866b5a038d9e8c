-- ===== src/Breeze/Status.antt =====
-- What a response says of the client's reply.
use nexa_trade.Prelude.{
  ℕ, ◌≡◌, refl, sym, ap, ◌∙◌, Bool, true, false, Bool-cases, inl, inr, Option, none, some, if-split,
  arith, if◌then◌else◌,
}
use mathlib.Core.Path.{subst}
use nexa_trade.Text.{Text, codes, text_eq, text_eq→eq}
use nexa_trade.Dict.{Dict, lookup}
use nexa_trade.Float.{Float}
use nexa_trade.Outcome.{Outcome, ok, raised, runtime_error, ◌>>=◌}
use nexa_trade.Models.Enums.{OrderStatus}
use nexa_trade.Models.Order.{OrderRequest, OrderResponse}
use nexa_trade.Brokers.{BrokerConfig}
use nexa_trade.Breeze.{Breeze, Reply, Vendor}
use nexa_trade.Breeze.Orders.{
  Values, status_map, history_status_map, status_of, only_row, read_by, call, order_args, response,
  text_by, error_text, placed, place_order,
}

history_modified : status_of history_status_map (some (codes "Modified")) ≡ OrderStatus.open_
unfolding status_of lookup text_eq
history_modified = refl

-- `get_order_history` reads a status as `get_order_status` does, but for "Modified", which is OPEN.
status_of-history :
    (raw : Text)
    → status_of history_status_map (some raw) ≡ (
        if text_eq (codes "Modified") raw
        then OrderStatus.open_
        else status_of status_map (some raw))
unfolding status_of lookup
status_of-history raw = elim (Bool-cases (text_eq (codes "Modified") raw)) [
  | inl e ↦
      subst (λ text. status_of history_status_map (some text) ≡ OrderStatus.open_)
        (text_eq→eq (codes "Modified") raw e) history_modified
      ∙ sym (ap (λ b. if b then OrderStatus.open_ else status_of status_map (some raw)) e)
  | inr e ↦ ground (arith, e)
]

ok_inj : {A : Type 0} (a a' : A) → ok a ≡ ok a' → a ≡ a'
ok_inj a a' h = ground (arith, h)

module _ {B J F : Type 0} ⦃f : Float F⦄ (w : Vendor B J) (v : Values J F) where
  -- A response of an order, with a status.
  abbrev pub Made : OrderRequest F → OrderStatus → OrderResponse F → Type 0
  Made request status r =
      (r.status ≡ status)
      × ((r.order_id ≡ request.order_id) × (r.trading_mode ≡ request.trading_mode))

  -- What a response to an order says, and the reply behind it.
  abbrev pub Behind : OrderRequest F → OrderResponse F → Outcome (Option (Reply J)) → Type 0
  Behind request r answer =
      (reply : Reply J) × ((answer ≡ ok (some reply))
        × Made request (if reply.is_ok then OrderStatus.open_ else OrderStatus.rejected) r)

  -- The response as it is made, whether the row can be read or not.
  opened_lem :
      (request : OrderRequest F) (make : Dict J → OrderResponse F) (m : Outcome (Dict J))
      (r : OrderResponse F)
      → ((row : Dict J) → Made request OrderStatus.open_ (make row))
      → (m >>= (λ row. ok (make row))) ≡ ok r
      → Made request OrderStatus.open_ r
  opened_lem request make (raised e) r made h = ground (arith, h)
  opened_lem request make (ok row) r made h =
      subst (Made request OrderStatus.open_) (ok_inj (make row) r h) (made row)

  placed_lem :
      (now : ℕ) (request : OrderRequest F) (reply : Option (Reply J)) (r : OrderResponse F)
      → placed w v now request reply ≡ ok r
      → Behind request r (ok reply)
  unfolding placed
  placed_lem now request none r h = ground (arith, h)
  placed_lem now request (some reply) r h = (reply, (refl, placed_by reply.is_ok refl h))
    where
      placed_by :
          (b : Bool)
          → reply.is_ok ≡ b
          → (if b
              then (only_row reply.success >>= λ row.
                  ok
                    (record (response w v request.order_id
                      (some (text_by w v (lookup (codes "order_id") row)))
                      OrderStatus.open_
                      request.trading_mode) { placed_at = some now }))
              else ok
                  (record (response w v request.order_id none OrderStatus.rejected
                    request.trading_mode) {
                      rejection_reason = some (error_text w v reply.error);
                      placed_at = some now;
                    }))
            ≡ ok r
          → Made request (if b then OrderStatus.open_ else OrderStatus.rejected) r
      placed_by true e k =
          opened_lem request _ (only_row reply.success) r (λ row. (refl, (refl, refl))) k
      placed_by false e k =
          subst (Made request OrderStatus.rejected) (ok_inj _ r k) (refl, (refl, refl))

  read_by-Behind :
      (now : ℕ) (request : OrderRequest F) (s : Breeze) (m : Outcome (Option (Reply J)) × B)
      → (r : OrderResponse F) → (read_by s (placed w v now request) m).0 ≡ ok r
      → Behind request r m.0
  read_by-Behind now request s (raised e, b) r h = ground (arith, h)
  read_by-Behind now request s (ok reply, b) r h = placed_lem now request reply r h

  -- An order that gets a response was sent to the client, which gave a reply and not None; the response
  -- is of this order, and it is OPEN when the reply has status 200, and REJECTED when it has not.
  pub place_order-Behind :
      (cfg : BrokerConfig) (now : ℕ) (request : OrderRequest F) (s : Breeze) (b : B)
      → (r : OrderResponse F) → (place_order w v cfg now request (s, b)).0 ≡ ok r
      → (s.has_client ≡ true) × Behind request r (w.place_order (order_args w v cfg request) b).0
  unfolding place_order call
  place_order-Behind cfg now request s b r =
      if-split
        (λ m.
          m.0 ≡ ok r
          → (s.has_client ≡ true)
            × Behind request r (w.place_order (order_args w v cfg request) b).0)
        s.has_client
        (read_by s (placed w v now request) (w.place_order (order_args w v cfg request) b))
        (raised runtime_error, (s, b))
        (λ on h.
          (on, read_by-Behind now request s (w.place_order (order_args w v cfg request) b) r h))
        λ off h. ground (arith, h)
