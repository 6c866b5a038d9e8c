-- ===== src/Backtest/Pending/Counted.antt =====
-- The orders that the strategy's callbacks queue while `process_pending_orders` runs, counted.
use nexa_trade.Prelude.{
  ℕ, zero, suc, ◌+◌, ◌<◌, ◌≡◌, refl, ap, Bool, true, false, ◌&&◌, Option-cases, inl, inr, none,
  some, List, [], ◌∷◌, ◌++◌, if◌then◌else◌, arith, length, length-append,
}
use mathlib.Core.Path.{subst}
use nexa_trade.Prelude.Int.{pos, ltb_ℤ}
use nexa_trade.Float.{Float}
use nexa_trade.Outcome.{Outcome, ok, raised, May, May->>=, May-weaken, Returns, Returns-May}
use nexa_trade.Models.Enums.{TransactionType, SignalDirection}
use nexa_trade.Models.Order.{OrderRequest, OrderResponse, price_allowed, create}
use nexa_trade.Models.Market.{Ohlcv}
use nexa_trade.Models.Signal.{StrategySignal}
use nexa_trade.Backtest.Broker.{SimulatedBroker, SimOrder, submit_order, update_position}
use nexa_trade.Backtest.Prices.{fill_price}
use nexa_trade.Backtest.Pending.{
  Session, Setup, quantity_or_one, side_of, signal_request, submit_validated, on_strategy_signal,
  deliver, react, notify, book_fill, fill_response, execute_fill, turn, process_loop,
  process_pending_orders,
}
use nexa_trade.Backtest.Pending.Signals.{react-Queues}
use nexa_trade.Backtest.Pending.Invariant.{Budget}
use nexa_trade.Backtest.Pending.Matching.{Good, Settles, process_pending_orders_lem}

-- The directions that ask for an order.
abbrev pub trades : SignalDirection → Bool
trades SignalDirection.hold = false
trades SignalDirection.none_ = false
trades _ = true

traded : (d : SignalDirection) (t : TransactionType) → side_of d ≡ some t → trades d ≡ true
traded SignalDirection.buy t e = refl
traded SignalDirection.sell t e = refl
traded SignalDirection.exit t e = refl
traded SignalDirection.hold t e = ground (arith, e)
traded SignalDirection.none_ t e = ground (arith, e)

not_traded : (d : SignalDirection) → side_of d ≡ none → trades d ≡ false
not_traded SignalDirection.buy e = ground (arith, e)
not_traded SignalDirection.sell e = ground (arith, e)
not_traded SignalDirection.exit e = ground (arith, e)
not_traded SignalDirection.hold e = refl
not_traded SignalDirection.none_ e = refl

module _ {F : Type 0} ⦃f : Float F⦄ where
  -- The signals that ask for an order, and for one that validation lets through.
  abbrev pub is_orderable : StrategySignal F → Bool
  is_orderable g =
      trades g.direction
      && (ltb_ℤ (pos 0) (quantity_or_one g.suggested_quantity)
          && (price_allowed g.suggested_price && price_allowed g.stop_loss_price))

  abbrev pub orderables : List (StrategySignal F) → ℕ
  orderables [] = 0
  orderables (g ∷ gs) = (if is_orderable g then 1 else 0) + orderables gs

  -- A fill leaves the queue alone and adds one filled order.
  book_fill-counted :
      (o : SimOrder F) (price : F) (c : Ohlcv F) (b : SimulatedBroker F)
      → May
          (λ b'.
            (b'.pending_orders ≡ b.pending_orders)
            × (length b'.filled_orders ≡ suc (length b.filled_orders)))
          (book_fill o price c b)
  unfolding book_fill
  book_fill-counted o price c b =
      May->>= _ (update_position o.symbol o.transaction_type o.quantity price b.positions) _
        (λ out moved. (refl, omega (arith, length-append b.filled_orders)))

module _ {S F : Type 0} ⦃f : Float F⦄ (w : Setup S F) where
  -- How many orders a strategy will still ask for as it is sent updates, exactly.
  pub record ExactBudget : Type 0 where
    pub owed : S → ℕ
    pub update_pays :
        (buffer : List (Ohlcv F)) (r : OrderResponse F) (st : S)
        → owed (w.strategy.on_order_update buffer r st).state
            + orderables (w.strategy.on_order_update buffer r st).signals
          ≡ owed st

  submit_validated-counted :
      (name : _) (s : Session S F) (m : Outcome (OrderRequest F)) (n : ℕ)
      → ((r : OrderRequest F) → m ≡ ok r → n ≡ 1)
      → ((e : _) → m ≡ raised e → n ≡ 0)
      → length (submit_validated name s m).broker.pending_orders
        ≡ length s.broker.pending_orders + n
  unfolding submit_order
  submit_validated-counted name s (ok r) n queues drops =
      omega (arith, queues r refl, length-append s.broker.pending_orders)
  submit_validated-counted name s (raised e) n queues drops = omega (arith, drops e refl)

  on_strategy_signal-counted :
      (g : StrategySignal F) (s : Session S F)
      → length (on_strategy_signal w g s).broker.pending_orders
        ≡ length s.broker.pending_orders + (if is_orderable g then 1 else 0)
  unfolding on_strategy_signal create
  on_strategy_signal-counted g s = elim (Option-cases (side_of g.direction)) [
    | inl e ↦ rw (e, on_strategy_signal, not_traded g.direction e) (omega arith)
    | inr (side, e) ↦
        rw (e, on_strategy_signal)
          (submit_validated-counted g.strategy_name s
            (create (signal_request (w.fresh_id s.ids_drawn) side g)) _
            (λ r h. ground (arith, h, traded g.direction side e))
            (λ x h. ground (arith, h, traded g.direction side e)))
  ]

  deliver-counted :
      (gs : List (StrategySignal F)) (s : Session S F)
      → length (deliver w gs s).broker.pending_orders
        ≡ length s.broker.pending_orders + orderables gs
  unfolding deliver
  deliver-counted [] s = omega arith
  deliver-counted (g ∷ gs) s =
      omega (arith, deliver-counted gs (on_strategy_signal w g s), on_strategy_signal-counted g s)

  module _ (exact : ExactBudget) where
    -- The orders in the queue and those filled, and those still to be asked for, with what was set
    -- aside.
    abbrev pub balance : List (SimOrder F) → Session S F → ℕ
    balance still s =
        length still
        + length s.broker.pending_orders
        + length s.broker.filled_orders
        + exact.owed s.strategy

    notify-counted :
        (still : List (SimOrder F)) (r : OrderResponse F) (s : Session S F)
        → balance still (notify w r s) ≡ balance still s
    unfolding notify react
    notify-counted still r s =
        let reaction = w.strategy.on_order_update s.buffer r s.strategy in
        let q = react-Queues w reaction s in
        omega (
          arith,
          deliver-counted reaction.signals (record s { strategy = reaction.state }),
          ap (λ (b : SimulatedBroker F). length b.filled_orders) q.all_else,
          ap exact.owed q.same_strategy,
          exact.update_pays s.buffer r s.strategy,
        )

    execute_fill-counted :
        (o : SimOrder F) (price : F) (c : Ohlcv F) (still : List (SimOrder F)) (s : Session S F)
        → May (λ s'. balance still s' ≡ suc (balance still s)) (execute_fill w o price c s)
    unfolding execute_fill
    execute_fill-counted o price c still s = May->>= _ (book_fill o price c s.broker) _ (λ b booked.
        let (queue, one) = subst (May _) booked (book_fill-counted o price c s.broker) in
        omega (
          arith,
          notify-counted still (fill_response o price c) (record s { broker = b }),
          ap length queue,
          one,
        ))

    turn-counted :
        (next : List (SimOrder F) → Session S F → Outcome (Session S F))
        → ((still : List (SimOrder F)) (s : Session S F)
            → May (λ s'. balance [] s' ≡ balance still s) (next still s))
        → (c : Ohlcv F) (still queue : List (SimOrder F)) (s : Session S F)
        → s.broker.pending_orders ≡ queue
        → May (λ s'. balance [] s' ≡ balance still s) (turn w next c still queue s)
    unfolding turn
    turn-counted next go c still [] s e = omega (arith, ap length e)
    turn-counted next go c still (o ∷ rest) s e =
        let s' : Session S F = record s { broker = record (s.broker) { pending_orders = rest } } in
        elim (Option-cases (fill_price s.broker.slippage_pct o c)) [
          | inl kept ↦
              rw (kept, turn)
                (May-weaken _ _ (next (still ++ o ∷ []) s') (go (still ++ o ∷ []) s')
                  (λ s2 h. omega (arith, h, length-append still (o ∷ []), ap length e)))
          | inr (price, hit) ↦
              rw (hit, turn)
                (May->>= _ (execute_fill w o price c s') _ (λ s2 filled.
                  let one = subst (May _) filled (execute_fill-counted o price c still s') in
                  May-weaken _ _ (next still s2) (go still s2)
                    (λ s3 h. omega (arith, h, one, ap length e))))
        ]

    process_loop-counted :
        (n : ℕ) (c : Ohlcv F) (still : List (SimOrder F)) (s : Session S F)
        → May (λ s'. balance [] s' ≡ balance still s) (process_loop w n c still s)
    unfolding process_loop
    process_loop-counted zero c still s = tt
    process_loop-counted (suc n) c still s =
        turn-counted (process_loop w n c) (process_loop-counted n c) c still s.broker.pending_orders
          s refl

-- In a session whose positions agree with its fills, whose queued quantities are positive and whose
-- orders, queued and still to come, are within the limit: for a strategy that can pay for the signals it
-- emits, and of which it is known exactly how many signals with a valid order it will still emit, with
-- fuel for the queued orders and the signals still to come: `process_pending_orders` returns, although the
-- callback may extend the list that the loop runs over. Then the positions agree with the fills, the
-- filled orders are one for each fill, and the equity curve and the buffer are as before. No order is
-- lost: of the orders that any test picks, at least as many are in the queue or filled as before, and in all
-- there are more of them by exactly the number of signals with a valid order that the callbacks
-- emitted meanwhile.
pub process_pending_orders_counted :
    {S F : Type 0} ⦃f : Float F⦄ (w : Setup S F) (pays : Budget w) (exact : ExactBudget w)
    (limit : ℕ) (capital : F) (fuel : ℕ) (c : Ohlcv F) (s : Session S F)
    → length s.broker.pending_orders + pays.potential s.strategy < fuel
    → Good w pays limit capital [] s
    → Returns
        (λ s'.
          Settles w pays limit capital [] s s' × (balance w exact [] s' ≡ balance w exact [] s))
        (process_pending_orders w fuel c s)
unfolding process_pending_orders
process_pending_orders_counted w pays exact limit capital fuel c s enough h =
    Returns-May _ _ (process_pending_orders w fuel c s)
      (process_pending_orders_lem w pays limit capital fuel c s enough h)
      (process_loop-counted w exact fuel c [] s)
