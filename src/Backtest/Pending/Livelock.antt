-- ===== src/Backtest/Pending/Livelock.antt =====
-- A strategy that answers every fill with another market buy keeps `process_pending_orders` busy for
-- ever: the order joins the list that the loop runs over, and the same candle fills it.
use nexa_trade.Prelude.{
  ℕ, zero, suc, ◌≡◌, ◌≢◌, refl, sym, ap, ◌∙◌, true, none, some, List, [], ◌∷◌, ◌++◌, arith, All,
  All-append,
}
use mathlib.Core.Path.{subst}
use nexa_trade.Prelude.Int.{pos, ltb_ℤ}
use nexa_trade.Float.{Float, truthy, max_f}
use nexa_trade.Outcome.{Outcome, raised, out_of_fuel, Returns, Returns->>=, Returns-ok, ◌>>=◌}
use nexa_trade.Models.Enums.{TransactionType, OrderType, SignalDirection}
use nexa_trade.Models.Order.{OrderResponse, create}
use nexa_trade.Models.Symbol.{normalise_symbol}
use nexa_trade.Models.Market.{Ohlcv}
use nexa_trade.Models.Signal.{StrategySignal}
use nexa_trade.Backtest.Broker.{SimulatedBroker, SimOrder, submit_order}
use nexa_trade.Backtest.Prices.{fill_price, raw_price, market_price}
use nexa_trade.Backtest.Strategy.{Reaction}
use nexa_trade.Backtest.Pending.{
  Session, Setup, quantity_or_one, on_strategy_signal, deliver, react, notify, book_fill,
  fill_response, execute_fill, turn, process_loop, process_pending_orders,
}
use nexa_trade.Backtest.Pending.Signals.{IsPositive, react-Queues}
use nexa_trade.Backtest.Pending.Invariant.{Agrees, Agrees-emptied, Books, book_fill-Books}

snoc-ne-nil : {A : Type 0} (xs : List A) (x : A) → xs ++ x ∷ [] ≢ []
snoc-ne-nil [] x e = cc
snoc-ne-nil (y ∷ xs) x e = cc

module _ {F : Type 0} ⦃f : Float F⦄ where
  -- A buy at the market of a positive quantity.
  abbrev pub IsMarketBuy : SimOrder F → Type 0
  IsMarketBuy o =
      (o.order_type ≡ OrderType.market) × (o.transaction_type ≡ TransactionType.buy) × IsPositive o

  -- A signal that becomes such an order.
  abbrev pub IsMarketSignal : StrategySignal F → Type 0
  IsMarketSignal g =
      (g.direction ≡ SignalDirection.buy)
      × (g.suggested_price ≡ none)
      × (g.stop_loss_price ≡ none)
      × (ltb_ℤ (pos 0) (quantity_or_one g.suggested_quantity) ≡ true)

  -- A candle whose market price for a buy is not zero fills such an order.
  fill_price-market :
      (pct : F) (o : SimOrder F) (c : Ohlcv F)
      → truthy (market_price pct TransactionType.buy c) ≡ true
      → IsMarketBuy o
      → fill_price pct o c ≡ some (max_f (market_price pct TransactionType.buy c) (f.decimal 1 2))
  unfolding fill_price raw_price
  fill_price-market pct o c nz (m, b, p) = rw (m, b, nz)

module _ {S F : Type 0} ⦃f : Float F⦄ (w : Setup S F) (again : StrategySignal F) where
  on_strategy_signal-market :
      (s : Session S F)
      → IsMarketSignal again
      → (o : SimOrder F) × ((on_strategy_signal w again s).broker.pending_orders
          ≡ s.broker.pending_orders ++ o ∷ [])
        × IsMarketBuy o
  unfolding on_strategy_signal create submit_order
  on_strategy_signal-market s (d, p, t, q) =
      let o : SimOrder F = record {
        order_id = w.fresh_id s.ids_drawn;
        strategy_name = again.strategy_name;
        symbol = normalise_symbol again.symbol;
        transaction_type = TransactionType.buy;
        order_type = OrderType.market;
        quantity = quantity_or_one again.suggested_quantity;
        limit_price = none;
        trigger_price = none;
      } in
      (o, ground arith, (refl, refl, ground arith))

  -- The strategy answers every order update with the signal `again`, and emits nothing else then.
  abbrev pub Resubmits : Type 0
  Resubmits =
      (buffer : List (Ohlcv F)) (r : OrderResponse F) (st : S)
      → (w.strategy.on_order_update buffer r st).signals ≡ again ∷ []

  -- A session that the loop cannot leave: its queue holds market buys only.
  pub record IsStuck (s : Session S F) : Type 0 where
    pub agrees : Agrees s.broker
    pub all_buys : All IsMarketBuy s.broker.pending_orders

  react-market :
      (r : Reaction S F) (s : Session S F)
      → IsMarketSignal again
      → r.signals ≡ again ∷ []
      → IsStuck s
      → IsStuck (react w r s)
        × ((react w r s).broker.pending_orders ≢ [])
        × ((react w r s).broker.slippage_pct ≡ s.broker.slippage_pct)
  unfolding react deliver
  react-market r s g e h =
      let s1 : Session S F = record s { strategy = r.state } in
      let q = react-Queues w r s in
      let (o, added, buy) = on_strategy_signal-market s1 g in
      let queue = ap (λ gs. (deliver w gs s1).broker.pending_orders) e ∙ added in
      (
        record {
          agrees = Agrees-emptied (react w r s).broker s.broker q.all_else h.agrees;
          all_buys =
              subst (All IsMarketBuy) (sym queue)
                (All-append IsMarketBuy s.broker.pending_orders (o ∷ []) h.all_buys (buy, tt));
        },
        λ none_left. snoc-ne-nil s.broker.pending_orders o (sym queue ∙ none_left),
        ap (λ (b : SimulatedBroker F). b.slippage_pct) q.all_else,
      )

  execute_fill-IsStuck :
      (o : SimOrder F) (price : F) (c : Ohlcv F) (s : Session S F)
      → IsMarketSignal again
      → Resubmits
      → IsPositive o
      → IsStuck s
      → Returns
          (λ s'.
            IsStuck s'
            × (s'.broker.pending_orders ≢ [])
            × (s'.broker.slippage_pct ≡ s.broker.slippage_pct))
          (execute_fill w o price c s)
  unfolding execute_fill notify
  execute_fill-IsStuck o price c s g always p h =
      Returns->>= (Books o s.broker) _ (book_fill o price c s.broker) _
        (book_fill-Books o price c s.broker p h.agrees)
        (λ b done.
          let s2 : Session S F = record s { broker = b } in
          let r = w.strategy.on_order_update s.buffer (fill_response o price c) s.strategy in
          let (stuck, more, pct) =
            react-market r s2 g (always s.buffer (fill_response o price c) s.strategy) (record {
              agrees = done.agrees;
              all_buys = subst (All IsMarketBuy) (sym done.same_queue) h.all_buys;
            }) in
          (stuck, more, pct ∙ done.same_slippage))

  turn_stuck :
      (next : List (SimOrder F) → Session S F → Outcome (Session S F)) (c : Ohlcv F)
      (still queue : List (SimOrder F)) (s : Session S F)
      → ((s' : Session S F)
          → IsStuck s'
          → s'.broker.pending_orders ≢ []
          → s'.broker.slippage_pct ≡ s.broker.slippage_pct
          → next still s' ≡ raised out_of_fuel)
      → s.broker.pending_orders ≡ queue
      → queue ≢ []
      → IsMarketSignal again
      → Resubmits
      → truthy (market_price s.broker.slippage_pct TransactionType.buy c) ≡ true
      → IsStuck s
      → turn w next c still queue s ≡ raised out_of_fuel
  unfolding turn
  turn_stuck next c still [] s go e more g always nz h = absurd (more refl)
  turn_stuck next c still (o ∷ rest) s go e more g always nz h =
      let s' : Session S F = record s { broker = record (s.broker) { pending_orders = rest } } in
      let buys = subst (All IsMarketBuy) e h.all_buys in
      let price =
        max_f (market_price s.broker.slippage_pct TransactionType.buy c) (f.decimal 1 2) in
      let stuck : IsStuck s' = record {
        agrees = record { agrees = h.agrees.agrees; recorded = h.agrees.recorded };
        all_buys = buys.1;
      } in
      let (s2, done, (stuck2, more2, pct2)) =
        Returns-ok _ (execute_fill w o price c s')
          (execute_fill-IsStuck o price c s' g always buys.0.2 stuck) in
      rw (fill_price-market s.broker.slippage_pct o c nz buys.0, turn)
        (rw (done, ◌>>=◌) (go s2 stuck2 more2 pct2))

  loop_stuck :
      (n : ℕ) (c : Ohlcv F) (still : List (SimOrder F)) (s : Session S F)
      → s.broker.pending_orders ≢ []
      → IsMarketSignal again
      → Resubmits
      → truthy (market_price s.broker.slippage_pct TransactionType.buy c) ≡ true
      → IsStuck s
      → process_loop w n c still s ≡ raised out_of_fuel
  unfolding process_loop
  loop_stuck zero c still s more g always nz h = refl
  loop_stuck (suc n) c still s more g always nz h =
      turn_stuck (process_loop w n c) c still s.broker.pending_orders s
        (λ s' h' more' pct.
          loop_stuck n c still s' more' g always
            (subst (λ p. truthy (market_price p TransactionType.buy c) ≡ true) (sym pct) nz) h')
        refl more g always nz h

  -- If the strategy answers every order update with one market buy, and the queue holds market buys
  -- and at least one of them, then no fuel is enough for a candle whose market price is not zero:
  -- the loop of `process_pending_orders` does not end.
  pub process_pending_orders_stuck :
      (fuel : ℕ) (c : Ohlcv F) (s : Session S F)
      → s.broker.pending_orders ≢ []
      → IsMarketSignal again
      → Resubmits
      → truthy (market_price s.broker.slippage_pct TransactionType.buy c) ≡ true
      → IsStuck s
      → process_pending_orders w fuel c s ≡ raised out_of_fuel
  unfolding process_pending_orders
  process_pending_orders_stuck fuel c s more g always nz h =
      loop_stuck fuel c [] s more g always nz h
