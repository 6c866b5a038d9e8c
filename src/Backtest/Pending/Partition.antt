-- ===== src/Backtest/Pending/Partition.antt =====
-- What `process_pending_orders` does to the queue when the strategy places no order from its callback.
use nexa_trade.Prelude.{
  ℕ, zero, suc, ◌<◌, ◌≡◌, refl, sym, ap, ◌∙◌, Bool, true, false, not, Option, none, some, inl, inr,
  Option-cases, List, [], ◌∷◌, ◌++◌, map, arith, All, length, keep_if,
}
use mathlib.Core.Path.{subst, ap₂}
use mathlib.Core.List.{append-nil, append_assoc, map-append}
use nexa_trade.Float.{Float}
use nexa_trade.Outcome.{Outcome, Returns, Returns->>=, Returns-weaken}
use nexa_trade.Models.Order.{OrderResponse}
use nexa_trade.Models.Market.{Ohlcv}
use nexa_trade.Backtest.Broker.{SimulatedBroker, SimOrder, FilledOrder}
use nexa_trade.Backtest.Prices.{fill_price}
use nexa_trade.Backtest.Pending.{
  Session, Setup, react, deliver, notify, book_fill, fill_response, execute_fill, turn,
  process_loop, process_pending_orders,
}
use nexa_trade.Backtest.Pending.Signals.{IsPositive}
use nexa_trade.Backtest.Pending.Invariant.{Agrees, Books, book_fill-Books}

module _ {F : Type 0} ⦃f : Float F⦄ where
  abbrev pub is_some : Option F → Bool
  is_some none = false
  is_some (some p) = true

  -- Whether the candle fills the order.
  abbrev pub fills : F → Ohlcv F → SimOrder F → Bool
  fills pct c o = is_some (fill_price pct o c)

  -- The orders that were filled, in order.
  abbrev pub orders_filled : SimulatedBroker F → List (SimOrder F)
  orders_filled b = map (λ (x : FilledOrder F). x.order) b.filled_orders

  -- The part of a queue that the candle leaves, and the part that it fills.
  abbrev pub waiting : F → Ohlcv F → List (SimOrder F) → List (SimOrder F)
  waiting pct c queue = keep_if (λ o. not (fills pct c o)) queue

  abbrev pub filling : F → Ohlcv F → List (SimOrder F) → List (SimOrder F)
  filling pct c queue = keep_if (fills pct c) queue

  split_kept :
      (pct : F) (c : Ohlcv F) (o : SimOrder F) (rest : List (SimOrder F))
      → fill_price pct o c ≡ none
      → (waiting pct c (o ∷ rest) ≡ o ∷ waiting pct c rest)
        × (filling pct c (o ∷ rest) ≡ filling pct c rest)
  split_kept pct c o rest e = (ground arith, ground arith)

  split_hit :
      (pct : F) (c : Ohlcv F) (o : SimOrder F) (rest : List (SimOrder F)) {p : F}
      → fill_price pct o c ≡ some p
      → (waiting pct c (o ∷ rest) ≡ waiting pct c rest)
        × (filling pct c (o ∷ rest) ≡ o ∷ filling pct c rest)
  split_hit pct c o rest e = (ground arith, ground arith)

module _ {S F : Type 0} ⦃f : Float F⦄ (w : Setup S F) (c : Ohlcv F) where
  -- The strategy emits no signal when it is told of a fill.
  abbrev pub IsQuiet : Type 0
  IsQuiet =
      (buffer : List (Ohlcv F)) (r : OrderResponse F) (st : S)
      → (w.strategy.on_order_update buffer r st).signals ≡ []

  -- A session whose orders can be booked.
  pub record IsReady (s : Session S F) : Type 0 where
    pub agrees : Agrees s.broker
    pub positive : All IsPositive s.broker.pending_orders

  -- The queue is split: the orders that the candle fills are filled, the others stay, both in order.
  abbrev pub Splits : List (SimOrder F) → List (SimOrder F) → Session S F → Session S F → Type 0
  Splits still queue s s' =
      (s'.broker.pending_orders ≡ still ++ waiting s.broker.slippage_pct c queue)
      × (orders_filled s'.broker ≡ orders_filled s.broker ++ filling s.broker.slippage_pct c queue)

  execute_fill_quiet :
      (o : SimOrder F) (price : F) (s : Session S F)
      → IsQuiet
      → IsPositive o
      → IsReady s
      → Returns
          (λ s'.
            IsReady s'
            × (s'.broker.pending_orders ≡ s.broker.pending_orders)
            × (s'.broker.slippage_pct ≡ s.broker.slippage_pct)
            × (orders_filled s'.broker ≡ orders_filled s.broker ++ o ∷ []))
          (execute_fill w o price c s)
  unfolding execute_fill notify react deliver
  execute_fill_quiet o price s quiet p h =
      Returns->>= (Books o s.broker) _ (book_fill o price c s.broker) _
        (book_fill-Books o price c s.broker p h.agrees)
        (λ b done.
          rw (quiet s.buffer (fill_response o price c) s.strategy, deliver)
            (
              record {
                agrees = done.agrees;
                positive = subst (All IsPositive) (sym done.same_queue) h.positive;
              },
              done.same_queue,
              done.same_slippage,
              ap (map (λ (x : FilledOrder F). x.order)) done.one_filled
                  ∙ map-append _ s.broker.filled_orders (done.filled ∷ [])
                  ∙ ap (λ x. orders_filled s.broker ++ x ∷ []) done.of_order,
            ))

  turn-Splits :
      (n : ℕ) (next : List (SimOrder F) → Session S F → Outcome (Session S F))
      → ((still : List (SimOrder F)) (s : Session S F)
          → length s.broker.pending_orders < n
          → IsReady s
          → Returns (Splits still s.broker.pending_orders s) (next still s))
      → (still queue : List (SimOrder F)) (s : Session S F) → IsQuiet
      → s.broker.pending_orders ≡ queue
      → length queue < suc n
      → IsReady s
      → Returns (Splits still queue s) (turn w next c still queue s)
  unfolding turn
  turn-Splits n next go still [] s quiet e enough h = (sym (append-nil still), sym (append-nil _))
  turn-Splits n next go still (o ∷ rest) s quiet e enough h =
      let s' : Session S F = record s { broker = record (s.broker) { pending_orders = rest } } in
      let positive = subst (All IsPositive) e h.positive in
      let ready : IsReady s' = record {
        agrees = record { agrees = h.agrees.agrees; recorded = h.agrees.recorded };
        positive = positive.1;
      } in
      elim (Option-cases (fill_price s.broker.slippage_pct o c)) [
        | inl kept ↦
            let (left, taken) = split_kept s.broker.slippage_pct c o rest kept in
            rw (kept, turn)
              (Returns-weaken (Splits (still ++ o ∷ []) rest s') _ (next (still ++ o ∷ []) s')
                (go (still ++ o ∷ []) s' (omega arith) ready)
                (λ s2 d. (
                  d.0
                      ∙ append_assoc still (o ∷ []) (waiting s.broker.slippage_pct c rest)
                      ∙ ap (λ q. still ++ q) (sym left),
                  d.1 ∙ ap (λ q. orders_filled s.broker ++ q) (sym taken),
                )))
        | inr (price, hit) ↦
            let (left, taken) = split_hit s.broker.slippage_pct c o rest hit in
            rw (hit, turn)
              (Returns->>= _ _ (execute_fill w o price c s') _
                (execute_fill_quiet o price s' quiet positive.0 ready)
                (λ s2 x.
                  Returns-weaken (Splits still s2.broker.pending_orders s2) _ (next still s2)
                    (go still s2 (omega (arith, ap length x.1)) x.0)
                    (λ s3 d. (
                      d.0 ∙ ap (λ q. still ++ q) (ap₂ (λ p q. waiting p c q) x.2 x.1 ∙ sym left),
                      d.1
                          ∙ ap₂ (λ done q. done ++ q) x.3 (ap₂ (λ p q. filling p c q) x.2 x.1)
                          ∙ append_assoc (orders_filled s.broker) (o ∷ [])
                              (filling s.broker.slippage_pct c rest)
                          ∙ ap (λ q. orders_filled s.broker ++ q) (sym taken),
                    ))))
      ]

  process_loop-Splits :
      (n : ℕ) (still : List (SimOrder F)) (s : Session S F)
      → IsQuiet
      → length s.broker.pending_orders < n
      → IsReady s
      → Returns (Splits still s.broker.pending_orders s) (process_loop w n c still s)
  unfolding process_loop
  process_loop-Splits zero still s quiet enough h = absurd (omega arith)
  process_loop-Splits (suc n) still s quiet enough h =
      turn-Splits n (process_loop w n c)
        (λ still' s' enough' h'. process_loop-Splits n still' s' quiet enough' h') still
        s.broker.pending_orders s quiet refl enough h

  -- If the strategy places no order when it is told of a fill, the positions agree with the fills and
  -- all queued quantities are positive, then with fuel for the queue
  -- `process_pending_orders` returns, and splits the queue: exactly the orders that the candle fills
  -- have gone to the filled orders, the others are still pending, and both keep their order.
  pub process_pending_orders_splits :
      (fuel : ℕ) (s : Session S F)
      → IsQuiet
      → length s.broker.pending_orders < fuel
      → IsReady s
      → Returns
          (λ s'.
            (s'.broker.pending_orders ≡ waiting s.broker.slippage_pct c s.broker.pending_orders)
            × (orders_filled s'.broker
                ≡ orders_filled s.broker
                  ++ filling s.broker.slippage_pct c s.broker.pending_orders))
          (process_pending_orders w fuel c s)
  unfolding process_pending_orders
  process_pending_orders_splits fuel s quiet enough h = process_loop-Splits fuel [] s quiet enough h
