-- ===== src/Backtest/Pending/Matching.antt =====
-- `process_pending_orders` ends, loses no order and keeps the invariant.
use nexa_trade.Prelude.{
  ℕ, zero, suc, ◌+◌, ◌≤◌, ◌<◌, ◌≡◌, refl, sym, ap, ◌∙◌, Option-cases, inl, inr, Bool, if◌then◌else◌,
  map, List, [], ◌∷◌, ◌++◌, arith, All, All-append, length, length-append,
}
use mathlib.Core.Path.{subst}
use mathlib.Core.List.{map-append}
use nexa_trade.Float.{Float}
use nexa_trade.Outcome.{Outcome, Returns, Returns->>=, Returns-weaken}
use nexa_trade.Models.Market.{Ohlcv}
use nexa_trade.Backtest.Broker.{SimulatedBroker, SimOrder, FilledOrder}
use nexa_trade.Backtest.Prices.{fill_price}
use nexa_trade.Backtest.Pending.{
  Session, Setup, react, notify, book_fill, fill_response, execute_fill, turn, process_loop,
  process_pending_orders,
}
use nexa_trade.Backtest.Pending.Signals.{IsPositive, react-Queues}
use nexa_trade.Backtest.Pending.Invariant.{
  Agrees, Books, book_fill-Books, Budget, IsGood, react-IsGood,
}

-- How many items pass a test.
abbrev pub count : {A : Type 0} → (A → Bool) → List A → ℕ
count p [] = 0
count p (x ∷ xs) = (if p x then 1 else 0) + count p xs

count-append :
    {A : Type 0} (p : A → Bool) (xs ys : List A) → count p (xs ++ ys) ≡ count p xs + count p ys
count-append p [] ys = omega arith
count-append p (x ∷ xs) ys = omega (arith, count-append p xs ys)

module _ {F : Type 0} where
  -- How many of the filled orders pass a test.
  abbrev pub count_filled : (SimOrder F → Bool) → List (FilledOrder F) → ℕ
  count_filled p ds = count p (map (λ (d : FilledOrder F). d.order) ds)

module _ {F : Type 0} ⦃f : Float F⦄ where
  count_filled-Books :
      (p : SimOrder F → Bool) (o : SimOrder F) (b b' : SimulatedBroker F)
      → Books o b b'
      → count_filled p b'.filled_orders ≡ count_filled p b.filled_orders + count p (o ∷ [])
  count_filled-Books p o b b' done =
      ap (count_filled p) done.one_filled
      ∙ ap (count p)
          (map-append (λ (d : FilledOrder F). d.order) b.filled_orders (done.filled ∷ []))
      ∙ count-append p (map (λ (d : FilledOrder F). d.order) b.filled_orders)
          (done.filled.order ∷ [])
      ∙ ap (λ q. count_filled p b.filled_orders + count p (q ∷ [])) done.of_order

module _ {S F : Type 0} ⦃f : Float F⦄ (w : Setup S F) (pays : Budget w) (limit : ℕ)
    (capital : F) where
  abbrev pub Good : List (SimOrder F) → Session S F → Type 0
  Good still s = IsGood pays.potential limit capital still s

  -- How many more orders the loop can meet.
  abbrev work : Session S F → ℕ
  work s = length s.broker.pending_orders + pays.potential s.strategy

  -- How many of the orders in the queue, of those filled and of those set aside pass a test.
  abbrev pub orders : (SimOrder F → Bool) → List (SimOrder F) → Session S F → ℕ
  orders p still s =
      count p still + count p s.broker.pending_orders + count_filled p s.broker.filled_orders

  -- What the loop gives: the invariant, an untouched equity curve and buffer, and no lost order.
  pub record Settles (still : List (SimOrder F)) (s s' : Session S F) : Type 0 where
    pub good : Good [] s'
    pub same_curve : s'.broker.equity_curve ≡ s.broker.equity_curve
    pub same_buffer : s'.buffer ≡ s.buffer
    pub none_lost : (p : SimOrder F → Bool) → orders p still s ≤ orders p [] s'

  execute_fill_lem :
      (o : SimOrder F) (price : F) (c : Ohlcv F) (still : List (SimOrder F)) (s : Session S F)
      → IsPositive o
      → Good still s
      → Returns
          (λ s'.
            Good still s'
            × (s'.broker.equity_curve ≡ s.broker.equity_curve)
            × (s'.buffer ≡ s.buffer)
            × (work s' ≤ work s)
            × ((t : SimOrder F → Bool) → orders t still s + count t (o ∷ []) ≤ orders t still s'))
          (execute_fill w o price c s)
  unfolding execute_fill notify
  execute_fill_lem o price c still s p h =
      Returns->>= (Books o s.broker) _ (book_fill o price c s.broker) _
        (book_fill-Books o price c s.broker p h.agrees)
        (λ b done.
          let s2 : Session S F = record s { broker = b } in
          let r = w.strategy.on_order_update s.buffer (fill_response o price c) s.strategy in
          let q = react-Queues w r s2 in
          let s3 = react w r s2 in
          let paid = pays.update_pays s.buffer (fill_response o price c) s.strategy in
          (
            react-IsGood pays.potential limit capital w r still s2 paid (record {
              agrees = done.agrees;
              queue_positive = subst (All IsPositive) (sym done.same_queue) h.queue_positive;
              still_positive = h.still_positive;
              within = omega (arith, h.within, ap length done.same_queue);
              same_capital = done.same_capital ∙ h.same_capital;
            }),
            ap (λ (x : SimulatedBroker F). x.equity_curve) q.all_else ∙ done.same_curve,
            q.same_buffer,
            omega (
              arith,
              ap length q.queue,
              length-append b.pending_orders q.added,
              ap length done.same_queue,
              ap pays.potential q.same_strategy,
              q.added_few,
              paid,
            ),
            λ t. omega (
              arith,
              ap (count t) q.queue,
              count-append t b.pending_orders q.added,
              ap (count t) done.same_queue,
              ap (λ (x : SimulatedBroker F). count_filled t x.filled_orders) q.all_else,
              count_filled-Books t o s.broker b done,
            ),
          ))

  -- What is asked of the rest of the loop.
  abbrev Continues : ℕ → (List (SimOrder F) → Session S F → Outcome (Session S F)) → Type 0
  Continues n next =
      (still : List (SimOrder F)) (s : Session S F)
      → work s < n
      → Good still s
      → Returns (Settles still s) (next still s)

  turn_lem :
      (n : ℕ) (next : List (SimOrder F) → Session S F → Outcome (Session S F))
      → Continues n next
      → (c : Ohlcv F) (still queue : List (SimOrder F)) (s : Session S F)
      → s.broker.pending_orders ≡ queue
      → work s < suc n
      → Good still s
      → Returns (Settles still s) (turn w next c still queue s)
  unfolding turn
  turn_lem n next go c still [] s e enough h = record {
    good = record {
      agrees = record { agrees = h.agrees.agrees; recorded = h.agrees.recorded };
      queue_positive = h.still_positive;
      still_positive = tt;
      within = omega (arith, h.within);
      same_capital = h.same_capital;
    };
    same_curve = refl;
    same_buffer = refl;
    none_lost = λ t. omega (arith, ap (count t) e);
  }
  turn_lem n next go c still (o ∷ rest) s e enough h =
      let s' : Session S F = record s { broker = record (s.broker) { pending_orders = rest } } in
      let len = ap length e in
      let positive = subst (All IsPositive) e h.queue_positive in
      let agrees : Agrees s'.broker = record {
        agrees = h.agrees.agrees;
        recorded = h.agrees.recorded;
      } in
      elim (Option-cases (fill_price s.broker.slippage_pct o c)) [
        | inl kept ↦
            rw (kept, turn)
              (Returns-weaken (Settles (still ++ o ∷ []) s') _ (next (still ++ o ∷ []) s')
                (go (still ++ o ∷ []) s' (omega arith) (record {
                  agrees = agrees;
                  queue_positive = positive.1;
                  still_positive =
                      All-append IsPositive still (o ∷ []) h.still_positive (positive.0, tt);
                  within = omega (arith, h.within, length-append still (o ∷ []));
                  same_capital = h.same_capital;
                }))
                (λ s2 d. record {
                  good = d.good;
                  same_curve = d.same_curve;
                  same_buffer = d.same_buffer;
                  none_lost = λ t.
                      omega (arith, d.none_lost t, count-append t still (o ∷ []), ap (count t) e);
                }))
        | inr (price, hit) ↦
            rw (hit, turn)
              (Returns->>= _ _ (execute_fill w o price c s') _
                (execute_fill_lem o price c still s' positive.0 (record {
                  agrees = agrees;
                  queue_positive = positive.1;
                  still_positive = h.still_positive;
                  within = omega (arith, h.within);
                  same_capital = h.same_capital;
                }))
                (λ s2 x.
                  Returns-weaken (Settles still s2) _ (next still s2)
                    (go still s2 (omega (arith, x.3)) x.0)
                    (λ s3 d. record {
                      good = d.good;
                      same_curve = d.same_curve ∙ x.1;
                      same_buffer = d.same_buffer ∙ x.2;
                      none_lost = λ t. omega (arith, d.none_lost t, x.4 t, ap (count t) e);
                    })))
      ]

  process_loop_lem : (n : ℕ) (c : Ohlcv F) → Continues n (process_loop w n c)
  unfolding process_loop
  process_loop_lem zero c still s enough h = absurd (omega arith)
  process_loop_lem (suc n) c still s enough h =
      turn_lem n (process_loop w n c) (process_loop_lem n c) c still s.broker.pending_orders s refl
        enough h

  -- In a session whose positions agree with its fills, whose queued quantities are positive and whose
  -- orders, queued and still to come, are within the limit: for a strategy that can pay for the signals it emits, `process_pending_orders` ends within fuel
  -- for the queued orders and the signals still to come, although the callback may extend the list
  -- that the loop runs over, and it does not raise. Of the orders that any test picks, at least as many as
  -- were in the queue or filled before are in the queue or filled then, so that no order of these is
  -- lost; the filled orders are one for each fill, the positions agree with the fills, and the equity
  -- curve and the buffer are as before.
  pub process_pending_orders_lem :
      (fuel : ℕ) (c : Ohlcv F) (s : Session S F)
      → length s.broker.pending_orders + pays.potential s.strategy < fuel
      → Good [] s
      → Returns (Settles [] s) (process_pending_orders w fuel c s)
  unfolding process_pending_orders
  process_pending_orders_lem fuel c s enough h = process_loop_lem fuel c [] s enough h
