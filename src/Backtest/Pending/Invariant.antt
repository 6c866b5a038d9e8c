-- ===== src/Backtest/Pending/Invariant.antt =====
-- The invariant of a backtest's session, and its keeping by signals and by fills.
use nexa_trade.Prelude.{
  ℕ, suc, ◌+◌, ◌≤◌, ◌≡◌, refl, sym, ap, ◌∙◌, List, [], ◌∷◌, ◌++◌, if◌then◌else◌, arith, All,
  All-append, length, length-append,
}
use mathlib.Core.Path.{subst}
use nexa_trade.Prelude.Int.{pos, ◌+ℤ◌}
use nexa_trade.Text.{Text, text_eq}
use nexa_trade.Float.{Float}
use nexa_trade.Outcome.{Returns, Returns->>=}
use nexa_trade.Models.Order.{OrderResponse}
use nexa_trade.Models.Market.{Ohlcv, TickData, Fill}
use nexa_trade.Backtest.Broker.{SimulatedBroker, SimOrder, FilledOrder, update_position}
use nexa_trade.Backtest.Broker.Quantity.{signed, held, traded, traded-snoc, update_position_adds}
use nexa_trade.Backtest.Strategy.{Reaction}
use nexa_trade.Backtest.Pending.{Session, Setup, react, book_fill}
use nexa_trade.Backtest.Pending.Signals.{IsPositive, emptied, react-Queues}

module _ {F : Type 0} ⦃f : Float F⦄ where
  -- A fill is of the order that a filled order keeps, at its price, rounded.
  abbrev pub IsRecordOf : FilledOrder F → Fill F → Type 0
  IsRecordOf d x =
      (d.order.order_id ≡ x.order_id)
      × ((d.order.symbol ≡ x.symbol)
          × ((d.order.transaction_type ≡ x.transaction_type)
              × ((d.order.quantity ≡ x.quantity) × (f.round 4 d.fill_price ≡ x.price))))

  -- The filled orders and the fills, one for one.
  abbrev pub AreRecorded : List (FilledOrder F) → List (Fill F) → Type 0
  AreRecorded [] [] = Unit
  AreRecorded (d ∷ ds) (x ∷ xs) = IsRecordOf d x × AreRecorded ds xs
  AreRecorded _ _ = ⊥

  AreRecorded-snoc :
      (ds : List (FilledOrder F)) (xs : List (Fill F)) (d : FilledOrder F) (x : Fill F)
      → AreRecorded ds xs
      → IsRecordOf d x
      → AreRecorded (ds ++ d ∷ []) (xs ++ x ∷ [])
  AreRecorded-snoc [] [] d x h last = (last, tt)
  AreRecorded-snoc [] (y ∷ xs) d x h last = absurd h
  AreRecorded-snoc (c ∷ ds) [] d x h last = absurd h
  AreRecorded-snoc (c ∷ ds) (y ∷ xs) d x (first, h) last =
      (first, AreRecorded-snoc ds xs d x h last)

  -- For every symbol the position is what the fills of that symbol add up to, and the filled orders
  -- are those of the fills.
  pub record Agrees (b : SimulatedBroker F) : Type 0 where
    pub agrees : (j : Text) → held j b.positions ≡ traded j b.fills
    pub recorded : AreRecorded b.filled_orders b.fills

  -- What is the same in two brokers that differ in their queues.
  pub Agrees-emptied : (b c : SimulatedBroker F) → emptied b ≡ emptied c → Agrees c → Agrees b
  Agrees-emptied b c e h = record {
    agrees = λ j.
        subst (λ (x : SimulatedBroker F). held j x.positions ≡ traded j x.fills) (sym e)
          (h.agrees j);
    recorded =
        subst (λ (x : SimulatedBroker F). AreRecorded x.filled_orders x.fills) (sym e) h.recorded;
  }

  -- What booking a fill leaves as it was, and what it adds.
  pub record Books (o : SimOrder F) (b b' : SimulatedBroker F) : Type 0 where
    pub agrees : Agrees b'
    pub same_queue : b'.pending_orders ≡ b.pending_orders
    pub same_capital : b'.initial_capital ≡ b.initial_capital
    pub same_slippage : b'.slippage_pct ≡ b.slippage_pct
    pub same_curve : b'.equity_curve ≡ b.equity_curve
    pub filled : FilledOrder F
    pub of_order : filled.order ≡ o
    pub one_filled : b'.filled_orders ≡ b.filled_orders ++ filled ∷ []
    pub one_fill : length b'.fills ≡ suc (length b.fills)

  -- Booking an order of a positive quantity does not raise; it records one fill and one filled order
  -- for it, and the positions agree with the fills again.
  pub book_fill-Books :
      (o : SimOrder F) (price : F) (c : Ohlcv F) (b : SimulatedBroker F)
      → IsPositive o
      → Agrees b
      → Returns (Books o b) (book_fill o price c b)
  unfolding book_fill
  book_fill-Books o price c b p h =
      Returns->>= _ _ (update_position o.symbol o.transaction_type o.quantity price b.positions) _
        (update_position_adds o.symbol o.transaction_type o.quantity price b.positions p)
        (λ out moved. record {
          agrees = record {
            agrees = λ j.
                moved j
                ∙ ap
                    (λ z.
                      z
                      +ℤ (if text_eq o.symbol j
                          then signed o.transaction_type o.quantity
                          else pos 0))
                    (h.agrees j)
                ∙ sym (traded-snoc j b.fills _);
            recorded =
                AreRecorded-snoc b.filled_orders b.fills _ _ h.recorded
                  (refl, (refl, (refl, (refl, refl))));
          };
          same_queue = refl;
          same_capital = refl;
          same_slippage = refl;
          same_curve = refl;
          filled = _;
          of_order = refl;
          one_filled = refl;
          one_fill = omega (arith, length-append b.fills);
        })

module _ {S F : Type 0} where
  -- A strategy that emits finitely many signals: a potential that pays for each of them.
  pub record Budget (w : Setup S F) : Type 0 where
    pub potential : S → ℕ
    pub start_pays :
        (st : S)
        → length (w.strategy.on_start st).signals + potential (w.strategy.on_start st).state
          ≤ potential st
    pub tick_pays :
        (buffer : List (Ohlcv F)) (t : TickData F) (st : S)
        → length (w.strategy.on_tick buffer t st).signals
            + potential (w.strategy.on_tick buffer t st).state
          ≤ potential st
    pub candle_pays :
        (buffer : List (Ohlcv F)) (c : Ohlcv F) (st : S)
        → length (w.strategy.on_candle buffer c st).signals
            + potential (w.strategy.on_candle buffer c st).state
          ≤ potential st
    pub update_pays :
        (buffer : List (Ohlcv F)) (r : OrderResponse F) (st : S)
        → length (w.strategy.on_order_update buffer r st).signals
            + potential (w.strategy.on_order_update buffer r st).state
          ≤ potential st
    pub error_pays :
        (buffer : List (Ohlcv F)) (st : S)
        → length (w.strategy.on_error buffer st).signals
            + potential (w.strategy.on_error buffer st).state
          ≤ potential st
    pub stop_pays :
        (buffer : List (Ohlcv F)) (st : S)
        → length (w.strategy.on_stop buffer st).signals
            + potential (w.strategy.on_stop buffer st).state
          ≤ potential st

module _ {S F : Type 0} ⦃f : Float F⦄ (potential : S → ℕ) (limit : ℕ) (capital : F) where
  -- The invariant, for a session of which the orders `still` have been set aside: book and records
  -- agree, all queued quantities are positive, and the queued orders with those that the strategy may
  -- still emit stay within the limit.
  pub record IsGood (still : List (SimOrder F)) (s : Session S F) : Type 0 where
    pub agrees : Agrees s.broker
    pub queue_positive : All IsPositive s.broker.pending_orders
    pub still_positive : All IsPositive still
    pub within : length still + length s.broker.pending_orders + potential s.strategy ≤ limit
    pub same_capital : s.broker.initial_capital ≡ capital

  -- Signals that the strategy pays for keep the invariant.
  pub react-IsGood :
      (w : Setup S F) (r : Reaction S F) (still : List (SimOrder F)) (s : Session S F)
      → length r.signals + potential r.state ≤ potential s.strategy
      → IsGood still s
      → IsGood still (react w r s)
  react-IsGood w r still s pays h =
      let q = react-Queues w r s in
      let s' = react w r s in
      record {
        agrees = Agrees-emptied s'.broker s.broker q.all_else h.agrees;
        queue_positive = subst (All IsPositive) (sym q.queue) (
            All-append IsPositive s.broker.pending_orders q.added h.queue_positive
              q.added_positive);
        still_positive = h.still_positive;
        within = omega (
          arith,
          ap length q.queue,
          length-append s.broker.pending_orders q.added,
          ap potential q.same_strategy,
          q.added_few,
          pays,
          h.within,
        );
        same_capital =
            ap (λ (b : SimulatedBroker F). b.initial_capital) q.all_else ∙ h.same_capital;
      }
