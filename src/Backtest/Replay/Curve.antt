-- ===== src/Backtest/Replay/Curve.antt =====
-- A whole backtest: it ends, its books agree, and it records one equity point for each candle.
use nexa_trade.Prelude.{
  ℕ, ◌+◌, ◌≤◌, ◌<◌, ◌≡◌, refl, sym, ap, ◌∙◌, Bool, true, false, none, All, List, [], ◌∷◌, ◌++◌, map,
  arith, length, leb, if◌then◌else◌,
}
use mathlib.Core.Path.{subst}
use mathlib.Core.List.{map-append, append_assoc, append-nil}
use nexa_trade.Text.{upper}
use nexa_trade.Dict.{Dict, lookup}
use nexa_trade.Float.{Float, ◌⊘◌, nought}
use nexa_trade.Outcome.{Returns, Returns->>=, Returns-weaken}
use nexa_trade.Models.Market.{Ohlcv}
use nexa_trade.Backtest.Broker.{SimulatedBroker, EquityPoint, fresh_broker}
use nexa_trade.Backtest.Strategy.{Reaction}
use nexa_trade.Backtest.Pending.{Session, Setup, react, process_pending_orders}
use nexa_trade.Backtest.Pending.Signals.{react-Queues}
use nexa_trade.Backtest.Pending.Invariant.{Agrees, Budget, IsGood, react-IsGood}
use nexa_trade.Backtest.Pending.Matching.{Settles, process_pending_orders_lem}
use nexa_trade.Backtest.Valuation.{record_equity_snapshot}
use nexa_trade.Backtest.Replay.{
  Config, Row, candle_of, tick_of, send_ticks, simulate_ticks, call_on_candle, notify_bar, bar_step,
  replay, set_up, run, has_all, required_columns, see_candle,
}

module _ {F : Type 0} where
  -- The times of the equity curve.
  abbrev pub curve_times : SimulatedBroker F → List ℕ
  curve_times b = map (λ (p : EquityPoint F). p.datetime) b.equity_curve

  abbrev pub row_times : List (Row F) → List ℕ
  row_times rows = map (λ (r : Row F). r.ts) rows

module _ {F : Type 0} ⦃f : Float F⦄ where
  -- `candle.volume / 4`
  abbrev quarter : Ohlcv F → F
  quarter c = c.volume ⊘ f.decimal 4 0

  -- The volumes of which `int(volume / 4)` raises nothing.
  abbrev pub HasVolume : Row F → Type 0
  HasVolume row = f.int_error (row.volume ⊘ f.decimal 4 0) ≡ none

  tick_of-Returns :
      (cfg : Config F) (c : Ohlcv F) (price : F)
      → f.int_error (quarter c) ≡ none
      → Returns (λ t. Unit {0}) (tick_of cfg c price)
  tick_of-Returns cfg c price has = rw has tt

module _ {S F : Type 0} ⦃f : Float F⦄ (w : Setup S F) (pays : Budget w) (limit : ℕ)
    (capital : F) where
  abbrev Good : Session S F → Type 0
  Good s = IsGood pays.potential limit capital [] s

  -- The invariant holds again, and the curve and the buffer are as before.
  abbrev Keeps : Session S F → Session S F → Type 0
  Keeps s s' = Good s' × (s'.broker.equity_curve ≡ s.broker.equity_curve)

  react-Keeps :
      (r : Reaction S F) (s : Session S F)
      → length r.signals + pays.potential r.state ≤ pays.potential s.strategy
      → Good s
      → Keeps s (react w r s)
  react-Keeps r s p h = (
    react-IsGood pays.potential limit capital w r [] s p h,
    ap (λ (b : SimulatedBroker F). b.equity_curve) (react-Queues w r s).all_else,
  )

  Keeps-if : (b : Bool) (s x y : Session S F) → Keeps s x → Keeps s y → Keeps s (if b then x else y)
  Keeps-if true s x y h k = h
  Keeps-if false s x y h k = k

  send_ticks-Keeps :
      (cfg : Config F) (c : Ohlcv F) (prices : List F) (s : Session S F)
      → f.int_error (quarter c) ≡ none
      → Good s
      → Returns (Keeps s) (send_ticks w cfg c prices s)
  unfolding send_ticks
  send_ticks-Keeps cfg c [] s has h = (h, refl)
  send_ticks-Keeps cfg c (price ∷ prices) s has h =
      Returns->>= (λ t. Unit {0}) _ (tick_of cfg c price) _ (tick_of-Returns cfg c price has)
        (λ t done.
          let r = w.strategy.on_tick s.buffer t s.strategy in
          let (h1, e1) = react-Keeps r s (pays.tick_pays s.buffer t s.strategy) h in
          Returns-weaken (Keeps (react w r s)) _ (send_ticks w cfg c prices (react w r s))
            (send_ticks-Keeps cfg c prices (react w r s) has h1) (λ s2 k. (k.0, k.1 ∙ e1)))

  call_on_candle-Keeps : (c : Ohlcv F) (s : Session S F) → Good s → Keeps s (call_on_candle w c s)
  unfolding call_on_candle
  call_on_candle-Keeps c s h =
      let r = w.strategy.on_candle s.buffer c s.strategy in
      let s1 = react w r s in
      let (h1, e1) = react-Keeps r s (pays.candle_pays s.buffer c s.strategy) h in
      let (h2, e2) =
        react-Keeps (w.strategy.on_error s1.buffer s1.strategy) s1
          (pays.error_pays s1.buffer s1.strategy) h1 in
      Keeps-if r.has_raised s _ _ (h2, e2 ∙ e1) (h1, e1)

  notify_bar-Keeps :
      (cfg : Config F) (i : ℕ) (c : Ohlcv F) (s : Session S F)
      → f.int_error (quarter c) ≡ none
      → Good s
      → Returns (Keeps s) (notify_bar w cfg i c s)
  unfolding notify_bar simulate_ticks see_candle
  notify_bar-Keeps cfg i c s has h =
      Returns->>= (Keeps s) _ (simulate_ticks w cfg c s) _
        (send_ticks-Keeps cfg c (c.open_ ∷ c.high ∷ c.low ∷ c.close ∷ []) s has h)
        (λ ticked k.
          let (h1, e1) = k in
          let seen = see_candle c ticked in
          let good : Good seen = record {
            agrees = h1.agrees;
            queue_positive = h1.queue_positive;
            still_positive = tt;
            within = h1.within;
            same_capital = h1.same_capital;
          } in
          let (h2, e2) = call_on_candle-Keeps c seen good in
          Keeps-if (leb cfg.warmup_bars i) s _ _ (h2, e2 ∙ e1) (good, e1))

  -- A snapshot of a broker whose initial capital is not zero adds one point, with its time.
  record_equity_snapshot_lem :
      (t : ℕ) (prices : Dict F) (s : Session S F)
      → f.eq capital nought ≡ false
      → Good s
      → Returns
          (λ b. Good (record s { broker = b }) × (curve_times b ≡ curve_times s.broker ++ t ∷ []))
          (record_equity_snapshot t prices s.broker)
  unfolding record_equity_snapshot
  record_equity_snapshot_lem t prices s nz h =
      rw (subst (λ c. f.eq c nought ≡ false) (sym h.same_capital) nz) (
        record {
          agrees = record { agrees = h.agrees.agrees; recorded = h.agrees.recorded };
          queue_positive = h.queue_positive;
          still_positive = tt;
          within = h.within;
          same_capital = h.same_capital;
        },
        map-append _ s.broker.equity_curve _,
      )

  bar_step_lem :
      (cfg : Config F) (i : ℕ) (row : Row F) (s : Session S F)
      → limit < cfg.fuel
      → f.eq capital nought ≡ false
      → HasVolume row
      → Good s
      → Returns
          (λ s'. Good s' × (curve_times s'.broker ≡ curve_times s.broker ++ row.ts ∷ []))
          (bar_step w cfg i row s)
  unfolding bar_step
  bar_step_lem cfg i row s enough nz has h =
      let c = candle_of cfg row in
      Returns->>= (Settles w pays limit capital [] s) _ (process_pending_orders w cfg.fuel c s) _
        (process_pending_orders_lem w pays limit capital cfg.fuel c s (omega (arith, h.within)) h)
        (λ s1 d.
          let prices = (upper cfg.symbol, c.close) ∷ [] in
          Returns->>= (Keeps s1) _ (notify_bar w cfg i c s1) _
            (notify_bar-Keeps cfg i c s1 has d.good)
            (λ noted k.
              Returns->>= _ _ (record_equity_snapshot c.datetime prices noted.broker) _
                (record_equity_snapshot_lem c.datetime prices noted nz k.0)
                (λ b done. (
                  done.0,
                  done.1
                      ∙ ap (λ es. map (λ (p : EquityPoint F). p.datetime) es ++ row.ts ∷ [])
                          (k.1 ∙ d.same_curve),
                ))))

  -- The loop over the rows, where no stop is requested.
  replay_lem :
      (cfg : Config F) (i : ℕ) (rows : List (Row F)) (s : Session S F)
      → limit < cfg.fuel
      → f.eq capital nought ≡ false
      → ((n : ℕ) → cfg.stops_after n ≡ false)
      → All HasVolume rows
      → Good s
      → Returns
          (λ s'. Good s' × (curve_times s'.broker ≡ curve_times s.broker ++ row_times rows))
          (replay w cfg i rows s)
  unfolding replay
  replay_lem cfg i [] s enough nz go has h = (h, sym (append-nil _))
  replay_lem cfg i (row ∷ rows) s enough nz go (first, has) h =
      Returns->>= _ _ (bar_step w cfg i row s) _ (bar_step_lem cfg i row s enough nz first h)
        (λ s' d. rw (go i) (
          Returns-weaken _ _ (replay w cfg (i + 1) rows s')
            (replay_lem cfg (i + 1) rows s' enough nz go has d.0)
            (λ s2 d2. (
              d2.0,
              d2.1
                  ∙ ap (λ ts. ts ++ row_times rows) d.1
                  ∙ append_assoc (curve_times s.broker) (row.ts ∷ []) (row_times rows),
            ))))

module _ {S F : Type 0} ⦃f : Float F⦄ (w : Setup S F) (pays : Budget w) where
  -- Before the first candle the invariant holds, and the equity curve is empty.
  set_up_lem :
      (cfg : Config F) (initial : S)
      → Good w pays (pays.potential initial) cfg.initial_capital (set_up w cfg initial)
        × ((set_up w cfg initial).broker.equity_curve ≡ [])
  unfolding set_up fresh_broker lookup
  set_up_lem cfg initial =
      let limit = pays.potential initial in
      let capital = cfg.initial_capital in
      let fresh : Session S F = record {
        broker = fresh_broker cfg.initial_capital cfg.slippage_pct cfg.commission_pct;
        strategy = initial;
        buffer = [];
        ids_drawn = 0;
      } in
      let fresh_good : IsGood pays.potential limit capital [] fresh = record {
        agrees = record { agrees = λ j. refl; recorded = tt };
        queue_positive = tt;
        still_positive = tt;
        within = omega arith;
        same_capital = refl;
      } in
      react-Keeps w pays limit capital (w.strategy.on_start initial) fresh (pays.start_pays initial)
        fresh_good

  -- A backtest over a frame with at least one row and all columns, with an initial capital that is
  -- not zero, with volumes of which `int(volume / 4)` does not raise (neither NaN nor infinite), without a
  -- stop request, of a strategy that emits at most so many signals in all as the
  -- potential of its first state and with more fuel than that, ends without raising. In the end each
  -- position is the sum of the fills of its symbol, the filled orders are one for each fill, in order, with its
  -- id, symbol, side, quantity and rounded price, and the equity curve has one point for each candle, in order and at its time.
  pub run_lem :
      (cfg : Config F) (initial : S) (row : Row F) (rows : List (Row F))
      → pays.potential initial < cfg.fuel
      → f.eq cfg.initial_capital nought ≡ false
      → has_all required_columns cfg.columns ≡ true
      → ((n : ℕ) → cfg.stops_after n ≡ false)
      → All HasVolume (row ∷ rows)
      → Returns
          (λ out. Agrees out.0.broker × (curve_times out.0.broker ≡ row_times (row ∷ rows)))
          (run w cfg initial (row ∷ rows))
  unfolding run
  run_lem cfg initial row rows enough nz cols go has =
      let limit = pays.potential initial in
      let capital = cfg.initial_capital in
      let (h0, e0) = set_up_lem cfg initial in
      rw cols (
        Returns->>= _ _ (replay w cfg 0 (row ∷ rows) (set_up w cfg initial)) _
          (replay_lem w pays limit capital cfg 0 (row ∷ rows) (set_up w cfg initial) enough nz go
            has h0)
          (λ s d.
            let (h2, e2) =
              react-Keeps w pays limit capital (w.strategy.on_stop s.buffer s.strategy) s
                (pays.stop_pays s.buffer s.strategy) d.0 in
            (
              h2.agrees,
              ap (λ es. map (λ (p : EquityPoint F). p.datetime) es) e2
                  ∙ d.1
                  ∙ ap (λ es. map (λ (p : EquityPoint F). p.datetime) es ++ row_times (row ∷ rows))
                      e0,
            )))
