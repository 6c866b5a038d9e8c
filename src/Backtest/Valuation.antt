-- ===== src/Backtest/Valuation.antt =====
-- backtesting/backtester.py, portfolio valuation: `get_portfolio_value`, `get_unrealized_pnl`,
-- `get_realized_pnl` and `record_equity_snapshot`.
use nexa_trade.Prelude.{ℕ, [], ◌∷◌, ◌++◌, if◌then◌else◌, get_or}
use nexa_trade.Prelude.Int.{pos, eqb_ℤ}
use nexa_trade.Dict.{Dict, lookup}
use nexa_trade.Float.{Float, ◌⊕◌, ◌⊖◌, ◌⊗◌, ◌⊘◌, nought, hundred, min_f}
use nexa_trade.Outcome.{Outcome, ok, raised, zero_division}
use nexa_trade.Backtest.Broker.{SimulatedBroker, SimPosition, EquityPoint}

module _ {F : Type 0} ⦃f : Float F⦄ where
  -- `sum(...)` from the left, over the positions that are not flat.
  unfoldable pub position_value : Dict F → F → Dict (SimPosition F) → F
  position_value prices acc [] = acc
  position_value prices acc ((sym, p) ∷ book) =
      position_value prices
        (if eqb_ℤ p.quantity (pos 0)
          then acc
          else acc ⊕ f.of_ℤ p.quantity ⊗ get_or (lookup sym prices) p.average_price)
        book

  unfoldable pub get_portfolio_value : Dict F → SimulatedBroker F → F
  get_portfolio_value prices b = b.cash ⊕ position_value prices nought b.positions

  unfoldable pub unrealized_value : Dict F → F → Dict (SimPosition F) → F
  unrealized_value prices acc [] = acc
  unrealized_value prices acc ((sym, p) ∷ book) =
      unrealized_value prices
        (if eqb_ℤ p.quantity (pos 0)
          then acc
          else acc
            ⊕ (get_or (lookup sym prices) p.average_price ⊖ p.average_price) ⊗ f.of_ℤ p.quantity)
        book

  unfoldable pub get_unrealized_pnl : Dict F → SimulatedBroker F → F
  get_unrealized_pnl prices b = unrealized_value prices nought b.positions

  unfoldable pub realized_value : F → Dict (SimPosition F) → F
  realized_value acc [] = acc
  realized_value acc ((_, p) ∷ book) = realized_value (acc ⊕ p.realized_pnl) book

  unfoldable pub get_realized_pnl : SimulatedBroker F → F
  get_realized_pnl b = realized_value nought b.positions

  -- An initial capital of zero is a division by zero.
  unfoldable pub record_equity_snapshot :
      ℕ → Dict F → SimulatedBroker F → Outcome (SimulatedBroker F)
  record_equity_snapshot timestamp prices b =
      let value = get_portfolio_value prices b in
      if f.eq b.initial_capital nought
      then raised zero_division
      else let drawdown =
          min_f nought ((value ⊖ b.initial_capital) ⊘ b.initial_capital ⊗ hundred) in
        let point : EquityPoint F = record {
          datetime = timestamp;
          portfolio_value = f.round 2 value;
          cash = f.round 2 b.cash;
          realized_pnl = f.round 2 (get_realized_pnl b);
          unrealized_pnl = f.round 2 (get_unrealized_pnl prices b);
          drawdown_pct = f.round 4 drawdown;
        } in
        ok (record b { equity_curve = b.equity_curve ++ point ∷ [] })
