-- ===== src/Crossover.antt =====
-- plugins/ema_crossover.py, class EMACrossoverStrategy: its position, its stop and its signals. What
-- the indicators say of the candles is a parameter; the ids of the signals are arguments. The limits
-- on the strength of a signal are kept by a volume filter that is not negative.
pub mod Stop
use nexa_trade.Prelude.{
  ℕ, ◌+◌, ◌*◌, Bool, true, false, not, ◌&&◌, Option, none, some, List, [], ◌∷◌, ◌++◌, length, ltb,
  get_or, if◌then◌else◌,
}
use nexa_trade.Prelude.Int.{ℤ}
use nexa_trade.Text.{Text, codes, text_eq}
use nexa_trade.Float.{Float, ◌⊕◌, ◌⊖◌, ◌⊗◌, ◌⊘◌, nought, truthy, min_f, max_f}
use nexa_trade.Models.Enums.{Exchange, Segment, SignalDirection, OrderStatus, given}
use nexa_trade.Models.Market.{Ohlcv, TickData}
use nexa_trade.Models.Order.{OrderResponse}
use nexa_trade.Models.Signal.{StrategySignal}
use nexa_trade.Ring.{recent}

pub data PositionSide : Type 0 where
  flat long short : PositionSide

pub record Crossover (F : Type 0) : Type 0 where
  pub position_side : PositionSide
  pub entry_price : F
  pub stop_loss_price : F
  pub position_qty : ℤ
  pub tick_count : ℕ

-- The parameters as `on_start` reads them.
pub record Settings (F : Type 0) : Type 0 where
  pub slow_period : ℕ
  pub atr_period : ℕ
  pub atr_mult : F
  pub volume_filter : F
  pub quantity : ℤ

-- The last values of the indicators.
pub record Readings (F : Type 0) : Type 0 where
  pub close : F
  pub atr : F
  pub vol_ratio : Option F
  pub is_golden : Bool
  pub is_death : Bool

abbrev pub is_long : PositionSide → Bool
is_long PositionSide.long = true
is_long _ = false

abbrev pub is_short : PositionSide → Bool
is_short PositionSide.short = true
is_short _ = false

module _ {F : Type 0} ⦃f : Float F⦄ where
  unfoldable pub reset_position : Crossover F → Crossover F
  reset_position s = record s {
    position_side = PositionSide.flat;
    entry_price = nought;
    stop_loss_price = nought;
  }

  -- The signal that leaves the position.
  unfoldable pub exit_signal : Text → Text → Text → ℤ → StrategySignal F
  exit_signal signal_id name symbol quantity = record {
    signal_id = signal_id;
    strategy_name = name;
    symbol = symbol;
    exchange = Exchange.nse;
    segment = given Segment.eq;
    direction = SignalDirection.exit;
    strength = f.decimal 10 1;
    suggested_price = none;
    suggested_quantity = some quantity;
    stop_loss_price = none;
    target_price = none;
  }

  -- The stop of the position is hit.
  unfoldable pub is_stopped : F → Crossover F → Bool
  is_stopped price s = f.lt nought s.stop_loss_price && elim s.position_side [
    | flat ↦ false
    | long ↦ f.le price s.stop_loss_price
    | short ↦ f.le s.stop_loss_price price
  ]

  unfoldable pub on_tick :
      Text → Text → TickData F → Crossover F → List (StrategySignal F) × Crossover F
  on_tick signal_id name t s =
      let s' : Crossover F = record s { tick_count = s.tick_count + 1 } in
      if is_stopped t.last_price s
      then (exit_signal signal_id name t.symbol s.position_qty ∷ [], reset_position s')
      else ([], s')

  -- The stop follows the price on the side of the position.
  unfoldable pub trail : Settings F → Readings F → Crossover F → Crossover F
  trail p i s = record s {
    stop_loss_price = elim s.position_side [
      | flat ↦ s.stop_loss_price
      | long ↦ max_f s.stop_loss_price (i.close ⊖ (p.atr_mult ⊗ i.atr))
      | short ↦ min_f s.stop_loss_price (i.close ⊕ (p.atr_mult ⊗ i.atr))
    ];
  }

  -- The signal of a cross, with its stop and its target.
  unfoldable pub entry_signal :
      Text → Text → Text → Settings F → SignalDirection → F → F → F → StrategySignal F
  entry_signal signal_id name symbol p direction vol stop target = record {
    signal_id = signal_id;
    strategy_name = name;
    symbol = symbol;
    exchange = Exchange.nse;
    segment = given Segment.eq;
    direction = direction;
    strength = min_f (vol ⊘ f.decimal 30 1) (f.decimal 10 1);
    suggested_price = none;
    suggested_quantity = some p.quantity;
    stop_loss_price = some (f.round 2 stop);
    target_price = some (f.round 2 target);
  }

  abbrev pub taken : Settings F → PositionSide → F → Crossover F → Crossover F
  taken p side stop s = record s {
    position_side = side;
    stop_loss_price = f.round 2 stop;
    position_qty = p.quantity;
  }

  -- The crosses, with a volume that is confirmed
  unfoldable pub cross :
      Text
      → Text
      → Text
      → Settings F
      → Readings F
      → F
      → Crossover F
      → List (StrategySignal F) × Crossover F
  cross signal_id name symbol p i vol s =
      let d = p.atr_mult ⊗ i.atr in
      let e = f.of_ℤ (ℤ.pos 2) ⊗ p.atr_mult ⊗ i.atr in
      let golden =
        entry_signal signal_id name symbol p SignalDirection.buy vol (i.close ⊖ d) (i.close ⊕ e) in
      let death =
        entry_signal signal_id name symbol p SignalDirection.sell vol (i.close ⊕ d) (i.close ⊖ e) in
      if i.is_golden && not (is_long s.position_side)
      then (golden ∷ [], taken p PositionSide.long (i.close ⊖ d) s)
      else (if i.is_death && not (is_short s.position_side)
          then (death ∷ [], taken p PositionSide.short (i.close ⊕ d) s)
          else ([], s))

  unfoldable pub cross_if :
      Text
      → Text
      → Text
      → Settings F
      → Readings F
      → Option F
      → Crossover F
      → List (StrategySignal F) × Crossover F
  cross_if signal_id name symbol p i none s = ([], s)
  cross_if signal_id name symbol p i (some vol) s =
      if f.le p.volume_filter vol then cross signal_id name symbol p i vol s else ([], s)

  unfoldable pub decide :
      Text
      → Text
      → Text
      → Settings F
      → Readings F
      → Crossover F
      → List (StrategySignal F) × Crossover F
  decide signal_id name symbol p i s = cross_if signal_id name symbol p i i.vol_ratio (trail p i s)

  -- `on_candle` with the candles that the feed has; too few say nothing.
  unfoldable pub on_candle :
      (List (Ohlcv F) → Readings F)
      → Text
      → Text
      → Settings F
      → List (Ohlcv F)
      → Ohlcv F
      → Crossover F
      → List (StrategySignal F) × Crossover F
  on_candle indicators signal_id name p buffer c s =
      let min_bars = p.slow_period + p.atr_period + 5 in
      let candles = recent (some min_bars) buffer in
      if ltb (length candles) min_bars
      then ([], s)
      else decide signal_id name c.symbol p (indicators candles) s

  -- `on_order_update`
  abbrev pub price_or : Option F → F → F
  price_or none entry = entry
  price_or (some p) entry = if truthy p then p else entry

  unfoldable pub on_order_update : OrderResponse F → Crossover F → Crossover F
  on_order_update u s =
      let p = price_or u.average_price s.entry_price in
      elim u.status [
        | OrderStatus.complete ↦ record s {
          entry_price = p;
          stop_loss_price = elim s.position_side [
            | flat ↦ s.stop_loss_price
            | long ↦ p ⊗ f.decimal 98 2
            | short ↦ p ⊗ f.decimal 102 2
          ];
        }
        | OrderStatus.rejected ↦ reset_position s
        | _ ↦ s
      ]
