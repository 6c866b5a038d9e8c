-- ===== src/Tests/Crossover.antt =====
-- The sample strategy on concrete readings.
use nexa_trade.Prelude.{◌≡◌, refl, true, false, some, List, [], ◌∷◌, All}
use nexa_trade.Prelude.Int.{pos, ◌*ℤ◌, ◌-ℤ◌}
use nexa_trade.Text.{codes}
use nexa_trade.Float.{◌≼◌}
use nexa_trade.Float.Fixed.{Fixed, fixed_float, Fixed-IsOrdered}
use nexa_trade.Crossover.{PositionSide, Crossover, Settings, Readings}
use nexa_trade.Crossover.Stop.{decide_all, long_stop, decide_all-long}

abbrev settings : Settings Fixed
settings = record {
  slow_period = 21;
  atr_period = 14;
  atr_mult = pos 20000;
  volume_filter = pos 15000;
  quantity = pos 50;
}

abbrev held : Crossover Fixed
held = record {
  position_side = PositionSide.long;
  entry_price = pos 1000000;
  stop_loss_price = pos 980000;
  position_qty = pos 50;
  tick_count = 0;
}

abbrev reading : Fixed → Readings Fixed
reading close = record {
  close = close;
  atr = pos 5000;
  vol_ratio = some (pos 20000);
  is_golden = true;
  is_death = false;
}

abbrev readings : List (Readings Fixed)
readings = reading (pos 1010000) ∷ reading (pos 1050000) ∷ reading (pos 1000000) ∷ []

decide_all-long_example :
    let (signals, s') =
      decide_all (codes "S") (codes "ema") (codes "INFY") settings readings held in
    (signals ≡ [])
    × (s'.position_side ≡ PositionSide.long)
    × (pos 980000 ≼ s'.stop_loss_price)
    × All (λ (i : Readings Fixed). long_stop settings i ≼ s'.stop_loss_price) readings
unfolding fixed_float ◌*ℤ◌ ◌-ℤ◌
decide_all-long_example =
    decide_all-long Fixed-IsOrdered (codes "S") (codes "ema") (codes "INFY") settings readings held
      refl (refl, (refl, (refl, tt))) refl (refl, (refl, (refl, tt)))
