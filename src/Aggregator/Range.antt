-- ===== src/Aggregator/Range.antt =====
-- The prices of a candle lie between its low and its high.
use nexa_trade.Prelude.{
  ℕ, Bool-cases, inl, inr, Option, none, some, List, [], ◌∷◌, All, All-append, ltb,
}
use nexa_trade.Float.{Float, IsOrdered, IsNumber, ◌≼◌}
use nexa_trade.Float.Order.{min_f-le, le-max_f}
use nexa_trade.Models.Market.{Ohlcv, TickData}
use nexa_trade.Aggregator.{
  Running, Aggregator, boundary_of, start_new_candle, update_candle, ingest, process_tick,
  process_ticks,
}

module _ {F : Type 0} ⦃f : Float F⦄ where
  -- The low is at most, and the high at least, the first price and the last.
  pub record InRange (open_ high low close : F) : Type 0 where
    pub low_open : low ≼ open_
    pub low_close : low ≼ close
    pub open_high : open_ ≼ high
    pub close_high : close ≼ high

  abbrev pub CurrentInRange : Option (Running F) → Type 0
  CurrentInRange none = Unit
  CurrentInRange (some r) = InRange r.open_ r.high r.low r.close

  abbrev pub CandleInRange : Ohlcv F → Type 0
  CandleInRange c = InRange c.open_ c.high c.low c.close

  module _ (laws : IsOrdered F) where
    open laws use {le_trans, number_of_le}

    start-InRange :
        (t : TickData F) (b : ℕ)
        → IsNumber t.last_price
        → CurrentInRange (some (start_new_candle t b))
    unfolding start_new_candle
    start-InRange t b n = record { low_open = n; low_close = n; open_high = n; close_high = n }

    update-InRange :
        (t : TickData F) (r : Running F)
        → IsNumber t.last_price
        → CurrentInRange (some r)
        → CurrentInRange (some (update_candle t r))
    unfolding update_candle
    update-InRange t r n h =
        let low = min_f-le laws r.low t.last_price (number_of_le _ _ h.low_open).0 n in
        let high = le-max_f laws r.high t.last_price (number_of_le _ _ h.open_high).1 n in
        record {
          low_open = le_trans _ _ _ low.0 h.low_open;
          low_close = low.1;
          open_high = le_trans _ _ _ h.open_high high.0;
          close_high = high.1;
        }

    ingest-InRange :
        (t : TickData F) (b : ℕ) (current : Option (Running F)) (a : Aggregator F)
        → IsNumber t.last_price
        → CurrentInRange current
        → All CandleInRange (ingest t b current a).0
          × CurrentInRange (ingest t b current a).1.current
    unfolding ingest
    ingest-InRange t b none a n h = (tt, start-InRange t b n)
    ingest-InRange t b (some r) a n h = elim (Bool-cases (ltb r.datetime b)) [
      | inl e ↦ rw e ((h, tt), start-InRange t b n)
      | inr e ↦ rw e (tt, update-InRange t r n h)
    ]

    -- If no price is NaN, and the candle that is in progress before the ticks, if there is one, has its
    -- first and last price between its low and its high, then so has every candle that the ticks close,
    -- and the one in progress after them.
    pub process_ticks-InRange :
        (ts : List (TickData F)) (a : Aggregator F)
        → All (λ (t : TickData F). IsNumber t.last_price) ts
        → CurrentInRange a.current
        → All CandleInRange (process_ticks ts a).0 × CurrentInRange (process_ticks ts a).1.current
    unfolding process_ticks process_tick
    process_ticks-InRange [] a n h = (tt, h)
    process_ticks-InRange (t ∷ ts) a (n, ns) h =
        let (closed, now) = ingest-InRange t (boundary_of a.interval_minutes t) a.current a n h in
        let (more, last) = process_ticks-InRange ts (process_tick t a).1 ns now in
        (All-append CandleInRange (process_tick t a).0 _ closed more, last)
