-- ===== src/Aggregator/Race.antt =====
-- `process_tick` awaits the callbacks of a closed candle before it starts the next one. Its two halves,
-- and what becomes of two ticks that overlap.
use nexa_trade.Prelude.{
  ℕ, ◌<◌, ◌≡◌, refl, ap, ◌∙◌, Bool, true, false, Option, none, some, List, [], ◌∷◌, ltb, lt→ltb,
  if◌then◌else◌, Bool-cases, inl, inr,
}
use nexa_trade.Float.{Float}
use nexa_trade.Ring.{push_bounded}
use nexa_trade.Models.Market.{Ohlcv, TickData}
use nexa_trade.Aggregator.{
  Running, Aggregator, boundary_of, candle_of, close_candle, start_new_candle, update_candle,
  ingest, process_tick,
}

module _ {F : Type 0} ⦃f : Float F⦄ where
  -- Up to the callbacks: the candle that is closed, and whether a new one is still to be started.
  unfoldable pub begin_by :
      TickData F → ℕ → Option (Running F) → Aggregator F → List (Ohlcv F) × Bool × Aggregator F
  begin_by t b none a = ([], false, record a { current = some (start_new_candle t b) })
  begin_by t b (some r) a =
      if ltb r.datetime b
      then (candle_of a r ∷ [], true, close_candle r a)
      else ([], false, record a { current = some (update_candle t r) })

  unfoldable pub begin_tick : TickData F → Aggregator F → List (Ohlcv F) × Bool × Aggregator F
  begin_tick t a = begin_by t (boundary_of a.interval_minutes t) a.current a

  -- After the callbacks.
  unfoldable pub finish_tick : TickData F → Bool → Aggregator F → Aggregator F
  finish_tick t false a = a
  finish_tick t true a = record a {
    current = some (start_new_candle t (boundary_of a.interval_minutes t));
  }

  halves :
      (t : TickData F) (current : Option (Running F)) (a : Aggregator F)
      → (let (closed, more, a') = begin_by t (boundary_of a.interval_minutes t) current a in
          (closed, finish_tick t more a'))
        ≡ ingest t (boundary_of a.interval_minutes t) current a
  unfolding begin_by finish_tick ingest close_candle
  halves t none a = refl
  halves t (some r) a = elim (Bool-cases (ltb r.datetime (boundary_of a.interval_minutes t))) [
    | inl e ↦ rw e refl
    | inr e ↦ rw e refl
  ]

  -- Where nothing comes between the two halves, they are `process_tick`.
  pub process_tick-halves :
      (t : TickData F) (a : Aggregator F)
      → (let (closed, more, a') = begin_tick t a in (closed, finish_tick t more a'))
        ≡ process_tick t a
  unfolding begin_tick process_tick
  process_tick-halves t a = halves t a.current a

  begin_by-late :
      (t : TickData F) (b : ℕ) (a : Aggregator F) (r : Running F)
      → r.datetime < b
      → begin_by t b (some r) a ≡ (candle_of a r ∷ [], true, close_candle r a)
  unfolding begin_by
  begin_by-late t b a r h = rw (lt→ltb _ _ h) refl

  begin_tick-late :
      (t : TickData F) (a : Aggregator F) (r : Running F)
      → a.current ≡ some r
      → r.datetime < boundary_of a.interval_minutes t
      → begin_tick t a ≡ (candle_of a r ∷ [], true, close_candle r a)
  unfolding begin_tick
  begin_tick-late t a r h late =
      ap (λ c. begin_by t (boundary_of a.interval_minutes t) c a) h
      ∙ begin_by-late t (boundary_of a.interval_minutes t) a r late

  again_late :
      (u : TickData F) (a : Aggregator F) (r : Running F)
      → a.current ≡ some r
      → r.datetime < boundary_of a.interval_minutes u
      → begin_tick u (close_candle r a)
        ≡ (candle_of a r ∷ [], true, close_candle r (close_candle r a))
  unfolding close_candle
  again_late u a r h late = begin_tick-late u (close_candle r a) r h late

  -- Two ticks past the end of the candle in progress, of which the second arrives while the callbacks
  -- of the first are awaited: the same candle is closed twice and is twice in the buffer, and
  -- the first tick counts for no candle.
  pub overlapping_ticks :
      (t u : TickData F) (a : Aggregator F) (r : Running F)
      → a.current ≡ some r
      → r.datetime < boundary_of a.interval_minutes t
      → r.datetime < boundary_of a.interval_minutes u
      → let (closed, more, a1) = begin_tick t a in
        let (again, more', a2) = begin_tick u a1 in
        let last = finish_tick u more' (finish_tick t more a2) in
        (closed ≡ candle_of a r ∷ [])
        × (again ≡ candle_of a r ∷ [])
        × (last.buffer
            ≡ push_bounded a.buffer_size
                (candle_of a r)
                (push_bounded a.buffer_size (candle_of a r) a.buffer))
        × (last.current ≡ some (start_new_candle u (boundary_of a.interval_minutes u)))
  unfolding finish_tick close_candle
  overlapping_ticks t u a r h first second =
      rw (begin_tick-late t a r h first) (rw (again_late u a r h second) (refl, refl, refl, refl))
