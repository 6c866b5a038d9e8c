-- ===== src/Ring.antt =====
-- `collections.deque(maxlen=n)` and the reads of it, as the candle buffers of
-- services/feed_service.py (`CandleAggregator`) and backtesting/backtester.py use them.
pub mod Window
use nexa_trade.Prelude.{ℕ, zero, suc, Option, none, some, List, [], ◌∷◌, ◌++◌, last_n}

module _ {ℓ} {A : Type ℓ} where
  -- `buffer.append(x)`: the oldest element goes when the buffer is full.
  unfoldable pub push_bounded : ℕ → A → List A → List A
  push_bounded size x xs = last_n size (xs ++ x ∷ [])

  -- One append for each element, as `seed_from_history` makes them.
  unfoldable pub push_all : ℕ → List A → List A → List A
  push_all size xs [] = xs
  push_all size xs (y ∷ ys) = push_all size (push_bounded size y xs) ys

  -- `candles[-n:] if n else candles`
  unfoldable pub recent : Option ℕ → List A → List A
  recent none xs = xs
  recent (some zero) xs = xs
  recent (some (suc n)) xs = last_n (suc n) xs

  -- `buffer[-1] if buffer else None`
  unfoldable pub latest : List A → Option A
  latest [] = none
  latest (x ∷ []) = some x
  latest (x ∷ y ∷ xs) = latest (y ∷ xs)
