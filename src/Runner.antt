-- ===== src/Runner.antt =====
-- backtesting/backtest_runner.py, class BacktestRunner: single runs with their database records, the
-- grid search, the walk-forward windows and the best result. The database, the data service, the
-- strategy class and the back tester are parameters; a back test depends on its parameters and its
-- bars only, so the concurrency of a sweep is left out. A day is a number.
pub mod Walk
pub mod Records
pub mod Grid
pub mod Ranking
pub mod Windows
use nexa_trade.Prelude.{
  ℕ, Bool, true, false, Option, none, some, List, [], ◌∷◌, ◌++◌, map, get_or, if◌then◌else◌,
}
use nexa_trade.Prelude.Int.{ℤ}
use nexa_trade.Text.{Text}
use nexa_trade.Dict.{Dict, lookup, insert}
use nexa_trade.Float.{Float}
use nexa_trade.Outcome.{Error, Outcome, ok, raised, value_error, ◌>>=◌}

-- The status of a run's record.
pub data RunStatus : Type 0 where
  pending running failed complete : RunStatus

-- What the runner reads of a result.
pub record BacktestResult (V F : Type 0) : Type 0 where
  pub parameters : Dict V
  pub metrics : Dict F

-- `results` is `_results`, and `writes` are the calls that write a record, in their order.
pub record BacktestRunner (V F : Type 0) : Type 0 where
  pub results : List (BacktestResult V F)
  pub writes : List RunStatus

-- What stands outside, for one strategy class, symbol, exchange, interval and broker. `set_up` is
-- `Backtester(...)`, and `backtest` its `run`.
pub record Bench (B V F D I : Type 0) : Type 0 where
  pub insert_backtest_run : B → Outcome (Unit {0}) × B
  pub update_backtest_run : RunStatus → B → Outcome (Unit {0}) × B
  pub get_ohlcv : ℕ → ℕ → B → Outcome (List D) × B
  pub default_parameters : Dict V
  pub new_strategy : Outcome (Dict V)
  pub set_up : Dict V → List D → Outcome I
  pub backtest : I → Outcome (BacktestResult V F)
  -- `float("-inf")`
  pub minus_infinity : F
  -- `day + relativedelta(months=n)`
  pub add_months : ℤ → ℕ → ℕ
  -- `np.mean`
  pub mean : List F → F

-- `d.update(changes)`
abbrev pub update_all : {V : Type 0} → Dict V → Dict V → Dict V
update_all d [] = d
update_all d ((k, v) ∷ changes) = update_all (insert k v d) changes

-- `if df.empty: raise ValueError`
abbrev pub not_empty : {D : Type 0} → Outcome (List D) → Outcome (List D)
not_empty (raised e) = raised e
not_empty (ok []) = raised value_error
not_empty (ok (x ∷ xs)) = ok (x ∷ xs)

-- `itertools.product(*values)`: the last list varies fastest.
abbrev pub choices : {V : Type 0} → List V → List (List V) → List (List V)
choices [] rest = []
choices (v ∷ vs) rest = map (◌∷◌ v) rest ++ choices vs rest

abbrev pub product : {V : Type 0} → List (List V) → List (List V)
product [] = [] ∷ []
product (vs ∷ values) = choices vs (product values)

-- `zip(keys, combo)`
abbrev pub zip : {V : Type 0} → List Text → List V → Dict V
zip (k ∷ ks) (v ∷ vs) = (k, v) ∷ zip ks vs
zip ks vs = []

-- `[r for r in raw_results if r is not None]`
abbrev pub present : {A : Type 0} → List (Option A) → List A
present [] = []
present (none ∷ xs) = present xs
present (some x ∷ xs) = x ∷ present xs

-- What a try block that returns None on an exception gives.
abbrev pub returned : {A : Type 0} → Outcome A → Option A
returned (ok a) = some a
returned (raised e) = none

module _ {B V F D I : Type 0} ⦃f : Float F⦄ (w : Bench B V F D I) where
  abbrev pub wrote : RunStatus → BacktestRunner V F → BacktestRunner V F
  wrote status s = record s { writes = s.writes ++ status ∷ [] }

  -- The first block of `run`: what it raises is only logged.
  abbrev pub register_by : BacktestRunner V F → Outcome (Unit {0}) × B → BacktestRunner V F × B
  register_by s (raised e, b) = (wrote pending s, b)
  register_by s (ok _, b) = (wrote running (wrote pending s), (w.update_backtest_run running b).1)

  unfoldable pub register : BacktestRunner V F × B → BacktestRunner V F × B
  register (s, b) = register_by s (w.insert_backtest_run b)

  -- `update_backtest_run(status="FAILED")` and `raise`: what the first raises is raised instead.
  abbrev pub fail_by : {A : Type 0} → Error → Outcome (Unit {0}) → Outcome A
  fail_by e (raised e') = raised e'
  fail_by e (ok _) = raised e

  unfoldable pub fail :
      {A : Type 0} → Error → BacktestRunner V F × B → Outcome A × (BacktestRunner V F × B)
  fail e (s, b) =
      let (answer, b') = w.update_backtest_run failed b in (fail_by e answer, (wrote failed s, b'))

  -- The blocks 4 and 5 of `run`
  abbrev pub execute_by :
      BacktestRunner V F × B
      → Outcome (BacktestResult V F)
      → Outcome (BacktestResult V F) × (BacktestRunner V F × B)
  execute_by x (raised e) = fail e x
  execute_by (s, b) (ok result) = (
    ok result,
    (
      record s { results = s.results ++ result ∷ []; writes = s.writes ++ complete ∷ [] },
      (w.update_backtest_run complete b).1,
    ),
  )

  -- The strategy and the back tester, which stand outside the `try` blocks
  unfoldable pub prepare : Dict V → List D → Outcome I
  prepare parameters bars = w.new_strategy >>= λ own. w.set_up (update_all own parameters) bars

  abbrev pub prepared_by :
      BacktestRunner V F × B → Outcome I → Outcome (BacktestResult V F) × (BacktestRunner V F × B)
  prepared_by x (raised e) = (raised e, x)
  prepared_by x (ok tester) = execute_by x (w.backtest tester)

  abbrev pub fetched_by :
      Dict V
      → BacktestRunner V F × B
      → Outcome (List D)
      → Outcome (BacktestResult V F) × (BacktestRunner V F × B)
  fetched_by parameters x (raised e) = fail e x
  fetched_by parameters x (ok bars) = prepared_by x (prepare parameters bars)

  unfoldable pub run :
      ℕ
      → ℕ
      → Dict V
      → BacktestRunner V F × B
      → Outcome (BacktestResult V F) × (BacktestRunner V F × B)
  run from_date to_date parameters x =
      let (s, b) = register x in
      let (answer, b') = w.get_ohlcv from_date to_date b in
      fetched_by parameters (s, b') (not_empty answer)

  -- `_run_single`
  unfoldable pub run_single : List Text → List D → List V → Option (BacktestResult V F)
  run_single keys bars combo =
      returned
        (w.new_strategy >>= λ own. w.set_up (update_all own (zip keys combo)) bars >>= w.backtest)

  -- `r.metrics.get(rank_by, float("-inf"))`
  abbrev pub rank_of : Text → BacktestResult V F → F
  rank_of rank_by result = get_or (lookup rank_by result.metrics) w.minus_infinity

  -- `results.sort(key=..., reverse=True)`, which keeps the order of equal results
  unfoldable pub insert_ranked :
      Text → BacktestResult V F → List (BacktestResult V F) → List (BacktestResult V F)
  insert_ranked rank_by x [] = x ∷ []
  insert_ranked rank_by x (y ∷ ys) =
      if f.lt (rank_of rank_by x) (rank_of rank_by y)
      then y ∷ insert_ranked rank_by x ys
      else x ∷ y ∷ ys

  unfoldable pub ranked : Text → List (BacktestResult V F) → List (BacktestResult V F)
  ranked rank_by [] = []
  ranked rank_by (x ∷ xs) = insert_ranked rank_by x (ranked rank_by xs)

  unfoldable pub sweep_results : Text → Dict (List V) → List D → List (BacktestResult V F)
  sweep_results rank_by param_grid bars = ranked rank_by (
      present
        (map (run_single (map (λ e. e.0) param_grid) bars) (product (map (λ e. e.1) param_grid))))

  abbrev pub swept_by :
      Text → Dict (List V) → Outcome (List D) → Outcome (List (BacktestResult V F))
  swept_by rank_by param_grid (raised e) = raised e
  swept_by rank_by param_grid (ok bars) = ok (sweep_results rank_by param_grid bars)

  unfoldable pub parameter_sweep :
      ℕ → ℕ → Dict (List V) → Text → B → Outcome (List (BacktestResult V F)) × B
  parameter_sweep from_date to_date param_grid rank_by b =
      let (answer, b') = w.get_ohlcv from_date to_date b in
      (swept_by rank_by param_grid (not_empty answer), b')

  -- `max(target, key=...)`: the first of the greatest
  unfoldable pub best_of :
      Text → BacktestResult V F → List (BacktestResult V F) → BacktestResult V F
  best_of rank_by best [] = best
  best_of rank_by best (x ∷ xs) =
      best_of rank_by (if f.lt (rank_of rank_by best) (rank_of rank_by x) then x else best) xs

  abbrev pub target_of :
      Option (List (BacktestResult V F)) → BacktestRunner V F → List (BacktestResult V F)
  target_of (some (r ∷ rs)) s = r ∷ rs
  target_of _ s = s.results

  abbrev pub first_best : Text → List (BacktestResult V F) → Option (BacktestResult V F)
  first_best rank_by [] = none
  first_best rank_by (x ∷ xs) = some (best_of rank_by x xs)

  unfoldable pub get_best_result :
      Option (List (BacktestResult V F)) → Text → BacktestRunner V F → Option (BacktestResult V F)
  get_best_result results rank_by s = first_best rank_by (target_of results s)

  unfoldable pub clear_results : BacktestRunner V F → BacktestRunner V F
  clear_results s = record s { results = [] }
