-- ===== src/Runner/Walk.antt =====
-- `walk_forward`: the windows, one after the other, on fuel.
use nexa_trade.Prelude.{
  ℕ, zero, suc, Option, none, some, List, [], ◌∷◌, ◌++◌, map, length, get_or, not, ltb,
  if◌then◌else◌,
}
use nexa_trade.Prelude.Int.{ℤ}
use nexa_trade.Text.{Text, codes}
use nexa_trade.Dict.{Dict, lookup}
use nexa_trade.Float.{Float, nought, ◌⊕◌}
use nexa_trade.Outcome.{Outcome, ok, raised, out_of_fuel}
use nexa_trade.Runner.{BacktestResult, BacktestRunner, Bench, run, parameter_sweep}

-- A row of `windows`; a day stands for its text.
pub record Window (V F : Type 0) : Type 0 where
  pub window : ℕ
  pub train_start : ℕ
  pub train_end : ℕ
  pub test_start : ℕ
  pub test_end : ℕ
  pub best_params : Dict V
  pub test_metrics : Dict F

-- The variables of the loop.
pub record Walk (V F : Type 0) : Type 0 where
  pub windows : List (Window V F)
  pub oos_results : List (BacktestResult V F)
  pub best_params_list : List (Dict V)
  pub window_idx : ℕ

unfoldable pub new_walk : {V F : Type 0} → Walk V F
new_walk = record { windows = []; oos_results = []; best_params_list = []; window_idx = 0 }

-- `combined_metrics`, when a window has succeeded
pub record Combined (F : Type 0) : Type 0 where
  pub windows_run : ℕ
  pub successful_windows : ℕ
  pub avg_return_pct : F
  pub avg_sharpe : F
  pub avg_max_drawdown_pct : F
  pub avg_win_rate_pct : F
  pub total_oos_trades : F

module _ {B V F D I : Type 0} ⦃f : Float F⦄ (w : Bench B V F D I) where
  abbrev pub best_by : Outcome (List (BacktestResult V F)) → Dict V
  best_by (ok (best ∷ rest)) = best.parameters
  best_by answer = w.default_parameters

  -- The training of a window: a sweep that raises, or has no result, leaves the defaults.
  unfoldable pub optimise : Dict (List V) → ℕ → ℕ → B → Dict V × B
  optimise [] train_start train_end b = (w.default_parameters, b)
  optimise (values ∷ grid) train_start train_end b =
      let (answer, b') =
        parameter_sweep w train_start train_end (values ∷ grid) (codes "sharpe_ratio") b in
      (best_by answer, b')

  -- The test of a window: an exception is only logged.
  abbrev pub test_by : ℕ → ℕ → ℕ → Dict V → Walk V F → Outcome (BacktestResult V F) → Walk V F
  test_by train_start train_end test_end best walk (raised e) = walk
  test_by train_start train_end test_end best walk (ok result) = record walk {
    windows =
        walk.windows
        ++ record {
          window = walk.window_idx;
          train_start = train_start;
          train_end = train_end;
          test_start = train_end;
          test_end = test_end;
          best_params = best;
          test_metrics = result.metrics;
        }
          ∷ [];
    oos_results = walk.oos_results ++ result ∷ [];
    best_params_list = walk.best_params_list ++ best ∷ [];
  }

  abbrev pub numbered : Walk V F → Walk V F
  numbered walk = record walk { window_idx = suc walk.window_idx }

  unfoldable pub run_window :
      Dict (List V)
      → ℕ
      → ℕ
      → ℕ
      → Walk V F × (BacktestRunner V F × B)
      → Walk V F × (BacktestRunner V F × B)
  run_window grid train_start train_end test_end (walk, (s, b)) =
      let (best, b') = optimise grid train_start train_end b in
      let (answer, x) = run w train_end test_end best (s, b') in
      (test_by train_start train_end test_end best (numbered walk) answer, x)

  -- The loop. `train_months` and `test_months` are ints.
  unfoldable pub walk_loop :
      ℕ
      → ℤ
      → ℤ
      → Dict (List V)
      → ℕ
      → ℕ
      → Walk V F × (BacktestRunner V F × B)
      → Outcome (Walk V F) × (BacktestRunner V F × B)
  walk_loop zero train_months test_months grid end_day current (walk, x) = (raised out_of_fuel, x)
  walk_loop (suc fuel) train_months test_months grid end_day current (walk, x) =
      let train_end = w.add_months train_months current in
      let test_end = w.add_months test_months train_end in
      let rest =
        walk_loop fuel train_months test_months grid end_day train_end
          (run_window grid current train_end test_end (walk, x)) in
      if not (ltb current end_day)
      then (ok walk, x)
      else (if ltb end_day test_end then (ok walk, x) else rest)

  -- `walk_forward` up to its loop's end
  unfoldable pub walk_forward :
      ℕ
      → ℕ
      → ℕ
      → ℤ
      → ℤ
      → Dict (List V)
      → BacktestRunner V F × B
      → Outcome (Walk V F) × (BacktestRunner V F × B)
  walk_forward fuel from_day to_day train_months test_months grid x =
      walk_loop fuel train_months test_months grid to_day from_day (new_walk, x)

  -- `np.mean([r.metrics.get(name, 0) for r in oos_results])`, rounded
  abbrev pub metric_of : Text → BacktestResult V F → F
  metric_of name result = get_or (lookup name result.metrics) nought

  abbrev pub mean_of : Text → List (BacktestResult V F) → F
  mean_of name results = f.round 4 (w.mean (map (metric_of name) results))

  abbrev pub sum_of : F → Text → List (BacktestResult V F) → F
  sum_of total name [] = total
  sum_of total name (r ∷ rs) = sum_of (total ⊕ metric_of name r) name rs

  abbrev pub combined_of : Walk V F → List (BacktestResult V F) → Option (Combined F)
  combined_of walk [] = none
  combined_of walk (r ∷ rs) = some record {
    windows_run = walk.window_idx;
    successful_windows = length (r ∷ rs);
    avg_return_pct = mean_of (codes "total_return_pct") (r ∷ rs);
    avg_sharpe = mean_of (codes "sharpe_ratio") (r ∷ rs);
    avg_max_drawdown_pct = mean_of (codes "max_drawdown_pct") (r ∷ rs);
    avg_win_rate_pct = mean_of (codes "win_rate_pct") (r ∷ rs);
    total_oos_trades = sum_of nought (codes "total_trades") (r ∷ rs);
  }

  unfoldable pub combined_metrics : Walk V F → Option (Combined F)
  combined_metrics walk = combined_of walk walk.oos_results
