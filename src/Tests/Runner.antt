-- ===== src/Tests/Runner.antt =====
-- A runner on concrete values: the metric of a back test is the parameter `fast_period`.
use nexa_trade.Prelude.{ℕ, ◌+◌, ◌*◌, ◌≡◌, refl, ◌↔◌, some, List, [], ◌∷◌, length, get_or, arith}
use nexa_trade.Prelude.Int.{ℤ, pos, negsuc}
use mathlib.Core.List.{Perm}
use nexa_trade.Text.{Text, codes, text_eq}
use nexa_trade.Dict.{lookup}
use nexa_trade.Float.Fixed.{Fixed, fixed_float, Fixed-IsOrdered}
use nexa_trade.Outcome.{ok}
use nexa_trade.Runner.{BacktestResult, BacktestRunner, Bench, product, run, ranked, get_best_result}
use nexa_trade.Runner.Walk.{Walk, walk_forward}
use nexa_trade.Runner.Records.{Settled, run-Settled}
use nexa_trade.Runner.Grid.{In, Picks, sizes, product_lem}
use nexa_trade.Runner.Ranking.{head?, Descending, ranked_lem}
use nexa_trade.Runner.Windows.{IsWalk, walk_forward_lem}

abbrev fast : Text
fast = codes "fast_period"

abbrev sharpe : Text
sharpe = codes "sharpe_ratio"

abbrev result : ℤ → BacktestResult ℤ Fixed
result n = record { parameters = (fast, n) ∷ []; metrics = (sharpe, n) ∷ [] }

-- A month has thirty days here, and every day one bar.
abbrev months : ℤ → ℕ → ℕ
months (pos n) day = day + 30 * n
months (negsuc n) day = day

abbrev bench : Bench ℕ ℤ Fixed ℕ ℤ
bench = record {
  insert_backtest_run = λ b. (ok tt, b);
  update_backtest_run = λ status b. (ok tt, b);
  get_ohlcv = λ from_date to_date b. (ok (from_date ∷ to_date ∷ []), b);
  default_parameters = (fast, pos 9) ∷ [];
  new_strategy = ok ((fast, pos 9) ∷ []);
  set_up = λ parameters bars. ok (get_or (lookup fast parameters) (pos 0));
  backtest = λ n. ok (result n);
  minus_infinity = negsuc 1000000000;
  add_months = months;
  mean = λ xs. pos 0;
}

abbrev no_runs : BacktestRunner ℤ Fixed
no_runs = record { results = []; writes = [] }

run-Settled_example :
    Settled bench ((fast, pos 5) ∷ []) [] (run bench 0 30 ((fast, pos 5) ∷ []) (no_runs, 0))
run-Settled_example = run-Settled bench 0 30 ((fast, pos 5) ∷ []) no_runs 0

abbrev grid : List (List ℕ)
grid = (5 ∷ 9 ∷ []) ∷ (20 ∷ 21 ∷ 26 ∷ []) ∷ []

grid_combinations :
    (In (9 ∷ 21 ∷ []) (product grid) ↔ Picks (9 ∷ 21 ∷ []) grid)
    × (length (product grid) ≡ sizes grid)
grid_combinations = product_lem (9 ∷ 21 ∷ []) grid

abbrev rest : List (BacktestResult ℤ Fixed)
rest = result (pos 9) ∷ result (pos 3) ∷ []

ranked_lem_example :
    Perm (result (pos 5) ∷ rest) (ranked bench sharpe (result (pos 5) ∷ rest))
    × (Descending bench sharpe (ranked bench sharpe (result (pos 5) ∷ rest))
        × (get_best_result bench (some (result (pos 5) ∷ rest)) sharpe no_runs
            ≡ head? (ranked bench sharpe (result (pos 5) ∷ rest))))
unfolding fixed_float lookup text_eq
ranked_lem_example =
    ranked_lem Fixed-IsOrdered bench sharpe (result (pos 5)) rest no_runs (refl, (refl, (refl, tt)))

walk_forward_lem_example :
    let answer = (walk_forward bench 101 0 100 (pos 2) (pos 1) [] (no_runs, 0)).0 in
    (walk : Walk ℤ Fixed) × ((answer ≡ ok walk)
      × ((day : ℕ) × IsWalk bench (pos 2) (pos 1) 0 100 day walk))
walk_forward_lem_example =
    walk_forward_lem bench (pos 2) (pos 1) 0 100 (λ day. omega arith) 101 [] no_runs 0 (omega arith)
