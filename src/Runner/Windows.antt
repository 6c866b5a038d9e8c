-- ===== src/Runner/Windows.antt =====
-- The windows of a walk-forward run: where they lie, and when there is an end of them.
use nexa_trade.Prelude.{
  ℕ, zero, suc, ◌-◌, ◌≤◌, ◌<◌, ltb, ◌≡◌, refl, sym, ap, ◌∙◌, false, List, [], ◌∷◌, ◌++◌, length,
  length-append, All, All-append, All-weaken, not, lt→ltb, if-split, arith, if◌then◌else◌,
}
use nexa_trade.Prelude.Int.{ℤ}
use nexa_trade.Dict.{Dict}
use nexa_trade.Float.{Float}
use nexa_trade.Outcome.{Outcome, ok, raised, out_of_fuel, Returns}
use nexa_trade.Runner.{BacktestResult, BacktestRunner, Bench, run}
use nexa_trade.Runner.Walk.{
  Window, Walk, new_walk, test_by, numbered, optimise, run_window, walk_loop, walk_forward,
}

-- A later window trains on days after the training days of the earlier ones.
abbrev pub Apart : {V F : Type 0} → List (Window V F) → Type 0
Apart [] = Unit
Apart (x ∷ xs) = All (λ y. x.train_end ≤ y.train_start) xs × Apart xs

Apart-snoc :
    {V F : Type 0} (xs : List (Window V F)) (y : Window V F)
    → Apart xs
    → All (λ x. x.train_end ≤ y.train_start) xs
    → Apart (xs ++ y ∷ [])
Apart-snoc [] y h k = (tt, tt)
Apart-snoc (x ∷ xs) y (h, hs) (k, ks) =
    (All-append (λ z. x.train_end ≤ z.train_start) xs (y ∷ []) h (k, tt), Apart-snoc xs y hs ks)

length-snoc : {A : Type 0} (xs : List A) (x : A) → length (xs ++ x ∷ []) ≡ suc (length xs)
length-snoc xs x = length-append xs (x ∷ []) ∙ omega arith

not-ltb : (a b : ℕ) → b ≤ a → ltb a b ≡ false
not-ltb a b h = ground arith

module _ {B V F D I : Type 0} ⦃f : Float F⦄ (w : Bench B V F D I) (train_months test_months : ℤ)
    (from_day to_day : ℕ) where
  -- Where a window lies.
  abbrev pub Placed : Window V F → Type 0
  Placed window =
      (from_day ≤ window.train_start)
      × ((window.train_end ≡ w.add_months train_months window.train_start)
          × ((window.test_start ≡ window.train_end)
              × ((window.test_end ≡ w.add_months test_months window.test_start)
                  × (window.test_end ≤ to_day))))

  -- A walk that has come to a day.
  pub record IsWalk (current : ℕ) (walk : Walk V F) : Type 0 where
    pub results_each : length walk.oos_results ≡ length walk.windows
    pub params_each : length walk.best_params_list ≡ length walk.windows
    pub counted : length walk.windows ≤ walk.window_idx
    pub placed : All Placed walk.windows
    pub passed : All (λ window. window.train_end ≤ current) walk.windows
    pub apart : Apart walk.windows

  test_by-IsWalk :
      (current train_end test_end : ℕ) (best : Dict V) (walk : Walk V F)
      → (answer : Outcome (BacktestResult V F)) → IsWalk current walk
      → from_day ≤ current
      → current ≤ train_end
      → train_end ≡ w.add_months train_months current
      → test_end ≡ w.add_months test_months train_end
      → test_end ≤ to_day
      → IsWalk train_end (test_by w current train_end test_end best (numbered w walk) answer)
  test_by-IsWalk current train_end test_end best walk (raised e) h from grows at test_at fits =
      record {
        results_each = h.results_each;
        params_each = h.params_each;
        counted = omega (arith, h.counted);
        placed = h.placed;
        passed =
            All-weaken (λ x. x.train_end ≤ current) (λ x. x.train_end ≤ train_end) walk.windows
              (λ x k. omega (arith, k, grows)) h.passed;
        apart = h.apart;
      }
  test_by-IsWalk current train_end test_end best walk (ok r) h from grows at test_at fits =
      let new : Window V F = record {
        window = suc walk.window_idx;
        train_start = current;
        train_end = train_end;
        test_start = train_end;
        test_end = test_end;
        best_params = best;
        test_metrics = r.metrics;
      } in
      record {
        results_each =
            length-snoc walk.oos_results r
            ∙ (ap suc h.results_each ∙ sym (length-snoc walk.windows new));
        params_each =
            length-snoc walk.best_params_list best
            ∙ (ap suc h.params_each ∙ sym (length-snoc walk.windows new));
        counted = rw (length-snoc walk.windows new) (omega (arith, h.counted));
        placed =
            All-append Placed walk.windows (new ∷ []) h.placed
              ((from, (at, (refl, (test_at, fits)))), tt);
        passed =
            All-append (λ x. x.train_end ≤ train_end) walk.windows (new ∷ [])
              (All-weaken (λ x. x.train_end ≤ current) (λ x. x.train_end ≤ train_end) walk.windows
                (λ x k. omega (arith, k, grows)) h.passed)
              (omega arith, tt);
        apart = Apart-snoc walk.windows new h.apart h.passed;
      }

  run_window-IsWalk :
      (grid : Dict (List V)) (current test_end : ℕ) (walk : Walk V F) (s : BacktestRunner V F)
      (b : B)
      → IsWalk current walk
      → from_day ≤ current
      → let train_end = w.add_months train_months current in
        current ≤ train_end
        → test_end ≡ w.add_months test_months train_end
        → test_end ≤ to_day
        → IsWalk train_end (run_window w grid current train_end test_end (walk, (s, b))).0
  unfolding run_window
  run_window-IsWalk grid current test_end walk s b h from grows at fits =
      let train_end = w.add_months train_months current in
      let (best, b') = optimise w grid current train_end b in
      let (answer, _) = run w train_end test_end best (s, b') in
      test_by-IsWalk current train_end test_end best walk answer h from grows refl at fits

  walk_loop-IsWalk :
      ((day : ℕ) → day < w.add_months train_months day)
      → (fuel : ℕ) (grid : Dict (List V)) (current : ℕ)
      → (walk : Walk V F) (s : BacktestRunner V F) (b : B) → to_day - current < fuel
      → from_day ≤ current
      → IsWalk current walk
      → Returns
          (λ walk'. (day : ℕ) × IsWalk day walk')
          (walk_loop w fuel train_months test_months grid to_day current (walk, (s, b))).0
  unfolding walk_loop
  walk_loop-IsWalk grows zero grid current walk s b enough from h = ground (arith, enough)
  walk_loop-IsWalk grows (suc fuel) grid current walk s b enough from h =
      let train_end = w.add_months train_months current in
      let test_end = w.add_months test_months train_end in
      let further = grows current in
      let next = run_window w grid current train_end test_end (walk, (s, b)) in
      if-split (λ m. Returns (λ walk'. (day : ℕ) × IsWalk day walk') m.0) (not (ltb current to_day))
        (ok walk, (s, b))
        (if ltb to_day test_end
          then (ok walk, (s, b))
          else walk_loop w fuel train_months test_months grid to_day train_end next)
        (λ stops. (current, h))
        λ goes.
          if-split (λ m. Returns (λ walk'. (day : ℕ) × IsWalk day walk') m.0) (ltb to_day test_end)
            (ok walk, (s, b)) (walk_loop w fuel train_months test_months grid to_day train_end next)
            (λ breaks. (current, h))
            λ fits.
              walk_loop-IsWalk grows fuel grid train_end next.0 next.1.0 next.1.1
                (ground (arith, enough, goes, further)) (omega (arith, from, further))
                (run_window-IsWalk grid current test_end walk s b h from (omega (arith, further))
                  refl (ground (arith, fits)))

  Returns-IsWalk :
      (m : Outcome (Walk V F))
      → Returns (λ walk. (day : ℕ) × IsWalk day walk) m
      → (walk : Walk V F) × ((m ≡ ok walk) × ((day : ℕ) × IsWalk day walk))
  Returns-IsWalk (ok walk) h = (walk, (refl, h))
  Returns-IsWalk (raised e) h = absurd h

  new_walk-IsWalk : (current : ℕ) → IsWalk current new_walk
  unfolding new_walk
  new_walk-IsWalk current = record {
    results_each = refl;
    params_each = refl;
    counted = omega arith;
    placed = tt;
    passed = tt;
    apart = tt;
  }

  -- Where the training months lead from every day to a later one, and with more fuel than there are days,
  -- a walk-forward run comes to an end, whatever the sweeps and the tests raise; it has as many results
  -- and best parameters as windows, every window lies within the days asked for, trains and then tests for
  -- its months, and trains on no day before the end of the training of an earlier one.
  pub walk_forward_lem :
      ((day : ℕ) → day < w.add_months train_months day)
      → (fuel : ℕ) (grid : Dict (List V)) (s : BacktestRunner V F) (b : B)
      → to_day - from_day < fuel
      → let answer = (walk_forward w fuel from_day to_day train_months test_months grid (s, b)).0 in
        (walk : Walk V F) × ((answer ≡ ok walk) × ((day : ℕ) × IsWalk day walk))
  unfolding walk_forward
  walk_forward_lem grows fuel grid s b enough =
      Returns-IsWalk
        (walk_loop w fuel train_months test_months grid to_day from_day (new_walk, (s, b))).0
        (walk_loop-IsWalk grows fuel grid from_day new_walk s b enough (omega arith)
          (new_walk-IsWalk from_day))

  walk_loop-forever :
      (fuel : ℕ) (grid : Dict (List V)) (walk : Walk V F) (s : BacktestRunner V F) (b : B)
      → w.add_months train_months from_day ≡ from_day
      → from_day < to_day
      → w.add_months test_months from_day ≤ to_day
      → (walk_loop w fuel train_months test_months grid to_day from_day (walk, (s, b))).0
        ≡ raised out_of_fuel
  unfolding walk_loop
  walk_loop-forever zero grid walk s b stays before fits = refl
  walk_loop-forever (suc fuel) grid walk s b stays before fits =
      let next =
        run_window w grid from_day from_day (w.add_months test_months from_day) (walk, (s, b)) in
      rw
        (
          stays,
          lt→ltb from_day to_day before,
          not-ltb to_day (w.add_months test_months from_day) fits,
        )
        (walk_loop-forever fuel grid next.0 next.1.0 next.1.1 stays before fits)

  -- Training months that lead from the first day to itself, as none do: when the first day comes before
  -- the last, and the first test fits, no amount of fuel brings the run to an end.
  pub walk_forward-forever :
      (fuel : ℕ) (grid : Dict (List V)) (s : BacktestRunner V F) (b : B)
      → w.add_months train_months from_day ≡ from_day
      → from_day < to_day
      → w.add_months test_months from_day ≤ to_day
      → (walk_forward w fuel from_day to_day train_months test_months grid (s, b)).0
        ≡ raised out_of_fuel
  unfolding walk_forward
  walk_forward-forever fuel grid s b stays before fits =
      walk_loop-forever fuel grid new_walk s b stays before fits
