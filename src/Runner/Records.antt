-- ===== src/Runner/Records.antt =====
-- What a single run keeps and what it writes of itself.
use nexa_trade.Prelude.{ℕ, ◌≡◌, refl, ◌⊎◌, inl, inr, List, [], ◌∷◌, ◌++◌}
use mathlib.Core.Path.{subst}
use nexa_trade.Dict.{Dict}
use nexa_trade.Float.{Float}
use nexa_trade.Outcome.{Error, Outcome, ok, raised}
use nexa_trade.Runner.{
  RunStatus, complete, failed, BacktestResult, BacktestRunner, Bench, wrote, not_empty, register,
  register_by, fail, fail_by, execute_by, prepare, prepared_by, fetched_by, run,
}

-- The last status that is written.
abbrev pub EndsWith : {V F : Type 0} → RunStatus → BacktestRunner V F → Type 0
EndsWith status s = (before : List RunStatus) × (s.writes ≡ before ++ status ∷ [])

module _ {B V F D I : Type 0} ⦃f : Float F⦄ (w : Bench B V F D I) where
  -- What a run has kept and written when it has ended, for the parameters.
  abbrev pub Settled :
      Dict V
      → List (BacktestResult V F)
      → Outcome (BacktestResult V F) × (BacktestRunner V F × B)
      → Type 0
  Settled parameters kept (ok r, (s, b)) = (s.results ≡ kept ++ r ∷ []) × EndsWith complete s
  Settled parameters kept (raised e, (s, b)) =
      (s.results ≡ kept)
      × (EndsWith failed s ⊎ ((bars : List D) × (prepare w parameters bars ≡ raised e)))

  fail_by-Settled :
      (parameters : Dict V) (e : Error) (s : BacktestRunner V F) (b : B)
      → EndsWith failed s
      → (answer : Outcome (Unit {0})) → Settled parameters s.results (fail_by w e answer, (s, b))
  fail_by-Settled parameters e s b last (raised e') = (refl, inl last)
  fail_by-Settled parameters e s b last (ok _) = (refl, inl last)

  fail-Settled :
      (parameters : Dict V) (e : Error) (s : BacktestRunner V F) (b : B)
      → Settled parameters s.results (fail w e (s, b))
  unfolding fail
  fail-Settled parameters e s b =
      let (answer, b') = w.update_backtest_run failed b in
      fail_by-Settled parameters e (wrote w failed s) b' (s.writes, refl) answer

  execute-Settled :
      (parameters : Dict V) (s : BacktestRunner V F) (b : B)
      → (answer : Outcome (BacktestResult V F))
      → Settled parameters s.results (execute_by w (s, b) answer)
  execute-Settled parameters s b (raised e) = fail-Settled parameters e s b
  execute-Settled parameters s b (ok r) = (refl, (s.writes, refl))

  prepared-Settled :
      (parameters : Dict V) (bars : List D) (s : BacktestRunner V F) (b : B)
      → (m : Outcome I) → prepare w parameters bars ≡ m
      → Settled parameters s.results (prepared_by w (s, b) m)
  prepared-Settled parameters bars s b (raised e) h = (refl, inr (bars, h))
  prepared-Settled parameters bars s b (ok tester) h =
      execute-Settled parameters s b (w.backtest tester)

  fetched-Settled :
      (parameters : Dict V) (s : BacktestRunner V F) (b : B) (answer : Outcome (List D))
      → Settled parameters s.results (fetched_by w parameters (s, b) answer)
  fetched-Settled parameters s b (raised e) = fail-Settled parameters e s b
  fetched-Settled parameters s b (ok bars) =
      prepared-Settled parameters bars s b (prepare w parameters bars) refl

  register_by-results :
      (s : BacktestRunner V F) (m : Outcome (Unit {0}) × B)
      → (register_by w s m).0.results ≡ s.results
  register_by-results s (raised e, b) = refl
  register_by-results s (ok _, b) = refl

  register-results : (s : BacktestRunner V F) (b : B) → (register w (s, b)).0.results ≡ s.results
  unfolding register
  register-results s b = register_by-results s (w.insert_backtest_run b)

  -- A run that returns has kept its result behind the others, and its last call of the database was to
  -- write COMPLETE. One that raises has kept nothing, and its last call was to write FAILED, unless it was
  -- the strategy or the back tester that could not be made. This holds whatever the database raises.
  pub run-Settled :
      (from_date to_date : ℕ) (parameters : Dict V) (s : BacktestRunner V F) (b : B)
      → Settled parameters s.results (run w from_date to_date parameters (s, b))
  unfolding run
  run-Settled from_date to_date parameters s b =
      let (s1, b1) = register w (s, b) in
      let (answer, b2) = w.get_ohlcv from_date to_date b1 in
      subst (λ kept. Settled parameters kept (fetched_by w parameters (s1, b2) (not_empty answer)))
        (register-results s b) (fetched-Settled parameters s1 b2 (not_empty answer))
