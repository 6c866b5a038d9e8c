-- ===== src/Risk/Approval.antt =====
-- What is known of a signal that the risk manager approved.
use nexa_trade.Prelude.{
  ◌≡◌, ◌≢◌, ◌⊎◌, refl, true, false, Option, none, some, List, [], ◌∷◌, map, get_or, arith, inl, inr,
  Bool-cases,
}
use nexa_trade.Prelude.Int.{ℤ, pos, ◌≤ℤ◌}
use nexa_trade.Text.{Text, upper, in_list}
use nexa_trade.Float.{Float, ◌⊗◌, truthy}
use nexa_trade.Models.Enums.{SignalDirection, exchange_text}
use nexa_trade.Models.Signal.{StrategySignal}
use nexa_trade.Checks.{
  Clock, RiskConfig, Services, is_market_open, is_exit, max_trade_value, check_market_hours,
  check_capital_per_trade, check_blacklist, check_position_size, check_direction_conflict,
}
use nexa_trade.Risk.{RiskManager, Context, go_on, run_checks, all_checks, settle, approve_signal}

module _ {R : Type 0} where
  go_on_passes :
      (v : Option Text × R) (next : R → Option Text × R)
      → (go_on v next).0 ≡ none
      → (v.0 ≡ none) × ((next v.1).0 ≡ none)
  unfolding go_on
  go_on_passes (some reason, r) next h = cc
  go_on_passes (none, r) next h = (refl, h)

  -- If no check gives a reason, neither does the first, and the others go on where it ended.
  run_checks_pass :
      (check : R → Option Text × R) (checks : List (R → Option Text × R)) (r : R)
      → (run_checks (check ∷ checks) r).0 ≡ none
      → ((check r).0 ≡ none) × ((run_checks checks (check r).1).0 ≡ none)
  unfolding run_checks
  run_checks_pass check checks r h = go_on_passes (check r) (run_checks checks) h

module _ {R F : Type 0} ⦃f : Float F⦄ (w : Services R F) where
  settle_approves : (v : Option Text × R) (m : RiskManager) → (settle w v m).0 ≡ true → v.0 ≡ none
  unfolding settle
  settle_approves (none, r) m h = refl
  settle_approves (some reason, r) m h = cc

  market_hours_pass :
      (now : Clock) (g : StrategySignal F) (r : R)
      → (check_market_hours w now g r).0 ≡ none
      → (is_exit g.direction ≡ true) ⊎ (is_market_open now ≡ true)
  unfolding check_market_hours
  market_hours_pass now g r h = ground arith

  pub check_market_hours-open :
      (now : Clock) (g : StrategySignal F) (r : R)
      → (is_exit g.direction ≡ true) ⊎ (is_market_open now ≡ true)
      → check_market_hours w now g r ≡ (none, r)
  unfolding check_market_hours
  check_market_hours-open now g r (inl e) = rw e refl
  check_market_hours-open now g r (inr e) = elim (Bool-cases (is_exit g.direction)) [
    | inl x ↦ rw x refl
    | inr x ↦ rw (x, e) refl
  ]

  blacklist_passes :
      (cfg : RiskConfig F) (g : StrategySignal F)
      → check_blacklist w cfg g ≡ none
      → (in_list (upper g.symbol) (map upper (get_or cfg.symbols [])) ≡ false)
        × (in_list (upper (exchange_text g.exchange)) (map upper (get_or cfg.exchanges [])) ≡ false)
  unfolding check_blacklist
  blacklist_passes cfg g h = ground arith

  -- A suggested quantity, if there is one, is zero or within the limit.
  abbrev pub WithinSize : RiskConfig F → Option ℤ → Type 0
  WithinSize cfg none = Unit
  WithinSize cfg (some q) = (q ≡ pos 0) ⊎ (q ≤ℤ get_or cfg.max_position_size (pos 500))

  -- A suggested quantity at a suggested price, if there are both, does not exceed the capital of one
  -- trade; a zero counts as none.
  abbrev pub WithinCapital : RiskConfig F → Option ℤ → Option F → Type 0
  WithinCapital cfg (some q) (some p) =
      (q ≡ pos 0) ⊎ (truthy p ≡ false) ⊎ (f.lt (max_trade_value w cfg) (f.of_ℤ q ⊗ p) ≡ false)
  WithinCapital cfg _ _ = Unit

  position_size_passes :
      (cfg : RiskConfig F) (size : Option ℤ)
      → check_position_size w cfg size ≡ none
      → WithinSize cfg size
  unfolding check_position_size
  position_size_passes cfg none h = tt
  position_size_passes cfg (some q) h = ground arith

  capital_passes :
      (cfg : RiskConfig F) (size : Option ℤ) (price : Option F)
      → check_capital_per_trade w cfg size price ≡ none
      → WithinCapital cfg size price
  unfolding check_capital_per_trade
  capital_passes cfg (some q) (some p) h = ground arith
  capital_passes cfg none price h = tt
  capital_passes cfg (some q) none h = tt

  conflict_passes :
      (g : StrategySignal F) (direction : SignalDirection) (b : Text) (r : R)
      → (check_direction_conflict w g direction b r).0 ≡ none
      → direction ≢ SignalDirection.hold
  unfolding check_direction_conflict
  conflict_passes g SignalDirection.hold b r h = cc
  conflict_passes g _ b r h = cc

  -- An approved signal came in market hours or was an EXIT, was no HOLD, names no symbol and no
  -- exchange of the blacklist, and its quantity and its value are within the limits, whatever Redis
  -- and PostgreSQL answer or raise.
  pub approve_signal_sound :
      (c : Context F) (g : StrategySignal F) (m : RiskManager) (r : R)
      → (approve_signal w c g m r).0 ≡ true
      → ((is_exit g.direction ≡ true) ⊎ (is_market_open c.now ≡ true))
        × (g.direction ≢ SignalDirection.hold)
        × (in_list (upper g.symbol) (map upper (get_or c.cfg.symbols [])) ≡ false)
        × (in_list (upper (exchange_text g.exchange)) (map upper (get_or c.cfg.exchanges []))
            ≡ false)
        × WithinSize c.cfg g.suggested_quantity
        × WithinCapital c.cfg g.suggested_quantity g.suggested_price
  unfolding approve_signal all_checks
  approve_signal_sound c g m r h =
      let passed = settle_approves (run_checks (all_checks w c g) r) m h in
      let (_, h1) = run_checks_pass _ _ r passed in
      let (hours, h2) = run_checks_pass _ _ _ h1 in
      let (_, h3) = run_checks_pass _ _ _ h2 in
      let (_, h4) = run_checks_pass _ _ _ h3 in
      let (_, h5) = run_checks_pass _ _ _ h4 in
      let (capital, h6) = run_checks_pass _ _ _ h5 in
      let (black, h7) = run_checks_pass _ _ _ h6 in
      let (_, h8) = run_checks_pass _ _ _ h7 in
      let (size, h9) = run_checks_pass _ _ _ h8 in
      let (conflict, _) = run_checks_pass _ _ _ h9 in
      let (symbol, exchange) = blacklist_passes c.cfg g black in
      (
        market_hours_pass c.now g _ hours,
        conflict_passes g g.direction c.broker_name _ conflict,
        symbol,
        exchange,
        position_size_passes c.cfg g.suggested_quantity size,
        capital_passes c.cfg g.suggested_quantity g.suggested_price capital,
      )
