-- ===== src/Risk/Tally.antt =====
-- The counters of the risk manager.
use nexa_trade.Prelude.{
  ℕ, suc, ◌+◌, ◌≡◌, refl, Option, none, some, List, [], ◌∷◌, length, get_or, arith,
}
use nexa_trade.Text.{Text}
use nexa_trade.Dict.{Dict, lookup, insert}
use nexa_trade.Float.{Float}
use nexa_trade.Models.Signal.{StrategySignal}
use nexa_trade.Checks.{Services}
use nexa_trade.Risk.{
  RiskManager, Context, reset_stats, count_block, settle, run_checks, all_checks, approve_signal,
  judge,
}

abbrev pub sum_reasons : Dict ℕ → ℕ
sum_reasons [] = 0
sum_reasons ((_, n) ∷ reasons) = n + sum_reasons reasons

sum_reasons-insert :
    (k : Text) (n : ℕ) (d : Dict ℕ)
    → sum_reasons (insert k n d) + get_or (lookup k d) 0 ≡ sum_reasons d + n
unfolding insert lookup
sum_reasons-insert k n [] = omega arith
sum_reasons-insert k n ((j, v) ∷ d) = ground (arith, sum_reasons-insert k n d)

-- The reasons add up to the blocked signals.
abbrev pub IsTallied : RiskManager → Type 0
IsTallied m = sum_reasons m.block_reasons ≡ m.signals_blocked

abbrev pub seen : RiskManager → ℕ
seen m = m.signals_approved + m.signals_blocked

count_block-IsTallied :
    (reason : Text) (m : RiskManager) → IsTallied m → IsTallied (count_block reason m)
unfolding count_block
count_block-IsTallied reason m h = omega (
  arith,
  h,
  sum_reasons-insert reason (get_or (lookup reason m.block_reasons) 0 + 1) m.block_reasons,
)

module _ {R F : Type 0} ⦃f : Float F⦄ (w : Services R F) where
  settle-IsTallied :
      (v : Option Text × R) (m : RiskManager)
      → IsTallied m
      → IsTallied (settle w v m).1 × (seen (settle w v m).1 ≡ suc (seen m))
  unfolding settle count_block
  settle-IsTallied (none, r) m h = (h, omega arith)
  settle-IsTallied (some reason, r) m h = (count_block-IsTallied reason m h, omega arith)

  judge_tallies :
      (gs : List (Context F × StrategySignal F)) (m : RiskManager) (r : R)
      → IsTallied m
      → IsTallied (judge w gs m r).0 × (seen (judge w gs m r).0 ≡ seen m + length gs)
  unfolding judge approve_signal
  judge_tallies [] m r h = (h, omega arith)
  judge_tallies ((c, g) ∷ gs) m r h =
      let v = run_checks (all_checks w c g) r in
      let out = settle w v m in
      let (h1, e1) = settle-IsTallied v m h in
      let (h2, e2) = judge_tallies gs out.1 out.2 h1 in (h2, omega (arith, e1, e2))

  -- After a reset and any signals, in any state of Redis and PostgreSQL and whatever those answer or
  -- raise, each signal was either approved or blocked, and the tallies of the reasons add up to the
  -- number of blocked signals.
  pub judge-IsTallied :
      (gs : List (Context F × StrategySignal F)) (r : R)
      → IsTallied (judge w gs reset_stats r).0 × (seen (judge w gs reset_stats r).0 ≡ length gs)
  judge-IsTallied gs r = let (h, e) = judge_tallies gs reset_stats r refl in (h, omega (arith, e))
