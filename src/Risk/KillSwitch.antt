-- ===== src/Risk/KillSwitch.antt =====
-- The kill switch of a broker: armed by hand or by a breach of the daily loss limit, it blocks every
-- signal of the broker until it is disarmed.
use nexa_trade.Prelude.{
  ◌+◌, ◌++◌, ◌≡◌, refl, sym, ◌∙◌, Bool, true, false, Option, none, some, List, [], ◌∷◌, length,
  arith, ◌⊎◌, inl, inr, Bool-cases, if◌then◌else◌, All,
}
use mathlib.Core.Path.{subst}
use nexa_trade.Text.{Text, codes, text_eq, text_eq_refl}
use nexa_trade.Float.{Float}
use nexa_trade.Outcome.{ok}
use nexa_trade.Models.Signal.{StrategySignal}
use nexa_trade.Redis.{
  ◌>>=◌, ◌>>◌, is_set, flag, get, set, kill_switch_key, set_kill_switch, is_kill_switch_active,
  is_global_kill_switch_active, get_daily_pnl, pnl_of,
}
use nexa_trade.Checks.{
  Services, is_market_open, is_exit, is_breached, check_kill_switch, check_daily_loss_limit,
}
use nexa_trade.Risk.Approval.{check_market_hours-open}
use nexa_trade.Risk.{
  RiskManager, Context, count_block, go_on, run_checks, all_checks, settle, approve_signal,
  arm_kill_switch, judge,
}

module _ {R F : Type 0} ⦃f : Float F⦄ (w : Services R F) where
  -- A Redis that works, as its documentation says: `view` is what it holds, reading changes nothing, a
  -- value that was set is read back, other keys keep theirs, and publishing changes no key.
  pub record IsWorking : Type 0 where
    pub view : R → Text → Option Text
    pub initialised : w.redis.is_initialised ≡ true
    pub get_lem : (key : Text) (r : R) → w.redis.library.get key r ≡ (ok (view r key), r)
    pub written : Text → Text → R → R
    pub set_lem :
        (key value : Text) (r : R) → w.redis.library.set key value r ≡ (ok tt, written key value r)
    pub view-written :
        (key value : Text) (r : R) (j : Text)
        → view (written key value r) j ≡ (if text_eq key j then some value else view r j)
    pub view-publish : (reason : Text) (r : R) (j : Text) → view (w.publish reason r) j ≡ view r j

  module _ (works : IsWorking) where
    open works use {view, initialised, get_lem, written, set_lem, view-written, view-publish}

    -- The kill switch of the broker is armed.
    abbrev pub IsArmed : Text → R → Type 0
    IsArmed broker_name r = is_set (view r (kill_switch_key broker_name)) ≡ true

    get_works : (key : Text) (r : R) → get w.redis key r ≡ (ok (view r key), r)
    unfolding get ◌>>◌
    get_works key r = rw initialised (get_lem key r)

    set_kill_switch_works :
        (b : Text) (active : Bool) (r : R)
        → set_kill_switch w.redis b active r ≡ (ok tt, written (kill_switch_key b) (flag active) r)
    unfolding set_kill_switch set ◌>>◌
    set_kill_switch_works b active r = rw initialised (set_lem (kill_switch_key b) (flag active) r)

    is_kill_switch_active_works :
        (b : Text) (r : R)
        → is_kill_switch_active w.redis b r ≡ (ok (is_set (view r (kill_switch_key b))), r)
    unfolding is_kill_switch_active ◌>>=◌
    is_kill_switch_active_works b r = rw (get_works (kill_switch_key b) r) refl

    is_global_works :
        (r : R)
        → is_global_kill_switch_active w.redis r ≡ (ok (is_set (view r (codes "ks:global"))), r)
    unfolding is_global_kill_switch_active ◌>>=◌
    is_global_works r = rw (get_works (codes "ks:global") r) refl

    written-IsArmed : (b : Text) (r : R) → IsArmed b (written (kill_switch_key b) (codes "1") r)
    unfolding text_eq
    written-IsArmed b r =
        rw
          (
            view-written (kill_switch_key b) (codes "1") r (kill_switch_key b),
            text_eq_refl (kill_switch_key b),
          )
          refl

    -- An armed switch gives a reason to block, and is still armed.
    check_kill_switch-armed :
        (b : Text) (r : R)
        → IsArmed b r
        → (reason : Text) × (check_kill_switch w b r ≡ (some reason, r))
    unfolding check_kill_switch ◌>>=◌
    check_kill_switch-armed b r h = elim (Bool-cases (is_set (view r (codes "ks:global")))) [
      | inl e ↦ (codes "global_kill_switch_active", rw (is_global_works r, e) refl)
      | inr e ↦ (
        codes "broker_kill_switch_active:" ++ b,
        rw (is_global_works r, e, is_kill_switch_active_works b r, h) refl,
      )
    ]

    -- A blocked signal is counted and published, and nothing else happens.
    pub approve_signal-armed :
        (c : Context F) (g : StrategySignal F) (m : RiskManager) (r : R)
        → IsArmed c.broker_name r
        → (reason : Text) × (approve_signal w c g m r
            ≡ (false, count_block reason m, w.publish reason r))
    unfolding approve_signal all_checks run_checks go_on settle
    approve_signal-armed c g m r h =
        let (reason, e) = check_kill_switch-armed c.broker_name r h in (reason, rw e refl)

    pub publish-IsArmed : (b reason : Text) (r : R) → IsArmed b r → IsArmed b (w.publish reason r)
    publish-IsArmed b reason r h = rw (view-publish reason r (kill_switch_key b)) h

    -- A blocked signal is counted, and the switch stays as it is.
    approve_signal-IsArmed :
        (c : Context F) (g : StrategySignal F) (m : RiskManager) (r : R)
        → IsArmed c.broker_name r
        → ((approve_signal w c g m r).0 ≡ false)
          × ((approve_signal w c g m r).1.signals_approved ≡ m.signals_approved)
          × ((approve_signal w c g m r).1.signals_blocked ≡ m.signals_blocked + 1)
          × IsArmed c.broker_name (approve_signal w c g m r).2
    unfolding approve_signal all_checks run_checks go_on settle count_block
    approve_signal-IsArmed c g m r h =
        let (reason, e) = check_kill_switch-armed c.broker_name r h in
        rw e (refl, refl, refl, rw (view-publish reason r (kill_switch_key c.broker_name)) h)

    -- The contexts are all of one broker.
    abbrev pub OfBroker : Text → List (Context F × StrategySignal F) → Type 0
    OfBroker b gs = All (λ (x : Context F × StrategySignal F). x.0.broker_name ≡ b) gs

    pub judge-armed :
        (b : Text) (gs : List (Context F × StrategySignal F)) (m : RiskManager) (r : R)
        → OfBroker b gs
        → IsArmed b r
        → ((judge w gs m r).0.signals_approved ≡ m.signals_approved)
          × ((judge w gs m r).0.signals_blocked ≡ m.signals_blocked + length gs)
    unfolding judge
    judge-armed b [] m r own h = (refl, omega arith)
    judge-armed b ((c, g) ∷ gs) m r (same, own) h =
        let (_, e1, e2, h') =
          approve_signal-IsArmed c g m r (subst (λ x. IsArmed x r) (sym same) h) in
        let out = approve_signal w c g m r in
        let (e3, e4) = judge-armed b gs out.1 out.2 own (subst (λ x. IsArmed x out.2) same h') in
        (e3 ∙ e1, omega (arith, e2, e4))

    -- With a Redis that works, arming the kill switch of a broker succeeds, and from then on every
    -- signal of the broker is blocked, of whatever direction, exits included.
    pub arm_kill_switch_blocks :
        (b : Text) (gs : List (Context F × StrategySignal F)) (m : RiskManager) (r : R)
        → OfBroker b gs
        → ((arm_kill_switch w b r).0 ≡ ok tt)
          × ((judge w gs m (arm_kill_switch w b r).1).0.signals_approved ≡ m.signals_approved)
          × ((judge w gs m (arm_kill_switch w b r).1).0.signals_blocked
              ≡ m.signals_blocked + length gs)
    unfolding arm_kill_switch
    arm_kill_switch_blocks b gs m r own = rw (set_kill_switch_works b true r) (
        let (x, y) =
          judge-armed b gs m (written (kill_switch_key b) (flag true) r) own
            (written-IsArmed b r) in
        (refl, x, y))

    check_kill_switch-clear :
        (b : Text) (r : R)
        → is_set (view r (codes "ks:global")) ≡ false
        → is_set (view r (kill_switch_key b)) ≡ false
        → check_kill_switch w b r ≡ (none, r)
    unfolding check_kill_switch ◌>>=◌
    check_kill_switch-clear b r h k =
        rw (is_global_works r, h, is_kill_switch_active_works b r, k) refl

    get_daily_pnl_works :
        (b : Text) (r : R) {pnl : F}
        → pnl_of w.redis (view r (codes "pnl:daily:" ++ b)) ≡ ok pnl
        → get_daily_pnl w.redis b r ≡ (ok pnl, r)
    unfolding get_daily_pnl ◌>>=◌
    get_daily_pnl_works b r h = rw (get_works (codes "pnl:daily:" ++ b) r, h) refl

    check_daily_loss_limit-breached :
        (c : Context F) (r : R) {pnl : F}
        → pnl_of w.redis (view r (codes "pnl:daily:" ++ c.broker_name)) ≡ ok pnl
        → is_breached w c.cfg pnl ≡ true
        → (reason : Text) × (check_daily_loss_limit w c.broker_name c.cfg r
            ≡ (some reason, written (kill_switch_key c.broker_name) (codes "1") r))
    unfolding check_daily_loss_limit ◌>>=◌ ◌>>◌
    check_daily_loss_limit-breached c r {pnl} h k = (
      codes "daily_loss_limit_breached:pnl=" ++ w.show_float pnl,
      rw (get_daily_pnl_works c.broker_name r h, k, set_kill_switch_works c.broker_name true r)
          refl,
    )

    approve_signal-breached :
        (c : Context F) (g : StrategySignal F) (m : RiskManager) (r : R) {pnl : F}
        → is_set (view r (codes "ks:global")) ≡ false
        → is_set (view r (kill_switch_key c.broker_name)) ≡ false
        → (is_exit g.direction ≡ true) ⊎ (is_market_open c.now ≡ true)
        → pnl_of w.redis (view r (codes "pnl:daily:" ++ c.broker_name)) ≡ ok pnl
        → is_breached w c.cfg pnl ≡ true
        → (reason : Text) × (approve_signal w c g m r ≡ (
          false,
          count_block reason m,
          w.publish reason (written (kill_switch_key c.broker_name) (codes "1") r),
        ))
    unfolding approve_signal all_checks run_checks go_on settle
    approve_signal-breached c g m r clear own_clear hours loss breach =
        let (reason, e) = check_daily_loss_limit-breached c r loss breach in
        (
          reason,
          rw
              (
                check_kill_switch-clear c.broker_name r clear own_clear,
                check_market_hours-open w c.now g r hours,
                e,
              )
              refl,
        )

    -- With a Redis that works and no kill switch armed, a signal that is an EXIT or comes in market
    -- hours, while the daily loss has reached the limit, is blocked, and it locks the broker: so is
    -- every later signal, exits included.
    pub loss_limit_locks :
        (c : Context F) (g : StrategySignal F) (gs : List (Context F × StrategySignal F))
        → (m : RiskManager) (r : R) {pnl : F} → is_set (view r (codes "ks:global")) ≡ false
        → is_set (view r (kill_switch_key c.broker_name)) ≡ false
        → (is_exit g.direction ≡ true) ⊎ (is_market_open c.now ≡ true)
        → pnl_of w.redis (view r (codes "pnl:daily:" ++ c.broker_name)) ≡ ok pnl
        → is_breached w c.cfg pnl ≡ true
        → OfBroker c.broker_name gs
        → ((judge w ((c, g) ∷ gs) m r).0.signals_approved ≡ m.signals_approved)
          × ((judge w ((c, g) ∷ gs) m r).0.signals_blocked ≡ m.signals_blocked + 1 + length gs)
    unfolding judge count_block
    loss_limit_locks c g gs m r clear own_clear hours loss breach own =
        let r1 = written (kill_switch_key c.broker_name) (codes "1") r in
        let (reason, e) = approve_signal-breached c g m r clear own_clear hours loss breach in
        let armed : IsArmed c.broker_name (w.publish reason r1) =
          rw (view-publish reason r1 (kill_switch_key c.broker_name))
            (written-IsArmed c.broker_name r) in
        rw (e, judge)
          (judge-armed c.broker_name gs (count_block reason m) (w.publish reason r1) own armed)
