-- ===== src/Container/Access.antt =====
-- What the rest of the program gets of the container, after any starts, stops and restarts.
use nexa_trade.Prelude.{
  ◌≡◌, refl, sym, ap, ◌∙◌, Bool, true, false, Bool-cases, inl, inr, Option, some, List, ◌++◌, ◌⊎◌,
  arith, not, if◌then◌else◌,
}
use mathlib.Core.Path.{subst}
use nexa_trade.Outcome.{Outcome, ok, raised, runtime_error}
use nexa_trade.Container.{
  Part, pg, feed_svc, strategy_eng, broker_svc, Call, stopped, Container, Components, new_container,
  service, asked, health_check, create, launch, init_storage, init_all, teardown_steps,
  teardown_all, set_stopped, started_by, start, stop, restart,
}
use nexa_trade.Container.Shutdown.{calls, teardown_all_lem, stop_lem}
use nexa_trade.Container.Startup.{Promised, start-stopped, start_lem}

-- The containers that the program can come to, with the world at that point.
pub data Reachable {B H : Type 0} (w : Components B H) : Container H → Type 0 where
  at_first : Reachable w new_container
  by_start : (c : Container H) (b : B) → Reachable w c → Reachable w (start w (c, b)).1.0
  by_stop : (c : Container H) (b : B) → Reachable w c → Reachable w (stop w (c, b)).0
  by_restart : (c : Container H) (b : B) → Reachable w c → Reachable w (restart w (c, b)).1.0

-- A started container has all its components.
abbrev pub IsComplete : {H : Type 0} → Container H → Type 0
IsComplete c = c.started ≡ true → (p : Part) → (h : _) × (c.parts p ≡ some h)

apart : (b : Bool) → b ≡ true → b ≡ false → ⊥
apart true h k = ground (arith, k)
apart false h k = ground (arith, h)

-- What a property of the container gives: a component, or a RuntimeError when it is not started.
abbrev pub Served : {H : Type 0} → Part → Container H → Type 0
Served p c =
    ((c.started ≡ true) × ((h : _) × (service p c ≡ ok (some h))))
    ⊎ ((c.started ≡ false) × (service p c ≡ raised runtime_error))

-- A call that returns.
abbrev pub Answers : {A : Type 0} → Outcome A → Type 0
Answers m = (a : _) × (m ≡ ok a)

either :
    {A : Type 0} (b : Bool) (m m' : Outcome A)
    → Answers m
    → (b ≡ true → Answers m')
    → Answers (if not b then m else m')
either true m m' h k = k refl
either false m m' h k = h

module _ {B H : Type 0} (w : Components B H) where
  Promised-IsComplete :
      (log : List (Call H)) (m : Outcome (Unit {0}) × (Container H × B))
      → Promised log m
      → IsComplete m.1.0
  Promised-IsComplete log (ok _, (c, b)) (on, (present, _)) h p = present p
  Promised-IsComplete log (raised e, (c, b)) (_, (off, _)) h p = absurd (apart c.started h off)

  start-again : (c : Container H) (b : B) → c.started ≡ true → start w (c, b) ≡ (ok tt, (c, b))
  unfolding start
  start-again c b h =
      ap (λ started. if started then (ok tt, (c, b)) else started_by w (init_all w (c, b))) h

  start-IsComplete : (c : Container H) (b : B) → IsComplete c → IsComplete (start w (c, b)).1.0
  start-IsComplete c b before = elim (Bool-cases c.started) [
    | inl on ↦ subst (λ m. IsComplete m.1.0) (sym (start-again c b on)) before
    | inr off ↦ Promised-IsComplete c.log (start w (c, b)) (start_lem w c b off)
  ]

  stop-again : (c : Container H) (b : B) → c.started ≡ false → stop w (c, b) ≡ (c, b)
  unfolding stop
  stop-again c b h =
      ap (λ started. if started then set_stopped w (teardown_all w (c, b)) else (c, b)) h

  stop-off : (c : Container H) (b : B) → (stop w (c, b)).0.started ≡ false
  stop-off c b = elim (Bool-cases c.started) [
    | inl on ↦ (stop_lem w c b on).0
    | inr off ↦ ap (λ x. x.0.started) (stop-again c b off) ∙ off
  ]

  stop-IsComplete : (c : Container H) (b : B) → IsComplete (stop w (c, b)).0
  stop-IsComplete c b h p = absurd (apart (stop w (c, b)).0.started h (stop-off c b))

  Reachable-IsComplete : (c : Container H) → Reachable w c → IsComplete c
  unfolding new_container restart
  Reachable-IsComplete _ at_first h p = absurd (apart false h refl)
  Reachable-IsComplete _ (by_start c b r) h p = start-IsComplete c b (Reachable-IsComplete c r) h p
  Reachable-IsComplete _ (by_stop c b r) h p = stop-IsComplete c b h p
  Reachable-IsComplete _ (by_restart c b r) h p =
      let (c', b') = stop w (c, b) in start-IsComplete c' b' (stop-IsComplete c b) h p

  -- Whatever was started, stopped and restarted before, and whatever raised then: a property of the
  -- container gives a component, never None, or raises a RuntimeError, which it does exactly when the
  -- container is not started.
  pub service_lem : (c : Container H) (p : Part) → Reachable w c → Served p c
  unfolding service
  service_lem c p r = elim (Bool-cases c.started) [
    | inl on ↦
        let (h, e) = Reachable-IsComplete c r on p in
        inl (
          on,
          (
            h,
            ap (λ started. if started then ok (c.parts p) else raised runtime_error) on ∙ ap ok e,
          ),
        )
    | inr off ↦
        inr (off, ap (λ started. if started then ok (c.parts p) else raised runtime_error) off)
  ]

  asked-Answers :
      {A : Type 0} (o : Option H) (ask : H → Outcome A)
      → (h : H) × (o ≡ some h)
      → ((h : H) → Answers (ask h))
      → Answers (asked w o ask)
  asked-Answers o ask (h, e) answers =
      subst (λ found. Answers (asked w found ask)) (sym e) (answers h)

  -- The health check of such a container returns, also when asking the storage raises.
  pub health_check_lem : (c : Container H) (b : B) → Reachable w c → Answers (health_check w (c, b))
  unfolding health_check
  health_check_lem c b r =
      either c.started _ _ (_, refl)
        λ on.
          let there = Reachable-IsComplete c r on in
          asked-Answers (c.parts feed_svc) _ (there feed_svc) λ feed.
            asked-Answers (c.parts strategy_eng) _ (there strategy_eng)
              λ engine. asked-Answers (c.parts broker_svc) _ (there broker_svc) λ broker. (_, refl)

  init_all-raised :
      (c : Container H) (b b' : B) (e : _)
      → w.make pg c.parts b ≡ (raised e, b')
      → init_all w (c, b) ≡ (raised e, (c, b'))
  unfolding init_all init_storage launch create
  init_all-raised c b b' e h = rw h refl

  -- A started container is restarted and PostgresClient() raises: a RuntimeError, and every component
  -- that was there has been stopped twice.
  pub restart-twice :
      (c : Container H) (b b' : B) (e : _)
      → c.started ≡ true
      → w.make pg c.parts (stop w (c, b)).1 ≡ (raised e, b')
      → let (answer, (c', _)) = restart w (c, b) in
        let stops = calls stopped teardown_steps c.parts in
        (answer ≡ raised runtime_error) × (c'.log ≡ (c.log ++ stops) ++ stops)
  unfolding restart
  restart-twice c b b' e on h =
      let (c1, b1) = stop w (c, b) in
      let (off, (parts, log)) = stop_lem w c b on in
      let fails = ap (λ ps. w.make pg ps b1) parts ∙ h in
      let same = start-stopped w c1 b1 off ∙ ap (started_by w) (init_all-raised c1 b1 b' e fails) in
      let (_, _, logged) = teardown_all_lem w c1 b' in
      (
        ap (λ m. m.0) same,
        ap (λ m. m.1.0.log) same
            ∙ (logged
                ∙ (ap (λ l. l ++ calls stopped teardown_steps c1.parts) log
                    ∙ ap
                        (λ ps.
                          (c.log ++ calls stopped teardown_steps c.parts)
                          ++ calls stopped teardown_steps ps)
                        parts)),
      )
