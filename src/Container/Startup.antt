-- ===== src/Container/Startup.antt =====
-- What a start leaves, whether it succeeds or raises on the way.
use nexa_trade.Prelude.{
  ◌≡◌, refl, sym, ap, ◌∙◌, true, false, some, List, [], ◌∷◌, ◌++◌, arith, if◌then◌else◌,
}
use mathlib.Core.List.{append-nil}
use mathlib.Core.Path.{subst}
use nexa_trade.Outcome.{Outcome, ok, raised, runtime_error}
use nexa_trade.Container.{
  Part, pg, influx, redis, broker_svc, data_svc, feed_svc, risk_mgr, strategy_eng, backtest_runner,
  Call, Components, begun, stopped, Container, Components, put, after, create, launch, init_storage,
  init_broker, init_services, init_engine, init_all, teardown_steps, started_by, start,
}
use nexa_trade.Container.Shutdown.{calls, teardown_all_lem}
use nexa_trade.Container.Steps.{
  reverse_steps, startup_steps, Present, Opened, Step, rank-bound, after-Step, create-Step,
  launch-Step,
}

-- What `start` promises, of its answer and of the container it leaves.
abbrev pub Promised :
    {B H : Type 0} → List (Call H) → Outcome (Unit {0}) × (Container H × B) → Type 0
Promised log (ok _, (c, b)) =
    (c.started ≡ true)
    × (((p : Part) → (h : _) × (c.parts p ≡ some h))
        × (c.log ≡ log ++ calls begun startup_steps c.parts))
Promised log (raised e, (c, b)) =
    (e ≡ runtime_error)
    × ((c.started ≡ false)
        × ((begun_ rest : List Part) × ((begun_ ++ rest ≡ startup_steps)
              × (c.log
                  ≡ (log ++ calls begun begun_ c.parts) ++ calls stopped reverse_steps c.parts))))

module _ {B H : Type 0} (w : Components B H) where
  storage-Step :
      (log : List (Call H)) (c : Container H) (b : B)
      → Opened log [] c
      → Step log (pg ∷ influx ∷ redis ∷ []) 3 (init_storage w (c, b))
  unfolding init_storage put
  storage-Step log c b o =
      let first = launch-Step w log [] _ pg c b refl refl (λ h. refl) o λ q k. ground (arith, k) in
      let second =
        after-Step w log (pg ∷ []) (pg ∷ influx ∷ []) 1 2 (launch w pg (c, b)) (launch w influx)
          first
          λ c' b' o' present.
            launch-Step w log (pg ∷ []) _ influx c' b' refl refl (λ h. refl) o' present in
      after-Step w log (pg ∷ influx ∷ []) (pg ∷ influx ∷ redis ∷ []) 2 3
        (after w (launch w pg (c, b)) (launch w influx)) (launch w redis) second
        λ c' b' o' present.
          launch-Step w log (pg ∷ influx ∷ []) _ redis c' b' refl refl (λ h. refl) o' present

  services-Step :
      (log : List (Call H)) (c : Container H) (b : B)
      → let done = pg ∷ influx ∷ redis ∷ broker_svc ∷ [] in
        Opened log done c
        → Present 4 c.parts
        → Step log (done ++ feed_svc ∷ []) 7 (init_services w (c, b))
  unfolding init_services put
  services-Step log c b o before =
      let done = pg ∷ influx ∷ redis ∷ broker_svc ∷ [] in
      let first = create-Step w log done _ data_svc c b refl (λ h. refl) o before in
      let second =
        after-Step w log done (done ++ feed_svc ∷ []) 5 6 (create w data_svc (c, b))
          (launch w feed_svc) first
          λ c' b' o' present.
            launch-Step w log done _ feed_svc c' b' refl refl (λ h. refl) o' present in
      after-Step w log (done ++ feed_svc ∷ []) (done ++ feed_svc ∷ []) 6 7
        (after w (create w data_svc (c, b)) (launch w feed_svc)) (create w risk_mgr) second
        λ c' b' o' present.
          create-Step w log (done ++ feed_svc ∷ []) _ risk_mgr c' b' refl (λ h. refl) o' present

  engine-Step :
      (log : List (Call H)) (c : Container H) (b : B)
      → Opened log (pg ∷ influx ∷ redis ∷ broker_svc ∷ feed_svc ∷ []) c
      → Present 7 c.parts
      → Step log startup_steps 9 (init_engine w (c, b))
  unfolding init_engine put
  engine-Step log c b o before =
      let done = pg ∷ influx ∷ redis ∷ broker_svc ∷ feed_svc ∷ [] in
      after-Step w log startup_steps startup_steps 8 9 (launch w strategy_eng (c, b))
        (create w backtest_runner)
        (launch-Step w log done _ strategy_eng c b refl refl (λ h. refl) o before)
        λ c' b' o' present.
          create-Step w log startup_steps [] backtest_runner c' b' refl (λ h. refl) o' present

  init_all-Step :
      (log : List (Call H)) (c : Container H) (b : B)
      → Opened log [] c
      → Step log startup_steps 9 (init_all w (c, b))
  unfolding init_all init_broker put
  init_all-Step log c b o =
      let stored = pg ∷ influx ∷ redis ∷ [] in
      let served = stored ++ broker_svc ∷ [] in
      let storage = init_storage w (c, b) in
      let brokered = after w storage (init_broker w) in
      let serviced = after w brokered (init_services w) in
      after-Step w log (served ++ feed_svc ∷ []) startup_steps 7 9 serviced (init_engine w)
        (after-Step w log served (served ++ feed_svc ∷ []) 4 7 brokered (init_services w)
          (after-Step w log stored served 3 4 storage (init_broker w) (storage-Step log c b o)
            λ c' b' o' present.
              launch-Step w log stored _ broker_svc c' b' refl refl (λ h. refl) o' present)
          (services-Step log))
        (engine-Step log)

  pub start-stopped :
      (c : Container H) (b : B)
      → c.started ≡ false
      → start w (c, b) ≡ started_by w (init_all w (c, b))
  unfolding start
  start-stopped c b h =
      ap (λ started. if started then (ok tt, (c, b)) else started_by w (init_all w (c, b))) h

  started_by-Promised :
      (log : List (Call H)) (m : Outcome (Unit {0}) × (Container H × B))
      → Step log startup_steps 9 m
      → Promised log (started_by w m)
  started_by-Promised log (ok _, (c, b)) ((off, o), present) =
      (refl, (λ p. present p (rank-bound p), o))
  started_by-Promised log (raised e, (c, b)) (done, rest, (order, (off, o))) =
      let (parts, started, logged) = teardown_all_lem w c b in
      (
        refl,
        (
          started ∙ off,
          (
            done,
            rest,
            (
              order,
              logged
                  ∙ subst
                      (λ ps.
                        c.log ++ calls stopped teardown_steps c.parts
                        ≡ (log ++ calls begun done ps) ++ calls stopped teardown_steps ps)
                      (sym parts) (ap (λ l. l ++ calls stopped teardown_steps c.parts) o),
            ),
          ),
        ),
      )

  -- A container that is not started is started: either all nine components are there, and six of them
  -- begun, in their order; or a RuntimeError is raised, a first part of the six was begun, the container is
  -- not started, and every one of the six that is there has been stopped, in the reverse order,
  -- whatever raised on the way, in the start or in the stops.
  pub start_lem : (c : Container H) (b : B) → c.started ≡ false → Promised c.log (start w (c, b))
  start_lem c b h = subst (Promised c.log) (sym (start-stopped c b h)) (
      started_by-Promised c.log (init_all w (c, b))
        (init_all-Step c.log c b (h, sym (append-nil c.log))))
