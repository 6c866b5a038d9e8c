-- ===== src/Container.antt =====
-- container.py, class Container: what it makes, starts and stops, in which order, and what an exception
-- on the way leaves. Making, starting, stopping and asking a component are parameters, which may raise
-- at every call; each call that reaches a component is kept in a log.
pub mod Steps
pub mod Startup
pub mod Shutdown
pub mod Access
use nexa_trade.Prelude.{
  ℕ, Bool, true, false, not, Option, none, some, List, [], ◌∷◌, ◌++◌, ◌==◌, get_or, if◌then◌else◌,
}
use nexa_trade.Text.{Text, codes}
use nexa_trade.Outcome.{Outcome, ok, raised, runtime_error, attribute_error}

-- The attributes of the container that hold a component.
pub data Part : Type 0 where
  pg influx redis broker_svc data_svc feed_svc risk_mgr strategy_eng backtest_runner : Part

-- Their place in the order in which `start` makes them.
abbrev pub rank : Part → ℕ
rank pg = 0
rank influx = 1
rank redis = 2
rank broker_svc = 3
rank data_svc = 4
rank feed_svc = 5
rank risk_mgr = 6
rank strategy_eng = 7
rank backtest_runner = 8

-- `initialise` or `start` of an object, and its `shutdown` or `stop`
pub data Call (H : Type 0) : Type 0 where
  begun stopped : Part → H → Call H

-- `started` is `_started`, and `parts` are the attributes.
pub record Container (H : Type 0) : Type 0 where
  pub started : Bool
  pub parts : Part → Option H
  pub log : List (Call H)

-- `DataService.health_check`, by `.get("influx_ok", False)` and `.get("broker_ok", False)`.
pub record DataHealth : Type 0 where
  pub influx_ok : Option Bool
  pub broker_ok : Option Bool

-- The components: the constructors, what starts and stops an object, and what the health check asks.
pub record Components (B H : Type 0) : Type 1 where
  pub make : Part → (Part → Option H) → B → Outcome H × B
  pub begin_ : Part → H → B → Outcome Bool × B
  pub end_ : Part → H → B → Outcome (Unit {0}) × B
  pub redis_health : H → B → Outcome Bool
  pub data_health : H → B → Outcome DataHealth
  pub is_running : Part → H → B → Bool
  pub is_connected : H → B → Bool

-- `Container()`
unfoldable pub new_container : {H : Type 0} → Container H
new_container = record { started = false; parts = λ p. none; log = [] }

-- An attribute set.
unfoldable pub put : {H : Type 0} → Part → H → Container H → Container H
put p h c = record c { parts = λ q. if rank q == rank p then some h else c.parts q }

unfoldable pub note_call : {H : Type 0} → Call H → Container H → Container H
note_call call c = record c { log = c.log ++ call ∷ [] }

-- `_assert_started` and the property of a component
unfoldable pub assert_started : {H : Type 0} → Container H → Outcome (Unit {0})
assert_started c = if c.started then ok tt else raised runtime_error

unfoldable pub service : {H : Type 0} → Part → Container H → Outcome (Option H)
service p c = if c.started then ok (c.parts p) else raised runtime_error

-- The steps of `_teardown_all`
abbrev pub teardown_steps : List Part
teardown_steps = strategy_eng ∷ feed_svc ∷ broker_svc ∷ redis ∷ influx ∷ pg ∷ []

module _ {B H : Type 0} (w : Components B H) where
  -- A statement after another: not run when the first has raised.
  abbrev pub after :
      Outcome (Unit {0}) × (Container H × B)
      → (Container H × B → Outcome (Unit {0}) × (Container H × B))
      → Outcome (Unit {0}) × (Container H × B)
  after (raised e, x) next = (raised e, x)
  after (ok _, x) next = next x

  -- `self._x = X(...)`
  abbrev pub made : Part → Container H → Outcome H × B → Outcome (Unit {0}) × (Container H × B)
  made p c (raised e, b) = (raised e, (c, b))
  made p c (ok h, b) = (ok tt, (put p h c, b))

  unfoldable pub create : Part → Container H × B → Outcome (Unit {0}) × (Container H × B)
  create p (c, b) = made p c (w.make p c.parts b)

  -- `await self._x.initialise()`, `await self._x.start()`: the answer is only logged.
  abbrev pub dropped : {A : Type 0} → Outcome A → Outcome (Unit {0})
  dropped (raised e) = raised e
  dropped (ok a) = ok tt

  abbrev pub begin_by : Part → Container H × B → Option H → Outcome (Unit {0}) × (Container H × B)
  begin_by p (c, b) none = (raised attribute_error, (c, b))
  begin_by p (c, b) (some h) =
      let (answer, b') = w.begin_ p h b in (dropped answer, (note_call (begun p h) c, b'))

  unfoldable pub begin : Part → Container H × B → Outcome (Unit {0}) × (Container H × B)
  begin p (c, b) = begin_by p (c, b) (c.parts p)

  unfoldable pub launch : Part → Container H × B → Outcome (Unit {0}) × (Container H × B)
  launch p x = after (create p x) (begin p)

  unfoldable pub init_storage : Container H × B → Outcome (Unit {0}) × (Container H × B)
  init_storage x = after (after (launch pg x) (launch influx)) (launch redis)

  unfoldable pub init_broker : Container H × B → Outcome (Unit {0}) × (Container H × B)
  init_broker x = launch broker_svc x

  unfoldable pub init_services : Container H × B → Outcome (Unit {0}) × (Container H × B)
  init_services x = after (after (create data_svc x) (launch feed_svc)) (create risk_mgr)

  unfoldable pub init_engine : Container H × B → Outcome (Unit {0}) × (Container H × B)
  init_engine x = after (launch strategy_eng x) (create backtest_runner)

  -- The `try` block of `start`, up to `self._started = True`
  unfoldable pub init_all : Container H × B → Outcome (Unit {0}) × (Container H × B)
  init_all x = after (after (after (init_storage x) init_broker) init_services) init_engine

  -- `_stop_strategy_engine` and the others: nothing for an attribute that is not set
  abbrev pub stop_by : Part → Container H × B → Option H → Outcome (Unit {0}) × (Container H × B)
  stop_by p x none = (ok tt, x)
  stop_by p (c, b) (some h) =
      let (answer, b') = w.end_ p h b in (answer, (note_call (stopped p h) c, b'))

  unfoldable pub stop_part : Part → Container H × B → Outcome (Unit {0}) × (Container H × B)
  stop_part p (c, b) = stop_by p (c, b) (c.parts p)

  -- Its loop: an exception of a step is only logged.
  unfoldable pub run_steps : List Part → Container H × B → Container H × B
  run_steps [] x = x
  run_steps (p ∷ ps) x = run_steps ps (stop_part p x).1

  unfoldable pub teardown_all : Container H × B → Container H × B
  teardown_all x = run_steps teardown_steps x

  abbrev pub started_by :
      Outcome (Unit {0}) × (Container H × B) → Outcome (Unit {0}) × (Container H × B)
  started_by (ok _, (c, b)) = (ok tt, (record c { started = true }, b))
  started_by (raised e, x) = (raised runtime_error, teardown_all x)

  unfoldable pub start : Container H × B → Outcome (Unit {0}) × (Container H × B)
  start (c, b) = if c.started then (ok tt, (c, b)) else started_by (init_all (c, b))

  abbrev pub set_stopped : Container H × B → Container H × B
  set_stopped (c, b) = (record c { started = false }, b)

  unfoldable pub stop : Container H × B → Container H × B
  stop (c, b) = if c.started then set_stopped (teardown_all (c, b)) else (c, b)

  unfoldable pub restart : Container H × B → Outcome (Unit {0}) × (Container H × B)
  restart x = start (stop x)

  -- `health_check`
  abbrev pub redis_row : Outcome Bool → Bool
  redis_row (ok answer) = answer
  redis_row (raised e) = false

  abbrev pub data_rows : Outcome DataHealth → List (Text × Bool)
  data_rows (ok health) =
      (codes "influxdb", get_or health.influx_ok false)
      ∷ (codes "broker", get_or health.broker_ok false)
      ∷ []
  data_rows (raised e) = (codes "influxdb", false) ∷ (codes "broker", false) ∷ []

  -- A call of a method of None raises, which the two blocks for the storage catch.
  abbrev pub asked : {A : Type 0} → Option H → (H → Outcome A) → Outcome A
  asked none ask = raised attribute_error
  asked (some h) ask = ask h

  unfoldable pub health_check : Container H × B → Outcome (List (Text × Bool))
  health_check (c, b) =
      if not c.started
      then ok ((codes "container", false) ∷ [])
      else (asked (c.parts feed_svc) λ feed. asked (c.parts strategy_eng) λ engine.
          asked (c.parts broker_svc) λ broker. ok (
            (codes "container", true)
            ∷ (codes "redis", redis_row (asked (c.parts redis) λ h. w.redis_health h b))
            ∷ (data_rows (asked (c.parts data_svc) λ h. w.data_health h b)
                ++ (codes "feed_running", w.is_running feed_svc feed b)
                  ∷ (codes "engine_running", w.is_running strategy_eng engine b)
                  ∷ (codes "broker_connected", w.is_connected broker b)
                  ∷ [])))
