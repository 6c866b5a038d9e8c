-- ===== src/BrokerService.antt =====
-- services/broker_service.py, class BrokerService: one broker at a time, its start, its stop and the
-- switch to another, the subscribers of its events, and the reconnecting. The service's own two
-- handlers, which it registers with the broker, are the callback 0 of either list.
pub mod Wiring
pub mod Switch
use nexa_trade.Prelude.{
  ℕ, zero, suc, Bool, true, false, not, ◌&&◌, Option, none, some, List, [], ◌∷◌, if◌then◌else◌,
}
use nexa_trade.Text.{Text}
use nexa_trade.Outcome.{Outcome, ok, raised}
use nexa_trade.Callbacks.{register, unregister}
use nexa_trade.Brokers.{
  Broker, Adapters, get_broker, register_tick_callback, register_order_callback, connect,
  disconnect, is_paper,
}

pub record BrokerService (S : Type 0) : Type 0 where
  pub broker : Option (Broker S)
  pub has_watchdog : Bool
  pub is_running : Bool
  pub tick_subscribers : List ℕ
  pub order_subscribers : List ℕ

abbrev pub internal_handler : ℕ
internal_handler = 0

-- The loops of `switch_broker` that register the subscribers again
unfoldable pub register_all : List ℕ → List ℕ → List ℕ
register_all [] cs = cs
register_all (c ∷ more) cs = register_all more (register c cs)

module _ {S : Type 0} where
  -- `BrokerService()`
  abbrev pub new_service : BrokerService S
  new_service = record {
    broker = none;
    has_watchdog = false;
    is_running = false;
    tick_subscribers = [];
    order_subscribers = [];
  }

  unfoldable pub register_tick_subscriber : ℕ → BrokerService S → BrokerService S
  register_tick_subscriber c s = record s { tick_subscribers = register c s.tick_subscribers }

  unfoldable pub register_order_subscriber : ℕ → BrokerService S → BrokerService S
  register_order_subscriber c s = record s { order_subscribers = register c s.order_subscribers }

  unfoldable pub unregister_tick_subscriber : ℕ → BrokerService S → BrokerService S
  unregister_tick_subscriber c s = record s { tick_subscribers = unregister c s.tick_subscribers }

  unfoldable pub unregister_order_subscriber : ℕ → BrokerService S → BrokerService S
  unregister_order_subscriber c s = record s {
    order_subscribers = unregister c s.order_subscribers;
  }

module _ {S : Type 0} (w : Adapters S) where
  -- `start` once `connect` has answered
  unfoldable pub connected :
      Bool → Outcome Bool → Broker S → BrokerService S → Outcome Bool × BrokerService S
  connected auto_reconnect (ok true) b s = (
    ok true,
    record s {
      broker = some b;
      is_running = true;
      has_watchdog = if auto_reconnect && not (is_paper b) then true else s.has_watchdog;
    },
  )
  connected auto_reconnect (ok false) b s = (ok false, record s { broker = some b })
  connected auto_reconnect (raised e) b s = (raised e, record s { broker = some b })

  unfoldable pub start_broker :
      Bool → Outcome (Broker S) → BrokerService S → Outcome Bool × BrokerService S
  start_broker auto_reconnect (raised e) s = (raised e, s)
  start_broker auto_reconnect (ok b) s =
      let wired =
        register_order_callback internal_handler (register_tick_callback internal_handler b) in
      let (answer, b') = connect w wired in connected auto_reconnect answer b' s

  unfoldable pub start : Option Text → Bool → BrokerService S → Outcome Bool × BrokerService S
  start broker_name auto_reconnect s = start_broker auto_reconnect (get_broker w broker_name) s

  -- `stop`: what the broker's `disconnect` raises goes to the caller, and the broker stays.
  unfoldable pub drop_broker :
      Option (Broker S) → BrokerService S → Outcome (Unit {0}) × BrokerService S
  drop_broker none s = (ok tt, s)
  drop_broker (some b) s = elim (disconnect w b).0 [
    | ok _ ↦ (ok tt, record s { broker = none })
    | raised e ↦ (raised e, record s { broker = some (disconnect w b).1 })
  ]

  unfoldable pub stop : BrokerService S → Outcome (Unit {0}) × BrokerService S
  stop s = drop_broker s.broker (record s { is_running = false; has_watchdog = false })

  -- `switch_broker` after `stop`, and after `start`
  unfoldable pub subscribe_again :
      List ℕ → List ℕ → Outcome Bool × BrokerService S → Outcome Bool × BrokerService S
  subscribe_again tick_subs order_subs (ok true, s) = (
    ok true,
    record s {
      tick_subscribers = register_all tick_subs s.tick_subscribers;
      order_subscribers = register_all order_subs s.order_subscribers;
    },
  )
  subscribe_again tick_subs order_subs (answer, s) = (answer, s)

  unfoldable pub start_next :
      List ℕ → List ℕ → Text → Outcome (Unit {0}) × BrokerService S → Outcome Bool × BrokerService S
  start_next tick_subs order_subs name (raised e, s) = (raised e, s)
  start_next tick_subs order_subs name (ok _, s) =
      subscribe_again tick_subs order_subs (start (some name) true s)

  unfoldable pub switch_broker : Text → BrokerService S → Outcome Bool × BrokerService S
  switch_broker name s = start_next s.tick_subscribers s.order_subscribers name (stop s)

  -- The reconnecting attempts of the watchdog, until one succeeds; what they raise is logged.
  unfoldable pub reconnect : ℕ → Broker S → Bool × Broker S
  reconnect zero b = (false, b)
  reconnect (suc attempts) b = elim (connect w b).0 [
    | ok true ↦ (true, (connect w b).1)
    | _ ↦ reconnect attempts (connect w b).1
  ]

  abbrev pub is_alive : Outcome Bool → Bool
  is_alive (ok alive) = alive
  is_alive (raised e) = false

  -- One round of `_reconnect_watchdog`
  unfoldable pub check_broker : ℕ → Option (Broker S) → BrokerService S → BrokerService S
  check_broker max_attempts none s = s
  check_broker max_attempts (some b) s =
      let (answer, own) = w.is_connected b.broker_name b.own in
      let asked : Broker S = record b { own = own } in
      let (_, again) = reconnect max_attempts asked in
      record s { broker = some (if is_alive answer then asked else again) }

  unfoldable pub watch : ℕ → BrokerService S → BrokerService S
  watch max_attempts s = if s.is_running then check_broker max_attempts s.broker s else s
