-- ===== src/Brokers.antt =====
-- brokers/registry.py, and of brokers/abstract_broker.py what every adapter has: its name, its
-- connection state and its callbacks. The methods of an adapter are parameters; none of them touches
-- the callback lists.
use nexa_trade.Prelude.{
  ℕ, ◌+◌, ◌&&◌, Bool, Option, none, some, List, [], ◌∷◌, leb, get_or, if◌then◌else◌,
}
use nexa_trade.Text.{Text, codes, text_eq, in_list, upper}
use nexa_trade.Dict.{Dict, lookup}
use nexa_trade.Outcome.{Outcome, ok, raised, value_error, ◌>>=◌, ◌>>◌}
use nexa_trade.Models.Enums.{ConnectionState}
use nexa_trade.Models.Symbol.{strip}
use nexa_trade.Callbacks.{register, unregister}

-- `str.lower` on ASCII
unfoldable pub lower : Text → Text
lower [] = []
lower (c ∷ t) = (if leb 65 c && leb c 90 then c + 32 else c) ∷ lower t

pub record Broker (S : Type 0) : Type 0 where
  pub broker_name : Text
  pub connection_state : ConnectionState
  pub tick_callbacks : List ℕ
  pub order_callbacks : List ℕ
  pub own : S

-- What importing `brokers.adapters` in `_build_registry` raises, if anything (the tree has no such
-- package), the adapters' methods by the broker's name, and the setting `active_broker`. `connect` and
-- `disconnect` give the connection state with which they end.
pub record Adapters (S : Type 0) : Type 0 where
  pub import_adapters : Outcome (Unit {0})
  pub active_broker : Text
  pub initial : Text → S
  pub connect : Text → S → Outcome Bool × ConnectionState × S
  pub disconnect : Text → S → Outcome (Unit {0}) × ConnectionState × S
  pub is_connected : Text → S → Outcome Bool × S

-- The keys of `_build_registry()`
abbrev pub registered : List Text
registered = codes "breeze" ∷ codes "paper" ∷ []

abbrev pub key_of : Text → Text
key_of broker_name = strip (lower broker_name)

-- Whether a name, lowered and stripped, is a key of the registry
unfoldable pub is_registered : Text → Bool
is_registered broker_name = in_list (key_of broker_name) registered

abbrev pub name_or : Option Text → Text → Text
name_or none active_broker = active_broker
name_or (some []) active_broker = active_broker
name_or (some (c ∷ t)) active_broker = c ∷ t

-- The code tables of a broker's configuration. A text that is not in its table stands for itself.
pub record BrokerConfig : Type 0 where
  pub exchange_map : Dict Text
  pub order_type_map : Dict Text
  pub transaction_type_map : Dict Text
  pub interval_map : Dict Text

unfoldable pub get_exchange_code : BrokerConfig → Text → Text
get_exchange_code cfg exchange = get_or (lookup (upper exchange) cfg.exchange_map) (upper exchange)

unfoldable pub get_order_type_code : BrokerConfig → Text → Text
get_order_type_code cfg order_type =
    get_or (lookup (upper order_type) cfg.order_type_map) (upper order_type)

unfoldable pub get_transaction_type_code : BrokerConfig → Text → Text
get_transaction_type_code cfg txn_type =
    get_or (lookup (upper txn_type) cfg.transaction_type_map) (upper txn_type)

unfoldable pub get_interval_code : BrokerConfig → Text → Text
get_interval_code cfg interval = get_or (lookup interval cfg.interval_map) interval

module _ {S : Type 0} where
  -- `AbstractBroker.__init__`
  unfoldable pub new_broker : Text → S → Broker S
  new_broker broker_name own = record {
    broker_name = broker_name;
    connection_state = ConnectionState.disconnected;
    tick_callbacks = [];
    order_callbacks = [];
    own = own;
  }

  unfoldable pub is_broker_registered : Adapters S → Text → Outcome Bool
  is_broker_registered w broker_name = w.import_adapters >> ok (is_registered broker_name)

  -- `get_broker_class`: the name of the class that is found
  unfoldable pub get_broker_class : Adapters S → Text → Outcome Text
  get_broker_class w broker_name =
      w.import_adapters
      >> (if is_registered broker_name then ok (key_of broker_name) else raised value_error)

  unfoldable pub get_broker : Adapters S → Option Text → Outcome (Broker S)
  get_broker w broker_name =
      get_broker_class w (key_of (name_or broker_name w.active_broker)) >>= λ name.
      ok (new_broker name (w.initial name))

  unfoldable pub register_tick_callback : ℕ → Broker S → Broker S
  register_tick_callback callback b = record b {
    tick_callbacks = register callback b.tick_callbacks;
  }

  unfoldable pub register_order_callback : ℕ → Broker S → Broker S
  register_order_callback callback b = record b {
    order_callbacks = register callback b.order_callbacks;
  }

  unfoldable pub unregister_tick_callback : ℕ → Broker S → Broker S
  unregister_tick_callback callback b = record b {
    tick_callbacks = unregister callback b.tick_callbacks;
  }

  unfoldable pub unregister_order_callback : ℕ → Broker S → Broker S
  unregister_order_callback callback b = record b {
    order_callbacks = unregister callback b.order_callbacks;
  }

  abbrev pub is_paper : Broker S → Bool
  is_paper b = text_eq b.broker_name (codes "paper")

  unfoldable pub connect : Adapters S → Broker S → Outcome Bool × Broker S
  connect w b =
      let (answer, state, own) = w.connect b.broker_name b.own in
      (answer, record b { connection_state = state; own = own })

  unfoldable pub disconnect : Adapters S → Broker S → Outcome (Unit {0}) × Broker S
  disconnect w b =
      let (answer, state, own) = w.disconnect b.broker_name b.own in
      (answer, record b { connection_state = state; own = own })
