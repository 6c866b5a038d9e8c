-- ===== src/Tests/Services.antt =====
-- The broker service, the data service and date ranges on concrete values.
use nexa_trade.Prelude.{
  ℕ, ◌+◌, ◌≡◌, true, false, none, some, List, [], ◌∷◌, ◌++◌, if◌then◌else◌, arith,
}
use nexa_trade.Prelude.Int.{pos}
use nexa_trade.Text.{codes, text_eq}
use nexa_trade.Outcome.{ok, raised, connection_error, Returns}
use nexa_trade.Float.Fixed.{Fixed, fixed_float}
use nexa_trade.Models.Enums.{ConnectionState}
use nexa_trade.Brokers.{Adapters, name_or}
use nexa_trade.BrokerService.{BrokerService, new_service, switch_broker}
use nexa_trade.BrokerService.Wiring.{Started, switch_broker_lem}
use nexa_trade.BrokerService.Switch.{Same}
use nexa_trade.DataService.{Tables, get_ohlcv}
use nexa_trade.DataService.Cache.{get_ohlcv-get_ohlcv}
use nexa_trade.Timing.Chunks.{date_range_chunks, Covers, date_range_chunks_lem}

-- Paper connects, the other broker raises.
abbrev adapters : Adapters ℕ
adapters = record {
  import_adapters = ok tt;
  active_broker = codes "paper";
  initial = λ name. 0;
  connect = λ name n. (
    if text_eq name (codes "paper") then ok true else raised connection_error,
    ConnectionState.connected,
    n + 1,
  );
  disconnect = λ name n. (ok tt, ConnectionState.disconnected, n);
  is_connected = λ name n. (ok true, n);
}

abbrev service : BrokerService ℕ
service = record new_service { tick_subscribers = 4 ∷ 5 ∷ []; order_subscribers = 6 ∷ [] }

switch_broker_lem_example :
    Started
      (name_or (some (codes " Paper")) (codes "paper"))
      (switch_broker adapters (codes " Paper") service)
    × Same adapters service (switch_broker adapters (codes " Paper") service).1
switch_broker_lem_example = switch_broker_lem adapters (codes " Paper") service

-- Tables are lists of closes, and InfluxDB has nothing.
abbrev tables : Tables ℕ (List ℕ) Fixed
tables = record {
  is_empty = λ d. elim d [ [] ↦ true | _ ∷ _ ↦ false ];
  rows = λ d. 1;
  merge = λ a b. a ++ b;
  validate_and_clean = λ d. d;
  requested_days = λ a b. pos 1;
  today = λ r. codes "2024-01-02";
  active_broker_name = λ r. codes "paper";
  fetch_from_influx = λ k b r. ([], r);
  fetch_from_broker = λ k r. (r ∷ [], r + 1);
  write_to_influx = λ k b d r. r;
}

get_ohlcv-get_ohlcv_example :
    let (d, c, r) =
      get_ohlcv tables
        (codes "INFY")
        (codes "NSE")
        (codes "1day")
        (codes "2024-01-01")
        (some (codes "2024-01-02"))
        none
        false
        []
        7 in
    get_ohlcv tables
      (codes "INFY")
      (codes "NSE")
      (codes "1day")
      (codes "2024-01-01")
      (some (codes "2024-01-02"))
      (some (codes "breeze"))
      false
      c
      r
    ≡ (d, c, r)
get_ohlcv-get_ohlcv_example =
    get_ohlcv-get_ohlcv tables (codes "INFY") (codes "NSE") (codes "1day") (codes "2024-01-01") b'2'
      (codes "024-01-02") none (some (codes "breeze")) false [] 7

date_range_chunks_lem_example : Returns (Covers 0 200 1) (date_range_chunks 200 0 200 1)
date_range_chunks_lem_example = date_range_chunks_lem 200 0 200 1 (ground arith) (ground arith)
