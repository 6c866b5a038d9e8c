-- ===== src/Paper/State.antt =====
-- brokers/brokers/paper/paper_adapter.py: the fields of `PaperAdapter`, `connect` and `disconnect`.
-- The configuration file is read elsewhere: `connect` is given what reading it gave. The tasks that
-- `asyncio.create_task` schedules are a field, first scheduled first run.
use nexa_trade.Prelude.{ℕ, Bool, true, Option, List, [], get_or}
use nexa_trade.Prelude.Int.{ℤ, pos}
use nexa_trade.Text.{Text, codes}
use nexa_trade.Dict.{Dict}
use nexa_trade.Float.{Float}
use nexa_trade.Outcome.{Outcome, ok, raised, connection_error}
use nexa_trade.Models.Enums.{ConnectionState, OrderStatus}
use nexa_trade.Models.Order.{OrderRequest}
use nexa_trade.Models.Market.{Fill}
use nexa_trade.Paper.Positions.{PaperPosition}

pub record OpenOrder (F : Type 0) : Type 0 where
  pub request : OrderRequest F
  pub broker_order_id : Text
  pub status : OrderStatus
  pub placed_at : ℕ

pub record Paper (F : Type 0) : Type 0 where
  pub connection_state : ConnectionState
  pub open_orders : Dict (OpenOrder F)
  pub positions : Dict (PaperPosition F)
  pub fills : List (Fill F)
  pub last_prices : Dict F
  pub slippage_pct : F
  pub fill_delay_ms : ℤ
  pub commission_pct : F
  pub rejection_rate_pct : F
  pub tasks : List (Text × F)

-- The section `broker.simulation` of paper.yaml: a key that is not there takes its default.
pub record Simulation (F : Type 0) : Type 0 where
  pub slippage_pct : Option F
  pub fill_delay_ms : Option ℤ
  pub commission_pct : Option F
  pub rejection_rate_pct : Option F

-- `BROKER_NAME`
abbrev pub broker_name : Text
broker_name = codes "paper"

module _ {F : Type 0} ⦃f : Float F⦄ where
  -- `PaperAdapter()`
  unfoldable pub init : Paper F
  init = record {
    connection_state = ConnectionState.disconnected;
    open_orders = [];
    positions = [];
    fills = [];
    last_prices = [];
    slippage_pct = f.decimal 5 2;
    fill_delay_ms = pos 100;
    commission_pct = f.decimal 3 2;
    rejection_rate_pct = f.decimal 0 1;
    tasks = [];
  }

  unfoldable pub connect : Outcome (Simulation F) → Paper F → Outcome Bool × Paper F
  connect (ok sim) s = (
    ok true,
    record s {
      connection_state = ConnectionState.connected;
      slippage_pct = get_or sim.slippage_pct (f.decimal 5 2);
      fill_delay_ms = get_or sim.fill_delay_ms (pos 100);
      commission_pct = get_or sim.commission_pct (f.decimal 3 2);
      rejection_rate_pct = get_or sim.rejection_rate_pct (f.decimal 0 1);
    },
  )
  connect (raised _) s =
      (raised connection_error, record s { connection_state = ConnectionState.error })

  -- The fills and the settings outlive the session.
  unfoldable pub disconnect : Paper F → Paper F
  disconnect s = record s {
    connection_state = ConnectionState.disconnected;
    open_orders = [];
    positions = [];
    last_prices = [];
  }
