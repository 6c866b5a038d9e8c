-- ===== src/Paper/Portfolio.antt =====
-- brokers/brokers/paper/paper_adapter.py: the reports `get_positions`, `get_funds`, `get_paper_pnl`
-- and `get_quote`. The initial capital comes from the configuration.
pub mod Keys
use nexa_trade.Prelude.{
  ℕ, Bool, true, false, Option, none, some, List, [], ◌∷◌, ◌++◌, if◌then◌else◌, ◌==◌, get_or,
}
use nexa_trade.Prelude.Int.{ℤ, pos, eqb_ℤ, abs_ℤ}
use nexa_trade.Text.{Text, upper}
use nexa_trade.Dict.{Dict, lookup}
use nexa_trade.Float.{Float, ◌⊕◌, ◌⊖◌, ◌⊗◌, nought, max_f}
use nexa_trade.Outcome.{Outcome, ok, raised, value_error, validation_error, ◌>>=◌}
use nexa_trade.Models.Enums.{Exchange, Segment, TradingMode, exchange_of, segment_of}
use nexa_trade.Models.Symbol.{normalise_symbol}
use nexa_trade.Models.Market.{Position, Quote}
use nexa_trade.Paper.Positions.{PaperPosition}
use nexa_trade.Paper.State.{Paper, broker_name}

-- A character before the first piece of a text that was split.
unfoldable pub push_first : ℕ → List Text → List Text
push_first c [] = (c ∷ []) ∷ []
push_first c (piece ∷ pieces) = (c ∷ piece) ∷ pieces

-- `text.split(":")`
unfoldable pub split_colon : Text → List Text
unfolding push_first
split_colon [] = [] ∷ []
split_colon (c ∷ t) = if c == b':' then [] ∷ split_colon t else push_first c (split_colon t)

-- `symbol, exchange, segment = key.split(":")`
unfoldable pub unpack_key : List Text → Outcome (Text × Text × Text)
unpack_key (symbol ∷ exchange ∷ segment ∷ []) = ok (symbol, exchange, segment)
unpack_key _ = raised value_error

-- A field of an enumeration, validated from its text.
abbrev pub validated {ℓ} : {A : Type ℓ} → Option A → Outcome A
validated none = raised validation_error
validated (some a) = ok a

pub record Funds (F : Type 0) : Type 0 where
  pub available_cash : F
  pub used_margin : F
  pub total_balance : F

module _ {F : Type 0} ⦃f : Float F⦄ where
  unfoldable pub report : Dict F → Text → PaperPosition F → Outcome (Position F)
  unfolding split_colon unpack_key
  report last_prices key p = do
    (symbol, exchange_code, segment_name) ← unpack_key (split_colon key)
    exchange ← validated (exchange_of exchange_code)
    segment ← validated (segment_of segment_name)
    let ltp = get_or (lookup symbol last_prices) p.average_price
    ok (record {
      symbol = normalise_symbol symbol;
      exchange = exchange;
      segment = segment;
      broker_name = broker_name;
      trading_mode = TradingMode.paper;
      quantity = p.quantity;
      average_price = p.average_price;
      last_price = ltp;
      unrealized_pnl = f.round 4 ((ltp ⊖ p.average_price) ⊗ f.of_ℤ p.quantity);
      realized_pnl = f.round 4 p.realized_pnl;
    })

  -- Flat positions are left out.
  unfoldable pub report_all : Dict F → Dict (PaperPosition F) → Outcome (List (Position F))
  report_all last_prices [] = ok []
  report_all last_prices ((key, p) ∷ book) =
      if eqb_ℤ p.quantity (pos 0)
      then report_all last_prices book
      else (do r ← report last_prices key p; rs ← report_all last_prices book; ok (r ∷ rs))

  unfoldable pub get_positions : Paper F → Outcome (List (Position F))
  get_positions s = report_all s.last_prices s.positions

  -- `sum(...)`, from the left.
  unfoldable pub used_margin : F → Dict (PaperPosition F) → F
  used_margin acc [] = acc
  used_margin acc ((_, p) ∷ book) =
      used_margin (acc ⊕ f.of_ℤ (abs_ℤ p.quantity) ⊗ p.average_price) book

  unfoldable pub get_funds : F → Paper F → Funds F
  get_funds initial_capital s =
      let used = used_margin nought s.positions in
      record {
        available_cash = f.round 2 (max_f nought (initial_capital ⊖ used));
        used_margin = f.round 2 used;
        total_balance = f.round 2 initial_capital;
      }

  unfoldable pub total_realized : F → Dict (PaperPosition F) → F
  total_realized acc [] = acc
  total_realized acc ((_, p) ∷ book) = total_realized (acc ⊕ p.realized_pnl) book

  unfoldable pub get_paper_pnl : Paper F → F
  get_paper_pnl s = f.round 4 (total_realized nought s.positions)

  -- The quote of a symbol without a price is 0.
  unfoldable pub get_quote : ℕ → Text → Text → Paper F → Outcome (Quote F)
  get_quote now symbol exchange_code s = do
    exchange ← validated (exchange_of (upper exchange_code))
    ok (record {
      symbol = normalise_symbol (upper symbol);
      exchange = exchange;
      broker_name = broker_name;
      last_price = get_or (lookup (upper symbol) s.last_prices) nought;
      timestamp = some now;
    })

  unfoldable pub get_quotes : ℕ → List (Text × Text) → Paper F → Outcome (List (Quote F))
  get_quotes now [] s = ok []
  get_quotes now ((symbol, exchange) ∷ rest) s = do
    q ← get_quote now symbol exchange s
    qs ← get_quotes now rest s
    ok (q ∷ qs)
