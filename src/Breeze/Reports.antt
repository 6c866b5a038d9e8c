-- ===== src/Breeze/Reports.antt =====
-- Quotes, positions, holdings, funds and ticks, made of the client's replies. Of a quote and of a tick
-- the depth and the prices of the day are read, which may raise, and not kept.
use nexa_trade.Prelude.{
  ℕ, Bool, true, false, Option, none, some, List, [], ◌∷◌, ◌++◌, ◌≡◌, refl, ap, ◌∙◌, if◌then◌else◌,
}
use nexa_trade.Text.{Text, codes, upper}
use nexa_trade.Dict.{Dict, lookup}
use nexa_trade.Float.{Float, nought, ◌⊕◌}
use nexa_trade.Outcome.{Outcome, ok, raised, ◌>>=◌}
use nexa_trade.Models.Enums.{Exchange, Segment, TradingMode, exchange_of}
use nexa_trade.Models.Symbol.{normalise_symbol}
use nexa_trade.Models.Market.{Quote, Position, TickData}
use nexa_trade.Paper.Portfolio.{Funds, validated}
use nexa_trade.Brokers.{BrokerConfig, get_exchange_code}
use nexa_trade.Breeze.{Breeze, Reply, Vendor}
use nexa_trade.Breeze.Orders.{Values, call, reply_of, rows_of, int_by, float_by, detail}
use nexa_trade.Breeze.Candles.{kept}

-- The client's reports.
pub record Account (B J : Type 0) : Type 0 where
  pub get_quotes : Text → Text → B → Outcome (Option (Reply J)) × B
  pub get_portfolio_positions : B → Outcome (Option (Reply J)) × B
  pub get_portfolio_holdings : B → Outcome (Option (Reply J)) × B
  pub get_funds : B → Outcome (Option (Reply J)) × B

kept-append : {A : Type 0} (m : Outcome A) (xs ys : List A) → kept m (xs ++ ys) ≡ kept m xs ++ ys
kept-append (ok a) xs ys = refl
kept-append (raised e) xs ys = refl

module _ {B J F : Type 0} ⦃f : Float F⦄ (w : Vendor B J) (a : Account B J) (v : Values J F) where
  -- `row.get("exchange_code", "NSE")`, validated: a value that is no text is no exchange.
  abbrev pub exchange_by : Option J → Outcome Exchange
  exchange_by none = ok Exchange.nse
  exchange_by (some x) = elim (v.as_text x) [
    | none ↦ validated none
    | some text ↦ validated (exchange_of text)
  ]

  -- `str(row.get(key, default))`
  abbrev pub text_or : Option J → Text → Text
  text_or none default_ = default_
  text_or (some x) default_ = v.str_of x

  abbrev pub float_at : Text → Dict J → Outcome F
  float_at key row = float_by w v (lookup key row)

  unfoldable pub quote_of : ℕ → Text → Text → Option (Reply J) → Outcome (Quote F)
  quote_of now symbol exchange reply = detail w v reply >>= λ row.
      float_at (codes "ltp") row >>= λ ltp. float_at (codes "previous_close") row >>= λ prev_close.
      float_at (codes "open") row >>= λ open_. float_at (codes "high") row >>= λ high.
      float_at (codes "low") row >>= λ low. float_at (codes "best_bid_price") row >>= λ bid.
      float_at (codes "best_offer_price") row >>= λ ask.
      int_by w v (lookup (codes "total_quantity_traded") row) >>= λ volume.
      validated (exchange_of (upper exchange)) >>= λ on. ok record {
        symbol = normalise_symbol (upper symbol);
        exchange = on;
        broker_name = codes "breeze";
        last_price = ltp;
        timestamp = some now;
      }

  unfoldable pub get_quote :
      BrokerConfig → ℕ → Text → Text → Breeze × B → Outcome (Quote F) × (Breeze × B)
  get_quote cfg now symbol exchange =
      call (a.get_quotes (upper symbol) (get_exchange_code cfg exchange))
        (quote_of now symbol exchange)

  -- The instruments are pairs of a symbol and an exchange; a quote that raises is left out.
  unfoldable pub get_quotes :
      BrokerConfig → ℕ → List (Text × Text) → Breeze × B → List (Quote F) × (Breeze × B)
  get_quotes cfg now [] x = ([], x)
  get_quotes cfg now ((symbol, exchange) ∷ instruments) x =
      let (answer, x') = get_quote cfg now symbol exchange x in
      let (rest, x'') = get_quotes cfg now instruments x' in (kept answer rest, x'')

  -- A row of the positions, or of the holdings, which have no profits.
  unfoldable pub position_of : Bool → Dict J → Outcome (Position F)
  position_of with_profits row = int_by w v (lookup (codes "quantity") row) >>= λ quantity.
      float_at (codes "average_cost") row >>= λ average. float_at (codes "ltp") row >>= λ ltp.
      (if with_profits then float_at (codes "unrealized_profit") row else ok nought)
      >>= λ unrealized.
          (if with_profits then float_at (codes "realized_profit") row else ok nought)
          >>= λ realized. exchange_by (lookup (codes "exchange_code") row) >>= λ exchange.
              ok record {
                symbol = normalise_symbol (text_or (lookup (codes "stock_code") row) []);
                exchange = exchange;
                segment = Segment.eq;
                broker_name = codes "breeze";
                trading_mode = TradingMode.live;
                quantity = quantity;
                average_price = average;
                last_price = ltp;
                unrealized_pnl = unrealized;
                realized_pnl = realized;
              }

  -- A row that raises is left out.
  unfoldable pub positions_of : Bool → List (Dict J) → List (Position F)
  positions_of with_profits [] = []
  positions_of with_profits (row ∷ rows) =
      kept (position_of with_profits row) (positions_of with_profits rows)

  -- Walking through a dict goes through its keys, texts that have no `get`: each is left out.
  abbrev pub items_of : Outcome (List (Dict J)) → List (Dict J)
  items_of (ok rows) = rows
  items_of (raised e) = []

  unfoldable pub all_positions : Bool → Option (Reply J) → Outcome (List (Position F))
  all_positions with_profits reply =
      reply_of reply >>= λ r. ok (positions_of with_profits (items_of (rows_of r.success)))

  unfoldable pub get_positions : Breeze × B → Outcome (List (Position F)) × (Breeze × B)
  get_positions = call a.get_portfolio_positions (all_positions true)

  unfoldable pub get_holdings : Breeze × B → Outcome (List (Position F)) × (Breeze × B)
  get_holdings = call a.get_portfolio_holdings (all_positions false)

  unfoldable pub funds_of : Option (Reply J) → Outcome (Funds F)
  funds_of reply = detail w v reply >>= λ row.
      float_at (codes "net_available_balance") row >>= λ available.
      float_at (codes "margin_utilised") row >>= λ used.
      ok record { available_cash = available; used_margin = used; total_balance = available ⊕ used }

  unfoldable pub get_funds : Breeze × B → Outcome (Funds F) × (Breeze × B)
  get_funds = call a.get_funds funds_of

  -- `_on_ticks`: the tick that is emitted, or an exception, which is logged
  unfoldable pub tick_of : ℕ → Dict J → Outcome (TickData F)
  tick_of now row = float_at (codes "ltp") row >>= λ ltp.
      float_at (codes "best_bid_price") row >>= λ bid.
      float_at (codes "best_offer_price") row >>= λ ask.
      int_by w v (lookup (codes "total_quantity_traded") row) >>= λ volume. ok record {
        symbol = normalise_symbol (text_or (lookup (codes "stock_code") row) (codes "UNKNOWN"));
        exchange = text_or (lookup (codes "exchange_code") row) (codes "NSE");
        broker_name = codes "breeze";
        last_price = ltp;
        volume = volume;
        timestamp = now;
      }

  -- A position whose row cannot be read hides no other: the positions of two lists of rows after one
  -- another are those of the one and then those of the other.
  positions_of-append :
      (with_profits : Bool) (rows more : List (Dict J))
      → positions_of with_profits (rows ++ more)
        ≡ positions_of with_profits rows ++ positions_of with_profits more
  unfolding positions_of
  positions_of-append with_profits [] more = refl
  positions_of-append with_profits (row ∷ rows) more =
      ap (kept (position_of with_profits row)) (positions_of-append with_profits rows more)
      ∙ kept-append (position_of with_profits row) (positions_of with_profits rows)
          (positions_of with_profits more)
