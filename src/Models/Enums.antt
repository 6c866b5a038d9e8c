-- ===== src/Models/Enums.antt =====
-- brokers/models.py, section 1: the enumerations, and the texts that they stand for.
use nexa_trade.Prelude.{Bool, true, false, Option, none, some, if◌then◌else◌}
use nexa_trade.Text.{Text, codes, text_eq}

pub data TransactionType : Type 0 where
  buy sell : TransactionType

pub data OrderType : Type 0 where
  market limit stop_loss stop_loss_market : OrderType

pub data OrderStatus : Type 0 where
  pending open_ complete cancelled rejected modified partial : OrderStatus

pub data ProductType : Type 0 where
  delivery intraday futures options : ProductType

pub data Exchange : Type 0 where
  nse bse nfo mcx bfo : Exchange

pub data Segment : Type 0 where
  eq fut opt com_ : Segment

pub data TradingMode : Type 0 where
  paper live : TradingMode

pub data SignalDirection : Type 0 where
  buy sell hold exit none_ : SignalDirection

pub data ConnectionState : Type 0 where
  disconnected connecting connected reconnecting error : ConnectionState

-- A pydantic field of an enumeration under `use_enum_values`: a value that the caller gave is stored
-- as its text, while a default that the caller left out stays the member itself.
pub data EnumField {ℓ} (E : Type ℓ) : Type ℓ where
  given : E → EnumField E
  defaulted : E → EnumField E

-- A member passed to a constructor is a value that the caller gave, wherever it comes from.
abbrev pub revalidated : EnumField Segment → EnumField Segment
revalidated (given s) = given s
revalidated (defaulted s) = given s

-- `str(order.exchange)`
abbrev pub exchange_text : Exchange → Text
exchange_text Exchange.nse = codes "NSE"
exchange_text Exchange.bse = codes "BSE"
exchange_text Exchange.nfo = codes "NFO"
exchange_text Exchange.mcx = codes "MCX"
exchange_text Exchange.bfo = codes "BFO"

abbrev pub segment_code : Segment → Text
segment_code Segment.eq = codes "EQ"
segment_code Segment.fut = codes "FUT"
segment_code Segment.opt = codes "OPT"
segment_code Segment.com_ = codes "COM"

-- `str(order.segment)`: `str` of a member of a `(str, Enum)` class shows the class name too.
abbrev pub segment_text : EnumField Segment → Text
segment_text (given s) = segment_code s
segment_text (defaulted Segment.eq) = codes "Segment.EQ"
segment_text (defaulted Segment.fut) = codes "Segment.FUT"
segment_text (defaulted Segment.opt) = codes "Segment.OPT"
segment_text (defaulted Segment.com_) = codes "Segment.COM"

-- Validation of a text as an enumeration: `Exchange(text)` and `Segment(text)`.
unfoldable pub exchange_of : Text → Option Exchange
exchange_of t =
    if text_eq t (codes "NSE")
    then some Exchange.nse
    else if text_eq t (codes "BSE")
    then some Exchange.bse
    else if text_eq t (codes "NFO")
    then some Exchange.nfo
    else if text_eq t (codes "MCX")
    then some Exchange.mcx
    else if text_eq t (codes "BFO")
    then some Exchange.bfo
    else none

unfoldable pub segment_of : Text → Option Segment
segment_of t =
    if text_eq t (codes "EQ")
    then some Segment.eq
    else if text_eq t (codes "FUT")
    then some Segment.fut
    else if text_eq t (codes "OPT")
    then some Segment.opt
    else if text_eq t (codes "COM")
    then some Segment.com_
    else none

-- `side == TransactionType.BUY`, also where the source compares `str(side).upper()` with "BUY"
abbrev pub is_buy : TransactionType → Bool
is_buy TransactionType.buy = true
is_buy TransactionType.sell = false
