-- ===== src/Backtest/Prices/Limits.antt =====
-- Which orders a candle fills, and at what price limit orders fill.
use nexa_trade.Prelude.{
  ◌≡◌, refl, sym, ap, ◌∙◌, true, false, Option, none, some, Bool-cases, Option-cases, inl, inr,
  arith,
}
use mathlib.Core.Path.{subst}
use nexa_trade.Float.{Float, IsOrdered, IsNumber, ◌≼◌, ◌⊕◌, ◌⊖◌, truthy, min_f, max_f}
use nexa_trade.Float.Order.{min_f-le, le-max_f, max_f_mono}
use nexa_trade.Models.Enums.{TransactionType, OrderType}
use nexa_trade.Models.Market.{Ohlcv}
use nexa_trade.Backtest.Broker.{SimOrder}
use nexa_trade.Backtest.Prices.{
  slippage, limit_price, stop_price, at_level, raw_price, floored, fill_price,
}

none-ne-some : {A : Type 0} {a : A} → none ≡ some a → ⊥
none-ne-some e = cc

true-ne-false : true ≡ false → ⊥
true-ne-false e = cc

module _ {F : Type 0} ⦃f : Float F⦄ where
  -- A candle comes to a limit: from above for a buy, from below for a sale.
  abbrev pub LimitReached : TransactionType → F → Ohlcv F → Type 0
  LimitReached TransactionType.buy limit c = c.low ≼ limit
  LimitReached TransactionType.sell limit c = limit ≼ c.high

  -- A candle comes to a trigger: from below for a buy, from above for a sale.
  abbrev pub TriggerReached : TransactionType → F → Ohlcv F → Type 0
  TriggerReached TransactionType.buy trigger c = trigger ≼ c.high
  TriggerReached TransactionType.sell trigger c = c.low ≼ trigger

  -- The candle reaches the level that the order's type waits for.
  abbrev pub Reaches : OrderType → SimOrder F → Ohlcv F → Type 0
  Reaches OrderType.market o c = Unit
  Reaches OrderType.limit o c =
      (l : F) × (o.limit_price ≡ some l) × LimitReached o.transaction_type l c
  Reaches OrderType.stop_loss o c =
      (t : F) × (o.trigger_price ≡ some t) × TriggerReached o.transaction_type t c
  Reaches OrderType.stop_loss_market o c =
      (t : F) × (o.trigger_price ≡ some t) × TriggerReached o.transaction_type t c

  limit_price-LimitReached :
      (pct : F) (side : TransactionType) (l : F) (c : Ohlcv F) {p : F}
      → limit_price pct side l c ≡ some p
      → LimitReached side l c
  unfolding limit_price
  limit_price-LimitReached pct TransactionType.buy l c h = ground arith
  limit_price-LimitReached pct TransactionType.sell l c h = ground arith

  stop_price-TriggerReached :
      (pct : F) (side : TransactionType) (t : F) (c : Ohlcv F) {p : F}
      → stop_price pct side t c ≡ some p
      → TriggerReached side t c
  unfolding stop_price
  stop_price-TriggerReached pct TransactionType.buy t c h = ground arith
  stop_price-TriggerReached pct TransactionType.sell t c h = ground arith

  at_level-Reaches :
      (rule : F → Option F) (level : Option F) (P : F → Type 0) {p : F}
      → ((l q : F) → rule l ≡ some q → P l)
      → at_level rule level ≡ some p
      → (l : F) × (level ≡ some l) × P l
  at_level-Reaches rule none P k h = cc
  at_level-Reaches rule (some l) P {p} k h = elim (Bool-cases (truthy l)) [
    | inl t ↦ (l, refl, k l p (rw t at h))
    | inr t ↦ absurd (none-ne-some (rw t at h))
  ]

  raw_price-Reaches :
      (pct : F) (t : OrderType) (o : SimOrder F) (c : Ohlcv F) {p : F}
      → raw_price pct t o c ≡ some p
      → Reaches t o c
  unfolding raw_price
  raw_price-Reaches pct OrderType.market o c h = tt
  raw_price-Reaches pct OrderType.limit o c h =
      at_level-Reaches _ o.limit_price _
        (λ l q. limit_price-LimitReached pct o.transaction_type l c {p = q}) h
  raw_price-Reaches pct OrderType.stop_loss o c h =
      at_level-Reaches _ o.trigger_price _
        (λ l q. stop_price-TriggerReached pct o.transaction_type l c {p = q}) h
  raw_price-Reaches pct OrderType.stop_loss_market o c h =
      at_level-Reaches _ o.trigger_price _
        (λ l q. stop_price-TriggerReached pct o.transaction_type l c {p = q}) h

  -- A candle fills an order only if it reaches the order's limit or trigger: its low for a limit buy
  -- and a stop sale, its high for a limit sale and a stop buy. An order without its level never
  -- fills.
  pub fill_price-Reaches :
      (pct : F) (o : SimOrder F) (c : Ohlcv F) {p : F}
      → fill_price pct o c ≡ some p
      → Reaches o.order_type o c
  unfolding fill_price
  fill_price-Reaches pct o c h = elim (Option-cases (raw_price pct o.order_type o c)) [
    | inl e ↦ absurd (none-ne-some (rw e at h))
    | inr (q, e) ↦ raw_price-Reaches pct o.order_type o c e
  ]

  floored_lem :
      (o : Option F) {p : F}
      → floored o ≡ some p
      → (q : F) × (o ≡ some q) × (p ≡ max_f q (f.decimal 1 2))
  floored_lem none h = absurd (none-ne-some h)
  floored_lem (some q) {p} h = elim (Bool-cases (truthy q)) [
    | inl e ↦ (q, refl, ground arith)
    | inr e ↦ absurd (none-ne-some (rw e at h))
  ]

  limit_price-buy :
      (pct l : F) (c : Ohlcv F) {q : F}
      → limit_price pct TransactionType.buy l c ≡ some q
      → q ≡ min_f c.open_ l ⊕ slippage pct l
  unfolding limit_price
  limit_price-buy pct l c h = ground arith

  limit_price-sell :
      (pct l : F) (c : Ohlcv F) {q : F}
      → limit_price pct TransactionType.sell l c ≡ some q
      → q ≡ max_f c.open_ l ⊖ slippage pct l
  unfolding limit_price
  limit_price-sell pct l c h = ground arith

  min_f_sum : (a b s : F) → IsNumber (a ⊕ s) → IsNumber (b ⊕ s) → IsNumber (min_f a b ⊕ s)
  min_f_sum a b s h k = ground arith

  max_f_sum : (a b s : F) → IsNumber (a ⊖ s) → IsNumber (b ⊖ s) → IsNumber (max_f a b ⊖ s)
  max_f_sum a b s h k = ground arith

  module _ (laws : IsOrdered F) where
    open laws use {le_trans, add_mono, sub_mono, number_of_le, decimal_number, lt-not-le}

    not_le_of_le : (l x p : F) → x ≼ p → f.le x l ≡ false → f.le p l ≡ false
    not_le_of_le l x p up over = elim (Bool-cases (f.le p l)) [
      | inl e ↦ absurd (true-ne-false (sym (le_trans x p l up e) ∙ over))
      | inr e ↦ e
    ]

    -- How far from its limit an order may fill: the limit moved against the order by the slippage.
    abbrev pub Within : TransactionType → F → F → F → Type 0
    Within TransactionType.buy l s p = p ≼ max_f (l ⊕ s) (f.decimal 1 2)
    Within TransactionType.sell l s p = l ⊖ s ≼ p

    -- A limit buy fills at no more than its limit and the slippage on it (or 0.01), a limit sale at
    -- no less than its limit without the slippage, where no value is NaN.
    pub limit_price-Within :
        (pct : F) (side : TransactionType) (l : F) (c : Ohlcv F) {p : F}
        → IsNumber c.open_
        → IsNumber l
        → IsNumber (c.open_ ⊕ slippage pct l)
        → IsNumber (l ⊕ slippage pct l)
        → IsNumber (c.open_ ⊖ slippage pct l)
        → IsNumber (l ⊖ slippage pct l)
        → floored (limit_price pct side l c) ≡ some p
        → Within side l (slippage pct l) p
    unfolding limit_price
    limit_price-Within pct TransactionType.buy l c n nl n1 n2 n3 n4 h =
        let (q, e, from) = floored_lem (limit_price pct TransactionType.buy l c) h in
        let low = min_f-le laws c.open_ l n nl in
        let nq = min_f_sum c.open_ l (slippage pct l) n1 n2 in
        subst (λ x. x ≼ max_f (l ⊕ slippage pct l) (f.decimal 1 2))
          (sym (from ∙ ap (λ x. max_f x (f.decimal 1 2)) (limit_price-buy pct l c e)))
          (max_f_mono laws _ _ _ (add_mono _ _ _ low.1 nq n2) (decimal_number 1 2))
    limit_price-Within pct TransactionType.sell l c n nl n1 n2 n3 n4 h =
        let (q, e, from) = floored_lem (limit_price pct TransactionType.sell l c) h in
        let high = le-max_f laws c.open_ l n nl in
        let nq = max_f_sum c.open_ l (slippage pct l) n3 n4 in
        subst (λ x. l ⊖ slippage pct l ≼ x)
          (sym (from ∙ ap (λ x. max_f x (f.decimal 1 2)) (limit_price-sell pct l c e)))
          (le_trans _ _ _ (sub_mono _ _ _ high.1 n4 nq)
            (le-max_f laws _ _ nq (decimal_number 1 2)).0)

    -- A limit buy whose candle opens above the limit and comes down to it is filled at a price that is
    -- worse than its limit, whenever the limit with its slippage is a number above the limit and not
    -- zero.
    pub limit_buy_exceeds :
        (pct : F) (l : F) (c : Ohlcv F)
        → c.low ≼ l
        → f.lt l c.open_ ≡ true
        → IsNumber (l ⊕ slippage pct l)
        → f.le (l ⊕ slippage pct l) l ≡ false
        → truthy (l ⊕ slippage pct l) ≡ true
        → (p : F) × (floored (limit_price pct TransactionType.buy l c) ≡ some p)
          × (f.le p l ≡ false)
    unfolding limit_price
    limit_buy_exceeds pct l c reached above n over nz = (
      max_f (l ⊕ slippage pct l) (f.decimal 1 2),
      ground arith,
      not_le_of_le l (l ⊕ slippage pct l) _ (le-max_f laws _ _ n (decimal_number 1 2)).0 over,
    )
