-- ===== src/Backtest/Pending/Signals.antt =====
-- What the strategy's signals do to the broker: they queue validated orders, and nothing else.
use nexa_trade.Prelude.{
  ℕ, ◌+◌, ◌≤◌, ◌≡◌, refl, sym, Option-cases, inl, inr, ap, ◌∙◌, List, [], ◌∷◌, ◌++◌, arith, All,
  All-append, length, length-append,
}
use mathlib.Core.Path.{subst}
use mathlib.Core.List.{append-nil, append_assoc}
use nexa_trade.Prelude.Int.{pos, ◌<ℤ◌}
use nexa_trade.Text.{Text}
use nexa_trade.Float.{Float}
use nexa_trade.Outcome.{Outcome, ok, raised}
use nexa_trade.Models.Order.{OrderRequest, create}
use nexa_trade.Models.Signal.{StrategySignal}
use nexa_trade.Backtest.Broker.{SimulatedBroker, SimOrder, submit_order, order_entry}
use nexa_trade.Backtest.Strategy.{Reaction}
use nexa_trade.Backtest.Pending.{
  Session, Setup, signal_request, side_of, submit_validated, on_strategy_signal, deliver, react,
}

module _ {F : Type 0} where
  abbrev pub IsPositive : SimOrder F → Type 0
  IsPositive o = pos 0 <ℤ o.quantity

  -- The broker with an empty queue: all of it but the queue.
  abbrev pub emptied : SimulatedBroker F → SimulatedBroker F
  emptied b = record b { pending_orders = [] }

module _ {F : Type 0} ⦃f : Float F⦄ where
  -- A request that validation lets through asks for a positive quantity.
  pub create-quantity :
      (r : OrderRequest F) {v : OrderRequest F} → create r ≡ ok v → pos 0 <ℤ v.quantity
  unfolding create
  create-quantity r h = ground arith

module _ {S F : Type 0} ⦃f : Float F⦄ where
  -- What a sequence of signals leads to.
  pub record Queues (n : ℕ) (s s' : Session S F) : Type 0 where
    pub all_else : emptied s'.broker ≡ emptied s.broker
    pub same_strategy : s'.strategy ≡ s.strategy
    pub same_buffer : s'.buffer ≡ s.buffer
    pub added : List (SimOrder F)
    pub queue : s'.broker.pending_orders ≡ s.broker.pending_orders ++ added
    pub added_positive : All IsPositive added
    pub added_few : length added ≤ n

  submit_validated-Queues :
      (name : Text) (s : Session S F) (r : Outcome (OrderRequest F))
      → ((v : OrderRequest F) → r ≡ ok v → pos 0 <ℤ v.quantity)
      → Queues 1 s (submit_validated name s r)
  unfolding submit_order
  submit_validated-Queues name s (ok r) p = record {
    all_else = refl;
    same_strategy = refl;
    same_buffer = refl;
    added = order_entry r name ∷ [];
    queue = refl;
    added_positive = (p r refl, tt);
    added_few = omega arith;
  }
  submit_validated-Queues name s (raised e) p = record {
    all_else = refl;
    same_strategy = refl;
    same_buffer = refl;
    added = [];
    queue = sym (append-nil _);
    added_positive = tt;
    added_few = omega arith;
  }

  no_signal-Queues : (n : ℕ) (s : Session S F) → Queues n s s
  no_signal-Queues n s = record {
    all_else = refl;
    same_strategy = refl;
    same_buffer = refl;
    added = [];
    queue = sym (append-nil _);
    added_positive = tt;
    added_few = omega arith;
  }

  Queues-trans : (m n : ℕ) (s t u : Session S F) → Queues m s t → Queues n t u → Queues (m + n) s u
  Queues-trans m n s t u a b = record {
    all_else = b.all_else ∙ a.all_else;
    same_strategy = b.same_strategy ∙ a.same_strategy;
    same_buffer = b.same_buffer ∙ a.same_buffer;
    added = a.added ++ b.added;
    queue =
        b.queue
        ∙ ap (λ q. q ++ b.added) a.queue
        ∙ append_assoc s.broker.pending_orders a.added b.added;
    added_positive = All-append IsPositive a.added b.added a.added_positive b.added_positive;
    added_few = omega (arith, length-append a.added b.added, a.added_few, b.added_few);
  }

  on_strategy_signal-Queues :
      (w : Setup S F) (g : StrategySignal F) (s : Session S F)
      → Queues 1 s (on_strategy_signal w g s)
  unfolding on_strategy_signal
  on_strategy_signal-Queues w g s = elim (Option-cases (side_of g.direction)) [
    | inl e ↦ rw (e, on_strategy_signal) (no_signal-Queues 1 s)
    | inr (side, e) ↦
        rw (e, on_strategy_signal)
          (submit_validated-Queues g.strategy_name s _
            (λ v. create-quantity (signal_request (w.fresh_id s.ids_drawn) side g)))
  ]

  deliver-Queues :
      (w : Setup S F) (gs : List (StrategySignal F)) (s : Session S F)
      → Queues (length gs) s (deliver w gs s)
  unfolding deliver
  deliver-Queues w [] s = no_signal-Queues 0 s
  deliver-Queues w (g ∷ gs) s =
      let s' = on_strategy_signal w g s in
      subst (λ n. Queues n s (deliver w (g ∷ gs) s)) (omega arith)
        (Queues-trans 1 (length gs) s s' (deliver w gs s') (on_strategy_signal-Queues w g s)
          (deliver-Queues w gs s'))

  -- Whatever signals a method of the strategy emits, the broker's cash, positions, fills and totals
  -- stay as they are; its queue grows at the end by at most one order for each signal, and each of
  -- these orders asks for a positive quantity.
  pub react-Queues :
      (w : Setup S F) (r : Reaction S F) (s : Session S F)
      → Queues (length r.signals) (record s { strategy = r.state }) (react w r s)
  unfolding react
  react-Queues w r s = deliver-Queues w r.signals (record s { strategy = r.state })
