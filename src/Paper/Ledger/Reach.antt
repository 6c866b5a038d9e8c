-- ===== src/Paper/Ledger/Reach.antt =====
-- A session of the paper adapter: any sequence of its operations, from a fresh adapter on.
use nexa_trade.Prelude.{
  ℕ, refl, Bool, Option, none, some, List, [], ◌∷◌, arith, Option-cases, Bool-cases, inl, inr,
}
use nexa_trade.Prelude.Int.{ℤ, pos, ◌<ℤ◌}
use nexa_trade.Text.{Text}
use nexa_trade.Dict.{lookup}
use nexa_trade.Float.{Float}
use nexa_trade.Outcome.{Outcome, ok, raised, Returns, Returns->>=, ◌>>=◌}
use nexa_trade.Models.Enums.{OrderStatus}
use nexa_trade.Models.Order.{OrderRequest, OrderResponse, OrderModifyRequest}
use nexa_trade.Paper.State.{Paper, Simulation, OpenOrder, init, connect}
use nexa_trade.Paper.Orders.{
  Call, refused, is_market, execute, place_order, modify_order, modified_request, cancel_order,
}
use nexa_trade.Paper.Feed.{
  to_fill, update_last_price, run_first, run_task, unsubscribe_ticks, check_pending_fills,
}
use nexa_trade.Paper.Feed.Fills.{fill_all-IsSound}
use nexa_trade.Paper.Ledger.{
  IsSound, IsPositive, execute-IsSound, insert-OrdersPositive, erase-OrdersPositive,
  insert-IsUnique, erase-IsUnique, lookup-IsPositive,
}

-- The calls of the adapter that change it, but for `disconnect`.
pub data Action (F : Type 0) : Type 0 where
  start : Outcome (Simulation F) → Action F
  place : Call F → OrderRequest F → Action F
  modify : ℕ → OrderModifyRequest F → Action F
  cancel : ℕ → Text → Text → Action F
  tick : Text → F → Action F
  unsubscribe : List Text → Action F

-- What happens in a session: a call, or the event loop runs the check that was scheduled first.
pub data Event (F : Type 0) : Type 0 where
  act : Action F → Event F
  task : ℕ → Event F

-- What validation leaves of a modification: a quantity, if given, is positive.
abbrev pub ModifyAllowed : Option ℤ → Type 0
ModifyAllowed none = Unit
ModifyAllowed (some q) = pos 0 <ℤ q

module _ {F : Type 0} where
  -- Requests come validated, and the configuration can be read: `connect` raises where it cannot.
  abbrev pub IsAllowed : Action F → Type 0
  IsAllowed (start (ok sim)) = Unit
  IsAllowed (start (raised e)) = ⊥
  IsAllowed (place c r) = IsPositive r
  IsAllowed (modify now m) = ModifyAllowed m.quantity
  IsAllowed _ = Unit

  abbrev pub AreAllowed : List (Action F) → Type 0
  AreAllowed [] = Unit
  AreAllowed (a ∷ as_) = IsAllowed a × AreAllowed as_

  abbrev pub AreEventsAllowed : List (Event F) → Type 0
  AreEventsAllowed [] = Unit
  AreEventsAllowed (act a ∷ es) = IsAllowed a × AreEventsAllowed es
  AreEventsAllowed (task now ∷ es) = AreEventsAllowed es

module _ {F : Type 0} ⦃f : Float F⦄ where
  -- `connect` for a caller that does not catch what it raises
  abbrev pub connected : Outcome Bool × Paper F → Outcome (Paper F)
  connected (ok _, s) = ok s
  connected (raised e, s) = raised e

  unfoldable pub perform : Action F → Paper F → Outcome (Paper F)
  perform (start sim) s = connected (connect sim s)
  perform (place c r) s = place_order c r s >>= λ out. ok out.1
  perform (modify now m) s = ok (modify_order now m s).1
  perform (cancel now id b) s = ok (cancel_order now id b s).1
  perform (tick symbol price) s = ok (update_last_price symbol price s)
  perform (unsubscribe symbols) s = ok (unsubscribe_ticks symbols s)

  -- The calls that the order callbacks make; what one raises ends them, and is logged.
  abbrev go_on : (Paper F → Paper F) → Paper F → Outcome (Paper F) → Paper F
  go_on next s (ok s') = next s'
  go_on next s (raised e) = s

  unfoldable pub answer : List (Action F) → Paper F → Paper F
  answer [] s = s
  answer (a ∷ as_) s = go_on (answer as_) s (perform a s)

  -- The order callbacks answer each update by calls of the adapter.
  unfoldable pub step : (OrderResponse F → List (Action F)) → Event F → Paper F → Outcome (Paper F)
  step answers (act a) s = perform a s
  step answers (task now) s = run_task (λ update. answer (answers update)) now s >>= λ out. ok out.1

  unfoldable pub run :
      (OrderResponse F → List (Action F)) → List (Event F) → Paper F → Outcome (Paper F)
  run answers [] s = ok s
  run answers (e ∷ es) s = step answers e s >>= λ s'. run answers es s'

  connect-IsSound :
      (sim : Outcome (Simulation F)) (s : Paper F)
      → IsAllowed (start sim)
      → IsSound s
      → Returns IsSound (connected (connect sim s))
  unfolding connect
  connect-IsSound (ok sim) s a h = record {
    balanced = h.balanced;
    orders_positive = h.orders_positive;
    unique = h.unique;
  }
  connect-IsSound (raised e) s a h = absurd a

  modified_request-IsPositive :
      (m : OrderModifyRequest F) (r : OrderRequest F)
      → ModifyAllowed m.quantity
      → IsPositive r
      → IsPositive (modified_request m r)
  unfolding modified_request
  modified_request-IsPositive m r a p = ground arith

  modify_order-IsSound :
      (now : ℕ) (m : OrderModifyRequest F) (s : Paper F)
      → ModifyAllowed m.quantity
      → IsSound s
      → IsSound (modify_order now m s).1
  unfolding modify_order
  modify_order-IsSound now m s a h = elim (Option-cases (lookup m.order_id s.open_orders)) [
    | inl e ↦ rw (e, modify_order) h
    | inr (o, e) ↦
        rw (e, modify_order)
          (let o' : OpenOrder F = record o {
            request = modified_request m o.request;
            status = OrderStatus.modified;
          } in
            record {
              balanced = h.balanced;
              orders_positive =
                  insert-OrdersPositive m.order_id o' s.open_orders
                    (modified_request-IsPositive m o.request a
                      (lookup-IsPositive m.order_id s.open_orders h.orders_positive e))
                    h.orders_positive;
              unique = insert-IsUnique m.order_id o' s.open_orders h.unique;
            })
  ]

  cancel_order-IsSound :
      (now : ℕ) (id b : Text) (s : Paper F) → IsSound s → IsSound (cancel_order now id b s).1
  unfolding cancel_order
  cancel_order-IsSound now id b s h = ground (
    arith,
    erase-OrdersPositive id s.open_orders h.orders_positive,
    erase-IsUnique id s.open_orders h.unique,
  )

  place_order-IsSound :
      (c : Call F) (r : OrderRequest F) (s : Paper F)
      → IsPositive r
      → IsSound s
      → Returns (λ out. IsSound out.1) (place_order c r s)
  unfolding place_order
  place_order-IsSound c r s p h = elim (Bool-cases (refused c s)) [
    | inl e ↦ rw e h
    | inr e ↦ rw e (elim (Bool-cases (is_market r.order_type)) [
      | inl m ↦ rw m (
          Returns->>= _ _ (execute r.order_id c.fresh_id none c.now r s) _
            (execute-IsSound r.order_id c.fresh_id none c.now r s p h) (λ out done. done.0))
      | inr m ↦ rw m (record {
        balanced = h.balanced;
        orders_positive = insert-OrdersPositive r.order_id _ s.open_orders p h.orders_positive;
        unique = insert-IsUnique r.order_id _ s.open_orders h.unique;
      })
    ])
  ]

  unsubscribe_ticks-IsSound :
      (symbols : List Text) (s : Paper F) → IsSound s → IsSound (unsubscribe_ticks symbols s)
  unfolding unsubscribe_ticks
  unsubscribe_ticks-IsSound [] s h = h
  unsubscribe_ticks-IsSound (symbol ∷ symbols) s h =
      unsubscribe_ticks-IsSound symbols _
        (record { balanced = h.balanced; orders_positive = h.orders_positive; unique = h.unique })

  perform-IsSound :
      (a : Action F) (s : Paper F) → IsAllowed a → IsSound s → Returns IsSound (perform a s)
  unfolding perform update_last_price
  perform-IsSound (start sim) s a h = connect-IsSound sim s a h
  perform-IsSound (place c r) s a h =
      Returns->>= _ _ (place_order c r s) _ (place_order-IsSound c r s a h) (λ out done. done)
  perform-IsSound (modify now m) s a h = modify_order-IsSound now m s a h
  perform-IsSound (cancel now id b) s a h = cancel_order-IsSound now id b s h
  perform-IsSound (tick symbol price) s a h = record {
    balanced = h.balanced;
    orders_positive = h.orders_positive;
    unique = h.unique;
  }
  perform-IsSound (unsubscribe symbols) s a h = unsubscribe_ticks-IsSound symbols s h

  go_on-IsSound :
      (next : Paper F → Paper F) (s : Paper F) (m : Outcome (Paper F))
      → ((s' : Paper F) → IsSound s' → IsSound (next s'))
      → Returns IsSound m
      → IsSound (go_on next s m)
  go_on-IsSound next s (ok s') k h = k s' h
  go_on-IsSound next s (raised e) k h = absurd h

  answer-IsSound :
      (as_ : List (Action F)) (s : Paper F) → AreAllowed as_ → IsSound s → IsSound (answer as_ s)
  unfolding answer
  answer-IsSound [] s a h = h
  answer-IsSound (a ∷ as_) s (ok_a, rest) h =
      go_on-IsSound (answer as_) s (perform a s) (λ s' h'. answer-IsSound as_ s' rest h')
        (perform-IsSound a s ok_a h)

  module _ (answers : OrderResponse F → List (Action F))
      (allowed : (update : OrderResponse F) → AreAllowed (answers update)) where
    run_first-IsSound :
        (now : ℕ) (tasks : List (Text × F)) (s : Paper F)
        → IsSound s
        → Returns (λ out. IsSound out.1) (run_first (λ update. answer (answers update)) now tasks s)
    unfolding run_first check_pending_fills
    run_first-IsSound now [] s h = h
    run_first-IsSound now ((symbol, price) ∷ rest) s h =
        let s' : Paper F = record s { tasks = rest } in
        fill_all-IsSound (λ update. answer (answers update))
          (λ update t k. answer-IsSound (answers update) t (allowed update) k) now
          (to_fill symbol price s.open_orders) s'
          (record { balanced = h.balanced; orders_positive = h.orders_positive; unique = h.unique })

    step-IsSound :
        (e : Event F) (s : Paper F)
        → AreEventsAllowed (e ∷ [])
        → IsSound s
        → Returns IsSound (step answers e s)
    unfolding step run_task
    step-IsSound (act a) s (ok_a, _) h = perform-IsSound a s ok_a h
    step-IsSound (task now) s a h =
        Returns->>= _ _ (run_first (λ update. answer (answers update)) now s.tasks s) _
          (run_first-IsSound now s.tasks s h) (λ out done. done)

    run-IsSound :
        (es : List (Event F)) (s : Paper F)
        → AreEventsAllowed es
        → IsSound s
        → Returns IsSound (run answers es s)
    unfolding run
    run-IsSound [] s a h = h
    run-IsSound (act a ∷ es) s (ok_a, rest) h =
        Returns->>= _ _ (step answers (act a) s) _ (step-IsSound (act a) s (ok_a, tt) h)
          (λ s' h'. run-IsSound es s' rest h')
    run-IsSound (task now ∷ es) s rest h =
        Returns->>= _ _ (step answers (task now) s) _ (step-IsSound (task now) s tt h)
          (λ s' h'. run-IsSound es s' rest h')

    -- A session that begins with a fresh adapter: `connect` with a configuration that can be read, orders
    -- placed and modified with validated requests, cancels, price updates, the checks that these schedule,
    -- and unsubscribing, in any order and with no `disconnect`, where the order callbacks answer the updates
    -- of a check by such calls too. None of it raises, and in the end the quantities of the positions add
    -- up to what the fills say was traded, every open order asks for a positive quantity, and no id is
    -- there twice.
    pub session_balanced :
        (es : List (Event F)) → AreEventsAllowed es → Returns IsSound (run answers es init)
    unfolding init
    session_balanced es a =
        run-IsSound es init a (record { balanced = refl; orders_positive = tt; unique = tt })
