-- ===== src/BrokerService/Wiring.antt =====
-- The broker of the service: which it is, and that the service hears of its events.
use nexa_trade.Prelude.{
  ℕ, ◌≡◌, refl, Bool, if◌then◌else◌, true, false, Bool-cases, inl, inr, Option, none, some, List,
  [], ◌∷◌, arith,
}
use nexa_trade.Text.{Text, in_list}
use nexa_trade.Outcome.{Outcome, ok, raised, value_error, ◌>>=◌, ◌>>◌}
use nexa_trade.Callbacks.{has, register}
use nexa_trade.Brokers.{
  Broker, Adapters, registered, key_of, is_registered, name_or, get_broker_class, get_broker,
  new_broker, register_tick_callback, register_order_callback, connect,
}
use nexa_trade.BrokerService.{
  BrokerService, internal_handler, connected, start_broker, start, drop_broker, stop,
  subscribe_again, start_next, switch_broker,
}
use nexa_trade.BrokerService.Switch.{Same, switch_broker-Same}

module _ {S : Type 0} where
  -- The broker is one of the registered, under the name that was asked for, and the service's handlers
  -- are its only callbacks.
  pub record IsWired (name : Text) (b : Broker S) : Type 0 where
    pub found : in_list b.broker_name registered ≡ true
    pub named : b.broker_name ≡ key_of (key_of name)
    pub ticks : b.tick_callbacks ≡ internal_handler ∷ []
    pub orders : b.order_callbacks ≡ internal_handler ∷ []

  -- What a start leaves, by its answer: the service runs exactly if the broker connected, and an
  -- exception leaves it stopped.
  abbrev pub Started : Text → Outcome Bool × BrokerService S → Type 0
  Started name (ok answer, s) =
      (b : Broker S) × (s.broker ≡ some b) × IsWired name b × (s.is_running ≡ answer)
  Started name (raised e, s) = s.is_running ≡ false

module _ {S : Type 0} (w : Adapters S) where
  connect-IsWired : (name : Text) (b : Broker S) → IsWired name b → IsWired name (connect w b).1
  unfolding connect
  connect-IsWired name b h = record {
    found = h.found;
    named = h.named;
    ticks = h.ticks;
    orders = h.orders;
  }

  connected-Started :
      (name : Text) (auto : Bool) (answer : Outcome Bool) (b : Broker S) (s : BrokerService S)
      → IsWired name b
      → s.is_running ≡ false
      → Started name (connected w auto answer b s)
  unfolding connected
  connected-Started name auto (ok true) b s h off = (b, refl, h, refl)
  connected-Started name auto (ok false) b s h off = (b, refl, h, off)
  connected-Started name auto (raised e) b s h off = off

  start_broker-Started :
      (name : Text) (auto : Bool) (own : S) (s : BrokerService S)
      → is_registered (key_of name) ≡ true
      → s.is_running ≡ false
      → Started name (start_broker w auto (ok (new_broker (key_of (key_of name)) own)) s)
  unfolding start_broker register_tick_callback register_order_callback register has new_broker
      is_registered
  start_broker-Started name auto own s known off =
      connected-Started name auto _ _ s
        (connect-IsWired name _
          (record { found = known; named = refl; ticks = refl; orders = refl }))
        off

  found-Started :
      (m : Outcome (Unit {0})) (asked : Text) (auto : Bool) (s : BrokerService S)
      → s.is_running ≡ false
      → Started asked (
          start_broker w auto
            (m
              >> (if is_registered (key_of asked)
                  then ok (key_of (key_of asked))
                  else raised value_error)
              >>= λ name. ok (new_broker name (w.initial name)))
            s)
  unfolding start_broker
  found-Started (raised e) asked auto s off = off
  found-Started (ok u) asked auto s off = elim (Bool-cases (is_registered (key_of asked))) [
    | inl known ↦ rw known (start_broker-Started asked auto _ s known off)
    | inr unknown ↦ rw unknown off
  ]

  start-Started :
      (name : Option Text) (auto : Bool) (s : BrokerService S)
      → s.is_running ≡ false
      → Started (name_or name w.active_broker) (start w name auto s)
  unfolding start get_broker get_broker_class
  start-Started name auto s off =
      found-Started w.import_adapters (name_or name w.active_broker) auto s off

  drop_broker-off :
      (found : Option (Broker S)) (s : BrokerService S)
      → s.is_running ≡ false
      → (drop_broker w found s).1.is_running ≡ false
  unfolding drop_broker
  drop_broker-off none s h = h
  drop_broker-off (some b) s h = ground (arith, h)

  stop-off : (s : BrokerService S) → (stop w s).1.is_running ≡ false
  unfolding stop
  stop-off s = drop_broker-off s.broker (record s { is_running = false; has_watchdog = false }) refl

  subscribe_again-Started :
      (name : Text) (ticks orders : List ℕ) (answer : Outcome Bool) (s : BrokerService S)
      → Started name (answer, s)
      → Started name (subscribe_again w ticks orders (answer, s))
  unfolding subscribe_again
  subscribe_again-Started name ticks orders (ok true) s h = h
  subscribe_again-Started name ticks orders (ok false) s h = h
  subscribe_again-Started name ticks orders (raised e) s h = h

  start_next-Started :
      (name : Text) (ticks orders : List ℕ) (stopped : Outcome (Unit {0})) (s : BrokerService S)
      → s.is_running ≡ false
      → Started (name_or (some name) w.active_broker) (start_next w ticks orders name (stopped, s))
  unfolding start_next
  start_next-Started name ticks orders (raised e) s off = off
  start_next-Started name ticks orders (ok u) s off =
      let started = start w (some name) true s in
      subscribe_again-Started (name_or (some name) w.active_broker) ticks orders started.0 started.1
        (start-Started (some name) true s off)

  -- Whatever the old broker and the new one answer or raise, a switch keeps all subscribers, in their
  -- order. If it answers, the broker is the one asked for (the configured one for an empty name), it is
  -- registered, and the service's handlers are its only callbacks; the service then runs exactly if
  -- the answer is that it connected. After an exception the service does not run.
  pub switch_broker_lem :
      (name : Text) (s : BrokerService S)
      → Started (name_or (some name) w.active_broker) (switch_broker w name s)
        × Same w s (switch_broker w name s).1
  unfolding switch_broker
  switch_broker_lem name s = (
    start_next-Started name s.tick_subscribers s.order_subscribers (stop w s).0 (stop w s).1
        (stop-off s),
    switch_broker-Same w name s,
  )
