-- ===== src/BrokerService/Switch.antt =====
-- The subscribers of the service while the broker is switched.
use nexa_trade.Prelude.{
  ℕ, ◌≡◌, refl, ◌∙◌, Bool, true, false, Option, none, some, List, [], ◌∷◌, ◌++◌, All, arith,
}
use nexa_trade.Text.{Text}
use nexa_trade.Outcome.{Outcome, ok, raised}
use nexa_trade.Callbacks.{has, register}
use nexa_trade.Brokers.{Broker, Adapters, get_broker}
use nexa_trade.BrokerService.{
  BrokerService, register_all, connected, start_broker, start, drop_broker, stop, subscribe_again,
  start_next, switch_broker,
}

register-known : (c : ℕ) (cs : List ℕ) → has c cs ≡ true → register c cs ≡ cs
unfolding register
register-known c cs h = rw h refl

register_all-known :
    (more cs : List ℕ) → All (λ c. has c cs ≡ true) more → register_all more cs ≡ cs
unfolding register_all
register_all-known [] cs h = refl
register_all-known (c ∷ more) cs (h, hs) =
    rw (register-known c cs h) (register_all-known more cs hs)

has-middle : (c : ℕ) (before after : List ℕ) → has c (before ++ c ∷ after) ≡ true
unfolding has
has-middle c [] after = ground arith
has-middle c (x ∷ before) after = ground (arith, has-middle c before after)

has-weaken : (x : ℕ) (c : ℕ) (cs : List ℕ) → has c cs ≡ true → has c (x ∷ cs) ≡ true
unfolding has
has-weaken x c cs h = ground (arith, h)

All-weaken :
    (x : ℕ) (ds cs : List ℕ) → All (λ c. has c cs ≡ true) ds → All (λ c. has c (x ∷ cs) ≡ true) ds
All-weaken x [] cs h = tt
All-weaken x (d ∷ ds) cs (h, hs) = (has-weaken x d cs h, All-weaken x ds cs hs)

has_own : (cs : List ℕ) → All (λ c. has c cs ≡ true) cs
unfolding has
has_own [] = tt
has_own (c ∷ cs) = (ground arith, All-weaken c cs cs (has_own cs))

register_all_self : (cs : List ℕ) → register_all cs cs ≡ cs
register_all_self cs = register_all-known cs cs (has_own cs)

module _ {S : Type 0} (w : Adapters S) where
  -- The same subscribers
  abbrev pub Same : BrokerService S → BrokerService S → Type 0
  Same s s' =
      (s'.tick_subscribers ≡ s.tick_subscribers) × (s'.order_subscribers ≡ s.order_subscribers)

  drop_broker-Same :
      (found : Option (Broker S)) (s : BrokerService S) → Same s (drop_broker w found s).1
  unfolding drop_broker
  drop_broker-Same none s = (refl, refl)
  drop_broker-Same (some b) s = ground arith

  stop-Same : (s : BrokerService S) → Same s (stop w s).1
  unfolding stop
  stop-Same s = drop_broker-Same s.broker (record s { is_running = false; has_watchdog = false })

  connected-Same :
      (auto : Bool) (answer : Outcome Bool) (b : Broker S) (s : BrokerService S)
      → Same s (connected w auto answer b s).1
  unfolding connected
  connected-Same auto (ok true) b s = (refl, refl)
  connected-Same auto (ok false) b s = (refl, refl)
  connected-Same auto (raised e) b s = (refl, refl)

  start_broker-Same :
      (auto : Bool) (found : Outcome (Broker S)) (s : BrokerService S)
      → Same s (start_broker w auto found s).1
  unfolding start_broker
  start_broker-Same auto (raised e) s = (refl, refl)
  start_broker-Same auto (ok b) s = connected-Same auto _ _ s

  start-Same :
      (name : Option Text) (auto : Bool) (s : BrokerService S) → Same s (start w name auto s).1
  unfolding start
  start-Same name auto s = start_broker-Same auto (get_broker w name) s

  subscribe_again-Same :
      (s : BrokerService S) (answer : Outcome Bool) (s' : BrokerService S)
      → Same s s'
      → Same s (subscribe_again w s.tick_subscribers s.order_subscribers (answer, s')).1
  unfolding subscribe_again
  subscribe_again-Same s (ok true) s' (h, k) =
      rw (h, k) (register_all_self s.tick_subscribers, register_all_self s.order_subscribers)
  subscribe_again-Same s (ok false) s' same = same
  subscribe_again-Same s (raised e) s' same = same

  start_next-Same :
      (s : BrokerService S) (name : Text) (stopped : Outcome (Unit {0})) (s' : BrokerService S)
      → Same s s'
      → Same s (start_next w s.tick_subscribers s.order_subscribers name (stopped, s')).1
  unfolding start_next
  start_next-Same s name (raised e) s' same = same
  start_next-Same s name (ok u) s' (h, k) =
      let started = start w (some name) true s' in
      let (h', k') = start-Same (some name) true s' in
      subscribe_again-Same s started.0 started.1 (h' ∙ h, k' ∙ k)

  pub switch_broker-Same : (name : Text) (s : BrokerService S) → Same s (switch_broker w name s).1
  unfolding switch_broker
  switch_broker-Same name s = start_next-Same s name (stop w s).0 (stop w s).1 (stop-Same s)
