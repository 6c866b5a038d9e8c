-- ===== src/Breeze/Reconnect.antt =====
-- Connecting again, which the reconnecting of services/broker_service.py does without a `disconnect`.
use nexa_trade.Prelude.{◌≡◌, refl, sym, ap, ◌∙◌, true, false, [], ◌∷◌, arith}
use mathlib.Core.Path.{subst}
use nexa_trade.Outcome.{Outcome, ok, raised}
use nexa_trade.Models.Enums.{ConnectionState}
use nexa_trade.Brokers.{BrokerConfig}
use nexa_trade.Breeze.{
  Breeze, Vendor, Instrument, key_of, set_state, session_by, connect_by, connect, subscribe_one,
  then_on, each, handled, subscribe_ticks,
}
use nexa_trade.Breeze.Feed.{after_call, IsStream}

module _ {B J : Type 0} (w : Vendor B J) (cfg : BrokerConfig) (stream : IsStream w cfg) where
  -- The adapter with a new client.
  abbrev renewed : Breeze → Breeze
  renewed s = record s { has_client = true; connection_state = ConnectionState.connected }

  session_by-opens :
      (s : Breeze) (m : Outcome (Unit {0}) × B)
      → m.0 ≡ ok tt
      → (session_by w s m).1 ≡ (renewed s, m.1)
  session_by-opens s (ok _, b) h = refl
  session_by-opens s (raised e, b) h = ground (arith, h)

  connect-opens :
      (s : Breeze) (b : B)
      → w.credentials ≡ ok true
      → (w.open_session b).0 ≡ ok tt
      → (connect w (s, b)).1 ≡ (renewed s, (w.open_session b).1)
  unfolding connect
  connect-opens s b known opens =
      ap (λ answer. (connect_by w (set_state w ConnectionState.connecting s, b) answer).1) known
      ∙ session_by-opens (set_state w ConnectionState.connecting s) (w.open_session b) opens

  handled-silent :
      (inst : Instrument) (s : Breeze) (m : Outcome (Unit {0}) × B)
      → s.subscribed (key_of cfg inst) ≡ true
      → stream.live m.1 (key_of cfg inst) ≡ false
      → stream.live
          (then_on w (handled w s m) (each w (subscribe_one w cfg) (inst ∷ []))).1.1
          (key_of cfg inst)
        ≡ false
  unfolding each subscribe_one
  handled-silent inst s (raised e, b) there h = h
  handled-silent inst s (ok _, b) there h = rw there h

  -- Of a client that streams what was subscribed last, and nothing when it is new: an adapter that counts a
  -- symbol as subscribed is connected again, as after the connection was lost, the credentials are there and
  -- the new session opens. The symbol is not streamed any more, and subscribing to it again leaves it so.
  pub subscribe_ticks-connect :
      (inst : Instrument) (s : Breeze) (b : B)
      → w.credentials ≡ ok true
      → (w.open_session b).0 ≡ ok tt
      → s.subscribed (key_of cfg inst) ≡ true
      → let x = (connect w (s, b)).1 in
        stream.live (subscribe_ticks w cfg (inst ∷ []) x).1.1 (key_of cfg inst) ≡ false
  unfolding subscribe_ticks
  subscribe_ticks-connect inst s b known opens there =
      let b1 = (w.open_session b).1 in
      let new =
        stream.live-open_session b (key_of cfg inst)
        ∙ ap (λ answer. after_call answer false (stream.live b (key_of cfg inst))) opens in
      subst (λ x. stream.live (subscribe_ticks w cfg (inst ∷ []) x).1.1 (key_of cfg inst) ≡ false)
        (sym (connect-opens s b known opens))
        (handled-silent inst (renewed s) (w.append_on_ticks b1) there
          (stream.live-append_on_ticks b1 (key_of cfg inst) ∙ new))
