-- ===== src/Breeze/Feed.antt =====
-- The symbols that the adapter counts as subscribed, against what its client streams.
use nexa_trade.Prelude.{
  ◌≡◌, refl, sym, ap, ◌∙◌, Bool, true, false, List, [], ◌∷◌, if-split, if-holds, if◌then◌else◌,
}
use nexa_trade.Text.{Text, text_eq, upper}
use nexa_trade.Outcome.{Outcome, ok, raised, runtime_error}
use nexa_trade.Models.Enums.{ConnectionState}
use nexa_trade.Brokers.{BrokerConfig, get_exchange_code}
use nexa_trade.Breeze.{
  Breeze, Vendor, Instrument, new_breeze, exchange_or, key_of, set_state, session_by, connect_by,
  connect, disconnect, feed_by, subscribe_one, unsubscribe_one, then_on, each, handled,
  subscribe_ticks, unsubscribe_ticks,
}

-- What a call of the client leaves of the symbols that it streams, for one symbol: a call that raises
-- leaves them as they are.
abbrev pub after_call : Outcome (Unit {0}) → Bool → Bool → Bool
after_call (ok _) on before = on
after_call (raised e) on before = before

if_same : {A : Type 0} (b : Bool) (a : A) → (if b then a else a) ≡ a
if_same true a = refl
if_same false a = refl

module _ {B J : Type 0} (w : Vendor B J) (cfg : BrokerConfig) where
  -- A client that streams what was subscribed last, and nothing when it is new.
  pub record IsStream : Type 0 where
    pub live : B → Text → Bool
    pub live-open_session :
        (b : B) (j : Text)
        → live (w.open_session b).1 j ≡ after_call (w.open_session b).0 false (live b j)
    pub live-append_on_ticks : (b : B) (j : Text) → live (w.append_on_ticks b).1 j ≡ live b j
    pub live-subscribe_feeds :
        (inst : Instrument) (b : B) (j : Text)
        → let m =
            w.subscribe_feeds
              (get_exchange_code cfg (exchange_or inst.exchange))
              (upper inst.symbol)
              b in
          live m.1 j
          ≡ (if text_eq (key_of cfg inst) j then after_call m.0 true (live b j) else live b j)
    pub live-unsubscribe_feeds :
        (inst : Instrument) (b : B) (j : Text)
        → let m =
            w.unsubscribe_feeds
              (get_exchange_code cfg (exchange_or inst.exchange))
              (upper inst.symbol)
              b in
          live m.1 j
          ≡ (if text_eq (key_of cfg inst) j then after_call m.0 false (live b j) else live b j)

  -- The adapters that calls lead to, when `connect` is called without a client only.
  pub data Reached : Breeze × B → Type 0 where
    at_first : (b : B) → Reached (new_breeze, b)
    by_connect :
        (s : Breeze) (b : B) → s.has_client ≡ false → Reached (s, b) → Reached (connect w (s, b)).1
    by_disconnect : (s : Breeze) (b : B) → Reached (s, b) → Reached (disconnect w (s, b))
    by_subscribe :
        (symbols : List Instrument) (s : Breeze) (b : B)
        → Reached (s, b)
        → Reached (subscribe_ticks w cfg symbols (s, b)).1
    by_unsubscribe :
        (symbols : List Instrument) (s : Breeze) (b : B)
        → Reached (s, b)
        → Reached (unsubscribe_ticks w cfg symbols (s, b)).1

  module _ (stream : IsStream) where
    -- With a client, the symbols are those that it streams; without one there are none.
    abbrev pub InStep : Breeze × B → Type 0
    InStep (s, b) = (j : Text) → s.subscribed j ≡ (if s.has_client then stream.live b j else false)

    -- With a client.
    abbrev On : Breeze × B → Type 0
    On (s, b) = (s.has_client ≡ true) × ((j : Text) → s.subscribed j ≡ stream.live b j)

    On-InStep : (x : Breeze × B) → On x → InStep x
    On-InStep (s, b) (on, h) j = h j ∙ ap (λ has. if has then stream.live b j else false) (sym on)

    InStep-On : (s : Breeze) (b : B) → s.has_client ≡ true → InStep (s, b) → On (s, b)
    InStep-On s b on h = (on, λ j. h j ∙ ap (λ has. if has then stream.live b j else false) on)

    InStep-off :
        (s : Breeze) (b : B)
        → s.has_client ≡ false
        → InStep (s, b)
        → (j : Text) → s.subscribed j ≡ false
    InStep-off s b off h j = h j ∙ ap (λ has. if has then stream.live b j else false) off

    session_by-InStep :
        (s : Breeze) (b : B) (m : Outcome (Unit {0}) × B)
        → s.has_client ≡ false
        → ((j : Text) → s.subscribed j ≡ false)
        → ((j : Text) → stream.live m.1 j ≡ after_call m.0 false (stream.live b j))
        → InStep (session_by w s m).1
    session_by-InStep s b (raised e, b') off empty law j =
        empty j ∙ ap (λ has. if has then stream.live b' j else false) (sym off)
    session_by-InStep s b (ok _, b') off empty law j = empty j ∙ sym (law j)

    connect_by-InStep :
        (s : Breeze) (b : B) (answer : Outcome Bool)
        → s.has_client ≡ false
        → ((j : Text) → s.subscribed j ≡ false)
        → InStep (connect_by w (s, b) answer).1
    connect_by-InStep s b (ok true) off empty j =
        session_by-InStep s b (w.open_session b) off empty (stream.live-open_session b) j
    connect_by-InStep s b (ok false) off empty j =
        empty j ∙ ap (λ has. if has then stream.live b j else false) (sym off)
    connect_by-InStep s b (raised e) off empty j =
        empty j ∙ ap (λ has. if has then stream.live b j else false) (sym off)

    connect-InStep :
        (s : Breeze) (b : B) → s.has_client ≡ false → InStep (s, b) → InStep (connect w (s, b)).1
    unfolding connect
    connect-InStep s b off h =
        connect_by-InStep (set_state w ConnectionState.connecting s) b w.credentials off
          (InStep-off s b off h)

    disconnect-InStep : (s : Breeze) (b : B) → InStep (s, b) → InStep (disconnect w (s, b))
    unfolding disconnect new_breeze
    disconnect-InStep s b h =
        if-split InStep s.has_client (new_breeze, (w.ws_disconnect b).1)
          (set_state w ConnectionState.disconnected s, b) (λ on j. refl) λ off. h

    feed_by-On :
        (key : Text) (is_on : Bool) (s : Breeze) (b : B) (m : Outcome (Unit {0}) × B)
        → On (s, b)
        → ((j : Text)
            → stream.live m.1 j
              ≡ (if text_eq key j then after_call m.0 is_on (stream.live b j) else stream.live b j))
        → On (feed_by w key is_on s m).1
    feed_by-On key is_on s b (raised e, b') (on, h) law =
        (on, λ j. h j ∙ (sym (if_same (text_eq key j) (stream.live b j)) ∙ sym (law j)))
    feed_by-On key is_on s b (ok _, b') (on, h) law =
        (on, λ j. ap (λ before. if text_eq key j then is_on else before) (h j) ∙ sym (law j))

    subscribe_one-On :
        (inst : Instrument) (s : Breeze) (b : B)
        → On (s, b)
        → On (subscribe_one w cfg inst (s, b)).1
    unfolding subscribe_one
    subscribe_one-On inst s b h =
        let code = get_exchange_code cfg (exchange_or inst.exchange) in
        let m = w.subscribe_feeds code (upper inst.symbol) b in
        if-holds (λ x. On x.1) (s.subscribed (key_of cfg inst)) (ok tt, (s, b))
          (feed_by w (key_of cfg inst) true s m) h
          (feed_by-On (key_of cfg inst) true s b m h (stream.live-subscribe_feeds inst b))

    unsubscribe_one-On :
        (inst : Instrument) (s : Breeze) (b : B)
        → On (s, b)
        → On (unsubscribe_one w cfg inst (s, b)).1
    unfolding unsubscribe_one
    unsubscribe_one-On inst s b h =
        let code = get_exchange_code cfg (exchange_or inst.exchange) in
        let m = w.unsubscribe_feeds code (upper inst.symbol) b in
        if-holds (λ x. On x.1) (s.subscribed (key_of cfg inst))
          (feed_by w (key_of cfg inst) false s m) (ok tt, (s, b))
          (feed_by-On (key_of cfg inst) false s b m h (stream.live-unsubscribe_feeds inst b)) h

    then_on-On :
        (m : Outcome (Unit {0}) × (Breeze × B))
        → (next : Breeze × B → Outcome (Unit {0}) × (Breeze × B)) → On m.1
        → ((x : Breeze × B) → On x → On (next x).1)
        → On (then_on w m next).1
    then_on-On (raised e, x) next h k = h
    then_on-On (ok _, x) next h k = k x h

    each-On :
        (step : Instrument → Breeze × B → Outcome (Unit {0}) × (Breeze × B))
        → ((inst : Instrument) (s : Breeze) (b : B) → On (s, b) → On (step inst (s, b)).1)
        → (symbols : List Instrument) (x : Breeze × B) → On x
        → On (each w step symbols x).1
    unfolding each
    each-On step keeps [] x h = h
    each-On step keeps (inst ∷ symbols) (s, b) h =
        then_on-On (step inst (s, b)) (each w step symbols) (keeps inst s b h)
          λ x k. each-On step keeps symbols x k

    subscribe_ticks-InStep :
        (symbols : List Instrument) (s : Breeze) (b : B)
        → InStep (s, b)
        → InStep (subscribe_ticks w cfg symbols (s, b)).1
    unfolding subscribe_ticks
    subscribe_ticks-InStep symbols s b h =
        let m = w.append_on_ticks b in
        if-split (λ m. InStep m.1) s.has_client
          (then_on w (handled w s m) (each w (subscribe_one w cfg) symbols))
          (raised runtime_error, (s, b))
          (λ is_on.
            let (on, same) = InStep-On s b is_on h in
            On-InStep (then_on w (handled w s m) (each w (subscribe_one w cfg) symbols)).1 (
              then_on-On (handled w s m) (each w (subscribe_one w cfg) symbols)
                (on, λ j. same j ∙ sym (stream.live-append_on_ticks b j))
                λ x k. each-On (subscribe_one w cfg) subscribe_one-On symbols x k))
          λ off. h

    unsubscribe_ticks-InStep :
        (symbols : List Instrument) (s : Breeze) (b : B)
        → InStep (s, b)
        → InStep (unsubscribe_ticks w cfg symbols (s, b)).1
    unfolding unsubscribe_ticks
    unsubscribe_ticks-InStep symbols s b h =
        if-split (λ m. InStep m.1) s.has_client (each w (unsubscribe_one w cfg) symbols (s, b))
          (raised runtime_error, (s, b))
          (λ is_on. On-InStep (each w (unsubscribe_one w cfg) symbols (s, b)).1 (
            each-On (unsubscribe_one w cfg) unsubscribe_one-On symbols (s, b)
              (InStep-On s b is_on h)))
          λ off. h

    -- Of a client that streams what was subscribed last, and nothing when it is new, and while `connect` is
    -- called without a client only: the symbols that the adapter counts as subscribed are those that its
    -- client streams, and none without a client, whichever calls raise on the way.
    pub Reached-InStep : (x : Breeze × B) → Reached x → InStep x
    unfolding new_breeze
    Reached-InStep _ (at_first b) = λ j. refl
    Reached-InStep _ (by_connect s b off r) = connect-InStep s b off (Reached-InStep (s, b) r)
    Reached-InStep _ (by_disconnect s b r) = disconnect-InStep s b (Reached-InStep (s, b) r)
    Reached-InStep _ (by_subscribe symbols s b r) =
        subscribe_ticks-InStep symbols s b (Reached-InStep (s, b) r)
    Reached-InStep _ (by_unsubscribe symbols s b r) =
        unsubscribe_ticks-InStep symbols s b (Reached-InStep (s, b) r)
