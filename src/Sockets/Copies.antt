-- ===== src/Sockets/Copies.antt =====
-- How often a tick reaches a socket.
use nexa_trade.Prelude.{
  ℕ, ◌+◌, ◌*◌, ◌≡◌, refl, sym, ap, ◌∙◌, Bool, true, Bool-cases, inl, inr, not, Option, none, some,
  List, [], ◌∷◌, ◌++◌, map, length, keep_if, All, arith, ◌==◌, if◌then◌else◌,
}
use mathlib.Core.List.{append_assoc, append-nil}
use mathlib.Core.Path.{subst}
use nexa_trade.Text.{Text, text_eq, text_eq_refl, upper}
use nexa_trade.Dict.{Dict, lookup, insert, lookup-insert_self}
use nexa_trade.FeedService.{FeedService, Sources, symbol_key, register_subscription}
use nexa_trade.FeedService.Ticks.{callbacks_for, with_callback}
use nexa_trade.FeedService.Leaks.{subscribe_state, symbol_key-upper}
use nexa_trade.Sockets.{
  Connections, sockets_of, connect, disconnect_all, broadcast, Closure, call_on_tick, call_callback,
  deliver, tick_consumer, tick_subscription, open_ticks,
}

-- How often a socket is in a list.
abbrev pub times : ℕ → List ℕ → ℕ
times ws [] = 0
times ws (x ∷ xs) = (if x == ws then 1 else 0) + times ws xs

times-append : (ws : ℕ) (xs ys : List ℕ) → times ws (xs ++ ys) ≡ times ws xs + times ws ys
times-append ws [] ys = omega arith
times-append ws (x ∷ xs) ys = omega (arith, times-append ws xs ys)

keep_if_all :
    (takes : ℕ → Bool) → ((ws : ℕ) → takes ws ≡ true) → (xs : List ℕ) → keep_if takes xs ≡ xs
keep_if_all takes h [] = refl
keep_if_all takes h (x ∷ xs) = rw (h x) (ap (◌∷◌ x) (keep_if_all takes h xs))

keep_if_none :
    (takes : ℕ → Bool)
    → ((ws : ℕ) → takes ws ≡ true)
    → (xs : List ℕ) → keep_if (λ ws. not (takes ws)) xs ≡ []
keep_if_none takes h [] = refl
keep_if_none takes h (x ∷ xs) = rw (h x) (keep_if_none takes h xs)

broadcast_all :
    (takes : ℕ → Bool)
    → ((ws : ℕ) → takes ws ≡ true)
    → (key : Text) (c : Connections) → broadcast takes key c ≡ (sockets_of key c, c)
unfolding broadcast disconnect_all
broadcast_all takes h key c =
    rw (keep_if_all takes h (sockets_of key c), keep_if_none takes h (sockets_of key c)) refl

-- A session of a symbol.
abbrev pub session : Text → Text → Closure
session symbol exchange = record { sym_key = symbol_key symbol exchange; symbol = symbol }

module _ (takes : ℕ → Bool) (closures : ℕ → Option Closure) where
  call_session :
      (symbol exchange : Text) (callback : ℕ) (c : Connections)
      → ((ws : ℕ) → takes ws ≡ true)
      → closures callback ≡ some (session symbol exchange)
      → call_callback takes (closures callback) symbol c
        ≡ (sockets_of (symbol_key symbol exchange) c, c)
  unfolding call_callback call_on_tick
  call_session symbol exchange callback c all h =
      rw (h, text_eq_refl (upper symbol)) (broadcast_all takes all (symbol_key symbol exchange) c)

  deliver_lem :
      (symbol exchange : Text) (callbacks : List ℕ) (c : Connections) (ws : ℕ)
      → ((ws : ℕ) → takes ws ≡ true)
      → All (λ callback. closures callback ≡ some (session symbol exchange)) callbacks
      → times ws (deliver takes closures callbacks symbol c).0
        ≡ length callbacks * times ws (sockets_of (symbol_key symbol exchange) c)
  unfolding deliver
  deliver_lem symbol exchange [] c ws all h = omega arith
  deliver_lem symbol exchange (callback ∷ callbacks) c ws all (h, hs) =
      let here = sockets_of (symbol_key symbol exchange) c in
      rw (call_session symbol exchange callback c all h) (
        ground (
          arith,
          times-append ws here (deliver takes closures callbacks symbol c).0,
          deliver_lem symbol exchange callbacks c ws all hs,
        ))

with_callback-append :
    (found : Option ℕ) (xs ys : List ℕ)
    → with_callback found (xs ++ ys) ≡ with_callback found xs ++ ys
with_callback-append none xs ys = refl
with_callback-append (some c) xs ys = refl

-- A consumer that is new comes last.
callbacks_for-insert :
    (key consumer : Text) (callback : ℕ) (d : Dict (Dict ℕ))
    → lookup consumer d ≡ none
    → callbacks_for key (insert consumer ((key, callback) ∷ []) d)
      ≡ callbacks_for key d ++ callback ∷ []
unfolding callbacks_for insert lookup
callbacks_for-insert key consumer callback [] h =
    ap (λ found. with_callback found []) (lookup-insert_self key callback [])
callbacks_for-insert key consumer callback ((other, callbacks) ∷ d) h =
    elim (Bool-cases (text_eq other consumer)) [
      | inl same ↦ ground (arith, h, same)
      | inr differs ↦ rw differs (
          ap (with_callback (lookup key callbacks))
            (callbacks_for-insert key consumer callback d (ground (arith, h, differs)))
          ∙ with_callback-append (lookup key callbacks) (callbacks_for key d) (callback ∷ []))
    ]

-- Sessions of one symbol, each of a user with a socket.
abbrev pub users : List (Text × ℕ) → List Text
users sessions = map (λ (x : Text × ℕ). x.0) sessions

abbrev pub sockets : List (Text × ℕ) → List ℕ
sockets sessions = map (λ (x : Text × ℕ). x.1) sessions

length-sockets : (sessions : List (Text × ℕ)) → length (sockets sessions) ≡ length sessions
length-sockets [] = refl
length-sockets (x ∷ sessions) = omega (arith, length-sockets sessions)

-- No session is of a consumer that is there, nor two of the same.
abbrev pub IsNew : Text → Dict (Dict ℕ) → List (Text × ℕ) → Type 0
IsNew key consumers [] = Unit
IsNew key consumers ((user, ws) ∷ sessions) =
    (lookup (tick_consumer user key) consumers ≡ none)
    × IsNew key (insert (tick_consumer user key) ((key, ws) ∷ []) consumers) sessions

module _ {B F : Type 0} (w : Sources B F) where
  unfoldable pub open_all :
      Text
      → Text
      → List (Text × ℕ)
      → Connections × FeedService F × B
      → Connections × FeedService F × B
  open_all symbol exchange [] x = x
  open_all symbol exchange ((user, ws) ∷ sessions) x =
      open_all symbol exchange sessions (open_ticks w symbol exchange user ws x).1

  open_ticks-connections :
      (symbol exchange user : Text) (ws : ℕ) (c : Connections) (s : FeedService F) (b : B)
      → sockets_of (symbol_key symbol exchange) (open_ticks w symbol exchange user ws (c, s, b)).1.0
        ≡ sockets_of (symbol_key symbol exchange) c ++ ws ∷ []
  unfolding open_ticks connect
  open_ticks-connections symbol exchange user ws c s b =
      rw
        (lookup-insert_self (symbol_key symbol exchange)
          (sockets_of (symbol_key symbol exchange) c ++ ws ∷ []) c)
        refl

  pub open_ticks-consumers :
      (symbol exchange user : Text) (ws : ℕ) (c : Connections) (s : FeedService F) (b : B)
      → let key = symbol_key symbol exchange in
        lookup (tick_consumer user key) s.consumers ≡ none
        → (open_ticks w symbol exchange user ws (c, s, b)).1.1.consumers
          ≡ insert (tick_consumer user key) ((key, ws) ∷ []) s.consumers
  unfolding open_ticks register_subscription tick_subscription insert
  open_ticks-consumers symbol exchange user ws c s b h =
      rw
        (
          subscribe_state w (tick_subscription symbol exchange user ws) s b,
          symbol_key-upper symbol exchange,
          h,
        )
        refl

  abbrev Opened :
      Text
      → Connections × FeedService F × B
      → List (Text × ℕ)
      → Connections × FeedService F × B
      → Type 0
  Opened key (c, s, _) sessions (c', s', _) =
      (sockets_of key c' ≡ sockets_of key c ++ sockets sessions)
      × (callbacks_for key s'.consumers ≡ callbacks_for key s.consumers ++ sockets sessions)

  open_all-Opened :
      (symbol exchange : Text) (sessions : List (Text × ℕ))
      → (c : Connections) (s : FeedService F) (b : B)
      → IsNew (symbol_key symbol exchange) s.consumers sessions
      → Opened
          (symbol_key symbol exchange)
          (c, s, b)
          sessions
          (open_all symbol exchange sessions (c, s, b))
  unfolding open_all
  open_all-Opened symbol exchange [] c s b new = (sym (append-nil _), sym (append-nil _))
  open_all-Opened symbol exchange ((user, ws) ∷ sessions) c s b (new, news) =
      let key = symbol_key symbol exchange in
      let x = (open_ticks w symbol exchange user ws (c, s, b)).1 in
      let consumers = open_ticks-consumers symbol exchange user ws c s b new in
      let (e, k) =
        open_all-Opened symbol exchange sessions x.0 x.1 x.2
          (subst (λ d. IsNew key d sessions) (sym consumers) news) in
      let before =
        ap (callbacks_for key) consumers
        ∙ callbacks_for-insert key (tick_consumer user key) ws s.consumers new in
      (
        e
            ∙ ap (λ xs. xs ++ sockets sessions)
                (open_ticks-connections symbol exchange user ws c s b)
            ∙ append_assoc (sockets_of key c) (ws ∷ []) (sockets sessions),
        k
            ∙ ap (λ xs. xs ++ sockets sessions) before
            ∙ append_assoc (callbacks_for key s.consumers) (ws ∷ []) (sockets sessions),
      )

  -- Sessions of one symbol, of users that have none of it yet, on an application with no socket and
  -- no tick callback of the symbol: when all sockets take what is sent, one tick reaches each socket
  -- once for every session, and not once.
  pub open_all-copies :
      (takes : ℕ → Bool) (closures : ℕ → Option Closure) (symbol exchange : Text)
      → (sessions : List (Text × ℕ)) (c : Connections) (s : FeedService F) (b : B) (ws : ℕ)
      → ((ws : ℕ) → takes ws ≡ true)
      → All (λ callback. closures callback ≡ some (session symbol exchange)) (sockets sessions)
      → IsNew (symbol_key symbol exchange) s.consumers sessions
      → sockets_of (symbol_key symbol exchange) c ≡ []
      → callbacks_for (symbol_key symbol exchange) s.consumers ≡ []
      → let (c', s', _) = open_all symbol exchange sessions (c, s, b) in
        times ws
          (deliver takes closures
            (callbacks_for (symbol_key symbol exchange) s'.consumers)
            symbol
            c').0
        ≡ length sessions * times ws (sockets sessions)
  open_all-copies takes closures symbol exchange sessions c s b ws all own new none_ quiet =
      let (e, k) = open_all-Opened symbol exchange sessions c s b new in
      let e' = e ∙ ap (λ xs. xs ++ sockets sessions) none_ in
      let k' = k ∙ ap (λ xs. xs ++ sockets sessions) quiet in
      let x = open_all symbol exchange sessions (c, s, b) in
      rw k' (
        deliver_lem takes closures symbol exchange (sockets sessions) x.0 ws all own
        ∙ rw (e', length-sockets sessions) refl)
