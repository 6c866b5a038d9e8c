-- ===== src/Sockets/Cutoff.antt =====
-- Two sockets of one user for one symbol.
use nexa_trade.Prelude.{
  ℕ, ◌+◌, ◌-◌, ◌==◌, ◌≡◌, refl, ap, ◌∙◌, true, false, none, some, List, [], ◌∷◌, ◌++◌, get_or,
  arith, ltb,
}
use mathlib.Core.Path.{subst}
use nexa_trade.Text.{Text, text_eq_refl, upper}
use nexa_trade.Dict.{Dict, lookup, insert, erase, lookup-insert_self, lookup-erase_self}
use nexa_trade.Callbacks.{has, remove, unregister}
use nexa_trade.FeedService.{
  FeedService, Sources, symbol_key, refs_of, drop_callback, register_subscription, unsubscribe,
}
use nexa_trade.FeedService.Leaks.{
  subscribe_state, symbol_key-upper, register-refs, register-consumers, unsubscribe_keeps,
}
use nexa_trade.Sockets.Copies.{open_ticks-consumers}
use nexa_trade.Sockets.{
  Connections, sockets_of, tick_consumer, tick_subscription, connect, store, disconnect, open_ticks,
  close_ticks,
}

has-remove_other : (c d : ℕ) (cs : List ℕ) → (c == d) ≡ false → has d (remove c cs) ≡ has d cs
unfolding has remove
has-remove_other c d [] h = refl
has-remove_other c d (x ∷ cs) h = ground (arith, h, has-remove_other c d cs h)

has-unregister : (c d : ℕ) (cs : List ℕ) → (c == d) ≡ false → has d (unregister c cs) ≡ has d cs
unfolding unregister
has-unregister c d cs h = ground (arith, has-remove_other c d cs h)

pub sockets_of-store :
    (key : Text) (l : List ℕ) (c : Connections) → sockets_of key (store key l c) ≡ l
unfolding store
sockets_of-store key [] c = ap (λ found. get_or found []) (lookup-erase_self key c)
sockets_of-store key (ws ∷ l) c = ap (λ found. get_or found []) (lookup-insert_self key (ws ∷ l) c)

has-snoc : (d : ℕ) (cs : List ℕ) → has d (cs ++ d ∷ []) ≡ true
unfolding has
has-snoc d [] = ground arith
has-snoc d (x ∷ cs) = ground (arith, has-snoc d cs)

module _ {B F : Type 0} (w : Sources B F) where
  unsubscribe-consumers :
      (symbol exchange consumer : Text) (s : FeedService F) (b : B)
      → (unsubscribe w symbol exchange consumer none s b).1.consumers
        ≡ drop_callback consumer (symbol_key symbol exchange) s.consumers
  unfolding unsubscribe
  unsubscribe-consumers symbol exchange consumer s b = ground arith

  drop_callback-single :
      (consumer key : Text) (callback : ℕ) (d : Dict (Dict ℕ))
      → lookup consumer d ≡ some ((key, callback) ∷ [])
      → lookup consumer (drop_callback consumer key d) ≡ none
  unfolding drop_callback erase
  drop_callback-single consumer key callback d h =
      ground (arith, h, text_eq_refl key, lookup-erase_self consumer d)

  close_ticks-connections :
      (symbol exchange user : Text) (first second : ℕ) (c : Connections) (s : FeedService F) (b : B)
      → (first == second) ≡ false
      → has second (sockets_of (symbol_key symbol exchange) c) ≡ true
      → has second (
          sockets_of
            (symbol_key symbol exchange)
            (close_ticks w symbol exchange user first (c, s, b)).1.0)
        ≡ true
  unfolding close_ticks disconnect
  close_ticks-connections symbol exchange user first second c s b other h =
      rw
        (
          sockets_of-store (symbol_key symbol exchange)
              (unregister first (sockets_of (symbol_key symbol exchange) c)) c,
          has-unregister first second (sockets_of (symbol_key symbol exchange) c) other,
        )
        h

  open_ticks-connected :
      (symbol exchange user : Text) (ws : ℕ) (c : Connections) (s : FeedService F) (b : B)
      → has ws (
          sockets_of
            (symbol_key symbol exchange)
            (open_ticks w symbol exchange user ws (c, s, b)).1.0)
        ≡ true
  unfolding open_ticks connect
  open_ticks-connected symbol exchange user ws c s b =
      let key = symbol_key symbol exchange in
      rw (lookup-insert_self key (sockets_of key c ++ ws ∷ []) c) (has-snoc ws (sockets_of key c))

  open_ticks-refs :
      (symbol exchange user : Text) (ws : ℕ) (c : Connections) (s : FeedService F) (b : B)
      → let key = symbol_key symbol exchange in
        refs_of key (open_ticks w symbol exchange user ws (c, s, b)).1.1.subscription_refs
        ≡ refs_of key s.subscription_refs + 1
  unfolding open_ticks tick_subscription
  open_ticks-refs symbol exchange user ws c s b =
      let p = tick_subscription symbol exchange user ws in
      rw (subscribe_state w p s b) (
        subst
          (λ k.
            refs_of k (register_subscription w p s).subscription_refs
            ≡ refs_of k s.subscription_refs + 1)
          (symbol_key-upper symbol exchange) (register-refs w p s))

  open_ticks-again :
      (symbol exchange user : Text) (ws cb : ℕ) (c : Connections) (s : FeedService F) (b : B)
      → let key = symbol_key symbol exchange in
        lookup (tick_consumer user key) s.consumers ≡ some ((key, cb) ∷ [])
        → lookup
            (tick_consumer user key)
            (open_ticks w symbol exchange user ws (c, s, b)).1.1.consumers
          ≡ some ((key, ws) ∷ [])
  unfolding open_ticks tick_subscription insert
  open_ticks-again symbol exchange user ws cb c s b h =
      let p = tick_subscription symbol exchange user ws in
      rw
        (
          subscribe_state w p s b,
          register-consumers w p s,
          h,
          symbol_key-upper symbol exchange,
          text_eq_refl (symbol_key symbol exchange),
        )
        refl

  close_ticks-state :
      (symbol exchange user : Text) (ws cb : ℕ) (c : Connections) (s : FeedService F) (b : B)
      → let key = symbol_key symbol exchange in
        lookup (tick_consumer user key) s.consumers ≡ some ((key, cb) ∷ [])
        → ltb 1 (refs_of key s.subscription_refs) ≡ true
        → let s' = (close_ticks w symbol exchange user ws (c, s, b)).1.1 in
          (lookup (tick_consumer user key) s'.consumers ≡ none)
          × (refs_of key s'.subscription_refs ≡ refs_of key s.subscription_refs - 1)
  unfolding close_ticks
  close_ticks-state symbol exchange user ws cb c s b h many =
      let key = symbol_key symbol exchange in
      let consumer = tick_consumer user key in
      let same = symbol_key-upper symbol exchange in
      let (_, fewer) =
        unsubscribe_keeps w (upper symbol) (upper exchange) consumer s b (rw same many) in
      (
        rw (unsubscribe-consumers (upper symbol) (upper exchange) consumer s b, same)
            (drop_callback-single consumer key cb s.consumers h),
        subst
            (λ k.
              refs_of k
                (unsubscribe w (upper symbol) (upper exchange) consumer none s
                  b).1.subscription_refs
              ≡ refs_of k s.subscription_refs - 1)
            same fewer,
      )

  -- A user without a tick subscription of a symbol opens two sockets for it, and closes the first:
  -- the second is still connected, and the feed counts one subscription more than before, but the user
  -- has no callback any more.
  pub close_ticks-cutoff :
      (symbol exchange user : Text) (first second : ℕ) (c : Connections) (s : FeedService F) (b : B)
      → (first == second) ≡ false
      → lookup (tick_consumer user (symbol_key symbol exchange)) s.consumers ≡ none
      → let key = symbol_key symbol exchange in
        let one = (open_ticks w symbol exchange user first (c, s, b)).1 in
        let two = (open_ticks w symbol exchange user second one).1 in
        let (c', s', _) = (close_ticks w symbol exchange user first two).1 in
        (has second (sockets_of key c') ≡ true)
        × (refs_of key s'.subscription_refs ≡ refs_of key s.subscription_refs + 1)
        × (lookup (tick_consumer user key) s'.consumers ≡ none)
  close_ticks-cutoff symbol exchange user first second c s b other new =
      let key = symbol_key symbol exchange in
      let one = (open_ticks w symbol exchange user first (c, s, b)).1 in
      let two = (open_ticks w symbol exchange user second one).1 in
      let at =
        ap (lookup (tick_consumer user key))
          (open_ticks-consumers w symbol exchange user first c s b new)
        ∙ lookup-insert_self (tick_consumer user key) ((key, first) ∷ []) s.consumers in
      let again = open_ticks-again symbol exchange user second first one.0 one.1 one.2 at in
      let refs =
        open_ticks-refs symbol exchange user second one.0 one.1 one.2
        ∙ ap (λ n. n + 1) (open_ticks-refs symbol exchange user first c s b) in
      let (gone, fewer) =
        close_ticks-state symbol exchange user first second two.0 two.1 two.2 again
          (rw refs (ground arith)) in
      (
        close_ticks-connections symbol exchange user first second two.0 two.1 two.2 other
            (open_ticks-connected symbol exchange user second one.0 one.1 one.2),
        fewer ∙ rw refs (omega arith),
        gone,
      )
