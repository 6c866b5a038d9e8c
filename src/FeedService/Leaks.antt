-- ===== src/FeedService/Leaks.antt =====
-- Subscriptions that `unsubscribe` and `unsubscribe_all` take from others or leave behind.
use nexa_trade.Prelude.{
  ℕ, ◌+◌, ◌-◌, ◌≡◌, ◌≢◌, refl, true, false, Option, none, some, [], ◌∷◌, ◌++◌, All, arith, ltb,
  get_or,
}
use mathlib.Core.Path.{subst}
use nexa_trade.Text.{Text, codes, text_eq_refl, upper, upper_code, upper-upper}
use nexa_trade.Dict.{lookup, insert, lookup-insert_self, lookup-erase_self}
use nexa_trade.Outcome.{ok}
use nexa_trade.FeedService.{
  FeedService, Sources, Subscription, symbol_key, refs_of, set_callback, drop_callback,
  register_subscription, subscribe, unsubscribe, split_key, unsubscribe_keys, unsubscribe_all,
}
use nexa_trade.FeedService.Refs.{IsFeed}

abbrev NoColon : Text → Type 0
NoColon t = All (λ c. c ≢ b':') t

split_key-colon : (a t : Text) → NoColon a → split_key (a ++ (codes ":" ++ t)) ≡ (a, t)
unfolding split_key
split_key-colon [] t h = refl
split_key-colon (c ∷ a) t (h, hs) = ground (arith, split_key-colon a t hs)

upper-NoColon : (s : Text) → NoColon s → NoColon (upper s)
unfolding upper upper_code
upper-NoColon [] h = tt
upper-NoColon (c ∷ s) (h, hs) = (ground arith, upper-NoColon s hs)

pub symbol_key-upper : (s e : Text) → symbol_key (upper s) (upper e) ≡ symbol_key s e
unfolding symbol_key
symbol_key-upper s e = rw (upper-upper s, upper-upper e) refl

pub split_key-symbol_key :
    (s e : Text) → NoColon s → split_key (symbol_key s e) ≡ (upper s, upper e)
unfolding symbol_key
split_key-symbol_key s e h = split_key-colon (upper s) (upper e) (upper-NoColon s h)

module _ {B F : Type 0} (w : Sources B F) where
  -- A consumer that is not registered at all ends the feed of a symbol that somebody else has
  -- subscribed once: the count is gone, and the broker feeds it no more, while the callbacks of all
  -- consumers stay.
  pub unsubscribe_stranger :
      (feed : IsFeed w) (symbol exchange stranger : Text) (interval : Option Text)
      (s : FeedService F) (b : B)
      → lookup stranger s.consumers ≡ none
      → refs_of (symbol_key symbol exchange) s.subscription_refs ≡ 1
      → let (_, s', b') = unsubscribe w symbol exchange stranger interval s b in
        (s'.consumers ≡ s.consumers)
        × (lookup (symbol_key symbol exchange) s'.subscription_refs ≡ none)
        × (feed.live b' (symbol_key symbol exchange) ≡ false)
  unfolding unsubscribe drop_callback
  unsubscribe_stranger feed symbol exchange stranger interval s b h one =
      let k = symbol_key symbol exchange in
      ground (
        arith,
        feed.unsubscribe_ok symbol exchange b,
        feed.live-unsubscribe symbol exchange b k,
        lookup-erase_self k s.subscription_refs,
        text_eq_refl k,
      )

  pub subscribe_state :
      (p : Subscription) (s : FeedService F) (b : B)
      → (subscribe w p s b).1 ≡ register_subscription w p s
  unfolding subscribe
  subscribe_state p s b = ground arith

  pub register-refs :
      (p : Subscription) (s : FeedService F)
      → refs_of (symbol_key p.symbol p.exchange) (register_subscription w p s).subscription_refs
        ≡ refs_of (symbol_key p.symbol p.exchange) s.subscription_refs + 1
  unfolding register_subscription
  register-refs p s = ground (
    arith,
    lookup-insert_self (symbol_key p.symbol p.exchange)
        (refs_of (symbol_key p.symbol p.exchange) s.subscription_refs + 1) s.subscription_refs,
  )

  pub register-consumers :
      (p : Subscription) (s : FeedService F)
      → lookup p.consumer_id (register_subscription w p s).consumers
        ≡ some (
            set_callback p.tick_callback
              (symbol_key p.symbol p.exchange)
              (get_or (lookup p.consumer_id s.consumers) []))
  unfolding register_subscription
  register-consumers p s = lookup-insert_self p.consumer_id _ s.consumers

  -- One call with a count of two or more leaves one fewer.
  pub unsubscribe_keeps :
      (symbol exchange c : Text) (s : FeedService F) (b : B)
      → ltb 1 (refs_of (symbol_key symbol exchange) s.subscription_refs) ≡ true
      → ((unsubscribe w symbol exchange c none s b).0 ≡ ok tt)
        × (refs_of
              (symbol_key symbol exchange)
              (unsubscribe w symbol exchange c none s b).1.subscription_refs
            ≡ refs_of (symbol_key symbol exchange) s.subscription_refs - 1)
  unfolding unsubscribe
  unsubscribe_keeps symbol exchange c s b h =
      let k = symbol_key symbol exchange in
      ground (arith, lookup-insert_self k (refs_of k s.subscription_refs - 1) s.subscription_refs)

  unsubscribe_keys-one :
      (k c symbol exchange : Text) (s : FeedService F) (b : B)
      → split_key k ≡ (symbol, exchange)
      → (unsubscribe w symbol exchange c none s b).0 ≡ ok tt
      → (unsubscribe_keys w (k ∷ []) c s b).1 ≡ (unsubscribe w symbol exchange c none s b).1
  unfolding unsubscribe_keys
  unsubscribe_keys-one k c symbol exchange s b split done = ground (arith, split, done)

  unsubscribe_all-keys :
      (k c : Text) (cb : ℕ) (s : FeedService F) (b : B)
      → lookup c s.consumers ≡ some ((k, cb) ∷ [])
      → unsubscribe_all w c s b ≡ unsubscribe_keys w (k ∷ []) c s b
  unfolding unsubscribe_all
  unsubscribe_all-keys k c cb s b h = rw h refl

  -- A consumer that subscribes a symbol twice has one callback for it.
  pub callbacks_twice :
      (p : Subscription) (interval : Option Text) (cb : ℕ) (s : FeedService F)
      → p.tick_callback ≡ some cb
      → lookup p.consumer_id s.consumers ≡ none
      → lookup p.consumer_id
          (register_subscription w
            (record p { interval = interval })
            (register_subscription w p s)).consumers
        ≡ some ((symbol_key p.symbol p.exchange, cb) ∷ [])
  unfolding insert
  callbacks_twice p interval cb s h new =
      rw
        (
          register-consumers (record p { interval = interval }) (register_subscription w p s),
          register-consumers p s,
          h,
          new,
          text_eq_refl (symbol_key p.symbol p.exchange),
        )
        refl

  -- A consumer with a callback that has no subscription yet and subscribes one symbol, without a
  -- colon in its name, for two intervals: once `unsubscribe_all` has removed the consumer, the symbol
  -- counts one subscription more than before.
  pub unsubscribe_all_leaks :
      (p : Subscription) (interval : Option Text) (cb : ℕ) (s : FeedService F) (b : B)
      → p.tick_callback ≡ some cb
      → NoColon p.symbol
      → lookup p.consumer_id s.consumers ≡ none
      → let (_, s', b') = subscribe w p s b in
        let (_, s'', b'') = subscribe w (record p { interval = interval }) s' b' in
        refs_of
          (symbol_key p.symbol p.exchange)
          (unsubscribe_all w p.consumer_id s'' b'').1.subscription_refs
        ≡ refs_of (symbol_key p.symbol p.exchange) s.subscription_refs + 1
  unsubscribe_all_leaks p interval cb s b h plain new =
      let q : Subscription = record p { interval = interval } in
      let k = symbol_key p.symbol p.exchange in
      let s' = (subscribe w p s b).1 in
      let b' = (subscribe w p s b).2 in
      let s'' = (subscribe w q s' b').1 in
      let b'' = (subscribe w q s' b').2 in
      let at : s'' ≡ register_subscription w q (register_subscription w p s) =
        rw (subscribe_state q s' b', subscribe_state p s b) refl in
      let refs : refs_of k s''.subscription_refs ≡ refs_of k s.subscription_refs + 1 + 1 =
        rw (at, register-refs q (register_subscription w p s), register-refs p s) refl in
      let one : lookup p.consumer_id s''.consumers ≡ some ((k, cb) ∷ []) =
        rw (at, callbacks_twice p interval cb s h new) refl in
      let split = split_key-symbol_key p.symbol p.exchange plain in
      let same = symbol_key-upper p.symbol p.exchange in
      let (done, left) =
        unsubscribe_keeps (upper p.symbol) (upper p.exchange) p.consumer_id s'' b''
          (rw (same, refs) (ground arith)) in
      let gone =
        unsubscribe_keys-one k p.consumer_id (upper p.symbol) (upper p.exchange) s'' b'' split
          done in
      let fewer =
        subst
          (λ x.
            refs_of x
              (unsubscribe w (upper p.symbol) (upper p.exchange) p.consumer_id none s''
                b'').1.subscription_refs
            ≡ refs_of x s''.subscription_refs - 1)
          same left in
      rw (unsubscribe_all-keys k p.consumer_id cb s'' b'' one, gone, fewer, refs) (ground arith)
