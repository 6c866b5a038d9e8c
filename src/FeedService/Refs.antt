-- ===== src/FeedService/Refs.antt =====
-- The reference counts against the broker's feed.
use nexa_trade.Prelude.{
  ℕ, ◌+◌, ◌-◌, ◌≡◌, Bool, true, false, Option, List, [], ◌∷◌, arith, ltb, if◌then◌else◌,
}
use nexa_trade.Text.{Text, text_eq, text_eq_iff, text_eq_refl, upper}
use nexa_trade.Dict.{Dict, insert, erase, lookup-insert, lookup-erase}
use nexa_trade.Outcome.{ok}
use nexa_trade.FeedService.{
  FeedService, Sources, Subscription, symbol_key, refs_of, register_subscription, subscribe,
  unsubscribe,
}

-- The calls that change the counts.
pub data FeedCall : Type 0 where
  sub : Subscription → FeedCall
  unsub : Text → Text → Text → Option Text → FeedCall

-- How many subscriptions of a symbol are left: one more with each `subscribe`, one fewer, but not
-- below zero, with each `unsubscribe`.
abbrev pub left_by : Text → FeedCall → ℕ → ℕ
left_by j (sub p) n = if text_eq (symbol_key p.symbol p.exchange) j then n + 1 else n
left_by j (unsub symbol exchange _ _) n =
    if text_eq (symbol_key symbol exchange) j then n - 1 else n

abbrev pub left_after : Text → List FeedCall → ℕ → ℕ
left_after j [] n = n
left_after j (c ∷ cs) n = left_after j cs (left_by j c n)

refs-insert :
    (k j : Text) (n : ℕ) (refs : Dict ℕ)
    → refs_of j (insert k n refs) ≡ (if text_eq k j then n else refs_of j refs)
refs-insert k j n refs = ground (arith, lookup-insert k j n refs)

refs-erase :
    (k j : Text) (refs : Dict ℕ)
    → refs_of j (erase k refs) ≡ (if text_eq k j then 0 else refs_of j refs)
refs-erase k j refs = ground (arith, lookup-erase k j refs)

module _ {B F : Type 0} (w : Sources B F) where
  -- A broker whose calls succeed, and whose feed has the symbols that were subscribed last.
  pub record IsFeed : Type 0 where
    pub live : B → Text → Bool
    pub subscribe_ok :
        (symbol exchange : Text) (b : B)
        → (w.subscribe_ticks (upper symbol) (upper exchange) b).0 ≡ ok tt
    pub live-subscribe :
        (symbol exchange : Text) (b : B) (j : Text)
        → live (w.subscribe_ticks (upper symbol) (upper exchange) b).1 j
          ≡ (if text_eq (symbol_key symbol exchange) j then true else live b j)
    pub unsubscribe_ok :
        (symbol exchange : Text) (b : B)
        → (w.unsubscribe_ticks (upper symbol) (upper exchange) b).0 ≡ ok tt
    pub live-unsubscribe :
        (symbol exchange : Text) (b : B) (j : Text)
        → live (w.unsubscribe_ticks (upper symbol) (upper exchange) b).1 j
          ≡ (if text_eq (symbol_key symbol exchange) j then false else live b j)

  unfoldable pub run_call : FeedCall → FeedService F → B → FeedService F × B
  run_call (sub p) s b = let (_, s', b') = subscribe w p s b in (s', b')
  run_call (unsub symbol exchange consumer_id interval) s b =
      let (_, s', b') = unsubscribe w symbol exchange consumer_id interval s b in (s', b')

  unfoldable pub run_calls : List FeedCall → FeedService F → B → FeedService F × B
  run_calls [] s b = (s, b)
  run_calls (c ∷ cs) s b = let (s', b') = run_call c s b in run_calls cs s' b'

  module _ (feed : IsFeed) where
    open feed use {live, subscribe_ok, live-subscribe, unsubscribe_ok, live-unsubscribe}

    -- What a call leaves of a symbol: its count, and whether the broker feeds it.
    abbrev pub IsCounted : Text → ℕ → FeedService F × B → Type 0
    IsCounted j n (s, b) = (refs_of j s.subscription_refs ≡ n) × (live b j ≡ ltb 0 n)

    subscribe-IsCounted :
        (p : Subscription) (j : Text) (n : ℕ) (s : FeedService F) (b : B)
        → IsCounted j n (s, b)
        → IsCounted j (left_by j (sub p) n) (run_call (sub p) s b)
    unfolding run_call subscribe register_subscription
    subscribe-IsCounted p j n s b h =
        let k = symbol_key p.symbol p.exchange in
        let refs = s.subscription_refs in
        ground (
          arith,
          text_eq_iff k j,
          refs-insert k j (refs_of k refs + 1) refs,
          refs-insert k k (refs_of k refs + 1) refs,
          text_eq_refl k,
          subscribe_ok p.symbol p.exchange b,
          live-subscribe p.symbol p.exchange b j,
        )

    unsubscribe-IsCounted :
        (symbol exchange c : Text) (interval : Option Text) (j : Text) (n : ℕ) (s : FeedService F)
        (b : B)
        → IsCounted j n (s, b)
        → IsCounted j
            (left_by j (unsub symbol exchange c interval) n)
            (run_call (unsub symbol exchange c interval) s b)
    unfolding run_call unsubscribe
    unsubscribe-IsCounted symbol exchange c interval j n s b h = ground (
      arith,
      text_eq_iff (symbol_key symbol exchange) j,
      refs-insert (symbol_key symbol exchange) j
          (refs_of (symbol_key symbol exchange) s.subscription_refs - 1) s.subscription_refs,
      refs-erase (symbol_key symbol exchange) j s.subscription_refs,
      unsubscribe_ok symbol exchange b,
      live-unsubscribe symbol exchange b j,
    )

    run_call-IsCounted :
        (c : FeedCall) (j : Text) (n : ℕ) (s : FeedService F) (b : B)
        → IsCounted j n (s, b)
        → IsCounted j (left_by j c n) (run_call c s b)
    run_call-IsCounted (sub p) j n s b h = subscribe-IsCounted p j n s b h
    run_call-IsCounted (unsub symbol exchange c interval) j n s b h =
        unsubscribe-IsCounted symbol exchange c interval j n s b h

    -- With a broker whose calls succeed: after any `subscribe` and `unsubscribe` calls, of whatever
    -- consumers, the count of every symbol is what is left of its subscriptions, and the broker feeds
    -- a symbol exactly when that is not zero, if both were so before.
    pub run_calls-IsCounted :
        (cs : List FeedCall) (j : Text) (n : ℕ) (s : FeedService F) (b : B)
        → refs_of j s.subscription_refs ≡ n
        → live b j ≡ ltb 0 n
        → IsCounted j (left_after j cs n) (run_calls cs s b)
    unfolding run_calls
    run_calls-IsCounted [] j n s b h k = (h, k)
    run_calls-IsCounted (c ∷ cs) j n s b h k =
        let out = run_call c s b in
        let (h', k') = run_call-IsCounted c j n s b (h, k) in
        run_calls-IsCounted cs j (left_by j c n) out.0 out.1 h' k'
