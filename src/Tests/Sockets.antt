-- ===== src/Tests/Sockets.antt =====
-- Sockets of one symbol on concrete values.
use nexa_trade.Prelude.{
  ℕ, ◌+◌, ◌*◌, ◌≡◌, refl, true, false, none, some, List, [], ◌∷◌, keep_if, ltb, if◌then◌else◌,
}
use nexa_trade.Text.{Text, codes, text_eq}
use nexa_trade.Dict.{lookup, insert}
use nexa_trade.Callbacks.{has, remove, unregister}
use nexa_trade.FeedService.{symbol_key, refs_of}
use nexa_trade.FeedService.Ticks.{callbacks_for}
use nexa_trade.Sockets.{
  Connections, sockets_of, tick_consumer, store, disconnect, disconnect_all, broadcast, deliver,
  open_ticks, close_ticks,
}
use nexa_trade.Sockets.Manager.{broadcast_lem}
use nexa_trade.Sockets.Copies.{times, session, sockets, open_all, open_all-copies}
use nexa_trade.Sockets.Cutoff.{close_ticks-cutoff}
use nexa_trade.Tests.Feed.{sources, fed}

abbrev infy : Text
infy = codes "INFY:NSE"

abbrev connected : Connections
connected = (infy, 1 ∷ 7 ∷ 2 ∷ 7 ∷ []) ∷ []

broadcast_reaches :
    let (sent, c') = broadcast (λ ws. ltb ws 5) infy connected in
    (sent ≡ keep_if (λ ws. ltb ws 5) (sockets_of infy connected))
    × (sockets_of infy c' ≡ (if text_eq infy infy then sent else sockets_of infy connected))
broadcast_reaches = broadcast_lem (λ ws. ltb ws 5) infy infy connected

dead_sockets_leave : (broadcast (λ ws. ltb ws 5) infy connected).1 ≡ (infy, 1 ∷ 2 ∷ []) ∷ []
unfolding broadcast disconnect_all lookup text_eq disconnect store unregister has remove insert
dead_sockets_leave = refl

abbrev two_users : List (Text × ℕ)
two_users = (codes "anna", 1) ∷ (codes "ben", 2) ∷ []

open_all-copies_example :
    let (c', s', _) =
      open_all sources (codes "infy") (codes "nse") two_users ([], fed [], λ j. false) in
    times 1
      (deliver
        (λ ws. true)
        (λ callback. some (session (codes "infy") (codes "nse")))
        (callbacks_for (symbol_key (codes "infy") (codes "nse")) s'.consumers)
        (codes "infy")
        c').0
    ≡ 2 * times 1 (sockets two_users)
unfolding tick_consumer symbol_key insert lookup text_eq callbacks_for
open_all-copies_example =
    open_all-copies sources (λ ws. true) (λ callback. some (session (codes "infy") (codes "nse")))
      (codes "infy") (codes "nse") two_users [] (fed []) (λ j. false) 1 (λ ws. refl)
      (refl, (refl, tt)) (refl, (refl, tt)) refl refl

close_ticks-cutoff_example :
    let symbol = codes "INFY" in
    let exchange = codes "NSE" in
    let key = symbol_key symbol exchange in
    let one = (open_ticks sources symbol exchange (codes "anna") 1 ([], fed [], λ j. false)).1 in
    let two = (open_ticks sources symbol exchange (codes "anna") 2 one).1 in
    let (c', s', _) = (close_ticks sources symbol exchange (codes "anna") 1 two).1 in
    (has 2 (sockets_of key c') ≡ true)
    × (refs_of key s'.subscription_refs ≡ refs_of key [] + 1)
    × (lookup (tick_consumer (codes "anna") key) s'.consumers ≡ none)
unfolding lookup
close_ticks-cutoff_example =
    close_ticks-cutoff sources (codes "INFY") (codes "NSE") (codes "anna") 1 2 [] (fed [])
      (λ j. false) refl refl
