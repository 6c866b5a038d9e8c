-- ===== src/Sockets/Manager.antt =====
-- What a broadcast leaves of the connections.
use nexa_trade.Prelude.{
  ℕ, ◌≡◌, refl, sym, ap, ◌∙◌, Bool, true, false, Bool-cases, inl, inr, not, List, [], ◌∷◌, keep_if,
  All, arith, ◌==◌, ==_iff, if◌then◌else◌,
}
use nexa_trade.Text.{Text, text_eq, text_eq→eq}
use nexa_trade.Dict.{lookup-insert, lookup-erase}
use nexa_trade.Callbacks.{has, remove, unregister}
use nexa_trade.Sockets.{Connections, sockets_of, store, disconnect, disconnect_all, broadcast}
use nexa_trade.Sockets.Cutoff.{sockets_of-store}

-- The sockets of a list one after the other taken out of another.
abbrev unregister_all : List ℕ → List ℕ → List ℕ
unregister_all [] xs = xs
unregister_all (d ∷ ds) xs = unregister_all ds (unregister d xs)

sockets_of-disconnect_all :
    (dead : List ℕ) (key : Text) (c : Connections)
    → sockets_of key (disconnect_all dead key c) ≡ unregister_all dead (sockets_of key c)
unfolding disconnect_all disconnect
sockets_of-disconnect_all [] key c = refl
sockets_of-disconnect_all (d ∷ dead) key c =
    sockets_of-disconnect_all dead key (disconnect d key c)
    ∙ ap (unregister_all dead) (sockets_of-store key (unregister d (sockets_of key c)) c)

sockets_of-store_other :
    (key j : Text) (l : List ℕ) (c : Connections)
    → text_eq key j ≡ false
    → sockets_of j (store key l c) ≡ sockets_of j c
unfolding store
sockets_of-store_other key j [] c h = ground (arith, h, lookup-erase key j c)
sockets_of-store_other key j (ws ∷ l) c h = ground (arith, h, lookup-insert key j (ws ∷ l) c)

disconnect_all_other :
    (dead : List ℕ) (key j : Text) (c : Connections)
    → text_eq key j ≡ false
    → sockets_of j (disconnect_all dead key c) ≡ sockets_of j c
unfolding disconnect_all disconnect
disconnect_all_other [] key j c h = refl
disconnect_all_other (d ∷ dead) key j c h =
    disconnect_all_other dead key j (disconnect d key c) h
    ∙ sockets_of-store_other key j (unregister d (sockets_of key c)) c h

module _ (takes : ℕ → Bool) where
  abbrev dead_of : List ℕ → List ℕ
  dead_of xs = keep_if (λ ws. not (takes ws)) xs

  takes_apart : (d x : ℕ) → takes d ≡ false → takes x ≡ true → (x == d) ≡ false
  takes_apart d x h k = elim (Bool-cases (x == d)) [
    | inl e ↦ let clash = sym k ∙ (ap takes ((==_iff x d).0 e) ∙ h) in ground (arith, clash)
    | inr e ↦ e
  ]

  -- A socket that takes what is sent is not among the others.
  unregister-cons :
      (d x : ℕ) (xs : List ℕ)
      → takes d ≡ false
      → takes x ≡ true
      → unregister d (x ∷ xs) ≡ x ∷ unregister d xs
  unfolding unregister has remove
  unregister-cons d x xs h k = ground (arith, takes_apart d x h k)

  unregister_all-cons :
      (ds xs : List ℕ) (x : ℕ)
      → All (λ d. takes d ≡ false) ds
      → takes x ≡ true
      → unregister_all ds (x ∷ xs) ≡ x ∷ unregister_all ds xs
  unregister_all-cons [] xs x hs k = refl
  unregister_all-cons (d ∷ ds) xs x (h, hs) k =
      ap (unregister_all ds) (unregister-cons d x xs h k)
      ∙ unregister_all-cons ds (unregister d xs) x hs k

  dead-cons :
      (b : Bool) (x : ℕ) (ds : List ℕ)
      → takes x ≡ b
      → All (λ d. takes d ≡ false) ds
      → All (λ d. takes d ≡ false) (if not b then x ∷ ds else ds)
  dead-cons true x ds h hs = hs
  dead-cons false x ds h hs = (h, hs)

  dead_of_lem : (xs : List ℕ) → All (λ d. takes d ≡ false) (dead_of xs)
  dead_of_lem [] = tt
  dead_of_lem (x ∷ xs) = dead-cons (takes x) x (dead_of xs) refl (dead_of_lem xs)

  unregister-head : (x : ℕ) (xs : List ℕ) → unregister x (x ∷ xs) ≡ xs
  unfolding unregister has remove
  unregister-head x xs = ground arith

  unregister_all-dead : (xs : List ℕ) → unregister_all (dead_of xs) xs ≡ keep_if takes xs
  unregister_all-dead [] = refl
  unregister_all-dead (x ∷ xs) = elim (Bool-cases (takes x)) [
    | inl h ↦ rw h (
        unregister_all-cons (dead_of xs) xs x (dead_of_lem xs) h
        ∙ ap (◌∷◌ x) (unregister_all-dead xs))
    | inr h ↦
        rw h (ap (unregister_all (dead_of xs)) (unregister-head x xs) ∙ unregister_all-dead xs)
  ]

  -- A broadcast reaches exactly the sockets of its key that take what is sent, as often as each is
  -- connected, and leaves exactly them connected to it; the sockets of other keys stay.
  pub broadcast_lem :
      (key j : Text) (c : Connections)
      → let (sent, c') = broadcast takes key c in
        (sent ≡ keep_if takes (sockets_of key c))
        × (sockets_of j c' ≡ (if text_eq key j then sent else sockets_of j c))
  unfolding broadcast
  broadcast_lem key j c =
      let xs = sockets_of key c in
      (
        refl,
        elim (Bool-cases (text_eq key j)) [
          | inl e ↦ rw e (
              ap (λ k. sockets_of k (disconnect_all (dead_of xs) key c)) (sym (text_eq→eq key j e))
              ∙ (sockets_of-disconnect_all (dead_of xs) key c ∙ unregister_all-dead xs))
          | inr e ↦ rw e (disconnect_all_other (dead_of xs) key j c e)
        ],
      )
