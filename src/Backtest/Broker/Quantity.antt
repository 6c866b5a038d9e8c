-- ===== src/Backtest/Broker/Quantity.antt =====
-- What a fill does to the simulated broker's quantities (`_update_position` of the backtester).
use nexa_trade.Prelude.{
  ◌≡◌, ap, List, [], ◌∷◌, ◌++◌, if◌then◌else◌, arith, ◌∙◌, Bool-cases, inl, inr,
}
use mathlib.Core.Path.{subst}
use nexa_trade.Prelude.Int.{
  ℤ, pos, ◌+ℤ◌, ◌-ℤ◌, ◌<ℤ◌, int_laws, +ℤ_parts, -ℤ_parts, eq_of_parts, pos_part, neg_part,
}
use nexa_trade.Text.{Text, text_eq, text_eq→eq}
use nexa_trade.Dict.{Dict, lookup, insert, lookup-insert}
use nexa_trade.Float.{Float}
use nexa_trade.Outcome.{Returns, Returns->>=}
use nexa_trade.Models.Enums.{TransactionType}
use nexa_trade.Models.Market.{Fill}
use nexa_trade.Backtest.Broker.{
  SimPosition, apply_buy, apply_sell, apply_fill, entry, update_position,
}

-- A quantity with the sign of its side.
abbrev pub signed : TransactionType → ℤ → ℤ
signed TransactionType.buy q = q
signed TransactionType.sell q = pos 0 -ℤ q

module _ {F : Type 0} ⦃f : Float F⦄ where
  -- A fill of a positive quantity does not raise, and moves the position by exactly that quantity.
  pub apply_fill_moves :
      (side : TransactionType) (q : ℤ) (price : F) (p : SimPosition F)
      → pos 0 <ℤ q
      → Returns (λ out. out.0.quantity ≡ p.quantity +ℤ signed side q) (apply_fill side q price p)
  unfolding apply_fill apply_buy apply_sell
  apply_fill_moves TransactionType.buy q price p h = ground (arith, +ℤ_parts p.quantity q)
  apply_fill_moves TransactionType.sell q price p h = ground (
    arith,
    -ℤ_parts p.quantity q,
    -ℤ_parts (pos 0) q,
    +ℤ_parts p.quantity (pos 0 -ℤ q),
    eq_of_parts (p.quantity -ℤ q) (p.quantity +ℤ (pos 0 -ℤ q)),
  )

  -- The quantity that the book holds of a symbol.
  abbrev pub held : Text → Dict (SimPosition F) → ℤ
  held symbol book = (entry (lookup symbol book)).quantity

  held-insert :
      (symbol j : Text) (p : SimPosition F) (book : Dict (SimPosition F))
      → held j (insert symbol p book) ≡ (if text_eq symbol j then p.quantity else held j book)
  held-insert symbol j p book = ground (arith, lookup-insert symbol j p book)

  held_step :
      (symbol j : Text) (book : Dict (SimPosition F)) (v delta : ℤ)
      → v ≡ held symbol book +ℤ delta
      → (if text_eq symbol j then v else held j book)
        ≡ held j book +ℤ (if text_eq symbol j then delta else pos 0)
  held_step symbol j book v delta e = elim (Bool-cases (text_eq symbol j)) [
    | inl same ↦ rw same (subst (λ k. v ≡ held k book +ℤ delta) (text_eq→eq symbol j same) e)
    | inr other ↦ rw other (omega int_laws)
  ]

  -- What the fills of a symbol bought, less what they sold.
  abbrev pub traded : Text → List (Fill F) → ℤ
  traded symbol [] = pos 0
  traded symbol (x ∷ xs) =
      (if text_eq x.symbol symbol then signed x.transaction_type x.quantity else pos 0)
      +ℤ traded symbol xs

  pub traded-snoc :
      (symbol : Text) (xs : List (Fill F)) (x : Fill F)
      → traded symbol (xs ++ x ∷ [])
        ≡ traded symbol xs
          +ℤ (if text_eq x.symbol symbol then signed x.transaction_type x.quantity else pos 0)
  traded-snoc symbol [] x = omega int_laws
  traded-snoc symbol (y ∷ xs) x =
      omega (int_laws, ap pos_part (traded-snoc symbol xs x), ap neg_part (traded-snoc symbol xs x))

  -- A fill changes the quantity of its own symbol by its signed quantity, and no other.
  pub update_position_adds :
      (symbol : Text) (side : TransactionType) (q : ℤ) (price : F) (book : Dict (SimPosition F))
      → pos 0 <ℤ q
      → Returns
          (λ out.
            (j : Text)
            → held j out.0 ≡ held j book +ℤ (if text_eq symbol j then signed side q else pos 0))
          (update_position symbol side q price book)
  unfolding update_position
  update_position_adds symbol side q price book h =
      Returns->>= _ _ (apply_fill side q price (entry (lookup symbol book))) _
        (apply_fill_moves side q price (entry (lookup symbol book)) h)
        (λ out e j.
          held-insert symbol j out.0 book
          ∙ held_step symbol j book out.0.quantity (signed side q) e)
