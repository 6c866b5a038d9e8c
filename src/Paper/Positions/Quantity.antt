-- ===== src/Paper/Positions/Quantity.antt =====
-- What a fill does to the quantities of the book (`_update_position` of the paper adapter).
use nexa_trade.Prelude.{◌≡◌, ap, [], ◌∷◌, if◌then◌else◌, arith, ◌∙◌}
use nexa_trade.Prelude.Int.{
  ℤ, pos, ◌+ℤ◌, ◌-ℤ◌, ◌<ℤ◌, int_laws, +ℤ_parts, -ℤ_parts, eq_of_parts, pos_part, neg_part,
}
use nexa_trade.Text.{Text, text_eq}
use nexa_trade.Dict.{Dict, lookup, insert, lookup-insert}
use nexa_trade.Float.{Float}
use nexa_trade.Outcome.{Returns, Returns->>=}
use nexa_trade.Models.Enums.{TransactionType}
use nexa_trade.Paper.Positions.{
  PaperPosition, apply_buy, apply_sell, apply_fill, entry, update_position,
}

-- A quantity with the sign of its side.
unfoldable pub signed : TransactionType → ℤ → ℤ
signed TransactionType.buy q = q
signed TransactionType.sell q = pos 0 -ℤ q

module _ {F : Type 0} where
  -- The sum of all quantities of the book.
  abbrev pub net : Dict (PaperPosition F) → ℤ
  net [] = pos 0
  net ((_, p) ∷ book) = p.quantity +ℤ net book

module _ {F : Type 0} ⦃f : Float F⦄ where
  -- A fill of a positive quantity never raises, and moves the position by exactly that quantity.
  pub apply_fill_moves :
      (side : TransactionType) (q : ℤ) (price : F) (p : PaperPosition F)
      → pos 0 <ℤ q
      → Returns (λ p'. p'.quantity ≡ p.quantity +ℤ signed side q) (apply_fill side q price p)
  unfolding apply_fill apply_buy apply_sell signed
  apply_fill_moves TransactionType.buy q price p h = ground (arith, +ℤ_parts p.quantity q)
  apply_fill_moves TransactionType.sell q price p h = ground (
    arith,
    -ℤ_parts p.quantity q,
    -ℤ_parts (pos 0) q,
    +ℤ_parts p.quantity (pos 0 -ℤ q),
    eq_of_parts (p.quantity -ℤ q) (p.quantity +ℤ (pos 0 -ℤ q)),
  )

  -- The quantity that the book holds under a key.
  abbrev pub held : Text → Dict (PaperPosition F) → ℤ
  held key book = (entry (lookup key book)).quantity

  net-insert :
      (key : Text) (p : PaperPosition F) (book : Dict (PaperPosition F))
      → net (insert key p book) +ℤ held key book ≡ net book +ℤ p.quantity
  unfolding insert lookup
  net-insert key p [] = omega int_laws
  net-insert key p ((j, q) ∷ book) =
      grind (int_laws, ap pos_part (net-insert key p book), ap neg_part (net-insert key p book))

  held-insert :
      (key j : Text) (p : PaperPosition F) (book : Dict (PaperPosition F))
      → held j (insert key p book) ≡ (if text_eq key j then p.quantity else held j book)
  held-insert key j p book = ground (arith, lookup-insert key j p book)

  net_step :
      (key : Text) (p : PaperPosition F) (book : Dict (PaperPosition F)) (delta : ℤ)
      → p.quantity ≡ held key book +ℤ delta
      → net (insert key p book) ≡ net book +ℤ delta
  net_step key p book delta e = omega (
    int_laws,
    ap pos_part (net-insert key p book),
    ap neg_part (net-insert key p book),
    ap pos_part e,
    ap neg_part e,
  )

  -- A fill of a positive quantity does not raise; it changes one entry of the book by its signed
  -- quantity, and so the sum of all entries.
  pub update_position_moves :
      (key : Text) (side : TransactionType) (q : ℤ) (price : F) (book : Dict (PaperPosition F))
      → pos 0 <ℤ q
      → Returns
          (λ book'.
            ((j : Text)
              → held j book'
                ≡ (if text_eq key j then held key book +ℤ signed side q else held j book))
            × (net book' ≡ net book +ℤ signed side q))
          (update_position key side q price book)
  unfolding update_position
  update_position_moves key side q price book h =
      Returns->>= _ _ (apply_fill side q price (entry (lookup key book))) _
        (apply_fill_moves side q price (entry (lookup key book)) h)
        (λ p e. (
          λ j. held-insert key j p book ∙ ap (λ v. if text_eq key j then v else held j book) e,
          net_step key p book (signed side q) e,
        ))
