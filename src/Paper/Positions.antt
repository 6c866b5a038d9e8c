-- ===== src/Paper/Positions.antt =====
-- brokers/brokers/paper/paper_adapter.py, `_update_position`: the book of positions.
pub mod Quantity
use nexa_trade.Prelude.{◌≡◌, Bool, true, false, Option, none, some, ◌++◌, if◌then◌else◌}
use nexa_trade.Prelude.Int.{ℤ, pos, ◌+ℤ◌, ◌-ℤ◌, ltb_ℤ, leb_ℤ, eqb_ℤ, abs_ℤ, min_ℤ}
use nexa_trade.Text.{Text, codes, upper}
use nexa_trade.Dict.{Dict, lookup, insert}
use nexa_trade.Float.{Float, ◌⊕◌, ◌⊖◌, ◌⊗◌, ◌⊘◌, nought}
use nexa_trade.Outcome.{Outcome, ok, raised, zero_division, ◌>>=◌, ◌>>◌}
use nexa_trade.Models.Enums.{TransactionType, is_buy}

pub record PaperPosition (F : Type 0) : Type 0 where
  pub quantity : ℤ
  pub average_price : F
  pub realized_pnl : F

-- `f"{symbol.upper()}:{exchange.upper()}:{segment.upper()}"`
unfoldable pub position_key : Text → Text → Text → Text
position_key symbol exchange segment =
    upper symbol ++ (codes ":" ++ (upper exchange ++ (codes ":" ++ upper segment)))

module _ {F : Type 0} ⦃f : Float F⦄ where
  abbrev pub blank : PaperPosition F
  blank = record { quantity = pos 0; average_price = nought; realized_pnl = nought }

  -- The average over the shares held and the shares added, `(avg*held + price*added) / total`.
  abbrev pub averaged : F → ℤ → F → ℤ → ℤ → Outcome F
  averaged avg held price added total =
      if eqb_ℤ total (pos 0)
      then raised zero_division
      else ok ((avg ⊗ f.of_ℤ held ⊕ price ⊗ f.of_ℤ added) ⊘ f.of_ℤ total)

  -- A buy of `quantity` at `price`: adds to a long or flat position, or covers a short one.
  unfoldable pub apply_buy : ℤ → F → PaperPosition F → Outcome (PaperPosition F)
  apply_buy quantity price p =
      if leb_ℤ (pos 0) p.quantity
      then (do
        let new_qty = p.quantity +ℤ quantity
        avg ← averaged p.average_price p.quantity price quantity new_qty
        ok (record p { quantity = new_qty; average_price = avg }))
      else let close_qty = min_ℤ quantity (abs_ℤ p.quantity) in
        let pnl = (p.average_price ⊖ price) ⊗ f.of_ℤ close_qty in
        let remaining = p.quantity +ℤ quantity in
        ok (record p {
          quantity = remaining;
          average_price = if ltb_ℤ (pos 0) remaining then price else p.average_price;
          realized_pnl = p.realized_pnl ⊕ pnl;
        })

  -- A sale of `quantity` at `price`: adds to a short or flat position, or closes a long one.
  unfoldable pub apply_sell : ℤ → F → PaperPosition F → Outcome (PaperPosition F)
  apply_sell quantity price p =
      if leb_ℤ p.quantity (pos 0)
      then (do
        let new_qty = p.quantity -ℤ quantity
        avg ← averaged p.average_price (abs_ℤ p.quantity) price quantity (abs_ℤ new_qty)
        ok (record p { quantity = new_qty; average_price = avg }))
      else let close_qty = min_ℤ quantity p.quantity in
        let pnl = (price ⊖ p.average_price) ⊗ f.of_ℤ close_qty in
        let remaining = p.quantity -ℤ quantity in
        ok (record p {
          quantity = remaining;
          average_price = if ltb_ℤ remaining (pos 0) then price else p.average_price;
          realized_pnl = p.realized_pnl ⊕ pnl;
        })

  unfoldable pub apply_fill : TransactionType → ℤ → F → PaperPosition F → Outcome (PaperPosition F)
  unfolding apply_buy apply_sell
  apply_fill side quantity price p =
      if is_buy side then apply_buy quantity price p else apply_sell quantity price p

  -- The entry of a key, which is blank before its first fill.
  abbrev pub entry : Option (PaperPosition F) → PaperPosition F
  entry none = blank
  entry (some p) = p

  unfoldable pub update_position :
      Text → TransactionType → ℤ → F → Dict (PaperPosition F) → Outcome (Dict (PaperPosition F))
  update_position key side quantity price book = do
    p ← apply_fill side quantity price (entry (lookup key book))
    ok (insert key p book)
