-- ===== src/Paper/Portfolio/Keys.antt =====
-- The keys of the book, and what `get_positions` makes of them.
use nexa_trade.Prelude.{◌≡◌, ◌≢◌, refl, ap, ◌∙◌, [], ◌∷◌, ◌++◌, arith, All, some, none}
use nexa_trade.Text.{Text, codes, upper, upper_code, text_eq}
use nexa_trade.Dict.{Dict}
use nexa_trade.Float.{Float}
use nexa_trade.Outcome.{raised, validation_error, Returns}
use nexa_trade.Models.Enums.{
  Exchange, Segment, EnumField, given, defaulted, exchange_text, segment_text, exchange_of,
  segment_of,
}
use nexa_trade.Paper.Positions.{PaperPosition, position_key}
use nexa_trade.Paper.Portfolio.{split_colon, push_first, report}

-- A text with no `:` in it.
abbrev pub NoColon : Text → Type 0
NoColon t = All (λ c. c ≢ b':') t

split_colon-append :
    (a t : Text) → NoColon a → split_colon (a ++ (codes ":" ++ t)) ≡ a ∷ split_colon t
unfolding split_colon push_first
split_colon-append [] t h = refl
split_colon-append (c ∷ a) t (h, hs) = ground (arith, split_colon-append a t hs)

split_colon_piece : (a : Text) → NoColon a → split_colon a ≡ a ∷ []
unfolding split_colon push_first
split_colon_piece [] h = refl
split_colon_piece (c ∷ a) (h, hs) = ground (arith, split_colon_piece a hs)

upper-NoColon : (s : Text) → NoColon s → NoColon (upper s)
unfolding upper upper_code
upper-NoColon [] h = tt
upper-NoColon (c ∷ s) (h, hs) = (ground arith, upper-NoColon s hs)

-- Splitting a position key at its colons gives back the three parts that it was built from, in
-- upper case, provided that none of them has a colon.
pub split_colon-position_key :
    (symbol exchange segment : Text)
    → NoColon symbol
    → NoColon exchange
    → NoColon segment
    → split_colon (position_key symbol exchange segment)
      ≡ upper symbol ∷ upper exchange ∷ upper segment ∷ []
unfolding position_key
split_colon-position_key s e g hs he hg =
    split_colon-append (upper s) (upper e ++ (codes ":" ++ upper g)) (upper-NoColon s hs)
    ∙ ap (λ r. upper s ∷ r) (split_colon-append (upper e) (upper g) (upper-NoColon e he))
    ∙ ap (λ r. upper s ∷ upper e ∷ r) (split_colon_piece (upper g) (upper-NoColon g hg))

exchange_text-NoColon : (e : Exchange) → NoColon (exchange_text e)
exchange_text-NoColon Exchange.nse = omega arith
exchange_text-NoColon _ = omega arith

segment_text-NoColon : (g : EnumField Segment) → NoColon (segment_text g)
segment_text-NoColon (given Segment.eq) = omega arith
segment_text-NoColon (given _) = omega arith
segment_text-NoColon (defaulted Segment.eq) = omega arith
segment_text-NoColon (defaulted _) = omega arith

exchange_of-exchange_text : (e : Exchange) → exchange_of (upper (exchange_text e)) ≡ some e
unfolding exchange_of upper text_eq
exchange_of-exchange_text Exchange.nse = refl
exchange_of-exchange_text _ = refl

segment_of-given : (g : Segment) → segment_of (upper (segment_text (given g))) ≡ some g
unfolding segment_of upper text_eq
segment_of-given Segment.eq = refl
segment_of-given _ = refl

segment_of-defaulted : (g : Segment) → segment_of (upper (segment_text (defaulted g))) ≡ none
unfolding segment_of upper text_eq
segment_of-defaulted Segment.eq = refl
segment_of-defaulted _ = refl

module _ {F : Type 0} ⦃f : Float F⦄ where
  -- The position of an order whose segment was given is reported with its exchange, its segment,
  -- its quantity and its average price, provided that the symbol has no colon.
  pub report_given :
      (prices : Dict F) (symbol : Text) (e : Exchange) (g : Segment) (p : PaperPosition F)
      → NoColon symbol
      → Returns
          (λ r.
            (r.exchange ≡ e)
            × (r.segment ≡ g)
            × (r.quantity ≡ p.quantity)
            × (r.average_price ≡ p.average_price))
          (report prices (position_key symbol (exchange_text e) (segment_text (given g))) p)
  unfolding report
  report_given prices symbol e g p h =
      rw
        (
          split_colon-position_key symbol (exchange_text e) (segment_text (given g)) h
              (exchange_text-NoColon e) (segment_text-NoColon (given g)),
          exchange_of-exchange_text e,
          segment_of-given g,
        )
        (refl, refl, refl, refl)

  -- The position of an order whose segment was left to its default cannot be reported: the call
  -- raises a validation error, whatever the position holds.
  pub report_defaulted :
      (prices : Dict F) (symbol : Text) (e : Exchange) (g : Segment) (p : PaperPosition F)
      → NoColon symbol
      → report prices (position_key symbol (exchange_text e) (segment_text (defaulted g))) p
        ≡ raised validation_error
  unfolding report
  report_defaulted prices symbol e g p h =
      rw
        (
          split_colon-position_key symbol (exchange_text e) (segment_text (defaulted g)) h
              (exchange_text-NoColon e) (segment_text-NoColon (defaulted g)),
          exchange_of-exchange_text e,
          segment_of-defaulted g,
        )
        refl
