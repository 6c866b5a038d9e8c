-- ===== src/Paper/Ledger.antt =====
-- The paper adapter's book against its record of fills: an invariant of every operation.
pub mod Reach
use nexa_trade.Prelude.{
  ℕ, suc, ◌+◌, ◌≡◌, refl, sym, ap, ◌∙◌, Bool, true, false, Option, none, some, List, [], ◌∷◌, ◌++◌,
  arith, All, length, length-append, if◌then◌else◌,
}
use nexa_trade.Prelude.Int.{ℤ, pos, pos_part, neg_part, ◌+ℤ◌, ◌<ℤ◌, int_laws}
use nexa_trade.Text.{Text, text_eq, text_eq_iff}
use nexa_trade.Dict.{Dict, lookup, insert, erase, lookup-insert, lookup-erase}
use nexa_trade.Float.{Float}
use nexa_trade.Outcome.{Outcome, ok, Returns, Returns->>=}
use nexa_trade.Models.Order.{OrderRequest}
use nexa_trade.Models.Market.{Fill}
use nexa_trade.Paper.Positions.{update_position}
use nexa_trade.Paper.Positions.Quantity.{signed, net, update_position_moves}
use nexa_trade.Paper.Pricing.{simulate_fill_price}
use nexa_trade.Paper.State.{Paper, OpenOrder}
use nexa_trade.Paper.Orders.{execute, key_of}

module _ {F : Type 0} where
  -- What the fills say was bought, less what they say was sold.
  abbrev pub traded : List (Fill F) → ℤ
  traded [] = pos 0
  traded (x ∷ xs) = signed x.transaction_type x.quantity +ℤ traded xs

  pub traded-snoc :
      (xs : List (Fill F)) (x : Fill F)
      → traded (xs ++ x ∷ []) ≡ traded xs +ℤ signed x.transaction_type x.quantity
  traded-snoc [] x = omega int_laws
  traded-snoc (y ∷ xs) x =
      omega (int_laws, ap pos_part (traded-snoc xs x), ap neg_part (traded-snoc xs x))

  abbrev pub IsPositive : OrderRequest F → Type 0
  IsPositive r = pos 0 <ℤ r.quantity

  abbrev pub OrdersPositive : Dict (OpenOrder F) → Type 0
  OrdersPositive orders = All (λ (e : Text × OpenOrder F). IsPositive e.1.request) orders

  pub lookup-IsPositive :
      (id : Text) (orders : Dict (OpenOrder F)) {o : OpenOrder F}
      → OrdersPositive orders
      → lookup id orders ≡ some o
      → IsPositive o.request
  unfolding lookup
  lookup-IsPositive id [] h e = cc
  lookup-IsPositive id ((j, q) ∷ orders) {o} h e =
      ground (arith, lookup-IsPositive id orders {o = o} h.1)

  pub insert-OrdersPositive :
      (id : Text) (o : OpenOrder F) (orders : Dict (OpenOrder F))
      → IsPositive o.request
      → OrdersPositive orders
      → OrdersPositive (insert id o orders)
  unfolding insert
  insert-OrdersPositive id o [] p h = (p, tt)
  insert-OrdersPositive id o ((j, q) ∷ orders) p h =
      ground (arith, insert-OrdersPositive id o orders p h.1)

  pub erase-OrdersPositive :
      (id : Text) (orders : Dict (OpenOrder F))
      → OrdersPositive orders
      → OrdersPositive (erase id orders)
  unfolding erase
  erase-OrdersPositive id [] h = tt
  erase-OrdersPositive id ((j, q) ∷ orders) h = ground (arith, erase-OrdersPositive id orders h.1)

  -- No id is listed twice, as in every dict.
  abbrev pub IsUnique : Dict (OpenOrder F) → Type 0
  IsUnique [] = Unit
  IsUnique ((j, o) ∷ orders) = (lookup j orders ≡ none) × IsUnique orders

  pub insert-IsUnique :
      (id : Text) (o : OpenOrder F) (orders : Dict (OpenOrder F))
      → IsUnique orders
      → IsUnique (insert id o orders)
  unfolding insert lookup
  insert-IsUnique id o [] u = (refl, tt)
  insert-IsUnique id o ((j, q) ∷ orders) u = ground (
    arith,
    text_eq_iff j id,
    text_eq_iff id j,
    insert-IsUnique id o orders u.1,
    lookup-insert id j o orders,
  )

  pub erase-IsUnique :
      (id : Text) (orders : Dict (OpenOrder F)) → IsUnique orders → IsUnique (erase id orders)
  unfolding erase
  erase-IsUnique id [] u = tt
  erase-IsUnique id ((j, q) ∷ orders) u = ground (
    arith,
    erase-IsUnique id orders u.1,
    lookup-erase id j orders,
    text_eq_iff id j,
    text_eq_iff j id,
  )

  -- The quantities of the book add up to what the fills traded, and every open order asks for a
  -- positive quantity. The ids are unique.
  pub record IsSound (s : Paper F) : Type 0 where
    pub balanced : net s.positions ≡ traded s.fills
    pub orders_positive : OrdersPositive s.open_orders
    pub unique : IsUnique s.open_orders

  -- A fill is of an order: its id, its symbol, its side and its whole quantity.
  abbrev pub IsFill : Text → OrderRequest F → Fill F → Type 0
  IsFill id r x =
      (x.order_id ≡ id)
      × ((x.symbol ≡ r.symbol)
          × ((x.transaction_type ≡ r.transaction_type) × (x.quantity ≡ r.quantity)))

module _ {F : Type 0} ⦃f : Float F⦄ where
  -- What a fill does: the invariant holds again, the open orders stay, and one fill of the order is
  -- recorded, which is the one that is returned.
  pub execute-IsSound :
      (id b : Text) (requested : Option F) (now : ℕ) (r : OrderRequest F) (s : Paper F)
      → IsPositive r
      → IsSound s
      → Returns
          (λ out.
            IsSound out.1
            × (out.1.open_orders ≡ s.open_orders)
            × (out.1.fills ≡ s.fills ++ out.0 ∷ [])
            × IsFill id r out.0)
          (execute id b requested now r s)
  unfolding execute
  execute-IsSound id b requested now r s p h =
      let price =
        simulate_fill_price s.slippage_pct s.last_prices r.symbol r.transaction_type requested in
      Returns->>= _ _ (update_position (key_of r) r.transaction_type r.quantity price s.positions) _
        (update_position_moves (key_of r) r.transaction_type r.quantity price s.positions p)
        (λ book moved. (
          record {
            balanced =
                moved.1
                ∙ ap (λ z. z +ℤ signed r.transaction_type r.quantity) h.balanced
                ∙ sym (traded-snoc s.fills _);
            orders_positive = h.orders_positive;
            unique = h.unique;
          },
          refl,
          refl,
          (refl, (refl, (refl, refl))),
        ))
