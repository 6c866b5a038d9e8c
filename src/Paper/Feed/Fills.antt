-- ===== src/Paper/Feed/Fills.antt =====
-- Which resting orders a price check fills (`_check_pending_fills` of the paper adapter).
use nexa_trade.Prelude.{
  ℕ, ◌≡◌, refl, sym, ap, ◌∙◌, Bool, false, Option, none, some, List, [], ◌∷◌, arith, All, keep_if,
  if-holds, map, ◌++◌, if◌then◌else◌, Option-cases, inl, inr,
}
use mathlib.Core.Path.{subst}
use mathlib.Core.List.{append_assoc, append-nil}
use nexa_trade.Text.{Text, text_eq_iff, text_eq_refl, in_list}
use nexa_trade.Dict.{Dict, lookup, erase, lookup-erase}
use nexa_trade.Float.{Float}
use nexa_trade.Outcome.{Returns, Returns->>=, Returns-weaken}
use nexa_trade.Models.Enums.{OrderStatus}
use nexa_trade.Models.Market.{Fill}
use nexa_trade.Models.Order.{OrderResponse}
use nexa_trade.Paper.State.{Paper, OpenOrder}
use nexa_trade.Paper.Orders.{execute}
use nexa_trade.Paper.Ledger.{
  IsSound, IsFill, execute-IsSound, lookup-IsPositive, erase-OrdersPositive, IsUnique,
  erase-IsUnique,
}
use nexa_trade.Paper.Feed.{should_fill, to_fill, fill_open, fill_all, check_pending_fills}

module _ {F : Type 0} ⦃f : Float F⦄ where
  -- The update for a fill of an order.
  abbrev pub IsUpdate : Text → OpenOrder F → Fill F → OrderResponse F → Type 0
  IsUpdate id o x u =
      (u.order_id ≡ id)
      × ((u.status ≡ OrderStatus.complete)
          × ((u.filled_quantity ≡ o.request.quantity) × (u.average_price ≡ some x.price)))

  -- One fill and one update for each of some orders, in their order.
  abbrev pub Fills : Dict (OpenOrder F) → List (Fill F) → List (OrderResponse F) → Type 0
  Fills [] [] [] = Unit
  Fills ((id, o) ∷ orders) (x ∷ xs) (u ∷ us) =
      IsFill id o.request x × (IsUpdate id o x u × Fills orders xs us)
  Fills _ _ _ = ⊥

  -- The open orders that the price fills.
  abbrev pub due : Text → F → Dict (OpenOrder F) → Dict (OpenOrder F)
  due symbol price orders =
      keep_if (λ (e : Text × OpenOrder F). should_fill symbol price e.1.request) orders

  abbrev pub ids_of : Dict (OpenOrder F) → List Text
  ids_of orders = map (λ (e : Text × OpenOrder F). e.0) orders

  -- Each of some orders is under its id.
  abbrev AreThere : Dict (OpenOrder F) → Dict (OpenOrder F) → Type 0
  AreThere due orders = All (λ (e : Text × OpenOrder F). lookup e.0 orders ≡ some e.1) due

  -- Whether the order under an id is one that the price fills.
  abbrev pub fires : Text → F → Option (OpenOrder F) → Bool
  fires symbol price none = false
  fires symbol price (some o) = should_fill symbol price o.request

  to_fill-fires :
      (symbol : Text) (price : F) (j : Text) (orders : Dict (OpenOrder F))
      → IsUnique orders
      → in_list j (to_fill symbol price orders) ≡ fires symbol price (lookup j orders)
  unfolding to_fill lookup in_list
  to_fill-fires symbol price j [] u = refl
  to_fill-fires symbol price j ((i, o) ∷ orders) (fresh, u) = ground (
    arith,
    text_eq_iff i j,
    text_eq_iff j i,
    to_fill-fires symbol price j orders u,
    to_fill-fires symbol price i orders u,
  )

  fill_open_lem :
      (now : ℕ) (id : Text) (o : OpenOrder F) (s : Paper F)
      → IsSound s
      → lookup id s.open_orders ≡ some o
      → Returns
          (λ out.
            IsSound out.1
            × (out.1.open_orders ≡ erase id s.open_orders)
            × ((x : Fill F) × ((out.1.fills ≡ s.fills ++ x ∷ [])
                  × (IsFill id o.request x × IsUpdate id o x out.0))))
          (fill_open now id o s)
  unfolding fill_open
  fill_open_lem now id o s h e =
      Returns->>= _ _ (execute id o.broker_order_id o.request.price now o.request _) _
        (execute-IsSound id o.broker_order_id o.request.price now o.request
          (record s { open_orders = erase id s.open_orders })
          (lookup-IsPositive id s.open_orders h.orders_positive e)
          (record {
            balanced = h.balanced;
            orders_positive = erase-OrdersPositive id s.open_orders h.orders_positive;
            unique = erase-IsUnique id s.open_orders h.unique;
          }))
        (λ out done. (done.0, done.1, (out.0, (done.2, (done.3, (refl, (refl, (refl, refl))))))))

  -- Callbacks that keep the invariant: the check keeps it too, and does not raise.
  pub fill_all-IsSound :
      (heard : OrderResponse F → Paper F → Paper F)
      → ((r : OrderResponse F) (s : Paper F) → IsSound s → IsSound (heard r s))
      → (now : ℕ) (ids : List Text) (s : Paper F) → IsSound s
      → Returns (λ out. IsSound out.1) (fill_all heard now ids s)
  unfolding fill_all
  fill_all-IsSound heard keeps now [] s h = h
  fill_all-IsSound heard keeps now (id ∷ ids) s h = elim (Option-cases (lookup id s.open_orders)) [
    | inl e ↦ rw (e, fill_all) (fill_all-IsSound heard keeps now ids s h)
    | inr (o, e) ↦
        rw (e, fill_all)
          (Returns->>= _ _ (fill_open now id o s) _ (fill_open_lem now id o s h e) (λ r one.
            Returns->>= _ _ (fill_all heard now ids (heard r.0 r.1)) _
              (fill_all-IsSound heard keeps now ids (heard r.0 r.1) (keeps r.0 r.1 one.0))
              (λ rest done. done)))
  ]

  -- What filling resting orders does.
  abbrev pub Settles : Dict (OpenOrder F) → Paper F → List (OrderResponse F) × Paper F → Type 0
  Settles orders s out =
      IsSound out.1
      × (((j : Text)
            → lookup j out.1.open_orders
              ≡ (if in_list j (ids_of orders) then none else lookup j s.open_orders))
          × ((new : List (Fill F)) × ((out.1.fills ≡ s.fills ++ new) × Fills orders new out.0)))

  after_present :
      (id : Text) (ids : List Text) (j : Text) (orders rest : Dict (OpenOrder F))
      → rest ≡ erase id orders
      → (if in_list j ids then none else lookup j rest)
        ≡ (if in_list j (id ∷ ids) then none else lookup j orders)
  unfolding in_list
  after_present id ids j orders rest e =
      rw e (ground (arith, text_eq_iff j id, text_eq_iff id j, lookup-erase id j orders))

  -- The orders that are left still stand as they did when another is taken out.
  still_there :
      (id : Text) (o : OpenOrder F) (due orders : Dict (OpenOrder F))
      → lookup id due ≡ none
      → AreThere due orders
      → AreThere due (erase id orders)
  unfolding lookup
  still_there id o [] orders fresh h = tt
  still_there id o ((j, q) ∷ due) orders fresh (here, h) = ground (
    arith,
    text_eq_iff j id,
    text_eq_iff id j,
    lookup-erase id j orders,
    still_there id o due orders,
  )

  fill_all-Settles :
      (heard : OrderResponse F → Paper F → Paper F)
      → ((r : OrderResponse F) (s : Paper F) → heard r s ≡ s)
      → (now : ℕ) (due : Dict (OpenOrder F)) (s : Paper F) → IsSound s
      → IsUnique due
      → AreThere due s.open_orders
      → Returns (Settles due s) (fill_all heard now (ids_of due) s)
  unfolding fill_all in_list
  fill_all-Settles heard quiet now [] s h u there =
      (h, (λ j. refl, ([], (sym (append-nil s.fills), tt))))
  fill_all-Settles heard quiet now ((id, o) ∷ due) s h (fresh, u) (here, there) =
      rw (here, fill_all)
        (Returns->>= _ _ (fill_open now id o s) _ (fill_open_lem now id o s h here) (λ r one.
          let (x, (added, (of_order, update))) = one.2 in
          rw (quiet r.0 r.1) (
            Returns->>= (Settles due r.1) _ (fill_all heard now (ids_of due) r.1) _
              (fill_all-Settles heard quiet now due r.1 one.0 u
                (subst (AreThere due) (sym one.1) (still_there id o due s.open_orders fresh there)))
              (λ rest done.
                let (sound, (left, (new, (fills, each)))) = done in
                (
                  sound,
                  (
                    λ j.
                        left j
                        ∙ after_present id (ids_of due) j s.open_orders r.1.open_orders one.1,
                    (
                      x ∷ new,
                      (
                        fills ∙ (ap (λ fs. fs ++ new) added ∙ append_assoc s.fills (x ∷ []) new),
                        (of_order, (update, each)),
                      ),
                    ),
                  ),
                )))))

  lookup-first :
      (id : Text) (o : OpenOrder F) (orders : Dict (OpenOrder F))
      → lookup id ((id, o) ∷ orders) ≡ some o
  unfolding lookup
  lookup-first id o orders = rw (text_eq_refl id) refl

  there-cons :
      (id : Text) (o : OpenOrder F) (ds orders : Dict (OpenOrder F))
      → lookup id orders ≡ none
      → AreThere ds orders
      → AreThere ds ((id, o) ∷ orders)
  unfolding lookup
  there-cons id o [] orders fresh h = tt
  there-cons id o ((j, q) ∷ ds) orders fresh (here, h) =
      ground (arith, text_eq_iff id j, there-cons id o ds orders)

  due_there :
      (symbol : Text) (price : F) (orders : Dict (OpenOrder F))
      → IsUnique orders
      → AreThere (due symbol price orders) orders
  due_there symbol price [] u = tt
  due_there symbol price ((id, o) ∷ orders) (fresh, u) =
      let rest =
        there-cons id o (due symbol price orders) orders fresh (due_there symbol price orders u) in
      if-holds (λ ds. AreThere ds ((id, o) ∷ orders)) (should_fill symbol price o.request)
        ((id, o) ∷ due symbol price orders) (due symbol price orders)
        (lookup-first id o orders, rest) rest

  lookup-due :
      (symbol : Text) (price : F) (id : Text) (orders : Dict (OpenOrder F))
      → lookup id orders ≡ none
      → lookup id (due symbol price orders) ≡ none
  unfolding lookup
  lookup-due symbol price id [] h = refl
  lookup-due symbol price id ((j, q) ∷ orders) h = ground (arith, lookup-due symbol price id orders)

  due-IsUnique :
      (symbol : Text) (price : F) (orders : Dict (OpenOrder F))
      → IsUnique orders
      → IsUnique (due symbol price orders)
  due-IsUnique symbol price [] u = tt
  due-IsUnique symbol price ((id, o) ∷ orders) (fresh, u) =
      let rest = due-IsUnique symbol price orders u in
      if-holds IsUnique (should_fill symbol price o.request) ((id, o) ∷ due symbol price orders)
        (due symbol price orders) (lookup-due symbol price id orders fresh, rest) rest

  to_fill-due :
      (symbol : Text) (price : F) (orders : Dict (OpenOrder F))
      → to_fill symbol price orders ≡ ids_of (due symbol price orders)
  unfolding to_fill
  to_fill-due symbol price [] = refl
  to_fill-due symbol price ((id, o) ∷ orders) = ground (arith, to_fill-due symbol price orders)

  -- In an adapter whose book agrees with its fills, and whose open orders have positive quantities
  -- and each id once, and with order callbacks that leave the adapter alone: a check takes exactly the
  -- orders of the symbol whose level the price crosses out of the open orders, and touches no other.
  -- The fills that it adds are one for each of these orders, in their order, of its symbol, side and
  -- whole quantity, and it emits one update for each, that it is complete at the price of its fill. It does
  -- not raise, and the book agrees with the fills again.
  pub check_pending_fills_lem :
      (heard : OrderResponse F → Paper F → Paper F)
      → ((r : OrderResponse F) (s : Paper F) → heard r s ≡ s)
      → (now : ℕ) (symbol : Text) (price : F) (s : Paper F) → IsSound s
      → Returns
          (λ out.
            IsSound out.1
            × (((j : Text)
                  → lookup j out.1.open_orders ≡ (
                      if fires symbol price (lookup j s.open_orders)
                      then none
                      else lookup j s.open_orders))
                × ((new : List (Fill F)) × ((out.1.fills ≡ s.fills ++ new)
                      × Fills (due symbol price s.open_orders) new out.0))))
          (check_pending_fills heard now symbol price s)
  unfolding check_pending_fills
  check_pending_fills_lem heard quiet now symbol price s h =
      let orders = due symbol price s.open_orders in
      let same = to_fill-due symbol price s.open_orders in
      rw same (
        Returns-weaken (Settles orders s) _ (fill_all heard now (ids_of orders) s)
          (fill_all-Settles heard quiet now orders s h
            (due-IsUnique symbol price s.open_orders h.unique)
            (due_there symbol price s.open_orders h.unique))
          (λ out done. (
            done.0,
            (
              λ j.
                  done.1.0 j
                  ∙ ap (λ (b : Bool). if b then none else lookup j s.open_orders)
                      (ap (in_list j) (sym same)
                        ∙ to_fill-fires symbol price j s.open_orders h.unique),
              done.1.1,
            ),
          )))
