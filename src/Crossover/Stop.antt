-- ===== src/Crossover/Stop.antt =====
-- The stop of a long position, and the signals that leave a position.
use nexa_trade.Prelude.{
  ◌≡◌, refl, sym, true, false, Option, none, some, List, [], ◌∷◌, ◌++◌, All, arith,
}
use mathlib.Core.Path.{subst}
use nexa_trade.Text.{Text}
use nexa_trade.Float.{Float, IsOrdered, IsNumber, ◌≼◌, ◌⊖◌, ◌⊗◌, max_f}
use nexa_trade.Float.Order.{le-max_f, max_f-IsNumber}
use nexa_trade.Models.Signal.{StrategySignal}
use nexa_trade.Crossover.{
  PositionSide, Crossover, Settings, Readings, is_long, trail, cross, cross_if, decide,
}

module _ {F : Type 0} ⦃f : Float F⦄ where
  -- What the strategy does on candles one after the other, by what the indicators say of each.
  abbrev pub decide_all :
      Text
      → Text
      → Text
      → Settings F
      → List (Readings F)
      → Crossover F
      → List (StrategySignal F) × Crossover F
  decide_all signal_id name symbol p [] s = ([], s)
  decide_all signal_id name symbol p (i ∷ is) s =
      let (signals, s') = decide signal_id name symbol p i s in
      let (more, last) = decide_all signal_id name symbol p is s' in (signals ++ more, last)

  abbrev pub long_stop : Settings F → Readings F → F
  long_stop p i = i.close ⊖ (p.atr_mult ⊗ i.atr)

  trail_lem :
      (p : Settings F) (i : Readings F) (s : Crossover F)
      → s.position_side ≡ PositionSide.long
      → ((trail p i s).position_side ≡ PositionSide.long)
        × ((trail p i s).stop_loss_price ≡ max_f s.stop_loss_price (long_stop p i))
  unfolding trail
  trail_lem p i s held = (held, rw held refl)

  cross-quiet :
      (signal_id name symbol : Text) (p : Settings F) (i : Readings F) (vol : F) (s : Crossover F)
      → is_long s.position_side ≡ true
      → i.is_death ≡ false
      → cross signal_id name symbol p i vol s ≡ ([], s)
  unfolding cross
  cross-quiet signal_id name symbol p i vol s held calm = ground (arith, held, calm)

  cross_if-quiet :
      (signal_id name symbol : Text) (p : Settings F) (i : Readings F) (vol : Option F)
      → (s : Crossover F) → is_long s.position_side ≡ true
      → i.is_death ≡ false
      → cross_if signal_id name symbol p i vol s ≡ ([], s)
  unfolding cross_if
  cross_if-quiet signal_id name symbol p i none s held calm = refl
  cross_if-quiet signal_id name symbol p i (some vol) s held calm =
      ground (arith, cross-quiet signal_id name symbol p i vol s held calm)

  decide-quiet :
      (signal_id name symbol : Text) (p : Settings F) (i : Readings F) (s : Crossover F)
      → s.position_side ≡ PositionSide.long
      → i.is_death ≡ false
      → decide signal_id name symbol p i s ≡ ([], trail p i s)
  unfolding decide
  decide-quiet signal_id name symbol p i s held calm =
      let side = (trail_lem p i s held).0 in
      cross_if-quiet signal_id name symbol p i i.vol_ratio (trail p i s)
        (subst (λ x. is_long x ≡ true) (sym side) refl) calm

  decide_all-quiet :
      (signal_id name symbol : Text) (p : Settings F) (i : Readings F) (is : List (Readings F))
      → (s : Crossover F) → s.position_side ≡ PositionSide.long
      → i.is_death ≡ false
      → decide_all signal_id name symbol p (i ∷ is) s
        ≡ decide_all signal_id name symbol p is (trail p i s)
  decide_all-quiet signal_id name symbol p i is s held calm =
      rw (decide-quiet signal_id name symbol p i s held calm) refl

  module _ (laws : IsOrdered F) where
    open laws use {le_trans, number_of_le}

    -- Candles one after the other, with no tick and no order update between them, none of which shows a
    -- death cross: they leave a long position long and give no signal, and its stop does not fall. At the
    -- end it is at least what it was, and at least the distance that was asked for below the close of
    -- each candle, where the stop and these distances are numbers.
    pub decide_all-long :
        (signal_id name symbol : Text) (p : Settings F) (is : List (Readings F)) (s : Crossover F)
        → s.position_side ≡ PositionSide.long
        → All (λ (i : Readings F). i.is_death ≡ false) is
        → IsNumber s.stop_loss_price
        → All (λ (i : Readings F). IsNumber (long_stop p i)) is
        → let (signals, s') = decide_all signal_id name symbol p is s in
          (signals ≡ [])
          × (s'.position_side ≡ PositionSide.long)
          × (s.stop_loss_price ≼ s'.stop_loss_price)
          × All (λ (i : Readings F). long_stop p i ≼ s'.stop_loss_price) is
    decide_all-long signal_id name symbol p [] s held calm n ns = (refl, held, n, tt)
    decide_all-long signal_id name symbol p (i ∷ is) s held (calm, calms) n (m, ms) =
        let (side, stop) = trail_lem p i s held in
        let (old, new) = le-max_f laws s.stop_loss_price (long_stop p i) n m in
        let n' =
          subst (λ x. IsNumber x) (sym stop)
            (max_f-IsNumber laws s.stop_loss_price (long_stop p i) n m) in
        let (none_, still, up, rest) =
          decide_all-long signal_id name symbol p is (trail p i s) side calms n' ms in
        let up' =
          subst (λ x. x ≼ (decide_all signal_id name symbol p is (trail p i s)).1.stop_loss_price)
            stop up in
        subst
          (λ (o : List (StrategySignal F) × Crossover F).
            (o.0 ≡ [])
            × (o.1.position_side ≡ PositionSide.long)
            × (s.stop_loss_price ≼ o.1.stop_loss_price)
            × All (λ (j : Readings F). long_stop p j ≼ o.1.stop_loss_price) (i ∷ is))
          (sym (decide_all-quiet signal_id name symbol p i is s held calm))
          (none_, still, le_trans _ _ _ old up', (le_trans _ _ _ new up', rest))
