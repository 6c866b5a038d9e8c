-- ===== src/Runner/Ranking.antt =====
-- The order of a sweep's results, and the best of them.
use nexa_trade.Prelude.{
  ◌≡◌, refl, sym, ap, ◌∙◌, true, false, Option, none, some, List, [], ◌∷◌, All, All-weaken,
  if-holds, if-split, Bool-cases, inl, inr, arith, if◌then◌else◌,
}
use mathlib.Core.List.Perm
use mathlib.Core.List.{Perm}
use nexa_trade.Text.{Text}
use nexa_trade.Float.{Float, IsOrdered, IsNumber, ◌≼◌}
use nexa_trade.Runner.{
  BacktestResult, BacktestRunner, Bench, rank_of, insert_ranked, ranked, best_of, first_best,
  get_best_result,
}

abbrev pub head? : {A : Type 0} → List A → Option A
head? [] = none
head? (x ∷ xs) = some x

module _ {B V F D I : Type 0} ⦃f : Float F⦄ (w : Bench B V F D I) (rank_by : Text) where
  -- No later result has a greater metric.
  abbrev pub Descending : List (BacktestResult V F) → Type 0
  Descending [] = Unit
  Descending (x ∷ xs) = All (λ y. rank_of w rank_by y ≼ rank_of w rank_by x) xs × Descending xs

  -- The metric of every result is a number.
  abbrev pub Ranks : List (BacktestResult V F) → Type 0
  Ranks xs = All (λ r. IsNumber (rank_of w rank_by r)) xs

  All-insert :
      (P : BacktestResult V F → Type 0) (x : BacktestResult V F) (ys : List (BacktestResult V F))
      → P x
      → All P ys
      → All P (insert_ranked w rank_by x ys)
  unfolding insert_ranked
  All-insert P x [] h hs = (h, tt)
  All-insert P x (y ∷ ys) h (k, ks) =
      if-holds (All P) (f.lt (rank_of w rank_by x) (rank_of w rank_by y))
        (y ∷ insert_ranked w rank_by x ys) (x ∷ y ∷ ys) (k, All-insert P x ys h ks) (h, (k, ks))

  All-ranked :
      (P : BacktestResult V F → Type 0) (xs : List (BacktestResult V F))
      → All P xs
      → All P (ranked w rank_by xs)
  unfolding ranked
  All-ranked P [] h = tt
  All-ranked P (x ∷ xs) (h, hs) = All-insert P x (ranked w rank_by xs) h (All-ranked P xs hs)

  insert_ranked-Perm :
      (x : BacktestResult V F) (ys : List (BacktestResult V F))
      → Perm (x ∷ ys) (insert_ranked w rank_by x ys)
  unfolding insert_ranked
  insert_ranked-Perm x [] = Perm.rfl
  insert_ranked-Perm x (y ∷ ys) =
      if-holds (Perm (x ∷ y ∷ ys)) (f.lt (rank_of w rank_by x) (rank_of w rank_by y))
        (y ∷ insert_ranked w rank_by x ys) (x ∷ y ∷ ys)
        (Perm.trans (Perm.swap y x ys) (Perm.cons y (insert_ranked-Perm x ys))) Perm.rfl

  ranked-Perm : (xs : List (BacktestResult V F)) → Perm xs (ranked w rank_by xs)
  unfolding ranked
  ranked-Perm [] = Perm.rfl
  ranked-Perm (x ∷ xs) =
      Perm.trans (Perm.cons x (ranked-Perm xs)) (insert_ranked-Perm x (ranked w rank_by xs))

  -- The better of a result and perhaps another: the first of two equal ones
  abbrev pub better : BacktestResult V F → Option (BacktestResult V F) → BacktestResult V F
  better x none = x
  better x (some y) = if f.lt (rank_of w rank_by x) (rank_of w rank_by y) then y else x

  head?-insert_ranked :
      (x : BacktestResult V F) (ys : List (BacktestResult V F))
      → head? (insert_ranked w rank_by x ys) ≡ some (better x (head? ys))
  unfolding insert_ranked
  head?-insert_ranked x [] = refl
  head?-insert_ranked x (y ∷ ys) = ground arith

module _ {B V F D I : Type 0} ⦃f : Float F⦄ (laws : IsOrdered F) (w : Bench B V F D I)
    (rank_by : Text) where
  open laws use {le_trans, le_total, lt-not-le}

  above_of : (a b : F) → IsNumber a → IsNumber b → f.lt a b ≡ false → b ≼ a
  above_of a b na nb h = ground (arith, h, lt-not-le a b na nb)

  lt_trans :
      (a b c : F)
      → IsNumber a
      → IsNumber b
      → IsNumber c
      → f.lt a b ≡ true
      → f.lt b c ≡ true
      → f.lt a c ≡ true
  lt_trans a b c na nb nc h k = ground (
    arith,
    lt-not-le a b na nb,
    lt-not-le b c nb nc,
    lt-not-le a c na nc,
    le_total a b na nb,
    le_trans c a b,
  )

  not-lt_trans :
      (a b c : F)
      → IsNumber a
      → IsNumber b
      → IsNumber c
      → f.lt a b ≡ false
      → f.lt b c ≡ false
      → f.lt a c ≡ false
  not-lt_trans a b c na nb nc h k =
      ground (arith, lt-not-le a b na nb, lt-not-le b c nb nc, lt-not-le a c na nc, le_trans c b a)

  insert_ranked-Descending :
      (x : BacktestResult V F) (ys : List (BacktestResult V F))
      → IsNumber (rank_of w rank_by x)
      → Ranks w rank_by ys
      → Descending w rank_by ys
      → Descending w rank_by (insert_ranked w rank_by x ys)
  unfolding insert_ranked
  insert_ranked-Descending x [] nx ns d = (tt, tt)
  insert_ranked-Descending x (y ∷ ys) nx (ny, ns) (top, d) =
      let kx = rank_of w rank_by x in
      let ky = rank_of w rank_by y in
      if-split (Descending w rank_by) (f.lt kx ky) (y ∷ insert_ranked w rank_by x ys) (x ∷ y ∷ ys)
        (λ less. (
          All-insert w rank_by (λ z. rank_of w rank_by z ≼ ky) x ys
              (ground (arith, less, lt-not-le kx ky nx ny, le_total kx ky nx ny)) top,
          insert_ranked-Descending x ys nx ns d,
        ))
        λ not_less.
          let above = above_of kx ky nx ny not_less in
          (
            (
              above,
              All-weaken (λ z. rank_of w rank_by z ≼ ky) (λ z. rank_of w rank_by z ≼ kx) ys
                  (λ z h. le_trans (rank_of w rank_by z) ky kx h above) top,
            ),
            (top, d),
          )

  ranked-Descending :
      (xs : List (BacktestResult V F))
      → Ranks w rank_by xs
      → Descending w rank_by (ranked w rank_by xs)
  unfolding ranked
  ranked-Descending [] ns = tt
  ranked-Descending (x ∷ xs) (n, ns) =
      insert_ranked-Descending x (ranked w rank_by xs) n
        (All-ranked w rank_by (λ r. IsNumber (rank_of w rank_by r)) xs ns) (ranked-Descending xs ns)

  best_of-IsNumber :
      (b : BacktestResult V F) (xs : List (BacktestResult V F))
      → IsNumber (rank_of w rank_by b)
      → Ranks w rank_by xs
      → IsNumber (rank_of w rank_by (best_of w rank_by b xs))
  unfolding best_of
  best_of-IsNumber b [] nb ns = nb
  best_of-IsNumber b (x ∷ xs) nb (nx, ns) =
      best_of-IsNumber (better w rank_by b (some x)) xs
        (if-holds (λ r. IsNumber (rank_of w rank_by r))
          (f.lt (rank_of w rank_by b) (rank_of w rank_by x)) x b nx nb)
        ns

  better_assoc :
      (b x m : BacktestResult V F)
      → Ranks w rank_by (b ∷ x ∷ m ∷ [])
      → better w rank_by (better w rank_by b (some x)) (some m)
        ≡ better w rank_by b (some (better w rank_by x (some m)))
  better_assoc b x m (nb, (nx, (nm, _))) =
      let kb = rank_of w rank_by b in
      let kx = rank_of w rank_by x in
      let km = rank_of w rank_by m in
      elim (Bool-cases (f.lt kb kx)) [
        | inl e ↦ elim (Bool-cases (f.lt kx km)) [
          | inl g ↦ rw (e, g, lt_trans kb kx km nb nx nm e g) refl
          | inr g ↦ rw (e, g, e) refl
        ]
        | inr e ↦ elim (Bool-cases (f.lt kx km)) [
          | inl g ↦ rw (e, g) refl
          | inr g ↦ rw (e, g, e, not-lt_trans kb kx km nb nx nm e g) refl
        ]
      ]

  best_of-cons :
      (b x : BacktestResult V F) (xs : List (BacktestResult V F))
      → IsNumber (rank_of w rank_by b)
      → Ranks w rank_by (x ∷ xs)
      → best_of w rank_by b (x ∷ xs) ≡ better w rank_by b (some (best_of w rank_by x xs))
  unfolding best_of
  best_of-cons b x [] nb ns = refl
  best_of-cons b x (y ∷ ys) nb (nx, (ny, ns)) =
      let m = best_of w rank_by y ys in
      best_of-cons (better w rank_by b (some x)) y ys
        (if-holds (λ r. IsNumber (rank_of w rank_by r))
          (f.lt (rank_of w rank_by b) (rank_of w rank_by x)) x b nx nb)
        (ny, ns)
      ∙ (better_assoc b x m (nb, (nx, (best_of-IsNumber y ys ny ns, tt)))
          ∙ ap (λ r. better w rank_by b (some r)) (sym (best_of-cons x y ys nx (ny, ns))))

  first_best-better :
      (x : BacktestResult V F) (xs : List (BacktestResult V F))
      → IsNumber (rank_of w rank_by x)
      → Ranks w rank_by xs
      → first_best w rank_by (x ∷ xs) ≡ some (better w rank_by x (first_best w rank_by xs))
  unfolding best_of
  first_best-better x [] n ns = refl
  first_best-better x (y ∷ ys) n ns = ap some (best_of-cons x y ys n ns)

  first_best-insert :
      (x : BacktestResult V F) (xs : List (BacktestResult V F))
      → IsNumber (rank_of w rank_by x)
      → Ranks w rank_by xs
      → first_best w rank_by xs ≡ head? (ranked w rank_by xs)
      → first_best w rank_by (x ∷ xs) ≡ head? (insert_ranked w rank_by x (ranked w rank_by xs))
  first_best-insert x xs n ns h =
      first_best-better x xs n ns
      ∙ (ap (λ o. some (better w rank_by x o)) h
          ∙ sym (head?-insert_ranked w rank_by x (ranked w rank_by xs)))

  first_best-ranked :
      (xs : List (BacktestResult V F))
      → Ranks w rank_by xs
      → first_best w rank_by xs ≡ head? (ranked w rank_by xs)
  unfolding ranked
  first_best-ranked [] ns = refl
  first_best-ranked (x ∷ xs) (n, ns) = first_best-insert x xs n ns (first_best-ranked xs ns)

  -- When there is at least one result and the metric of every result is a number, the ranking of a sweep
  -- keeps the results, each as often as there was, with no greater metric after a smaller one, and the
  -- first of them is what `get_best_result` gives of the results in the order of the grid.
  pub ranked_lem :
      (r : BacktestResult V F) (rs : List (BacktestResult V F)) (s : BacktestRunner V F)
      → Ranks w rank_by (r ∷ rs)
      → Perm (r ∷ rs) (ranked w rank_by (r ∷ rs))
        × (Descending w rank_by (ranked w rank_by (r ∷ rs))
            × (get_best_result w (some (r ∷ rs)) rank_by s ≡ head? (ranked w rank_by (r ∷ rs))))
  unfolding get_best_result
  ranked_lem r rs s ns = (
    ranked-Perm w rank_by (r ∷ rs),
    (ranked-Descending (r ∷ rs) ns, first_best-ranked (r ∷ rs) ns),
  )
