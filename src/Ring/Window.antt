-- ===== src/Ring/Window.antt =====
-- A bounded buffer holds the last elements that were appended to it.
use nexa_trade.Prelude.{
  ℕ, zero, suc, ◌+◌, ◌-◌, ◌≤◌, ◌<◌, ◌≡◌, refl, sym, ap, ◌∙◌, some, List, [], ◌∷◌, ◌++◌, arith,
  length, length-append, drop, length-drop, last_n,
}
use mathlib.Core.Path.{subst}
use mathlib.Core.List.{append-nil, append_assoc}
use nexa_trade.Ring.{push_bounded, push_all, latest}

module _ {ℓ} {A : Type ℓ} where
  drop-append : (k : ℕ) (xs ys : List A) → k ≤ length xs → drop k xs ++ ys ≡ drop k (xs ++ ys)
  drop-append zero xs ys h = refl
  drop-append (suc k) [] ys h = absurd (omega arith)
  drop-append (suc k) (x ∷ xs) ys h = drop-append k xs ys (omega arith)

  drop_nil : (k : ℕ) → drop {A = A} k [] ≡ []
  drop_nil zero = refl
  drop_nil (suc k) = refl

  drop-drop : (j k n : ℕ) (xs : List A) → n ≡ k + j → drop j (drop k xs) ≡ drop n xs
  drop-drop j zero n xs e = ap (λ m. drop m xs) (let r : j ≡ n = omega arith in r)
  drop-drop j (suc k) n [] e = drop_nil j ∙ sym (drop_nil n)
  drop-drop j (suc k) zero (x ∷ xs) e = absurd (omega arith)
  drop-drop j (suc k) (suc n) (x ∷ xs) e = drop-drop j k n xs (omega arith)

  -- Cutting to the window twice is cutting once.
  last_n-snoc :
      (size : ℕ) (xs : List A) (ys : List A)
      → last_n size (last_n size xs ++ ys) ≡ last_n size (xs ++ ys)
  last_n-snoc size xs ys =
      let k = length xs - size in
      let cut = drop-append k xs ys (omega arith) in
      ap (λ zs. drop (length zs - size) zs) cut
      ∙ drop-drop (length (drop k (xs ++ ys)) - size) k (length (xs ++ ys) - size) (xs ++ ys)
          (omega (arith, length-drop k (xs ++ ys), length-append xs ys))

  last_n_id : (size : ℕ) (xs : List A) → length xs ≤ size → last_n size xs ≡ xs
  last_n_id size xs h = ap (λ k. drop k xs) (let r : length xs - size ≡ 0 = omega arith in r)

  pub length-last_n : (size : ℕ) (xs : List A) → length (last_n size xs) ≤ size
  length-last_n size xs = omega (arith, length-drop (length xs - size) xs)

  push_all_window :
      (size : ℕ) (xs ys : List A) → push_all size (last_n size xs) ys ≡ last_n size (xs ++ ys)
  unfolding push_all push_bounded
  push_all_window size xs [] = ap (last_n size) (sym (append-nil xs))
  push_all_window size xs (y ∷ ys) =
      ap (λ b. push_all size b ys) (last_n-snoc size xs (y ∷ []))
      ∙ push_all_window size (xs ++ y ∷ []) ys
      ∙ ap (last_n size) (append_assoc xs (y ∷ []) ys)

  -- Appending elements one by one to a buffer within its bound leaves the last elements of all that
  -- were ever in it, in their order, and never more than the bound.
  pub push_all_lem :
      (size : ℕ) (buffer items : List A)
      → length buffer ≤ size
      → (push_all size buffer items ≡ last_n size (buffer ++ items))
        × (length (push_all size buffer items) ≤ size)
  push_all_lem size buffer items h =
      let same =
        ap (λ b. push_all size b items) (sym (last_n_id size buffer h))
        ∙ push_all_window size buffer items in
      (same, subst (λ zs. length zs ≤ size) (sym same) (length-last_n size (buffer ++ items)))

  latest-snoc : (xs : List A) (x : A) → latest (xs ++ x ∷ []) ≡ some x
  unfolding latest
  latest-snoc [] x = refl
  latest-snoc (y ∷ []) x = refl
  latest-snoc (y ∷ z ∷ xs) x = latest-snoc (z ∷ xs) x

  drop_snoc :
      (k : ℕ) (xs : List A) (x : A) → k ≤ length xs → drop k (xs ++ x ∷ []) ≡ drop k xs ++ x ∷ []
  drop_snoc k xs x h = sym (drop-append k xs (x ∷ []) h)

  -- The element appended last is the latest one, if the bound is not zero.
  pub latest-push_bounded :
      (size : ℕ) (x : A) (buffer : List A) → 0 < size → latest (push_bounded size x buffer) ≡ some x
  unfolding push_bounded
  latest-push_bounded size x buffer h =
      ap latest (
        drop_snoc (length (buffer ++ x ∷ []) - size) buffer x
          (omega (arith, length-append buffer (x ∷ []))))
      ∙ latest-snoc (drop (length (buffer ++ x ∷ []) - size) buffer) x
