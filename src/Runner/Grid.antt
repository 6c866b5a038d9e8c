-- ===== src/Runner/Grid.antt =====
-- The combinations of a grid.
use nexa_trade.Prelude.{
  ℕ, suc, ◌*◌, ◌≡◌, refl, sym, ap, ◌∙◌, ◌↔◌, ◌⊎◌, inl, inr, List, [], ◌∷◌, ◌++◌, map, length,
  length-append, arith,
}
use mathlib.Core.Path.{subst}
use nexa_trade.Runner.{choices, product}

-- As many as the product of the lists' lengths.
abbrev pub sizes : {V : Type 0} → List (List V) → ℕ
sizes [] = 1
sizes (vs ∷ values) = length vs * sizes values

-- An element of a list, by recursion.
abbrev pub In : {A : Type 0} → A → List A → Type 0
In x [] = ⊥
In x (y ∷ ys) = (x ≡ y) ⊎ In x ys

-- A combination has one value of each list.
abbrev pub Picks : {V : Type 0} → List V → List (List V) → Type 0
Picks [] [] = Unit
Picks (v ∷ combo) (vs ∷ values) = In v vs × Picks combo values
Picks _ _ = ⊥

length-map : {A C : Type 0} (g : A → C) (xs : List A) → length (map g xs) ≡ length xs
length-map g [] = refl
length-map g (x ∷ xs) = ap suc (length-map g xs)

In-append_left : {A : Type 0} (x : A) (xs ys : List A) → In x xs → In x (xs ++ ys)
In-append_left x [] ys h = absurd h
In-append_left x (z ∷ xs) ys (inl e) = inl e
In-append_left x (z ∷ xs) ys (inr h) = inr (In-append_left x xs ys h)

In-append_right : {A : Type 0} (x : A) (xs ys : List A) → In x ys → In x (xs ++ ys)
In-append_right x [] ys h = h
In-append_right x (z ∷ xs) ys h = inr (In-append_right x xs ys h)

In-append : {A : Type 0} (x : A) (xs ys : List A) → In x (xs ++ ys) → In x xs ⊎ In x ys
In-append x [] ys h = inr h
In-append x (z ∷ xs) ys (inl e) = inl (inl e)
In-append x (z ∷ xs) ys (inr h) = elim (In-append x xs ys h) [
  | inl left ↦ inl (inr left)
  | inr right ↦ inr right
]

In-map : {A C : Type 0} (g : A → C) (x : A) (xs : List A) → In x xs → In (g x) (map g xs)
In-map g x [] h = absurd h
In-map g x (y ∷ ys) (inl e) = inl (ap g e)
In-map g x (y ∷ ys) (inr h) = inr (In-map g x ys h)

In-of_map :
    {A C : Type 0} (g : A → C) (z : C) (xs : List A)
    → In z (map g xs)
    → (x : A) × (In x xs × (z ≡ g x))
In-of_map g z [] h = absurd h
In-of_map g z (y ∷ ys) (inl e) = (y, (inl refl, e))
In-of_map g z (y ∷ ys) (inr h) = let (x, (there, e)) = In-of_map g z ys h in (x, (inr there, e))

module _ {V : Type 0} where
  length-choices :
      (vs : List V) (rest : List (List V)) → length (choices vs rest) ≡ length vs * length rest
  length-choices [] rest = omega arith
  length-choices (v ∷ vs) rest =
      length-append (map (◌∷◌ v) rest) (choices vs rest)
      ∙ rw (length-map (◌∷◌ v) rest, length-choices vs rest) (omega arith)

  length-product : (values : List (List V)) → length (product values) ≡ sizes values
  length-product [] = refl
  length-product (vs ∷ values) =
      length-choices vs (product values) ∙ ap (λ n. length vs * n) (length-product values)

  choices-In :
      (v : V) (combo vs : List V) (rest : List (List V))
      → In v vs
      → In combo rest
      → In (v ∷ combo) (choices vs rest)
  choices-In v combo [] rest h k = absurd h
  choices-In v combo (x ∷ vs) rest (inl e) k =
      In-append_left (v ∷ combo) (map (◌∷◌ x) rest) (choices vs rest)
        (subst (λ y. In (v ∷ combo) (map (◌∷◌ y) rest)) e (In-map (◌∷◌ v) combo rest k))
  choices-In v combo (x ∷ vs) rest (inr h) k =
      In-append_right (v ∷ combo) (map (◌∷◌ x) rest) (choices vs rest)
        (choices-In v combo vs rest h k)

  -- What a combination of such choices is.
  In-choices :
      (combo vs : List V) (rest : List (List V))
      → In combo (choices vs rest)
      → (v : V) × ((tail : List V) × ((combo ≡ v ∷ tail) × (In v vs × In tail rest)))
  In-choices combo [] rest h = absurd h
  In-choices combo (x ∷ vs) rest h = elim (In-append combo (map (◌∷◌ x) rest) (choices vs rest) h) [
    | inl here ↦
        let (tail, (there, e)) = In-of_map (◌∷◌ x) combo rest here in
        (x, (tail, (e, (inl refl, there))))
    | inr later ↦
        let (v, (tail, (e, (among, there)))) = In-choices combo vs rest later in
        (v, (tail, (e, (inr among, there))))
  ]

  product-Picks :
      (combo : List V) (values : List (List V)) → In combo (product values) → Picks combo values
  product-Picks combo [] (inl e) = subst (λ c. Picks c []) (sym e) tt
  product-Picks combo [] (inr h) = absurd h
  product-Picks combo (vs ∷ values) h =
      let (v, (tail, (e, (among, there)))) = In-choices combo vs (product values) h in
      subst (λ c. Picks c (vs ∷ values)) (sym e) (among, product-Picks tail values there)

  Picks-product :
      (combo : List V) (values : List (List V)) → Picks combo values → In combo (product values)
  Picks-product [] [] h = inl refl
  Picks-product (v ∷ combo) (vs ∷ values) (among, h) =
      choices-In v combo vs (product values) among (Picks-product combo values h)
  Picks-product [] (vs ∷ values) h = absurd h
  Picks-product (v ∷ combo) [] h = absurd h

  -- The combinations of a grid are exactly those with one value of each list, and there are as many
  -- as the product of the lists' lengths.
  pub product_lem :
      (combo : List V) (values : List (List V))
      → (In combo (product values) ↔ Picks combo values) × (length (product values) ≡ sizes values)
  product_lem combo values =
      ((product-Picks combo values, Picks-product combo values), length-product values)
