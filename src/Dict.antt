-- ===== src/Dict.antt =====
-- A Python `dict` with text keys: an association list in insertion order. Writing an existing key
-- keeps its place, and a new key goes last.
use nexa_trade.Prelude.{
  ◌≡◌, refl, Bool, true, false, Option, none, some, List, [], ◌∷◌, arith, if◌then◌else◌,
}
use nexa_trade.Text.{Text, text_eq, text_eq_iff, text_eq_refl}

abbrev pub Dict {ℓ} : Type ℓ → Type ℓ
Dict V = List (Text × V)

module _ {ℓ} {V : Type ℓ} where
  -- `d.get(k)`
  unfoldable pub lookup : Text → Dict V → Option V
  lookup k [] = none
  lookup k ((j, v) ∷ d) = if text_eq j k then some v else lookup k d

  -- `k in d`
  abbrev pub contains : Text → Dict V → Bool
  contains k d = elim (lookup k d) [ none ↦ false | some _ ↦ true ]

  -- `d[k] = v`
  unfoldable pub insert : Text → V → Dict V → Dict V
  insert k v [] = (k, v) ∷ []
  insert k v ((j, w) ∷ d) = if text_eq j k then (j, v) ∷ d else (j, w) ∷ insert k v d

  -- `d.pop(k, None)`: a dict has each key once, so dropping every entry of the key is the same.
  unfoldable pub erase : Text → Dict V → Dict V
  erase k [] = []
  erase k ((j, v) ∷ d) = if text_eq j k then erase k d else (j, v) ∷ erase k d

  pub lookup-insert :
      (k j : Text) (v : V) (d : Dict V)
      → lookup j (insert k v d) ≡ (if text_eq k j then some v else lookup j d)
  unfolding lookup insert
  lookup-insert k j v [] = refl
  lookup-insert k j v ((i, w) ∷ d) =
      ground (arith, text_eq_iff k j, text_eq_iff i k, text_eq_iff i j, lookup-insert k j v d)

  pub lookup-erase :
      (k j : Text) (d : Dict V) → lookup j (erase k d) ≡ (if text_eq k j then none else lookup j d)
  unfolding lookup erase
  lookup-erase k j [] = ground arith
  lookup-erase k j ((i, w) ∷ d) =
      ground (arith, text_eq_iff k j, text_eq_iff i k, text_eq_iff i j, lookup-erase k j d)

  pub lookup-insert_self : (k : Text) (v : V) (d : Dict V) → lookup k (insert k v d) ≡ some v
  lookup-insert_self k v d = simp (lookup-insert, text_eq_refl)

  pub lookup-erase_self : (k : Text) (d : Dict V) → lookup k (erase k d) ≡ none
  lookup-erase_self k d = simp (lookup-erase, text_eq_refl)

  pub contains-erase :
      (k j : Text) (d : Dict V)
      → contains j (erase k d) ≡ (if text_eq k j then false else contains j d)
  contains-erase k j d = ground (arith, lookup-erase k j d)

  pub contains-insert :
      (k j : Text) (v : V) (d : Dict V)
      → contains j (insert k v d) ≡ (if text_eq k j then true else contains j d)
  contains-insert k j v d = ground (arith, lookup-insert k j v d)
