-- ===== src/Text.antt =====
-- Python's `str` where the program computes with it (symbols, exchange codes, dictionary keys): a
-- list of code points. `upper` follows `str.upper` on ASCII, the alphabet of those identifiers.
use Prim.Native.Char.{code}
use Prim.Native.String.{String}
use nexa_trade.Prelude.{
  ℕ, ◌-◌, ◌≡◌, refl, ◌↔◌, Bool, true, false, ◌&&◌, List, [], ◌∷◌, map, arith, leb, ◌==◌,
  if◌then◌else◌,
}

abbrev pub Text : Type 0
Text = List ℕ

-- A literal of the source.
abbrev pub codes : String → Text
codes String.[] = []
codes (String.◌∷◌ c s) = code c ∷ codes s

-- `a == b`
unfoldable pub text_eq : Text → Text → Bool
text_eq [] [] = true
text_eq (x ∷ xs) (y ∷ ys) = x == y && text_eq xs ys
text_eq _ _ = false

pub text_eq→eq : (a b : Text) → text_eq a b ≡ true → a ≡ b
unfolding text_eq
text_eq→eq [] [] h = refl
text_eq→eq (x ∷ xs) (y ∷ ys) h = ground (arith, text_eq→eq xs ys)
text_eq→eq [] (y ∷ ys) h = ground arith
text_eq→eq (x ∷ xs) [] h = ground arith

pub text_eq_refl : (a : Text) → text_eq a a ≡ true
unfolding text_eq
text_eq_refl [] = refl
text_eq_refl (x ∷ xs) = ground (arith, text_eq_refl xs)

pub text_eq_iff : (a b : Text) → (text_eq a b ≡ true) ↔ (a ≡ b)
text_eq_iff a b = (text_eq→eq a b, λ e. rw e (text_eq_refl b))

-- One letter of `s.upper()`.
unfoldable pub upper_code : ℕ → ℕ
upper_code c = if leb b'a' c && leb c b'z' then c - 32 else c

-- `s.upper()`
unfoldable pub upper : Text → Text
unfolding upper_code
upper s = map upper_code s

pub upper_code-upper_code : (c : ℕ) → upper_code (upper_code c) ≡ upper_code c
unfolding upper_code
upper_code-upper_code c = ground arith

pub upper-upper : (s : Text) → upper (upper s) ≡ upper s
unfolding upper
upper-upper [] = refl
upper-upper (c ∷ s) = simp (upper_code-upper_code, upper-upper s)

-- `s in xs` for a list of texts.
unfoldable pub in_list : Text → List Text → Bool
in_list s [] = false
in_list s (x ∷ xs) = if text_eq s x then true else in_list s xs
