-- ===== src/Models/Symbol.antt =====
-- brokers/models.py, `normalise_symbol`: `v.strip().upper()` on every symbol that enters a model.
use nexa_trade.Prelude.{ℕ, Bool, ◌&&◌, ◌||◌, [], ◌∷◌, leb, if◌then◌else◌}
use nexa_trade.Text.{Text, upper}

-- The ASCII characters that `str.strip` removes.
unfoldable pub is_space : ℕ → Bool
is_space c = (leb 9 c && leb c 13) || (leb 28 c && leb c 32)

unfoldable pub lstrip : Text → Text
lstrip [] = []
lstrip (c ∷ s) = if is_space c then lstrip s else c ∷ s

-- Put a character in front, unless it is a space with nothing behind it.
unfoldable pub cons_trimmed : ℕ → Text → Text
cons_trimmed c [] = if is_space c then [] else c ∷ []
cons_trimmed c (d ∷ s) = c ∷ d ∷ s

unfoldable pub rstrip : Text → Text
unfolding cons_trimmed
rstrip [] = []
rstrip (c ∷ s) = cons_trimmed c (rstrip s)

unfoldable pub strip : Text → Text
strip s = rstrip (lstrip s)

unfoldable pub normalise_symbol : Text → Text
normalise_symbol v = upper (strip v)
