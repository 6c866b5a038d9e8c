-- ===== src/Callbacks.antt =====
-- Lists of callbacks, as brokers/abstract_broker.py, services/broker_service.py and
-- services/feed_service.py keep them. A number stands for a function.
use nexa_trade.Prelude.{
  ℕ, ◌≡◌, refl, Bool, true, false, List, [], ◌∷◌, ◌++◌, arith, ◌==◌, if◌then◌else◌,
}

unfoldable pub has : ℕ → List ℕ → Bool
has c [] = false
has c (x ∷ xs) = if x == c then true else has c xs

-- `if callback not in callbacks: callbacks.append(callback)`
unfoldable pub register : ℕ → List ℕ → List ℕ
register c cs = if has c cs then cs else cs ++ c ∷ []

-- `callbacks.remove(callback)`: the first one goes.
unfoldable pub remove : ℕ → List ℕ → List ℕ
remove c [] = []
remove c (x ∷ xs) = if x == c then xs else x ∷ remove c xs

-- `if callback in callbacks: callbacks.remove(callback)`
unfoldable pub unregister : ℕ → List ℕ → List ℕ
unregister c cs = if has c cs then remove c cs else cs

-- Each callback in turn on the state that the callbacks share; what one raises is logged and dropped.
unfoldable pub emit {ℓ κ} : {S : Type ℓ} {T : Type κ} → (ℕ → T → S → S × Bool) → List ℕ → T → S → S
emit run [] x s = s
emit run (c ∷ cs) x s = let (s', raised) = run c x s in emit run cs x s'

-- No callback is in the list twice.
abbrev pub IsOnce : List ℕ → Type 0
IsOnce [] = Unit
IsOnce (x ∷ xs) = (has x xs ≡ false) × IsOnce xs

pub has-append :
    (c d : ℕ) (cs : List ℕ) → has c (cs ++ d ∷ []) ≡ (if d == c then true else has c cs)
unfolding has
has-append c d [] = refl
has-append c d (x ∷ xs) = ground (arith, has-append c d xs)

append-IsOnce : (c : ℕ) (cs : List ℕ) → has c cs ≡ false → IsOnce cs → IsOnce (cs ++ c ∷ [])
unfolding has
append-IsOnce c [] h k = (refl, tt)
append-IsOnce c (x ∷ xs) h (fresh, k) =
    (ground (arith, has-append x c xs), append-IsOnce c xs (ground arith) k)

has-remove :
    (c d : ℕ) (cs : List ℕ) → IsOnce cs → has d (remove c cs) ≡ (if c == d then false else has d cs)
unfolding has remove
has-remove c d [] k = ground arith
has-remove c d (x ∷ xs) (fresh, k) = ground (arith, has-remove c d xs k, has-remove c x xs k)

remove-IsOnce : (c : ℕ) (cs : List ℕ) → IsOnce cs → IsOnce (remove c cs)
unfolding has remove
remove-IsOnce c [] k = tt
remove-IsOnce c (x ∷ xs) (fresh, k) = ground (arith, has-remove c x xs k, remove-IsOnce c xs k)

-- Registering a callback, once or again, leaves it in the list once, and unregistering takes it out;
-- no other callback comes or goes.
pub register_lem :
    (c d : ℕ) (cs : List ℕ)
    → IsOnce cs
    → IsOnce (register c cs)
      × (has d (register c cs) ≡ (if c == d then true else has d cs))
      × IsOnce (unregister c cs)
      × (has d (unregister c cs) ≡ (if c == d then false else has d cs))
unfolding register unregister
register_lem c d cs k =
    ground (arith, append-IsOnce c cs, has-append d c cs, remove-IsOnce c cs k, has-remove c d cs k)
