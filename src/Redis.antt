-- ===== src/Redis.antt =====
-- data/storage/redis_client.py, as far as the risk manager uses it: raw values, the kill switches, the
-- daily profit and the cached position. The Redis library is a parameter: each of its calls takes the
-- state of the server and gives its answer, which may be an exception, and the new state.
use nexa_trade.Prelude.{
  ℕ, Bool, true, false, ◌++◌, Option, none, some, [], ◌∷◌, ◌==◌, if◌then◌else◌,
}
use nexa_trade.Prelude.Int.{ℤ}
use nexa_trade.Text.{Text, codes, text_eq, upper}
use nexa_trade.Float.{Float, nought}
use nexa_trade.Outcome.{Outcome, ok, raised, backend_error}

-- A call that may raise, and that may have changed the server before that.
abbrev pub Act : Type 0 → Type 0 → Type 0
Act R A = R → Outcome A × R

-- The rest of a block, after a call in it.
abbrev pub and_then : {R A B : Type 0} → Outcome A × R → (A → Act R B) → Outcome B × R
and_then (ok value, r) next = next value r
and_then (raised e, r) next = (raised e, r)

infixl 5 ◌>>=◌ ◌>>◌
unfoldable pub ◌>>=◌ : {R A B : Type 0} → Act R A → (A → Act R B) → Act R B
(m >>= next) r = and_then (m r) next

unfoldable pub ◌>>◌ : {R B : Type 0} → Act R (Unit {0}) → Act R B → Act R B
(m >> next) r = and_then (m r) (λ _. next)

abbrev pub answer : {R A : Type 0} → A → Act R A
answer a r = (ok a, r)

-- The calls of the library, and the readers of texts: `float(raw)`, and of a JSON object whether it is
-- empty and `int(position.get("quantity", 0))`; a text that is no JSON is `none`.
pub record Library (R F : Type 0) : Type 0 where
  pub get : Text → Act R (Option Text)
  pub set : Text → Text → Act R (Unit {0})
  pub setex : Text → ℕ → Text → Act R (Unit {0})
  pub parse_float : Text → Outcome F
  pub parse_quantity : Text → Option (Bool × Outcome ℤ)

-- A client: whether `initialise()` has run, and the library.
pub record RedisClient (R F : Type 0) : Type 0 where
  pub is_initialised : Bool
  pub library : Library R F

abbrev pub flag : Bool → Text
flag true = codes "1"
flag false = codes "0"

abbrev pub is_set : Option Text → Bool
is_set none = false
is_set (some value) = text_eq value (codes "1")

abbrev pub kill_switch_key : Text → Text
kill_switch_key broker_name = codes "ks:" ++ broker_name

abbrev pub lift : {R A : Type 0} → Outcome A → Act R A
lift o r = (o, r)

module _ {R F : Type 0} where
  -- `_require`
  abbrev pub require_client : RedisClient R F → Act R (Unit {0})
  require_client client = lift (if client.is_initialised then ok tt else raised backend_error)

  unfoldable pub get : RedisClient R F → Text → Act R (Option Text)
  get client key = require_client client >> client.library.get key

  -- A time to live of zero is as good as none.
  unfoldable pub set : RedisClient R F → Text → Text → Option ℕ → Act R (Unit {0})
  set client key value none = require_client client >> client.library.set key value
  set client key value (some ttl) =
      require_client client
      >> (if ttl == 0 then client.library.set key value else client.library.setex key ttl value)

  unfoldable pub set_kill_switch : RedisClient R F → Text → Bool → Act R (Unit {0})
  unfolding set
  set_kill_switch client broker_name active =
      set client (kill_switch_key broker_name) (flag active) none

  unfoldable pub is_kill_switch_active : RedisClient R F → Text → Act R Bool
  is_kill_switch_active client broker_name =
      get client (kill_switch_key broker_name) >>= λ v. answer (is_set v)

  unfoldable pub set_global_kill_switch : RedisClient R F → Bool → Act R (Unit {0})
  set_global_kill_switch client active = set client (codes "ks:global") (flag active) none

  unfoldable pub is_global_kill_switch_active : RedisClient R F → Act R Bool
  is_global_kill_switch_active client = get client (codes "ks:global") >>= λ v. answer (is_set v)

  -- The cached position: `none` where there is none, it is no JSON, or it is empty; else its quantity.
  abbrev pub quantity_of : RedisClient R F → Option Text → Outcome (Option ℤ)
  quantity_of client none = ok none
  quantity_of client (some raw) = elim (client.library.parse_quantity raw) [
    | none ↦ ok none
    | some (is_empty, q) ↦
        if is_empty then ok none else elim q [ ok n ↦ ok (some n) | raised e ↦ raised e ]
  ]

  unfoldable pub get_position : RedisClient R F → Text → Text → Act R (Option ℤ)
  get_position client broker_name symbol =
      get client (codes "position:" ++ (broker_name ++ (codes ":" ++ upper symbol))) >>= λ v.
      lift (quantity_of client v)

module _ {R F : Type 0} ⦃f : Float F⦄ where
  -- `float(raw) if raw else 0.0`
  abbrev pub pnl_of : RedisClient R F → Option Text → Outcome F
  pnl_of client none = ok nought
  pnl_of client (some []) = ok nought
  pnl_of client (some (c ∷ raw)) = client.library.parse_float (c ∷ raw)

  unfoldable pub get_daily_pnl : RedisClient R F → Text → Act R F
  get_daily_pnl client broker_name =
      get client (codes "pnl:daily:" ++ broker_name) >>= λ v. lift (pnl_of client v)
