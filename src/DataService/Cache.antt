-- ===== src/DataService/Cache.antt =====
-- The memory cache of the data service.
use nexa_trade.Prelude.{
  ℕ, ◌+◌, ◌≤◌, ◌≡◌, refl, Bool, true, false, Option, none, some, [], ◌∷◌, length, leb,
  if◌then◌else◌, arith,
}
use nexa_trade.Text.{Text, text_eq_refl}
use nexa_trade.Float.{Float}
use nexa_trade.DataService.{
  CacheKey, key_eq, maxsize, Cache, cached, put, drop_oldest, cache_set, Tables, fetch, answer_with,
  look_up, get_by_key, get_ohlcv,
}

key_eq_refl : (k : CacheKey) → key_eq k k ≡ true
unfolding key_eq
key_eq_refl k = ground (
  arith,
  text_eq_refl k.symbol,
  text_eq_refl k.exchange,
  text_eq_refl k.interval,
  text_eq_refl k.from_date,
  text_eq_refl k.to_date,
)

module _ {D : Type 0} where
  cached-put : (k : CacheKey) (d : D) (c : Cache D) → cached k (put k d c) ≡ some d
  unfolding cached put
  cached-put k d [] = ground (arith, key_eq_refl k)
  cached-put k d ((j, e) ∷ c) = ground (arith, key_eq_refl k, cached-put k d c)

  cached-cache_set : (k : CacheKey) (d : D) (c : Cache D) → cached k (cache_set k d c) ≡ some d
  unfolding cache_set
  cached-cache_set k d c = cached-put k d (if leb maxsize (length c) then drop_oldest c else c)

  length-put : (k : CacheKey) (d : D) (c : Cache D) → length (put k d c) ≤ length c + 1
  unfolding put
  length-put k d [] = ground arith
  length-put k d ((j, e) ∷ c) = ground (arith, length-put k d c)

  length-cache_set :
      (k : CacheKey) (d : D) (c : Cache D) → length c ≤ maxsize → length (cache_set k d c) ≤ maxsize
  unfolding cache_set
  length-cache_set k d [] h = ground (arith, length-put k d [])
  length-cache_set k d (e ∷ c) h = ground (arith, length-put k d c, length-put k d (e ∷ c))

module _ {R D F : Type 0} ⦃f : Float F⦄ (w : Tables R D F) where
  answer_with-cached :
      (k : CacheKey) (x : D × R) (c : Cache D)
      → let (d, c', _) = answer_with w k x c in cached k c' ≡ some d
  unfolding answer_with
  answer_with-cached k x c = cached-cache_set k (w.validate_and_clean x.0) c

  look_up-cached :
      (found : Option D) (k : CacheKey) (broker : Text) (c : Cache D) (r : R)
      → cached k c ≡ found
      → let (d, c', _) = look_up w found k broker c r in cached k c' ≡ some d
  unfolding look_up
  look_up-cached none k broker c r h = answer_with-cached k (fetch w k broker false r) c
  look_up-cached (some d) k broker c r h = h

  get_by_key-cached :
      (k : CacheKey) (broker : Text) (force : Bool) (c : Cache D) (r : R)
      → let (d, c', _) = get_by_key w k broker force c r in cached k c' ≡ some d
  unfolding get_by_key
  get_by_key-cached k broker true c r = answer_with-cached k (fetch w k broker true r) c
  get_by_key-cached k broker false c r = look_up-cached (cached k c) k broker c r refl

  get_by_key-found :
      (k : CacheKey) (broker : Text) (c : Cache D) (r : R) {d : D}
      → cached k c ≡ some d
      → get_by_key w k broker false c r ≡ (d, c, r)
  unfolding get_by_key look_up
  get_by_key-found k broker c r h = rw h refl

  -- Candles that were asked for up to a date that is given, of whatever broker and refreshed or not,
  -- are given again to everyone who asks for the same, of whatever broker, with nothing fetched: the
  -- broker is no part of the key.
  pub get_ohlcv-get_ohlcv :
      (symbol exchange interval from_date : Text) (day : ℕ) (to_date : Text)
      → (broker other : Option Text) (force : Bool) (c : Cache D) (r : R)
      → let (d, c', r') =
          get_ohlcv w symbol exchange interval from_date (some (day ∷ to_date)) broker force c r in
        get_ohlcv w symbol exchange interval from_date (some (day ∷ to_date)) other false c' r'
        ≡ (d, c', r')
  unfolding get_ohlcv
  get_ohlcv-get_ohlcv symbol exchange interval from_date day to_date broker other force c r =
      get_by_key-found _ _ _ _ (get_by_key-cached _ _ force c r)
