-- ===== src/Aggregator/Bars.antt =====
-- The candles of an aggregator are the summaries of consecutive groups of its ticks.
use nexa_trade.Prelude.{
  ◌≤◌, ◌<◌, ◌≡◌, refl, sym, ap, ◌∙◌, true, false, Bool-cases, inl, inr, none, some, List, [], ◌∷◌,
  ◌++◌, map, All, All-append, ltb, ltb→lt, le_of_not_ltb,
}
use mathlib.Core.List.{foldl, foldl-append, append_assoc, append-nil, map-append}
use mathlib.Core.Path.{subst}
use nexa_trade.Prelude.Int.{ℤ}
use nexa_trade.Float.{Float, ◌⊕◌, min_f, max_f}
use nexa_trade.Ring.{push_all}
use nexa_trade.Models.Market.{Ohlcv, TickData}
use nexa_trade.Aggregator.{
  Running, Aggregator, boundary_of, candle_of, close_candle, start_new_candle, update_candle,
  ingest, process_tick, process_ticks,
}

-- A nonempty group of ticks.
pub record Group (F : Type 0) : Type 0 where
  pub first : TickData F
  pub rest : List (TickData F)

module _ {F : Type 0} where
  abbrev pub ticks_of : Group F → List (TickData F)
  ticks_of g = g.first ∷ g.rest

  abbrev pub all_ticks : List (Group F) → List (TickData F)
  all_ticks [] = []
  all_ticks (g ∷ gs) = ticks_of g ++ all_ticks gs

  abbrev pub prices : List (TickData F) → List F
  prices ts = map (λ (t : TickData F). t.last_price) ts

  abbrev pub last_price : F → List (TickData F) → F
  last_price p [] = p
  last_price p (t ∷ ts) = last_price t.last_price ts

  -- No tick of a group is past the interval that its first tick opens.
  abbrev pub IsGroup : ℤ → Group F → Type 0
  IsGroup m g = All (λ t. boundary_of m t ≤ boundary_of m g.first) g.rest

  -- The first of some groups, the last of which stands apart.
  abbrev pub head_of : List (Group F) → Group F → Group F
  head_of [] last = last
  head_of (g ∷ gs) last = g

  -- All are groups, and each opens a later interval than the one before it.
  abbrev pub Successive : ℤ → List (Group F) → Group F → Type 0
  Successive m [] last = IsGroup m last
  Successive m (g ∷ gs) last =
      IsGroup m g
      × (boundary_of m g.first < boundary_of m (head_of gs last).first)
      × Successive m gs last

module _ {F : Type 0} ⦃f : Float F⦄ where
  -- The candle of a group: the first price, the largest, the smallest, the last, and all volume.
  abbrev pub summary : ℤ → Group F → Running F
  summary m g = record {
    datetime = boundary_of m g.first;
    open_ = g.first.last_price;
    high = foldl max_f g.first.last_price (prices g.rest);
    low = foldl min_f g.first.last_price (prices g.rest);
    close = last_price g.first.last_price g.rest;
    volume = foldl (λ v (t : TickData F). v ⊕ f.of_ℤ t.volume) (f.of_ℤ g.first.volume) g.rest;
  }

  abbrev pub bar_of : Aggregator F → Group F → Ohlcv F
  bar_of a g = candle_of a (summary a.interval_minutes g)

  -- What ticks give: the groups of the candles that they close, and that of the candle in progress.
  pub record Bars (a : Aggregator F) (ts : List (TickData F)) (out : List (Ohlcv F) × Aggregator F)
      : Type 0 where
    pub groups : List (Group F)
    pub last : Group F
    pub ticks_kept : all_ticks groups ++ ticks_of last ≡ ts
    pub successive : Successive a.interval_minutes groups last
    pub closed : out.0 ≡ map (bar_of a) groups
    pub current : out.1.current ≡ some (summary a.interval_minutes last)
    pub buffer : out.1.buffer ≡ push_all a.buffer_size a.buffer out.0

  last_price-snoc :
      (p : F) (ts : List (TickData F)) (t : TickData F) → last_price p (ts ++ t ∷ []) ≡ t.last_price
  last_price-snoc p [] t = refl
  last_price-snoc p (x ∷ ts) t = last_price-snoc x.last_price ts t

  abbrev joined : Group F → TickData F → Group F
  joined g t = record { first = g.first; rest = g.rest ++ t ∷ [] }

  summary-joined :
      (m : ℤ) (g : Group F) (t : TickData F)
      → summary m (joined g t) ≡ update_candle t (summary m g)
  unfolding update_candle
  summary-joined m g t = simp (map-append, foldl-append, last_price-snoc)

  summary-fresh :
      (m : ℤ) (t : TickData F)
      → summary m (record { first = t; rest = [] }) ≡ start_new_candle t (boundary_of m t)
  unfolding start_new_candle
  summary-fresh m t = refl

  -- The state while a group is being collected.
  abbrev Collecting : Aggregator F → Group F → Type 0
  Collecting a g = (a.current ≡ some (summary a.interval_minutes g)) × IsGroup a.interval_minutes g

  process_tick-joined :
      (t : TickData F) (a : Aggregator F) (g : Group F)
      → a.current ≡ some (summary a.interval_minutes g)
      → ltb (boundary_of a.interval_minutes g.first) (boundary_of a.interval_minutes t) ≡ false
      → process_tick t a
        ≡ ([], record a { current = some (summary a.interval_minutes (joined g t)) })
  unfolding process_tick ingest
  process_tick-joined t a g h e = rw (h, ingest, e, summary-joined a.interval_minutes g t) refl

  process_tick-closed :
      (t : TickData F) (a : Aggregator F) (g : Group F)
      → a.current ≡ some (summary a.interval_minutes g)
      → ltb (boundary_of a.interval_minutes g.first) (boundary_of a.interval_minutes t) ≡ true
      → process_tick t a ≡ (
        bar_of a g ∷ [],
        record (close_candle (summary a.interval_minutes g) a) {
          current = some (start_new_candle t (boundary_of a.interval_minutes t));
        },
      )
  unfolding process_tick ingest
  process_tick-closed t a g h e = rw (h, ingest, e) refl

  -- From a group in progress on, the first group that closes begins with it.
  pub record Continues (a : Aggregator F) (g : Group F) (ts : List (TickData F))
      (out : List (Ohlcv F) × Aggregator F) : Type 0 where
    pub bars : Bars a (ticks_of g ++ ts) out
    pub same_first : (head_of (bars.groups) (bars.last)).first ≡ g.first

  joins :
      (t : TickData F) (ts : List (TickData F)) (a : Aggregator F) (g : Group F)
      → (out : List (Ohlcv F) × Aggregator F)
      → Continues
          (record a { current = some (summary a.interval_minutes (joined g t)) })
          (joined g t)
          ts
          out
      → Continues a g (t ∷ ts) out
  joins t ts a g out h = record {
    bars = record {
      groups = h.bars.groups;
      last = h.bars.last;
      ticks_kept = h.bars.ticks_kept ∙ ap (λ xs. g.first ∷ xs) (append_assoc g.rest (t ∷ []) ts);
      successive = h.bars.successive;
      closed = h.bars.closed;
      current = h.bars.current;
      buffer = h.bars.buffer;
    };
    same_first = h.same_first;
  }

  closes :
      (t : TickData F) (ts : List (TickData F)) (a : Aggregator F) (g : Group F)
      → (out : List (Ohlcv F) × Aggregator F) → IsGroup a.interval_minutes g
      → boundary_of a.interval_minutes g.first < boundary_of a.interval_minutes t
      → Continues
          (record (close_candle (summary a.interval_minutes g) a) {
            current = some (start_new_candle t (boundary_of a.interval_minutes t));
          })
          (record { first = t; rest = [] })
          ts
          out
      → Continues a g (t ∷ ts) (bar_of a g ∷ out.0, out.1)
  unfolding close_candle push_all
  closes t ts a g out k later h = record {
    bars = record {
      groups = g ∷ h.bars.groups;
      last = h.bars.last;
      ticks_kept =
          append_assoc (ticks_of g) (all_ticks h.bars.groups) (ticks_of h.bars.last)
          ∙ ap (λ xs. ticks_of g ++ xs) h.bars.ticks_kept;
      successive = (
        k,
        subst
            (λ (x : TickData F).
              boundary_of a.interval_minutes g.first < boundary_of a.interval_minutes x)
            (sym h.same_first) later,
        h.bars.successive,
      );
      closed = ap (λ cs. bar_of a g ∷ cs) h.bars.closed;
      current = h.bars.current;
      buffer = h.bars.buffer;
    };
    same_first = refl;
  }

  process_ticks-Continues :
      (ts : List (TickData F)) (a : Aggregator F) (g : Group F)
      → a.current ≡ some (summary a.interval_minutes g)
      → IsGroup a.interval_minutes g
      → Continues a g ts (process_ticks ts a)
  unfolding process_ticks push_all close_candle
  process_ticks-Continues [] a g h k = record {
    bars = record {
      groups = [];
      last = g;
      ticks_kept = sym (append-nil _);
      successive = k;
      closed = refl;
      current = h;
      buffer = refl;
    };
    same_first = refl;
  }
  process_ticks-Continues (t ∷ ts) a g h k =
      let m = a.interval_minutes in
      elim (Bool-cases (ltb (boundary_of m g.first) (boundary_of m t))) [
        | inl e ↦ rw (process_tick-closed t a g h e) (
            closes t ts a g _ k (ltb→lt _ _ e) (
              process_ticks-Continues ts
                (record (close_candle (summary m g) a) {
                  current = some (start_new_candle t (boundary_of m t));
                })
                (record { first = t; rest = [] }) (ap some (sym (summary-fresh m t))) tt))
        | inr e ↦ rw (process_tick-joined t a g h e) (
            joins t ts a g _ (
              process_ticks-Continues ts (record a { current = some (summary m (joined g t)) })
                (joined g t) refl
                (All-append (λ x. boundary_of m x ≤ boundary_of m g.first) g.rest (t ∷ []) k
                  (le_of_not_ltb _ _ e, tt))))
      ]

  -- From an aggregator with no candle in progress, one tick or more split into consecutive groups.
  -- Each group but the last is closed as one candle, with the first price, the largest, the smallest,
  -- the last and all volume of its ticks, at the boundary of its first tick; the last group is the
  -- candle in progress. The boundaries of the groups increase, and a tick that comes late counts
  -- for the group in progress. The closed candles are appended to the buffer within its bound.
  pub process_ticks-Bars :
      (t : TickData F) (ts : List (TickData F)) (a : Aggregator F)
      → a.current ≡ none
      → Bars a (t ∷ ts) (process_ticks (t ∷ ts) a)
  unfolding process_ticks process_tick ingest
  process_ticks-Bars t ts a h =
      let m = a.interval_minutes in
      let a' : Aggregator F = record a { current = some (start_new_candle t (boundary_of m t)) } in
      let c =
        process_ticks-Continues ts a' (record { first = t; rest = [] })
          (ap some (sym (summary-fresh m t))) tt in
      rw (h, ingest)
        (record {
          groups = c.bars.groups;
          last = c.bars.last;
          ticks_kept = c.bars.ticks_kept;
          successive = c.bars.successive;
          closed = c.bars.closed;
          current = c.bars.current;
          buffer = c.bars.buffer;
        })
