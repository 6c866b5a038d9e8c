-- ===== src/Container/Steps.antt =====
-- What a statement of a start leaves, whether it returns or raises.
use nexa_trade.Prelude.{
  ℕ, suc, ◌==◌, ltb, ◌≡◌, refl, sym, ap, ◌∙◌, Bool, true, false, Option, none, some, List, [], ◌∷◌,
  ◌++◌, arith, if◌then◌else◌,
}
use mathlib.Core.List.{append_assoc}
use nexa_trade.Outcome.{Outcome, ok, raised}
use nexa_trade.Container.{
  Part, pg, influx, redis, broker_svc, data_svc, feed_svc, risk_mgr, strategy_eng, backtest_runner,
  rank, Call, Components, begun, Container, Components, put, note_call, after, made, create,
  dropped, begin, launch,
}
use nexa_trade.Container.Shutdown.{calls, call_of}

-- The components that are begun, in their order.
abbrev pub startup_steps : List Part
startup_steps = pg ∷ influx ∷ redis ∷ broker_svc ∷ feed_svc ∷ strategy_eng ∷ []

-- The same, the last first.
abbrev pub reverse_steps : List Part
reverse_steps = strategy_eng ∷ feed_svc ∷ broker_svc ∷ redis ∷ influx ∷ pg ∷ []

-- Every part up to a rank is there.
abbrev pub Present : {H : Type 0} → ℕ → (Part → Option H) → Type 0
Present n parts = (p : Part) → ltb (rank p) n ≡ true → (h : _) × (parts p ≡ some h)

-- The calls of a start so far: those to the first of the components.
abbrev pub Opened : {H : Type 0} → List (Call H) → List Part → Container H → Type 0
Opened log done c = (c.started ≡ false) × (c.log ≡ log ++ calls begun done c.parts)

-- After a statement of a start: what it has begun, and that is a first part of the order.
abbrev pub Step :
    {B H : Type 0} → List (Call H) → List Part → ℕ → Outcome (Unit {0}) × (Container H × B) → Type 0
Step log done n (ok _, (c, b)) = Opened log done c × Present n c.parts
Step log done n (raised e, (c, b)) =
    (begun_ rest : List Part) × ((begun_ ++ rest ≡ startup_steps) × Opened log begun_ c)

pub rank-bound : (p : Part) → ltb (rank p) 9 ≡ true
rank-bound pg = refl
rank-bound influx = refl
rank-bound redis = refl
rank-bound broker_svc = refl
rank-bound data_svc = refl
rank-bound feed_svc = refl
rank-bound risk_mgr = refl
rank-bound strategy_eng = refl
rank-bound backtest_runner = refl

module _ {H : Type 0} where
  put_at :
      (b : Bool) (h : H) (o : Option H)
      → (b ≡ false → (x : H) × (o ≡ some x))
      → (x : H) × ((if b then some h else o) ≡ some x)
  put_at true h o other = (h, refl)
  put_at false h o other = other refl

  call_of-append :
      (f : H → Call H) (o : Option H) (l m : List (Call H))
      → call_of f o (l ++ m) ≡ call_of f o l ++ m
  call_of-append f none l m = refl
  call_of-append f (some h) l m = refl

  calls-snoc :
      (ps : List Part) (p : Part) (h : H) (parts : Part → Option H)
      → parts p ≡ some h
      → calls begun (ps ++ p ∷ []) parts ≡ calls begun ps parts ++ begun p h ∷ []
  calls-snoc [] p h parts e = ap (λ o. call_of (begun p) o []) e
  calls-snoc (q ∷ ps) p h parts e =
      ap (call_of (begun q) (parts q)) (calls-snoc ps p h parts e)
      ∙ call_of-append (begun q) (parts q) (calls begun ps parts) (begun p h ∷ [])

  put-Present :
      (p : Part) (h : H) (c : Container H)
      → Present (rank p) c.parts
      → Present (suc (rank p)) (put p h c).parts
  unfolding put
  put-Present p h c before q below =
      put_at (rank q == rank p) h (c.parts q) λ other. before q (ground (arith, other, below))

  create_by :
      {B : Type 0} (log : List (Call H)) (done rest : List Part) (p : Part) (c : Container H)
      → done ++ rest ≡ startup_steps
      → ((h : H) → calls begun done (put p h c).parts ≡ calls begun done c.parts)
      → Opened log done c
      → Present (rank p) c.parts
      → (w : Components B H) (m : Outcome H × B) → Step log done (suc (rank p)) (made w p c m)
  unfolding put
  create_by log done rest p c order fresh o before w (raised e, b) = (done, rest, (order, o))
  create_by log done rest p c order fresh (off, o) before w (ok h, b) =
      ((off, o ∙ ap (◌++◌ log) (sym (fresh h))), put-Present p h c before)

  begun_by :
      {A B : Type 0} (log : List (Call H)) (done rest : List Part) (n : ℕ) (c : Container H)
      → done ++ rest ≡ startup_steps
      → Opened log done c
      → Present n c.parts
      → (w : Components B H) (m : Outcome A × B) → Step log done n (dropped w m.0, (c, m.1))
  begun_by log done rest n c order o present w (raised e, b) = (done, rest, (order, o))
  begun_by log done rest n c order o present w (ok a, b) = (o, present)

module _ {B H : Type 0} (w : Components B H) where
  pub after-Step :
      (log : List (Call H)) (done done' : List Part) (n n' : ℕ)
      → (m : Outcome (Unit {0}) × (Container H × B))
      → (next : Container H × B → Outcome (Unit {0}) × (Container H × B)) → Step log done n m
      → ((c : Container H) (b : B)
          → Opened log done c
          → Present n c.parts
          → Step log done' n' (next (c, b)))
      → Step log done' n' (after w m next)
  after-Step log done done' n n' (ok _, (c, b)) next (o, p) k = k c b o p
  after-Step log done done' n n' (raised e, (c, b)) next h k = h

  pub create-Step :
      (log : List (Call H)) (done rest : List Part) (p : Part) (c : Container H) (b : B)
      → done ++ rest ≡ startup_steps
      → ((h : H) → calls begun done (put p h c).parts ≡ calls begun done c.parts)
      → Opened log done c
      → Present (rank p) c.parts
      → Step log done (suc (rank p)) (create w p (c, b))
  unfolding create
  create-Step log done rest p c b order fresh o before =
      create_by log done rest p c order fresh o before w (w.make p c.parts b)

  begin-Step :
      (log : List (Call H)) (done rest : List Part) (p : Part) (n : ℕ) (c : Container H) (b : B)
      → (done ++ p ∷ []) ++ rest ≡ startup_steps
      → ltb (rank p) n ≡ true
      → Opened log done c
      → Present n c.parts
      → Step log (done ++ p ∷ []) n (begin w p (c, b))
  unfolding begin note_call
  begin-Step log done rest p n c b order here (off, o) present =
      let (h, e) = present p here in
      let logged =
        ap (λ l. l ++ begun p h ∷ []) o
        ∙ (append_assoc log (calls begun done c.parts) (begun p h ∷ [])
            ∙ ap (◌++◌ log) (sym (calls-snoc done p h c.parts e))) in
      rw e (
        begun_by log (done ++ p ∷ []) rest n (note_call (begun p h) c) order (off, logged) present w
          (w.begin_ p h b))

  pub launch-Step :
      (log : List (Call H)) (done rest : List Part) (p : Part) (c : Container H) (b : B)
      → done ++ p ∷ rest ≡ startup_steps
      → (done ++ p ∷ []) ++ rest ≡ startup_steps
      → ((h : H) → calls begun done (put p h c).parts ≡ calls begun done c.parts)
      → Opened log done c
      → Present (rank p) c.parts
      → Step log (done ++ p ∷ []) (suc (rank p)) (launch w p (c, b))
  unfolding launch
  launch-Step log done rest p c b order order' fresh o before =
      after-Step log done (done ++ p ∷ []) (suc (rank p)) (suc (rank p)) (create w p (c, b))
        (begin w p) (create-Step log done (p ∷ rest) p c b order fresh o before)
        λ c' b' o' present.
          begin-Step log done rest p (suc (rank p)) c' b' order' (ground arith) o' present
