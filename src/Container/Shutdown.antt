-- ===== src/Container/Shutdown.antt =====
-- What a teardown calls, and what it leaves alone.
use nexa_trade.Prelude.{
  ◌≡◌, refl, sym, ap, ◌∙◌, true, false, Option, none, some, List, [], ◌∷◌, ◌++◌, if◌then◌else◌,
}
use nexa_trade.Container.{
  Part, Call, stopped, Container, Components, note_call, stop_by, stop_part, run_steps,
  teardown_steps, teardown_all, set_stopped, stop,
}
use mathlib.Core.List.{append_assoc, append-nil}

-- The calls to the parts that are there.
abbrev pub call_of : {H : Type 0} → (H → Call H) → Option H → List (Call H) → List (Call H)
call_of f none rest = rest
call_of f (some h) rest = f h ∷ rest

abbrev pub calls :
    {H : Type 0} → (Part → H → Call H) → List Part → (Part → Option H) → List (Call H)
calls f [] parts = []
calls f (p ∷ ps) parts = call_of (f p) (parts p) (calls f ps parts)

-- What the steps of a teardown leave: the parts, whether the container is started, and the log.
abbrev pub Left : {H : Type 0} → Container H → List (Call H) → Container H → Type 0
Left c new c' = (c'.parts ≡ c.parts) × (c'.started ≡ c.started) × (c'.log ≡ c.log ++ new)

module _ {B H : Type 0} (w : Components B H) where
  Left-then :
      (p : Part) (h : H) (new : List (Call H)) (c c' : Container H)
      → Left (note_call (stopped p h) c) new c'
      → Left c (stopped p h ∷ new) c'
  unfolding note_call
  Left-then p h new c c' (parts, started, log) =
      (parts, started, log ∙ append_assoc c.log (stopped p h ∷ []) new)

  run_steps_by :
      (p : Part) (ps : List Part) (c : Container H) (b : B)
      → ((c' : Container H) (b' : B)
          → Left c' (calls stopped ps c'.parts) (run_steps w ps (c', b')).0)
      → (o : Option H)
      → Left c
          (call_of (stopped p) o (calls stopped ps c.parts))
          (run_steps w ps (stop_by w p (c, b) o).1).0
  unfolding note_call
  run_steps_by p ps c b rest none = rest c b
  run_steps_by p ps c b rest (some h) =
      let b' = (w.end_ p h b).1 in
      Left-then p h (calls stopped ps c.parts) c (run_steps w ps (note_call (stopped p h) c, b')).0
        (rest (note_call (stopped p h) c) b')

  pub run_steps_lem :
      (ps : List Part) (c : Container H) (b : B)
      → Left c (calls stopped ps c.parts) (run_steps w ps (c, b)).0
  unfolding run_steps stop_part
  run_steps_lem [] c b = (refl, refl, sym (append-nil c.log))
  run_steps_lem (p ∷ ps) c b = run_steps_by p ps c b (run_steps_lem ps) (c.parts p)

  pub teardown_all_lem :
      (c : Container H) (b : B)
      → Left c (calls stopped teardown_steps c.parts) (teardown_all w (c, b)).0
  unfolding teardown_all
  teardown_all_lem c b = run_steps_lem teardown_steps c b

  pub stop-started :
      (c : Container H) (b : B)
      → c.started ≡ true
      → stop w (c, b) ≡ set_stopped w (teardown_all w (c, b))
  unfolding stop
  stop-started c b h =
      ap (λ started. if started then set_stopped w (teardown_all w (c, b)) else (c, b)) h

  -- A started container that is stopped is not started any more, keeps its parts, and has called
  -- each that is there, whichever of them raised before.
  pub stop_lem :
      (c : Container H) (b : B)
      → c.started ≡ true
      → let (c', _) = stop w (c, b) in
        (c'.started ≡ false)
        × ((c'.parts ≡ c.parts) × (c'.log ≡ c.log ++ calls stopped teardown_steps c.parts))
  stop_lem c b h =
      let (parts, _, log) = teardown_all_lem c b in
      let same = ap (λ x. x.0) (stop-started c b h) in
      (ap (λ c'. c'.started) same, (ap (λ c'. c'.parts) same ∙ parts, ap (λ c'. c'.log) same ∙ log))
