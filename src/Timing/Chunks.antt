-- ===== src/Timing/Chunks.antt =====
-- utils/time_utils.py, `date_range_chunks`, on points in time as microseconds.
use nexa_trade.Prelude.{
  ℕ, zero, suc, ◌+◌, ◌*◌, ◌≤◌, ◌<◌, ◌≡◌, refl, Bool-cases, inl, inr, List, [], ◌∷◌, ltb, ltb→lt,
  le_of_not_ltb, if◌then◌else◌, arith,
}
use nexa_trade.Outcome.{Outcome, ok, raised, out_of_fuel, Returns, Returns->>=, ◌>>=◌}
use nexa_trade.Timing.Instant.{day_length}

-- `min(current + timedelta(days=chunk_days), end)`
abbrev pub chunk_end : ℕ → ℕ → ℕ → ℕ
chunk_end days current end =
    let next = current + days * day_length in if ltb end next then end else next

-- The loop, with fuel for its rounds: all chunks that it yields.
unfoldable pub date_range_chunks : ℕ → ℕ → ℕ → ℕ → Outcome (List (ℕ × ℕ))
date_range_chunks zero current end days = if ltb current end then raised out_of_fuel else ok []
date_range_chunks (suc fuel) current end days =
    let next = chunk_end days current end in
    let rest = date_range_chunks fuel next end days in
    if ltb current end then rest >>= (λ chunks. ok ((current, next) ∷ chunks)) else ok []

-- Chunks that follow one another from one point to another, none empty and none longer than allowed.
abbrev pub Covers : ℕ → ℕ → ℕ → List (ℕ × ℕ) → Type 0
Covers start end days [] = end ≤ start
Covers start end days ((a, b) ∷ chunks) =
    (a ≡ start) × (a < b) × (b ≤ end) × (b ≤ a + days * day_length) × Covers b end days chunks

chunk_end_bounds :
    (current end days : ℕ)
    → 0 < days
    → current < end
    → let next = chunk_end days current end in
      (current < next) × (next ≤ end) × (next ≤ current + days * day_length)
chunk_end_bounds current end days h k = ground arith

-- For a positive number of days the loop ends, with as much fuel as there are microseconds in the
-- range, and its chunks cover the range from its start to its end without a gap or an overlap, each of
-- them not empty and of at most the days that were asked for.
pub date_range_chunks_lem :
    (fuel start end days : ℕ)
    → 0 < days
    → end ≤ start + fuel
    → Returns (Covers start end days) (date_range_chunks fuel start end days)
unfolding date_range_chunks
date_range_chunks_lem zero start end days h enough = elim (Bool-cases (ltb start end)) [
  | inl e ↦ rw e (omega (arith, ltb→lt start end e))
  | inr e ↦ rw e (le_of_not_ltb start end e)
]
date_range_chunks_lem (suc fuel) start end days h enough =
    let next = chunk_end days start end in
    elim (Bool-cases (ltb start end)) [
      | inl e ↦
          let (first, in_, short) = chunk_end_bounds start end days h (ltb→lt start end e) in
          rw e (
            Returns->>= (Covers next end days) (Covers start end days)
              (date_range_chunks fuel next end days) (λ chunks. ok ((start, next) ∷ chunks))
              (date_range_chunks_lem fuel next end days h (omega (arith, enough, first)))
              (λ chunks k. (refl, first, in_, short, k)))
      | inr e ↦ rw e (le_of_not_ltb start end e)
    ]
