-- ===== src/RateLimit/Gcra/Conform.antt =====
-- gcra.go's decision as one inequality, and what it tells the caller.
use agent_cortex.Prelude.{ℕ, suc, ◌+◌, ◌*◌, ◌^◌, ◌≤◌, ◌<◌, ◌≡◌, ◌⊎◌, true, if◌then◌else◌, arith}
use agent_cortex.Prelude.Int.{
  ℤ, pos, pos_part, neg_part, ◌+ℤ◌, ◌≤ℤ◌, ◌<ℤ◌, leb_ℤ, one_sign, +ℤ_parts, sub64, sub64_parts,
  eq_of_parts, mul64, mul64_pos,
}
use agent_cortex.RateLimit.Types.{Time, Duration, Decision, sub_time}
use agent_cortex.RateLimit.Gcra.{Gcra, denied, arrival, allowed_at, decide_at, decide}

-- What `NewGCRA` builds: a burst of b + 1 requests, one each i nanoseconds, within the range of a
-- duration.
pub record Shape (l : Gcra) (b i : ℕ) : Type 0 where
  pub burst_eq : l.burst ≡ pos (suc b)
  pub interval_eq : l.interval ≡ pos i
  pub tolerance_eq : l.tolerance ≡ pos (b * i)
  pub some_interval : 0 < i
  pub no_overflow : suc b * i < 2 ^ 63
  pub burst_int64 : suc b < 2 ^ 63

pub sub_one : (k : ℕ) → suc k < 2 ^ 63 → sub64 (pos (suc k)) (pos 1) ≡ pos k
sub_one k h =
    eq_of_parts _ _
      (omega (arith, sub64_parts (pos (suc k)) (pos 1), one_sign (sub64 (pos (suc k)) (pos 1))))

module _ (l : Gcra) (b i : ℕ) (shape : Shape l b i) where
  pub arrival-le : (state now : Time) → now ≤ℤ arrival state now
  unfolding arrival
  arrival-le state now = ground arith

  negate :
      (m : ℕ) → m < 2 ^ 63 → pos_part (sub64 (pos 0) (pos m)) + m ≡ neg_part (sub64 (pos 0) (pos m))
  negate m h = omega (arith, sub64_parts (pos 0) (pos m))

  pub step-le : (k : ℕ) → k ≤ b → suc k * i ≤ suc b * i
  step-le k h = grind arith

  pub allowed_at_parts :
      (k : ℕ) (tat : Time)
      → k ≤ b
      → let a = allowed_at l tat (pos (suc k)) in
        pos_part a + neg_part tat + b * i ≡ neg_part a + pos_part tat + k * i
  unfolding allowed_at
  allowed_at_parts k tat h =
      rw
        (
          shape.interval_eq,
          shape.tolerance_eq,
          sub_one k (omega (arith, shape.burst_int64)),
          mul64_pos k i (omega (arith, step-le k h, shape.no_overflow)),
        )
        (omega (
          arith,
          +ℤ_parts tat (pos (k * i)),
          +ℤ_parts (tat +ℤ pos (k * i)) (sub64 (pos 0) (pos (b * i))),
          negate (b * i) (omega (arith, shape.no_overflow)),
        ))

-- A call for k + 1 units.
abbrev pub answer : (Duration → Duration → ℤ) → Gcra → Time → Time → ℕ → Time × Decision
answer floor_quotient l state now k = decide floor_quotient l state now (pos (suc k))

-- Such a call fits the burst for k at most b.
module _ (l : Gcra) (b i : ℕ) (shape : Shape l b i) (floor_quotient : Duration → Duration → ℤ)
    (state now : Time) (k : ℕ) (fits : k ≤ b) where
  next_parts :
      let t = arrival state now +ℤ mul64 (pos (suc k)) l.interval in
      pos_part t + neg_part (arrival state now)
      ≡ neg_part t + pos_part (arrival state now) + suc k * i
  next_parts =
      rw
        (
          shape.interval_eq,
          mul64_pos (suc k) i (omega (arith, step-le l b i shape k fits, shape.no_overflow)),
        )
        (omega (arith, +ℤ_parts (arrival state now) (pos (suc k * i))))

  pub decide_cases :
      ((now <ℤ allowed_at l (arrival state now) (pos (suc k)))
        × (answer floor_quotient l state now k
            ≡ (state, denied l (sub_time (allowed_at l (arrival state now) (pos (suc k))) now))))
      ⊎ ((allowed_at l (arrival state now) (pos (suc k)) ≤ℤ now)
          × ((answer floor_quotient l state now k).0
              ≡ arrival state now +ℤ mul64 (pos (suc k)) l.interval)
          × ((answer floor_quotient l state now k).1.allowed ≡ true))
  unfolding decide decide_at
  decide_cases = ground (arith, shape.burst_eq)

  -- Without overflow, a request that fits the burst is granted exactly when it leaves the arrival time
  -- at most the burst's length ahead of the clock.
  pub decide_conform :
      (answer floor_quotient l state now k).1.allowed
      ≡ leb_ℤ (arrival state now +ℤ pos (suc k * i)) (now +ℤ pos (suc b * i))
  decide_conform = ground (
    arith,
    decide_cases,
    allowed_at_parts l b i shape k (arrival state now) fits,
    +ℤ_parts (arrival state now) (pos (suc k * i)),
    +ℤ_parts now (pos (suc b * i)),
  )

  -- What is left of the state, on either branch.
  pub decide_state : (answer floor_quotient l state now k).0 ≡ (
      if (answer floor_quotient l state now k).1.allowed
      then arrival state now +ℤ pos (suc k * i)
      else state)
  decide_state = ground (
    arith,
    decide_cases,
    next_parts,
    +ℤ_parts (arrival state now) (pos (suc k * i)),
    eq_of_parts (arrival state now +ℤ mul64 (pos (suc k)) l.interval)
        (arrival state now +ℤ pos (suc k * i)),
  )

  -- The state never runs ahead of the clock by more than the burst.
  pub decide_ahead :
      state ≤ℤ now +ℤ pos (suc b * i)
      → (answer floor_quotient l state now k).0 ≤ℤ now +ℤ pos (suc b * i)
  decide_ahead h = ground (arith, decide_conform, decide_state)
