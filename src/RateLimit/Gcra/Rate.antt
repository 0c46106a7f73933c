-- ===== src/RateLimit/Gcra/Rate.antt =====
-- The rate that gcra.go holds a key to, over any stretch of its calls.
use agent_cortex.Prelude.{
  ℕ, zero, suc, ◌+◌, ◌*◌, ◌<◌, ◌≡◌, refl, ◌⊎◌, List, [], ◌∷◌, true, false, if◌then◌else◌, arith,
  inl,
}
use native.Mathlib.Decide.{dec_le}
use agent_cortex.Prelude.Int.{ℤ, pos, negsuc, pos_part, ◌+ℤ◌, ◌≤ℤ◌, ◌<ℤ◌, +ℤ_parts}
use agent_cortex.RateLimit.Types.{Time, Duration, zero_time}
use agent_cortex.RateLimit.Gcra.{Gcra, denied, arrival, decide}
use agent_cortex.RateLimit.Gcra.Conform.{Shape, decide_conform, decide_state}

abbrev pub Call : Type 0
Call = Time × ℤ

-- The clock does not go back, and every size has passed the check of `AllowN`.
abbrev pub IsRun : Time → List Call → Type 0
IsRun last [] = Unit
IsRun last ((now, n) ∷ cs) = (last ≤ℤ now) × (pos 0 <ℤ n) × IsRun now cs

-- The time of the last call.
abbrev pub end_of : Time → List Call → Time
end_of last [] = last
end_of last ((now, n) ∷ cs) = end_of now cs

end_of-ge : (t0 : Time) (cs : List Call) → IsRun t0 cs → t0 ≤ℤ end_of t0 cs
end_of-ge t0 [] m = omega arith
end_of-ge t0 ((now, n) ∷ cs) m = omega (arith, m.0, end_of-ge now cs m.2)

module _ (floor_quotient : Duration → Duration → ℤ) where
  -- The final state, and how many units were admitted.
  pub run : Gcra → Time → List Call → Time × ℕ
  run l state [] = (state, 0)
  run l state ((now, n) ∷ cs) =
      let r = decide floor_quotient l state now n in
      let rest = run l r.0 cs in (rest.0, (if r.1.allowed then pos_part n else 0) + rest.1)

  module _ (l : Gcra) (b i : ℕ) (shape : Shape l b i) where
    -- One call either changes nothing, or moves the state past its arrival by its share of the rate.
    abbrev Moves : Time → Time → ℤ → Type 0
    Moves state now n =
        (((decide floor_quotient l state now n).1.allowed ≡ false)
          × ((decide floor_quotient l state now n).0 ≡ state))
        ⊎ (((decide floor_quotient l state now n).1.allowed ≡ true)
            × ((decide floor_quotient l state now n).0 ≡ arrival state now +ℤ pos (pos_part n * i))
            × (arrival state now +ℤ pos (pos_part n * i) ≤ℤ now +ℤ pos (suc b * i)))

    too_big :
        (state now : Time) (k : ℕ)
        → b < k
        → decide floor_quotient l state now (pos (suc k)) ≡ (state, denied l l.interval)
    unfolding decide
    too_big state now k h = ground (arith, shape.burst_eq)

    decide-Moves : (state now : Time) (k : ℕ) → Moves state now (pos (suc k))
    decide-Moves state now k = elim (dec_le k b) [
      | yes h ↦ ground (
        arith,
        decide_conform l b i shape floor_quotient state now k h,
        decide_state l b i shape floor_quotient state now k h,
      )
      | no h ↦ ground (arith, too_big state now k)
    ]

    arrival-ge :
        (lo state now : Time)
        → zero_time ≤ℤ now
        → (lo ≤ℤ now) ⊎ (lo ≤ℤ state)
        → lo ≤ℤ arrival state now
    unfolding arrival
    arrival-ge lo state now z h = ground arith

    grows :
        (lo t0 state : Time) (cs : List Call)
        → zero_time ≤ℤ t0
        → (lo ≤ℤ t0) ⊎ (lo ≤ℤ state)
        → IsRun t0 cs
        → (((run l state cs).1 ≡ 0) × ((run l state cs).0 ≡ state))
          ⊎ (lo +ℤ pos ((run l state cs).1 * i) ≤ℤ (run l state cs).0)
    unfolding run
    grows lo t0 state [] z h m = inl (refl, refl)
    grows lo t0 state ((now, pos zero) ∷ cs) z h m = absurd (omega (arith, m.1))
    grows lo t0 state ((now, negsuc k) ∷ cs) z h m = absurd (omega (arith, m.1))
    grows lo t0 state ((now, pos (suc k)) ∷ cs) z h m =
        let r = decide floor_quotient l state now (pos (suc k)) in
        ground (
          arith,
          decide-Moves state now k,
          arrival-ge lo state now,
          +ℤ_parts (arrival state now) (pos (suc k * i)),
          +ℤ_parts lo (pos (suc k * i)),
          +ℤ_parts (lo +ℤ pos (suc k * i)) (pos ((run l r.0 cs).1 * i)),
          +ℤ_parts lo (pos ((run l r.0 cs).1 * i)),
          +ℤ_parts lo (pos ((suc k + (run l r.0 cs).1) * i)),
          grows lo now r.0 cs (omega arith),
          grows (lo +ℤ pos (suc k * i)) now r.0 cs (omega arith),
        )

    stays_ahead :
        (t0 state : Time) (cs : List Call)
        → state ≤ℤ t0 +ℤ pos (suc b * i)
        → IsRun t0 cs
        → (run l state cs).0 ≤ℤ end_of t0 cs +ℤ pos (suc b * i)
    unfolding run
    stays_ahead t0 state [] h m = h
    stays_ahead t0 state ((now, pos zero) ∷ cs) h m = absurd (omega (arith, m.1))
    stays_ahead t0 state ((now, negsuc k) ∷ cs) h m = absurd (omega (arith, m.1))
    stays_ahead t0 state ((now, pos (suc k)) ∷ cs) h m =
        let r = decide floor_quotient l state now (pos (suc k)) in
        stays_ahead now r.0 cs
          (ground (
            arith,
            decide-Moves state now k,
            m.0,
            +ℤ_parts t0 (pos (suc b * i)),
            +ℤ_parts now (pos (suc b * i)),
          ))
          m.2

    -- Over any stretch of calls that begins at `t0` with a state that is not ahead of the clock by
    -- more than the burst, the admitted units times the interval are at most the length of the
    -- stretch plus the burst times the interval.
    pub run_rate :
        (t0 state : Time) (cs : List Call)
        → zero_time ≤ℤ t0
        → state ≤ℤ t0 +ℤ pos (suc b * i)
        → IsRun t0 cs
        → t0 +ℤ pos ((run l state cs).1 * i) ≤ℤ end_of t0 cs +ℤ pos (suc b * i)
    run_rate t0 state cs z h m = ground (
      arith,
      grows t0 t0 state cs z (inl (omega arith)) m,
      stays_ahead t0 state cs h m,
      end_of-ge t0 cs m,
      +ℤ_parts t0 (pos ((run l state cs).1 * i)),
      +ℤ_parts (end_of t0 cs) (pos (suc b * i)),
    )
