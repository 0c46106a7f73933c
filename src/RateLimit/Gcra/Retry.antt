-- ===== src/RateLimit/Gcra/Retry.antt =====
-- The waiting time that gcra.go reports with a denial, and the configuration that it builds.
use agent_cortex.Prelude.{
  ℕ, suc, ◌+◌, ◌*◌, ◌-◌, ◌/◌, leb, ◌^◌, ◌≤◌, ◌<◌, ◌≡◌, refl, false, if◌then◌else◌, arith,
}
use agent_cortex.Prelude.Int.{
  ℤ, pos, pos_part, neg_part, ◌+ℤ◌, ◌-ℤ◌, ◌≤ℤ◌, ◌<ℤ◌, leb_ℤ, ltb_ℤ, one_sign, +ℤ_parts, -ℤ_parts,
  sub64, mul64, mul64_pos, quot_ℤ,
}
use agent_cortex.RateLimit.Types.{Time, Duration, Config, ok, sub_time}
use agent_cortex.RateLimit.Store.{new_sharded_state}
use agent_cortex.RateLimit.Gcra.{Gcra, arrival, allowed_at, new_gcra}
use agent_cortex.RateLimit.Gcra.Conform.{
  Shape, sub_one, step-le, answer, decide_cases, decide_conform, allowed_at_parts,
}

-- `Sub` is exact where the difference fits a duration.
sub_time_parts :
    (t u : Time)
    → pos_part t + neg_part u < 2 ^ 63 + neg_part t + pos_part u
    → neg_part t + pos_part u ≤ 2 ^ 63 + pos_part t + neg_part u
    → pos_part (sub_time t u) + neg_part t + pos_part u
      ≡ neg_part (sub_time t u) + pos_part t + neg_part u
unfolding sub_time
sub_time_parts t u h k = ground (arith, -ℤ_parts t u, one_sign (t -ℤ u))

module _ (l : Gcra) (b i : ℕ) (shape : Shape l b i) (floor_quotient : Duration → Duration → ℤ)
    (state now : Time) (k : ℕ) (fits : k ≤ b) (ahead : state ≤ℤ now +ℤ pos (suc b * i))
    (refused : (answer floor_quotient l state now k).1.allowed ≡ false) where
  abbrev retry : Duration
  retry = (answer floor_quotient l state now k).1.retry_after

  due : Time
  due = allowed_at l (arrival state now) (pos (suc k))

  retry-due : (now <ℤ due) × (retry ≡ sub_time due now)
  unfolding due
  retry-due = ground (arith, decide_cases l b i shape floor_quotient state now k fits)

  -- The arrival time of a denied request is the stored one, and lies ahead.
  arrival_stored : (arrival state now ≡ state) × (now <ℤ state)
  unfolding arrival due
  arrival_stored = ground (
    arith,
    retry-due,
    step-le l b i shape k fits,
    allowed_at_parts l b i shape k (arrival state now) fits,
  )

  due_parts : pos_part due + neg_part state + b * i ≡ neg_part due + pos_part state + k * i
  unfolding due
  due_parts = rw arrival_stored.0 (allowed_at_parts l b i shape k state fits)

  retry_parts :
      pos_part retry + neg_part due + pos_part now ≡ neg_part retry + pos_part due + neg_part now
  retry_parts = rw retry-due.1 (
      omega (
        arith,
        due_parts,
        retry-due.0,
        ahead,
        shape.no_overflow,
        step-le l b i shape k fits,
        +ℤ_parts now (pos (suc b * i)),
        sub_time_parts due now,
      ))

  later : (t : Time) → now ≤ℤ t → (arrival state t ≡ (if ltb_ℤ state t then t else state))
  unfolding arrival
  later t h = ground (arith, arrival_stored)

  -- For a denied request that fits the burst, with a state that is not ahead of the clock by more
  -- than the burst: at any later time, with no other call for the key in between, the same request is
  -- granted exactly if the reported wait is over.
  pub retry_exact :
      (t : Time) → now ≤ℤ t → (answer floor_quotient l state t k).1.allowed ≡ leb_ℤ (now +ℤ retry) t
  retry_exact t h = rw (decide_conform l b i shape floor_quotient state t k fits) (
      ground (
        arith,
        later t h,
        due_parts,
        retry_parts,
        arrival_stored,
        step-le l b i shape k fits,
        +ℤ_parts now retry,
        +ℤ_parts t (pos (suc b * i)),
        +ℤ_parts (arrival state t) (pos (suc k * i)),
      ))

module _ (config : Config) (r w : ℕ) where
  abbrev pub burst_of : ℕ
  burst_of = if leb_ℤ config.burst (pos 0) then r else pos_part config.burst - 1

  abbrev pub interval_of : ℕ
  interval_of = if leb (w / suc r) 0 then 1 else w / suc r

  burst_value : ℤ
  burst_value = if leb_ℤ config.burst (pos 0) then config.rate else config.burst

  burst_value_eq : config.rate ≡ pos (suc r) → burst_value ≡ pos (suc burst_of)
  unfolding burst_value
  burst_value_eq e = ground (arith, one_sign config.burst)

  tolerance_eq :
      config.rate ≡ pos (suc r)
      → suc burst_of < 2 ^ 63
      → suc burst_of * interval_of < 2 ^ 63
      → mul64 (sub64 burst_value (pos 1)) (pos interval_of) ≡ pos (burst_of * interval_of)
  tolerance_eq e p q =
      rw (burst_value_eq e, sub_one burst_of p) (mul64_pos burst_of interval_of (omega arith))

  interval_eq :
      (if leb_ℤ (pos (w / suc r)) (pos 0) then pos 1 else pos (w / suc r)) ≡ pos interval_of
  interval_eq = ground arith

  share_eq :
      config.rate ≡ pos (suc r)
      → config.window ≡ pos w
      → quot_ℤ config.window config.rate ≡ pos (w / suc r)
  unfolding quot_ℤ
  share_eq er ew = rw (er, ew)

  -- For a positive rate and window, a burst below 2^63 and burst times interval below 2^63, `NewGCRA`
  -- succeeds, with an empty store, a burst that falls back to the rate, an interval of window / rate
  -- but at least 1, and a tolerance of (burst - 1) intervals.
  pub new_gcra-Shape :
      config.rate ≡ pos (suc r)
      → config.window ≡ pos w
      → 0 < w
      → suc burst_of < 2 ^ 63
      → suc burst_of * interval_of < 2 ^ 63
      → (l : Gcra) × (new_gcra config ≡ ok (l, new_sharded_state config config.window))
        × Shape l burst_of interval_of
  unfolding new_gcra burst_value
  new_gcra-Shape er ew h p q = (
    record {
      rate = config.rate;
      burst = burst_value;
      window = config.window;
      interval = pos interval_of;
      tolerance = pos (burst_of * interval_of);
    },
    ground (arith, share_eq er ew, interval_eq, tolerance_eq er p q),
    record {
      burst_eq = burst_value_eq er;
      interval_eq = refl;
      tolerance_eq = refl;
      some_interval = ground arith;
      no_overflow = q;
      burst_int64 = p;
    },
  )
