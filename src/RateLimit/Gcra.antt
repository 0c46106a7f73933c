-- ===== src/RateLimit/Gcra.antt =====
-- pkg/ratelimit/gcra.go: the generic cell rate algorithm, over one theoretical arrival time per key.
pub mod Conform
pub mod Rate
pub mod Retry
use agent_cortex.Prelude.{Bool, true, false, ◌||◌, if◌then◌else◌}
use agent_cortex.Prelude.Int.{ℤ, pos, ltb_ℤ, leb_ℤ, min_ℤ, max_ℤ, add64, sub64, mul64, quot_ℤ}
use agent_cortex.RateLimit.Types.{
  Time, Duration, Config, Decision, Result, ok, err, invalid_config, add_time, sub_time, is_zero,
  zero_time, type_gcra,
}
use agent_cortex.RateLimit.Store.{Store, Orders, new_sharded_state}
use agent_cortex.RateLimit.Limiter.{Request, Reply}
use agent_cortex.RateLimit.Limiter

-- The configuration, and the state of a key: `gcraState` is its `tat`.
pub record Gcra : Type 0 where
  pub rate : ℤ
  pub burst : ℤ
  pub window : Duration
  pub interval : Duration
  pub tolerance : Duration

unfoldable pub new_gcra : Config → Result (Gcra × Store Time)
new_gcra config =
    let burst = if leb_ℤ config.burst (pos 0) then config.rate else config.burst in
    let share = quot_ℤ config.window config.rate in
    let interval = if leb_ℤ share (pos 0) then pos 1 else share in
    if leb_ℤ config.rate (pos 0)
    then err invalid_config
    else if leb_ℤ config.window (pos 0)
    then err invalid_config
    else ok (
      record {
        rate = config.rate;
        burst = burst;
        window = config.window;
        interval = interval;
        tolerance = mul64 (sub64 burst (pos 1)) interval;
      },
      new_sharded_state config config.window,
    )

abbrev pub denied : Gcra → Duration → Decision
denied l retry = record {
  allowed = false;
  limit = l.burst;
  remaining = pos 0;
  retry_after = retry;
  reset_after = retry;
}

-- The arrival time that a request meets: now, if the stored one is unset or has passed.
unfoldable pub arrival : Time → Time → Time
arrival tat now = if is_zero tat || ltb_ℤ tat now then now else tat

unfoldable pub allowed_at : Gcra → Time → ℤ → Time
allowed_at l tat n =
    add_time (add_time tat (mul64 (sub64 n (pos 1)) l.interval)) (sub64 (pos 0) l.tolerance)

-- `floor_quotient a b` stands for `int(math.Floor(float64(a) / float64(b)))`, which rounds in
-- floating point.
module _ (floor_quotient : Duration → Duration → ℤ) where
  unfoldable pub remaining : Gcra → Time → Time → ℤ
  remaining l now tat =
      let left =
        add64 (floor_quotient (sub_time (add_time now l.tolerance) tat) l.interval) (pos 1) in
      min_ℤ (max_ℤ left (pos 0)) l.burst

  -- The last two steps of `allowN`, at the arrival time.
  unfoldable pub decide_at : Gcra → Time → Time → Time → ℤ → Time × Decision
  decide_at l state tat now n =
      let retry = sub_time (allowed_at l tat n) now in
      let next = add_time tat (mul64 n l.interval) in
      if ltb_ℤ now (allowed_at l tat n) then (state, denied l retry) else (
        next,
        record {
          allowed = true;
          limit = l.burst;
          remaining = remaining l now next;
          retry_after = pos 0;
          reset_after = sub_time next now;
        },
      )

  -- `allowN`
  unfoldable pub decide : Gcra → Time → Time → ℤ → Time × Decision
  decide l state now n =
      if ltb_ℤ l.burst n
      then (state, denied l l.interval)
      else decide_at l state (arrival state now) now n

  unfoldable pub allow_n : Gcra → Orders Time → Store Time → Request → Reply Time
  allow_n l = Limiter.allow_n type_gcra (λ now. zero_time) (decide l)
