-- ===== src/RateLimit/TokenBucket.antt =====
-- pkg/ratelimit/token_bucket.go: tokens that come back with time. Go's float64 is a parameter: its
-- operations, and of its order and arithmetic what the bucket relies on.
pub mod Bounds
use agent_cortex.Prelude.{ℕ, Bool, true, false, Bytes, List, if◌then◌else◌}
use agent_cortex.Prelude.Int.{ℤ, pos, ltb_ℤ, leb_ℤ}
use agent_cortex.Memory.{Float64}
use agent_cortex.RateLimit.Types.{
  Time, Duration, Config, Decision, Result, ok, err, invalid_config, sub_time, second,
  type_token_bucket,
}
use agent_cortex.RateLimit.Store.{Store, Orders, new_sharded_state}
use agent_cortex.RateLimit.Limiter.{Request, Reply}
use agent_cortex.RateLimit.Limiter

-- `float64`, with the conversions from and to integers, `Min`, `Floor`, `Ceil` and `Duration.Seconds`.
pub record Floats : Type 0 where
  pub of_int : ℤ → Float64
  pub to_int : Float64 → ℤ
  pub add : Float64 → Float64 → Float64
  pub sub : Float64 → Float64 → Float64
  pub mul : Float64 → Float64 → Float64
  pub div : Float64 → Float64 → Float64
  pub min : Float64 → Float64 → Float64
  pub floor : Float64 → Float64
  pub ceil : Float64 → Float64
  pub le : Float64 → Float64 → Bool
  pub seconds : Duration → Float64

pub record TokenBucket : Type 0 where
  pub rate : ℤ
  pub burst : ℤ
  pub interval : Duration

-- `tokenBucketState`
pub record Bucket : Type 0 where
  pub tokens : Float64
  pub last : Time

-- `NewTokenBucket`
unfoldable pub new_token_bucket : Config → Result (TokenBucket × Store Bucket)
new_token_bucket config =
    if leb_ℤ config.rate (pos 0)
    then err invalid_config
    else if leb_ℤ config.burst (pos 0)
    then err invalid_config
    else let window = if leb_ℤ config.window (pos 0) then second else config.window in
      ok (
        record { rate = config.rate; burst = config.burst; interval = window },
        new_sharded_state config window,
      )

module _ (F : Floats) (l : TokenBucket) where
  -- The tokens that come back in a time.
  abbrev pub refill_of : Duration → Float64
  refill_of elapsed = F.div (F.mul (F.of_int l.rate) (F.seconds elapsed)) (F.seconds l.interval)

  -- `refill`
  unfoldable pub refill : Bucket → Time → Bucket
  refill b now =
      if ltb_ℤ b.last now
      then record {
        tokens = F.min (F.of_int l.burst) (F.add b.tokens (refill_of (sub_time now b.last)));
        last = now;
      }
      else b

  -- `timeForTokens`
  unfoldable pub time_for_tokens : Float64 → Duration
  time_for_tokens tokens =
      if F.le tokens (F.of_int (pos 0))
      then pos 0
      else F.to_int (
          F.ceil (
            F.mul (F.div (F.mul tokens (F.seconds l.interval)) (F.of_int l.rate))
              (F.of_int second)))

  -- `timeToFull`
  abbrev pub time_to_full : Float64 → Duration
  time_to_full tokens = time_for_tokens (F.sub (F.of_int l.burst) tokens)

  abbrev pub whole : Float64 → ℤ
  whole tokens = F.to_int (F.floor tokens)

  abbrev pub taken : Bucket → ℤ → Bucket
  taken b n = record b { tokens = F.sub b.tokens (F.of_int n) }

  abbrev pub judge : Bucket → ℤ → Bucket × Decision
  judge b n =
      if F.le (F.of_int n) b.tokens
      then (
        taken b n,
        record {
          allowed = true;
          limit = l.burst;
          remaining = whole (taken b n).tokens;
          retry_after = pos 0;
          reset_after = time_to_full (taken b n).tokens;
        },
      )
      else (
        b,
        record {
          allowed = false;
          limit = l.burst;
          remaining = whole b.tokens;
          retry_after = time_for_tokens (F.sub (F.of_int n) b.tokens);
          reset_after = time_to_full b.tokens;
        },
      )

  -- `allowN`
  unfoldable pub decide : Bucket → Time → ℤ → Bucket × Decision
  unfolding refill time_for_tokens
  decide b now n = judge (refill b now) n

  abbrev pub full_bucket : Time → Bucket
  full_bucket now = record { tokens = F.of_int l.burst; last = now }

  unfoldable pub allow_n : Orders Bucket → Store Bucket → Request → Reply Bucket
  allow_n = Limiter.allow_n type_token_bucket full_bucket decide
