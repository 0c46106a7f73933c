-- ===== src/RateLimit/TokenExamples.antt =====
-- Runs of the token bucket on samples, with numbers for float64.
use agent_cortex.Prelude.{◌+◌, ◌-◌, ◌*◌, ◌/◌, ◌≡◌, ◌↔◌, refl, true, leb, if◌then◌else◌, arith}
use agent_cortex.Prelude.Int.{pos, pos_part, max_ℤ}
use agent_cortex.RateLimit.TokenBucket.{Floats, TokenBucket, Bucket, refill, decide}
use agent_cortex.RateLimit.TokenBucket.Bounds.{IsLawful, IsWithin, decide_granted}

abbrev numbers : Floats
numbers = record {
  of_int = pos_part;
  to_int = λ a. pos a;
  add = λ a b. a + b;
  sub = λ a b. a - b;
  mul = λ a b. a * b;
  div = λ a b. a / b;
  min = λ a b. if leb a b then a else b;
  floor = λ a. a;
  ceil = λ a. a;
  le = leb;
  seconds = pos_part;
}

numbers-IsLawful : IsLawful numbers
numbers-IsLawful = record {
  le_trans = λ a b c h k. ground (arith, h, k);
  le-of_int = λ m n h. ground (arith, h);
  le-min = λ a b h k. (ground arith, ground arith);
  le-add = λ a b h k. ground arith;
  le-sub = λ a b k h e g. (ground arith, ground arith);
  le-refill = λ r e i h k g. ground arith;
}

abbrev limiter : TokenBucket
limiter = record { rate = pos 1; burst = pos 3; interval = pos 1 }

abbrev bucket : Bucket
bucket = record { tokens = 1; last = pos 0 }

decide_granted_example :
    IsWithin numbers limiter (decide numbers limiter bucket (pos 1) (pos 2)).0
    × ((decide numbers limiter bucket (pos 1) (pos 2)).0.last ≡ max_ℤ (pos 0) (pos 1))
    × (((decide numbers limiter bucket (pos 1) (pos 2)).1.allowed ≡ true)
        ↔ (leb 2 (refill numbers limiter bucket (pos 1)).tokens ≡ true))
    × ((decide numbers limiter bucket (pos 1) (pos 2)).0.tokens ≡ (
        if (decide numbers limiter bucket (pos 1) (pos 2)).1.allowed
        then (refill numbers limiter bucket (pos 1)).tokens - 2
        else (refill numbers limiter bucket (pos 1)).tokens))
decide_granted_example =
    decide_granted numbers numbers-IsLawful limiter
      (record { rate = omega arith; burst = omega arith; interval = omega arith }) bucket (pos 1)
      (pos 2) (record { low = refl; high = refl }) (omega arith)
