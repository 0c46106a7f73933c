-- ===== src/RateLimit/BucketedWindow.antt =====
-- pkg/ratelimit/bucketed_sliding_window.go: the admitted units of the last buckets of time. A count is a
-- number, since `AllowN` lets only positive requests through; the sum of the counts wraps as in Go.
pub mod Total
use agent_cortex.Prelude.{
  ℕ, zero, ◌+◌, Bool, true, false, ◌||◌, Bytes, List, [], ◌∷◌, if◌then◌else◌,
}
use agent_cortex.Prelude.Int.{
  ℤ, pos, pos_part, ltb_ℤ, leb_ℤ, eqb_ℤ, max_ℤ, add64, sub64, mul64, quot_ℤ, wrap64,
}
use agent_cortex.RateLimit.Types.{
  Time, Duration, Config, Decision, Result, ok, err, invalid_config, add_time, sub_time,
  normalize_bucket_count, type_bucketed_sliding_window,
}
use agent_cortex.RateLimit.Store.{Store, Orders, new_sharded_state}
use agent_cortex.RateLimit.Limiter.{Request, Reply}
use agent_cortex.RateLimit.Limiter

pub record BucketedSlidingWindow : Type 0 where
  pub limit : ℤ
  pub window : Duration
  pub bucket_count : ℤ
  pub bucket_size : Duration

-- `bucketedSlidingWindowState`: the map from a bucket's index to its count.
abbrev pub Buckets : Type 0
Buckets = List (ℤ × ℕ)

abbrev pub bucket_size_of : Config → Duration
bucket_size_of config =
    let size = quot_ℤ config.window (normalize_bucket_count config.bucket_count) in
    if leb_ℤ size (pos 0) then pos 1 else size

-- `NewBucketedSlidingWindow`
unfoldable pub new_bucketed_sliding_window : Config → Result (BucketedSlidingWindow × Store Buckets)
new_bucketed_sliding_window config =
    if leb_ℤ config.rate (pos 0)
    then err invalid_config
    else if leb_ℤ config.window (pos 0)
    then err invalid_config
    else ok (
      record {
        limit = config.rate;
        window = config.window;
        bucket_count = normalize_bucket_count config.bucket_count;
        bucket_size = bucket_size_of config;
      },
      new_sharded_state config config.window,
    )

-- `UnixNano` is an int64.
abbrev pub bucket_index : BucketedSlidingWindow → Time → ℤ
bucket_index l t = quot_ℤ (wrap64 t) l.bucket_size

abbrev pub bucket_expires : BucketedSlidingWindow → ℤ → Time
bucket_expires l index = add_time (mul64 index l.bucket_size) l.window

-- `pruneBuckets`, from the least index that is kept to the current one
unfoldable pub prune_buckets : ℤ → ℤ → Buckets → Buckets
prune_buckets least current [] = []
prune_buckets least current ((i, c) ∷ bs) =
    let rest = prune_buckets least current bs in
    if ltb_ℤ i least || ltb_ℤ current i then rest else (i, c) ∷ rest

abbrev pub least_index : BucketedSlidingWindow → ℤ → ℤ
least_index l current = add64 (sub64 current l.bucket_count) (pos 1)

unfoldable pub total : Buckets → ℤ
total [] = pos 0
total ((i, c) ∷ bs) = add64 (total bs) (pos c)

unfoldable pub oldest : ℤ → Buckets → ℤ
oldest found [] = found
oldest found ((i, c) ∷ bs) = oldest (if ltb_ℤ i found then i else found) bs

unfoldable pub latest : ℤ → Buckets → ℤ
latest found [] = found
latest found ((i, c) ∷ bs) = latest (if ltb_ℤ found i then i else found) bs

-- `state.buckets[current] += n`
unfoldable pub add_units : ℤ → ℕ → Buckets → Buckets
add_units current n [] = (current, n) ∷ []
add_units current n ((i, c) ∷ bs) =
    if eqb_ℤ i current then (i, c + n) ∷ bs else (i, c) ∷ add_units current n bs

-- `l.bucketExpires(idx).Sub(now)`, at least 0.
abbrev pub until_expiry : BucketedSlidingWindow → ℤ → Time → Duration
until_expiry l index now = max_ℤ (pos 0) (sub_time (bucket_expires l index) now)

-- `allowN` behind the pruning.
unfoldable pub decide_kept : BucketedSlidingWindow → ℤ → Buckets → Time → ℤ → Buckets × Decision
unfolding total oldest latest
decide_kept l current kept now n =
    let remaining = sub64 l.limit (total kept) in
    if leb_ℤ n remaining
    then (
      add_units current (pos_part n) kept,
      record {
        allowed = true;
        limit = l.limit;
        remaining = sub64 l.limit (add64 (total kept) n);
        retry_after = pos 0;
        reset_after = until_expiry l current now;
      },
    )
    else (
      kept,
      record {
        allowed = false;
        limit = l.limit;
        remaining = max_ℤ (pos 0) remaining;
        retry_after = until_expiry l (oldest current kept) now;
        reset_after = until_expiry l (latest current kept) now;
      },
    )

-- `allowN`
unfoldable pub decide : BucketedSlidingWindow → Buckets → Time → ℤ → Buckets × Decision
unfolding decide_kept prune_buckets add_units
decide l state now n =
    let current = bucket_index l now in
    decide_kept l current (prune_buckets (least_index l current) current state) now n

unfoldable pub allow_n :
    BucketedSlidingWindow → Orders Buckets → Store Buckets → Request → Reply Buckets
allow_n l = Limiter.allow_n type_bucketed_sliding_window (λ now. []) (decide l)
