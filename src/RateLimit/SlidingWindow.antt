-- ===== src/RateLimit/SlidingWindow.antt =====
-- pkg/ratelimit/sliding_window.go: the times of the admitted requests of one window.
pub mod History
pub mod Exact
pub mod Runs
use agent_cortex.Prelude.{
  Bool, true, false, Bytes, List, [], ◌∷◌, ◌++◌, Option, none, if◌then◌else◌, length, replicate,
}
use agent_cortex.Prelude.Int.{ℤ, pos, pos_part, ltb_ℤ, leb_ℤ, max_ℤ, sub64}
use agent_cortex.RateLimit.Types.{
  Time, Duration, Config, Decision, Result, ok, err, invalid_config, add_time, sub_time,
  type_sliding_window,
}
use agent_cortex.RateLimit.Store.{Store, Orders, new_sharded_state}
use agent_cortex.RateLimit.Limiter.{Request, Reply}
use agent_cortex.RateLimit.Limiter

pub record SlidingWindow : Type 0 where
  pub limit : ℤ
  pub window : Duration

-- `slidingWindowState`
abbrev pub Records : Type 0
Records = List Time

unfoldable pub new_sliding_window : Config → Result (SlidingWindow × Store Records)
new_sliding_window config =
    if leb_ℤ config.rate (pos 0)
    then err invalid_config
    else if leb_ℤ config.window (pos 0)
    then err invalid_config
    else ok (
      record { limit = config.rate; window = config.window },
      new_sharded_state config config.window,
    )

-- The loop of `prune`: drops the records that are not after the cutoff, up to the first that is.
unfoldable pub prune_until : Time → Records → Records
prune_until cutoff [] = []
prune_until cutoff (t ∷ ts) = if leb_ℤ t cutoff then prune_until cutoff ts else t ∷ ts

unfoldable pub prune : SlidingWindow → Records → Time → Records
prune l records now = prune_until (add_time now (sub64 (pos 0) l.window)) records

-- `t.Add(l.window).Sub(now)`, at least 0.
unfoldable pub until_free : SlidingWindow → Time → Time → Duration
until_free l t now =
    let until = sub_time (add_time t l.window) now in if ltb_ℤ until (pos 0) then pos 0 else until

unfoldable pub retry_after : SlidingWindow → Records → Time → Duration
retry_after l [] now = pos 0
retry_after l (t ∷ ts) now = until_free l t now

unfoldable pub reset_after : SlidingWindow → Records → Time → Duration
reset_after l [] now = pos 0
reset_after l (t ∷ []) now = until_free l t now
reset_after l (t ∷ u ∷ ts) now = reset_after l (u ∷ ts) now

unfoldable pub admit : SlidingWindow → Records → Time → ℤ → Records × Decision
admit l kept now n =
    let records = kept ++ replicate (pos_part n) now in
    (
      records,
      record {
        allowed = true;
        limit = l.limit;
        remaining = sub64 l.limit (pos (length records));
        retry_after = pos 0;
        reset_after = reset_after l records now;
      },
    )

unfoldable pub deny : SlidingWindow → Records → Time → Records × Decision
deny l records now = (
  records,
  record {
    allowed = false;
    limit = l.limit;
    remaining = max_ℤ (pos 0) (sub64 l.limit (pos (length records)));
    retry_after = retry_after l records now;
    reset_after = retry_after l records now;
  },
)

-- `allowN`
unfoldable pub decide : SlidingWindow → Records → Time → ℤ → Records × Decision
decide l state now n =
    let records = prune l state now in
    if leb_ℤ n (sub64 l.limit (pos (length records)))
    then admit l records now n
    else deny l records now

unfoldable pub allow_n : SlidingWindow → Orders Records → Store Records → Request → Reply Records
allow_n l = Limiter.allow_n type_sliding_window (λ now. []) (decide l)
