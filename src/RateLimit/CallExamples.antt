-- ===== src/RateLimit/CallExamples.antt =====
-- pkg/ratelimit: the registry and the reports of calls on concrete configurations and stores.
use agent_cortex.RateLimit.BucketedWindow.{BucketedSlidingWindow}
use agent_cortex.RateLimit.BucketedWindow
use agent_cortex.RateLimit.BucketedWindow.Total.{units, units_at, decide_exact}
use agent_cortex.Prelude.{◌≡◌, refl, ℕ, ◌+◌, ◌≤◌, leb, ◌∷◌, arith, [], none, if◌then◌else◌}
use agent_cortex.Prelude.Int.{pos}
use agent_cortex.Prelude.Text.{codes}
use agent_cortex.RateLimit.Types.{Config, ok, err, reject_new_key, type_gcra, invalid_config}
use agent_cortex.RateLimit.Store.{Store, Orders, new_sharded_state}
use agent_cortex.RateLimit.Limiter.{Request}
use agent_cortex.RateLimit.SlidingWindow.{SlidingWindow, Records}
use agent_cortex.RateLimit.Registry.{Factory, Registry, new_default_registry}

abbrev ten_per_second : Config
ten_per_second = record {
  kind = type_gcra;
  rate = pos 10;
  burst = pos 5;
  window = pos 1000000000;
  shards = pos 2;
  idle_ttl = pos 0;
  max_keys = pos 3;
  state_full_policy = reject_new_key;
  bucket_count = pos 0;
}

-- Limiters that are known by a number.
abbrev numbered : ℕ → Factory ℕ
numbered n config = ok n

abbrev refusing : Factory ℕ
refusing config = err invalid_config

abbrev four_types : Registry ℕ
four_types = new_default_registry (numbered 1) (numbered 2) (numbered 3) (numbered 4)

abbrev empty_store : Store Records
empty_store = new_sharded_state ten_per_second (pos 1000000000)

abbrev in_order : Orders Records
in_order = record { first = λ m. m; all = λ m. m; second = λ m. m }

abbrev three_each : SlidingWindow
three_each = record { limit = pos 3; window = pos 1000000000 }

abbrev one_request : Request
one_request = record {
  ctx_err = none;
  key = codes "alice";
  n = pos 2;
  now = pos 7;
  elapsed = pos 1;
}

abbrev two_buckets : BucketedSlidingWindow
two_buckets = record { limit = pos 5; window = pos 10; bucket_count = pos 2; bucket_size = pos 5 }

decide_exact_example :
    ((BucketedWindow.decide two_buckets ((pos 0, 3) ∷ []) (pos 7) (pos 2)).1.allowed
      ≡ leb (2 + units_at two_buckets (pos 7) ((pos 0, 3) ∷ [])) 5)
    × (units (BucketedWindow.decide two_buckets ((pos 0, 3) ∷ []) (pos 7) (pos 2)).0 ≡ (
        if leb (2 + units_at two_buckets (pos 7) ((pos 0, 3) ∷ [])) 5
        then 2 + units_at two_buckets (pos 7) ((pos 0, 3) ∷ [])
        else units_at two_buckets (pos 7) ((pos 0, 3) ∷ [])))
    × (units (BucketedWindow.decide two_buckets ((pos 0, 3) ∷ []) (pos 7) (pos 2)).0 ≤ 5)
unfolding units
decide_exact_example =
    decide_exact two_buckets 5 2 ((pos 0, 3) ∷ []) (pos 7) refl (omega arith) (omega arith)
