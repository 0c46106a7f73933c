-- ===== src/RateLimit/Examples.antt =====
-- Tests and concrete instances for pkg/ratelimit.
use agent_cortex.Prelude.{
  ℕ, suc, ◌≤◌, ◌+◌, ◌*◌, ◌≡◌, refl, ◌⊎◌, Bool, true, false, Bytes, bytes_eq, List, [], ◌∷◌, some,
  none, if◌then◌else◌, is_some, ◌+◌, length, arith,
}
use agent_cortex.Prelude.Int.{
  ℤ, pos, negsuc, pos_part, ◌+ℤ◌, ◌-ℤ◌, ◌*ℤ◌, ◌≤ℤ◌, leb_ℤ, wrap64, mul64, sub64,
}
use agent_cortex.Prelude.Text.{codes}
use agent_cortex.RateLimit.Types.{
  Duration, Outcome, Config, empty_decision, reject_new_key, type_gcra, zero_time, sub_time,
}
use agent_cortex.RateLimit.Store.{Store, Orders, lookup, find, with_entry, hash_key}
use agent_cortex.RateLimit.Store.Shards.{size}
use agent_cortex.RateLimit.Store.Cleanup.{IsRange, Kept}
use agent_cortex.RateLimit.Store.Access.{IsValid}
use agent_cortex.RateLimit.Store.Visit.{IsRanges}
use agent_cortex.RateLimit.Store.Served.{Served, with_entry-Served}
use agent_cortex.RateLimit.Store.Guarantees.{with_entry-IsValid, with_entry_bounded}
use agent_cortex.RateLimit.SlidingWindow.{SlidingWindow}
use agent_cortex.RateLimit.SlidingWindow
use agent_cortex.RateLimit.SlidingWindow.History.{count_in}
use agent_cortex.RateLimit.SlidingWindow.Runs
use agent_cortex.RateLimit.SlidingWindow.Runs.{run-reference, run_bounded}
use agent_cortex.RateLimit.Gcra.{Gcra, new_gcra}
use agent_cortex.RateLimit.Gcra
use agent_cortex.RateLimit.Gcra.Conform.{Shape, answer, decide_conform}
use agent_cortex.RateLimit.Gcra.Retry.{retry_exact}
use agent_cortex.RateLimit.Gcra.Rate
use agent_cortex.RateLimit.Gcra.Rate.{run_rate, end_of}

-- The FNV-1a test vectors of the empty text and of "a".
hash_key_empty : hash_key [] ≡ 0x811c9dc5
unfolding hash_key
hash_key_empty = refl

hash_key_a : hash_key (codes "a") ≡ 0xe40c292c
unfolding hash_key
hash_key_a = refl

abbrev in_order : Orders ℕ
in_order = record { first = λ m. m; all = λ m. m; second = λ m. m }

abbrev same_order : IsRange {T = ℕ} (λ m. m)
same_order = record { same = λ m j u. refl; count = λ m. refl; once = λ m u. u }

abbrev in_order-IsRanges : IsRanges in_order
in_order-IsRanges = record { first = same_order; all = same_order; second = same_order }

abbrev alice : Bytes
alice = codes "alice"

abbrev bob : Bytes
bob = codes "bob"

-- One shard, at most two keys; alice was seen at 5, and entries go after 10 idle nanoseconds.
abbrev small_store : Store ℕ
small_store = record {
  shards = ((alice, record { value = 7; last_seen = pos 5 }) ∷ []) ∷ [];
  idle_ttl = pos 10;
  max_keys = pos 2;
  state_full_policy = reject_new_key;
  count = pos 1;
}

small_store-IsValid : IsValid small_store
unfolding lookup
small_store-IsValid = record {
  some_shards = omega arith;
  few_shards = omega arith;
  unique = ((refl, tt), tt);
  counted = refl;
}

abbrev count_calls : ℕ → Bool → ℕ × Outcome
count_calls v ephemeral = (suc v, (empty_decision, none))

with_entry-IsValid_example :
    IsValid (with_entry in_order small_store bob (pos 8) (λ now. 0) count_calls).0
with_entry-IsValid_example =
    with_entry-IsValid in_order in_order-IsRanges small_store small_store-IsValid bob (pos 8)
      (λ now. 0) count_calls (omega arith)

-- A full store that has nothing to drop.
abbrev full_store : Store ℕ
full_store = record small_store { max_keys = pos 1 }

full_store-IsValid : IsValid full_store
unfolding lookup
full_store-IsValid = record {
  some_shards = omega arith;
  few_shards = omega arith;
  unique = ((refl, tt), tt);
  counted = refl;
}

with_entry-Served_example :
    Served full_store bob
      (pos 8)
      (λ now. 0)
      count_calls
      (with_entry in_order full_store bob (pos 8) (λ now. 0) count_calls)
    × ((j : Bytes)
        → (bytes_eq bob j ≡ true)
          ⊎ Kept
              (pos 8)
              (pos 10)
              (find j full_store)
              (find j (with_entry in_order full_store bob (pos 8) (λ now. 0) count_calls).0))
with_entry-Served_example =
    with_entry-Served full_store bob (pos 8) (λ now. 0) count_calls in_order in_order-IsRanges
      full_store-IsValid (omega arith)

with_entry_bounded_example :
    size (with_entry in_order small_store bob (pos 8) (λ now. 0) count_calls).0.shards ≤ 2
with_entry_bounded_example =
    with_entry_bounded in_order in_order-IsRanges small_store small_store-IsValid bob (pos 8)
      (λ now. 0) count_calls 2 (omega arith) refl (omega arith) (omega arith)

abbrev three_per_ten : SlidingWindow
three_per_ten = record { limit = pos 3; window = pos 10 }

three_per_ten-IsValid : SlidingWindow.History.IsValid three_per_ten
three_per_ten-IsValid = omega arith

abbrev busy : List SlidingWindow.Runs.Call
busy = (pos 1, pos 2) ∷ (pos 2, pos 1) ∷ (pos 2, pos 1) ∷ (pos 11, pos 2) ∷ (pos 12, pos 2) ∷ []

run-reference_example :
    SlidingWindow.Runs.run three_per_ten [] [] busy
    ≡ SlidingWindow.Runs.reference three_per_ten [] busy
run-reference_example = run-reference three_per_ten three_per_ten-IsValid (pos 0) busy (omega arith)

run_bounded_example :
    count_in (pos 10) (pos 11) (SlidingWindow.Runs.run three_per_ten [] [] busy).1 ≤ 3
run_bounded_example =
    run_bounded three_per_ten three_per_ten-IsValid (pos 0) (pos 11) busy (omega arith)

-- Two units at once, one each 5 nanoseconds.
abbrev two_each_five : Gcra
two_each_five = record {
  rate = pos 2;
  burst = pos 2;
  window = pos 10;
  interval = pos 5;
  tolerance = pos 5;
}

two_each_five-Shape : Shape two_each_five 1 5
two_each_five-Shape = record {
  burst_eq = refl;
  interval_eq = refl;
  tolerance_eq = refl;
  some_interval = omega arith;
  no_overflow = omega arith;
  burst_int64 = omega arith;
}

-- Exact division, for the one place where the code divides floats.
abbrev exact_quotient : Duration → Duration → ℤ
exact_quotient a b = agent_cortex.Prelude.Int.floor_ℤ a b

decide_conform_example :
    (answer exact_quotient two_each_five (pos 8) (pos 7) 0).1.allowed
    ≡ leb_ℤ (Gcra.arrival (pos 8) (pos 7) +ℤ pos 5) (pos 17)
unfolding ◌+ℤ◌
decide_conform_example =
    decide_conform two_each_five 1 5 two_each_five-Shape exact_quotient (pos 8) (pos 7) 0
      (omega arith)

-- Both units are taken at 7, so a third has to wait for 5 nanoseconds.
retry_exact_example : (answer exact_quotient two_each_five (pos 17) (pos 12) 0).1.allowed ≡ true
unfolding Gcra.decide Gcra.decide_at Gcra.arrival Gcra.allowed_at ◌+ℤ◌ sub64 mul64 wrap64 sub_time
    ◌-ℤ◌ ◌*ℤ◌
retry_exact_example =
    retry_exact two_each_five 1 5 two_each_five-Shape exact_quotient (pos 17) (pos 7) 0
      (omega arith) (omega arith) refl (pos 12) (omega arith)

run_rate_example :
    pos 7
      +ℤ pos (
          (Gcra.Rate.run exact_quotient two_each_five zero_time
            ((pos 7, pos 2) ∷ (pos 9, pos 1) ∷ [])).1
          * 5)
    ≤ℤ pos 9 +ℤ pos 10
unfolding ◌+ℤ◌
run_rate_example =
    run_rate exact_quotient two_each_five 1 5 two_each_five-Shape (pos 7) zero_time
      ((pos 7, pos 2) ∷ (pos 9, pos 1) ∷ []) (omega arith) (omega arith) (omega arith)

abbrev gcra_config : Config
gcra_config = record {
  kind = type_gcra;
  rate = pos 2;
  burst = pos 0;
  window = pos 10;
  shards = pos 1;
  idle_ttl = pos 0;
  max_keys = pos 0;
  state_full_policy = reject_new_key;
  bucket_count = pos 0;
}
