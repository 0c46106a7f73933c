-- ===== src/RateLimit/Types.antt =====
-- pkg/ratelimit/ratelimit.go and errors.go: the types that the limiters share, and the defaults.
-- A time is the number of nanoseconds since the Unix epoch, a duration a number of nanoseconds.
use agent_cortex.Prelude.{◌-◌, ◌^◌, Bool, false, Bytes, Option, none, some, if◌then◌else◌}
use agent_cortex.Prelude.Int.{ℤ, pos, negsuc, ◌+ℤ◌, ◌-ℤ◌, ltb_ℤ, leb_ℤ, eqb_ℤ, mul64}
use agent_cortex.Prelude.Text.{codes}

-- `time.Time`, without its 64-bit limit on seconds.
abbrev pub Time : Type 0
Time = ℤ

-- `time.Duration`, an int64.
abbrev pub Duration : Type 0
Duration = ℤ

abbrev pub min_int64 : ℤ
min_int64 = negsuc (2 ^ 63 - 1)

abbrev pub max_int64 : ℤ
max_int64 = pos (2 ^ 63 - 1)

-- `Time.Sub`: the difference, saturated at the bounds of a duration.
unfoldable pub sub_time : Time → Time → Duration
sub_time t u =
    let d = t -ℤ u in
    if ltb_ℤ d min_int64 then min_int64 else if ltb_ℤ max_int64 d then max_int64 else d

-- `Time.Add`.
abbrev pub add_time : Time → Duration → Time
add_time t d = t +ℤ d

-- The zero `time.Time`, January 1 of year 1.
abbrev pub zero_time : Time
zero_time = negsuc 62135596799999999999

abbrev pub is_zero : Time → Bool
is_zero t = eqb_ℤ t zero_time

abbrev pub second : Duration
second = pos 1000000000

-- `Type`, a string.
abbrev pub Kind : Type 0
Kind = Bytes

abbrev pub type_token_bucket : Kind
type_token_bucket = codes "token_bucket"

abbrev pub type_sliding_window : Kind
type_sliding_window = codes "sliding_window"

abbrev pub type_bucketed_sliding_window : Kind
type_bucketed_sliding_window = codes "bucketed_sliding_window"

abbrev pub type_gcra : Kind
type_gcra = codes "gcra"

pub record Decision : Type 0 where
  pub allowed : Bool
  pub limit : ℤ
  pub remaining : ℤ
  pub retry_after : Duration
  pub reset_after : Duration

-- `Decision{}`
abbrev pub empty_decision : Decision
empty_decision = record {
  allowed = false;
  limit = pos 0;
  remaining = pos 0;
  retry_after = pos 0;
  reset_after = pos 0;
}

-- The package's errors, and the two that a context reports.
pub data Error : Type 0 where
  invalid_config unknown_type nil_factory limit_state_full : Error
  canceled deadline_exceeded : Error

-- What a call returns: `(Decision, error)`.
abbrev pub Outcome : Type 0
Outcome = Decision × Option Error

pub data Result {ℓ} (A : Type ℓ) : Type ℓ where
  ok : A → Result A
  err : Error → Result A

pub data StateFullPolicy : Type 0 where
  reject_new_key allow_new_key : StateFullPolicy

-- `Config`. The clock is an argument of each call, metrics are the observations that a call returns,
-- and `Metadata` is read by no limiter.
pub record Config : Type 0 where
  pub kind : Kind
  pub rate : ℤ
  pub burst : ℤ
  pub window : Duration
  pub shards : ℤ
  pub idle_ttl : Duration
  pub max_keys : ℤ
  pub state_full_policy : StateFullPolicy
  pub bucket_count : ℤ

abbrev pub default_shards : ℤ
default_shards = pos 256

abbrev pub default_bucket_count : ℤ
default_bucket_count = pos 12

unfoldable pub validate_request_size : ℤ → Option Error
validate_request_size n = if leb_ℤ n (pos 0) then some invalid_config else none

unfoldable pub normalize_shards : ℤ → ℤ
normalize_shards shards = if leb_ℤ shards (pos 0) then default_shards else shards

unfoldable pub normalize_idle_ttl : Duration → Duration → Duration
normalize_idle_ttl idle_ttl window =
    if ltb_ℤ (pos 0) idle_ttl
    then idle_ttl
    else if ltb_ℤ (pos 0) window
    then mul64 (pos 10) window
    else mul64 (pos 10) second

unfoldable pub normalize_bucket_count : ℤ → ℤ
normalize_bucket_count count = if leb_ℤ count (pos 0) then default_bucket_count else count
