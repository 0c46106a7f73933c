-- ===== src/TimeFormat.antt =====
-- The texts of times by Go's package time, a parameter of the model, and what the program relies on.
use agent_cortex.Prelude.{◌≡◌, Bool, true, Bytes, Option, some}
use agent_cortex.RateLimit.Types.{Time}
use agent_cortex.Strings.Search.{Free}
use agent_cortex.Strings.Trim.{IsTrimmed}

-- Formatting and parsing in UTC with the layouts `time.RFC3339` and `2006-01-02`, the second that a time
-- lies in, and the times of the years 0 to 9999.
pub record TimeFormat : Type 0 where
  pub rfc3339 : Time → Bytes
  pub parse_rfc3339 : Bytes → Option Time
  pub date : Time → Bytes
  pub is_date : Bytes → Bool
  pub to_second : Time → Time
  pub in_years : Time → Bool

-- RFC 3339 keeps the second of a time of those years, and the texts are single words on one line.
pub record IsLawful (f : TimeFormat) : Type 0 where
  pub parse-rfc3339 :
      (t : Time) → f.in_years t ≡ true → f.parse_rfc3339 (f.rfc3339 t) ≡ some (f.to_second t)
  pub rfc3339-to_second : (t : Time) → f.rfc3339 (f.to_second t) ≡ f.rfc3339 t
  pub date-to_second : (t : Time) → f.date (f.to_second t) ≡ f.date t
  pub rfc3339-IsTrimmed : (t : Time) → f.in_years t ≡ true → IsTrimmed (f.rfc3339 t)
  pub rfc3339-Free : (t : Time) → f.in_years t ≡ true → Free b'\n' (f.rfc3339 t)
  pub is_date-date : (t : Time) → f.in_years t ≡ true → f.is_date (f.date t) ≡ true
