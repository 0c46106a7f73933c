-- ===== src/RateLimit/Limiter.antt =====
-- The part that the four limiters of pkg/ratelimit share: `AllowN`, `Reset` and `ResetContext`
-- around a store, and the observations of metrics.go. A panic of an observer is recovered from, so
-- observations are a log that changes nothing.
pub mod Observed
use agent_cortex.Prelude.{Bytes, List, [], ◌∷◌, Option, none, some, if◌then◌else◌}
use agent_cortex.Prelude.Int.{ℤ}
use agent_cortex.RateLimit.Types.{
  Time, Duration, Kind, Decision, empty_decision, Error, Outcome, validate_request_size,
}
use agent_cortex.RateLimit.Store.{Store, Orders, with_entry, active_keys}
use agent_cortex.RateLimit.Store

pub data Operation : Type 0 where
  allow : Operation

-- The calls of `Metrics`.
pub data Observation : Type 0 where
  decided : Kind → Bytes → Decision → Observation
  failed : Kind → Bytes → Error → Observation
  took : Kind → Operation → Duration → Observation
  holds : Kind → ℤ → Observation

-- What a call gets: `ctx.Err()`, the key, the size, the clock's reading and the time that it takes.
pub record Request : Type 0 where
  pub ctx_err : Option Error
  pub key : Bytes
  pub n : ℤ
  pub now : Time
  pub elapsed : Duration

pub record Reply {ℓ} (T : Type ℓ) : Type ℓ where
  pub store : Store T
  pub outcome : Outcome
  pub observed : List Observation

module _ {ℓ} {T : Type ℓ} (kind : Kind) where
  -- An early return with an error.
  abbrev pub fail : Store T → Request → Decision → Error → Reply T
  fail s r d e = record {
    store = s;
    outcome = (d, some e);
    observed = failed kind r.key e ∷ took kind allow r.elapsed ∷ [];
  }

  abbrev pub finish : Request → Store T × Outcome → Reply T
  finish r (s, (d, none)) = record {
    store = s;
    outcome = (d, none);
    observed = decided kind r.key d ∷ holds kind (active_keys s) ∷ took kind allow r.elapsed ∷ [];
  }
  finish r (s, (d, some e)) = fail s r d e

  -- `AllowN`: `decide` is the limiter's `allowN`, which changes the state of one key.
  unfoldable pub allow_n :
      (Time → T) → (T → Time → ℤ → T × Decision) → Orders T → Store T → Request → Reply T
  allow_n create decide o s r = elim r.ctx_err [
    | some e ↦ fail s r empty_decision e
    | none ↦ elim (validate_request_size r.n) [
      | some e ↦ fail s r empty_decision e
      | none ↦ finish r (
          with_entry o s r.key r.now create
            (λ v ephemeral. let q = decide v r.now r.n in (q.0, (q.1, none))))
    ]
  ]

  unfoldable pub reset : Store T → Bytes → Store T × List Observation
  reset s key =
      let q = Store.reset s key in (q.0, if q.1 then holds kind (active_keys q.0) ∷ [] else [])

  unfoldable pub reset_context :
      Option Error → Store T → Bytes → Store T × Option Error × List Observation
  unfolding reset
  reset_context none s key = let q = reset s key in (q.0, none, q.1)
  reset_context (some e) s key = (s, some e, failed kind key e ∷ [])
