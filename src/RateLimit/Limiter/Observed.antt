-- ===== src/RateLimit/Limiter/Observed.antt =====
-- pkg/ratelimit: what one call of `AllowN` reports to its observer.
use agent_cortex.Prelude.{◌≡◌, refl, List, [], ◌∷◌, Option, none, some}
use agent_cortex.Prelude.Int.{ℤ}
use agent_cortex.RateLimit.Types.{
  Time, Kind, Decision, empty_decision, Error, Outcome, validate_request_size,
}
use agent_cortex.RateLimit.Store.{Store, Orders, with_entry, active_keys}
use agent_cortex.RateLimit.Limiter.{
  Observation, decided, failed, took, holds, allow, Request, Reply, fail, finish, allow_n,
}

-- The report that goes with an outcome and the store behind it.
abbrev pub report : Kind → Request → ℤ → Outcome → List Observation
report kind r keys (d, none) =
    decided kind r.key d ∷ holds kind keys ∷ took kind allow r.elapsed ∷ []
report kind r keys (d, some e) = failed kind r.key e ∷ took kind allow r.elapsed ∷ []

-- What holds of every early return and of the rest holds of a check.
by_check {ℓ κ} :
    {A : Type ℓ} (P : A → Type κ) (c : Option Error) (f : Error → A) (y : A)
    → ((e : Error) → P (f e))
    → P y
    → P (elim c [ some e ↦ f e | none ↦ y ])
by_check P (some e) f y h k = h e
by_check P none f y h k = k

module _ {ℓ} {T : Type ℓ} (kind : Kind) where
  finish-report :
      (r : Request) (q : Store T × Outcome)
      → (finish kind r q).observed
        ≡ report kind r (active_keys (finish kind r q).store) (finish kind r q).outcome
  finish-report r (s, (d, none)) = refl
  finish-report r (s, (d, some e)) = refl

  -- Every call of `AllowN` reports one latency last; before it, a call that answers with an error
  -- reports that error, and any other call its decision and the number of keys then held.
  pub allow_n-report :
      (create : Time → T) (decide : T → Time → ℤ → T × Decision) (o : Orders T) (s : Store T)
      (r : Request)
      → (allow_n kind create decide o s r).observed
        ≡ report kind r
            (active_keys (allow_n kind create decide o s r).store)
            (allow_n kind create decide o s r).outcome
  unfolding allow_n
  allow_n-report create decide o s r =
      let P : Reply T → Type 0 = λ q. q.observed ≡ report kind r (active_keys q.store) q.outcome in
      let early : Error → Reply T = λ e. fail kind s r empty_decision e in
      let done : Store T × Outcome =
        with_entry o s r.key r.now create
          (λ v ephemeral. let q = decide v r.now r.n in (q.0, (q.1, none))) in
      let rest : Reply T = elim (validate_request_size r.n) [
        | some e ↦ early e
        | none ↦ finish kind r done
      ] in
      by_check P r.ctx_err early rest (λ e. refl)
        (by_check P (validate_request_size r.n) early (finish kind r done) (λ e. refl)
          (finish-report r done))
