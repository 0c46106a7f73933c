-- ===== src/RateLimit/TokenBucket/Bounds.antt =====
-- pkg/ratelimit/token_bucket.go, `allowN`: the tokens stay within the burst, and are taken exactly by the
-- requests that are granted.
use agent_cortex.Prelude.{true, ◌≡◌, ◌↔◌, refl, ◌∙◌, Bool-cases, inl, inr, arith, if◌then◌else◌}
use agent_cortex.Prelude.Int.{ℤ, pos, ◌≤ℤ◌, ◌<ℤ◌, ◌-ℤ◌, ltb_ℤ, max_ℤ}
use agent_cortex.Memory.{Float64}
use agent_cortex.RateLimit.Types.{Time, Duration, Decision, sub_time}
use agent_cortex.RateLimit.TokenBucket.{
  Floats, TokenBucket, Bucket, refill_of, refill, judge, taken, decide,
}

-- What the bucket relies on: the order of numbers, a minimum that is one of its arguments, and the signs of
-- sums, differences and rates of numbers that are no larger than an integer.
pub record IsLawful (F : Floats) : Type 0 where
  pub le_trans : (a b c : Float64) → F.le a b ≡ true → F.le b c ≡ true → F.le a c ≡ true
  pub le-of_int : (m n : ℤ) → m ≤ℤ n → F.le (F.of_int m) (F.of_int n) ≡ true
  pub le-min :
      (a b : Float64)
      → F.le (F.of_int (pos 0)) a ≡ true
      → F.le (F.of_int (pos 0)) b ≡ true
      → (F.le (F.of_int (pos 0)) (F.min a b) ≡ true) × (F.le (F.min a b) a ≡ true)
  pub le-add :
      (a b : Float64)
      → F.le (F.of_int (pos 0)) a ≡ true
      → F.le (F.of_int (pos 0)) b ≡ true
      → F.le (F.of_int (pos 0)) (F.add a b) ≡ true
  pub le-sub :
      (a b : Float64) (k : ℤ)
      → F.le (F.of_int (pos 0)) b ≡ true
      → F.le b a ≡ true
      → F.le a (F.of_int k) ≡ true
      → (F.le (F.of_int (pos 0)) (F.sub a b) ≡ true) × (F.le (F.sub a b) a ≡ true)
  pub le-refill :
      (rate : ℤ) (elapsed interval : Duration)
      → pos 0 <ℤ rate
      → pos 0 <ℤ elapsed
      → pos 0 <ℤ interval
      → F.le
          (F.of_int (pos 0))
          (F.div (F.mul (F.of_int rate) (F.seconds elapsed)) (F.seconds interval))
        ≡ true

-- A limiter as `NewTokenBucket` makes it.
pub record IsLimiter (l : TokenBucket) : Type 0 where
  pub rate : pos 0 <ℤ l.rate
  pub burst : pos 0 <ℤ l.burst
  pub interval : pos 0 <ℤ l.interval

pub record IsWithin (F : Floats) (l : TokenBucket) (b : Bucket) : Type 0 where
  pub low : F.le (F.of_int (pos 0)) b.tokens ≡ true
  pub high : F.le b.tokens (F.of_int l.burst) ≡ true

elapsed_positive : (a b : Time) → ltb_ℤ a b ≡ true → pos 0 <ℤ sub_time b a
unfolding sub_time ◌-ℤ◌
elapsed_positive a b h = ground (arith, h)

module _ (F : Floats) (lawful : IsLawful F) (l : TokenBucket) (good : IsLimiter l) where
  refill-IsWithin : (b : Bucket) (now : Time) → IsWithin F l b → IsWithin F l (refill F l b now)
  unfolding refill
  refill-IsWithin b now h = elim (Bool-cases (ltb_ℤ b.last now)) [
    | inr e ↦ rw (e) h
    | inl e ↦
        let more = refill_of F l (sub_time now b.last) in
        let g =
          lawful.le-refill l.rate (sub_time now b.last) l.interval good.rate
            (elapsed_positive b.last now e) good.interval in
        let z = lawful.le-of_int (pos 0) l.burst (omega (arith, good.burst)) in
        let m =
          lawful.le-min (F.of_int l.burst) (F.add b.tokens more) z
            (lawful.le-add b.tokens more h.low g) in
        rw (e) (record { low = m.0; high = m.1 })
  ]

  refill-last : (b : Bucket) (now : Time) → (refill F l b now).last ≡ max_ℤ b.last now
  unfolding refill
  refill-last b now = elim (Bool-cases (ltb_ℤ b.last now)) [
    | inl e ↦ rw (e) refl
    | inr e ↦ rw (e) refl
  ]

  taken-IsWithin :
      (k : Bucket) (n : ℤ)
      → IsWithin F l k
      → pos 0 <ℤ n
      → F.le (F.of_int n) k.tokens ≡ true
      → IsWithin F l (taken F l k n)
  taken-IsWithin k n h p e =
      let s =
        lawful.le-sub k.tokens (F.of_int n) l.burst (lawful.le-of_int (pos 0) n (omega (arith, p)))
          e h.high in
      record {
        low = s.0;
        high = lawful.le_trans (F.sub k.tokens (F.of_int n)) k.tokens (F.of_int l.burst) s.1 h.high;
      }

  abbrev Judged : Bucket → ℤ → Bucket × Decision → Type 0
  Judged k n r =
      IsWithin F l r.0
      × (r.0.last ≡ k.last)
      × ((r.1.allowed ≡ true) ↔ (F.le (F.of_int n) k.tokens ≡ true))
      × (r.0.tokens ≡ (if r.1.allowed then F.sub k.tokens (F.of_int n) else k.tokens))

  judge-Judged : (k : Bucket) (n : ℤ) → IsWithin F l k → pos 0 <ℤ n → Judged k n (judge F l k n)
  judge-Judged k n h p = elim (Bool-cases (F.le (F.of_int n) k.tokens)) [
    | inl e ↦ rw (e) (taken-IsWithin k n h p e, refl, ((λ a. refl), (λ a. refl)), refl)
    | inr e ↦ rw (e) (h, refl, ((λ a. a), (λ a. a)), refl)
  ]

  -- A limiter as `NewTokenBucket` makes it, a bucket of no fewer than 0 tokens and no more than the burst,
  -- and a request of at least 1, on float64 arithmetic that obeys the laws: the bucket keeps to these
  -- bounds, and its time becomes the later one of its time and the request's; the request is granted
  -- exactly when the refilled bucket has that many tokens, and then they are taken, and otherwise none are.
  pub decide_granted :
      (b : Bucket) (now : Time) (n : ℤ)
      → IsWithin F l b
      → pos 0 <ℤ n
      → IsWithin F l (decide F l b now n).0
        × ((decide F l b now n).0.last ≡ max_ℤ b.last now)
        × (((decide F l b now n).1.allowed ≡ true)
            ↔ (F.le (F.of_int n) (refill F l b now).tokens ≡ true))
        × ((decide F l b now n).0.tokens ≡ (
            if (decide F l b now n).1.allowed
            then F.sub (refill F l b now).tokens (F.of_int n)
            else (refill F l b now).tokens))
  unfolding decide
  decide_granted b now n h p =
      let (w, s, a, k) = judge-Judged (refill F l b now) n (refill-IsWithin b now h) p in
      (w, s ∙ refill-last b now, a, k)
