-- ===== src/RateLimit/SlidingWindow/Exact.antt =====
-- sliding_window.go decides like a limiter that keeps every admitted time for ever.
use agent_cortex.Prelude.{
  ℕ, zero, suc, ◌+◌, ◌≤◌, ◌≡◌, refl, sym, ap, ◌∙◌, ◌⊎◌, Bool, List, [], ◌∷◌, ◌++◌, All, All-append,
  All-map, true, false, if◌then◌else◌, length, length-append, length-replicate, replicate, arith,
  Bool-cases, inl, inr,
}
use mathlib.Core.List.{append_assoc}
use agent_cortex.Prelude.Int.{
  ℤ, pos, pos_part, neg_part, ◌+ℤ◌, ◌≤ℤ◌, leb_ℤ, sub64, sub64_parts, +ℤ_parts, one_sign,
}
use agent_cortex.RateLimit.Types.{Time, Duration, Decision, add_time}
use agent_cortex.RateLimit.SlidingWindow.{
  SlidingWindow, Records, prune_until, prune, admit, deny, decide,
}
use agent_cortex.RateLimit.SlidingWindow.History.{
  IsValid, count_in, count_in-append, count_in_old, count_in_full, Ascending, cutoff_parts,
}

-- The records that `prune_until` drops.
pruned : Time → Records → Records
pruned cutoff [] = []
pruned cutoff (t ∷ ts) = if leb_ℤ t cutoff then t ∷ pruned cutoff ts else []

pruned-append : (c : Time) (xs : Records) → xs ≡ pruned c xs ++ prune_until c xs
unfolding pruned prune_until
pruned-append c [] = refl
pruned-append c (x ∷ xs) = ground (arith, pruned-append c xs)

prune_until-All {ℓ} :
    (P : Time → Type ℓ) (c : Time) (xs : Records) → All P xs → All P (prune_until c xs)
unfolding prune_until
prune_until-All P c [] h = tt
prune_until-All P c (x ∷ xs) h = ground (arith, prune_until-All P c xs h.1)

prune_until-Ascending : (c : Time) (xs : Records) → Ascending xs → Ascending (prune_until c xs)
unfolding prune_until
prune_until-Ascending c [] h = tt
prune_until-Ascending c (x ∷ xs) h = ground (arith, prune_until-Ascending c xs h.1)

-- A cutoff `c` that lies the window's length before `now`.
module _ (w : Duration) (now c : Time)
    (cut : pos_part c + neg_part now + pos_part w ≡ neg_part c + pos_part now + neg_part w) where
  pruned_old : (xs : Records) → All (λ t. t +ℤ w ≤ℤ now) (pruned c xs)
  unfolding pruned
  pruned_old [] = tt
  pruned_old (x ∷ xs) = ground (arith, +ℤ_parts x w, pruned_old xs)

  count_in-prune_until :
      (xs : Records)
      → Ascending xs
      → All (λ t. t ≤ℤ now) xs
      → count_in w now xs ≡ length (prune_until c xs)
  unfolding prune_until count_in
  count_in-prune_until [] a b = refl
  count_in-prune_until (x ∷ xs) a b =
      ground (arith, +ℤ_parts x w, count_in-prune_until xs a.1 b.1, count_in_full w now x xs)

pub All-replicate {ℓ} : (P : Time → Type ℓ) (t : Time) (n : ℕ) → P t → All P (replicate n t)
All-replicate P t zero h = tt
All-replicate P t (suc n) h = (h, All-replicate P t n h)

-- New records go to the end, at a time that no record lies after.
Ascending-append :
    (xs : Records) (t : Time) (n : ℕ)
    → Ascending xs
    → All (λ u. u ≤ℤ t) xs
    → Ascending (xs ++ replicate n t)
Ascending-append [] t zero a b = tt
Ascending-append [] t (suc n) a b =
    (All-replicate (λ u. t ≤ℤ u) t n (omega arith), Ascending-append [] t n tt tt)
Ascending-append (x ∷ xs) t n a b = (
  All-append (λ u. x ≤ℤ u) xs (replicate n t) a.0 (All-replicate (λ u. x ≤ℤ u) t n (omega arith)),
  Ascending-append xs t n a.1 b.1,
)

-- The records, beside the log of all admitted times: what is missing has left the window.
pub record Inv (l : SlidingWindow) (last : Time) (records : Records) (log : List Time)
    : Type 0 where
  pub gone : List Time
  pub split : log ≡ gone ++ records
  pub gone_old : All (λ t. t +ℤ l.window ≤ℤ last) gone
  pub bounded : length records ≤ pos_part l.limit
  pub ascending : Ascending records
  pub seen : All (λ t. t ≤ℤ last) records

-- The log after a call.
abbrev pub logged : List Time → Time → ℤ → Records × Decision → List Time
logged log now n r = if r.1.allowed then log ++ replicate (pos_part n) now else log

module _ (l : SlidingWindow) (valid : IsValid l) (last now : Time) (monotone : last ≤ℤ now)
    (records : Records) (log : List Time) (inv : Inv l last records log) where
  cutoff : Time
  cutoff = add_time now (sub64 (pos 0) l.window)

  kept : Records
  kept = prune l records now

  seen_now : All (λ t. t ≤ℤ now) records
  seen_now = All-map (λ t. t ≤ℤ last) (λ t. t ≤ℤ now) records (λ t h. omega arith) inv.seen

  -- What prune keeps, as an invariant at the later time.
  kept-Inv : Inv l now kept log
  unfolding kept prune cutoff
  kept-Inv = record {
    gone = inv.gone ++ pruned cutoff records;
    split =
        inv.split
        ∙ ap (◌++◌ inv.gone) (pruned-append cutoff records)
        ∙ sym (append_assoc inv.gone (pruned cutoff records) (prune_until cutoff records));
    gone_old =
        All-append (λ t. t +ℤ l.window ≤ℤ now) inv.gone (pruned cutoff records)
          (All-map (λ t. t +ℤ l.window ≤ℤ last) (λ t. t +ℤ l.window ≤ℤ now) inv.gone
            (λ t h. omega arith) inv.gone_old)
          (pruned_old l.window now cutoff (cutoff_parts l valid now) records);
    bounded = omega (
      arith,
      inv.bounded,
      length-append (pruned cutoff records) (prune_until cutoff records),
      ap length (pruned-append cutoff records),
    );
    ascending = prune_until-Ascending cutoff records inv.ascending;
    seen = prune_until-All (λ t. t ≤ℤ now) cutoff records seen_now;
  }

  count_in-kept : count_in l.window now log ≡ length kept
  unfolding kept prune cutoff
  count_in-kept =
      ap (count_in l.window now) inv.split
      ∙ count_in-append l.window now inv.gone records
      ∙ omega (
        arith,
        count_in_old l.window now inv.gone (
            All-map (λ t. t +ℤ l.window ≤ℤ last) (λ t. t +ℤ l.window ≤ℤ now) inv.gone
              (λ t h. omega arith) inv.gone_old),
        count_in-prune_until l.window now cutoff (cutoff_parts l valid now) records inv.ascending
            seen_now,
      )

  room_parts :
      pos_part (sub64 l.limit (pos (length kept))) + length kept
      ≡ neg_part (sub64 l.limit (pos (length kept))) + pos_part l.limit
  room_parts = omega (
    arith,
    kept-Inv.bounded,
    valid.some_limit,
    valid.limit_int64,
    one_sign l.limit,
    sub64_parts l.limit (pos (length kept)),
  )

  fits : ℤ → Bool
  fits n = leb_ℤ n (sub64 l.limit (pos (length kept)))

  decide_cases :
      (n : ℤ)
      → ((fits n ≡ true) × (decide l records now n ≡ admit l kept now n))
        ⊎ ((fits n ≡ false) × (decide l records now n ≡ deny l kept now))
  unfolding decide fits kept
  decide_cases n =
      elim (Bool-cases (leb_ℤ n (sub64 l.limit (pos (length (prune l records now)))))) [
        | inl e ↦ inl (e, rw (e, decide))
        | inr e ↦ inr (e, rw (e, decide))
      ]

  fits_exact : (n : ℤ) → fits n ≡ leb_ℤ (n +ℤ pos (count_in l.window now log)) l.limit
  unfolding fits
  fits_exact n = ground (
    arith,
    count_in-kept,
    room_parts,
    one_sign l.limit,
    valid.some_limit,
    +ℤ_parts n (pos (count_in l.window now log)),
  )

  -- The decision is that of a limiter which counts the whole log.
  pub decide_exact :
      (n : ℤ)
      → (decide l records now n).1.allowed ≡ leb_ℤ (n +ℤ pos (count_in l.window now log)) l.limit
  unfolding admit deny
  decide_exact n = elim (decide_cases n) [
    | inl (f, e) ↦ rw e (sym f ∙ fits_exact n)
    | inr (f, e) ↦ rw e (sym f ∙ fits_exact n)
  ]

  admit-Inv :
      (n : ℤ)
      → fits n ≡ true
      → Inv l now (kept ++ replicate (pos_part n) now) (log ++ replicate (pos_part n) now)
  unfolding fits
  admit-Inv n h = record {
    gone = kept-Inv.gone;
    split =
        ap (λ x. x ++ replicate (pos_part n) now) kept-Inv.split
        ∙ append_assoc kept-Inv.gone kept (replicate (pos_part n) now);
    gone_old = kept-Inv.gone_old;
    bounded = ground (
      arith,
      length-append kept (replicate (pos_part n) now),
      length-replicate (pos_part n) now,
      room_parts,
      kept-Inv.bounded,
      valid.some_limit,
    );
    ascending = Ascending-append kept now (pos_part n) kept-Inv.ascending kept-Inv.seen;
    seen =
        All-append (λ t. t ≤ℤ now) kept (replicate (pos_part n) now) kept-Inv.seen
          (All-replicate (λ t. t ≤ℤ now) now (pos_part n) (omega arith));
  }

  pub decide-Inv :
      (n : ℤ) → Inv l now (decide l records now n).0 (logged log now n (decide l records now n))
  unfolding admit deny
  decide-Inv n = elim (decide_cases n) [
    | inl (f, e) ↦ rw e (admit-Inv n f)
    | inr (f, e) ↦ rw e kept-Inv
  ]
