-- ===== src/RateLimit/SlidingWindow/Runs.antt =====
-- Whole histories of calls for one key of sliding_window.go, against a limiter that keeps every
-- admitted time for ever.
use agent_cortex.Prelude.{
  ◌≤◌, ◌≡◌, refl, ap, Bool, List, [], ◌∷◌, ◌++◌, All, All-append, All-map, if◌then◌else◌,
  length-replicate, replicate, arith,
}
use agent_cortex.Prelude.Int.{ℤ, pos, pos_part, ◌+ℤ◌, ◌≤ℤ◌, leb_ℤ, one_sign, +ℤ_parts}
use agent_cortex.RateLimit.Types.{Time}
use agent_cortex.RateLimit.SlidingWindow.{SlidingWindow, Records, decide}
use agent_cortex.RateLimit.SlidingWindow.History.{
  IsValid, count_in, count_in-append, count_in-le-length, count_in_later,
}
use agent_cortex.RateLimit.SlidingWindow.Exact.{
  Inv, logged, decide_exact, decide-Inv, All-replicate,
}

-- A call: its time and its size.
abbrev pub Call : Type 0
Call = Time × ℤ

-- The clock does not go back.
abbrev pub Monotone : Time → List Call → Type 0
Monotone last [] = Unit
Monotone last ((now, n) ∷ cs) = (last ≤ℤ now) × Monotone now cs

-- Every answer of the limiter, and the times that it admitted.
pub run : SlidingWindow → Records → List Time → List Call → List Bool × List Time
run l records log [] = ([], log)
run l records log ((now, n) ∷ cs) =
    let r = decide l records now n in
    let rest = run l r.0 (logged log now n r) cs in (r.1.allowed ∷ rest.0, rest.1)

-- The specification: admit while the window that ends now has room for the request.
abbrev pub has_room : SlidingWindow → List Time → Time → ℤ → Bool
has_room l log now n = leb_ℤ (n +ℤ pos (count_in l.window now log)) l.limit

abbrev pub extended : Bool → List Time → Time → ℤ → List Time
extended b log now n = if b then log ++ replicate (pos_part n) now else log

pub reference : SlidingWindow → List Time → List Call → List Bool × List Time
reference l log [] = ([], log)
reference l log ((now, n) ∷ cs) =
    let b = has_room l log now n in
    let rest = reference l (extended b log now n) cs in (b ∷ rest.0, rest.1)

module _ (l : SlidingWindow) (valid : IsValid l) where
  run_from-reference :
      (last : Time) (records : Records) (log : List Time) (cs : List Call)
      → Inv l last records log
      → Monotone last cs
      → run l records log cs ≡ reference l log cs
  unfolding run reference
  run_from-reference last records log [] inv m = refl
  run_from-reference last records log ((now, n) ∷ cs) inv m =
      let e = decide_exact l valid last now m.0 records log inv n in
      let ih =
        run_from-reference now (decide l records now n).0
          (logged log now n (decide l records now n)) cs
          (decide-Inv l valid last now m.0 records log inv n) m.1 in
      rw (← e) (ap (λ x. ((decide l records now n).1.allowed ∷ x.0, x.1)) ih)

  counted_before :
      (t now : Time) (log : List Time)
      → now ≤ℤ t
      → All (λ u. u ≤ℤ now) log
      → count_in l.window t log ≤ count_in l.window now log
  unfolding count_in
  counted_before t now [] h a = omega arith
  counted_before t now (x ∷ xs) h a = ground (arith, counted_before t now xs h a.1)

  extended_bounded :
      (now : Time) (n : ℤ) (log : List Time) (t : Time)
      → All (λ u. u ≤ℤ now) log
      → count_in l.window t log ≤ pos_part l.limit
      → count_in l.window t (extended (has_room l log now n) log now n) ≤ pos_part l.limit
  extended_bounded now n log t a b = ground (
    arith,
    count_in-append l.window t log (replicate (pos_part n) now),
    count_in-le-length l.window t (replicate (pos_part n) now),
    length-replicate (pos_part n) now,
    count_in_later l.window t now (pos_part n),
    counted_before t now log,
    one_sign n,
    one_sign l.limit,
    valid.some_limit,
    +ℤ_parts n (pos (count_in l.window now log)),
  )

  extended_seen :
      (now : Time) (n : ℤ) (log : List Time)
      → All (λ u. u ≤ℤ now) log
      → All (λ u. u ≤ℤ now) (extended (has_room l log now n) log now n)
  extended_seen now n log a = ground (
    arith,
    All-append (λ u. u ≤ℤ now) log (replicate (pos_part n) now) a
        (All-replicate (λ u. u ≤ℤ now) now (pos_part n) (omega arith)),
  )

  reference_bounded :
      (last : Time) (log : List Time) (cs : List Call) (t : Time)
      → Monotone last cs
      → All (λ u. u ≤ℤ last) log
      → count_in l.window t log ≤ pos_part l.limit
      → count_in l.window t (reference l log cs).1 ≤ pos_part l.limit
  unfolding reference
  reference_bounded last log [] t m a b = b
  reference_bounded last log ((now, n) ∷ cs) t m a b =
      let a' = All-map (λ u. u ≤ℤ last) (λ u. u ≤ℤ now) log (λ u h. omega (arith, m.0)) a in
      reference_bounded now (extended (has_room l log now n) log now n) cs t m.1
        (extended_seen now n log a') (extended_bounded now n log t a' b)

  start : (last : Time) → Inv l last [] []
  start last = record {
    gone = [];
    split = refl;
    gone_old = tt;
    bounded = omega arith;
    ascending = tt;
    seen = tt;
  }

  -- From an empty state, under a clock that does not go back, the limiter gives exactly the answers
  -- of one that keeps every admitted time for ever and admits a request while the window that ends
  -- now has room for it, and it admits the same times.
  pub run-reference :
      (last : Time) (cs : List Call) → Monotone last cs → run l [] [] cs ≡ reference l [] cs
  run-reference last cs m = run_from-reference last [] [] cs (start last) m

  -- From an empty state, under a clock that does not go back, no window of the configured length holds
  -- more admitted times than the limit.
  pub run_bounded :
      (last t : Time) (cs : List Call)
      → Monotone last cs
      → count_in l.window t (run l [] [] cs).1 ≤ pos_part l.limit
  unfolding count_in
  run_bounded last t cs m =
      rw (run-reference last cs m) (reference_bounded last [] cs t m tt (omega arith))
