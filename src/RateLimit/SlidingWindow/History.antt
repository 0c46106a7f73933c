-- ===== src/RateLimit/SlidingWindow/History.antt =====
-- The calls for one key of sliding_window.go, beside the full log of what they admitted.
use agent_cortex.Prelude.{
  ℕ, zero, suc, ◌+◌, ◌≤◌, ◌≡◌, refl, Bool, List, [], ◌∷◌, ◌++◌, All, false, if◌then◌else◌, length,
  replicate, arith,
}
use agent_cortex.Prelude.Int.{
  pos, pos_part, neg_part, ◌+ℤ◌, ◌≤ℤ◌, ◌<ℤ◌, leb_ℤ, ltb_ℤ, IsInt64, sub64, sub64_parts, +ℤ_parts,
}
use agent_cortex.RateLimit.Types.{Time, Duration, add_time}
use agent_cortex.RateLimit.SlidingWindow.{SlidingWindow}

-- What `NewSlidingWindow` accepts.
pub record IsValid (l : SlidingWindow) : Type 0 where
  pub some_limit : pos 0 <ℤ l.limit
  pub some_window : pos 0 <ℤ l.window
  pub limit_int64 : IsInt64 l.limit
  pub window_int64 : IsInt64 l.window

abbrev pub in_window : Duration → Time → Time → Bool
in_window w now t = if ltb_ℤ now (t +ℤ w) then leb_ℤ t now else false

-- How many times of a log lie in the window that ends at `now`: after `now - w`, and up to `now`.
unfoldable pub count_in : Duration → Time → List Time → ℕ
count_in w now [] = 0
count_in w now (t ∷ ts) = if in_window w now t then suc (count_in w now ts) else count_in w now ts

abbrev pub Ascending : List Time → Type 0
Ascending [] = Unit
Ascending (t ∷ ts) = All (λ u. t ≤ℤ u) ts × Ascending ts

pub count_in-append :
    (w : Duration) (now : Time) (xs ys : List Time)
    → count_in w now (xs ++ ys) ≡ count_in w now xs + count_in w now ys
unfolding count_in
count_in-append w now [] ys = omega arith
count_in-append w now (x ∷ xs) ys = ground (arith, count_in-append w now xs ys)

pub count_in-le-length :
    (w : Duration) (now : Time) (xs : List Time) → count_in w now xs ≤ length xs
unfolding count_in
count_in-le-length w now [] = omega arith
count_in-le-length w now (x ∷ xs) = ground (arith, count_in-le-length w now xs)

-- Times that have left the window do not count.
pub count_in_old :
    (w : Duration) (now : Time) (xs : List Time)
    → All (λ t. t +ℤ w ≤ℤ now) xs
    → count_in w now xs ≡ 0
unfolding count_in
count_in_old w now [] h = refl
count_in_old w now (x ∷ xs) h = ground (arith, count_in_old w now xs h.1)

-- Nor do later times.
pub count_in_later :
    (w : Duration) (now t : Time) (n : ℕ) → now <ℤ t → count_in w now (replicate n t) ≡ 0
unfolding count_in
count_in_later w now t zero h = refl
count_in_later w now t (suc n) h = ground (arith, count_in_later w now t n h)

pub count_in_full :
    (w : Duration) (now t : Time) (xs : List Time)
    → now <ℤ t +ℤ w
    → All (λ u. t ≤ℤ u) xs
    → All (λ u. u ≤ℤ now) xs
    → count_in w now xs ≡ length xs
unfolding count_in
count_in_full w now t [] h a b = refl
count_in_full w now t (x ∷ xs) h a b =
    ground (arith, +ℤ_parts t w, +ℤ_parts x w, count_in_full w now t xs h a.1 b.1)

module _ (l : SlidingWindow) (valid : IsValid l) where
  pub cutoff_parts :
      (now : Time)
      → let c = add_time now (sub64 (pos 0) l.window) in
        pos_part c + neg_part now + pos_part l.window
        ≡ neg_part c + pos_part now + neg_part l.window
  cutoff_parts now = omega (
    arith,
    valid.some_window,
    valid.window_int64,
    sub64_parts (pos 0) l.window,
    +ℤ_parts now (sub64 (pos 0) l.window),
  )
