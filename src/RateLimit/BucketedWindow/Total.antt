-- ===== src/RateLimit/BucketedWindow/Total.antt =====
-- pkg/ratelimit/bucketed_sliding_window.go: the units that the kept buckets hold.
use agent_cortex.Prelude.{
  ℕ, ◌+◌, ◌-◌, ◌&&◌, ◌^◌, ◌≤◌, ◌<◌, ◌≡◌, refl, ap, ◌∙◌, true, false, [], ◌∷◌, if◌then◌else◌, arith,
  leb, Bool-cases, inl, inr,
}
use agent_cortex.Prelude.Int.{
  ℤ, pos, leb_ℤ, add64, sub64, add64_exact, sub64_exact, ◌+ℤ◌, ◌-ℤ◌, +ℤ_parts, -ℤ_parts,
  eq_of_parts,
}
use agent_cortex.RateLimit.Types.{Time}
use agent_cortex.RateLimit.BucketedWindow.{
  BucketedSlidingWindow, Buckets, prune_buckets, total, add_units, decide_kept, decide, least_index,
  bucket_index,
}

-- The units of all buckets, without wrapping.
unfoldable pub units : Buckets → ℕ
units [] = 0
units ((i, c) ∷ bs) = c + units bs

total-units : (bs : Buckets) → units bs < 2 ^ 63 → total bs ≡ pos (units bs)
unfolding units total
total-units [] h = refl
total-units ((i, c) ∷ bs) h =
    let ih = total-units bs (omega (arith, h)) in
    ap (λ t. add64 t (pos c)) ih
    ∙ add64_exact (pos (units bs)) (pos c) (omega (arith, h)) (omega arith)
    ∙ eq_of_parts (pos (units bs) +ℤ pos c) (pos (c + units bs))
        (omega (arith, +ℤ_parts (pos (units bs)) (pos c)))

-- The units of the buckets from the least index to the current one.
abbrev pub units_between : ℤ → ℤ → Buckets → ℕ
units_between least current [] = 0
units_between least current ((i, c) ∷ bs) =
    (if leb_ℤ least i && leb_ℤ i current then c else 0) + units_between least current bs

units-prune_buckets :
    (least current : ℤ) (bs : Buckets)
    → (units (prune_buckets least current bs) ≡ units_between least current bs)
      × (units_between least current bs ≤ units bs)
unfolding units prune_buckets
units-prune_buckets least current [] = (refl, omega arith)
units-prune_buckets least current ((i, c) ∷ bs) =
    ground (arith, units-prune_buckets least current bs)

units-add_units :
    (current : ℤ) (n : ℕ) (bs : Buckets) → units (add_units current n bs) ≡ units bs + n
unfolding units add_units
units-add_units current n [] = omega arith
units-add_units current n ((i, c) ∷ bs) = ground (arith, units-add_units current n bs)

-- What is left of a limit that the buckets keep to.
left_over :
    (m : ℕ) (bs : Buckets)
    → m < 2 ^ 63
    → units bs ≤ m
    → sub64 (pos m) (total bs) ≡ pos (m - units bs)
left_over m bs small fits =
    ap (sub64 (pos m)) (total-units bs (omega (arith, small, fits)))
    ∙ sub64_exact (pos m) (pos (units bs)) (omega (arith, small)) (omega (arith, small, fits))
    ∙ eq_of_parts (pos m -ℤ pos (units bs)) (pos (m - units bs))
        (omega (arith, fits, -ℤ_parts (pos m) (pos (units bs))))

decide_kept-units :
    (l : BucketedSlidingWindow) (m n : ℕ) (current : ℤ) (kept : Buckets) (now : Time)
    → l.limit ≡ pos m
    → m < 2 ^ 63
    → units kept ≤ m
    → ((decide_kept l current kept now (pos n)).1.allowed ≡ leb (n + units kept) m)
      × (units (decide_kept l current kept now (pos n)).0
          ≡ (if leb (n + units kept) m then n + units kept else units kept))
unfolding decide_kept
decide_kept-units l m n current kept now lim small fits =
    let left : sub64 l.limit (total kept) ≡ pos (m - units kept) =
      ap (λ t. sub64 t (total kept)) lim ∙ left_over m kept small fits in
    elim (Bool-cases (leb_ℤ (pos n) (pos (m - units kept)))) [
      | inl a ↦
          let b : leb (n + units kept) m ≡ true = ground (arith, a, fits) in
          rw (left, a, b, decide_kept) (refl, units-add_units current n kept ∙ omega arith)
      | inr a ↦
          let b : leb (n + units kept) m ≡ false = ground (arith, a, fits) in
          rw (left, a, b, decide_kept) (refl, refl)
    ]

-- The units in the window of a time, by the indices of its buckets.
abbrev pub units_at : BucketedSlidingWindow → Time → Buckets → ℕ
units_at l now state =
    let current = bucket_index l now in units_between (least_index l current) current state

-- With a limit below 2^63 that the buckets keep to, a request is admitted exactly when its units and
-- those of the buckets in the window together are within the limit; an admitted request adds its units to
-- these, a refused one adds nothing, and the buckets keep to the limit.
pub decide_exact :
    (l : BucketedSlidingWindow) (m n : ℕ) (state : Buckets) (now : Time)
    → l.limit ≡ pos m
    → m < 2 ^ 63
    → units state ≤ m
    → ((decide l state now (pos n)).1.allowed ≡ leb (n + units_at l now state) m)
      × (units (decide l state now (pos n)).0 ≡ (
          if leb (n + units_at l now state) m
          then n + units_at l now state
          else units_at l now state))
      × (units (decide l state now (pos n)).0 ≤ m)
unfolding decide
decide_exact l m n state now lim small fits =
    let current = bucket_index l now in
    let kept = prune_buckets (least_index l current) current state in
    let (same, less) = units-prune_buckets (least_index l current) current state in
    let (a, u) =
      decide_kept-units l m n current kept now lim small (omega (arith, fits, same, less)) in
    ground (arith, a, u, same, less, fits)
