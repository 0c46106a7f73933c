-- ===== src/RateLimit/Store/Cleanup.antt =====
-- `cleanupLocked` of sharded_state.go on one map: what it keeps, what it drops, what it counts.
use agent_cortex.Prelude.{
  ℕ, suc, ◌+◌, ◌^◌, ◌≤◌, ◌<◌, ◌≡◌, refl, ◌⊎◌, inl, Bool, Bytes, bytes_eq_iff, [], ◌∷◌, Option, none,
  some, true, false, length, arith,
}
use agent_cortex.Prelude.Int.{ℤ, pos, negsuc, add64, ◌+ℤ◌, wrap64}
use agent_cortex.RateLimit.Types.{Time, Duration}
use agent_cortex.RateLimit.Store.{
  Entry, Items, lookup, is_idle, cleanup_limit, cleanup_loop, cleanup_locked,
}
use agent_cortex.RateLimit.Store.Map.{Unique}

-- What a `range` statement over a map promises: each entry is visited once, in some order.
pub record IsRange {ℓ} {T : Type ℓ} (order : Items T → Items T) : Type ℓ where
  pub same : (m : Items T) (j : Bytes) → Unique m → lookup j (order m) ≡ lookup j m
  pub count : (m : Items T) → length (order m) ≡ length m
  pub once : (m : Items T) → Unique m → Unique (order m)

pub add64_down : (n : ℕ) → n < 2 ^ 63 → add64 (pos (suc n)) (negsuc 0) ≡ pos n
unfolding add64 ◌+ℤ◌ wrap64
add64_down n h = ground arith

pub add64_up : (n : ℕ) → suc n < 2 ^ 63 → add64 (pos n) (pos 1) ≡ pos (suc n)
unfolding add64 ◌+ℤ◌ wrap64
add64_up n h = ground arith

module _ {ℓ} {T : Type ℓ} where
  abbrev pub idle_option : Time → Duration → Option (Entry T) → Bool
  idle_option now ttl none = false
  idle_option now ttl (some e) = is_idle now ttl e

  -- An entry stays as it is, or goes because it has been idle for longer than the limit.
  abbrev pub Kept : Time → Duration → Option (Entry T) → Option (Entry T) → Type ℓ
  Kept now ttl o o' = (o' ≡ o) ⊎ ((o' ≡ none) × (idle_option now ttl o ≡ true))

  pub Kept-trans :
      (now : Time) (ttl : Duration) (o p q : Option (Entry T))
      → Kept now ttl o p
      → Kept now ttl p q
      → Kept now ttl o q
  Kept-trans now ttl o p q h k = ground arith

  module _ (now : Time) (ttl : Duration) where
    lookup-cleanup_loop_absent :
        (cleaned : ℕ) (m : Items T) (c : ℤ) (j : Bytes)
        → lookup j m ≡ none
        → lookup j (cleanup_loop now ttl cleaned m c).0 ≡ none
    unfolding cleanup_loop lookup
    lookup-cleanup_loop_absent cleaned [] c j h = refl
    lookup-cleanup_loop_absent cleaned ((k, e) ∷ m) c j h = ground (
      arith,
      lookup-cleanup_loop_absent (suc cleaned) m (add64 c (negsuc 0)) j,
      lookup-cleanup_loop_absent cleaned m c j,
    )

    cleanup_loop-Kept :
        (cleaned : ℕ) (m : Items T) (c : ℤ) (j : Bytes)
        → Unique m
        → Kept now ttl (lookup j m) (lookup j (cleanup_loop now ttl cleaned m c).0)
    unfolding cleanup_loop lookup
    cleanup_loop-Kept cleaned [] c j u = inl refl
    cleanup_loop-Kept cleaned ((k, e) ∷ m) c j u = ground (
      arith,
      bytes_eq_iff k j,
      lookup-cleanup_loop_absent (suc cleaned) m (add64 c (negsuc 0)) j,
      cleanup_loop-Kept (suc cleaned) m (add64 c (negsuc 0)) j u.1,
      cleanup_loop-Kept cleaned m c j u.1,
    )

    cleanup_loop-Unique :
        (cleaned : ℕ) (m : Items T) (c : ℤ) → Unique m → Unique (cleanup_loop now ttl cleaned m c).0
    unfolding cleanup_loop
    cleanup_loop-Unique cleaned [] c u = tt
    cleanup_loop-Unique cleaned ((k, e) ∷ m) c u = ground (
      arith,
      lookup-cleanup_loop_absent cleaned m c k,
      cleanup_loop-Unique (suc cleaned) m (add64 c (negsuc 0)) u.1,
      cleanup_loop-Unique cleaned m c u.1,
    )

    -- The counter falls by the number of entries that go; these are at most `cleanup_limit`.
    cleanup_loop-count :
        (cleaned : ℕ) (m : Items T) (k : ℕ) (c : ℤ)
        → c ≡ pos (k + length m)
        → k + length m < 2 ^ 63
        → cleaned ≤ cleanup_limit
        → ((cleanup_loop now ttl cleaned m c).1
            ≡ pos (k + length (cleanup_loop now ttl cleaned m c).0))
          × (length (cleanup_loop now ttl cleaned m c).0 ≤ length m)
          × (length m + cleaned ≤ length (cleanup_loop now ttl cleaned m c).0 + cleanup_limit)
    unfolding cleanup_loop
    cleanup_loop-count cleaned [] k c e h l = ground arith
    cleanup_loop-count cleaned ((j, d) ∷ m) k c e h l = ground (
      arith,
      add64_down (k + length m),
      cleanup_loop-count (suc cleaned) m k (add64 c (negsuc 0)),
      cleanup_loop-count cleaned m (suc k) c,
    )

    module _ (order : Items T → Items T) (range : IsRange order) where
      pub cleanup_locked-Kept :
          (m : Items T) (c : ℤ) (j : Bytes)
          → Unique m
          → Kept now ttl (lookup j m) (lookup j (cleanup_locked order now ttl m c).0)
      unfolding cleanup_locked
      cleanup_locked-Kept m c j u =
          ground (arith, range.same m j u, cleanup_loop-Kept 0 (order m) c j (range.once m u))

      pub cleanup_locked-Unique :
          (m : Items T) (c : ℤ) → Unique m → Unique (cleanup_locked order now ttl m c).0
      unfolding cleanup_locked
      cleanup_locked-Unique m c u =
          ground (arith, cleanup_loop-Unique 0 (order m) c (range.once m u))

      -- One visit drops at most `cleanup_limit` entries, and counts down by their number.
      pub cleanup_locked-count :
          (m : Items T) (k : ℕ) (c : ℤ)
          → c ≡ pos (k + length m)
          → k + length m < 2 ^ 63
          → ((cleanup_locked order now ttl m c).1
              ≡ pos (k + length (cleanup_locked order now ttl m c).0))
            × (length (cleanup_locked order now ttl m c).0 ≤ length m)
            × (length m ≤ length (cleanup_locked order now ttl m c).0 + cleanup_limit)
      unfolding cleanup_locked
      cleanup_locked-count m k c e h =
          ground (arith, range.count m, cleanup_loop-count 0 (order m) k c)
