-- ===== src/RateLimit/Store/Swept.antt =====
-- The cleanups of sharded_state.go: how far they go.
use agent_cortex.Prelude.{
  ℕ, zero, suc, ◌+◌, ◌≤◌, ◌<◌, ◌≡◌, refl, ◌⊎◌, inl, inr, Bytes, List, [], ◌∷◌, true, false, length,
  leb, arith, Bool-cases,
}
use mathlib.Core.Path.{subst}
use native.Mathlib.Decide.{ℕ_discrete}
use agent_cortex.Prelude.Int.{ℤ, pos, negsuc, add64, leb_ℤ}
use agent_cortex.RateLimit.Types.{Time, Duration}
use agent_cortex.RateLimit.Store.{
  Items, Store, lookup, is_idle, cleanup_limit, cleanup_loop, cleanup_locked, cleanup_shard, sweep,
  cleanup_expired, make_room, is_full, nth_shard, set_shard,
}
use agent_cortex.RateLimit.Store.Map.{Unique}
use agent_cortex.RateLimit.Store.Shards.{nth_shard-set_self, nth_shard-set_ne, nth_shard-Unique}
use agent_cortex.RateLimit.Store.Cleanup.{IsRange, Kept, idle_option, cleanup_locked-Kept}
use agent_cortex.RateLimit.Store.Access.{IsValid, Shrinks}

module _ {ℓ} {T : Type ℓ} (now : Time) (ttl : Duration) where
  -- No entry has been idle for longer than the limit.
  abbrev pub IsLive : Items T → Type 0
  IsLive m = (j : Bytes) → idle_option now ttl (lookup j m) ≡ false

  -- What is left of a map is live, unless sixteen entries have gone.
  abbrev pub Swept : Items T → Items T → Type 0
  Swept m n = IsLive n ⊎ (length n + 16 ≤ length m)

  -- Some entries may have gone, and no other change.
  abbrev Less : Items T → Items T → Type ℓ
  Less m n = (length n ≤ length m) × ((j : Bytes) → Kept now ttl (lookup j m) (lookup j n))

  Kept-live :
      (m n : Items T) (j : Bytes)
      → Kept now ttl (lookup j m) (lookup j n)
      → idle_option now ttl (lookup j m) ≡ false
      → idle_option now ttl (lookup j n) ≡ false
  Kept-live m n j k h = ground (arith, h)

  Swept-Less : (l m n : Items T) → Swept l m → Less m n → Swept l n
  Swept-Less l m n (inl h) k = inl (λ j. Kept-live m n j (k.1 j) (h j))
  Swept-Less l m n (inr h) k = inr (omega (arith, h, k.0))

  Less-Swept : (l m n : Items T) → Less l m → Swept m n → Swept l n
  Less-Swept l m n k (inl h) = inl h
  Less-Swept l m n k (inr h) = inr (omega (arith, h, k.0))

  live-cons :
      (k j : Bytes) (m : Items T) (e : _)
      → is_idle now ttl e ≡ false
      → idle_option now ttl (lookup j m) ≡ false
      → idle_option now ttl (lookup j ((k, e) ∷ m)) ≡ false
  unfolding lookup
  live-cons k j m e h l = ground (arith, h, l)

  cleanup_loop-far :
      (cleaned : ℕ) (m : Items T) (c : ℤ)
      → IsLive (cleanup_loop now ttl cleaned m c).0
        ⊎ (length (cleanup_loop now ttl cleaned m c).0 + 16 ≤ length m + cleaned)
  unfolding cleanup_loop lookup
  cleanup_loop-far cleaned [] c = inl (λ j. refl)
  cleanup_loop-far cleaned ((k, e) ∷ m) c = elim (Bool-cases (leb cleanup_limit cleaned)) [
    | inl a ↦ rw (a, cleanup_loop) (inr (ground (arith, a)))
    | inr a ↦ elim (Bool-cases (is_idle now ttl e)) [
      | inl b ↦
          rw (a, b, cleanup_loop)
            (elim (cleanup_loop-far (suc cleaned) m (add64 c (negsuc 0))) [
              | inl h ↦ inl h
              | inr h ↦ inr (omega (arith, h))
            ])
      | inr b ↦
          rw (a, b, cleanup_loop)
            (elim (cleanup_loop-far cleaned m c) [
              | inl h ↦ inl (λ j. live-cons k j _ e b (h j))
              | inr h ↦ inr (omega (arith, h))
            ])
    ]
  ]

  cleanup_loop-length :
      (cleaned : ℕ) (m : Items T) (c : ℤ) → length (cleanup_loop now ttl cleaned m c).0 ≤ length m
  unfolding cleanup_loop
  cleanup_loop-length cleaned [] c = omega arith
  cleanup_loop-length cleaned ((k, e) ∷ m) c = ground (
    arith,
    cleanup_loop-length (suc cleaned) m (add64 c (negsuc 0)),
    cleanup_loop-length cleaned m c,
  )

  module _ (order : Items T → Items T) (range : IsRange order) where
    cleanup_locked-Less :
        (m : Items T) (c : ℤ) → Unique m → Less m (cleanup_locked order now ttl m c).0
    unfolding cleanup_locked
    cleanup_locked-Less m c u = (
      ground (arith, range.count m, cleanup_loop-length 0 (order m) c),
      λ j. cleanup_locked-Kept now ttl order range m c j u,
    )

    cleanup_locked-Swept :
        (m : Items T) (c : ℤ)
        → leb_ℤ ttl (pos 0) ≡ false
        → Swept m (cleanup_locked order now ttl m c).0
    unfolding cleanup_locked
    cleanup_locked-Swept m c h =
        rw (h, cleanup_locked)
          (elim (cleanup_loop-far 0 (order m) c) [
            | inl k ↦ inl k
            | inr k ↦ inr (omega (arith, k, range.count m))
          ])

    set_shard-Less :
        (i k : ℕ) (m : Items T) (ms : List (Items T))
        → i < length ms
        → Less (nth_shard i ms) m
        → Less (nth_shard k ms) (nth_shard k (set_shard i m ms))
    set_shard-Less i k m ms b h = elim (ℕ_discrete i k) [
      | yes e ↦ rw (← e) (rw (nth_shard-set_self i m ms b) h)
      | no n ↦ rw (nth_shard-set_ne i k m ms n) (omega arith, λ j. inl refl)
    ]

    sweep-Swept :
        (ms : List (Items T)) (c : ℤ) (i : ℕ)
        → leb_ℤ ttl (pos 0) ≡ false
        → Swept (nth_shard i ms) (nth_shard i (sweep order now ttl ms c).0)
    unfolding sweep nth_shard lookup
    sweep-Swept [] c i h = inl (λ j. refl)
    sweep-Swept (m ∷ ms) c zero h = cleanup_locked-Swept m c h
    sweep-Swept (m ∷ ms) c (suc i) h = sweep-Swept ms (cleanup_locked order now ttl m c).1 i h

module _ {ℓ} {T : Type ℓ} (now : Time) where
  -- Every shard of `t` has been swept on the way from `s`, unless the limit on idleness is switched off.
  abbrev pub AllSwept : Store T → Store T → Type 0
  AllSwept s t =
      (leb_ℤ s.idle_ttl (pos 0) ≡ true)
      ⊎ ((i : ℕ) → Swept now s.idle_ttl (nth_shard i s.shards) (nth_shard i t.shards))

  module _ (order : Items T → Items T) (range : IsRange order) where
    cleanup_shard-Less :
        (i k : ℕ) (s : Store T)
        → IsValid s
        → i < length s.shards
        → Less now s.idle_ttl
            (nth_shard k s.shards)
            (nth_shard k (cleanup_shard order now i s).shards)
    unfolding cleanup_shard
    cleanup_shard-Less i k s v b = set_shard-Less now s.idle_ttl order range i k _ s.shards b (
        cleanup_locked-Less now s.idle_ttl order range (nth_shard i s.shards) s.count
          (nth_shard-Unique i s.shards v.unique))

    -- Cleaning a shard before a sweep, or behind it, leaves the shards swept.
    pub cleanup_shard-before :
        (i : ℕ) (s t : Store T)
        → IsValid s
        → i < length s.shards
        → AllSwept (cleanup_shard order now i s) t
        → AllSwept s t
    unfolding cleanup_shard
    cleanup_shard-before i s t v b (inl h) = inl h
    cleanup_shard-before i s t v b (inr h) =
        inr (λ k. Less-Swept now s.idle_ttl _ _ _ (cleanup_shard-Less i k s v b) (h k))

    pub cleanup_shard-behind :
        (i : ℕ) (s t : Store T)
        → IsValid t
        → i < length t.shards
        → t.idle_ttl ≡ s.idle_ttl
        → AllSwept s t
        → AllSwept s (cleanup_shard order now i t)
    cleanup_shard-behind i s t v b e (inl h) = inl h
    cleanup_shard-behind i s t v b e (inr h) = inr (λ k. Swept-Less now s.idle_ttl _ _ _ (h k) (
        subst
          (λ d.
            Less now d (nth_shard k t.shards) (nth_shard k (cleanup_shard order now i t).shards))
          e (cleanup_shard-Less i k t v b)))

    cleanup_expired-AllSwept : (s : Store T) → AllSwept s (cleanup_expired order now s)
    unfolding cleanup_expired
    cleanup_expired-AllSwept s = elim (Bool-cases (leb_ℤ s.idle_ttl (pos 0))) [
      | inl e ↦ inl e
      | inr e ↦ inr (λ i. sweep-Swept now s.idle_ttl order range s.shards s.count i e)
    ]

    -- A store that is still full when room has been made is swept.
    pub make_room-AllSwept :
        (s : Store T) → is_full (make_room order s now) ≡ true → AllSwept s (make_room order s now)
    unfolding make_room
    make_room-AllSwept s h = elim (Bool-cases (is_full s)) [
      | inl e ↦ rw e (cleanup_expired-AllSwept s)
      | inr e ↦ ground (arith, e, h)
    ]

-- A store without some entries of a store with room has room.
pub Shrinks-is_full {ℓ} :
    {T : Type ℓ} (now : Time) (s t : Store T)
    → IsValid s
    → Shrinks now s t
    → is_full t ≡ true
    → is_full s ≡ true
unfolding is_full
Shrinks-is_full now s t v h f = ground (arith, v.counted, h.valid.counted, h.smaller, h.same_max, f)
