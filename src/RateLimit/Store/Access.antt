-- ===== src/RateLimit/Store/Access.antt =====
-- Cleaning a shard, or all of them, only drops idle entries, and keeps the store well formed.
use agent_cortex.Prelude.{
  ℕ, zero, suc, ◌+◌, ◌^◌, ◌≤◌, ◌<◌, ◌≡◌, refl, ap, ◌∙◌, ◌-◌, inl, inr, Bytes, List, [], ◌∷◌, length,
  arith, Bool-cases,
}
use native.Mathlib.Decide.{ℕ_discrete}
use agent_cortex.Prelude.Int.{ℤ, pos}
use agent_cortex.RateLimit.Types.{Time, Duration}
use agent_cortex.RateLimit.Store.{
  Items, Store, lookup, cleanup_locked, cleanup_shard, sweep, cleanup_expired, find, is_full,
  make_room, shard_for, nth_shard, set_shard,
}
use agent_cortex.RateLimit.Store.Shards.{
  size, AllUnique, nth_shard-set_self, nth_shard-set_ne, length-set_shard, size-set_shard,
  nth_shard-Unique, set_shard-AllUnique, shard_for-length, length-nth_shard-le,
}
use agent_cortex.RateLimit.Store.Cleanup.{
  IsRange, Kept, Kept-trans, cleanup_locked-Kept, cleanup_locked-Unique, cleanup_locked-count,
}

-- The counter is the number of entries, and no key stands twice.
pub record IsValid {ℓ} {T : Type ℓ} (s : Store T) : Type ℓ where
  pub some_shards : 0 < length s.shards
  pub few_shards : length s.shards < 2 ^ 32
  pub unique : AllUnique s.shards
  pub counted : s.count ≡ pos (size s.shards)

-- `t` is `s` without some entries that have been idle for too long.
pub record Shrinks {ℓ} {T : Type ℓ} (now : Time) (s t : Store T) : Type ℓ where
  pub valid : IsValid t
  pub smaller : size t.shards ≤ size s.shards
  pub kept : (j : Bytes) → Kept now s.idle_ttl (find j s) (find j t)
  pub same_length : length t.shards ≡ length s.shards
  pub same_ttl : t.idle_ttl ≡ s.idle_ttl
  pub same_max : t.max_keys ≡ s.max_keys
  pub same_policy : t.state_full_policy ≡ s.state_full_policy

module _ {ℓ} {T : Type ℓ} (now : Time) where
  pub Shrinks-refl : (s : Store T) → IsValid s → Shrinks now s s
  Shrinks-refl s v = record {
    valid = v;
    smaller = omega arith;
    kept = λ j. inl refl;
    same_length = refl;
    same_ttl = refl;
    same_max = refl;
    same_policy = refl;
  }

  pub Shrinks-trans : (s t u : Store T) → Shrinks now s t → Shrinks now t u → Shrinks now s u
  unfolding find shard_for
  Shrinks-trans s t u p q = record {
    valid = q.valid;
    smaller = omega arith;
    kept = λ j.
        Kept-trans now s.idle_ttl (find j s) (find j t) (find j u) (p.kept j)
          (rw p.same_ttl at (q.kept j));
    same_length = q.same_length ∙ p.same_length;
    same_ttl = q.same_ttl ∙ p.same_ttl;
    same_max = q.same_max ∙ p.same_max;
    same_policy = q.same_policy ∙ p.same_policy;
  }

  set_shard-Kept :
      (ttl : Duration) (i k : ℕ) (j : Bytes) (m : Items T) (ms : List (Items T))
      → i < length ms
      → Kept now ttl (lookup j (nth_shard i ms)) (lookup j m)
      → Kept now ttl (lookup j (nth_shard k ms)) (lookup j (nth_shard k (set_shard i m ms)))
  set_shard-Kept ttl i k j m ms b h = elim (ℕ_discrete i k) [
    | yes e ↦ rw (← e) (rw (nth_shard-set_self i m ms b) h)
    | no n ↦ inl (ap (lookup j) (nth_shard-set_ne i k m ms n))
  ]

  module _ (order : Items T → Items T) (range : IsRange order) where
    cleanup_shard-IsValid :
        (i : ℕ) (s : Store T)
        → IsValid s
        → size s.shards < 2 ^ 63
        → i < length s.shards
        → IsValid (cleanup_shard order now i s)
          × (size (cleanup_shard order now i s).shards ≤ size s.shards)
    unfolding cleanup_shard
    cleanup_shard-IsValid i s v h b =
        let m = nth_shard i s.shards in
        let m' = (cleanup_locked order now s.idle_ttl m s.count).0 in
        ground (
          arith,
          length-nth_shard-le i s.shards,
          length-set_shard i m' s.shards,
          size-set_shard i m' s.shards,
          set_shard-AllUnique i m' s.shards
              (cleanup_locked-Unique now s.idle_ttl order range m s.count
                (nth_shard-Unique i s.shards v.unique))
              v.unique,
          cleanup_locked-count now s.idle_ttl order range m (size s.shards - length m) s.count,
        )

    cleanup_shard-find :
        (i : ℕ) (s : Store T) (j : Bytes)
        → IsValid s
        → i < length s.shards
        → Kept now s.idle_ttl (find j s) (find j (cleanup_shard order now i s))
    unfolding cleanup_shard find
    cleanup_shard-find i s j v b =
        let m = nth_shard i s.shards in
        let m' = (cleanup_locked order now s.idle_ttl m s.count).0 in
        rw (shard_for-length s (cleanup_shard order now i s) j (length-set_shard i m' s.shards)) (
          set_shard-Kept s.idle_ttl i (shard_for s j) j m' s.shards b (
            cleanup_locked-Kept now s.idle_ttl order range m s.count j
              (nth_shard-Unique i s.shards v.unique)))

    pub cleanup_shard-Shrinks :
        (i : ℕ) (s : Store T)
        → IsValid s
        → size s.shards < 2 ^ 63
        → i < length s.shards
        → Shrinks now s (cleanup_shard order now i s)
    unfolding cleanup_shard
    cleanup_shard-Shrinks i s v h b = record {
      valid = (cleanup_shard-IsValid i s v h b).0;
      smaller = (cleanup_shard-IsValid i s v h b).1;
      kept = λ j. cleanup_shard-find i s j v b;
      same_length = length-set_shard i _ s.shards;
      same_ttl = refl;
      same_max = refl;
      same_policy = refl;
    }

    sweep-count :
        (ttl : Duration) (ms : List (Items T)) (k : ℕ) (c : ℤ)
        → c ≡ pos (k + size ms)
        → k + size ms < 2 ^ 63
        → ((sweep order now ttl ms c).1 ≡ pos (k + size (sweep order now ttl ms c).0))
          × (size (sweep order now ttl ms c).0 ≤ size ms)
          × (length (sweep order now ttl ms c).0 ≡ length ms)
    unfolding sweep
    sweep-count ttl [] k c e h = ground arith
    sweep-count ttl (m ∷ ms) k c e h =
        let r = cleanup_locked order now ttl m c in
        ground (
          arith,
          cleanup_locked-count now ttl order range m (k + size ms) c,
          sweep-count ttl ms (k + length r.0) r.1,
        )

    sweep-AllUnique :
        (ttl : Duration) (ms : List (Items T)) (c : ℤ)
        → AllUnique ms
        → AllUnique (sweep order now ttl ms c).0
    unfolding sweep
    sweep-AllUnique ttl [] c u = tt
    sweep-AllUnique ttl (m ∷ ms) c u =
        (cleanup_locked-Unique now ttl order range m c u.0, sweep-AllUnique ttl ms _ u.1)

    sweep-Kept :
        (ttl : Duration) (ms : List (Items T)) (c : ℤ) (i : ℕ) (j : Bytes)
        → AllUnique ms
        → Kept now ttl
            (lookup j (nth_shard i ms))
            (lookup j (nth_shard i (sweep order now ttl ms c).0))
    unfolding sweep nth_shard
    sweep-Kept ttl [] c i j u = inl refl
    sweep-Kept ttl (m ∷ ms) c zero j u = cleanup_locked-Kept now ttl order range m c j u.0
    sweep-Kept ttl (m ∷ ms) c (suc i) j u =
        sweep-Kept ttl ms (cleanup_locked order now ttl m c).1 i j u.1

    cleanup_expired-Shrinks :
        (s : Store T)
        → IsValid s
        → size s.shards < 2 ^ 63
        → Shrinks now s (cleanup_expired order now s)
    unfolding cleanup_expired find shard_for
    cleanup_expired-Shrinks s v h =
        let (c, l, e) = sweep-count s.idle_ttl s.shards 0 s.count (ground arith) (omega arith) in
        record {
          valid = record {
            some_shards = omega arith;
            few_shards = omega arith;
            unique = sweep-AllUnique s.idle_ttl s.shards s.count v.unique;
            counted = ground arith;
          };
          smaller = l;
          kept = λ j.
              rw (shard_for-length s (cleanup_expired order now s) j e)
                (sweep-Kept s.idle_ttl s.shards s.count (shard_for s j) j v.unique);
          same_length = e;
          same_ttl = refl;
          same_max = refl;
          same_policy = refl;
        }

    pub make_room-Shrinks :
        (s : Store T) → IsValid s → size s.shards < 2 ^ 63 → Shrinks now s (make_room order s now)
    unfolding make_room
    make_room-Shrinks s v h = elim (Bool-cases (is_full s)) [
      | inl e ↦ rw e (cleanup_expired-Shrinks s v h)
      | inr e ↦ rw e (Shrinks-refl s v)
    ]
