-- ===== src/RateLimit/Store/Shards.antt =====
-- The slice of shards of sharded_state.go: reads, writes and the number of entries.
use agent_cortex.Prelude.{
  ℕ, zero, suc, ◌+◌, ◌^◌, ◌≤◌, ◌<◌, ◌≡◌, refl, ap, ◌≢◌, Bytes, List, [], ◌∷◌, length, arith,
  replicate,
}
use agent_cortex.RateLimit.Store.{Items, Store, nth_shard, set_shard, shard_for}
use agent_cortex.RateLimit.Store.Map.{Unique}

module _ {ℓ} {T : Type ℓ} where
  -- The number of entries of all shards.
  abbrev pub size : List (Items T) → ℕ
  size [] = 0
  size (m ∷ ms) = length m + size ms

  abbrev pub AllUnique : List (Items T) → Type ℓ
  AllUnique [] = Unit
  AllUnique (m ∷ ms) = Unique m × AllUnique ms

  pub nth_shard-set_self :
      (i : ℕ) (m : Items T) (ms : List (Items T))
      → i < length ms
      → nth_shard i (set_shard i m ms) ≡ m
  unfolding nth_shard set_shard
  nth_shard-set_self i m [] h = elim h [ ]
  nth_shard-set_self zero m (n ∷ ms) h = refl
  nth_shard-set_self (suc i) m (n ∷ ms) h = nth_shard-set_self i m ms (omega arith)

  pub nth_shard-set_ne :
      (i j : ℕ) (m : Items T) (ms : List (Items T))
      → i ≢ j
      → nth_shard j (set_shard i m ms) ≡ nth_shard j ms
  unfolding nth_shard set_shard
  nth_shard-set_ne i j m [] h = refl
  nth_shard-set_ne zero zero m (n ∷ ms) h = absurd (h refl)
  nth_shard-set_ne zero (suc j) m (n ∷ ms) h = refl
  nth_shard-set_ne (suc i) zero m (n ∷ ms) h = refl
  nth_shard-set_ne (suc i) (suc j) m (n ∷ ms) h = nth_shard-set_ne i j m ms (λ e. h (ap suc e))

  pub length-set_shard :
      (i : ℕ) (m : Items T) (ms : List (Items T)) → length (set_shard i m ms) ≡ length ms
  unfolding set_shard
  length-set_shard i m [] = refl
  length-set_shard zero m (n ∷ ms) = refl
  length-set_shard (suc i) m (n ∷ ms) = ap suc (length-set_shard i m ms)

  pub size-set_shard :
      (i : ℕ) (m : Items T) (ms : List (Items T))
      → i < length ms
      → size (set_shard i m ms) + length (nth_shard i ms) ≡ size ms + length m
  unfolding nth_shard set_shard
  size-set_shard i m [] h = elim h [ ]
  size-set_shard zero m (n ∷ ms) h = omega arith
  size-set_shard (suc i) m (n ∷ ms) h = omega (arith, size-set_shard i m ms (omega arith))

  pub nth_shard-Unique : (i : ℕ) (ms : List (Items T)) → AllUnique ms → Unique (nth_shard i ms)
  unfolding nth_shard
  nth_shard-Unique i [] u = tt
  nth_shard-Unique zero (m ∷ ms) u = u.0
  nth_shard-Unique (suc i) (m ∷ ms) u = nth_shard-Unique i ms u.1

  pub set_shard-AllUnique :
      (i : ℕ) (m : Items T) (ms : List (Items T))
      → Unique m
      → AllUnique ms
      → AllUnique (set_shard i m ms)
  unfolding set_shard
  set_shard-AllUnique i m [] v u = tt
  set_shard-AllUnique zero m (n ∷ ms) v u = (v, u.1)
  set_shard-AllUnique (suc i) m (n ∷ ms) v u = (u.0, set_shard-AllUnique i m ms v u.1)

  pub shard_for_lt :
      (s : Store T) (key : Bytes)
      → 0 < length s.shards
      → length s.shards < 2 ^ 32
      → shard_for s key < length s.shards
  unfolding shard_for
  shard_for_lt s key p q = grind arith

  pub shard_for-length :
      (s t : Store T) (key : Bytes)
      → length t.shards ≡ length s.shards
      → shard_for t key ≡ shard_for s key
  unfolding shard_for
  shard_for-length s t key e = rw e

  pub length-nth_shard-le : (i : ℕ) (ms : List (Items T)) → length (nth_shard i ms) ≤ size ms
  unfolding nth_shard
  length-nth_shard-le i [] = omega arith
  length-nth_shard-le zero (m ∷ ms) = omega arith
  length-nth_shard-le (suc i) (m ∷ ms) = omega (arith, length-nth_shard-le i ms)

-- A store without entries.
pub size-replicate {ℓ} : (T : Type ℓ) (n : ℕ) → size {T = T} (replicate n []) ≡ 0
size-replicate T zero = refl
size-replicate T (suc n) = omega (arith, size-replicate T n)

pub replicate-AllUnique {ℓ} : (T : Type ℓ) (n : ℕ) → AllUnique {T = T} (replicate n [])
replicate-AllUnique T zero = tt
replicate-AllUnique T (suc n) = (tt, replicate-AllUnique T n)
