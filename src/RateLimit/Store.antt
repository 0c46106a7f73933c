-- ===== src/RateLimit/Store.antt =====
-- pkg/ratelimit/sharded_state.go: per-key states in shards, each a map behind a mutex.
-- A call is modelled with no other goroutine in between. Go visits a map in any order, so an
-- operation that ranges over a map takes the order as an argument.
pub mod Map
pub mod Shards
pub mod Cleanup
pub mod Access
pub mod Put
pub mod Swept
pub mod Visit
pub mod Guarantees
pub mod Served
use Prim.Native.Nat.{bit_xor}
use agent_cortex.Prelude.{
  ℕ, zero, suc, ◌*◌, ◌%◌, ◌^◌, Bool, true, false, ◌&&◌, Bytes, bytes_eq, List, [], ◌∷◌, Option,
  none, some, if◌then◌else◌, leb, length, replicate,
}
use agent_cortex.Prelude.Int.{ℤ, pos, negsuc, pos_part, ltb_ℤ, leb_ℤ, add64}
use agent_cortex.RateLimit.Types.{
  Time, Duration, Config, empty_decision, limit_state_full, Outcome, StateFullPolicy,
  reject_new_key, allow_new_key, sub_time, normalize_shards, normalize_idle_ttl,
}

abbrev pub cleanup_limit : ℕ
cleanup_limit = 16

pub record Entry {ℓ} (T : Type ℓ) : Type ℓ where
  pub value : T
  pub last_seen : Time

-- The orders in which one call of `WithEntry` visits the maps that it ranges over.
pub record Orders {ℓ} (T : Type ℓ) : Type ℓ where
  pub first : List (Bytes × Entry T) → List (Bytes × Entry T)
  pub all : List (Bytes × Entry T) → List (Bytes × Entry T)
  pub second : List (Bytes × Entry T) → List (Bytes × Entry T)

-- A Go map from keys to entries.
abbrev pub Items {ℓ} : Type ℓ → Type ℓ
Items T = List (Bytes × Entry T)

-- `shardedState`: a shard is its map.
pub record Store {ℓ} (T : Type ℓ) : Type ℓ where
  pub shards : List (Items T)
  pub idle_ttl : Duration
  pub max_keys : ℤ
  pub state_full_policy : StateFullPolicy
  pub count : ℤ

-- FNV-1a over 32 bits, as hash/fnv defines it.
hash_bytes : ℕ → Bytes → ℕ
hash_bytes h [] = h
hash_bytes h (b ∷ bs) = hash_bytes (bit_xor h b * 16777619 % 2 ^ 32) bs

unfoldable pub hash_key : Bytes → ℕ
unfolding hash_bytes
hash_key key = hash_bytes 2166136261 key

module _ {ℓ} {T : Type ℓ} where
  unfoldable pub lookup : Bytes → Items T → Option (Entry T)
  lookup k [] = none
  lookup k ((j, e) ∷ m) = if bytes_eq j k then some e else lookup k m

  unfoldable pub insert : Bytes → Entry T → Items T → Items T
  insert k e [] = (k, e) ∷ []
  insert k e ((j, d) ∷ m) = if bytes_eq j k then (j, e) ∷ m else (j, d) ∷ insert k e m

  unfoldable pub delete : Bytes → Items T → Items T
  delete k [] = []
  delete k ((j, d) ∷ m) = if bytes_eq j k then m else (j, d) ∷ delete k m

  unfoldable pub nth_shard : ℕ → List (Items T) → Items T
  nth_shard i [] = []
  nth_shard zero (m ∷ ms) = m
  nth_shard (suc i) (m ∷ ms) = nth_shard i ms

  unfoldable pub set_shard : ℕ → Items T → List (Items T) → List (Items T)
  set_shard i m [] = []
  set_shard zero m (n ∷ ms) = m ∷ ms
  set_shard (suc i) m (n ∷ ms) = n ∷ set_shard i m ms

  unfoldable pub new_sharded_state : Config → Duration → Store T
  new_sharded_state config window = record {
    shards = replicate (pos_part (normalize_shards config.shards)) [];
    idle_ttl = normalize_idle_ttl config.idle_ttl window;
    max_keys = config.max_keys;
    state_full_policy = config.state_full_policy;
    count = pos 0;
  }

  -- `hashKey(key) % uint32(len(s.shards))`
  unfoldable pub shard_for : Store T → Bytes → ℕ
  shard_for s key = hash_key key % (length s.shards % 2 ^ 32)

  unfoldable pub is_idle : Time → Duration → Entry T → Bool
  is_idle now idle_ttl e = ltb_ℤ idle_ttl (sub_time now e.last_seen)

  -- The loop of `cleanupLocked`, over the entries in the order of the visit.
  unfoldable pub cleanup_loop : Time → Duration → ℕ → Items T → ℤ → Items T × ℤ
  cleanup_loop now idle_ttl cleaned [] count = ([], count)
  cleanup_loop now idle_ttl cleaned ((k, e) ∷ rest) count =
      if leb cleanup_limit cleaned then ((k, e) ∷ rest, count) else elim (is_idle now idle_ttl e) [
        | true ↦ cleanup_loop now idle_ttl (suc cleaned) rest (add64 count (negsuc 0))
        | false ↦ let r = cleanup_loop now idle_ttl cleaned rest count in ((k, e) ∷ r.0, r.1)
      ]

  unfoldable pub cleanup_locked : (Items T → Items T) → Time → Duration → Items T → ℤ → Items T × ℤ
  cleanup_locked order now idle_ttl items count =
      if leb_ℤ idle_ttl (pos 0)
      then (items, count)
      else cleanup_loop now idle_ttl 0 (order items) count

  -- `cleanupLocked` on one shard of the store.
  unfoldable pub cleanup_shard : (Items T → Items T) → Time → ℕ → Store T → Store T
  cleanup_shard order now i s =
      let r = cleanup_locked order now s.idle_ttl (nth_shard i s.shards) s.count in
      record s { shards = set_shard i r.0 s.shards; count = r.1 }

  -- The loop of `cleanupExpired`, which returns the shards and the count.
  unfoldable pub sweep :
      (Items T → Items T) → Time → Duration → List (Items T) → ℤ → List (Items T) × ℤ
  sweep order now idle_ttl [] count = ([], count)
  sweep order now idle_ttl (m ∷ ms) count =
      let r = cleanup_locked order now idle_ttl m count in
      let q = sweep order now idle_ttl ms r.1 in (r.0 ∷ q.0, q.1)

  unfoldable pub cleanup_expired : (Items T → Items T) → Time → Store T → Store T
  cleanup_expired order now s =
      let q = sweep order now s.idle_ttl s.shards s.count in record s { shards = q.0; count = q.1 }

  -- `s.maxKeys > 0 && int(s.count.Load()) >= s.maxKeys`
  unfoldable pub is_full : Store T → Bool
  is_full s = ltb_ℤ (pos 0) s.max_keys && leb_ℤ s.max_keys s.count

  unfoldable pub put : Bytes → Entry T → Store T → Store T
  put key e s =
      let i = shard_for s key in
      record s { shards = set_shard i (insert key e (nth_shard i s.shards)) s.shards }

  unfoldable pub find : Bytes → Store T → Option (Entry T)
  find key s = lookup key (nth_shard (shard_for s key) s.shards)

  -- Sets `lastSeen`, and keeps what `use` makes of the value.
  unfoldable pub use_entry :
      Store T → Bytes → Time → (T → Bool → T × Outcome) → T → Bool → Store T × Outcome
  use_entry s key now action v ephemeral =
      let r = action v ephemeral in (put key (record { value = r.0; last_seen = now }) s, r.1)

  -- What `WithEntry` does for a key that its shard still lacks after the second cleanup.
  unfoldable pub add_entry :
      Store T → Bytes → Time → (Time → T) → (T → Bool → T × Outcome) → Store T × Outcome
  add_entry s key now create action =
      if is_full s
      then elim s.state_full_policy [
        | allow_new_key ↦ (s, (action (create now) true).1)
        | reject_new_key ↦ (s, (empty_decision, some limit_state_full))
      ]
      else use_entry (record s { count = add64 s.count (pos 1) }) key now action (create now) true

  unfoldable pub make_room : (Items T → Items T) → Store T → Time → Store T
  make_room order s now = if is_full s then cleanup_expired order now s else s

  -- From the second `shard.mu.Lock()` on.
  unfoldable pub second_visit :
      (Items T → Items T)
      → Store T
      → Bytes
      → Time
      → (Time → T)
      → (T → Bool → T × Outcome)
      → Store T × Outcome
  second_visit order s key now create action =
      let s' = cleanup_shard order now (shard_for s key) s in
      elim (find key s') [
        | some e ↦ use_entry s' key now action e.value false
        | none ↦ add_entry s' key now create action
      ]

  unfoldable pub with_entry :
      Orders T → Store T → Bytes → Time → (Time → T) → (T → Bool → T × Outcome) → Store T × Outcome
  with_entry o s key now create action =
      let s' = cleanup_shard o.first now (shard_for s key) s in
      elim (find key s') [
        | some e ↦ use_entry s' key now action e.value false
        | none ↦ second_visit o.second (make_room o.all s' now) key now create action
      ]

  unfoldable pub remove : Bytes → Store T → Store T
  remove key s =
      let i = shard_for s key in
      record s {
        shards = set_shard i (delete key (nth_shard i s.shards)) s.shards;
        count = add64 s.count (negsuc 0);
      }

  unfoldable pub reset : Store T → Bytes → Store T × Bool
  reset s key = elim (find key s) [ none ↦ (s, false) | some e ↦ (remove key s, true) ]

  unfoldable pub active_keys : Store T → ℤ
  active_keys s = s.count
