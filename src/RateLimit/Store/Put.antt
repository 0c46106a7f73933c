-- ===== src/RateLimit/Store/Put.antt =====
-- Writing and removing the entry of one key of sharded_state.go's store.
use agent_cortex.Prelude.{
  suc, ◌-◌, ◌^◌, ◌<◌, ◌≡◌, refl, ap, ◌∙◌, Bytes, bytes_eq, bytes_eq_iff, none, some, true, false,
  if◌then◌else◌, is_some, ◌+◌, length, arith, Option-cases, inl, inr,
}
use native.Mathlib.Decide.{ℕ_discrete}
use agent_cortex.RateLimit.Store.{
  Entry, Items, Store, lookup, insert, delete, find, put, remove, reset, shard_for, nth_shard,
  set_shard,
}
use agent_cortex.RateLimit.Store.Map.{
  lookup-insert, insert-Unique, length-insert_new, length-insert_old, lookup-delete_ne,
  lookup-delete_self, delete-Unique, length-delete,
}
use agent_cortex.RateLimit.Store.Shards.{
  size, AllUnique, nth_shard-set_self, nth_shard-set_ne, length-set_shard, size-set_shard,
  nth_shard-Unique, set_shard-AllUnique, shard_for_lt, shard_for-length, length-nth_shard-le,
}
use agent_cortex.RateLimit.Store.Cleanup.{add64_down}
use agent_cortex.RateLimit.Store.Access.{IsValid}

module _ {ℓ} {T : Type ℓ} (s : Store T) (v : IsValid s) (key : Bytes) where
  in_range : shard_for s key < length s.shards
  in_range = shard_for_lt s key v.some_shards v.few_shards

  eq_of_same_key : (j : Bytes) → bytes_eq key j ≡ true → shard_for s key ≡ shard_for s j
  eq_of_same_key j h = ap (shard_for s) ((bytes_eq_iff key j).0 h)

  -- A write to the shard of a key, read at any key.
  lookup-set_shard :
      (m : Items T) (j : Bytes)
      → (bytes_eq key j ≡ false → lookup j m ≡ lookup j (nth_shard (shard_for s key) s.shards))
      → lookup j (nth_shard (shard_for s j) (set_shard (shard_for s key) m s.shards))
        ≡ (if bytes_eq key j then lookup j m else find j s)
  unfolding find
  lookup-set_shard m j h = elim (ℕ_discrete (shard_for s key) (shard_for s j)) [
    | yes e ↦
        rw (← e) (rw (nth_shard-set_self (shard_for s key) m s.shards in_range) (ground (arith, h)))
    | no n ↦
        rw (nth_shard-set_ne (shard_for s key) (shard_for s j) m s.shards n)
          (ground (arith, eq_of_same_key j, n))
  ]

  pub find-put :
      (e : Entry T) (j : Bytes)
      → find j (put key e s) ≡ (if bytes_eq key j then some e else find j s)
  unfolding find put
  find-put e j =
      let m = nth_shard (shard_for s key) s.shards in
      rw
        (shard_for-length s (put key e s) j
          (length-set_shard (shard_for s key) (insert key e m) s.shards))
        (lookup-set_shard (insert key e m) j (λ h. ground (arith, lookup-insert key j e m))
          ∙ ground (arith, lookup-insert key j e m))

  -- A new key adds one entry, and a known one none.
  pub size-put_new :
      (e : Entry T) → find key s ≡ none → size (put key e s).shards ≡ suc (size s.shards)
  unfolding find put
  size-put_new e h =
      let m = nth_shard (shard_for s key) s.shards in
      omega (
        arith,
        length-insert_new key e m h,
        size-set_shard (shard_for s key) (insert key e m) s.shards in_range,
      )

  pub size-put_old :
      (e d : Entry T) → find key s ≡ some d → size (put key e s).shards ≡ size s.shards
  unfolding find put
  size-put_old e d h =
      let m = nth_shard (shard_for s key) s.shards in
      omega (
        arith,
        length-insert_old key e d m h,
        size-set_shard (shard_for s key) (insert key e m) s.shards in_range,
      )

  pub length-put : (e : Entry T) → length (put key e s).shards ≡ length s.shards
  unfolding put
  length-put e = length-set_shard (shard_for s key) _ s.shards

  pub put-AllUnique : (e : Entry T) → AllUnique (put key e s).shards
  unfolding put
  put-AllUnique e =
      set_shard-AllUnique (shard_for s key) _ s.shards
        (insert-Unique key e _ (nth_shard-Unique (shard_for s key) s.shards v.unique)) v.unique

  find-remove : (j : Bytes) → find j (remove key s) ≡ (if bytes_eq key j then none else find j s)
  unfolding find remove
  find-remove j =
      let m = nth_shard (shard_for s key) s.shards in
      rw
        (shard_for-length s (remove key s) j
          (length-set_shard (shard_for s key) (delete key m) s.shards))
        (lookup-set_shard (delete key m) j (lookup-delete_ne key j m)
          ∙ ground (
            arith,
            bytes_eq_iff key j,
            lookup-delete_self key m (nth_shard-Unique (shard_for s key) s.shards v.unique),
          ))

  remove-IsValid :
      (d : Entry T)
      → find key s ≡ some d
      → size s.shards < 2 ^ 63
      → IsValid (remove key s) × (suc (size (remove key s).shards) ≡ size s.shards)
  unfolding find remove
  remove-IsValid d e h =
      let i = shard_for s key in
      let m = nth_shard i s.shards in
      ground (
        arith,
        length-delete key d m e,
        length-nth_shard-le i s.shards,
        size-set_shard i (delete key m) s.shards in_range,
        length-set_shard i (delete key m) s.shards,
        add64_down (size s.shards - 1),
        set_shard-AllUnique i (delete key m) s.shards
            (delete-Unique key m (nth_shard-Unique i s.shards v.unique)) v.unique,
      )

  -- `Reset` on a well-formed store forgets exactly the given key, says whether it was there, takes one
  -- entry away if it was, and keeps the store well formed.
  pub reset_exact :
      size s.shards < 2 ^ 63
      → IsValid (reset s key).0
        × ((j : Bytes) → find j (reset s key).0 ≡ (if bytes_eq key j then none else find j s))
        × ((reset s key).1 ≡ is_some (find key s))
        × (size (reset s key).0.shards + (if (reset s key).1 then 1 else 0) ≡ size s.shards)
  unfolding reset
  reset_exact h = elim (Option-cases (find key s)) [
    | inl e ↦ rw (e, reset) (v, λ j. ground (arith, bytes_eq_iff key j), refl, omega arith)
    | inr (d, e) ↦
        rw (e, reset)
          ((remove-IsValid d e h).0, find-remove, refl, omega (arith, (remove-IsValid d e h).1))
  ]
