-- ===== src/RateLimit/Store/Guarantees.antt =====
-- What `WithEntry` of sharded_state.go guarantees, on every way in which a call can end.
use agent_cortex.Prelude.{
  ℕ, suc, ◌^◌, ◌≤◌, ◌<◌, ◌≡◌, refl, ◌∙◌, Bool, Bytes, bytes_eq, bytes_eq_self, none, some, true,
  false, if◌then◌else◌, length-replicate, arith,
}
use mathlib.Core.List.{[]}
use agent_cortex.Prelude.Int.{pos, pos_part}
use agent_cortex.RateLimit.Types.{Time, Outcome, Config, Duration, normalize_shards}
use agent_cortex.RateLimit.Store.{
  Entry, Items, Store, Orders, find, put, is_full, is_idle, use_entry, with_entry,
  new_sharded_state, shard_for,
}
use agent_cortex.RateLimit.Store.Shards.{size, size-replicate, replicate-AllUnique}
use agent_cortex.RateLimit.Store.Cleanup.{Kept, add64_up}
use agent_cortex.RateLimit.Store.Access.{IsValid, Shrinks}
use agent_cortex.RateLimit.Store.Put.{
  find-put, size-put_new, size-put_old, length-put, put-AllUnique,
}
use agent_cortex.RateLimit.Store.Visit.{
  Visit, hit, added, passed, refused, IsRanges, with_entry-Visit, counted_up,
}

module _ {ℓ} {T : Type ℓ} (key : Bytes) (now : Time) (action : T → Bool → T × Outcome) where
  use_entry-IsValid_old :
      (t : Store T) (e : Entry T) (b : Bool)
      → IsValid t
      → find key t ≡ some e
      → IsValid (use_entry t key now action e.value b).0
        × (size (use_entry t key now action e.value b).0.shards ≡ size t.shards)
  unfolding use_entry put
  use_entry-IsValid_old t e b v h =
      let d : Entry T = record { value = (action e.value b).0; last_seen = now } in
      ground (arith, length-put t v key d, size-put_old t v key d e h, put-AllUnique t v key d)

  pub use_entry-IsValid_new :
      (t : Store T) (x : T) (b : Bool)
      → IsValid t
      → find key t ≡ none
      → suc (size t.shards) < 2 ^ 63
      → IsValid (use_entry (counted_up t) key now action x b).0
        × (size (use_entry (counted_up t) key now action x b).0.shards ≡ suc (size t.shards))
  unfolding use_entry put shard_for
  use_entry-IsValid_new t x b v h l =
      let d : Entry T = record { value = (action x b).0; last_seen = now } in
      ground (
        arith,
        length-put t v key d,
        size-put_new t v key d h,
        put-AllUnique t v key d,
        add64_up (size t.shards),
      )

  pub find-use_entry :
      (t : Store T) (x : T) (b : Bool) (j : Bytes)
      → IsValid t
      → find j (use_entry t key now action x b).0 ≡ (
          if bytes_eq key j
          then some (record { value = (action x b).0; last_seen = now })
          else find j t)
  unfolding use_entry
  find-use_entry t x b j v = find-put t v key (record { value = (action x b).0; last_seen = now }) j

  pub find-use_entry_new :
      (t : Store T) (x : T) (b : Bool) (j : Bytes)
      → IsValid t
      → find j (use_entry (counted_up t) key now action x b).0 ≡ (
          if bytes_eq key j
          then some (record { value = (action x b).0; last_seen = now })
          else find j t)
  unfolding use_entry put shard_for find
  find-use_entry_new t x b j v =
      find-put t v key (record { value = (action x b).0; last_seen = now }) j

module _ {ℓ} {T : Type ℓ} (s : Store T) (key : Bytes) (now : Time) (create : Time → T)
    (action : T → Bool → T × Outcome) where
  Visit-IsValid :
      (r : Store T × Outcome)
      → suc (size s.shards) < 2 ^ 63
      → Visit s key now create action r
      → IsValid r.0
  Visit-IsValid r b (hit t e h f q) =
      rw q (use_entry-IsValid_old key now action t e false h.valid f).0
  Visit-IsValid r b (added t h f g q) =
      rw q (use_entry-IsValid_new key now action t (create now) true h.valid f (omega arith)).0
  Visit-IsValid r b (passed t h f g w p q) = rw q h.valid
  Visit-IsValid r b (refused t h f g w p q) = rw q h.valid

  is_full-count :
      (t : Store T) (m : ℕ)
      → t.max_keys ≡ pos m
      → 0 < m
      → t.count ≡ pos (size t.shards)
      → is_full t ≡ false
      → size t.shards < m
  unfolding is_full
  is_full-count t m e l c f = ground arith

  Visit-bounded :
      (r : Store T × Outcome) (m : ℕ)
      → suc (size s.shards) < 2 ^ 63
      → s.max_keys ≡ pos m
      → 0 < m
      → size s.shards ≤ m
      → Visit s key now create action r
      → size r.0.shards ≤ m
  Visit-bounded r m b e l k (hit t d h f q) =
      rw q (omega (arith, use_entry-IsValid_old key now action t d false h.valid f, h.smaller))
  Visit-bounded r m b e l k (added t h f g q) = rw q (
      omega (
        arith,
        (use_entry-IsValid_new key now action t (create now) true h.valid f (omega arith)).1,
        is_full-count t m (h.same_max ∙ e) l h.valid.counted g,
      ))
  Visit-bounded r m b e l k (passed t h f g w p q) = rw q (omega arith)
  Visit-bounded r m b e l k (refused t h f g w p q) = rw q (omega arith)

  pub Visit-frame :
      (r : Store T × Outcome) (j : Bytes)
      → bytes_eq key j ≡ false
      → Visit s key now create action r
      → Kept now s.idle_ttl (find j s) (find j r.0)
  Visit-frame r j n (hit t e h f q) =
      rw (q, find-use_entry key now action t e.value false j h.valid, n) (h.kept j)
  Visit-frame r j n (added t h f g q) =
      rw (q, find-use_entry_new key now action t (create now) true j h.valid, n) (h.kept j)
  Visit-frame r j n (passed t h f g w p q) = rw q (h.kept j)
  Visit-frame r j n (refused t h f g w p q) = rw q (h.kept j)

  live_kept :
      (t : Store T) (e : Entry T)
      → find key s ≡ some e
      → is_idle now s.idle_ttl e ≡ false
      → Shrinks now s t
      → find key t ≡ some e
  live_kept t e f i h = ground (arith, h.kept key)

  Visit-live :
      (r : Store T × Outcome) (e : Entry T)
      → find key s ≡ some e
      → is_idle now s.idle_ttl e ≡ false
      → Visit s key now create action r
      → (r.1 ≡ (action e.value false).1)
        × (find key r.0 ≡ some (record { value = (action e.value false).0; last_seen = now }))
  unfolding use_entry
  Visit-live r e f i (hit t d h g q) =
      let same : d ≡ e = cc (live_kept t e f i h) in
      rw (q, same)
        (refl, find-use_entry key now action t e.value false key h.valid ∙ rw (bytes_eq_self key))
  Visit-live r e f i (added t h g n q) = cc (live_kept t e f i h)
  Visit-live r e f i (passed t h g n w p q) = cc (live_kept t e f i h)
  Visit-live r e f i (refused t h g n w p q) = cc (live_kept t e f i h)

module _ {ℓ} {T : Type ℓ} (o : Orders T) (ranges : IsRanges o) (s : Store T) (valid : IsValid s)
    (key : Bytes) (now : Time) (create : Time → T) (action : T → Bool → T × Outcome) where
  -- A call on a well-formed store, with fewer than 2^63 - 1 entries, leaves it well formed: its
  -- counter is the number of entries, and no key stands twice in a shard.
  pub with_entry-IsValid :
      suc (size s.shards) < 2 ^ 63 → IsValid (with_entry o s key now create action).0
  with_entry-IsValid b =
      Visit-IsValid s key now create action _ b
        (with_entry-Visit s key now create action o ranges valid (omega arith))

  -- A call on a well-formed store that holds at most a positive `MaxKeys` entries leaves at most
  -- `MaxKeys` entries, with no other call in between.
  pub with_entry_bounded :
      (m : ℕ)
      → suc (size s.shards) < 2 ^ 63
      → s.max_keys ≡ pos m
      → 0 < m
      → size s.shards ≤ m
      → size (with_entry o s key now create action).0.shards ≤ m
  with_entry_bounded m b e l k =
      Visit-bounded s key now create action _ m b e l k
        (with_entry-Visit s key now create action o ranges valid (omega arith))

  -- A call for one key on a well-formed store leaves the entry of every other key as it is, unless it drops that entry
  -- because it has been idle for longer than the limit.
  pub with_entry_frame :
      (j : Bytes)
      → size s.shards < 2 ^ 63
      → bytes_eq key j ≡ false
      → Kept now s.idle_ttl (find j s) (find j (with_entry o s key now create action).0)
  with_entry_frame j b n =
      Visit-frame s key now create action _ j n
        (with_entry-Visit s key now create action o ranges valid b)

  -- For a key of a well-formed store whose entry is not idle, the caller gets what `use` answers on the stored value, and
  -- the store then holds what `use` left, seen now.
  pub with_entry_live :
      (e : Entry T)
      → size s.shards < 2 ^ 63
      → find key s ≡ some e
      → is_idle now s.idle_ttl e ≡ false
      → ((with_entry o s key now create action).1 ≡ (action e.value false).1)
        × (find key (with_entry o s key now create action).0
            ≡ some (record { value = (action e.value false).0; last_seen = now }))
  with_entry_live e b f i =
      Visit-live s key now create action _ e f i
        (with_entry-Visit s key now create action o ranges valid b)

-- A new store is well formed and empty, for every number of shards that fits in 32 bits.
pub new_sharded_state-IsValid {ℓ} :
    (T : Type ℓ) (config : Config) (window : Duration)
    → pos_part config.shards < 2 ^ 32
    → IsValid (new_sharded_state {T = T} config window)
      × (size (new_sharded_state {T = T} config window).shards ≡ 0)
unfolding new_sharded_state normalize_shards
new_sharded_state-IsValid T config window h =
    let n = pos_part (normalize_shards config.shards) in
    ground (arith, length-replicate {A = Items T} n [], size-replicate T n, replicate-AllUnique T n)
