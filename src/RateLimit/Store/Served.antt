-- ===== src/RateLimit/Store/Served.antt =====
-- `WithEntry` of sharded_state.go: what a call does, in terms of the entries before and after it.
use agent_cortex.Prelude.{
  ℕ, suc, ◌^◌, ◌<◌, ◌≡◌, refl, ◌∙◌, ◌⊎◌, inl, inr, Bool, ◌&&◌, Bytes, bytes_eq, bytes_eq_self,
  Option, none, some, true, false, arith, Bool-cases,
}
use agent_cortex.Prelude.Int.{ℤ, pos, ltb_ℤ}
use agent_cortex.RateLimit.Types.{
  Time, Duration, Outcome, empty_decision, limit_state_full, StateFullPolicy, reject_new_key,
  allow_new_key,
}
use agent_cortex.RateLimit.Store.{Entry, Store, Orders, find, is_full, with_entry, use_entry}
use agent_cortex.RateLimit.Store.Shards.{size}
use agent_cortex.RateLimit.Store.Cleanup.{Kept, idle_option}
use agent_cortex.RateLimit.Store.Access.{IsValid, Shrinks}
use agent_cortex.RateLimit.Store.Swept.{AllSwept}
use agent_cortex.RateLimit.Store.Visit.{
  Visit, hit, added, passed, refused, IsRanges, counted_up, with_entry-Visit,
}
use agent_cortex.RateLimit.Store.Guarantees.{
  use_entry-IsValid_new, find-use_entry, find-use_entry_new, Visit-frame,
}

-- More entries than a positive limit allows.
abbrev pub is_over : ℤ → ℕ → Bool
is_over max_keys n = ltb_ℤ (pos 0) max_keys && ltb_ℤ max_keys (pos n)

-- No entry, or one that has been idle for longer than the limit.
abbrev pub IsMissing {ℓ} : {T : Type ℓ} → Time → Duration → Option (Entry T) → Type ℓ
IsMissing now ttl o = (o ≡ none) ⊎ (idle_option now ttl o ≡ true)

abbrev pub full_reply : StateFullPolicy → Outcome → Outcome
full_reply allow_new_key passing = passing
full_reply reject_new_key passing = (empty_decision, some limit_state_full)

-- What a call for a key has made of the store `s`: it has used the key's entry, or added one within the
-- limit, or left the key without an entry. The last happens only with as many entries as the limit
-- allows, and when every shard has been swept.
pub data Served {ℓ} {T : Type ℓ} (s : Store T) (key : Bytes) (now : Time) (create : Time → T)
    (action : T → Bool → T × Outcome) (r : Store T × Outcome) : Type ℓ where
  known :
      (e : Entry T)
      → find key s ≡ some e
      → find key r.0 ≡ some (record { value = (action e.value false).0; last_seen = now })
      → r.1 ≡ (action e.value false).1
      → Served s key now create action r
  fresh :
      IsMissing now s.idle_ttl (find key s)
      → find key r.0 ≡ some (record { value = (action (create now) true).0; last_seen = now })
      → r.1 ≡ (action (create now) true).1
      → is_over s.max_keys (size r.0.shards) ≡ false
      → Served s key now create action r
  untracked :
      (m : ℕ)
      → IsMissing now s.idle_ttl (find key s)
      → find key r.0 ≡ none
      → r.1 ≡ full_reply s.state_full_policy (action (create now) true).1
      → s.max_keys ≡ pos (suc m)
      → m < size r.0.shards
      → AllSwept now s r.0
      → Served s key now create action r

module _ {ℓ} {T : Type ℓ} (s : Store T) (key : Bytes) (now : Time) (create : Time → T)
    (action : T → Bool → T × Outcome) where
  known_before :
      (t : Store T) (e : Entry T) → Shrinks now s t → find key t ≡ some e → find key s ≡ some e
  known_before t e h f = ground (arith, h.kept key, f)

  IsMissing-before :
      (t : Store T) → Shrinks now s t → find key t ≡ none → IsMissing now s.idle_ttl (find key s)
  IsMissing-before t h f = ground (arith, h.kept key, f)

  found :
      (t : Store T) (x : T) (b : Bool)
      → IsValid t
      → find key (use_entry t key now action x b).0
        ≡ some (record { value = (action x b).0; last_seen = now })
  found t x b v = find-use_entry key now action t x b key v ∙ rw (bytes_eq_self key) refl

  found_new :
      (t : Store T) (x : T) (b : Bool)
      → IsValid t
      → find key (use_entry (counted_up t) key now action x b).0
        ≡ some (record { value = (action x b).0; last_seen = now })
  found_new t x b v = find-use_entry_new key now action t x b key v ∙ rw (bytes_eq_self key) refl

  is_over-added :
      (t : Store T) (n : ℕ)
      → IsValid t
      → n ≡ suc (size t.shards)
      → is_full t ≡ false
      → is_over t.max_keys n ≡ false
  unfolding is_full
  is_over-added t n v e f = ground (arith, v.counted, e, f)

  over_limit :
      (t : Store T) (k : ℤ)
      → IsValid t
      → t.max_keys ≡ k
      → is_full t ≡ true
      → (m : ℕ) × (k ≡ pos (suc m)) × (m < size t.shards)
  unfolding is_full
  over_limit t (pos (suc m)) v e f = (m, refl, ground (arith, v.counted, e, f))
  over_limit t k v e f = ground (arith, e, f)

  Visit-Served :
      (r : Store T × Outcome)
      → suc (size s.shards) < 2 ^ 63
      → Visit s key now create action r
      → Served s key now create action r
  unfolding use_entry
  Visit-Served r b (hit t e h f q) =
      rw q (known e (known_before t e h f) (found t e.value false h.valid) refl)
  Visit-Served r b (added t h f g q) = rw q (
      fresh (IsMissing-before t h f) (found_new t (create now) true h.valid) refl (
        rw (← h.same_max) (
          is_over-added t _ h.valid
            (use_entry-IsValid_new key now action t (create now) true h.valid f
              (omega (arith, b, h.smaller))).1
            g)))
  Visit-Served r b (passed t h f g w p q) =
      let (m, e, l) = over_limit t s.max_keys h.valid h.same_max g in
      rw q (untracked m (IsMissing-before t h f) f (rw (← h.same_policy, p) refl) e l w)
  Visit-Served r b (refused t h f g w p q) =
      let (m, e, l) = over_limit t s.max_keys h.valid h.same_max g in
      rw q (untracked m (IsMissing-before t h f) f (rw (← h.same_policy, p) refl) e l w)

  -- A call on a well-formed store with fewer than 2^63 - 1 entries, whatever the orders of its visits,
  -- uses the entry that the key has, or adds one for a missing or idle key, with no more entries than a
  -- positive `MaxKeys` behind it, or leaves such a key without an entry. Then the store holds at least
  -- `MaxKeys` entries, each of its shards has only entries that are not idle or has lost at least sixteen
  -- of them in this call (unless idleness is not limited), and the answer is by the policy. Every other
  -- key keeps its entry unless that was idle.
  pub with_entry-Served :
      (o : Orders T)
      → IsRanges o
      → IsValid s
      → suc (size s.shards) < 2 ^ 63
      → Served s key now create action (with_entry o s key now create action)
        × ((j : Bytes)
            → (bytes_eq key j ≡ true)
              ⊎ Kept now s.idle_ttl (find j s) (find j (with_entry o s key now create action).0))
  with_entry-Served o ranges v b =
      let w = with_entry-Visit s key now create action o ranges v (omega (arith, b)) in
      (
        Visit-Served _ b w,
        λ j. elim (Bool-cases (bytes_eq key j)) [
          | inl e ↦ inl e
          | inr e ↦ inr (Visit-frame s key now create action _ j e w)
        ],
      )
