-- ===== src/RateLimit/Store/Visit.antt =====
-- `WithEntry` of sharded_state.go: what one call does to the store and to the caller.
use agent_cortex.Prelude.{
  ◌^◌, ◌<◌, ◌≡◌, refl, Bool, Bytes, none, some, true, false, arith, Bool-cases, Option-cases, inl,
  inr,
}
use agent_cortex.Prelude.Int.{pos, add64}
use agent_cortex.RateLimit.Types.{
  Time, Outcome, empty_decision, limit_state_full, StateFullPolicy, reject_new_key, allow_new_key,
}
use agent_cortex.RateLimit.Store.{
  Entry, Items, Store, Orders, find, is_full, use_entry, add_entry, second_visit, with_entry,
  shard_for, make_room, cleanup_shard,
}
use agent_cortex.RateLimit.Store.Shards.{size, shard_for_lt}
use agent_cortex.RateLimit.Store.Cleanup.{IsRange}
use agent_cortex.RateLimit.Store.Swept.{
  AllSwept, cleanup_shard-before, cleanup_shard-behind, make_room-AllSwept, Shrinks-is_full,
}
use agent_cortex.RateLimit.Store.Access.{
  IsValid, Shrinks, Shrinks-trans, cleanup_shard-Shrinks, make_room-Shrinks,
}

pub record IsRanges {ℓ} {T : Type ℓ} (o : Orders T) : Type ℓ where
  pub first : IsRange o.first
  pub all : IsRange o.all
  pub second : IsRange o.second

-- `s.count.Add(1)`
abbrev pub counted_up {ℓ} : {T : Type ℓ} → Store T → Store T
counted_up s = record s { count = add64 s.count (pos 1) }

-- The four ways in which a call can end, over the store `t` that the cleanups leave; where the store is
-- full, every shard has been swept.
pub data Visit {ℓ} {T : Type ℓ} (s : Store T) (key : Bytes) (now : Time) (create : Time → T)
    (action : T → Bool → T × Outcome) (r : Store T × Outcome) : Type ℓ where
  hit :
      (t : Store T) (e : Entry T)
      → Shrinks now s t
      → find key t ≡ some e
      → r ≡ use_entry t key now action e.value false
      → Visit s key now create action r
  added :
      (t : Store T)
      → Shrinks now s t
      → find key t ≡ none
      → is_full t ≡ false
      → r ≡ use_entry (counted_up t) key now action (create now) true
      → Visit s key now create action r
  passed :
      (t : Store T)
      → Shrinks now s t
      → find key t ≡ none
      → is_full t ≡ true
      → AllSwept now s t
      → t.state_full_policy ≡ allow_new_key
      → r ≡ (t, (action (create now) true).1)
      → Visit s key now create action r
  refused :
      (t : Store T)
      → Shrinks now s t
      → find key t ≡ none
      → is_full t ≡ true
      → AllSwept now s t
      → t.state_full_policy ≡ reject_new_key
      → r ≡ (t, (empty_decision, some limit_state_full))
      → Visit s key now create action r

module _ {ℓ} {T : Type ℓ} (s : Store T) (key : Bytes) (now : Time) (create : Time → T)
    (action : T → Bool → T × Outcome) where
  add_entry-Visit :
      (t : Store T)
      → Shrinks now s t
      → find key t ≡ none
      → (is_full t ≡ true → AllSwept now s t)
      → Visit s key now create action (add_entry t key now create action)
  unfolding add_entry
  add_entry-Visit t h e w = elim (Bool-cases (is_full t)) [
    | inl f ↦ policy t.state_full_policy refl f
    | inr f ↦ added t h e f (rw (f, add_entry))
  ]
    where
      policy :
          (p : StateFullPolicy)
          → t.state_full_policy ≡ p
          → is_full t ≡ true
          → Visit s key now create action (add_entry t key now create action)
      policy reject_new_key q f = refused t h e f (w f) q (ground arith)
      policy allow_new_key q f = passed t h e f (w f) q (ground arith)

  second_visit-Visit :
      (order : Items T → Items T)
      → IsRange order
      → (t : Store T) → Shrinks now s t
      → (is_full t ≡ true → AllSwept now s t)
      → size s.shards < 2 ^ 63
      → Visit s key now create action (second_visit order t key now create action)
  unfolding second_visit
  second_visit-Visit order range t h w b =
      let at_hand = shard_for_lt t key h.valid.some_shards h.valid.few_shards in
      let t' = cleanup_shard order now (shard_for t key) t in
      let k =
        cleanup_shard-Shrinks now order range (shard_for t key) t h.valid (omega arith) at_hand in
      let h' = Shrinks-trans now s t t' h k in
      let w' : is_full t' ≡ true → AllSwept now s t' = λ f.
        cleanup_shard-behind now order range (shard_for t key) s t h.valid at_hand h.same_ttl
          (w (Shrinks-is_full now t t' h.valid k f)) in
      elim (Option-cases (find key t')) [
        | inl e ↦ rw (e, second_visit) (add_entry-Visit t' h' e w')
        | inr (d, e) ↦ hit t' d h' e (rw (e, second_visit))
      ]

  -- Every call on a well-formed store ends in one of the four ways of `Visit`: on the stored entry, on
  -- a new entry in a store with room, on a passing value in a full store that lets new keys pass, or
  -- with the refusal of a new key.
  pub with_entry-Visit :
      (o : Orders T)
      → IsRanges o
      → IsValid s
      → size s.shards < 2 ^ 63
      → Visit s key now create action (with_entry o s key now create action)
  unfolding with_entry
  with_entry-Visit o ranges v b =
      let t = cleanup_shard o.first now (shard_for s key) s in
      let at_hand = shard_for_lt s key v.some_shards v.few_shards in
      let h = cleanup_shard-Shrinks now o.first ranges.first (shard_for s key) s v b at_hand in
      let t' = make_room o.all t now in
      let w : is_full t' ≡ true → AllSwept now s t' = λ f.
        cleanup_shard-before now o.first ranges.first (shard_for s key) s t' v at_hand
          (make_room-AllSwept now o.all ranges.all t f) in
      elim (Option-cases (find key t)) [
        | inl e ↦
            rw (e, with_entry)
              (second_visit-Visit o.second ranges.second t'
                (Shrinks-trans now s t t' h
                  (make_room-Shrinks now o.all ranges.all t h.valid (omega arith)))
                w b)
        | inr (d, e) ↦ hit t d h e (rw (e, with_entry))
      ]
