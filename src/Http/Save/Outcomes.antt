-- ===== src/Http/Save/Outcomes.antt =====
-- internal/transport/http/handler.go, `saveMemory`: what a call leaves behind on each way out.
use agent_cortex.Prelude.{
  Bool, true, false, not, ◌||◌, Bytes, Option, none, some, if◌then◌else◌, ◌≡◌, refl, sym, ap, ◌∙◌,
  arith, Bool-cases, inl, inr,
}
use mathlib.Core.Path.{subst}
use agent_cortex.Prelude.Int.{eqb_ℤ}
use agent_cortex.RateLimit.Types.{Time, is_zero}
use agent_cortex.Errors.{Result, ok, err, sentinel, memory_conflict, memory_markdown}
use agent_cortex.TimeFormat.{TimeFormat}
use agent_cortex.Memory.{Memory, Backend, same_content, daily_markdown_storage_version}
use agent_cortex.Memory
use agent_cortex.Files.{Faults}
use agent_cortex.Http.Markdown.{Entry, payload}
use agent_cortex.Http.Markdown.Parser.{Parsed, done, failed, panicked}
use agent_cortex.Http.Ids.{daily_path}
use agent_cortex.Http.MemoryFiles.{Written, find_entry, read_entry_on, entry_matches, write_memory}
use agent_cortex.Http.Save.{
  Saved, saved, crashed, refused, check_ids, check_stored, save_stored, store_result, store_behind,
  save_new, save_locked, save_checked, save_memory, normalize_memory, stamped, World,
}

-- Whether a call reports the memory to be in its file.
abbrev pub is_synced : Saved → Bool
is_synced (saved synced e) = synced
is_synced crashed = false

abbrev pub IsHonest : Saved → Type 0
IsHonest (saved synced none) = synced ≡ true
IsHonest (saved synced (some e)) = Unit
IsHonest crashed = Unit

module _ (B : Backend) (f : TimeFormat) (base : Bytes) where
  -- A call that does not report the file has not touched the storage, and a success reports the file.
  abbrev pub KeepsStorage : World B f base → World B f base × Saved → Type 0
  KeepsStorage w r = (is_synced r.1 ≡ false → r.0.1 ≡ w.1) × IsHonest r.1

  store_result-KeepsStorage :
      (d : _) (r : B.State × Result (Unit {0})) (w : World B f base)
      → KeepsStorage w (store_result B f base d r)
  store_result-KeepsStorage d (s, ok a) w = (λ h. cc (h), refl)
  store_result-KeepsStorage d (s, err e) w = (λ h. cc (h), tt)

  store_behind-KeepsStorage :
      (w : World B f base) (m : Memory) (r : Written)
      → KeepsStorage w (store_behind B f base w.1 m r)
  store_behind-KeepsStorage w m (d, failed e) = (λ h. refl, tt)
  store_behind-KeepsStorage w m (d, panicked) = (λ h. refl, tt)
  store_behind-KeepsStorage w m (d, done a) = store_result-KeepsStorage d (Memory.save B w.1 m) w

  save_orphan-KeepsStorage :
      (w : World B f base) (m : Memory) (e : Entry) (t : Bool)
      → KeepsStorage w (
          if t
          then store_result B f base w.0
              (Memory.save B w.1 (record m { recorded_at = e.recorded_at }))
          else (w, refused (sentinel memory_conflict)))
  save_orphan-KeepsStorage w m e true =
      store_result-KeepsStorage w.0 (Memory.save B w.1 (record m { recorded_at = e.recorded_at })) w
  save_orphan-KeepsStorage w m e false = (λ h. refl, tt)

  save_new-KeepsStorage :
      (x : Faults) (w : World B f base) (m : Memory) (p : Parsed (Option Entry))
      → KeepsStorage w (save_new B f base x w m p)
  unfolding save_new
  save_new-KeepsStorage x w m (failed e) = (λ h. refl, tt)
  save_new-KeepsStorage x w m panicked = (λ h. refl, tt)
  save_new-KeepsStorage x w m (done none) =
      store_behind-KeepsStorage w m (write_memory f x w.0 base m)
  save_new-KeepsStorage x w m (done (some e)) = save_orphan-KeepsStorage w m e (entry_matches f e m)

  check_stored-IsHonest :
      (m : Memory) (p : Parsed (Option Entry)) → IsHonest (check_stored B f base m p)
  check_stored-IsHonest m (failed e) = tt
  check_stored-IsHonest m panicked = tt
  check_stored-IsHonest m (done none) = tt
  check_stored-IsHonest m (done (some e)) = elim (Bool-cases (entry_matches f e m)) [
    | inl t ↦
        subst (λ b. IsHonest (if b then saved true none else refused (sentinel memory_markdown)))
          (sym t) refl
    | inr t ↦
        subst (λ b. IsHonest (if b then saved true none else refused (sentinel memory_markdown)))
          (sym t) tt
  ]

  guarded-IsHonest :
      (t z : Bool) (r : Saved)
      → IsHonest r
      → IsHonest (
          if t
          then refused (sentinel memory_conflict)
          else if z
          then refused (sentinel memory_markdown)
          else r)
  guarded-IsHonest true z r h = tt
  guarded-IsHonest false true r h = tt
  guarded-IsHonest false false r h = h

  save_stored-IsHonest :
      (x : Faults) (w : World B f base) (m stored : Memory)
      → IsHonest (save_stored B f base x w m stored)
  unfolding save_stored
  save_stored-IsHonest x w m stored =
      guarded-IsHonest _ (is_zero stored.recorded_at) _ (check_stored-IsHonest m _)

  save_locked-KeepsStorage :
      (x : Faults) (w : World B f base) (m : Memory) (r : Result (Option Memory))
      → KeepsStorage w (save_locked B f base x w m r)
  unfolding save_locked
  save_locked-KeepsStorage x w m (err e) = (λ h. refl, tt)
  save_locked-KeepsStorage x w m (ok (some stored)) = (λ h. refl, save_stored-IsHonest x w m stored)
  save_locked-KeepsStorage x w m (ok none) =
      save_new-KeepsStorage x w m (find_entry f x w.0 base m.user_id m.agent_id m.id)

  save_checked-KeepsStorage :
      (x : Faults) (w : World B f base) (m : Memory) (r : Result (Unit {0}))
      → KeepsStorage w (save_checked B f base x w m r)
  save_checked-KeepsStorage x w m (err e) = (λ h. refl, tt)
  save_checked-KeepsStorage x w m (ok a) = save_locked-KeepsStorage x w m (B.find_by_id w.1 m.id)

  pub save_memory-KeepsStorage :
      (x : Faults) (now : Time) (w : World B f base) (item : Memory)
      → KeepsStorage w (save_memory B f base x now w item)
  unfolding save_memory
  save_memory-KeepsStorage x now w item =
      save_checked-KeepsStorage x w (stamped (normalize_memory item) now)
        (check_ids (normalize_memory item))

  -- The storage is written behind the file only: when a save does not report the memory to be in its
  -- day's file, whether it ends with an error or in a panic and whatever fails on the disk, the storage
  -- is as it was.
  pub save_memory-keeps_storage :
      (x : Faults) (now : Time) (w : World B f base) (item : Memory)
      → is_synced (save_memory B f base x now w item).1 ≡ false
      → (save_memory B f base x now w item).0.1 ≡ w.1
  unfolding save_memory
  save_memory-keeps_storage x now w item = (save_memory-KeepsStorage x now w item).0

  if_conflict :
      (t u : Bool) (r : Saved)
      → u ≡ false
      → (if not t || not u then refused (sentinel memory_conflict) else r)
        ≡ refused (sentinel memory_conflict)
  if_conflict t u r h = ground (arith, h)

  -- A memory whose identifier is stored for another user, agent, question or answer is refused as a
  -- conflict, and neither the disk nor the storage changes.
  pub save_memory-conflicts :
      (x : Faults) (now : Time) (w : World B f base) (item stored : Memory)
      → check_ids (normalize_memory item) ≡ ok tt
      → B.find_by_id w.1 (normalize_memory item).id ≡ ok (some stored)
      → same_content stored (normalize_memory item) ≡ false
      → save_memory B f base x now w item ≡ (w, refused (sentinel memory_conflict))
  unfolding save_memory save_locked save_stored same_content
  save_memory-conflicts x now w item stored c s d =
      rw (c, s)
        (ap (λ (r : Saved). (w, r))
          (if_conflict (eqb_ℤ stored.storage_version daily_markdown_storage_version)
            (same_content stored (stamped (normalize_memory item) now)) _ d))

  stored_checked :
      (m : Memory) (p : Parsed (Option Entry))
      → check_stored B f base m p ≡ saved true none
      → (e : Entry) × (p ≡ done (some e)) × (entry_matches f e m ≡ true)
  stored_checked m (failed e) h = cc (h)
  stored_checked m panicked h = cc (h)
  stored_checked m (done none) h = cc (h)
  stored_checked m (done (some e)) h = (e, refl, ground (arith, h))

  stored_passed :
      (t u z : Bool) (r : Saved)
      → (if not t || not u
          then refused (sentinel memory_conflict)
          else if z
          then refused (sentinel memory_markdown)
          else r)
        ≡ saved true none
      → (t ≡ true) × (u ≡ true) × (r ≡ saved true none)
  stored_passed true true true r h = cc (h)
  stored_passed true true false r h = (refl, refl, h)
  stored_passed true false z r h = cc (h)
  stored_passed false u z r h = cc (h)

  save_memory-found :
      (x : Faults) (now : Time) (w : World B f base) (item stored : Memory)
      → check_ids (normalize_memory item) ≡ ok tt
      → B.find_by_id w.1 (normalize_memory item).id ≡ ok (some stored)
      → save_memory B f base x now w item
        ≡ (w, save_stored B f base x w (stamped (normalize_memory item) now) stored)
  unfolding save_memory save_locked
  save_memory-found x now w item stored c s = rw (c, s) refl

  -- When a save of a stored memory with identifiers that pass the checks succeeds, the stored one has the same user, agent, question and answer
  -- in the daily layout, its day's file holds an entry of that identifier and of exactly the payload to
  -- be saved, and neither the disk nor the storage has changed.
  pub save_memory-stored :
      (x : Faults) (now : Time) (w w' : World B f base) (item stored : Memory)
      → check_ids (normalize_memory item) ≡ ok tt
      → B.find_by_id w.1 (normalize_memory item).id ≡ ok (some stored)
      → save_memory B f base x now w item ≡ (w', saved true none)
      → (w' ≡ w)
        × (same_content stored (normalize_memory item) ≡ true)
        × (eqb_ℤ stored.storage_version daily_markdown_storage_version ≡ true)
        × ((e : Entry) × (read_entry_on f x w.0 base stored.id
                (daily_path f base stored.user_id stored.agent_id stored.recorded_at)
              ≡ done (some e))
            × (entry_matches f e (normalize_memory item) ≡ true))
  unfolding save_stored same_content payload
  save_memory-stored x now w w' item stored c s h =
      let m = stamped (normalize_memory item) now in
      let run : ◌≡◌ {A = World B f base × Saved} (w, save_stored B f base x w m stored)
          (w', saved true none) =
        sym (save_memory-found x now w item stored c s) ∙ h in
      let (v, k, r) =
        stored_passed (eqb_ℤ stored.storage_version daily_markdown_storage_version)
          (same_content stored m) (is_zero stored.recorded_at) _
          (ap (λ (p : World B f base × Saved). p.1) run) in
      let read = stored_checked m _ r in
      (sym (ap (λ (p : World B f base × Saved). p.0) run), k, v, read)
