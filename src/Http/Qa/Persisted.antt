-- ===== src/Http/Qa/Persisted.antt =====
-- internal/transport/http/handler.go, `persistQATurn`: what the finished event says of the memory.
use agent_cortex.Prelude.{
  ℕ, Bool, true, false, Bytes, List, Option, none, some, length, ◌≡◌, refl, inl, inr, Bool-cases,
}
use mathlib.Core.Path.{subst}
use agent_cortex.Strings.{is_empty, trim_space}
use agent_cortex.RateLimit.Types.{Time}
use agent_cortex.Errors.{Result, ok, err}
use agent_cortex.TimeFormat.{TimeFormat}
use agent_cortex.Memory.{Float32, Backend}
use agent_cortex.Files.{Faults}
use agent_cortex.Http.Request.{QaStreamRequest}
use agent_cortex.Http.Save.{World, Saved, saved, crashed, save_memory}
use agent_cortex.Http.Save.Outcomes.{KeepsStorage, save_memory-KeepsStorage}
use agent_cortex.Http.Qa.{
  Finished, Frame, Frames, write_sse, warned, after_save, persist_turn, embed_turn, next_memory_id,
  turn_memory,
}

-- Neither saved nor in the file.
abbrev pub IsUnsaved : Finished → Type 0
IsUnsaved fin = (fin.memory_saved ≡ false) × (fin.markdown_synced ≡ false)

module _ (B : Backend) (f : TimeFormat) (base : Bytes) (embed : Bytes → Result (List Float32))
    (gets_through : ℕ → Bool) (x : Faults) (req : QaStreamRequest) (question : Bytes) where
  -- What holds of a turn that ends with a finished event.
  abbrev Promise : World B f base → World B f base → Option Finished → Type 0
  Promise w w' none = Unit
  Promise w w' (some fin) =
      (fin.memory_saved ≡ true → fin.markdown_synced ≡ true)
      × (fin.markdown_synced ≡ false → w'.1 ≡ w.1)

  warned-Promise :
      (w w' : World B f base) (fin : Finished) (sent : Frames) (text : Frame)
      → Promise w w' (some fin)
      → Promise w w' (warned fin (write_sse gets_through sent text)).1
  warned-Promise w w' fin sent text p = elim (Bool-cases (gets_through (length sent))) [
    | inl g ↦ rw (g) p
    | inr g ↦ rw (g) tt
  ]

  after_save-Promise :
      (w w' : World B f base) (id : Bytes) (fin : Finished) (sent : Frames) (r : Saved)
      → IsUnsaved fin
      → KeepsStorage B f base w (w', r)
      → Promise w w' (after_save B f base embed gets_through x req question id fin sent r).1
  unfolding after_save
  after_save-Promise w w' id fin sent crashed u k = tt
  after_save-Promise w w' id fin sent (saved synced none) u k = (λ h. k.1, k.0)
  after_save-Promise w w' id fin sent (saved synced (some e)) u k =
      warned-Promise w w' (record fin { markdown_synced = synced }) sent _ (λ h. cc (h, u.0), k.0)

  embed_turn-Promise :
      (now later : Time) (w : World B f base) (seq : ℕ) (answer : Bytes) (fin : Finished)
      (sent : Frames) (v : Result (List Float32))
      → IsUnsaved fin
      → Promise w
          (embed_turn B f base embed gets_through x req question now later w seq answer fin sent
            v).0
          (embed_turn B f base embed gets_through x req question now later w seq answer fin sent
            v).2.1
  embed_turn-Promise now later w seq answer fin sent (ok v) u =
      let m = turn_memory req (next_memory_id now seq).0 question answer v in
      let r = save_memory B f base x later w m in
      after_save-Promise w r.0 (next_memory_id now seq).0 fin sent r.1 u
        (save_memory-KeepsStorage B f base x later w m)
  embed_turn-Promise now later w seq answer fin sent (err e) u =
      warned-Promise w w fin sent _ (λ h. cc (h, u.0), λ h. refl)

  persist_turn-Promise :
      (now later : Time) (w : World B f base) (seq : ℕ) (answer : Bytes) (fin : Finished)
      (sent : Frames)
      → IsUnsaved fin
      → Promise w
          (persist_turn B f base embed gets_through x req question now later w seq answer fin
            sent).0
          (persist_turn B f base embed gets_through x req question now later w seq answer fin
            sent).2.1
  unfolding persist_turn
  persist_turn-Promise now later w seq answer fin sent u =
      elim (Bool-cases (is_empty (trim_space answer))) [
        | inl b ↦ rw (b, persist_turn) (λ h. cc (h, u.0), λ h. refl)
        | inr b ↦
            rw (b, persist_turn)
              (embed_turn-Promise now later w seq answer fin sent (embed question) u)
      ]

  promise :
      (now later : Time) (w w' : World B f base) (seq seq' : ℕ) (answer : Bytes)
      (fin fin' : Finished) (sent sent' : Frames)
      → IsUnsaved fin
      → persist_turn B f base embed gets_through x req question now later w seq answer fin sent
        ≡ (w', seq', (sent', some fin'))
      → Promise w w' (some fin')
  promise now later w w' seq seq' answer fin fin' sent sent' u r =
      subst (λ (y : World B f base × ℕ × (Frames × Option Finished)). Promise w y.0 y.2.1) r
        (persist_turn-Promise now later w seq answer fin sent u)

  -- A turn that starts from a finished event of an unsaved memory, and whose finished event then says that
  -- the memory is saved, also says that it is in its file.
  pub persist_turn-saved :
      (now later : Time) (w w' : World B f base) (seq seq' : ℕ) (answer : Bytes)
      (fin fin' : Finished) (sent sent' : Frames)
      → IsUnsaved fin
      → persist_turn B f base embed gets_through x req question now later w seq answer fin sent
        ≡ (w', seq', (sent', some fin'))
      → fin'.memory_saved ≡ true
      → fin'.markdown_synced ≡ true
  persist_turn-saved now later w w' seq seq' answer fin fin' sent sent' u r =
      (promise now later w w' seq seq' answer fin fin' sent sent' u r).0

  -- A turn that starts from a finished event of an unsaved memory, and whose finished event then does not
  -- say that the memory is in its file, has left the storage as it was.
  pub persist_turn-unsynced :
      (now later : Time) (w w' : World B f base) (seq seq' : ℕ) (answer : Bytes)
      (fin fin' : Finished) (sent sent' : Frames)
      → IsUnsaved fin
      → persist_turn B f base embed gets_through x req question now later w seq answer fin sent
        ≡ (w', seq', (sent', some fin'))
      → fin'.markdown_synced ≡ false
      → w'.1 ≡ w.1
  persist_turn-unsynced now later w w' seq seq' answer fin fin' sent sent' u r =
      (promise now later w w' seq seq' answer fin fin' sent sent' u r).1
