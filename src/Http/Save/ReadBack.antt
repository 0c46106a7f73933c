-- ===== src/Http/Save/ReadBack.antt =====
-- handler.go and memory_markdown.go: what the file of a saved memory reads back as.
use agent_cortex.Prelude.{
  ℕ, true, false, Bytes, [], ◌∷◌, ◌++◌, none, some, length, ◌≡◌, sym, ap, ◌∙◌, ◌<◌, ◌^◌,
}
use agent_cortex.RateLimit.Types.{is_zero}
use agent_cortex.Errors.{Error, Result, ok, err, file_exists, is_error}
use agent_cortex.TimeFormat.{TimeFormat, IsLawful}
use agent_cortex.Memory.{Memory, Backend}
use agent_cortex.Memory
use agent_cortex.Files.{file, Disk, Faults, node, markdown_file_path}
use agent_cortex.Http.Ids.{is_path_id, daily_path}
use agent_cortex.Http.Markdown.Parser.{done, failed, panicked, Entries, entry_of}
use agent_cortex.Http.Markdown.Frame.{IsMarkerId}
use agent_cortex.Http.Markdown.Append.{entry_for}
use agent_cortex.Http.Save.{Saved, saved, store_result, store_behind, save_new, World}
use agent_cortex.Http.MemoryFiles.{Written, read_entries, write_on, write_memory}
use agent_cortex.Http.MemoryFiles.Writes.{entries_held, write_on-read_entries}

module _ (B : Backend) (f : TimeFormat) (base : Bytes) where
  store_result-ok :
      (d d' : Disk) (s' : B.State) (r : B.State × Result (Unit {0}))
      → store_result B f base d r ≡ ((d', s'), saved true none)
      → (d ≡ d') × (r ≡ (s', ok tt))
  store_result-ok d d' s' (s, ok a) h = (
    ap (λ (p : World B f base × Saved). p.0.0) h,
    ap (λ (p : World B f base × Saved). (p.0.1, ok tt)) h,
  )
  store_result-ok d d' s' (s, err e) h = cc (h)

  store_behind-ok :
      (s s' : B.State) (d' : Disk) (m : Memory) (r : Written)
      → store_behind B f base s m r ≡ ((d', s'), saved true none)
      → (r ≡ (d', done tt)) × (Memory.save B s m ≡ (s', ok tt))
  store_behind-ok s s' d' m (d, failed e) h = cc (h)
  store_behind-ok s s' d' m (d, panicked) h = cc (h)
  store_behind-ok s s' d' m (d, done a) h =
      let (e, r) = store_result-ok d d' s' (Memory.save B s m) h in (ap (λ y. (y, done tt)) e, r)

  -- A save of a memory that neither the storage nor a daily file has, and that succeeds: the day's file
  -- then reads back as the entries that stood there and, behind them, the one entry of the memory, and
  -- the storage has accepted the same memory. The memory has path identifiers and a marker identifier
  -- and a time of the years 0 to 9999; its file could be read, held none of its entries before and stays
  -- below 2^63 bytes; the folder's name has no blanks around it; a failing write is not mistaken for an
  -- existing file.
  pub save_new-read_entries :
      (lawful : IsLawful f) (x : Faults) (w : World B f base) (m : Memory) (dir name : Bytes)
      → f.in_years m.recorded_at ≡ true
      → is_zero m.recorded_at ≡ false
      → IsMarkerId m.id
      → is_path_id m.user_id ≡ true
      → is_path_id m.agent_id ≡ true
      → daily_path f base m.user_id m.agent_id m.recorded_at ≡ ok (dir, name)
      → markdown_file_path dir name ≡ ok (dir, name)
      → x.read name ≡ none
      → (es : Entries) → entries_held f (node dir name w.0) ≡ done es
      → entry_of m.id es ≡ none
      → ((k : ℕ) (e : Error) → x.write_new ≡ some (k, e) → is_error e file_exists ≡ false)
      → (d' : Disk) (s' : B.State)
      → ((t : Bytes) → node dir name d' ≡ some (file t) → length t < 2 ^ 63)
      → save_new B f base x w m (done none) ≡ ((d', s'), saved true none)
      → (read_entries f x d' dir name ≡ done (es ++ (m.id, entry_for f m m.recorded_at) ∷ []))
        × (Memory.save B w.1 m ≡ (s', ok tt))
  unfolding save_new
  save_new-read_entries lawful x w m dir name years set marker user agent at path reads es held new
        plain d' s' small h =
      let (r, s) = store_behind-ok w.1 s' d' m (write_memory f x w.0 base m) h in
      (
        write_on-read_entries f lawful x w.0 m dir name years set marker user agent path reads d' es
            held new small plain (sym (ap (write_on f x w.0 m) at) ∙ r),
        s,
      )
