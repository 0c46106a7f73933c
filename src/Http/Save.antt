-- ===== src/Http/Save.antt =====
-- internal/transport/http/handler.go: saving a memory, in its day's file and in the storage. A call holds
-- the handlers' lock from the first lookup on.
pub mod Outcomes
pub mod ReadBack
use agent_cortex.Prelude.{
  ℕ, Bool, true, false, not, ◌&&◌, ◌||◌, Bytes, bytes_eq, List, [], ◌∷◌, ◌++◌, Option, none, some,
  if◌then◌else◌, ◌+◌, ◌%◌, ◌^◌,
}
use agent_cortex.Prelude.Int.{ℤ, pos, eqb_ℤ}
use agent_cortex.Prelude.Text.{codes}
use agent_cortex.Strings.{trim_space, is_empty}
use agent_cortex.RateLimit.Types.{Time, is_zero}
use agent_cortex.Errors.{
  Error, Result, ok, err, sentinel, memory_markdown, memory_conflict, ◌>>=◌, ◌>>◌,
}
use agent_cortex.TimeFormat.{TimeFormat}
use agent_cortex.Memory.{Memory, Backend, same_content, daily_markdown_storage_version}
use agent_cortex.Memory
use agent_cortex.Files.{Disk, Faults}
use agent_cortex.Http.Ids.{validate_memory_path_id, validate_memory_marker_id, daily_path}
use agent_cortex.Http.Markdown.{Entry}
use agent_cortex.Http.Markdown.Parser.{Parsed, done, failed, panicked}
use agent_cortex.Http.MemoryFiles.{Written, find_entry, read_entry_on, entry_matches, write_memory}

abbrev pub default_memory_markdown_dir : Bytes
default_memory_markdown_dir = codes ".memory"

-- The folder that `newHandlers` settles on.
abbrev pub memory_dir : Bytes → Bytes
memory_dir dir = let d = trim_space dir in if is_empty d then default_memory_markdown_dir else d

-- `normalizeMemory`
unfoldable pub normalize_memory : Memory → Memory
normalize_memory m =
    let q = trim_space m.question in
    let a = trim_space m.answer in
    record m {
      id = trim_space m.id;
      agent_id = trim_space m.agent_id;
      user_id = trim_space m.user_id;
      question = q;
      answer = a;
      content = trim_space (q ++ b'\n' ∷ a);
    }

-- How `saveMemory` ends: its result with its error, or a panic.
pub data Saved : Type 0 where
  saved : Bool → Option Error → Saved
  crashed : Saved

abbrev pub refused : Error → Saved
refused e = saved false (some e)

abbrev pub check_ids : Memory → Result (Unit {0})
check_ids m = do
  validate_memory_path_id m.user_id
  validate_memory_path_id m.agent_id
  validate_memory_marker_id m.id

abbrev pub stamped : Memory → Time → Memory
stamped m now = record m { recorded_at = now; storage_version = daily_markdown_storage_version }

module _ (B : Backend) (f : TimeFormat) (base : Bytes) where
  -- What the handlers change: the disk and the storage.
  abbrev pub World : Type 0
  World = Disk × B.State

  -- A memory that the storage has: its entry must be there and agree.
  abbrev pub check_stored : Memory → Parsed (Option Entry) → Saved
  check_stored m (failed e) = refused e
  check_stored m panicked = crashed
  check_stored m (done none) = refused (sentinel memory_markdown)
  check_stored m (done (some e)) =
      if entry_matches f e m then saved true none else refused (sentinel memory_markdown)

  unfoldable pub save_stored : Faults → World → Memory → Memory → Saved
  save_stored x w m stored =
      if not (eqb_ℤ stored.storage_version daily_markdown_storage_version)
        || not (same_content stored m)
      then refused (sentinel memory_conflict)
      else if is_zero stored.recorded_at
      then refused (sentinel memory_markdown)
      else check_stored m (
          read_entry_on f x w.0 base stored.id
            (daily_path f base stored.user_id stored.agent_id stored.recorded_at))

  abbrev pub store_result : Disk → B.State × Result (Unit {0}) → World × Saved
  store_result d (s, ok _) = ((d, s), saved true none)
  store_result d (s, err e) = ((d, s), saved true (some e))

  -- The last step: the storage, behind the file.
  abbrev pub store_behind : B.State → Memory → Written → World × Saved
  store_behind s m (d, failed e) = ((d, s), refused e)
  store_behind s m (d, panicked) = ((d, s), crashed)
  store_behind s m (d, done _) = store_result d (Memory.save B s m)

  -- A memory that the storage lacks: its entry may be there from an earlier call that failed.
  unfoldable pub save_new : Faults → World → Memory → Parsed (Option Entry) → World × Saved
  save_new x w m (failed e) = (w, refused e)
  save_new x w m panicked = (w, crashed)
  save_new x w m (done (some e)) =
      if entry_matches f e m
      then store_result w.0 (Memory.save B w.1 (record m { recorded_at = e.recorded_at }))
      else (w, refused (sentinel memory_conflict))
  save_new x w m (done none) = store_behind w.1 m (write_memory f x w.0 base m)

  -- `saveMemory` behind the lock.
  unfoldable pub save_locked : Faults → World → Memory → Result (Option Memory) → World × Saved
  unfolding save_stored save_new
  save_locked x w m (err e) = (w, refused e)
  save_locked x w m (ok (some stored)) = (w, save_stored x w m stored)
  save_locked x w m (ok none) = save_new x w m (find_entry f x w.0 base m.user_id m.agent_id m.id)

  abbrev pub save_checked : Faults → World → Memory → Result (Unit {0}) → World × Saved
  save_checked x w m (err e) = (w, refused e)
  save_checked x w m (ok _) = save_locked x w m (B.find_by_id w.1 m.id)

  -- `saveMemory`, at the clock's reading
  unfoldable pub save_memory : Faults → Time → World → Memory → World × Saved
  unfolding save_locked normalize_memory
  save_memory x now w item =
      let m = normalize_memory item in save_checked x w (stamped m now) (check_ids m)
