-- ===== src/Http/MemoryFiles.antt =====
-- internal/transport/http/memory_markdown.go: the daily memory files of an agent on disk.
pub mod Writes
use agent_cortex.Prelude.{
  Bool, true, false, not, ◌&&◌, ◌||◌, Bytes, bytes_eq, List, [], ◌∷◌, Option, none, some,
  if◌then◌else◌,
}
use agent_cortex.Strings.{before_suffix}
use agent_cortex.Errors.{
  Error, Result, ok, err, sentinel, memory_markdown, file_exists, join, is_error, as_markdown_error,
  ◌>>=◌,
}
use agent_cortex.TimeFormat.{TimeFormat}
use agent_cortex.Memory.{Memory}
use agent_cortex.Files.{
  Node, file, folder, Listing, Disk, Faults, get, node, or_fault, contents, markdown_file_exists,
  create_markdown_file, append_markdown_file,
}
use agent_cortex.Http.Ids.{memory_markdown_dir, daily_path, memory_suffix}
use agent_cortex.Http.Markdown.{Entry, payload, new_content, append_content}
use agent_cortex.Http.Markdown.Parser.{
  Parsed, done, failed, panicked, parsed, Entries, entry_of, entries_by_id,
}
use agent_cortex.Http.Markdown.Parser as P

-- An error of the parser joined behind `ErrMemoryMarkdown`.
abbrev pub joined {ℓ} : {A : Type ℓ} → Parsed A → Parsed A
joined (done a) = done a
joined (failed e) = failed (join (sentinel memory_markdown) e)
joined panicked = panicked

abbrev pub read_file : Faults → Disk → Bytes → Bytes → Result Bytes
read_file x d dir name = or_fault (x.read name) (contents (node dir name d))

abbrev pub parse_file : TimeFormat → Result Bytes → Parsed Entries
parse_file f (err e) = failed (join (sentinel memory_markdown) e)
parse_file f (ok text) = joined (entries_by_id f text)

-- `readMemoryMarkdownEntries`
unfoldable pub read_entries : TimeFormat → Faults → Disk → Bytes → Bytes → Parsed Entries
read_entries f x d dir name = parse_file f (read_file x d dir name)

abbrev pub is_date_part : TimeFormat → Option Bytes → Bool
is_date_part f none = false
is_date_part f (some part) = f.is_date part

-- `isDailyMemoryMarkdownFilename`
abbrev pub is_daily_filename : TimeFormat → Bytes → Bool
is_daily_filename f name = is_date_part f (before_suffix memory_suffix name)

abbrev pub is_folder : Node → Bool
is_folder folder = true
is_folder (file text) = false

-- One file of the loop of `findMemoryMarkdownEntry`: what has been found after it.
abbrev pub found_in : Option Entry → Option Entry → Parsed (Option Entry)
found_in found none = done found
found_in none (some e) = done (some e)
found_in (some e') (some e) = failed (sentinel memory_markdown)

-- The loop of `findMemoryMarkdownEntry`.
unfoldable pub find_in :
    TimeFormat → Faults → Disk → Bytes → Bytes → Listing → Option Entry → Parsed (Option Entry)
unfolding read_entries
find_in f x d dir id [] found = done found
find_in f x d dir id ((name, n) ∷ rest) found =
    elim (is_folder n || not (is_daily_filename f name)) [
      | true ↦ find_in f x d dir id rest found
      | false ↦ elim (read_entries f x d dir name) [
        | failed e ↦ failed e
        | panicked ↦ panicked
        | done entries ↦ elim (found_in found (entry_of id entries)) [
          | failed e ↦ failed e
          | panicked ↦ panicked
          | done found' ↦ find_in f x d dir id rest found'
        ]
      ]
    ]

abbrev pub find_below :
    TimeFormat → Faults → Disk → Bytes → Bytes → Option Listing → Parsed (Option Entry)
find_below f x d dir id none = done none
find_below f x d dir id (some l) = find_in f x d dir id l none

abbrev pub unless_fault {ℓ} : {A : Type ℓ} → Option Error → Parsed A → Parsed A
unless_fault none p = p
unless_fault (some e) p = failed (join (sentinel memory_markdown) e)

-- `findMemoryMarkdownEntry`
unfoldable pub find_entry :
    TimeFormat → Faults → Disk → Bytes → Bytes → Bytes → Bytes → Parsed (Option Entry)
unfolding find_in
find_entry f x d base user_id agent_id id =
    P.◌>>=◌ (parsed (memory_markdown_dir base user_id agent_id))
      (λ dir. unless_fault x.read_dir (find_below f x d dir id (get dir d)))

-- `readMemoryMarkdownEntry` of handler.go, on the file that a time names
unfoldable pub read_entry_on :
    TimeFormat → Faults → Disk → Bytes → Bytes → Result (Bytes × Bytes) → Parsed (Option Entry)
unfolding read_entries
read_entry_on f x d base id (err e) = failed e
read_entry_on f x d base id (ok (dir, name)) =
    P.◌>>=◌ (read_entries f x d dir name) (λ entries. done (entry_of id entries))

-- `parsedEntryMatchesMemory`
abbrev pub entry_matches : TimeFormat → Entry → Memory → Bool
entry_matches f e m = bytes_eq e.id m.id && bytes_eq e.payload (payload f m e.recorded_at)

-- The disk behind a write, and how the write ended.
abbrev pub Written : Type 0
Written = Disk × Parsed (Unit {0})

abbrev pub wrapped : Disk × Result (Unit {0}) → Written
wrapped (d, ok _) = (d, done tt)
wrapped (d, err e) = (d, failed (join (sentinel memory_markdown) e))

abbrev pub append_checked : Faults → Disk → Bytes → Bytes → Result Bytes → Written
append_checked x d dir name (err e) = (d, failed e)
append_checked x d dir name (ok text) = wrapped (append_markdown_file x d dir name text)

-- The append of `writeMemoryMarkdown` to a file that is there.
abbrev pub append_existing :
    TimeFormat → Faults → Disk → Bytes → Bytes → Memory → Parsed Entries → Written
append_existing f x d dir name m (failed e) = (d, failed e)
append_existing f x d dir name m panicked = (d, panicked)
append_existing f x d dir name m (done entries) = append_checked x d dir name (append_content f m)

-- The append to a file that turned up while it was to be made.
abbrev pub append_raced :
    TimeFormat → Faults → Disk → Bytes → Bytes → Memory → Parsed Entries → Written
append_raced f x d dir name m (failed e) = (d, failed e)
append_raced f x d dir name m panicked = (d, panicked)
append_raced f x d dir name m (done entries) = elim (entry_of m.id entries) [
  | some e ↦ (d, failed (sentinel memory_markdown))
  | none ↦ append_checked x d dir name (append_content f m)
]

abbrev pub created :
    TimeFormat → Faults → Bytes → Bytes → Memory → Disk × Result (Unit {0}) → Written
created f x dir name m (d, ok _) = (d, done tt)
created f x dir name m (d, err e) =
    if is_error e file_exists
    then append_raced f x d dir name m (read_entries f x d dir name)
    else (d, failed (join (sentinel memory_markdown) e))

abbrev pub create_checked :
    TimeFormat → Faults → Disk → Bytes → Bytes → Memory → Result Bytes → Written
create_checked f x d dir name m (err e) = (d, failed e)
create_checked f x d dir name m (ok text) =
    created f x dir name m (create_markdown_file x d dir name text)

abbrev pub write_by : TimeFormat → Faults → Disk → Bytes → Bytes → Memory → Result Bool → Written
write_by f x d dir name m (err e) = (d, failed (join (sentinel memory_markdown) e))
write_by f x d dir name m (ok true) = append_existing f x d dir name m (read_entries f x d dir name)
write_by f x d dir name m (ok false) = create_checked f x d dir name m (new_content f m)

-- `writeMemoryMarkdown`, on the file that the memory's time names
unfoldable pub write_on : TimeFormat → Faults → Disk → Memory → Result (Bytes × Bytes) → Written
unfolding read_entries new_content append_content
write_on f x d m (err e) = (d, failed e)
write_on f x d m (ok (dir, name)) = write_by f x d dir name m (markdown_file_exists x d dir name)

-- `writeMemoryMarkdown`
abbrev pub write_memory : TimeFormat → Faults → Disk → Bytes → Memory → Written
write_memory f x d base m = write_on f x d m (daily_path f base m.user_id m.agent_id m.recorded_at)
