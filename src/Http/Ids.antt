-- ===== src/Http/Ids.antt =====
-- internal/transport/http/memory_markdown.go: the checks of identifiers, and the place of a file.
use agent_cortex.Prelude.{ℕ, Bool, true, not, ◌&&◌, ◌||◌, Bytes, bytes_eq, [], ◌∷◌, ◌++◌, leb, ◌==◌}
use agent_cortex.Prelude.Text.{codes}
use agent_cortex.Strings.{is_empty, trim_space, contains, contains_any}
use agent_cortex.RateLimit.Types.{Time, is_zero}
use agent_cortex.Errors.{Result, ok, guard, invalid_request, memory_markdown, ◌>>=◌, ◌>>◌}
use agent_cortex.TimeFormat.{TimeFormat}

abbrev pub is_path_byte : ℕ → Bool
is_path_byte c =
    (leb b'a' c && leb c b'z')
    || (leb b'A' c && leb c b'Z')
    || (leb b'0' c && leb c b'9')
    || c == b'-'
    || c == b'_'

-- The loop of `validateMemoryPathID`. It visits code points; a byte of one above 127 fails as well.
unfoldable pub all_path_bytes : Bytes → Bool
all_path_bytes [] = true
all_path_bytes (c ∷ s) = is_path_byte c && all_path_bytes s

unfoldable pub is_path_id : Bytes → Bool
unfolding all_path_bytes
is_path_id s = not (is_empty s || not (bytes_eq s (trim_space s))) && all_path_bytes s

-- `validateMemoryPathID`
abbrev pub validate_memory_path_id : Bytes → Result (Unit {0})
validate_memory_path_id s = guard (is_path_id s) invalid_request

abbrev pub marker_end : Bytes
marker_end = codes " -->"

unfoldable pub is_marker_id : Bytes → Bool
is_marker_id value =
    let s = trim_space value in
    not (is_empty s || contains_any (b'\r' ∷ b'\n' ∷ []) s || contains marker_end s)

-- `validateMemoryMarkerID`
abbrev pub validate_memory_marker_id : Bytes → Result (Unit {0})
validate_memory_marker_id s = guard (is_marker_id s) invalid_request

-- `filepath.Join` of a directory that `filepath.Clean` leaves as it is with names that hold no slash.
abbrev pub join_path : Bytes → Bytes → Bytes
join_path dir name = dir ++ b'/' ∷ name

-- `memoryMarkdownDir`
unfoldable pub memory_markdown_dir : Bytes → Bytes → Bytes → Result Bytes
unfolding is_path_id
memory_markdown_dir base user_id agent_id = do
  let dir = trim_space base
  guard (not (is_empty dir)) memory_markdown
  validate_memory_path_id user_id
  validate_memory_path_id agent_id
  ok (join_path (join_path dir user_id) agent_id)

abbrev pub memory_suffix : Bytes
memory_suffix = codes "_Memory.md"

-- `memoryMarkdownDailyFilename`
unfoldable pub daily_filename : TimeFormat → Time → Result Bytes
daily_filename f t = do guard (not (is_zero t)) memory_markdown; ok (f.date t ++ memory_suffix)

-- `memoryMarkdownDailyPath`
unfoldable pub daily_path : TimeFormat → Bytes → Bytes → Bytes → Time → Result (Bytes × Bytes)
unfolding memory_markdown_dir daily_filename
daily_path f base user_id agent_id t = do
  dir ← memory_markdown_dir base user_id agent_id
  filename ← daily_filename f t
  ok (dir, filename)
