-- ===== src/Http/Markdown.antt =====
-- internal/transport/http/memory_markdown.go: the entries of a memory file as text, and their parser.
-- Where the code moves a cursor over the file, the model holds what is left of the text.
pub mod Parser
pub mod Frame
pub mod Reads
pub mod Append
pub mod RoundTrip
pub mod Panics
use agent_cortex.Prelude.{
  ℕ, zero, suc, ◌+◌, ◌-◌, Bool, true, false, not, ◌&&◌, ◌||◌, Bytes, bytes_eq, List, [], ◌∷◌, ◌++◌,
  Option, none, some, length, ◌==◌, ltb, leb, if◌then◌else◌, is_some,
}
use agent_cortex.Prelude.Int.{ℤ, pos, negsuc, pos_part, ltb_ℤ, add64}
use agent_cortex.Prelude.Text.{codes}
use agent_cortex.Strings.{
  is_empty, trim_space, after_prefix, seek, before_suffix, cut_last, cut_line, split_lines,
}
use agent_cortex.Decimal.{itoa, atoi}
use agent_cortex.RateLimit.Types.{Time, is_zero}
use agent_cortex.Errors.{
  Error, Result, ok, err, guard, sentinel, invalid_request, memory_markdown, join,
  as_markdown_error, required, ◌>>=◌, ◌>>◌,
}
use agent_cortex.TimeFormat.{TimeFormat}
use agent_cortex.Memory.{Memory}
use agent_cortex.Http.Ids.{is_marker_id, validate_memory_marker_id, marker_end}

abbrev pub begin_prefix : Bytes
begin_prefix = codes "<!-- MemoryEntry:BEGIN id="

abbrev pub end_prefix : Bytes
end_prefix = codes "<!-- MemoryEntry:END id="

abbrev pub bytes_label : Bytes
bytes_label = codes " bytes="

-- `parsedMemoryMarkdownEntry`
pub record Entry : Type 0 where
  pub id : Bytes
  pub recorded_at : Time
  pub payload : Bytes
  pub content : Bytes

abbrev pub id_label : Bytes
id_label = codes "MemoryID:"

abbrev pub time_label : Bytes
time_label = codes "RecordedAt:"

abbrev pub line : Bytes → Bytes → Bytes
line text rest = text ++ b'\n' ∷ rest

-- `memoryMarkdownPayload`
unfoldable pub payload : TimeFormat → Memory → Time → Bytes
payload f m t = line (codes "## Memory") (
    line [] (
      line (id_label ++ b' ' ∷ m.id) (
        line (time_label ++ b' ' ∷ f.rfc3339 t) (
          line [] (
            line (codes "## Question") (
              line [] (
                line m.question
                  (line [] (line (codes "## Answer") (line [] (line m.answer [])))))))))))

abbrev pub begin_line : Bytes → ℕ → Bytes
begin_line id n = begin_prefix ++ (id ++ (bytes_label ++ (itoa n ++ marker_end)))

abbrev pub end_marker : Bytes → Bytes
end_marker id = end_prefix ++ (id ++ marker_end)

-- The text of one entry around its payload.
abbrev pub framed : Bytes → Bytes → Bytes
framed id text = line (begin_line id (length text)) (text ++ (end_marker id ++ b'\n' ∷ []))

-- `memoryMarkdownEntry`
unfoldable pub entry_text : TimeFormat → Memory → Time → Result Bytes
unfolding is_marker_id payload
entry_text f m t = do
  validate_memory_marker_id m.id
  guard (not (is_zero t)) memory_markdown
  ok (framed m.id (payload f m t))

abbrev pub preamble : Memory → Bytes → Bytes
preamble m entry = line (codes "# Memory") (
    line [] (
      line (codes "UserID: " ++ m.user_id)
        (line (codes "AgentID: " ++ m.agent_id) (line [] entry))))

-- `memoryMarkdownContent`
unfoldable pub new_content : TimeFormat → Memory → Result Bytes
unfolding entry_text
new_content f m = entry_text f m m.recorded_at >>= λ e. ok (preamble m e)

abbrev pub separator : Bytes
separator = codes "\n---\n\n"

-- `memoryMarkdownAppendContent`
unfoldable pub append_content : TimeFormat → Memory → Result Bytes
unfolding entry_text
append_content f m = entry_text f m m.recorded_at >>= λ e. ok (separator ++ e)

-- `parseMemoryEntryBeginLine`
unfoldable pub parse_begin_line : Bytes → Result (Bytes × ℕ)
unfolding is_marker_id
parse_begin_line s = do
  rest ← required (after_prefix begin_prefix s)
  metadata ← required (before_suffix marker_end rest)
  parts ← required (cut_last bytes_label metadata)
  validate_memory_marker_id parts.0
  n ← required (atoi parts.1)
  guard (not (ltb_ℤ n (pos 0))) memory_markdown
  ok (parts.0, pos_part n)

-- The value behind a label, in the first line that has the label.
unfoldable pub labelled : Bytes → List Bytes → Option Bytes
labelled label [] = none
labelled label (l ∷ ls) = elim (after_prefix label (trim_space l)) [
  | some v ↦ some (trim_space v)
  | none ↦ labelled label ls
]

abbrev pub unless_empty : Option Bytes → Option Bytes
unless_empty none = none
unless_empty (some v) = if is_empty v then none else some v

-- `memoryIDFromMarkdownEntry`
abbrev pub memory_id_from : Bytes → Option Bytes
memory_id_from text = unless_empty (labelled id_label (split_lines text))

-- `recordedAtFromMarkdownEntry`
abbrev pub recorded_at_from : TimeFormat → Bytes → Option Time
recorded_at_from f text = elim (labelled time_label (split_lines text)) [
  | none ↦ none
  | some v ↦ f.parse_rfc3339 v
]
