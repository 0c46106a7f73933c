-- ===== src/Http/Examples.antt =====
-- Runs of the parser, the saves and the handlers on samples.
use agent_cortex.Prelude.{◌-◌, ◌^◌, ◌≡◌, ◌≢◌, refl, bytes_eq, [], ◌∷◌, ◌++◌, none, arith}
use agent_cortex.Prelude.Text.{codes}
use agent_cortex.Decimal.{itoa, digits}
use agent_cortex.Http.Markdown.{begin_line, payload, line}
use agent_cortex.Http.Markdown.Parser.{panicked, done, scan, entries_by_id, entry_of}
use agent_cortex.Http.Markdown.Append.{entry_for}
use agent_cortex.Http.Markdown.RoundTrip.{scan_total, entries_by_id-append, append_content_ok}
use agent_cortex.Http.Markdown.Panics.{entries_by_id-panics}
use agent_cortex.Http.Samples.{
  noon, format, format-IsLawful, second, held_text, added_text, held_entries, marker, holds,
}

scan_total_example : scan format 40 36 (codes "<!-- MemoryEntry:BEGIN id=x bytes=3 -->") [] ≢ none
scan_total_example =
    scan_total format 40 36 (codes "<!-- MemoryEntry:BEGIN id=x bytes=3 -->") [] (omega arith)

entries_by_id-panics_example :
    entries_by_id format (line (begin_line (codes "m1") (2 ^ 63 - 1)) (codes "y")) ≡ panicked
unfolding itoa
entries_by_id-panics_example =
    entries_by_id-panics format (codes "m1") (2 ^ 63 - 1) (codes "y") (marker (codes "m1") refl)
      (omega arith) (omega arith) (omega arith)

entries_by_id-append_example :
    entries_by_id format (held_text ++ added_text)
    ≡ done (held_entries ++ (codes "m1", entry_for format second noon) ∷ [])
unfolding payload itoa digits entry_of bytes_eq
entries_by_id-append_example =
    entries_by_id-append format format-IsLawful second refl refl (marker (codes "m1") refl)
      held_text held_entries added_text holds refl
      (append_content_ok format format-IsLawful second refl refl (marker (codes "m1") refl))
      (omega arith)
