-- ===== src/Http/Markdown/Panics.antt =====
-- internal/transport/http/memory_markdown.go: where the parser panics.
use agent_cortex.Prelude.{
  ℕ, suc, ◌+◌, ◌^◌, ◌≤◌, ◌<◌, ◌≡◌, refl, ap, Bytes, [], ◌∷◌, ◌++◌, some, length, length-append,
  arith,
}
use agent_cortex.Prelude.Int.{add64, wrap64, ◌+ℤ◌}
use agent_cortex.Strings.{seek, cut_line}
use agent_cortex.Errors.{ok}
use agent_cortex.Decimal.{itoa}
use agent_cortex.Http.Ids.{marker_end}
use agent_cortex.TimeFormat.{TimeFormat}
use agent_cortex.Http.Markdown.{bytes_label, begin_prefix, begin_line, parse_begin_line, line}
use agent_cortex.Http.Markdown.Parser.{
  panicked, slice, Entries, one_entry, scan, if_marked, entries_by_id,
}
use agent_cortex.Http.Markdown.Frame.{IsMarkerId, parse_begin_line-begin_line, cut_line-begin_line}
use agent_cortex.Http.Markdown.Append.{seek-begin_prefix}

slice_wraps :
    (total n : ℕ) (rest : Bytes)
    → total < 2 ^ 63
    → length rest ≤ total
    → n < 2 ^ 63
    → 2 ^ 63 + length rest ≤ n + total
    → slice total n rest ≡ panicked
unfolding slice add64 wrap64 ◌+ℤ◌
slice_wraps total n rest small fits short wraps = ground arith

one_entry_panics :
    (f : TimeFormat) (total : ℕ) (found : Entries) (s head rest id : Bytes) (n : ℕ)
    → cut_line s ≡ some (head, rest)
    → parse_begin_line head ≡ ok (id, n)
    → slice total n rest ≡ panicked
    → one_entry f total found s ≡ panicked
unfolding one_entry
one_entry_panics f total found s head rest id n a b c = rw (a, b, c, one_entry) refl

scan_panics :
    (f : TimeFormat) (fuel total : ℕ) (s r : Bytes) (found : Entries)
    → seek begin_prefix s ≡ some r
    → one_entry f total found r ≡ panicked
    → scan f (suc fuel) total s found ≡ some panicked
unfolding scan
scan_panics f fuel total s r found a b = rw (a, b, scan) refl

-- A begin marker at the start of a file, with an identifier that may stand in it and a length below 2^63
-- whose sum with the place behind the marker's line is not, makes the parser panic: the sum wraps to a
-- negative number, which the test against the file's length lets through.
pub entries_by_id-panics :
    (f : TimeFormat) (id : Bytes) (n : ℕ) (rest : Bytes)
    → IsMarkerId id
    → n < 2 ^ 63
    → 2 ^ 63 ≤ n + suc (length (begin_line id n))
    → suc (length (begin_line id n)) + length rest < 2 ^ 63
    → entries_by_id f (line (begin_line id n) rest) ≡ panicked
unfolding entries_by_id
entries_by_id-panics f id n rest marker small wraps fits =
    let s : Bytes = line (begin_line id n) rest in
    let size = length-append (begin_line id n) (b'\n' ∷ rest) in
    ap if_marked (
      scan_panics f (length s) (length s) s s []
        (seek-begin_prefix ((id ++ (bytes_label ++ (itoa n ++ marker_end))) ++ b'\n' ∷ rest))
        (one_entry_panics f (length s) [] s (begin_line id n) rest id n
          (cut_line-begin_line id marker n rest) (parse_begin_line-begin_line id marker n small)
          (slice_wraps (length s) n rest (omega (arith, size, fits)) (omega (arith, size)) small
            (omega (arith, size, wraps)))))
