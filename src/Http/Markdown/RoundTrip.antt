-- ===== src/Http/Markdown/RoundTrip.antt =====
-- internal/transport/http/memory_markdown.go: memory files are read back, and the parser ends.
use agent_cortex.Prelude.{
  ℕ, zero, suc, ◌^◌, ◌<◌, ◌≡◌, ◌≢◌, refl, sym, ap, ◌∙◌, true, false, Bytes, [], ◌∷◌, ◌++◌, Option,
  none, some, length, arith, Option-cases, inl, inr,
}
use mathlib.Core.Path.{subst}
use agent_cortex.Prelude.Text.{codes}
use agent_cortex.Strings.{after_prefix, seek}
use agent_cortex.Strings.Search.{Free, length-seek}
use agent_cortex.RateLimit.Types.{is_zero}
use agent_cortex.Errors.{ok}
use agent_cortex.Decimal.{itoa}
use agent_cortex.Http.Ids.{marker_end, is_path_id, is_path_byte, all_path_bytes}
use agent_cortex.TimeFormat.{TimeFormat, IsLawful}
use agent_cortex.Memory.{Memory}
use agent_cortex.Http.Markdown.{
  Entry, bytes_label, begin_prefix, end_marker, framed, payload, separator, append_content,
  new_content, entry_text, preamble,
}
use agent_cortex.Http.Markdown.Parser.{
  Parsed, done, failed, panicked, Entries, entry_of, one_entry, scan, if_marked, entries_by_id,
}
use agent_cortex.Http.Markdown.Frame.{IsMarkerId}
use agent_cortex.Http.Markdown.Reads.{Reads-one_entry, length-Reads}
use agent_cortex.Http.Markdown.Append.{
  entry_for, Parsed-cases, scan-append, scan_one, seek-begin_prefix,
}

abbrev begin_rest : Bytes
begin_rest = codes "!-- MemoryEntry:BEGIN id="

-- A search passes over a text that the first byte searched for does not occur in.
seek-Free : (c : ℕ) (q p s : Bytes) → Free c p → seek (c ∷ q) (p ++ s) ≡ seek (c ∷ q) s
unfolding seek after_prefix
seek-Free c q [] s h = refl
seek-Free c q (b ∷ p) s h = ground (arith, h.0, seek-Free c q p s h.1)

all_path_bytes-Free :
    (s : Bytes) (c : ℕ) → is_path_byte c ≡ false → all_path_bytes s ≡ true → Free c s
unfolding all_path_bytes
all_path_bytes-Free [] c n h = tt
all_path_bytes-Free (b ∷ s) c n h =
    (λ e. ground (arith, e, n, h), all_path_bytes-Free s c n (ground (arith, h)))

is_path_id-Free : (s : Bytes) (c : ℕ) → is_path_byte c ≡ false → is_path_id s ≡ true → Free c s
unfolding is_path_id
is_path_id-Free s c n h = all_path_bytes-Free s c n (ground (arith, h))

if_marked_done :
    (o : Option (Parsed Entries)) (es : Entries) → if_marked o ≡ done es → o ≡ some (done es)
if_marked_done none es h = cc
if_marked_done (some (failed e)) es h = cc
if_marked_done (some panicked) es h = cc
if_marked_done (some (done [])) es h = cc
if_marked_done (some (done (e ∷ es'))) es h = ap some h

if_marked_more :
    (es : Entries) (x : Bytes × Entry)
    → if_marked (some (done (es ++ x ∷ []))) ≡ done (es ++ x ∷ [])
if_marked_more [] x = refl
if_marked_more (e ∷ es) x = refl

-- With more fuel than the text is long, the scan ends.
pub scan_total :
    (f : TimeFormat) (fuel total : ℕ) (s : Bytes) (found : Entries)
    → length s < fuel
    → scan f fuel total s found ≢ none
unfolding scan
scan_total f zero total s found h = absurd (omega (arith, h))
scan_total f (suc fuel) total s found h = elim (Option-cases (seek begin_prefix s)) [
  | inl e ↦ rw (e, scan) (λ x. cc)
  | inr (r, e) ↦ elim (Parsed-cases (one_entry f total found r)) [
    | inl (p, x) ↦
        rw (e, x, scan)
          (scan_total f fuel total p.1 (found ++ (p.0.id, p.0) ∷ []) (
            omega (
              arith,
              h,
              length-seek begin_prefix s r e,
              length-Reads f total found r p.0 p.1 (Reads-one_entry f total found r p.0 p.1 x),
            )))
    | inr (inl (d, x)) ↦ rw (e, x, scan) (λ y. cc)
    | inr (inr x) ↦ rw (e, x, scan) (λ y. cc)
  ]
]

module _ (f : TimeFormat) (lawful : IsLawful f) (m : Memory)
    (years : f.in_years m.recorded_at ≡ true) (set : is_zero m.recorded_at ≡ false)
    (marker : IsMarkerId m.id) where
  entry_text_ok : entry_text f m m.recorded_at ≡ ok (framed m.id (payload f m m.recorded_at))
  unfolding entry_text
  entry_text_ok = rw (marker.1, set, entry_text) refl

  pub append_content_ok :
      append_content f m ≡ ok (separator ++ framed m.id (payload f m m.recorded_at))
  unfolding append_content
  append_content_ok = rw (entry_text_ok, append_content) refl

  pub new_content_ok : new_content f m ≡ ok (preamble m (framed m.id (payload f m m.recorded_at)))
  unfolding new_content
  new_content_ok = rw (entry_text_ok, new_content) refl

  -- No entry begins in the lines above the first entry.
  seek-preamble :
      (e : Bytes)
      → is_path_id m.user_id ≡ true
      → is_path_id m.agent_id ≡ true
      → seek begin_prefix (preamble m e) ≡ seek begin_prefix e
  seek-preamble e u a =
      seek-Free b'<' begin_rest (codes "# Memory\n\nUserID: ") _ (omega arith)
      ∙ seek-Free b'<' begin_rest m.user_id _ (is_path_id-Free m.user_id b'<' refl u)
      ∙ seek-Free b'<' begin_rest (codes "\nAgentID: ") _ (omega arith)
      ∙ seek-Free b'<' begin_rest m.agent_id _ (is_path_id-Free m.agent_id b'<' refl a)
      ∙ seek-Free b'<' begin_rest (codes "\n\n") e (omega arith)

  -- What is written behind a file that parses adds exactly the memory's entry to the file's entries:
  -- for a memory that the file does not hold, with an identifier that may stand in a marker and a time
  -- of the years 0 to 9999, in a file that stays below 2^63 bytes.
  pub entries_by_id-append :
      (content : Bytes) (es : Entries) (appended : Bytes)
      → entries_by_id f content ≡ done es
      → entry_of m.id es ≡ none
      → append_content f m ≡ ok appended
      → length (content ++ appended) < 2 ^ 63
      → entries_by_id f (content ++ appended)
        ≡ done (es ++ (m.id, entry_for f m m.recorded_at) ∷ [])
  unfolding entries_by_id append_content
  entries_by_id-append content es appended h new a small =
      let text = payload f m m.recorded_at in
      let more : Bytes = separator ++ framed m.id text in
      let same : appended ≡ more = cc (a, append_content_ok) in
      let whole : entries_by_id f (content ++ more)
          ≡ done (es ++ (m.id, entry_for f m m.recorded_at) ∷ []) =
        ap if_marked (
          scan-append f lawful m m.recorded_at years marker (suc (length content))
            (suc (length (content ++ more))) (length content) (length (content ++ more)) content []
            es (if_marked_done (scan f (suc (length content)) (length content) content []) es h) new
            (subst (λ x. length (content ++ x) < 2 ^ 63) same small) (omega arith) (omega arith))
        ∙ if_marked_more es (m.id, entry_for f m m.recorded_at) in
      subst
        (λ x.
          entries_by_id f (content ++ x) ≡ done (es ++ (m.id, entry_for f m m.recorded_at) ∷ []))
        (sym same) whole

  -- A new file is read back as the one entry that it was made for.
  pub entries_by_id-new :
      (content : Bytes)
      → is_path_id m.user_id ≡ true
      → is_path_id m.agent_id ≡ true
      → new_content f m ≡ ok content
      → length content < 2 ^ 63
      → entries_by_id f content ≡ done ((m.id, entry_for f m m.recorded_at) ∷ [])
  unfolding entries_by_id new_content
  entries_by_id-new content u a c small =
      let text = payload f m m.recorded_at in
      let made : Bytes = preamble m (framed m.id text) in
      let same : content ≡ made = cc (c, new_content_ok) in
      let whole : entries_by_id f made ≡ done ((m.id, entry_for f m m.recorded_at) ∷ []) =
        ap if_marked (
          scan_one f lawful m m.recorded_at years marker (suc (length made)) (length made) made []
            (seek-preamble (framed m.id text) u a
              ∙ seek-begin_prefix (
                  (m.id ++ (bytes_label ++ (itoa (length text) ++ marker_end)))
                  ++ b'\n' ∷ (text ++ (end_marker m.id ++ b'\n' ∷ []))))
            refl (subst (λ x. length x < 2 ^ 63) same small) (omega arith) (omega arith)) in
      subst (λ x. entries_by_id f x ≡ done ((m.id, entry_for f m m.recorded_at) ∷ [])) (sym same)
        whole
