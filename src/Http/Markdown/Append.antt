-- ===== src/Http/Markdown/Append.antt =====
-- internal/transport/http/memory_markdown.go: what appending an entry to a file adds to its entries.
use agent_cortex.Prelude.{
  ℕ, zero, suc, ◌+◌, ◌^◌, ◌≤◌, ◌<◌, ◌≡◌, refl, sym, ◌∙◌, true, Bytes, bytes_eq_self, [], ◌∷◌, ◌++◌,
  none, some, length, length-append, arith, Option-cases, inl, inr, ◌⊎◌,
}
use mathlib.Core.Path.{subst}
use agent_cortex.Prelude.Text.{codes}
use agent_cortex.Strings.{trim_space, after_prefix, seek}
use agent_cortex.Strings.Search.{
  after_prefix-append, seek-some_append, seek-none_append, length-seek,
}
use agent_cortex.RateLimit.Types.{Time}
use agent_cortex.Errors.{Error}
use agent_cortex.Decimal.{itoa}
use agent_cortex.Http.Ids.{marker_end}
use agent_cortex.TimeFormat.{TimeFormat, IsLawful}
use agent_cortex.Memory.{Memory}
use agent_cortex.Http.Markdown.{
  Entry, bytes_label, begin_prefix, begin_line, end_marker, framed, payload, memory_id_from,
  recorded_at_from, separator,
}
use agent_cortex.Http.Markdown.Parser.{
  Parsed, done, failed, panicked, Entries, entry_from, entry_of, one_entry, scan,
}
use agent_cortex.Http.Markdown.Frame.{
  IsMarkerId, parse_begin_line-begin_line, cut_line-begin_line, memory_id_from-payload,
  recorded_at_from-payload,
}
use agent_cortex.Http.Markdown.Reads.{
  Reads, split_at-append, slice-split_at, Reads-one_entry, one_entry-Reads, length-Reads,
  Reads-append,
}

pub Parsed-cases {ℓ} :
    {A : Type ℓ} (x : Parsed A)
    → ((a : A) × (x ≡ done a)) ⊎ (((e : Error) × (x ≡ failed e)) ⊎ (x ≡ panicked))
Parsed-cases (done a) = inl (a, refl)
Parsed-cases (failed e) = inr (inl (e, refl))
Parsed-cases panicked = inr (inr refl)

-- A scan that succeeds has read each entry that it met.
pub scan_found :
    (f : TimeFormat) (fuel total : ℕ) (s r : Bytes) (found es : Entries)
    → seek begin_prefix s ≡ some r
    → scan f (suc fuel) total s found ≡ some (done es)
    → (p : Entry × Bytes) × (one_entry f total found r ≡ done p)
      × (scan f fuel total p.1 (found ++ (p.0.id, p.0) ∷ []) ≡ some (done es))
unfolding scan
scan_found f fuel total s r found es e h = elim (Parsed-cases (one_entry f total found r)) [
  | inl (p, x) ↦ (p, x, ground (arith, e, x, h))
  | inr (inl (d, x)) ↦ absurd (ground (arith, e, x, h))
  | inr (inr x) ↦ absurd (ground (arith, e, x, h))
]

pub seek-begin_prefix :
    (rest : Bytes) → seek begin_prefix (begin_prefix ++ rest) ≡ some (begin_prefix ++ rest)
unfolding seek after_prefix
seek-begin_prefix rest = refl

-- The entry that a memory is read back as.
abbrev pub entry_for : TimeFormat → Memory → Time → Entry
entry_for f m t = record {
  id = m.id;
  recorded_at = f.to_second t;
  payload = payload f m t;
  content = trim_space (payload f m t);
}

entry_from-payload :
    (f : TimeFormat) (found : Entries) (m : Memory) (t : Time) (u : Time) (text : Bytes)
    → entry_of m.id found ≡ none
    → memory_id_from text ≡ some m.id
    → recorded_at_from f text ≡ some u
    → entry_from f found m.id text
      ≡ done (record { id = m.id; recorded_at = u; payload = text; content = trim_space text })
unfolding entry_from
entry_from-payload f found m t u text a b c = rw (a, b, c, bytes_eq_self m.id) refl

module _ (f : TimeFormat) (lawful : IsLawful f) (m : Memory) (t : Time)
    (years : f.in_years t ≡ true) (marker : IsMarkerId m.id) where
  abbrev pub text : Bytes
  text = payload f m t

  pub framed-Reads :
      (total : ℕ) (found : Entries)
      → total < 2 ^ 63
      → length (framed m.id text) ≤ total
      → entry_of m.id found ≡ none
      → Reads f total found (framed m.id text) (entry_for f m t) (b'\n' ∷ [])
  framed-Reads total found small fits new = record {
    head = begin_line m.id (length text);
    rest = text ++ (end_marker m.id ++ b'\n' ∷ []);
    id = m.id;
    size = length text;
    text = text;
    body = end_marker m.id ++ b'\n' ∷ [];
    cut = cut_line-begin_line m.id marker (length text) (text ++ (end_marker m.id ++ b'\n' ∷ []));
    begins =
        parse_begin_line-begin_line m.id marker (length text)
          (omega (arith, small, fits, framed_size));
    sliced =
        slice-split_at total (length text) (text ++ (end_marker m.id ++ b'\n' ∷ [])) text
          (end_marker m.id ++ b'\n' ∷ []) small (omega (arith, fits, framed_size))
          (split_at-append text (end_marker m.id ++ b'\n' ∷ []));
    ends = after_prefix-append (end_marker m.id) (b'\n' ∷ []);
    checked =
        entry_from-payload f found m t (f.to_second t) text new
          (memory_id_from-payload f lawful m t years marker)
          (recorded_at_from-payload f lawful m t years marker);
  }
    where
      tail : Bytes
      tail = text ++ (end_marker m.id ++ b'\n' ∷ [])

      framed_size :
          (length (framed m.id text) ≡ length (begin_line m.id (length text)) + suc (length tail))
          × (length tail ≡ length text + length (end_marker m.id ++ b'\n' ∷ []))
      framed_size = (
        length-append (begin_line m.id (length text)) (b'\n' ∷ tail),
        length-append text (end_marker m.id ++ b'\n' ∷ []),
      )

  abbrev pub added : Bytes
  added = separator ++ framed m.id text

  seek_framed :
      (rest : Bytes)
      → seek begin_prefix (codes "---\n\n" ++ (begin_prefix ++ rest)) ≡ some (begin_prefix ++ rest)
  unfolding seek after_prefix
  seek_framed rest = refl

  seek-added :
      (s : Bytes)
      → seek begin_prefix s ≡ none
      → seek begin_prefix (s ++ added) ≡ some (framed m.id text)
  seek-added s e =
      seek-none_append b'\n' begin_prefix s (codes "---\n\n" ++ framed m.id text) (omega arith)
        (λ h. cc) e
      ∙ seek_framed (
          (m.id ++ (bytes_label ++ (itoa (length text) ++ marker_end)))
          ++ b'\n' ∷ (text ++ (end_marker m.id ++ b'\n' ∷ [])))

  -- The scan of a file's last part, in which only the memory's entry begins.
  pub scan_one :
      (fuel total : ℕ) (s : Bytes) (found : Entries)
      → seek begin_prefix s ≡ some (framed m.id text)
      → entry_of m.id found ≡ none
      → total < 2 ^ 63
      → length s ≤ total
      → 1 < fuel
      → scan f fuel total s found ≡ some (done (found ++ (m.id, entry_for f m t) ∷ []))
  unfolding scan seek after_prefix
  scan_one zero total s found e new small fits more = absurd (omega (arith, more))
  scan_one (suc zero) total s found e new small fits more = absurd (omega (arith, more))
  scan_one (suc (suc fuel)) total s found e new small fits more =
      rw
        (
          e,
          one_entry-Reads f total found (framed m.id text) (entry_for f m t) (b'\n' ∷ []) (
              framed-Reads total found small
                (omega (arith, fits, length-seek begin_prefix s (framed m.id text) e)) new),
          scan,
        )
        refl

  scan_last :
      (fuel total : ℕ) (s : Bytes) (found : Entries)
      → seek begin_prefix s ≡ none
      → entry_of m.id found ≡ none
      → total < 2 ^ 63
      → length (s ++ added) ≤ total
      → length (s ++ added) < fuel
      → scan f fuel total (s ++ added) found ≡ some (done (found ++ (m.id, entry_for f m t) ∷ []))
  scan_last fuel total s found e new small fits enough =
      scan_one fuel total (s ++ added) found (seek-added s e) new small fits
        (omega (arith, enough, length-append s added))

  pub scan-append :
      (fuel fuel' total total' : ℕ) (s : Bytes) (found es : Entries)
      → scan f fuel total s found ≡ some (done es)
      → entry_of m.id es ≡ none
      → total' < 2 ^ 63
      → length (s ++ added) ≤ total'
      → length (s ++ added) < fuel'
      → scan f fuel' total' (s ++ added) found ≡ some (done (es ++ (m.id, entry_for f m t) ∷ []))
  unfolding scan
  scan-append zero fuel' total total' s found es h new small fits enough = cc
  scan-append (suc fuel) zero total total' s found es h new small fits enough =
      absurd (omega (arith, enough))
  scan-append (suc fuel) (suc fuel') total total' s found es h new small fits enough =
      elim (Option-cases (seek begin_prefix s)) [
        | inl e ↦
            let same : found ≡ es = ground (arith, e, h) in
            subst
              (λ xs.
                scan f (suc fuel') total' (s ++ added) found
                ≡ some (done (xs ++ (m.id, entry_for f m t) ∷ [])))
              same
              (scan_last (suc fuel') total' s found e
                (subst (λ xs. entry_of m.id xs ≡ none) (sym same) new) small fits enough)
        | inr (r, e) ↦
            let (p, x, y) = scan_found f fuel total s r found es e h in
            let read = Reads-one_entry f total found r p.0 p.1 x in
            let size : length (r ++ added) ≤ total' = omega (
              arith,
              length-seek begin_prefix s r e,
              length-append s added,
              length-append r added,
              fits,
            ) in
            rw
              (
                seek-some_append begin_prefix s added r e,
                one_entry-Reads f total' found (r ++ added) p.0 (p.1 ++ added)
                    (Reads-append f total total' found r added p.0 p.1 read small size),
                scan,
              )
              (scan-append fuel fuel' total total' p.1 (found ++ (p.0.id, p.0) ∷ []) es y new small
                (omega (
                  arith,
                  size,
                  length-Reads f total found r p.0 p.1 read,
                  length-append p.1 added,
                  length-append r added,
                ))
                (omega (
                  arith,
                  enough,
                  length-Reads f total found r p.0 p.1 read,
                  length-seek begin_prefix s r e,
                  length-append p.1 added,
                  length-append s added,
                )))
      ]
