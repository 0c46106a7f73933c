-- ===== src/Http/Markdown/Frame.antt =====
-- internal/transport/http/memory_markdown.go: a framed entry is read back.
use agent_cortex.Prelude.{
  ℕ, ◌^◌, ◌<◌, ◌≡◌, ◌≢◌, refl, sym, ap, ◌∙◌, true, false, Bytes, List, [], ◌∷◌, ◌++◌, none, some,
  arith, All-append,
}
use mathlib.Core.List.{append_assoc}
use agent_cortex.Prelude.Text.{codes}
use agent_cortex.Prelude.Int.{pos}
use agent_cortex.Strings.{
  trim_space, trim_left, trim_right, trim_from, space_width, space_width_back, after_prefix,
  cut_line, split_lines, contains_any, has_byte, before_suffix, cut_last,
}
use agent_cortex.Strings.Search.{
  Free, after_prefix-append, cut_line-append, split_lines-append, before_suffix-append,
  cut_last-append,
}
use agent_cortex.Strings.Trim.{
  IsTrimmed, trim_space-IsTrimmed, trim_space_fixed, trim_space-blank, label-IsTrimmed,
}
use agent_cortex.Decimal.{itoa, atoi, atoi-itoa, itoa-Free}
use agent_cortex.RateLimit.Types.{Time}
use agent_cortex.Errors.{ok}
use agent_cortex.TimeFormat.{TimeFormat, IsLawful}
use agent_cortex.Memory.{Memory}
use agent_cortex.Http.Ids.{is_marker_id, marker_end}
use agent_cortex.Http.Markdown.{
  begin_prefix, bytes_label, begin_line, parse_begin_line, payload, memory_id_from,
  recorded_at_from, labelled, unless_empty, id_label, time_label, line,
}

-- An identifier as `normalizeMemory` leaves it, which may stand in a marker.
abbrev pub IsMarkerId : Bytes → Type 0
IsMarkerId id = (trim_space id ≡ id) × (is_marker_id id ≡ true)

contains_any-Free :
    (chars s : Bytes) (c : ℕ) → has_byte c chars ≡ true → contains_any chars s ≡ false → Free c s
unfolding contains_any has_byte
contains_any-Free chars [] c h n = tt
contains_any-Free chars (b ∷ s) c h n =
    (λ e. ground (arith, e, h, n), contains_any-Free chars s c h (ground (arith, n)))

begin_line_steps :
    (s rest metadata id ds : Bytes) (n : ℕ)
    → after_prefix begin_prefix s ≡ some rest
    → before_suffix marker_end rest ≡ some metadata
    → cut_last bytes_label metadata ≡ some (id, ds)
    → is_marker_id id ≡ true
    → atoi ds ≡ some (pos n)
    → parse_begin_line s ≡ ok (id, n)
unfolding parse_begin_line
begin_line_steps s rest metadata id ds n a b c d e = rw (a, b, c, d, e) (ground arith)

module _ (id : Bytes) (marker : IsMarkerId id) where
  id-Free : Free b'\n' id
  unfolding is_marker_id has_byte
  id-Free = contains_any-Free (b'\r' ∷ b'\n' ∷ []) id b'\n' refl (ground (arith, marker.0))

  id_filled : id ≢ []
  unfolding is_marker_id trim_space
  id_filled e = cc (sym marker.1 ∙ ap is_marker_id e)

  pub id-IsTrimmed : IsTrimmed id
  id-IsTrimmed = trim_space_fixed id id_filled marker.0

  pub parse_begin_line-begin_line :
      (n : ℕ) → n < 2 ^ 63 → parse_begin_line (begin_line id n) ≡ ok (id, n)
  parse_begin_line-begin_line n h =
      begin_line_steps (begin_line id n) (id ++ (bytes_label ++ (itoa n ++ marker_end)))
        (id ++ (bytes_label ++ itoa n)) id (itoa n) n
        (after_prefix-append begin_prefix (id ++ (bytes_label ++ (itoa n ++ marker_end))))
        (ap (before_suffix marker_end) (
            sym (
              append_assoc id (bytes_label ++ itoa n) marker_end
              ∙ ap (λ x. id ++ x) (append_assoc bytes_label (itoa n) marker_end)))
          ∙ before_suffix-append (id ++ (bytes_label ++ itoa n)) marker_end)
        (cut_last-append b' ' id (codes "bytes=") (itoa n) (omega arith) (itoa-Free b' ' n refl))
        marker.1 (atoi-itoa n h)

  begin_line-Free : (n : ℕ) → Free b'\n' (begin_line id n)
  begin_line-Free n =
      All-append (λ b. b ≢ b'\n') begin_prefix (id ++ (bytes_label ++ (itoa n ++ marker_end)))
        (omega arith)
        (All-append (λ b. b ≢ b'\n') id (bytes_label ++ (itoa n ++ marker_end)) id-Free
          (All-append (λ b. b ≢ b'\n') bytes_label (itoa n ++ marker_end) (omega arith)
            (All-append (λ b. b ≢ b'\n') (itoa n) marker_end (itoa-Free b'\n' n refl)
              (omega arith))))

  pub cut_line-begin_line :
      (n : ℕ) (rest : Bytes) → cut_line (line (begin_line id n) rest) ≡ some (begin_line id n, rest)
  cut_line-begin_line n rest = cut_line-append (begin_line id n) rest (begin_line-Free n)

unless_empty-filled : (v : Bytes) → v ≢ [] → unless_empty (some v) ≡ some v
unless_empty-filled [] n = absurd (n refl)
unless_empty-filled (b ∷ v) n = refl

recorded_at_by :
    (f : TimeFormat) (text v : Bytes)
    → labelled time_label (split_lines text) ≡ some v
    → recorded_at_from f text ≡ f.parse_rfc3339 v
recorded_at_by f text v e = rw (e, recorded_at_from) refl

labelled_skip :
    (label l : Bytes) (ls : List Bytes)
    → after_prefix label (trim_space l) ≡ none
    → labelled label (l ∷ ls) ≡ labelled label ls
unfolding labelled
labelled_skip label l ls e = rw (e, labelled) refl

labelled_hit :
    (label v : Bytes) (ls : List Bytes)
    → IsTrimmed v
    → space_width (label ++ b' ' ∷ v) ≡ 0
    → labelled label ((label ++ b' ' ∷ v) ∷ ls) ≡ some v
unfolding labelled
labelled_hit label v ls t h =
    rw
      (
        trim_space-IsTrimmed (label ++ b' ' ∷ v) (label-IsTrimmed label v t h),
        labelled,
        after_prefix-append label (b' ' ∷ v),
      )
      (ap some (trim_space-blank v t))

-- The payload names the memory and its time.
module _ (f : TimeFormat) (lawful : IsLawful f) (m : Memory) (t : Time)
    (years : f.in_years t ≡ true) (marker : IsMarkerId m.id) where
  after_time : Bytes
  after_time = line [] (
      line (codes "## Question") (
        line []
          (line m.question (line [] (line (codes "## Answer") (line [] (line m.answer [])))))))

  payload_lines :
      split_lines (payload f m t)
      ≡ codes "## Memory"
        ∷ []
        ∷ (id_label ++ b' ' ∷ m.id)
        ∷ (time_label ++ b' ' ∷ f.rfc3339 t)
        ∷ split_lines after_time
  unfolding payload after_time
  payload_lines =
      split_lines-append (codes "## Memory") _ (omega arith)
      ∙ ap (λ ls. codes "## Memory" ∷ ls)
          (split_lines-append [] _ tt
            ∙ ap (λ ls. [] ∷ ls)
                (split_lines-append (id_label ++ b' ' ∷ m.id) _ (
                    All-append (λ b. b ≢ b'\n') id_label (b' ' ∷ m.id) (omega arith)
                      ((λ e. absurd (omega (arith, e))), id-Free m.id marker))
                  ∙ ap (λ ls. (id_label ++ b' ' ∷ m.id) ∷ ls)
                      (split_lines-append (time_label ++ b' ' ∷ f.rfc3339 t) _ (
                        All-append (λ b. b ≢ b'\n') time_label (b' ' ∷ f.rfc3339 t) (omega arith)
                          ((λ e. absurd (omega (arith, e))), lawful.rfc3339-Free t years)))))

  label_width : (v : Bytes) → space_width (id_label ++ b' ' ∷ v) ≡ 0
  unfolding space_width
  label_width v = refl

  time_width : (v : Bytes) → space_width (time_label ++ b' ' ∷ v) ≡ 0
  unfolding space_width
  time_width v = refl

  title_trimmed : trim_space (codes "## Memory") ≡ codes "## Memory"
  unfolding trim_space trim_left trim_right trim_from space_width space_width_back
  title_trimmed = refl

  empty_trimmed : trim_space [] ≡ []
  unfolding trim_space trim_left trim_right trim_from
  empty_trimmed = refl

  id_line_trimmed : trim_space (id_label ++ b' ' ∷ m.id) ≡ id_label ++ b' ' ∷ m.id
  id_line_trimmed =
      trim_space-IsTrimmed (id_label ++ b' ' ∷ m.id)
        (label-IsTrimmed id_label m.id (id-IsTrimmed m.id marker) (label_width m.id))

  pub memory_id_from-payload : memory_id_from (payload f m t) ≡ some m.id
  unfolding after_prefix
  memory_id_from-payload =
      ap (λ ls. unless_empty (labelled id_label ls)) payload_lines
      ∙ ap unless_empty (
          labelled_skip id_label (codes "## Memory") _ (ap (after_prefix id_label) title_trimmed)
          ∙ labelled_skip id_label [] _ (ap (after_prefix id_label) empty_trimmed)
          ∙ labelled_hit id_label m.id _ (id-IsTrimmed m.id marker) (label_width m.id))
      ∙ unless_empty-filled m.id (id_filled m.id marker)

  pub recorded_at_from-payload : recorded_at_from f (payload f m t) ≡ some (f.to_second t)
  unfolding after_prefix
  recorded_at_from-payload =
      recorded_at_by f (payload f m t) (f.rfc3339 t) (
        ap (labelled time_label) payload_lines
        ∙ labelled_skip time_label (codes "## Memory") _
            (ap (after_prefix time_label) title_trimmed)
        ∙ labelled_skip time_label [] _ (ap (after_prefix time_label) empty_trimmed)
        ∙ labelled_skip time_label (id_label ++ b' ' ∷ m.id) _
            (ap (after_prefix time_label) id_line_trimmed)
        ∙ labelled_hit time_label (f.rfc3339 t) _ (lawful.rfc3339-IsTrimmed t years)
            (time_width (f.rfc3339 t)))
      ∙ lawful.parse-rfc3339 t years
