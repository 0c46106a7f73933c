-- ===== src/Cli/Client/RoundTrip.antt =====
-- internal/transport/http/sse.go against internal/cli/client/http_client.go: what the client reads of the
-- bytes that the server writes.
use agent_cortex.Prelude.{
  Bool, true, false, Bytes, bytes_eq, List, [], ◌∷◌, ◌++◌, Option, some, length, leb, All,
  All-append, ◌≢◌, ◌≡◌, refl, sym, ap, ◌∙◌, arith, Bool-cases, Option-cases, inl, inr, bytes_eq_iff,
}
use mathlib.Core.List.{reverse, reverse-append, append_assoc}
use agent_cortex.Prelude.Text.{codes}
use agent_cortex.Strings.{
  trim_space, trim_left, trim_right, trim_from, before_suffix, after_prefix, space_width,
  space_width_back,
}
use agent_cortex.Strings.Search.{Free}
use agent_cortex.Strings.Trim.{IsTrimmed, trim_space-blank, label-IsTrimmed}
use agent_cortex.Errors.{Error, ok}
use agent_cortex.Json.{Json, IsLawful}
use agent_cortex.Scanner.{scan, scan-append, drop_cr}
use agent_cortex.Http.Qa.{Frame, heartbeat, text_delta, warning, stream_error, finished, Frames}
use agent_cortex.Http.Sse.{event_name, body, event_line, data_line, encode, encode_all, IsPlain}
use agent_cortex.Cli.Client.{QaEvent, emitted, emit, behind, read_lines, max_line, stream_events}
use agent_cortex.Cli.Client.Decode.{event_of, heard, decode_event-marshal}

-- An event whose data are a line that the client's scanner takes.
abbrev pub Fits : Json → Frame → Type 0
Fits j e = leb max_line (length (data_line j e)) ≡ false

space_width_data : (s : Bytes) → space_width (codes "data:" ++ b' ' ∷ s) ≡ 0
unfolding space_width
space_width_data s = refl

back_cr : (l : Bytes) → space_width_back (b'\r' ∷ l) ≡ 1
unfolding space_width_back
back_cr [] = refl
back_cr (a ∷ []) = refl
back_cr (a ∷ b ∷ l) = refl

no_cr : (l : Bytes) → space_width_back (reverse (l ++ b'\r' ∷ [])) ≡ 1
unfolding space_width_back
no_cr l = rw (reverse-append l (b'\r' ∷ [])) (back_cr (reverse l))

before_suffix_eq : (p s r : Bytes) → before_suffix p s ≡ some r → s ≡ r ++ p
unfolding before_suffix
before_suffix_eq [] [] [] h = refl
before_suffix_eq [] [] (c ∷ r) h = cc
before_suffix_eq (c ∷ p) [] r h = cc
before_suffix_eq p (b ∷ s) r h = elim (Bool-cases (bytes_eq (b ∷ s) p)) [
  | inl e ↦ ground (arith, e, bytes_eq_iff (b ∷ s) p)
  | inr e ↦ elim (Option-cases (before_suffix p s)) [
    | inl n ↦ ground (arith, e, n)
    | inr (q, n) ↦ ground (arith, e, n, before_suffix_eq p s q)
  ]
]

drop_cr-IsTrimmed : (s : Bytes) → IsTrimmed s → drop_cr s ≡ s
unfolding drop_cr
drop_cr-IsTrimmed s t = elim (Option-cases (before_suffix (b'\r' ∷ []) s)) [
  | inl e ↦ rw (e, drop_cr) refl
  | inr (l, e) ↦ absurd (
      omega (
        arith,
        t.last,
        no_cr l,
        ap (λ (r : Bytes). space_width_back (reverse r)) (before_suffix_eq (b'\r' ∷ []) s l e),
      ))
]

module _ (j : Json) (lawful : IsLawful j) (quote : Bytes → Bytes) where
  read_event_line :
      (e : Frame) (ls : List Bytes) (end : Option Error) (name : Bytes) (lines : List Bytes)
      → read_lines j quote (event_line e ∷ ls) end name lines
        ≡ read_lines j quote ls end (event_name e) lines
  unfolding read_lines after_prefix trim_space trim_left trim_right trim_from space_width
      space_width_back
  read_event_line (heartbeat ts) ls end name lines = refl
  read_event_line (text_delta t) ls end name lines = refl
  read_event_line (warning t) ls end name lines = refl
  read_event_line (stream_error c m) ls end name lines = refl
  read_event_line (finished fin) ls end name lines = refl

  read_data_line :
      (e : Frame) (ls : List Bytes) (end : Option Error) (name : Bytes)
      → read_lines j quote (data_line j e ∷ ls) end name []
        ≡ read_lines j quote ls end name (j.marshal (body e) ∷ [])
  unfolding read_lines after_prefix
  read_data_line e ls end name =
      rw (trim_space-blank (j.marshal (body e)) (lawful.marshal-IsTrimmed (body e))) refl

  emit_event :
      (e : Frame)
      → IsPlain j e
      → emit j quote (event_name e) (j.marshal (body e) ∷ [])
        ≡ ((emitted (ok (event_of e))).0, true)
  unfolding trim_space trim_left trim_right trim_from space_width space_width_back
  emit_event (heartbeat ts) h = rw (decode_event-marshal j lawful quote (heartbeat ts) h) refl
  emit_event (text_delta t) h = rw (decode_event-marshal j lawful quote (text_delta t) h) refl
  emit_event (warning t) h = rw (decode_event-marshal j lawful quote (warning t) h) refl
  emit_event (stream_error c m) h =
      rw (decode_event-marshal j lawful quote (stream_error c m) h) refl
  emit_event (finished fin) h = rw (decode_event-marshal j lawful quote (finished fin) h) refl

  read_blank_line :
      (e : Frame) (ls : List Bytes) (end : Option Error)
      → IsPlain j e
      → read_lines j quote ([] ∷ ls) end (event_name e) (j.marshal (body e) ∷ [])
        ≡ (emitted (ok (event_of e))).0 ++ read_lines j quote ls end [] []
  unfolding read_lines
  read_blank_line e ls end h =
      ap (λ (r : List QaEvent × Bool). behind r (read_lines j quote ls end [] [])) (emit_event e h)

  event_line-Free : (e : Frame) → Free b'\n' (event_line e)
  event_line-Free (heartbeat ts) = omega arith
  event_line-Free (text_delta t) = omega arith
  event_line-Free (warning t) = omega arith
  event_line-Free (stream_error c m) = omega arith
  event_line-Free (finished fin) = omega arith

  event_line-drop_cr : (e : Frame) → drop_cr (event_line e) ≡ event_line e
  unfolding drop_cr before_suffix bytes_eq
  event_line-drop_cr (heartbeat ts) = refl
  event_line-drop_cr (text_delta t) = refl
  event_line-drop_cr (warning t) = refl
  event_line-drop_cr (stream_error c m) = refl
  event_line-drop_cr (finished fin) = refl

  event_line-fits : (e : Frame) → leb max_line (length (event_line e)) ≡ false
  event_line-fits (heartbeat ts) = refl
  event_line-fits (text_delta t) = refl
  event_line-fits (warning t) = refl
  event_line-fits (stream_error c m) = refl
  event_line-fits (finished fin) = refl

  data_line-Free : (e : Frame) → Free b'\n' (data_line j e)
  data_line-Free e =
      All-append (λ b. b ≢ b'\n') (codes "data:") (b' ' ∷ j.marshal (body e)) (omega arith)
        (omega arith, lawful.marshal-Free (body e))

  data_line-drop_cr : (e : Frame) → drop_cr (data_line j e) ≡ data_line j e
  data_line-drop_cr e = drop_cr-IsTrimmed (data_line j e) (
      label-IsTrimmed (codes "data:") (j.marshal (body e)) (lawful.marshal-IsTrimmed (body e))
        (space_width_data (j.marshal (body e))))

  scan-encode :
      (e : Frame) (rest : Bytes) (end : Option Error)
      → Fits j e
      → scan max_line (encode j e rest, end) ≡ (
        event_line e ∷ data_line j e ∷ [] ∷ (scan max_line (rest, end)).0,
        (scan max_line (rest, end)).1,
      )
  unfolding drop_cr before_suffix
  scan-encode e rest end fits =
      rw
        (
          scan-append max_line (event_line e) (data_line j e ++ b'\n' ∷ b'\n' ∷ rest) end
              (event_line-Free e) (event_line-fits e),
          scan-append max_line (data_line j e) (b'\n' ∷ rest) end (data_line-Free e) fits,
          scan-append max_line [] rest end tt refl,
          event_line-drop_cr e,
          data_line-drop_cr e,
        )
        refl

  stream_events-encode :
      (e : Frame) (rest : Bytes) (end : Option Error)
      → IsPlain j e
      → Fits j e
      → stream_events j quote (encode j e rest, end)
        ≡ (emitted (ok (event_of e))).0 ++ stream_events j quote (rest, end)
  unfolding stream_events
  stream_events-encode e rest end h fits =
      let s = scan max_line (rest, end) in
      rw (scan-encode e rest end fits) (
        read_event_line e (data_line j e ∷ [] ∷ s.0) s.1 [] []
        ∙ read_data_line e ([] ∷ s.0) s.1 (event_name e)
        ∙ read_blank_line e s.0 s.1 h)

  -- The bytes that the server writes for events, in front of any others, when every data line fits the
  -- client's scanner and the texts are UTF-8: the client passes on exactly these events, each with all its
  -- fields and in their order, the heartbeats left out, and then whatever it reads of the rest.
  pub stream_events-encode_all :
      (es : Frames) (rest : Bytes) (end : Option Error)
      → All (IsPlain j) es
      → All (Fits j) es
      → stream_events j quote (encode_all j es rest, end)
        ≡ heard es ++ stream_events j quote (rest, end)
  unfolding encode_all heard
  stream_events-encode_all [] rest end h fits = refl
  stream_events-encode_all (e ∷ es) rest end h fits =
      stream_events-encode e (encode_all j es rest) end h.0 fits.0
      ∙ ap (λ s. (emitted (ok (event_of e))).0 ++ s)
          (stream_events-encode_all es rest end h.1 fits.1)
      ∙ sym (
          append_assoc (emitted (ok (event_of e))).0 (heard es) (stream_events j quote (rest, end)))
