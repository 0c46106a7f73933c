-- ===== src/Model/OpenAi/Events.antt =====
-- internal/model/openai_compatible.go, `Stream`: what the events of a streamed reply look like, and what
-- becomes of a reply that breaks off.
use agent_cortex.Prelude.{
  false, Bytes, List, [], ◌∷◌, ◌++◌, Option, none, some, ◌≡◌, ◌⊎◌, inl, inr, refl, sym, ap, ◌∙◌,
  Bool-cases,
}
use agent_cortex.Strings.{split_lines}
use agent_cortex.Errors.{Error, Result, ok, err, >>=-eq-ok, invalid_response}
use agent_cortex.Scanner.{Reader, scan, scan_lines_end, scan_cut}
use agent_cortex.Model.{StreamEvent}
use agent_cortex.Model.Wire.{Choice, ChatResponse}
use agent_cortex.Model.OpenAi.{Codec, ModelClient, joined}
use agent_cortex.Model.OpenAi.Replies.{
  is_empty_event, before_events, skipped, done, datum, meaning, first_event, stream_event_from,
  read_stream, body_events, max_scan_line,
}

-- Events that say something; behind one with an error nothing comes.
unfoldable pub IsStream : List StreamEvent → Type 0
IsStream [] = Unit
IsStream (e ∷ es) = (is_empty_event e ≡ false) × ((e.err ≡ none) ⊎ (es ≡ [])) × IsStream es

abbrev error_in : Result StreamEvent → Option Error
error_in (ok e) = e.err
error_in (err x) = none

module _ (j : Codec) (c : ModelClient) where
  first_event-whole :
      (r : ChatResponse) (choices : List Choice) (e : StreamEvent)
      → first_event j c r choices ≡ ok e
      → e.err ≡ none
  first_event-whole r [] e h = cc
  first_event-whole r (choice ∷ choices) e h = ap error_in (sym h)

  stream_event_from-whole :
      (s : Bytes) (e : StreamEvent) → stream_event_from j c s ≡ ok e → e.err ≡ none
  unfolding stream_event_from
  stream_event_from-whole s e h =
      let (r, k, g) = >>=-eq-ok (joined invalid_response (j.unmarshal s)) _ h in
      first_event-whole r r.choices e g

  before_events-IsStream :
      (r : Result StreamEvent) (rest : List StreamEvent)
      → ((e : StreamEvent) → r ≡ ok e → e.err ≡ none)
      → IsStream rest
      → IsStream (before_events j c r rest)
  unfolding IsStream
  before_events-IsStream (err e) rest w h = (refl, inr refl, tt)
  before_events-IsStream (ok e) rest w h = elim (Bool-cases (is_empty_event e)) [
    | inl b ↦ rw (b) h
    | inr b ↦ rw (b) (b, inl (w e refl), h)
  ]

  read_stream-IsStream : (ls : List Bytes) → IsStream (read_stream j c ls)
  unfolding read_stream IsStream
  read_stream-IsStream [] = tt
  read_stream-IsStream (l ∷ ls) =
      elim (meaning l)
        as (λ m. IsStream (elim m [
          | skipped ↦ read_stream j c ls
          | done ↦ []
          | datum s ↦ before_events j c (stream_event_from j c s) (read_stream j c ls)
        ])) [
          | skipped ↦ read_stream-IsStream ls
          | done ↦ tt
          | datum s ↦
              before_events-IsStream (stream_event_from j c s) (read_stream j c ls)
                (stream_event_from-whole s) (read_stream-IsStream ls)
        ]

  before_events-append :
      (r : Result StreamEvent) (es fs : List StreamEvent) (rest : List StreamEvent)
      → fs ≡ es ++ rest
      → (more : List StreamEvent) × (before_events j c r fs ≡ before_events j c r es ++ more)
  before_events-append (err e) es fs rest h = ([], refl)
  before_events-append (ok e) es fs rest h = elim (Bool-cases (is_empty_event e)) [
    | inl b ↦ (rest, rw (b) h)
    | inr b ↦ (rest, rw (b) (ap (λ k. e ∷ k) h))
  ]

  read_stream-append :
      (ls ms : List Bytes)
      → (rest : List StreamEvent) × (read_stream j c (ls ++ ms) ≡ read_stream j c ls ++ rest)
  unfolding read_stream
  read_stream-append [] ms = (read_stream j c ms, refl)
  read_stream-append (l ∷ ls) ms =
      let (rest, h) = read_stream-append ls ms in
      elim (meaning l)
        as (λ m.
          (more : List StreamEvent) × (elim m [
            | skipped ↦ read_stream j c (ls ++ ms)
            | done ↦ []
            | datum s ↦ before_events j c (stream_event_from j c s) (read_stream j c (ls ++ ms))
          ]
            ≡ elim m [
              | skipped ↦ read_stream j c ls
              | done ↦ []
              | datum s ↦ before_events j c (stream_event_from j c s) (read_stream j c ls)
            ]
              ++ more)) [
                | skipped ↦ (rest, h)
                | done ↦ ([], refl)
                | datum s ↦
                    before_events-append (stream_event_from j c s) (read_stream j c ls)
                      (read_stream j c (ls ++ ms)) rest h
              ]

  -- The events of any body, whatever ends it: each of them says something, and at most one has an error,
  -- behind which nothing comes.
  pub body_events-IsStream : (body : Reader) → IsStream (body_events j c body)
  unfolding body_events
  body_events-IsStream body = read_stream-IsStream (scan max_scan_line body).0

  -- A body that breaks off with an error behind some bytes gives the events of a body that just ends
  -- there.
  pub body_events_broken :
      (s : Bytes) (e : Error) → body_events j c (s, some e) ≡ body_events j c (s, none)
  unfolding body_events
  body_events_broken s e =
      ap (read_stream j c) (scan_lines_end max_scan_line (split_lines s) (some e) none)

  -- A body that breaks off with an error behind some line gives events of the whole body, the first ones
  -- in their order, and nothing that tells of the error.
  pub body_events_cut :
      (s t : Bytes) (e : Error) (end : Option Error)
      → (rest : List StreamEvent) × (body_events j c (s ++ b'\n' ∷ t, end)
          ≡ body_events j c (s ++ b'\n' ∷ [], some e) ++ rest)
  unfolding body_events
  body_events_cut s t e end =
      let (more, h) = scan_cut max_scan_line s t end (some e) in
      let (rest, k) = read_stream-append (scan max_scan_line (s ++ b'\n' ∷ [], some e)).0 more in
      (rest, ap (read_stream j c) h ∙ k)
