-- ===== src/Http/Qa/Broken.antt =====
-- internal/transport/http/handler.go, `qaStream`, on the events of internal/model/openai_compatible.go: what
-- becomes of a reply of the model that breaks off.
use agent_cortex.Prelude.{
  ℕ, Bool, true, Bytes, List, [], ◌∷◌, ◌++◌, none, some, map, length, All, ◌≡◌, refl, sym,
  Bool-cases, inl, inr,
}
use mathlib.Core.Path.{subst}
use mathlib.Core.List.{append_assoc, append-nil}
use agent_cortex.Strings.{is_empty}
use agent_cortex.Errors.{Error, Result}
use agent_cortex.RateLimit.Types.{Time}
use agent_cortex.TimeFormat.{TimeFormat}
use agent_cortex.Memory.{Float32, Backend}
use agent_cortex.Files.{Faults}
use agent_cortex.Http.Request.{QaStreamRequest}
use agent_cortex.Http.Save.{World}
use agent_cortex.Http.Qa.{Input, event, closed, Frames, next_reason, close, qa_loop}
use agent_cortex.Model.{StreamEvent}
use agent_cortex.Model.OpenAi.{Codec, ModelClient}
use agent_cortex.Model.OpenAi.Replies.{body_events}
use agent_cortex.Model.OpenAi.Events.{body_events_broken}

-- What the loop reads of an event of the model's client.
abbrev pub input_of : StreamEvent → Input
input_of e = event (record { err = e.err; text = e.text_delta; finish_reason = e.finish_reason })

-- The texts of events.
unfoldable pub said_in : List StreamEvent → Bytes
said_in [] = []
said_in (e ∷ es) = e.text_delta ++ said_in es

abbrev pub IsWhole : StreamEvent → Type 0
IsWhole e = e.err ≡ none

is_empty-nil : (s : Bytes) → is_empty s ≡ true → s ≡ []
is_empty-nil [] h = refl
is_empty-nil (b ∷ s) h = cc

module _ (B : Backend) (f : TimeFormat) (base : Bytes) (embed : Bytes → Result (List Float32))
    (gets_through : ℕ → Bool) (x : Faults) (req : QaStreamRequest) (question : Bytes) where
  -- The loop has come to the end of the stream with an answer.
  abbrev pub Closes :
      Time → Time → World B f base → ℕ → Bytes → World B f base × ℕ × Frames → Type 0
  Closes now later w seq answer r =
      (reason : Bytes) × (sent : Frames) × (r
        ≡ close B f base embed gets_through x req question now later w seq answer reason sent)

  qa_loop-Closes :
      (es : List StreamEvent) (now later : Time) (w : World B f base) (seq : ℕ)
      (answer reason : Bytes) (sent : Frames)
      → ((n : ℕ) → gets_through n ≡ true)
      → All IsWhole es
      → Closes now later w seq (answer ++ said_in es) (
          qa_loop B f base embed gets_through x req question
            (map input_of es ++ closed now later ∷ [])
            w
            seq
            answer
            reason
            sent)
  unfolding qa_loop said_in
  qa_loop-Closes [] now later w seq answer reason sent through h =
      (reason, sent, rw (append-nil answer) refl)
  qa_loop-Closes (e ∷ es) now later w seq answer reason sent through h =
      elim (Bool-cases (is_empty e.text_delta)) [
        | inl b ↦
            rw (h.0, b, qa_loop)
              (subst
                (λ t. Closes now later w seq (answer ++ (t ++ said_in es)) (
                  qa_loop B f base embed gets_through x req question
                    (map input_of es ++ closed now later ∷ []) w seq answer
                    (next_reason B f base embed gets_through x req question reason e.finish_reason)
                    sent))
                (sym (is_empty-nil e.text_delta b))
                (qa_loop-Closes es now later w seq answer
                  (next_reason B f base embed gets_through x req question reason e.finish_reason)
                  sent through h.1))
        | inr b ↦
            rw
              (
                h.0,
                b,
                through (length sent),
                qa_loop,
                sym (append_assoc answer e.text_delta (said_in es)),
              )
              (qa_loop-Closes es now later w seq (answer ++ e.text_delta)
                (next_reason B f base embed gets_through x req question reason e.finish_reason) _
                through h.1)
      ]

  -- A reply of the model that breaks off with an error behind some bytes, whose events so far are without an
  -- error, on a connection that takes every write: the loop of a question closes it with the texts so far
  -- as the whole answer, like a reply that ends there.
  pub broken_body-Closes :
      (j : Codec) (c : ModelClient) (s : Bytes) (e : Error) (now later : Time) (w : World B f base)
      (seq : ℕ)
      → ((n : ℕ) → gets_through n ≡ true)
      → All IsWhole (body_events j c (s, none))
      → Closes now later w seq (said_in (body_events j c (s, none))) (
          qa_loop B f base embed gets_through x req question
            (map input_of (body_events j c (s, some e)) ++ closed now later ∷ [])
            w
            seq
            []
            []
            [])
  broken_body-Closes j c s e now later w seq through h =
      subst
        (λ es. Closes now later w seq (said_in (body_events j c (s, none))) (
          qa_loop B f base embed gets_through x req question
            (map input_of es ++ closed now later ∷ []) w seq [] [] []))
        (sym (body_events_broken j c s e))
        (qa_loop-Closes (body_events j c (s, none)) now later w seq [] [] [] through h)
