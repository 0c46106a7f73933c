-- ===== src/Cli/App/EndToEnd.antt =====
-- internal/transport/http/handler.go, sse.go, internal/cli/client/http_client.go and internal/cli/app.go
-- together: a question on its way from the server's loop to the session's answer.
use agent_cortex.Prelude.{
  ℕ, Bool, Bytes, List, [], ◌++◌, Option, none, some, All, ◌≡◌, refl, sym, ap, ◌∙◌,
}
use mathlib.Core.Path.{subst}
use agent_cortex.Strings.{split_lines, trim_space, trim_right, trim_from, trim_left}
use agent_cortex.Scanner.{scan_lines}
use agent_cortex.Errors.{Error, Result, ok, ◌>>=◌}
use agent_cortex.TimeFormat.{TimeFormat}
use agent_cortex.Memory.{Float32, Backend}
use agent_cortex.Files.{Faults}
use agent_cortex.Json.{Json, IsLawful}
use agent_cortex.Http.Request.{QaStreamRequest}
use agent_cortex.Http.Save.{World}
use agent_cortex.Http.Qa.{Input, Frames, qa_loop}
use agent_cortex.Http.Qa.Frames.{texts, IsTurn, qa_loop-IsTurn}
use agent_cortex.Http.Sse.{encode_all, IsPlain}
use agent_cortex.Cli.Client.{
  QaEvent, Client, Post, Reply, post_of, reply_events, stream_qa, stream_events,
}
use agent_cortex.Cli.Client.Decode.{heard}
use agent_cortex.Cli.Client.RoundTrip.{Fits, stream_events-encode_all}
use agent_cortex.Cli.App.{App, request_of, heard_answer, answer}
use agent_cortex.Cli.App.Answers.{tail, answer_loop-IsTurn}

module _ (j : Json) (lawful : IsLawful j) (quote : Bytes → Bytes) (faults : ℕ → Option Error) where
  stream_events-tail : (end : Option Error) → stream_events j quote ([], end) ≡ tail faults end
  unfolding stream_events scan_lines split_lines trim_space trim_right trim_from trim_left
  stream_events-tail none = refl
  stream_events-tail (some e) = refl

  stream_qa-encode_all :
      (send : Post → Result Reply) (c : Client) (request : QaStreamRequest) (sent : Frames)
      (end : Option Error)
      → All (IsPlain j) sent
      → All (Fits j) sent
      → send (post_of c request)
        ≡ ok (record { status = 200; reader = (encode_all j sent [], end) })
      → stream_qa j quote send c request ≡ ok (heard sent ++ tail faults end)
  unfolding stream_qa
  stream_qa-encode_all send c request sent end plain fits e =
      ap (λ (r : Result Reply). r >>= reply_events j quote) e
      ∙ ap (λ es. ok es)
          (stream_events-encode_all j lawful quote sent [] end plain fits
            ∙ ap (λ es. heard sent ++ es) (stream_events-tail end))

  module _ (B : Backend) (f : TimeFormat) (base : Bytes) (embed : Bytes → Result (List Float32))
      (gets_through : ℕ → Bool) (x : Faults) where
    -- The server's loop has sent some events for a question, all of UTF-8 texts and on lines that fit the
    -- client's scanner, and the client gets status 200 and their bytes, behind which the body ends or
    -- breaks off with an error: when the session takes an answer, whatever the model, the embedder, the
    -- disk, the storage and the terminal do, the answer is exactly the texts that the server has sent, in
    -- their order.
    pub answer-qa_loop :
        (send : Post → Result Reply) (c : Client) (a : App) (question trimmed : Bytes)
        (inputs : List Input) (w : World B f base) (seq : ℕ) (sent : Frames) (end : Option Error)
        (text : Bytes)
        → sent
          ≡ (qa_loop B f base embed gets_through x
              (request_of faults a question)
              trimmed
              inputs
              w
              seq
              []
              []
              []).2
        → All (IsPlain j) sent
        → All (Fits j) sent
        → send (post_of c (request_of faults a question))
          ≡ ok (record { status = 200; reader = (encode_all j sent [], end) })
        → (answer faults (λ n. stream_qa j quote send c) a question).1 ≡ ok text
        → text ≡ texts sent
    unfolding texts
    answer-qa_loop send c a question trimmed inputs w seq sent end text is plain fits e g =
        let request = request_of faults a question in
        let turn : IsTurn sent = subst IsTurn (sym is) (
          qa_loop-IsTurn B f base embed gets_through x request trimmed inputs w seq [] [] [] tt
            refl) in
        let got = stream_qa-encode_all send c request sent end plain fits e in
        answer_loop-IsTurn faults sent end a.terminal text turn
          (ap (λ (r : Result (List QaEvent)). (heard_answer faults r a.terminal).1) (sym got) ∙ g)
