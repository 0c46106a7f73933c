-- ===== src/Model/OpenAi/Replies.antt =====
-- internal/model/openai_compatible.go: what the client makes of replies, whole and streamed. The
-- cancellation of the context while a stream is read, which only cuts its events short, is left out.
use agent_cortex.Prelude.{
  ℕ, ◌*◌, Bool, true, false, not, ◌&&◌, ◌||◌, Bytes, bytes_eq, List, [], ◌∷◌, ◌++◌, Option, none,
  some, leb, ltb, is_some, if◌then◌else◌,
}
use agent_cortex.Prelude.Int.{pos, eqb_ℤ}
use agent_cortex.Prelude.Text.{codes}
use agent_cortex.Strings.{trim_space, is_empty, after_prefix, has_prefix}
use agent_cortex.Errors.{
  Error, Result, ok, err, guard, sentinel, join, model_unavailable, invalid_response, ◌>>=◌, ◌>>◌,
}
use agent_cortex.Scanner.{Reader, scan}
use agent_cortex.Model.{Request, Response, ToolCall, Usage, StreamEvent, ToolCallDelta}
use agent_cortex.Model.Wire.{ChatToolCall, Choice, ChatResponse}
use agent_cortex.Model.OpenAi.{Codec, ModelClient, chat_request_body, joined, is_nil}

abbrev pub or_model : Bytes → Bytes → Bytes
or_model said model = if is_empty said then model else said

abbrev pub zero_usage : Usage
zero_usage = record { prompt_tokens = pos 0; completion_tokens = pos 0; total_tokens = pos 0 }

abbrev pub is_zero_usage : Usage → Bool
is_zero_usage u =
    eqb_ℤ u.prompt_tokens (pos 0)
    && eqb_ℤ u.completion_tokens (pos 0)
    && eqb_ℤ u.total_tokens (pos 0)

-- The event of a failure.
abbrev pub failed_event : Error → StreamEvent
failed_event e = record {
  text_delta = [];
  tool_call_delta = none;
  finish_reason = [];
  model = [];
  usage = zero_usage;
  raw_id = [];
  err = some e;
}

-- `streamEventEmpty`
abbrev pub is_empty_event : StreamEvent → Bool
is_empty_event e =
    is_empty e.text_delta
    && not (is_some e.tool_call_delta)
    && is_empty e.finish_reason
    && is_zero_usage e.usage
    && not (is_some e.err)

abbrev pub first_delta : List ChatToolCall → Option ToolCallDelta
first_delta [] = none
first_delta (c ∷ cs) = some (record {
  index = c.index;
  id = trim_space c.id;
  name = trim_space c.name;
  arguments_delta = c.arguments;
})

-- What a line means to the loop of `Stream`: nothing, the end, or data.
pub data Meaning : Type 0 where
  skipped : Meaning
  done : Meaning
  datum : Bytes → Meaning

abbrev pub meaning_of_data : Option Bytes → Meaning
meaning_of_data none = skipped
meaning_of_data (some r) =
    if bytes_eq (trim_space r) (codes "[DONE]") then done else datum (trim_space r)

abbrev pub meaning : Bytes → Meaning
meaning l =
    let t = trim_space l in
    if is_empty t || has_prefix (codes ":") t
    then skipped
    else meaning_of_data (after_prefix (codes "data:") t)

-- The largest line of a scanner whose buffer is not set.
abbrev pub max_scan_line : ℕ
max_scan_line = 64 * 1024

-- A request that is sent, without its header for the content type; it may not be made, or not be
-- answered.
pub record ModelPost : Type 0 where
  pub url : Bytes
  pub authorization : Option Bytes
  pub content : Bytes

pub data Sent : Type 0 where
  unmade : Error → Sent
  unanswered : Error → Sent
  answered : ℕ → Reader → Sent

-- The body of a reply, with the error of the context behind a request that got none.
abbrev pub reply_body : Option Error → Sent → Result Reader
reply_body late (unmade e) = err (join (sentinel model_unavailable) e)
reply_body none (unanswered e) = err (join (sentinel model_unavailable) e)
reply_body (some c) (unanswered e) = err c
reply_body late (answered status body) =
    if leb 200 status && ltb status 300 then ok body else err (sentinel model_unavailable)

module _ (j : Codec) where
  -- `toolCallsFromOpenAICompatible`
  unfoldable pub tool_calls_from : List ChatToolCall → Result (List ToolCall)
  tool_calls_from [] = ok []
  tool_calls_from (c ∷ cs) = do
    guard (not (is_empty (trim_space c.id))) invalid_response
    guard (not (is_empty (trim_space c.name))) invalid_response
    guard (j.is_json c.arguments) invalid_response
    calls ← tool_calls_from cs
    ok (record { id = trim_space c.id; name = trim_space c.name; arguments = c.arguments } ∷ calls)

  module _ (c : ModelClient) where
    abbrev pub response_of : ChatResponse → Choice → List ToolCall → Response
    response_of r choice calls = record {
      text = choice.message.content;
      tool_calls = calls;
      finish_reason = choice.finish_reason;
      model = or_model (trim_space r.model) c.model;
      usage = r.usage;
      raw_id = r.id;
    }

    abbrev pub first_response : ChatResponse → List Choice → Result Response
    first_response r [] = err (sentinel invalid_response)
    first_response r (choice ∷ choices) = do
      calls ← tool_calls_from choice.message.tool_calls
      guard (not (is_empty (trim_space choice.message.content) && is_nil calls)) invalid_response
      ok (response_of r choice calls)

    -- `responseFromChatResponse`
    unfoldable pub response_from : ChatResponse → Result Response
    unfolding tool_calls_from
    response_from r = first_response r r.choices

    abbrev pub first_event : ChatResponse → List Choice → Result StreamEvent
    first_event r [] = err (sentinel invalid_response)
    first_event r (choice ∷ choices) = ok (record {
      text_delta = choice.message.content;
      tool_call_delta = first_delta choice.message.tool_calls;
      finish_reason = choice.finish_reason;
      model = if is_empty (trim_space r.model) then c.model else r.model;
      usage = r.usage;
      raw_id = r.id;
      err = none;
    })

    -- `streamEventFromData`
    unfoldable pub stream_event_from : Bytes → Result StreamEvent
    stream_event_from s = joined invalid_response (j.unmarshal s) >>= (λ r. first_event r r.choices)

    -- The events of a data line and of the lines behind it.
    abbrev pub before_events : Result StreamEvent → List StreamEvent → List StreamEvent
    before_events (err e) rest = failed_event e ∷ []
    before_events (ok e) rest = if is_empty_event e then rest else e ∷ rest

    -- The loop of `Stream` over the lines of the body.
    unfoldable pub read_stream : List Bytes → List StreamEvent
    unfolding stream_event_from
    read_stream [] = []
    read_stream (l ∷ ls) = elim (meaning l) [
      | skipped ↦ read_stream ls
      | done ↦ []
      | datum s ↦ before_events (stream_event_from s) (read_stream ls)
    ]

    -- The events of a body; the loop ends with the scan, whatever ended it.
    unfoldable pub body_events : Reader → List StreamEvent
    unfolding read_stream
    body_events body = read_stream (scan max_scan_line body).0

    abbrev pub model_post : Bytes → ModelPost
    model_post content = record {
      url = c.endpoint ++ codes "/v1/chat/completions";
      authorization = if is_empty c.api_key then none else some (codes "Bearer " ++ c.api_key);
      content = content;
    }

    module _ (send : ModelPost → Sent) where
      abbrev pub exchange : Option Error → Option Error → Request → Bool → Result Reader
      exchange (some e) late r stream = err e
      exchange none late r stream =
          chat_request_body j c r stream
          >>= (λ content. reply_body late (send (model_post content)))

      -- `Generate`, with the context's error at its start and behind a request that got no reply.
      unfoldable pub generate : Option Error → Option Error → Request → Result Response
      unfolding response_from chat_request_body
      generate early late r =
          exchange early late r false
          >>= (λ body. joined invalid_response (j.decode body) >>= response_from)

      -- `Stream`
      unfoldable pub stream : Option Error → Option Error → Request → Result (List StreamEvent)
      unfolding body_events chat_request_body
      stream early late r = exchange early late r true >>= (λ body. ok (body_events body))
