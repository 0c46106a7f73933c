-- ===== src/Cli/Client.antt =====
-- internal/cli/client/http_client.go and errors.go: the client of the server's stream of answers. The
-- sending of a request is a parameter, which gets the request as a value and not as JSON, without its
-- headers for content types; the cancellation of its context, which only cuts the events short, is left
-- out.
pub mod Decode
pub mod RoundTrip
use agent_cortex.Prelude.{
  ℕ, ◌*◌, Bool, true, false, not, ◌&&◌, Bytes, bytes_eq, List, [], ◌∷◌, ◌++◌, Option, none, some,
  ltb, leb, if◌then◌else◌,
}
use agent_cortex.Prelude.Text.{codes}
use agent_cortex.Strings.{
  trim_space, is_empty, after_prefix, has_prefix, take, drop_byte, trim_right_byte,
}
use agent_cortex.Decimal.{itoa}
use agent_cortex.Errors.{
  Error, Result, ok, err, guard, endpoint_required, stream_request_failed, stream_event_error,
  unknown_event_type, text_of, ◌>>=◌, ◌>>◌,
}
use agent_cortex.Json.{Json, Value, as_text, as_flag}
use agent_cortex.Scanner.{Reader, scan}
use agent_cortex.Http.Request.{QaStreamRequest}
use agent_cortex.Http.Qa.{Finished}

-- `QAEvent`, by its type; the last one has no type, only the error of the client itself.
pub data QaEvent : Type 0 where
  got_text : Bytes → QaEvent
  got_warning : Bytes → QaEvent
  got_finished : Finished → QaEvent
  got_error : Error → QaEvent
  got_heartbeat : QaEvent
  got_failure : Error → QaEvent

-- The error of a reply that is no success.
abbrev pub status_error : ℕ → Bytes → Error
status_error status reply = record {
  causes = stream_request_failed ∷ [];
  text =
      text_of stream_request_failed
      ++ (codes ": status " ++ (itoa status ++ (codes ": " ++ trim_space reply)));
}

-- The text of an error event.
abbrev pub event_text : Bytes → Bytes → Bytes
event_text code message =
    if is_empty code
    then message
    else if is_empty message
    then code
    else code ++ (codes ": " ++ message)

abbrev pub event_error : Bytes → Bytes → Error
event_error code message = record {
  causes = stream_event_error ∷ [];
  text = event_text (trim_space code) (trim_space message);
}

-- The next three take `strconv.Quote` as a parameter.
abbrev pub unknown_event : (Bytes → Bytes) → Bytes → Error
unknown_event quote name = record {
  causes = unknown_event_type ∷ [];
  text = text_of unknown_event_type ++ b' ' ∷ quote name;
}

-- `Unmarshal` into a struct, field by field.
abbrev pub text_in : Json → Bytes → Bytes → Result Bytes
text_in j s name = j.member s name >>= as_text j

abbrev pub flag_in : Json → Bytes → Bytes → Result Bool
flag_in j s name = j.member s name >>= as_flag j

abbrev pub decode_finished : Json → Bytes → Result Finished
decode_finished j s = do
  a ← text_in j s (codes "answer")
  id ← text_in j s (codes "memory_id")
  saved ← flag_in j s (codes "memory_saved")
  synced ← flag_in j s (codes "markdown_synced")
  reason ← text_in j s (codes "finish_reason")
  ok (record {
    answer = a;
    memory_id = id;
    memory_saved = saved;
    markdown_synced = synced;
    finish_reason = reason;
  })

abbrev pub decode_error : Json → Bytes → Result QaEvent
decode_error j s = do
  code ← text_in j s (codes "code")
  message ← text_in j s (codes "message")
  ok (got_error (event_error code message))

-- `decodeEvent`
unfoldable pub decode_event : Json → (Bytes → Bytes) → Bytes → Bytes → Result QaEvent
decode_event j quote name s =
    if bytes_eq name (codes "text_delta")
    then text_in j s (codes "text") >>= (λ t. ok (got_text t))
    else if bytes_eq name (codes "warning")
    then text_in j s (codes "message") >>= (λ t. ok (got_warning t))
    else if bytes_eq name (codes "finished")
    then decode_finished j s >>= (λ fin. ok (got_finished fin))
    else if bytes_eq name (codes "error")
    then decode_error j s
    else if bytes_eq name (codes "heartbeat")
    then ok got_heartbeat
    else err (unknown_event quote name)

-- `Join(lines, "\n")`
abbrev pub join_lines : List Bytes → Bytes
join_lines [] = []
join_lines (l ∷ []) = l
join_lines (l ∷ m ∷ ls) = l ++ b'\n' ∷ join_lines (m ∷ ls)

-- The events that a decoded event is sent as, and whether the loop goes on behind it.
abbrev pub emitted : Result QaEvent → List QaEvent × Bool
emitted (err e) = (got_failure e ∷ [], false)
emitted (ok (got_text t)) = (got_text t ∷ [], true)
emitted (ok (got_warning t)) = (got_warning t ∷ [], true)
emitted (ok (got_finished fin)) = (got_finished fin ∷ [], true)
emitted (ok (got_error e)) = (got_error e ∷ [], true)
emitted (ok got_heartbeat) = ([], true)
emitted (ok (got_failure e)) = (got_failure e ∷ [], true)

-- The closure `emit` on the name and the data lines so far.
abbrev pub emit : Json → (Bytes → Bytes) → Bytes → List Bytes → List QaEvent × Bool
emit j quote name lines =
    if is_empty (trim_space name)
    then ([], true)
    else emitted (decode_event j quote name (join_lines lines))

-- The events of `emit` and of the lines behind it.
abbrev pub behind : List QaEvent × Bool → List QaEvent → List QaEvent
behind (events, true) rest = events ++ rest
behind (events, false) rest = events

-- The loop of `streamEvents` over the lines of the body and the error behind them.
unfoldable pub read_lines :
    Json → (Bytes → Bytes) → List Bytes → Option Error → Bytes → List Bytes → List QaEvent
read_lines j quote [] (some e) name lines = got_failure e ∷ []
read_lines j quote [] none name lines = (emit j quote name lines).0
read_lines j quote (l ∷ ls) end name lines = elim (is_empty l) [
  | true ↦ behind (emit j quote name lines) (read_lines j quote ls end [] [])
  | false ↦ elim (has_prefix (codes ":") l) [
    | true ↦ read_lines j quote ls end name lines
    | false ↦ elim (after_prefix (codes "event:") l) [
      | some r ↦ read_lines j quote ls end (trim_space r) lines
      | none ↦ elim (after_prefix (codes "data:") l) [
        | some r ↦ read_lines j quote ls end name (lines ++ trim_space r ∷ [])
        | none ↦ read_lines j quote ls end name lines
      ]
    ]
  ]
]

-- The largest line of the scanner.
abbrev pub max_line : ℕ
max_line = 1024 * 1024

-- `streamEvents`
unfoldable pub stream_events : Json → (Bytes → Bytes) → Reader → List QaEvent
unfolding read_lines
stream_events j quote reader = let r = scan max_line reader in read_lines j quote r.0 r.1 [] []

-- `HTTPQAClient`
pub record Client : Type 0 where
  pub base_url : Bytes
  pub authorization : Bytes

-- `NewHTTPQAClient`
unfoldable pub new_client : Bytes → Bytes → Result Client
unfolding drop_byte
new_client base_url authorization =
    let base = trim_right_byte b'/' (trim_space base_url) in
    guard (not (is_empty base)) endpoint_required
    >> ok (record { base_url = base; authorization = trim_space authorization })

-- A request that is sent, and what comes back.
pub record Post : Type 0 where
  pub url : Bytes
  pub authorization : Option Bytes
  pub request : QaStreamRequest

pub record Reply : Type 0 where
  pub status : ℕ
  pub reader : Reader

abbrev pub post_of : Client → QaStreamRequest → Post
post_of c request = record {
  url = c.base_url ++ codes "/api/v1/qa/stream";
  authorization = if is_empty c.authorization then none else some c.authorization;
  request = request;
}

abbrev pub reply_events : Json → (Bytes → Bytes) → Reply → Result (List QaEvent)
reply_events j quote reply =
    if leb 200 reply.status && ltb reply.status 300
    then ok (stream_events j quote reply.reader)
    else err (status_error reply.status (take 8192 reply.reader.0))

-- `StreamQA`
unfoldable pub stream_qa :
    Json
    → (Bytes → Bytes)
    → (Post → Result Reply)
    → Client
    → QaStreamRequest
    → Result (List QaEvent)
unfolding stream_events
stream_qa j quote send c request = send (post_of c request) >>= reply_events j quote
