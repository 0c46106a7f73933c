-- ===== src/Http/Sse.antt =====
-- internal/transport/http/sse.go, `writeSSE`, with the field names of the events in response.go: the
-- bytes of an event.
use agent_cortex.Prelude.{Bytes, [], ◌∷◌, ◌++◌, if◌then◌else◌, All}
use agent_cortex.Prelude.Text.{codes}
use agent_cortex.Strings.{is_empty}
use agent_cortex.Json.{Json, Value, text, flag, Object, IsUtf8}
use agent_cortex.Http.Qa.{
  Finished, Frame, heartbeat, text_delta, warning, stream_error, finished, Frames,
}

abbrev pub event_name : Frame → Bytes
event_name (heartbeat ts) = codes "heartbeat"
event_name (text_delta t) = codes "text_delta"
event_name (warning t) = codes "warning"
event_name (stream_error code message) = codes "error"
event_name (finished fin) = codes "finished"

-- A string field with `omitempty`.
abbrev pub unless_empty : Bytes → Bytes → Object → Object
unless_empty name t rest = if is_empty t then rest else (name, text t) ∷ rest

-- `qaFinishedEvent`
abbrev pub finished_body : Finished → Object
finished_body fin = unless_empty (codes "answer") fin.answer (
    unless_empty (codes "memory_id") fin.memory_id (
      (codes "memory_saved", flag fin.memory_saved)
      ∷ (codes "markdown_synced", flag fin.markdown_synced)
      ∷ unless_empty (codes "finish_reason") fin.finish_reason []))

abbrev pub body : Frame → Object
body (heartbeat ts) = (codes "ts", text ts) ∷ []
body (text_delta t) = (codes "text", text t) ∷ []
body (warning t) = (codes "message", text t) ∷ []
body (stream_error code message) = (codes "code", text code) ∷ (codes "message", text message) ∷ []
body (finished fin) = finished_body fin

abbrev pub event_line : Frame → Bytes
event_line e = codes "event: " ++ event_name e

abbrev pub data_line : Json → Frame → Bytes
data_line j e = codes "data:" ++ b' ' ∷ j.marshal (body e)

-- What `writeSSE` writes, in front of what is written later.
abbrev pub encode : Json → Frame → Bytes → Bytes
encode j e rest = event_line e ++ b'\n' ∷ (data_line j e ++ b'\n' ∷ b'\n' ∷ rest)

-- The bytes of a stream's events, in front of others.
unfoldable pub encode_all : Json → Frames → Bytes → Bytes
encode_all j [] rest = rest
encode_all j (e ∷ es) rest = encode j e (encode_all j es rest)

-- An event of UTF-8 texts.
abbrev pub IsPlain : Json → Frame → Type 0
IsPlain j e = All (λ (m : Bytes × Value). IsUtf8 j m.1) (body e)
