-- ===== src/Model/Examples.antt =====
-- Runs of the model's client on samples, with a codec that reads every datum as a text.
use agent_cortex.Prelude.{
  ◌≡◌, ◌≢◌, ◌↔◌, refl, true, Bytes, List, [], ◌∷◌, ◌++◌, none, some, map, All, bytes_eq,
}
use agent_cortex.Prelude.Text.{codes}
use agent_cortex.Prelude.Int.{pos}
use agent_cortex.Strings.{
  trim_space, trim_right, trim_from, trim_left, space_width, space_width_back, count_runes,
  rune_width,
}
use agent_cortex.Errors.{Error, ok, foreign}
use agent_cortex.Http.Ids.{is_path_id, all_path_bytes}
use agent_cortex.Http.Request.{
  QaMessage, QaStreamRequest, total_chars, last_message, validate, to_model_request,
}
use agent_cortex.Model.{Message, ToolCall, StreamEvent}
use agent_cortex.Model.Wire.{ChatMessage, ChatResponse}
use agent_cortex.Model.OpenAi.{Codec, ModelClient, chat_tool_calls, chat_messages}
use agent_cortex.Model.OpenAi.Replies.{tool_calls_from, body_events, zero_usage}
use agent_cortex.Model.OpenAi.Calls.{trimmed_call, wire_call, tool_calls_from-chat_tool_calls}
use agent_cortex.Model.OpenAi.Accepted.{IsSpoken, chat_messages_accepted}
use agent_cortex.Model.OpenAi.Questions.{as_message, as_wire, chat_messages-to_model_request}
use agent_cortex.Model.OpenAi.Events.{IsStream, body_events-IsStream, body_events_cut}

abbrev spoken : Bytes → ChatResponse
spoken s = record {
  id = [];
  model = [];
  choices =
      record {
        finish_reason = [];
        message = record { role = []; content = s; tool_call_id = []; tool_calls = [] };
      }
      ∷ [];
  usage = zero_usage;
}

abbrev codec : Codec
codec = record {
  is_json = λ s. true;
  marshal = λ r. ok [];
  unmarshal = λ s. ok (spoken s);
  decode = λ r. ok (spoken r.0);
}

abbrev model_client : ModelClient
model_client = record {
  endpoint = codes "http://m";
  model = codes "m";
  api_key = [];
  timeout = pos 1;
}

abbrev call : ToolCall
call = record { id = codes " c1"; name = codes "look"; arguments = codes "{}" }

tool_calls_from-chat_tool_calls_example :
    tool_calls_from codec (map wire_call (call ∷ [])) ≡ ok (map trimmed_call (call ∷ []))
unfolding chat_tool_calls trim_space trim_right trim_from trim_left space_width space_width_back
tool_calls_from-chat_tool_calls_example =
    tool_calls_from-chat_tool_calls codec (call ∷ []) (map wire_call (call ∷ [])) refl

abbrev hi : QaMessage
hi = record { role = codes "user"; content = codes "Hi" }

chat_messages_accepted_example :
    ((ws : List ChatMessage) × (chat_messages codec (as_message hi ∷ []) ≡ ok ws))
    ↔ ((◌≢◌ {A = List Message} (as_message hi ∷ []) []) × All (IsSpoken codec) (as_message hi ∷ []))
chat_messages_accepted_example = chat_messages_accepted codec (as_message hi ∷ [])

abbrev question : QaStreamRequest
question = record { agent_id = codes "a1"; user_id = codes "u1"; messages = hi ∷ [] }

chat_messages-to_model_request_example :
    chat_messages codec (map as_message (hi ∷ [])) ≡ ok (map as_wire (hi ∷ []))
unfolding to_model_request validate is_path_id all_path_bytes total_chars last_message trim_space
    trim_right trim_from trim_left space_width space_width_back bytes_eq count_runes rune_width
chat_messages-to_model_request_example =
    chat_messages-to_model_request codec question (hi ∷ []) refl

body_events-IsStream_example : IsStream (body_events codec model_client (codes "data: Hi", none))
body_events-IsStream_example = body_events-IsStream codec model_client (codes "data: Hi", none)

abbrev reset : Error
reset = foreign (codes "connection reset")

body_events_cut_example :
    (rest : List StreamEvent) × (body_events codec model_client
        (codes "data: Hi" ++ b'\n' ∷ codes "data: you", none)
      ≡ body_events codec model_client (codes "data: Hi" ++ b'\n' ∷ [], some reset) ++ rest)
body_events_cut_example =
    body_events_cut codec model_client (codes "data: Hi") (codes "data: you") reset none
