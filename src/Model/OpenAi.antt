-- ===== src/Model/OpenAi.antt =====
-- internal/model/openai_compatible.go: the client of a language model. `encoding/json` and the sending of
-- requests are parameters.
pub mod Replies
pub mod Accepted
pub mod Questions
pub mod Calls
pub mod Events
use agent_cortex.Prelude.{
  ℕ, Bool, true, false, not, ◌&&◌, ◌||◌, Bytes, bytes_eq, List, [], ◌∷◌, ◌++◌, Option, none, some,
  length, is_some, leb, ltb, ◌==◌, if◌then◌else◌,
}
use agent_cortex.Prelude.Int.{ℤ, pos, leb_ℤ, ltb_ℤ, eqb_ℤ}
use agent_cortex.Prelude.Text.{codes}
use agent_cortex.Strings.{
  trim_space, is_empty, after_prefix, has_prefix, before_suffix, trim_right_byte, drop_byte,
}
use agent_cortex.Errors.{
  Error, Sentinel, Result, ok, err, guard, sentinel, join, invalid_model_config, invalid_request,
  empty_messages, model_unavailable, invalid_response, ◌>>=◌, ◌>>◌,
}
use agent_cortex.Memory.{Float32}
use agent_cortex.Scanner.{Reader, scan}
use agent_cortex.Http.Request.{role_system, role_user, role_assistant}
use agent_cortex.Model.{
  Message, Tool, ToolCall, ToolChoice, Request, Response, Usage, StreamEvent, ToolCallDelta,
  role_tool, choice_auto, choice_none, choice_required, choice_tool,
}
use agent_cortex.Model.Wire.{
  ChatToolCall, ChatMessage, ChatTool, ChatToolChoice, by_mode, by_name, ChatRequest, Choice,
  ChatResponse, function_type,
}

-- What the client uses of `encoding/json`: `Valid`, `Marshal` of a request, `Unmarshal` of a response, and
-- `Decode` of one from a body.
pub record Codec : Type 0 where
  pub is_json : Bytes → Bool
  pub marshal : ChatRequest → Result Bytes
  pub unmarshal : Bytes → Result ChatResponse
  pub decode : Reader → Result ChatResponse

-- `OpenAICompatibleClient`, its timeout in nanoseconds.
pub record ModelClient : Type 0 where
  pub endpoint : Bytes
  pub model : Bytes
  pub api_key : Bytes
  pub timeout : ℤ

abbrev pub is_nil {ℓ} : {A : Type ℓ} → List A → Bool
is_nil [] = true
is_nil (x ∷ xs) = false

-- The error of a library behind the program's own.
abbrev pub joined {ℓ} : {A : Type ℓ} → Sentinel → Result A → Result A
joined s (ok a) = ok a
joined s (err e) = err (join (sentinel s) e)

-- `isJSONObject`
unfoldable pub is_json_object : Codec → Bytes → Bool
is_json_object j raw =
    j.is_json raw
    && has_prefix (codes "{") (trim_space raw)
    && is_some (before_suffix (codes "}") (trim_space raw))

module _ (j : Codec) where
  abbrev pub chat_tool_call : ToolCall → Result ChatToolCall
  chat_tool_call c = do
    guard (not (is_empty (trim_space c.id))) invalid_request
    guard (not (is_empty (trim_space c.name))) invalid_request
    guard (j.is_json c.arguments) invalid_request
    ok (record {
      id = trim_space c.id;
      index = pos 0;
      kind = function_type;
      name = trim_space c.name;
      arguments = c.arguments;
    })

  -- `openAICompatibleToolCalls`
  unfoldable pub chat_tool_calls : List ToolCall → Result (List ChatToolCall)
  chat_tool_calls [] = ok []
  chat_tool_calls (c ∷ cs) = do w ← chat_tool_call c; ws ← chat_tool_calls cs; ok (w ∷ ws)

  abbrev pub converted : Message → List ChatToolCall → ChatMessage
  converted m calls = record {
    role = m.role;
    content = m.content;
    tool_call_id = trim_space m.tool_call_id;
    tool_calls = calls;
  }

  abbrev pub is_blank : Message → Bool
  is_blank m = is_empty (trim_space m.content)

  -- The cases of the role.
  abbrev pub plain_message : Message → Result ChatMessage
  plain_message m = guard (not (is_blank m)) invalid_request >> ok (converted m [])

  abbrev pub assistant_message : Message → Result ChatMessage
  assistant_message m = chat_tool_calls m.tool_calls >>= (λ calls.
      guard (not (is_blank m && is_nil calls)) invalid_request >> ok (converted m calls))

  abbrev pub tool_message : Message → Result ChatMessage
  tool_message m =
      guard (not (is_blank m)) invalid_request
      >> (guard (not (is_empty (trim_space m.tool_call_id))) invalid_request >> ok (converted m []))

  abbrev pub chat_message : Message → Result ChatMessage
  chat_message m =
      if bytes_eq m.role role_system || bytes_eq m.role role_user
      then plain_message m
      else if bytes_eq m.role role_assistant
      then assistant_message m
      else if bytes_eq m.role role_tool
      then tool_message m
      else err (sentinel invalid_request)

  -- The loop of `openAICompatibleMessages`
  unfoldable pub chat_messages_loop : List Message → Result (List ChatMessage)
  unfolding chat_tool_calls
  chat_messages_loop [] = ok []
  chat_messages_loop (m ∷ ms) = do w ← chat_message m; ws ← chat_messages_loop ms; ok (w ∷ ws)

  -- `openAICompatibleMessages`
  unfoldable pub chat_messages : List Message → Result (List ChatMessage)
  unfolding chat_messages_loop
  chat_messages ms = guard (not (is_nil ms)) empty_messages >> chat_messages_loop ms

  -- `openAICompatibleTools`
  unfoldable pub chat_tools : List Tool → Result (List ChatTool)
  unfolding is_json_object
  chat_tools [] = ok []
  chat_tools (t ∷ ts) = do
    guard (not (is_empty (trim_space t.name))) invalid_request
    guard (not (is_empty (trim_space t.description))) invalid_request
    guard (is_json_object j t.parameters) invalid_request
    ws ← chat_tools ts
    ok (
        record {
          kind = function_type;
          name = trim_space t.name;
          description = trim_space t.description;
          parameters = t.parameters;
        }
        ∷ ws)

  -- `openAICompatibleToolChoice`
  unfoldable pub chat_tool_choice : Option ToolChoice → Result (Option ChatToolChoice)
  chat_tool_choice none = ok none
  chat_tool_choice (some c) =
      if bytes_eq c.mode choice_auto
        || bytes_eq c.mode choice_none
        || bytes_eq c.mode choice_required
      then ok (some (by_mode c.mode))
      else if bytes_eq c.mode choice_tool
      then guard (not (is_empty (trim_space c.name))) invalid_request
        >> ok (some (by_name function_type (trim_space c.name)))
      else err (sentinel invalid_request)

  -- `t < 0 || t > 2` on the bits of a float32; both are false of NaN.
  abbrev pub is_out_of_range : Option Float32 → Bool
  is_out_of_range none = false
  is_out_of_range (some t) =
      (ltb 0x80000000 t && leb t 0xff800000) || (ltb 0x40000000 t && leb t 0x7f800000)

  abbrev pub is_not_positive : Option ℤ → Bool
  is_not_positive none = false
  is_not_positive (some n) = leb_ℤ n (pos 0)

  module _ (c : ModelClient) where
    -- The request that `chatRequestBody` marshals.
    unfoldable pub chat_request : Request → Bool → Result ChatRequest
    unfolding chat_messages chat_tools chat_tool_choice
    chat_request r stream = do
      messages ← chat_messages r.messages
      tools ← chat_tools r.tools
      choice ← chat_tool_choice r.tool_choice
      guard (not (is_out_of_range r.temperature)) invalid_request
      guard (not (is_not_positive r.max_tokens)) invalid_request
      ok (record {
        model = c.model;
        messages = messages;
        tools = tools;
        tool_choice = choice;
        stream = stream;
        temperature = r.temperature;
        max_tokens = r.max_tokens;
      })

    -- `chatRequestBody`
    unfoldable pub chat_request_body : Request → Bool → Result Bytes
    unfolding chat_request
    chat_request_body r stream =
        chat_request r stream >>= (λ w. joined model_unavailable (j.marshal w))
