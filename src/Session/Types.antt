-- ===== src/Session/Types.antt =====
-- internal/session/session.go, event.go, errors.go, and the stream events of
-- internal/model/client.go. Times are nanoseconds since the Unix epoch.
use agent_cortex.Prelude.{Bool, true, false, Bytes, List, [], Option, none}
use agent_cortex.Prelude.Int.{ℤ, pos}
use agent_cortex.RateLimit.Types.{Time}

pub data State : Type 0 where
  created running interrupted completed failed expired : State

-- `terminal`
abbrev pub terminal : State → Bool
terminal interrupted = true
terminal completed = true
terminal failed = true
terminal expired = true
terminal _ = false

pub data EventType : Type 0 where
  started text_delta tool_delta finished was_interrupted has_failed : EventType

pub record ToolCallDelta : Type 0 where
  pub index : ℤ
  pub id : Bytes
  pub name : Bytes
  pub arguments_delta : Bytes

pub record Usage : Type 0 where
  pub prompt_tokens : ℤ
  pub completion_tokens : ℤ
  pub total_tokens : ℤ

abbrev pub no_usage : Usage
no_usage = record { prompt_tokens = pos 0; completion_tokens = pos 0; total_tokens = pos 0 }

-- `model.StreamEvent`; an error is its text.
pub record StreamEvent : Type 0 where
  pub text : Bytes
  pub tool_call : Option ToolCallDelta
  pub finish_reason : Bytes
  pub model : Bytes
  pub usage : Usage
  pub raw_id : Bytes
  pub err : Option Bytes

-- `session.Event`
pub record Event : Type 0 where
  pub session_id : Bytes
  pub kind : EventType
  pub text : Bytes
  pub tool_call : Option ToolCallDelta
  pub finish_reason : Bytes
  pub model : Bytes
  pub usage : Usage
  pub raw_id : Bytes
  pub err : Bytes
  pub at : Time

-- An event with nothing but its type and error, as `send` and `sendTerminal` complete it.
abbrev pub plain_event : Bytes → Time → EventType → Bytes → Event
plain_event id now kind err = record {
  session_id = id;
  kind = kind;
  text = [];
  tool_call = none;
  finish_reason = [];
  model = [];
  usage = no_usage;
  raw_id = [];
  err = err;
  at = now;
}

-- `eventFromStream`, with the time that `send` sets.
abbrev pub event_from_stream : Bytes → Time → EventType → StreamEvent → Event
event_from_stream id now kind e = record {
  session_id = id;
  kind = kind;
  text = e.text;
  tool_call = e.tool_call;
  finish_reason = e.finish_reason;
  model = e.model;
  usage = e.usage;
  raw_id = e.raw_id;
  err = [];
  at = now;
}

pub data Error : Type 0 where
  invalid_config manager_closed session_exists session_not_found : Error
  too_many_sessions invalid_session_id context_done : Error

pub data Result {ℓ} (A : Type ℓ) : Type ℓ where
  ok : A → Result A
  err : Error → Result A

abbrev pub Metadata : Type 0
Metadata = List (Bytes × Bytes)
