-- ===== src/Model/Wire.antt =====
-- internal/model/openai_compatible.go, the types at its end: what goes over the wire.
use agent_cortex.Prelude.{Bool, Bytes, List, Option}
use agent_cortex.Prelude.Int.{ℤ}
use agent_cortex.Prelude.Text.{codes}
use agent_cortex.Memory.{Float32}
use agent_cortex.Model.{Usage}

-- `Type` of a tool, of a tool call and of a named tool choice
abbrev pub function_type : Bytes
function_type = codes "function"

pub record ChatToolCall : Type 0 where
  pub id : Bytes
  pub index : ℤ
  pub kind : Bytes
  pub name : Bytes
  pub arguments : Bytes

pub record ChatMessage : Type 0 where
  pub role : Bytes
  pub content : Bytes
  pub tool_call_id : Bytes
  pub tool_calls : List ChatToolCall

pub record ChatTool : Type 0 where
  pub kind : Bytes
  pub name : Bytes
  pub description : Bytes
  pub parameters : Bytes

-- A choice by its mode, and a choice of a function by its type and name.
pub data ChatToolChoice : Type 0 where
  by_mode : Bytes → ChatToolChoice
  by_name : Bytes → Bytes → ChatToolChoice

pub record ChatRequest : Type 0 where
  pub model : Bytes
  pub messages : List ChatMessage
  pub tools : List ChatTool
  pub tool_choice : Option ChatToolChoice
  pub stream : Bool
  pub temperature : Option Float32
  pub max_tokens : Option ℤ

-- A choice of a response, with its message or its delta.
pub record Choice : Type 0 where
  pub finish_reason : Bytes
  pub message : ChatMessage

-- A response, whole or a part of a stream.
pub record ChatResponse : Type 0 where
  pub id : Bytes
  pub model : Bytes
  pub choices : List Choice
  pub usage : Usage
