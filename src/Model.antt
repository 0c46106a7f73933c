-- ===== src/Model.antt =====
-- internal/model/client.go, errors.go and provider.go: what is asked of a language model and what comes
-- back. Raw JSON stands for itself, as its text.
mod Examples
pub mod Wire
pub mod OpenAi
pub mod Providers
use agent_cortex.Prelude.{ℕ, Bytes, List, Option}
use agent_cortex.Prelude.Int.{ℤ}
use agent_cortex.Prelude.Text.{codes}
use agent_cortex.Errors.{Error}
use agent_cortex.Memory.{Float32}

abbrev pub role_tool : Bytes
role_tool = codes "tool"

pub record ToolCall : Type 0 where
  pub id : Bytes
  pub name : Bytes
  pub arguments : Bytes

pub record Message : Type 0 where
  pub role : Bytes
  pub content : Bytes
  pub tool_call_id : Bytes
  pub tool_calls : List ToolCall

pub record Tool : Type 0 where
  pub name : Bytes
  pub description : Bytes
  pub parameters : Bytes

-- `ToolChoice`, its mode as it is written.
pub record ToolChoice : Type 0 where
  pub mode : Bytes
  pub name : Bytes

abbrev pub choice_auto : Bytes
choice_auto = codes "auto"

abbrev pub choice_none : Bytes
choice_none = codes "none"

abbrev pub choice_required : Bytes
choice_required = codes "required"

abbrev pub choice_tool : Bytes
choice_tool = codes "tool"

pub record Request : Type 0 where
  pub messages : List Message
  pub tools : List Tool
  pub tool_choice : Option ToolChoice
  pub temperature : Option Float32
  pub max_tokens : Option ℤ

pub record Usage : Type 0 where
  pub prompt_tokens : ℤ
  pub completion_tokens : ℤ
  pub total_tokens : ℤ

pub record Response : Type 0 where
  pub text : Bytes
  pub tool_calls : List ToolCall
  pub finish_reason : Bytes
  pub model : Bytes
  pub usage : Usage
  pub raw_id : Bytes

pub record ToolCallDelta : Type 0 where
  pub index : ℤ
  pub id : Bytes
  pub name : Bytes
  pub arguments_delta : Bytes

pub record StreamEvent : Type 0 where
  pub text_delta : Bytes
  pub tool_call_delta : Option ToolCallDelta
  pub finish_reason : Bytes
  pub model : Bytes
  pub usage : Usage
  pub raw_id : Bytes
  pub err : Option Error
