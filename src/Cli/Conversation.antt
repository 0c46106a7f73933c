-- ===== src/Cli/Conversation.antt =====
-- internal/cli/session.go: the conversation of a terminal session. Its messages have no fields but the
-- role and the content, which are those of a request.
pub mod Accepted
use agent_cortex.Prelude.{Bytes, List, [], ◌∷◌, ◌++◌, if◌then◌else◌}
use agent_cortex.Strings.{is_empty}
use agent_cortex.Http.Request.{QaMessage, role_system, role_user, role_assistant}

pub record Conversation : Type 0 where
  pub system_prompt : Bytes
  pub messages : List QaMessage

abbrev pub said : Bytes → Bytes → QaMessage
said role content = record { role = role; content = content }

-- `Clear`; the conversation so far does not matter.
abbrev pub clear : Bytes → Conversation
clear system_prompt = record {
  system_prompt = system_prompt;
  messages = if is_empty system_prompt then [] else said role_system system_prompt ∷ [];
}

-- `NewConversation`
abbrev pub new_conversation : Bytes → Conversation
new_conversation system_prompt = clear system_prompt

-- `MessagesWithUser`
abbrev pub messages_with_user : Conversation → Bytes → List QaMessage
messages_with_user c question = c.messages ++ said role_user question ∷ []

-- `AddTurn`
abbrev pub add_turn : Conversation → Bytes → Bytes → Conversation
add_turn c question answer = record c {
  messages = c.messages ++ said role_user question ∷ said role_assistant answer ∷ [];
}
