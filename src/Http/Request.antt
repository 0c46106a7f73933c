-- ===== src/Http/Request.antt =====
-- internal/transport/http/request.go: the bodies of requests, behind the checks of the web framework.
pub mod Accepted
use agent_cortex.Prelude.{
  ℕ, suc, ◌+◌, Bool, true, false, not, ◌&&◌, ◌||◌, Bytes, bytes_eq, List, [], ◌∷◌, ◌++◌, Option,
  none, some, map, length, leb, ltb, ◌==◌, if◌then◌else◌,
}
use agent_cortex.Prelude.Int.{ℤ, pos, negsuc}
use agent_cortex.Prelude.Text.{codes}
use agent_cortex.Strings.{trim_space, is_empty, rune_count, count_runes}
use agent_cortex.RateLimit.Types.{zero_time}
use agent_cortex.Errors.{Error, Result, ok, err, guard, sentinel, invalid_request, ◌>>=◌, ◌>>◌}
use agent_cortex.Memory.{Memory, Float32}
use agent_cortex.Http.Ids.{is_path_id}

abbrev pub messages_max_count : ℕ
messages_max_count = 100

abbrev pub messages_max_total_chars : ℕ
messages_max_total_chars = 24000

pub record CreateMemoryRequest : Type 0 where
  pub id : Bytes
  pub agent_id : Bytes
  pub user_id : Bytes
  pub question : Bytes
  pub answer : Bytes
  pub embedding : List Float32

-- `toMemory`
unfoldable pub to_memory : CreateMemoryRequest → Memory
to_memory r = record {
  id = trim_space r.id;
  agent_id = trim_space r.agent_id;
  user_id = trim_space r.user_id;
  question = trim_space r.question;
  answer = trim_space r.answer;
  content = trim_space (r.question ++ b'\n' ∷ r.answer);
  embedding = r.embedding;
  recorded_at = zero_time;
  storage_version = pos 0;
}

-- `searchLimit`
abbrev pub search_limit : Option ℤ → ℤ
search_limit none = pos 10
search_limit (some n) = n

pub record QaMessage : Type 0 where
  pub role : Bytes
  pub content : Bytes

pub record QaStreamRequest : Type 0 where
  pub agent_id : Bytes
  pub user_id : Bytes
  pub messages : List QaMessage

abbrev pub role_system : Bytes
role_system = codes "system"

abbrev pub role_user : Bytes
role_user = codes "user"

abbrev pub role_assistant : Bytes
role_assistant = codes "assistant"

abbrev pub is_role : Bytes → Bool
is_role r = bytes_eq r role_system || bytes_eq r role_user || bytes_eq r role_assistant

-- The loop of `validate`: the characters of all messages.
unfoldable pub total_chars : List QaMessage → Result ℕ
total_chars [] = ok 0
total_chars (m ∷ ms) = do
  guard (is_role (trim_space m.role)) invalid_request
  guard (not (is_empty (trim_space m.content))) invalid_request
  n ← total_chars ms
  ok (rune_count (trim_space m.content) + n)

-- The last message.
unfoldable pub last_message : List QaMessage → Option QaMessage
last_message [] = none
last_message (m ∷ []) = some m
last_message (m ∷ n ∷ ms) = last_message (n ∷ ms)

abbrev pub is_from_user : Option QaMessage → Bool
is_from_user none = false
is_from_user (some m) = bytes_eq (trim_space m.role) role_user

-- `validate`
unfoldable pub validate : QaStreamRequest → Result (Unit {0})
unfolding total_chars last_message is_path_id
validate r = do
  guard (is_path_id r.agent_id) invalid_request
  guard (is_path_id r.user_id) invalid_request
  guard (not (length r.messages == 0)) invalid_request
  guard (not (ltb messages_max_count (length r.messages))) invalid_request
  n ← total_chars r.messages
  guard (not (ltb messages_max_total_chars n)) invalid_request
  guard (is_from_user (last_message r.messages)) invalid_request

-- A message of the model's request.
abbrev pub to_message : QaMessage → QaMessage
to_message m = record { role = trim_space m.role; content = trim_space m.content }

-- `toModelRequest`: the messages of the model's request
unfoldable pub to_model_request : QaStreamRequest → Result (List QaMessage)
unfolding validate
to_model_request r = validate r >> ok (map to_message r.messages)

abbrev pub question_of : Option QaMessage → Bytes
question_of none = []
question_of (some m) = trim_space m.content

-- `lastUserQuestion`
unfoldable pub last_user_question : QaStreamRequest → Result Bytes
unfolding validate
last_user_question r = validate r >> ok (question_of (last_message r.messages))
