-- ===== src/Http/Status.antt =====
-- internal/transport/http/errors.go: the status and the text that a caller sees of an error.
use agent_cortex.Prelude.{ℕ, Bool, ◌||◌, Bytes, ◌==◌, if◌then◌else◌}
use agent_cortex.Prelude.Text.{codes}
use agent_cortex.Errors.{
  Error, is_error, invalid_embedding, invalid_embedding_value, empty_input, invalid_vector,
  invalid_vector_value, invalid_request, empty_messages, memory_conflict,
}

abbrev pub bad_request : ℕ
bad_request = 400

abbrev pub conflict : ℕ
conflict = 409

abbrev pub internal : ℕ
internal = 500

abbrev pub is_caller_error : Error → Bool
is_caller_error e =
    is_error e invalid_embedding
    || is_error e invalid_embedding_value
    || is_error e empty_input
    || is_error e invalid_vector
    || is_error e invalid_vector_value
    || is_error e invalid_request
    || is_error e empty_messages

-- `statusFromError`
unfoldable pub status_from_error : Error → ℕ
status_from_error e =
    if is_caller_error e
    then bad_request
    else if is_error e memory_conflict
    then conflict
    else internal

abbrev pub internal_message : Bytes
internal_message = codes "internal server error"

-- `publicMessageFromError`
unfoldable pub public_message : Error → Bytes
unfolding status_from_error
public_message e = if status_from_error e == internal then internal_message else e.text
