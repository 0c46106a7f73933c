-- ===== src/Cli/Conversation/Accepted.antt =====
-- internal/cli/session.go against internal/transport/http/request.go, `validate`: which questions of a
-- conversation the server takes.
use agent_cortex.Prelude.{
  ℕ, suc, ◌+◌, ◌≤◌, ◌<◌, true, false, not, ltb, Bytes, bytes_eq, List, [], ◌∷◌, ◌++◌, length,
  length-append, All, All-append, ◌≡◌, ◌↔◌, refl, arith, some, Bool-cases, inl, inr,
}
use agent_cortex.Strings.{
  trim_space, trim_left, trim_right, trim_from, space_width, space_width_back, is_empty, rune_count,
}
use agent_cortex.Errors.{ok, err, sentinel, invalid_request, guard, ◌>>◌}
use agent_cortex.Http.Ids.{is_path_id}
use agent_cortex.Http.Request.{
  QaMessage, QaStreamRequest, is_role, role_user, role_assistant, total_chars, last_message,
  is_from_user, validate, messages_max_count, messages_max_total_chars,
}
use agent_cortex.Cli.Conversation.{Conversation, said, clear, messages_with_user, add_turn}

-- A message that the server takes: a known role, and a content that is not blank.
abbrev pub IsTaken : QaMessage → Type 0
IsTaken m = (is_role (trim_space m.role) ≡ true) × (is_empty (trim_space m.content) ≡ false)

abbrev pub IsTalk : Conversation → Type 0
IsTalk c = All IsTaken c.messages

-- The characters of all messages.
unfoldable pub chars : List QaMessage → ℕ
chars [] = 0
chars (m ∷ ms) = rune_count (trim_space m.content) + chars ms

total_chars-IsTaken : (ms : List QaMessage) → All IsTaken ms → total_chars ms ≡ ok (chars ms)
unfolding total_chars chars
total_chars-IsTaken [] h = refl
total_chars-IsTaken (m ∷ ms) h = rw (h.0.0, h.0.1, total_chars-IsTaken ms h.1) refl

last_message-append : (ms : List QaMessage) (m : QaMessage) → last_message (ms ++ m ∷ []) ≡ some m
unfolding last_message
last_message-append [] m = refl
last_message-append (n ∷ []) m = refl
last_message-append (n ∷ k ∷ ms) m = last_message-append (k ∷ ms) m

pub said-IsTaken :
    (content : Bytes) → is_empty (trim_space content) ≡ false → IsTaken (said role_user content)
unfolding trim_space trim_left trim_right trim_from space_width space_width_back bytes_eq
said-IsTaken content h = (refl, h)

pub add_turn-IsTalk :
    (c : Conversation) (question answer : Bytes)
    → IsTalk c
    → is_empty (trim_space question) ≡ false
    → is_empty (trim_space answer) ≡ false
    → IsTalk (add_turn c question answer)
unfolding trim_space trim_left trim_right trim_from space_width space_width_back bytes_eq
add_turn-IsTalk c question answer h q a =
    All-append IsTaken c.messages (said role_user question ∷ said role_assistant answer ∷ []) h
      ((refl, q), ((refl, a), tt))

pub clear-IsTalk : (s : Bytes) → trim_space s ≡ s → IsTalk (clear s)
unfolding trim_space trim_left trim_right trim_from space_width space_width_back bytes_eq
clear-IsTalk [] h = tt
clear-IsTalk (b ∷ s) h = ((refl, rw (h) refl), tt)

pub from_user :
    (ms : List QaMessage) (question : Bytes)
    → is_from_user (last_message (ms ++ said role_user question ∷ [])) ≡ true
unfolding trim_space trim_left trim_right trim_from space_width space_width_back bytes_eq
from_user ms question = rw (last_message-append ms (said role_user question)) refl

abbrev pub request : Bytes → Bytes → Conversation → Bytes → QaStreamRequest
request agent_id user_id c question = record {
  agent_id = agent_id;
  user_id = user_id;
  messages = messages_with_user c question;
}

abbrev Within : Conversation → Bytes → Type 0
Within c question = (length c.messages < 100) × (chars (messages_with_user c question) ≤ 24000)

guards_within :
    (n k : ℕ)
    → ((guard (not (ltb messages_max_count (suc n))) invalid_request
          >> guard (not (ltb messages_max_total_chars k)) invalid_request)
        ≡ ok tt)
      ↔ ((n < 100) × (k ≤ 24000))
guards_within n k = (λ e. (ground arith, ground arith), λ w. ground arith)

module _ (agent_id user_id : Bytes) (c : Conversation) (question : Bytes) where
  length-messages_with_user : length (messages_with_user c question) ≡ suc (length c.messages)
  length-messages_with_user = omega (arith, length-append c.messages (said role_user question ∷ []))

  validate-request :
      is_path_id agent_id ≡ true
      → is_path_id user_id ≡ true
      → IsTalk c
      → is_empty (trim_space question) ≡ false
      → validate (request agent_id user_id c question) ≡ (
          guard (not (ltb messages_max_count (suc (length c.messages)))) invalid_request
          >> guard
              (not (ltb messages_max_total_chars (chars (messages_with_user c question))))
              invalid_request)
  unfolding validate
  validate-request a u h q =
      rw
        (
          a,
          u,
          length-messages_with_user,
          total_chars-IsTaken (messages_with_user c question) (
              All-append IsTaken c.messages (said role_user question ∷ []) h
                (said-IsTaken question q, tt)),
          from_user c.messages question,
        )
        (ground arith)

  -- A conversation of known roles and no blank content, between an agent and a user whose identifiers can
  -- stand in a path, and a question that is not blank: the server takes the request exactly when the
  -- conversation has fewer than 100 messages and all the trimmed contents together, the question
  -- included, have at most 24000 characters.
  pub request_accepted :
      is_path_id agent_id ≡ true
      → is_path_id user_id ≡ true
      → IsTalk c
      → is_empty (trim_space question) ≡ false
      → (validate (request agent_id user_id c question) ≡ ok tt) ↔ Within c question
  request_accepted a u h q =
      rw (validate-request a u h q)
        (guards_within (length c.messages) (chars (messages_with_user c question)))

-- A conversation of 100 messages gets no question through.
module _ (agent_id user_id : Bytes) (c : Conversation) (question : Bytes) where
  pub request_refused :
      100 ≤ length c.messages
      → validate (request agent_id user_id c question) ≡ err (sentinel invalid_request)
  unfolding validate
  request_refused h =
      let r = request agent_id user_id c question in
      let n : ltb messages_max_count (length r.messages) ≡ true =
        ground (arith, length-append c.messages (said role_user question ∷ [])) in
      elim (Bool-cases (is_path_id agent_id)) [
        | inr a ↦ rw (a) refl
        | inl a ↦ elim (Bool-cases (is_path_id user_id)) [
          | inr u ↦ rw (a, u) refl
          | inl u ↦ rw (a, u, n) (ground arith)
        ]
      ]
