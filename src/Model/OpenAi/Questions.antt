-- ===== src/Model/OpenAi/Questions.antt =====
-- internal/transport/http/request.go against internal/model/openai_compatible.go: the questions that the
-- server lets through are taken by the client of the model.
use agent_cortex.Prelude.{
  ◌≤◌, true, bytes_eq, bytes_eq_iff, List, [], ◌∷◌, map, length, ◌≡◌, inl, inr, refl, sym, ap, ◌∙◌,
  All, arith, Bool-cases,
}
use mathlib.Core.Path.{subst}
use agent_cortex.Strings.{trim_space, trim_left, trim_right, trim_from, is_empty}
use agent_cortex.Strings.Trimmed.{trim_space_again}
use agent_cortex.Errors.{ok, >>-eq-ok}
use agent_cortex.Http.Request.{
  QaMessage, QaStreamRequest, to_message, validate, to_model_request, role_system, role_user,
  role_assistant,
}
use agent_cortex.Http.Request.Accepted.{IsMessage, to_model_request-accepts}
use agent_cortex.Model.{Message}
use agent_cortex.Model.Wire.{ChatMessage}
use agent_cortex.Model.OpenAi.{Codec, chat_messages_loop, chat_messages}
use agent_cortex.Model.OpenAi.Accepted.{
  HasContent, IsSpoken, by_system, by_user, by_assistant, wire_message, chat_message-IsSpoken,
}

-- A message with no tool calls, and what it is sent as.
abbrev pub as_message : QaMessage → Message
as_message m = record { role = m.role; content = m.content; tool_call_id = []; tool_calls = [] }

abbrev pub as_wire : QaMessage → ChatMessage
as_wire m = record { role = m.role; content = m.content; tool_call_id = []; tool_calls = [] }

wire-as_message : (j : Codec) (m : QaMessage) → wire_message j (as_message m) ≡ as_wire m
unfolding wire_message trim_space trim_left trim_right trim_from
wire-as_message j m = elim (Bool-cases (bytes_eq m.role role_assistant)) [
  | inl e ↦ rw (e) refl
  | inr e ↦ rw (e) refl
]

module _ (j : Codec) where
  IsSpoken-to_message :
      (m : QaMessage) → IsMessage (to_message m) → IsSpoken j (as_message (to_message m))
  IsSpoken-to_message m (r, h) =
      let f : HasContent (as_message (to_message m)) =
        ap is_empty (trim_space_again m.content) ∙ h in
      elim (Bool-cases (bytes_eq (trim_space m.role) role_system)) [
        | inl a ↦ by_system ((bytes_eq_iff (trim_space m.role) role_system).0 a) f
        | inr a ↦ elim (Bool-cases (bytes_eq (trim_space m.role) role_user)) [
          | inl b ↦ by_user ((bytes_eq_iff (trim_space m.role) role_user).0 b) f
          | inr b ↦
              let c : bytes_eq (trim_space m.role) role_assistant ≡ true =
                ground (arith, a, b, r) in
              by_assistant ((bytes_eq_iff (trim_space m.role) role_assistant).0 c) tt (inl f)
        ]
      ]

  loop-to_message :
      (ms : List QaMessage)
      → All IsMessage (map to_message ms)
      → chat_messages_loop j (map as_message (map to_message ms))
        ≡ ok (map as_wire (map to_message ms))
  unfolding chat_messages_loop
  loop-to_message [] h = refl
  loop-to_message (m ∷ ms) h =
      rw
        (
          chat_message-IsSpoken j (as_message (to_message m)) (IsSpoken-to_message m h.0),
          loop-to_message ms h.1,
          wire-as_message j (to_message m),
        )
        refl

  chat_messages-to_message :
      (ns : List QaMessage)
      → 1 ≤ length (map to_message ns)
      → All IsMessage (map to_message ns)
      → chat_messages j (map as_message (map to_message ns)) ≡ ok (map as_wire (map to_message ns))
  unfolding chat_messages
  chat_messages-to_message [] n h = absurd (omega (arith, n))
  chat_messages-to_message (m ∷ ms) n h = loop-to_message (m ∷ ms) h

  -- The messages of a question that the server accepts are never refused by the client of the model: they
  -- are sent with their roles and their texts.
  pub chat_messages-to_model_request :
      (r : QaStreamRequest) (ms : List QaMessage)
      → to_model_request r ≡ ok ms
      → chat_messages j (map as_message ms) ≡ ok (map as_wire ms)
  unfolding to_model_request
  chat_messages-to_model_request r ms h =
      let (a, u, n, f, k, short, last) = to_model_request-accepts r ms h in
      let (v, e) = >>-eq-ok (validate r) (ok (map to_message r.messages)) h in
      let same : map to_message r.messages ≡ ms = cc (e) in
      subst (λ ns. chat_messages j (map as_message ns) ≡ ok (map as_wire ns)) same
        (chat_messages-to_message r.messages (subst (λ ns. 1 ≤ length ns) (sym same) n)
          (subst (All IsMessage) (sym same) k))
