-- ===== src/Model/OpenAi/Accepted.antt =====
-- internal/model/openai_compatible.go, `openAICompatibleMessages`: which messages the client takes.
use agent_cortex.Prelude.{
  Bool, true, false, not, ◌&&◌, Bytes, bytes_eq, bytes_eq_iff, List, [], ◌∷◌, map, ◌≡◌, ◌≢◌, ◌↔◌,
  ◌⊎◌, inl, inr, refl, sym, ◌∙◌, All, Bool-cases, if◌then◌else◌,
}
use agent_cortex.Strings.{trim_space, is_empty}
use agent_cortex.Errors.{ok, err, sentinel, invalid_request, >>=-eq-ok, guard-eq-ok}
use agent_cortex.Http.Request.{role_system, role_user, role_assistant}
use agent_cortex.Model.{Message, ToolCall, role_tool}
use agent_cortex.Model.Wire.{ChatToolCall, ChatMessage}
use agent_cortex.Model.OpenAi.{
  Codec, chat_tool_calls, chat_message, chat_messages_loop, chat_messages, plain_message,
  assistant_message, tool_message, converted, is_nil,
}
use agent_cortex.Model.OpenAi.Calls.{
  not-true, IsCall, wire_call, chat_tool_calls-eq-ok, chat_tool_calls-IsCall,
}

abbrev pub HasContent : Message → Type 0
HasContent m = is_empty (trim_space m.content) ≡ false

-- A message of the system or of the user, of the assistant, or of a tool.
pub data IsSpoken (j : Codec) (m : Message) : Type 0 where
  by_system : m.role ≡ role_system → HasContent m → IsSpoken j m
  by_user : m.role ≡ role_user → HasContent m → IsSpoken j m
  by_assistant :
      m.role ≡ role_assistant
      → All (IsCall j) m.tool_calls
      → HasContent m ⊎ (m.tool_calls ≢ [])
      → IsSpoken j m
  by_tool :
      m.role ≡ role_tool
      → HasContent m
      → is_empty (trim_space m.tool_call_id) ≡ false
      → IsSpoken j m

-- Either a text or some calls.
filled :
    (b : Bool) (cs : List ToolCall) (ws : List ChatToolCall)
    → map wire_call cs ≡ ws
    → not (b && is_nil ws) ≡ true
    → (b ≡ false) ⊎ (cs ≢ [])
filled false cs ws e h = inl refl
filled true [] ws e h = elim ws [ [] ↦ absurd (cc (h)) | w ∷ vs ↦ absurd (cc (e)) ]
filled true (c ∷ cs) ws e h = inr (λ z. cc (z))

called :
    (b : Bool) (cs : List ToolCall)
    → (b ≡ false) ⊎ (cs ≢ [])
    → (b && is_nil (map wire_call cs)) ≡ false
called false cs h = refl
called true [] (inl h) = h
called true [] (inr h) = absurd (h refl)
called true (c ∷ cs) h = refl

module _ (j : Codec) (m : Message) where
  plain_message-eq-ok : (w : ChatMessage) → plain_message j m ≡ ok w → HasContent m
  plain_message-eq-ok w h =
      let (b, h1) = guard-eq-ok (not (is_empty (trim_space m.content))) invalid_request _ h in
      not-true (is_empty (trim_space m.content)) b

  assistant_message-eq-ok :
      (w : ChatMessage)
      → assistant_message j m ≡ ok w
      → All (IsCall j) m.tool_calls × (HasContent m ⊎ (m.tool_calls ≢ []))
  assistant_message-eq-ok w h =
      let (ws, e, h1) = >>=-eq-ok (chat_tool_calls j m.tool_calls) _ h in
      let (k, x) = chat_tool_calls-eq-ok j m.tool_calls ws e in
      let (b, h2) =
        guard-eq-ok (not (is_empty (trim_space m.content) && is_nil ws)) invalid_request _ h1 in
      (k, filled (is_empty (trim_space m.content)) m.tool_calls ws x b)

  tool_message-eq-ok :
      (w : ChatMessage)
      → tool_message j m ≡ ok w
      → HasContent m × (is_empty (trim_space m.tool_call_id) ≡ false)
  tool_message-eq-ok w h =
      let (b, h1) = guard-eq-ok (not (is_empty (trim_space m.content))) invalid_request _ h in
      let (i, h2) = guard-eq-ok (not (is_empty (trim_space m.tool_call_id))) invalid_request _ h1 in
      (
        not-true (is_empty (trim_space m.content)) b,
        not-true (is_empty (trim_space m.tool_call_id)) i,
      )

  is : (r : Bytes) → bytes_eq m.role r ≡ true → m.role ≡ r
  is r e = (bytes_eq_iff m.role r).0 e

  chat_message-eq-ok : (w : ChatMessage) → chat_message j m ≡ ok w → IsSpoken j m
  chat_message-eq-ok w h = elim (Bool-cases (bytes_eq m.role role_system)) [
    | inl a ↦
        let e : chat_message j m ≡ plain_message j m = rw (a) refl in
        by_system (is role_system a) (plain_message-eq-ok w (sym e ∙ h))
    | inr a ↦ elim (Bool-cases (bytes_eq m.role role_user)) [
      | inl b ↦
          let e : chat_message j m ≡ plain_message j m = rw (a, b) refl in
          by_user (is role_user b) (plain_message-eq-ok w (sym e ∙ h))
      | inr b ↦ elim (Bool-cases (bytes_eq m.role role_assistant)) [
        | inl c ↦
            let e : chat_message j m ≡ assistant_message j m = rw (a, b, c) refl in
            let (k, f) = assistant_message-eq-ok w (sym e ∙ h) in
            by_assistant (is role_assistant c) k f
        | inr c ↦ elim (Bool-cases (bytes_eq m.role role_tool)) [
          | inl d ↦
              let e : chat_message j m ≡ tool_message j m = rw (a, b, c, d) refl in
              let (f, i) = tool_message-eq-ok w (sym e ∙ h) in by_tool (is role_tool d) f i
          | inr d ↦
              let e : chat_message j m ≡ err (sentinel invalid_request) = rw (a, b, c, d) refl in
              absurd (cc (e, h))
        ]
      ]
    ]
  ]

  -- The message that a spoken message becomes.
  unfoldable pub wire_message : ChatMessage
  wire_message =
      converted j m (if bytes_eq m.role role_assistant then map wire_call m.tool_calls else [])

  no_blank_nil :
      HasContent m ⊎ (m.tool_calls ≢ [])
      → (is_empty (trim_space m.content) && is_nil (map wire_call m.tool_calls)) ≡ false
  no_blank_nil h = called (is_empty (trim_space m.content)) m.tool_calls h

  pub chat_message-IsSpoken : IsSpoken j m → chat_message j m ≡ ok wire_message
  unfolding wire_message bytes_eq
  chat_message-IsSpoken (by_system e h) = rw (e, h) refl
  chat_message-IsSpoken (by_user e h) = rw (e, h) refl
  chat_message-IsSpoken (by_assistant e k h) =
      rw (e, chat_tool_calls-IsCall j m.tool_calls k, no_blank_nil h) refl
  chat_message-IsSpoken (by_tool e h i) = rw (e, h, i) refl

module _ (j : Codec) where
  loop-eq-ok :
      (ms : List Message) (ws : List ChatMessage)
      → chat_messages_loop j ms ≡ ok ws
      → All (IsSpoken j) ms
  unfolding chat_messages_loop
  loop-eq-ok [] ws h = tt
  loop-eq-ok (m ∷ ms) ws h =
      let (w, e, h1) = >>=-eq-ok (chat_message j m) _ h in
      let (vs, f, h2) = >>=-eq-ok (chat_messages_loop j ms) _ h1 in
      (chat_message-eq-ok j m w e, loop-eq-ok ms vs f)

  loop-IsSpoken :
      (ms : List Message)
      → All (IsSpoken j) ms
      → chat_messages_loop j ms ≡ ok (map (wire_message j) ms)
  unfolding chat_messages_loop
  loop-IsSpoken [] h = refl
  loop-IsSpoken (m ∷ ms) h = rw (chat_message-IsSpoken j m h.0, loop-IsSpoken ms h.1) refl

  chat_messages-eq-ok :
      (ms : List Message) (ws : List ChatMessage)
      → chat_messages j ms ≡ ok ws
      → (ms ≢ []) × All (IsSpoken j) ms
  unfolding chat_messages
  chat_messages-eq-ok [] ws h = cc
  chat_messages-eq-ok (m ∷ ms) ws h = ((λ e. cc (e)), loop-eq-ok (m ∷ ms) ws h)

  chat_messages-IsSpoken :
      (ms : List Message)
      → ms ≢ []
      → All (IsSpoken j) ms
      → chat_messages j ms ≡ ok (map (wire_message j) ms)
  unfolding chat_messages
  chat_messages-IsSpoken [] n h = absurd (n refl)
  chat_messages-IsSpoken (m ∷ ms) n h = loop-IsSpoken (m ∷ ms) h

  -- The client takes a list of messages exactly when it is not empty and each of them is one of the system
  -- or of the user with a text, one of the assistant with a text or tool calls, all of them with an
  -- identifier, a name and JSON arguments, or one of a tool with a text and the identifier of a call.
  pub chat_messages_accepted :
      (ms : List Message)
      → ((ws : List ChatMessage) × (chat_messages j ms ≡ ok ws)) ↔ ((ms ≢ []) × All (IsSpoken j) ms)
  chat_messages_accepted ms = (
    λ r. chat_messages-eq-ok ms r.0 r.1,
    λ r. (map (wire_message j) ms, chat_messages-IsSpoken ms r.0 r.1),
  )
