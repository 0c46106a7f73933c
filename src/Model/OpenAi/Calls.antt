-- ===== src/Model/OpenAi/Calls.antt =====
-- internal/model/openai_compatible.go: the tool calls of a conversation that the client writes and reads.
use agent_cortex.Prelude.{
  Bool, true, false, not, List, [], ◌∷◌, map, ◌≡◌, refl, sym, ap, ◌∙◌, arith, All,
}
use agent_cortex.Prelude.Int.{pos}
use agent_cortex.Strings.{trim_space, is_empty}
use agent_cortex.Strings.Trimmed.{trim_space_again}
use agent_cortex.Errors.{ok, invalid_request, >>=-eq-ok, guard-eq-ok}
use agent_cortex.Model.{ToolCall}
use agent_cortex.Model.Wire.{ChatToolCall, function_type}
use agent_cortex.Model.OpenAi.{Codec, chat_tool_call, chat_tool_calls}
use agent_cortex.Model.OpenAi.Replies.{tool_calls_from}

-- A call with no white space around its identifier and its name.
abbrev pub trimmed_call : ToolCall → ToolCall
trimmed_call c = record c { id = trim_space c.id; name = trim_space c.name }

-- A call with an identifier, a name and JSON arguments.
pub record IsCall (j : Codec) (c : ToolCall) : Type 0 where
  pub id_filled : is_empty (trim_space c.id) ≡ false
  pub name_filled : is_empty (trim_space c.name) ≡ false
  pub json : j.is_json c.arguments ≡ true

-- What goes over the wire for a call.
abbrev pub wire_call : ToolCall → ChatToolCall
wire_call c = record {
  id = trim_space c.id;
  index = pos 0;
  kind = function_type;
  name = trim_space c.name;
  arguments = c.arguments;
}

pub not-true : (b : Bool) → not b ≡ true → b ≡ false
not-true b h = ground (arith, h)

module _ (j : Codec) where
  chat_tool_call-eq-ok :
      (c : ToolCall) (w : ChatToolCall) → chat_tool_call j c ≡ ok w → IsCall j c × (wire_call c ≡ w)
  chat_tool_call-eq-ok c w h =
      let (i, h1) = guard-eq-ok (not (is_empty (trim_space c.id))) invalid_request _ h in
      let (n, h2) = guard-eq-ok (not (is_empty (trim_space c.name))) invalid_request _ h1 in
      let (v, h3) = guard-eq-ok (j.is_json c.arguments) invalid_request _ h2 in
      (record { id_filled = not-true _ i; name_filled = not-true _ n; json = v }, cc (h3))

  chat_tool_call-IsCall : (c : ToolCall) → IsCall j c → chat_tool_call j c ≡ ok (wire_call c)
  chat_tool_call-IsCall c h = rw (h.id_filled, h.name_filled, h.json) refl

  pub chat_tool_calls-eq-ok :
      (cs : List ToolCall) (ws : List ChatToolCall)
      → chat_tool_calls j cs ≡ ok ws
      → All (IsCall j) cs × (map wire_call cs ≡ ws)
  unfolding chat_tool_calls
  chat_tool_calls-eq-ok [] ws h = (tt, cc (h))
  chat_tool_calls-eq-ok (c ∷ cs) ws h =
      let (w, e, h1) = >>=-eq-ok (chat_tool_call j c) _ h in
      let (vs, f, h2) = >>=-eq-ok (chat_tool_calls j cs) _ h1 in
      let (k, x) = chat_tool_call-eq-ok c w e in
      let (ks, xs) = chat_tool_calls-eq-ok cs vs f in ((k, ks), cc (x, xs, h2))

  pub chat_tool_calls-IsCall :
      (cs : List ToolCall) → All (IsCall j) cs → chat_tool_calls j cs ≡ ok (map wire_call cs)
  unfolding chat_tool_calls
  chat_tool_calls-IsCall [] h = refl
  chat_tool_calls-IsCall (c ∷ cs) h =
      rw (chat_tool_call-IsCall c h.0, chat_tool_calls-IsCall cs h.1) refl

  tool_calls_from-map :
      (cs : List ToolCall)
      → All (IsCall j) cs
      → tool_calls_from j (map wire_call cs) ≡ ok (map trimmed_call cs)
  unfolding tool_calls_from
  tool_calls_from-map [] h = refl
  tool_calls_from-map (c ∷ cs) h =
      rw
        (
          trim_space_again c.id,
          trim_space_again c.name,
          h.0.id_filled,
          h.0.name_filled,
          h.0.json,
          tool_calls_from-map cs h.1,
        )
        refl

  -- Tool calls that the client takes into a request are read back from it as the same calls with the
  -- same arguments, no white space around their identifiers and names.
  pub tool_calls_from-chat_tool_calls :
      (cs : List ToolCall) (ws : List ChatToolCall)
      → chat_tool_calls j cs ≡ ok ws
      → tool_calls_from j ws ≡ ok (map trimmed_call cs)
  tool_calls_from-chat_tool_calls cs ws h =
      let (k, e) = chat_tool_calls-eq-ok cs ws h in
      ap (tool_calls_from j) (sym e) ∙ tool_calls_from-map cs k
