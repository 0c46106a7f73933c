-- ===== src/Cli/App/Full.antt =====
-- internal/cli/app.go, `handleLine` and `Run`, on a conversation of 100 messages: its questions have more
-- messages than the server takes.
use agent_cortex.Prelude.{
  ℕ, ◌≤◌, Bool, true, false, Bytes, List, [], ◌∷◌, Option, none, some, length, All, ◌≡◌, refl, sym,
  ap, ◌∙◌, Bool-cases, inl, inr,
}
use mathlib.Core.Path.{subst}
use agent_cortex.Strings.{trim_space, is_empty}
use agent_cortex.Errors.{Error, Result, ok, err, sentinel, invalid_request}
use agent_cortex.Http.Request.{QaStreamRequest, validate}
use agent_cortex.Cli.Client.{QaEvent}
use agent_cortex.Cli.Conversation.{Conversation}
use agent_cortex.Cli.Conversation.Accepted.{request_refused}
use agent_cortex.Cli.App.{
  App, Input, line, ended, failed, cancelled, request_of, heard_answer, answer, asking,
  after_answer, ask, is_exit, is_clear, handle_line, prompt, after_line, after_prompt, run,
}

-- A client of a server that refuses what `validate` refuses.
abbrev pub Refuses : (ℕ → QaStreamRequest → Result (List QaEvent)) → Type 0
Refuses stream_qa =
    (n : ℕ) (r : QaStreamRequest)
    → validate r ≡ err (sentinel invalid_request)
    → (e : Error) × (stream_qa n r ≡ err e)

module _ (faults : ℕ → Option Error) (stream_qa : ℕ → QaStreamRequest → Result (List QaEvent))
    (to_lower : Bytes → Bytes) where
  -- No command to clear the conversation.
  abbrev pub IsNoClear : Input → Type 0
  IsNoClear (line s) = is_clear faults stream_qa to_lower (trim_space s) ≡ false
  IsNoClear ended = Unit
  IsNoClear (failed e) = Unit
  IsNoClear cancelled = Unit

  abbrev Keeps : Conversation → App → Type 0
  Keeps c a = a.conversation ≡ c

  ask-full :
      Refuses stream_qa
      → (a : App) (question : Bytes) → 100 ≤ length a.conversation.messages
      → Keeps a.conversation (ask faults stream_qa a question).0
  ask-full refuses a question h =
      let (e, q) =
        refuses (length a.asked) (request_of faults a question)
          (request_refused a.settings.agent_id a.settings.user_id a.conversation question h) in
      let failed_answer : (answer faults stream_qa a question).1 ≡ err e =
        ap (λ (r : Result (List QaEvent)). (heard_answer faults r a.terminal).1) q in
      ap
        (λ (r : Result Bytes).
          (after_answer faults stream_qa (asking faults stream_qa a question) question
            r).0.conversation)
        failed_answer

  handle_line-full :
      Refuses stream_qa
      → (a : App) (s : Bytes) → 100 ≤ length a.conversation.messages
      → is_clear faults stream_qa to_lower (trim_space s) ≡ false
      → Keeps a.conversation (handle_line faults stream_qa to_lower a s).0
  unfolding handle_line
  handle_line-full refuses a s h k =
      let t = trim_space s in
      elim (Bool-cases (is_empty t)) [
        | inl b ↦ rw (b) refl
        | inr b ↦ elim (Bool-cases (is_exit faults stream_qa to_lower t)) [
          | inl x ↦ rw (b, x) refl
          | inr x ↦ rw (b, x, k) (ask-full refuses a t h)
        ]
      ]

  after_prompt-Keeps :
      (c : Conversation) (r : App × Option Error) (next : App → App × Result (Unit {0}))
      → Keeps c r.0
      → ((b : App) → Keeps c b → Keeps c (next b).0)
      → Keeps c (after_prompt faults stream_qa to_lower r next).0
  after_prompt-Keeps c (b, none) next h g = g b h
  after_prompt-Keeps c (b, some e) next h g = h

  after_line-Keeps :
      (c : Conversation) (r : App × Result Bool) (next : App → App × Result (Unit {0}))
      → Keeps c r.0
      → ((b : App) → Keeps c b → Keeps c (next b).0)
      → Keeps c (after_line faults stream_qa to_lower r next).0
  after_line-Keeps c (b, err e) next h g = h
  after_line-Keeps c (b, ok true) next h g = h
  after_line-Keeps c (b, ok false) next h g = g b h

  run-Keeps :
      Refuses stream_qa
      → (c : Conversation) → 100 ≤ length c.messages
      → (inputs : List Input) (a : App) → All IsNoClear inputs
      → Keeps c a
      → Keeps c (run faults stream_qa to_lower inputs a).0
  unfolding run
  run-Keeps refuses c h [] a k e = e
  run-Keeps refuses c h (cancelled ∷ inputs) a k e = e
  run-Keeps refuses c h (ended ∷ inputs) a k e =
      after_prompt-Keeps c (prompt faults stream_qa to_lower a) (λ b. (b, ok tt)) e (λ b g. g)
  run-Keeps refuses c h (failed f ∷ inputs) a k e =
      after_prompt-Keeps c (prompt faults stream_qa to_lower a) (λ b. (b, err f)) e (λ b g. g)
  run-Keeps refuses c h (line s ∷ inputs) a k e =
      let next = run faults stream_qa to_lower inputs in
      after_prompt-Keeps c (prompt faults stream_qa to_lower a)
        (λ b. after_line faults stream_qa to_lower (handle_line faults stream_qa to_lower b s) next)
        e
        (λ b g.
          after_line-Keeps c (handle_line faults stream_qa to_lower b s) next
            (handle_line-full refuses b s
                (subst (λ (d : Conversation). 100 ≤ length d.messages) (sym g) h) k.0
              ∙ g)
            (λ d w. run-Keeps refuses c h inputs d k.1 w))

  -- A session whose conversation has come to 100 messages, with a server that refuses what `validate`
  -- refuses: no inputs but the command to clear the conversation change it any more.
  pub run-full :
      Refuses stream_qa
      → (inputs : List Input) (a : App) → 100 ≤ length a.conversation.messages
      → All IsNoClear inputs
      → (run faults stream_qa to_lower inputs a).0.conversation ≡ a.conversation
  run-full refuses inputs a h k = run-Keeps refuses a.conversation h inputs a k refl
