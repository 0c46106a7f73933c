-- ===== src/Cli/App/Requests.antt =====
-- internal/cli/app.go, `handleLine` and `Run`: what becomes of the conversation, and the requests that
-- the server gets.
use agent_cortex.Prelude.{
  ℕ, Bool, true, false, not, Bytes, List, [], ◌∷◌, Option, none, some, All, All-append, ◌≡◌, ap,
  ◌∙◌, inl, inr, Bool-cases,
}
use mathlib.Core.Path.{subst}
use agent_cortex.Prelude.Text.{codes}
use agent_cortex.Strings.{trim_space, is_empty}
use agent_cortex.Strings.Trimmed.{trim_space_again}
use agent_cortex.Errors.{Error, Result, ok, err, ◌>>◌}
use agent_cortex.Http.Request.{QaStreamRequest, role_user, last_message, is_from_user}
use agent_cortex.Cli.Client.{QaEvent}
use agent_cortex.Cli.Conversation.{said, clear}
use agent_cortex.Cli.Conversation.Accepted.{
  IsTaken, IsTalk, said-IsTaken, from_user, add_turn-IsTalk, clear-IsTalk,
}
use agent_cortex.Cli.App.{
  App, Terminal, Settings, Input, line, ended, failed, cancelled, request_of, answer, asking, tell,
  after_answer, is_exit, is_clear, handle_line, prompt, after_line, after_prompt, run, new_app,
  started, need, error_line, empty_response, context_cleared,
}

-- A request of messages that the server takes, the last of them from the user.
abbrev pub IsAsked : QaStreamRequest → Type 0
IsAsked r = All IsTaken r.messages × (is_from_user (last_message r.messages) ≡ true)

pub record IsReady (a : App) : Type 0 where
  pub talk : IsTalk a.conversation
  pub questions : All IsAsked a.asked

module _ (faults : ℕ → Option Error) (stream_qa : ℕ → QaStreamRequest → Result (List QaEvent)) where
  request_of-IsAsked :
      (a : App) (question : Bytes)
      → IsTalk a.conversation
      → is_empty (trim_space question) ≡ false
      → IsAsked (request_of faults a question)
  request_of-IsAsked a question h q = (
    All-append IsTaken a.conversation.messages (said role_user question ∷ []) h
        (said-IsTaken question q, tt),
    from_user a.conversation.messages question,
  )

  asking-IsReady :
      (a : App) (question : Bytes)
      → IsReady a
      → is_empty (trim_space question) ≡ false
      → IsReady (asking faults stream_qa a question)
  asking-IsReady a question h q = record {
    talk = h.talk;
    questions =
        All-append IsAsked a.asked (request_of faults a question ∷ []) h.questions
          (request_of-IsAsked a question h.talk q, tt);
  }

  tell-IsReady : (text : Bytes) (a : App) → IsReady a → IsReady (tell faults stream_qa text a).0
  tell-IsReady text a h = record { talk = h.talk; questions = h.questions }

  after_answer-IsReady :
      (a : App) (question : Bytes) (r : Result Bytes)
      → IsReady a
      → is_empty (trim_space question) ≡ false
      → IsReady (after_answer faults stream_qa a question r).0
  after_answer-IsReady a question (err e) h q = tell-IsReady (error_line e) a h
  after_answer-IsReady a question (ok text) h q = elim (Bool-cases (is_empty (trim_space text))) [
    | inl b ↦ rw (b) (tell-IsReady empty_response a h)
    | inr b ↦ rw (b) (record {
      talk = add_turn-IsTalk a.conversation question text h.talk q b;
      questions = h.questions;
    })
  ]

  module _ (to_lower : Bytes → Bytes) where
    cleared-IsReady :
        (a : App)
        → IsReady a
        → IsReady (record a { conversation = clear (trim_space a.settings.system_prompt) })
    cleared-IsReady a h = record {
      talk =
          clear-IsTalk (trim_space a.settings.system_prompt)
            (trim_space_again a.settings.system_prompt);
      questions = h.questions;
    }

    handle_line-IsReady :
        (a : App) (s : Bytes) → IsReady a → IsReady (handle_line faults stream_qa to_lower a s).0
    unfolding handle_line
    handle_line-IsReady a s h =
        let t = trim_space s in
        elim (Bool-cases (is_empty t)) [
          | inl b ↦ rw (b) h
          | inr b ↦ elim (Bool-cases (is_exit faults stream_qa to_lower t)) [
            | inl x ↦ rw (b, x) h
            | inr x ↦ elim (Bool-cases (is_clear faults stream_qa to_lower t)) [
              | inl k ↦
                  rw (b, x, k)
                    (tell-IsReady context_cleared
                      (record a { conversation = clear (trim_space a.settings.system_prompt) })
                      (cleared-IsReady a h))
              | inr k ↦
                  let q : is_empty (trim_space t) ≡ false = ap is_empty (trim_space_again s) ∙ b in
                  rw (b, x, k)
                    (after_answer-IsReady (asking faults stream_qa a t) t
                      (answer faults stream_qa a t).1 (asking-IsReady a t h q) q)
            ]
          ]
        ]

    prompt-IsReady : (a : App) → IsReady a → IsReady (prompt faults stream_qa to_lower a).0
    prompt-IsReady a h = record { talk = h.talk; questions = h.questions }

    after_prompt-IsReady :
        (r : App × Option Error) (next : App → App × Result (Unit {0}))
        → IsReady r.0
        → ((b : App) → IsReady b → IsReady (next b).0)
        → IsReady (after_prompt faults stream_qa to_lower r next).0
    after_prompt-IsReady (b, none) next h g = g b h
    after_prompt-IsReady (b, some e) next h g = h

    after_line-IsReady :
        (r : App × Result Bool) (next : App → App × Result (Unit {0}))
        → IsReady r.0
        → ((b : App) → IsReady b → IsReady (next b).0)
        → IsReady (after_line faults stream_qa to_lower r next).0
    after_line-IsReady (b, err e) next h g = h
    after_line-IsReady (b, ok true) next h g = h
    after_line-IsReady (b, ok false) next h g = g b h

    -- A session that is ready goes through any inputs.
    pub run-IsReady :
        (inputs : List Input) (a : App)
        → IsReady a
        → IsReady (run faults stream_qa to_lower inputs a).0
    unfolding run
    run-IsReady [] a h = h
    run-IsReady (cancelled ∷ inputs) a h = h
    run-IsReady (ended ∷ inputs) a h =
        after_prompt-IsReady (prompt faults stream_qa to_lower a) (λ b. (b, ok tt))
          (prompt-IsReady a h) (λ b g. g)
    run-IsReady (failed e ∷ inputs) a h =
        after_prompt-IsReady (prompt faults stream_qa to_lower a) (λ b. (b, err e))
          (prompt-IsReady a h) (λ b g. g)
    run-IsReady (line s ∷ inputs) a h =
        after_prompt-IsReady (prompt faults stream_qa to_lower a)
          (λ b.
            after_line faults stream_qa to_lower (handle_line faults stream_qa to_lower b s)
              (run faults stream_qa to_lower inputs))
          (prompt-IsReady a h)
          (λ b g.
            after_line-IsReady (handle_line faults stream_qa to_lower b s)
              (run faults stream_qa to_lower inputs) (handle_line-IsReady b s g)
              (λ c k. run-IsReady inputs c k))

need-eq-ok :
    {W : Type 0} (test : Bool) (message : Bytes) (next : Result W) {w : W}
    → (need test message >> next) ≡ ok w
    → next ≡ ok w
need-eq-ok false message next e = cc
need-eq-ok true message next e = e

new_app-eq-ok : (s : Settings) (t : Terminal) (a : App) → new_app s t ≡ ok a → started s t ≡ a
unfolding new_app
new_app-eq-ok s t a e =
    let e0 =
      need-eq-ok (not (is_empty (trim_space s.agent_id))) (codes "agent id is required") _ e in
    let e1 =
      need-eq-ok (not (is_empty (trim_space s.user_id))) (codes "user id is required") _ e0 in
    let e2 =
      need-eq-ok (not (is_empty (trim_space s.server_endpoint)))
        (codes "server endpoint is required") (ok (started s t)) e1 in
    cc (e2)

started-IsReady : (s : Settings) (t : Terminal) → IsReady (started s t)
started-IsReady s t = record {
  talk = clear-IsTalk (trim_space s.system_prompt) (trim_space_again s.system_prompt);
  questions = tt;
}

-- A session that `NewApp` has begun, whatever its inputs, the client's events and the terminal's failures
-- are: every request that it sends has messages of known roles and no blank content, and ends with one of
-- the user.
pub new_app-run :
    (faults : ℕ → Option Error) (stream_qa : ℕ → QaStreamRequest → Result (List QaEvent))
    (to_lower : Bytes → Bytes) (s : Settings) (t : Terminal) (a : App) (inputs : List Input)
    → new_app s t ≡ ok a
    → All IsAsked (run faults stream_qa to_lower inputs a).0.asked
new_app-run faults stream_qa to_lower s t a inputs e =
    (run-IsReady faults stream_qa to_lower inputs a
      (subst IsReady (new_app-eq-ok s t a e) (started-IsReady s t))).questions
