-- ===== src/Cli/App.antt =====
-- internal/cli/app.go and io.go: the loop of the terminal. The client's answers, the failures of writes
-- and `strings.ToLower` are parameters; an interrupt is an input, seen where the loop looks for it.
pub mod Answers
pub mod Shown
pub mod EndToEnd
pub mod Requests
pub mod Full
use agent_cortex.Prelude.{
  ℕ, ◌+◌, Bool, true, false, not, ◌||◌, ◌==◌, Bytes, bytes_eq, List, [], ◌∷◌, ◌++◌, Option, none,
  some, length, if◌then◌else◌,
}
use mathlib.Core.List.{reverse}
use agent_cortex.Prelude.Text.{codes}
use agent_cortex.Strings.{trim_space, is_empty}
use agent_cortex.Errors.{Error, Result, ok, err, foreign, ◌>>◌}
use agent_cortex.Http.Request.{QaStreamRequest}
use agent_cortex.Cli.Client.{
  QaEvent, got_text, got_warning, got_finished, got_error, got_heartbeat, got_failure,
}
use agent_cortex.Cli.Conversation.{
  Conversation, new_conversation, clear, messages_with_user, add_turn,
}

-- What the app reads of its configuration.
pub record Settings : Type 0 where
  pub agent_id : Bytes
  pub user_id : Bytes
  pub server_endpoint : Bytes
  pub system_prompt : Bytes

-- The texts that a terminal shows, and the number of writes so far.
pub record Terminal : Type 0 where
  pub shown : List Bytes
  pub writes : ℕ

-- `App`, with the requests that it has sent.
pub record App : Type 0 where
  pub settings : Settings
  pub conversation : Conversation
  pub terminal : Terminal
  pub asked : List QaStreamRequest

abbrev pub need : Bool → Bytes → Result (Unit {0})
need test message = if test then ok tt else err (foreign message)

abbrev pub started : Settings → Terminal → App
started s t = record {
  settings = s;
  conversation = new_conversation (trim_space s.system_prompt);
  terminal = t;
  asked = [];
}

-- `NewApp`, behind the tests for the terminal and the client.
unfoldable pub new_app : Settings → Terminal → Result App
new_app s t =
    need (not (is_empty (trim_space s.agent_id))) (codes "agent id is required")
    >> (need (not (is_empty (trim_space s.user_id))) (codes "user id is required")
        >> (need (not (is_empty (trim_space s.server_endpoint)))
              (codes "server endpoint is required")
            >> ok (started s t)))

-- What `ReadString` has read: a line with its line feed, the last bytes in front of the end, or bytes in
-- front of an error; or nothing since the session was interrupted.
pub data Read : Type 0 where
  whole : Bytes → Read
  last : Bytes → Read
  broken : Bytes → Error → Read
  interrupted : Read

-- What `ReadLine` returns; the end of the input and an interrupt end the session alike.
pub data Input : Type 0 where
  line : Bytes → Input
  ended : Input
  failed : Error → Input
  cancelled : Input

unfoldable pub drop_ends : Bytes → Bytes
drop_ends [] = []
drop_ends (b ∷ s) = let rest = drop_ends s in if b == b'\r' || b == b'\n' then rest else b ∷ s

-- `TrimRight(line, "\r\n")`
abbrev pub without_ends : Bytes → Bytes
without_ends s = reverse (drop_ends (reverse s))

-- `ReadLine`
unfoldable pub read_line : Read → Input
unfolding drop_ends
read_line (whole s) = line (without_ends s)
read_line (last s) = if is_empty (without_ends s) then ended else line (without_ends s)
read_line (broken s e) = failed e
read_line interrupted = ended

abbrev pub no_finish : Error
no_finish = foreign (codes "qa stream ended without finished event")

abbrev pub error_line : Error → Bytes
error_line e = codes "[error] " ++ e.text

abbrev pub empty_response : Bytes
empty_response = codes "[error] empty model response"

abbrev pub context_cleared : Bytes
context_cleared = codes "[context cleared]"

module _ (faults : ℕ → Option Error) where
  -- `Write`, with its error.
  abbrev pub write : Bytes → Terminal → Terminal × Option Error
  write text t =
      let next = t.writes + 1 in
      elim (faults t.writes) [
        | none ↦ (record { shown = t.shown ++ text ∷ []; writes = next }, none)
        | some e ↦ (record { shown = t.shown; writes = next }, some e)
      ]

  -- `WriteLine`
  abbrev pub write_line : Bytes → Terminal → Terminal × Option Error
  write_line text t = write (text ++ b'\n' ∷ []) t

  abbrev pub warning_line : Bytes → Bytes
  warning_line text = b'\n' ∷ (codes "[warning] " ++ text)

  abbrev pub finished_answer : Bytes → Bytes → Bytes
  finished_answer answer built = if is_empty (trim_space answer) then built else answer

  -- What comes behind a write.
  abbrev pub after_write :
      Terminal × Option Error → (Terminal → Terminal × Result Bytes) → Terminal × Result Bytes
  after_write (t, none) next = next t
  after_write (t, some e) next = (t, err e)

  -- The loop of `answer`, with the text built so far.
  unfoldable pub answer_loop : List QaEvent → Bytes → Terminal → Terminal × Result Bytes
  answer_loop [] built t = (t, err no_finish)
  answer_loop (got_error e ∷ es) built t = (t, err e)
  answer_loop (got_failure e ∷ es) built t = (t, err e)
  answer_loop (got_heartbeat ∷ es) built t = answer_loop es built t
  answer_loop (got_text text ∷ es) built t =
      after_write (write text t) (answer_loop es (built ++ text))
  answer_loop (got_warning text ∷ es) built t =
      after_write (write_line (warning_line text) t) (answer_loop es built)
  answer_loop (got_finished fin ∷ es) built t =
      after_write (write_line [] t) (λ u. (u, ok (finished_answer fin.answer built)))

  abbrev pub request_of : App → Bytes → QaStreamRequest
  request_of a question = record {
    agent_id = a.settings.agent_id;
    user_id = a.settings.user_id;
    messages = messages_with_user a.conversation question;
  }

  abbrev pub heard_answer : Result (List QaEvent) → Terminal → Terminal × Result Bytes
  heard_answer (err e) t = (t, err e)
  heard_answer (ok events) t = answer_loop events [] t

  module _ (stream_qa : ℕ → QaStreamRequest → Result (List QaEvent)) where
    -- `answer`; the client's events depend on how many requests came before.
    abbrev pub answer : App → Bytes → Terminal × Result Bytes
    answer a question = heard_answer (stream_qa (length a.asked) (request_of a question)) a.terminal

    abbrev pub asking : App → Bytes → App
    asking a question = record a {
      terminal = (answer a question).0;
      asked = a.asked ++ request_of a question ∷ [];
    }

    -- A line that ends the handling of a line, whose write may fail.
    abbrev pub tell : Bytes → App → App × Result Bool
    tell text a =
        let r = write_line text a.terminal in
        (record a { terminal = r.0 }, elim r.1 [ none ↦ ok false | some e ↦ err e ])

    abbrev pub after_answer : App → Bytes → Result Bytes → App × Result Bool
    after_answer a question (err e) = tell (error_line e) a
    after_answer a question (ok text) =
        if is_empty (trim_space text)
        then tell empty_response a
        else (record a { conversation = add_turn a.conversation question text }, ok false)

    abbrev pub ask : App → Bytes → App × Result Bool
    ask a question = after_answer (asking a question) question (answer a question).1

    module _ (to_lower : Bytes → Bytes) where
      abbrev pub is_exit : Bytes → Bool
      is_exit s = bytes_eq (to_lower s) (codes "exit") || bytes_eq (to_lower s) (codes "quit")

      abbrev pub is_clear : Bytes → Bool
      is_clear s = bytes_eq (to_lower s) (codes "clear")

      -- `handleLine`
      unfoldable pub handle_line : App → Bytes → App × Result Bool
      unfolding answer_loop
      handle_line a s =
          let trimmed = trim_space s in
          if is_empty trimmed
          then (a, ok false)
          else if is_exit trimmed
          then (a, ok true)
          else if is_clear trimmed
          then tell context_cleared
              (record a { conversation = clear (trim_space a.settings.system_prompt) })
          else ask a trimmed

      -- The prompt.
      abbrev pub prompt : App → App × Option Error
      prompt a = let r = write (codes "> ") a.terminal in (record a { terminal = r.0 }, r.1)

      abbrev pub after_line :
          App × Result Bool → (App → App × Result (Unit {0})) → App × Result (Unit {0})
      after_line (a, err e) next = (a, err e)
      after_line (a, ok true) next = (a, ok tt)
      after_line (a, ok false) next = next a

      abbrev pub after_prompt :
          App × Option Error → (App → App × Result (Unit {0})) → App × Result (Unit {0})
      after_prompt (a, some e) next = (a, err e)
      after_prompt (a, none) next = next a

      -- `Run` on the inputs of a session.
      unfoldable pub run : List Input → App → App × Result (Unit {0})
      unfolding handle_line
      run [] a = (a, ok tt)
      run (cancelled ∷ inputs) a = (a, ok tt)
      run (line s ∷ inputs) a =
          after_prompt (prompt a) (λ b. after_line (handle_line b s) (run inputs))
      run (ended ∷ inputs) a = after_prompt (prompt a) (λ b. (b, ok tt))
      run (failed e ∷ inputs) a = after_prompt (prompt a) (λ b. (b, err e))
