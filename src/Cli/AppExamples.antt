-- ===== src/Cli/AppExamples.antt =====
-- Runs of a terminal session on samples.
use agent_cortex.Prelude.{
  ℕ, ◌≡◌, refl, ap, ◌∙◌, Bool, true, false, Bytes, bytes_eq, List, [], ◌∷◌, ◌++◌, Option, none, All,
  replicate, arith,
}
use agent_cortex.Prelude.Text.{codes}
use agent_cortex.Strings.{
  trim_space, trim_right, trim_from, trim_left, space_width, space_width_back, split_lines,
}
use agent_cortex.Errors.{Error, Result, ok, err, foreign, sentinel, invalid_request}
use agent_cortex.Scanner.{scan_lines}
use agent_cortex.Memory.{Float32}
use agent_cortex.Http.Request.{QaStreamRequest, validate}
use agent_cortex.Http.Qa.{
  Finished, heartbeat, text_delta, warning, finished, Frames, ModelEvent, event, closed, qa_loop,
  persist_turn,
}
use agent_cortex.Http.Qa.Frames.{texts}
use agent_cortex.Http.Status.{status_from_error, public_message}
use agent_cortex.Http.Sse.{encode_all}
use agent_cortex.Http.Samples.{noon, format, backend, no_faults, base}
use agent_cortex.Cli.SampleJson.{sample_json, sample_json-IsLawful}
use agent_cortex.Cli.Client.{QaEvent, Client, Post, Reply, stream_qa, stream_events}
use agent_cortex.Cli.Client.Decode.{heard}
use agent_cortex.Cli.Client.RoundTrip.{stream_events-encode_all}
use agent_cortex.Cli.Conversation.{said}
use agent_cortex.Cli.App.{
  App, Settings, Terminal, line, ended, answer_loop, answer, new_app, started, request_of, run,
}
use agent_cortex.Cli.App.Answers.{tail}
use agent_cortex.Cli.App.Shown.{printed, showing, answer_loop_finished}
use agent_cortex.Cli.App.Requests.{IsAsked, new_app-run}
use agent_cortex.Cli.App.Full.{Refuses, run-full}
use agent_cortex.Cli.App.EndToEnd.{answer-qa_loop}

abbrev quote : Bytes → Bytes
quote s = b'"' ∷ (s ++ b'"' ∷ [])

abbrev never : ℕ → Option Error
never n = none

abbrev screen : Terminal
screen = record { shown = []; writes = 0 }

abbrev settings : Settings
settings = record {
  agent_id = codes "a1";
  user_id = codes "u1";
  server_endpoint = codes "http://s";
  system_prompt = [];
}

abbrev frames : Frames
frames = heartbeat (codes "12") ∷ text_delta (codes "Hi") ∷ warning (codes "w") ∷ []

abbrev said_hi : Finished
said_hi = record {
  answer = codes "Hi";
  memory_id = [];
  memory_saved = false;
  markdown_synced = false;
  finish_reason = [];
}

answer_loop_finished_example :
    answer_loop never (heard (frames ++ finished said_hi ∷ []) ++ tail never none) [] screen
    ≡ (showing never (showing never screen (printed frames)) ((b'\n' ∷ []) ∷ []), ok (codes "Hi"))
unfolding texts
answer_loop_finished_example =
    answer_loop_finished never frames said_hi none screen (λ n. refl) (refl, (refl, (refl, tt)))
      refl

-- A client that the server refuses, and one that hears nothing otherwise.
abbrev refusing : ℕ → QaStreamRequest → Result (List QaEvent)
refusing n r = elim (validate r) [ err e ↦ err e | ok u ↦ ok [] ]

refusing-Refuses : Refuses refusing
refusing-Refuses n r h = (sentinel invalid_request, rw (h, refusing) refl)

abbrev same : Bytes → Bytes
same s = s

new_app-run_example :
    All IsAsked
      (run never refusing same (line (codes "Hi") ∷ ended ∷ []) (started settings screen)).0.asked
unfolding new_app trim_space trim_right trim_from trim_left space_width space_width_back
new_app-run_example =
    new_app-run never refusing same settings screen (started settings screen)
      (line (codes "Hi") ∷ ended ∷ []) refl

abbrev full : App
full = record {
  settings = settings;
  conversation = record {
    system_prompt = [];
    messages = replicate 100 (said (codes "user") (codes "Hi"));
  };
  terminal = screen;
  asked = [];
}

run-full_example :
    (run never refusing same (line (codes "Hi") ∷ ended ∷ []) full).0.conversation
    ≡ full.conversation
unfolding trim_space trim_right trim_from trim_left space_width space_width_back bytes_eq
run-full_example =
    run-full never refusing same refusing-Refuses (line (codes "Hi") ∷ ended ∷ []) full
      (omega arith) (refl, (tt, tt))

-- A question that the model answers, with no embedder to save the turn.
abbrev down : Bytes → Result (List Float32)
down s = err (foreign (codes "down"))

abbrev hello : ModelEvent
hello = record { err = none; text = codes "Hi"; finish_reason = [] }

abbrev all_through : ℕ → Bool
all_through n = true

abbrev one_answer : Frames
one_answer =
    text_delta (codes "Hi")
    ∷ warning (codes "embedding failed: internal server error")
    ∷ finished said_hi
    ∷ []

abbrev client : Client
client = record { base_url = codes "http://s"; authorization = [] }

abbrev send : Post → Result Reply
send p = ok (record { status = 200; reader = (encode_all sample_json one_answer [], none) })

abbrev session : App
session = started settings screen

one_answer-sent :
    one_answer
    ≡ (qa_loop backend format base down all_through no_faults
        (request_of never session (codes "Hi"))
        (codes "Hi")
        (event hello ∷ closed noon noon ∷ [])
        ([], [])
        0
        []
        []
        []).2
unfolding qa_loop persist_turn status_from_error public_message trim_space trim_right trim_from
    trim_left space_width space_width_back
one_answer-sent = refl

nothing_more : stream_events sample_json quote ([], none) ≡ []
unfolding stream_events scan_lines split_lines trim_space trim_right trim_from trim_left
nothing_more = refl

one_answer-heard :
    (answer never (λ n. stream_qa sample_json quote send client) session (codes "Hi")).1
    ≡ ok (codes "Hi")
unfolding stream_qa sample_json texts
one_answer-heard =
    ap (λ (es : List QaEvent). (answer_loop never es [] screen).1)
      (stream_events-encode_all sample_json sample_json-IsLawful quote one_answer [] none
          ((refl, tt), ((refl, tt), ((refl, (tt, (tt, tt))), tt))) (refl, (refl, (refl, tt)))
        ∙ ap (λ (es : List QaEvent). heard one_answer ++ es) nothing_more)
    ∙ ap (λ (r : Terminal × Result Bytes). r.1)
        (answer_loop_finished never
          (text_delta (codes "Hi") ∷ warning (codes "embedding failed: internal server error") ∷ [])
          said_hi none screen (λ n. refl) (refl, (refl, tt)) refl)

answer-qa_loop_example : codes "Hi" ≡ texts one_answer
unfolding sample_json
answer-qa_loop_example =
    answer-qa_loop sample_json sample_json-IsLawful quote never backend format base down all_through
      no_faults send client session (codes "Hi") (codes "Hi") (event hello ∷ closed noon noon ∷ [])
      ([], []) 0 one_answer none (codes "Hi") one_answer-sent
      ((refl, tt), ((refl, tt), ((refl, (tt, (tt, tt))), tt))) (refl, (refl, (refl, tt))) refl
      one_answer-heard
