-- ===== src/Cli/Examples.antt =====
-- Runs of the terminal session and of its client on samples.
use agent_cortex.Prelude.{
  ◌≤◌, ◌<◌, ◌≡◌, ◌↔◌, refl, true, Bytes, bytes_eq, [], ◌∷◌, ◌++◌, none, length,
}
use agent_cortex.Prelude.Text.{codes}
use agent_cortex.Strings.{
  trim_space, trim_right, trim_from, trim_left, space_width, space_width_back,
}
use agent_cortex.Errors.{ok}
use agent_cortex.Http.Ids.{is_path_id, all_path_bytes}
use agent_cortex.Http.Request.{validate}
use agent_cortex.Http.Qa.{Finished, heartbeat, text_delta, warning, finished, Frames}
use agent_cortex.Http.Sse.{encode_all}
use agent_cortex.Cli.SampleJson.{sample_json, sample_json-IsLawful}
use agent_cortex.Cli.Client.{stream_events}
use agent_cortex.Cli.Client.Decode.{heard}
use agent_cortex.Cli.Client.RoundTrip.{stream_events-encode_all}
use agent_cortex.Cli.Conversation.{Conversation, said, messages_with_user}
use agent_cortex.Cli.Conversation.Accepted.{chars, request, request_accepted}

abbrev quote : Bytes → Bytes
quote s = b'"' ∷ (s ++ b'"' ∷ [])

abbrev said_hi : Finished
said_hi = record {
  answer = codes "Hi";
  memory_id = codes "memory-1";
  memory_saved = true;
  markdown_synced = true;
  finish_reason = [];
}

abbrev frames : Frames
frames =
    heartbeat (codes "12") ∷ text_delta (codes "Hi") ∷ warning (codes "w") ∷ finished said_hi ∷ []

stream_events-encode_all_example :
    stream_events sample_json quote (encode_all sample_json frames [], none)
    ≡ heard frames ++ stream_events sample_json quote ([], none)
unfolding sample_json
stream_events-encode_all_example =
    stream_events-encode_all sample_json sample_json-IsLawful quote frames [] none
      ((refl, tt), ((refl, tt), ((refl, tt), ((refl, (refl, (tt, (tt, tt)))), tt))))
      (refl, (refl, (refl, (refl, tt))))

abbrev talk : Conversation
talk = record {
  system_prompt = codes "Be kind";
  messages = said (codes "system") (codes "Be kind") ∷ [];
}

request_accepted_example :
    (validate (request (codes "a1") (codes "u1") talk (codes "Hi")) ≡ ok tt)
    ↔ ((length talk.messages < 100) × (chars (messages_with_user talk (codes "Hi")) ≤ 24000))
unfolding is_path_id all_path_bytes trim_space trim_right trim_from trim_left space_width
    space_width_back bytes_eq
request_accepted_example =
    request_accepted (codes "a1") (codes "u1") talk (codes "Hi") refl refl ((refl, refl), tt) refl
