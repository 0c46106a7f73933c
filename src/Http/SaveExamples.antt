-- ===== src/Http/SaveExamples.antt =====
-- Runs of the saves, the streams and the handlers on samples.
use agent_cortex.Prelude.{
  ◌≡◌, ◌≢◌, ◌⊎◌, refl, true, false, Bytes, bytes_eq, List, [], ◌∷◌, none, length,
}
use agent_cortex.Prelude.Text.{codes}
use agent_cortex.Strings.{
  trim_space, trim_right, trim_from, trim_left, space_width, space_width_back, contains_any,
  has_byte, seek, after_prefix,
}
use agent_cortex.Errors.{Error, Result, ok, text_of, memory_conflict}
use agent_cortex.Memory.{
  Memory, SearchResult, Backend, validate_embedding, all_finite, same_content,
  normalize_search_limit, embedding_dimensions,
}
use agent_cortex.Memory as M
use agent_cortex.Memory.Checks.{IsEmbedding, save-checked}
use agent_cortex.Http.Ids.{is_marker_id, is_path_id, all_path_bytes}
use agent_cortex.Http.Request.{QaMessage, QaStreamRequest, CreateMemoryRequest, to_memory}
use agent_cortex.Http.Save.{save_memory, normalize_memory}
use agent_cortex.Http.Save.Outcomes.{save_memory-keeps_storage}
use agent_cortex.Http.Qa.{Input, closed, event, tick, qa_loop, Finished}
use agent_cortex.Http.Qa.Frames.{IsTurn, texts, qa_loop-IsTurn}
use agent_cortex.Http.Handlers.{problem, create_memory}
use agent_cortex.Http.Handlers.Replies.{create_memory-conflicts}
use agent_cortex.Http.Status.{conflict}
use agent_cortex.Http.Samples.{noon, format, backend, no_faults, base, note}

abbrev question : QaStreamRequest
question = record {
  agent_id = codes "a1";
  user_id = codes "u1";
  messages = record { role = codes "user"; content = codes "Hi" } ∷ [];
}

abbrev asked : List QaMessage
asked = record { role = codes "user"; content = codes "Hi" } ∷ []

abbrev ill : Memory
ill = record (note (codes "m1") (codes "A")) { embedding = 0 ∷ [] }

save-checked_example :
    (((length ill.embedding ≡ 0) ⊎ IsEmbedding ill.embedding)
      × (backend.save [] ill ≡ ([], M.validate_embedding (0 ∷ []))))
    ⊎ ((◌≡◌ {A = List Memory} [] []) × (validate_embedding (0 ∷ []) ≢ ok tt))
unfolding M.save validate_embedding
save-checked_example = save-checked backend [] [] ill (validate_embedding (0 ∷ [])) refl

abbrev nameless : Memory
nameless = record (note (codes "m1") (codes "A")) { user_id = codes "u 1" }

save_memory-keeps_storage_example :
    (save_memory backend format base no_faults noon ([], []) nameless).0.1 ≡ []
unfolding save_memory normalize_memory is_path_id all_path_bytes trim_space trim_right trim_from
    trim_left space_width space_width_back bytes_eq
save_memory-keeps_storage_example =
    save_memory-keeps_storage backend format base no_faults noon ([], []) nameless refl

abbrev request : CreateMemoryRequest
request = record {
  id = codes "m1";
  agent_id = codes "a1";
  user_id = codes "u1";
  question = codes "Q";
  answer = codes "B";
  embedding = [];
}

create_memory-conflicts_example :
    create_memory backend format base no_faults noon
      ([], note (codes "m1") (codes "A") ∷ [])
      (ok request)
    ≡ (([], note (codes "m1") (codes "A") ∷ []), problem conflict (text_of memory_conflict))
unfolding is_marker_id is_path_id all_path_bytes trim_space trim_right trim_from trim_left
    space_width space_width_back bytes_eq contains_any has_byte seek after_prefix normalize_memory
    to_memory same_content
create_memory-conflicts_example =
    create_memory-conflicts backend format base no_faults noon
      ([], note (codes "m1") (codes "A") ∷ []) request (note (codes "m1") (codes "A")) refl refl
      refl refl

abbrev embed : Bytes → Result (List M.Float32)
embed text = ok (0 ∷ 0 ∷ 0 ∷ 0 ∷ [])

abbrev said : Bytes → Input
said text = event (record { err = none; text = text; finish_reason = [] })

qa_loop-IsTurn_example :
    IsTurn
      (qa_loop backend format base embed
        (λ n. true)
        no_faults
        question
        (codes "Hi")
        (said (codes "Hello") ∷ tick (codes "12:00") ∷ closed noon noon ∷ [])
        ([], [])
        0
        []
        []
        []).2
unfolding texts
qa_loop-IsTurn_example =
    qa_loop-IsTurn backend format base embed (λ n. true) no_faults question (codes "Hi")
      (said (codes "Hello") ∷ tick (codes "12:00") ∷ closed noon noon ∷ []) ([], []) 0 [] [] [] tt
      refl

abbrev blank : Finished
blank = record {
  answer = [];
  memory_id = [];
  memory_saved = false;
  markdown_synced = false;
  finish_reason = [];
}

abbrev unavailable : Error
unavailable = record { causes = []; text = codes "down" }
