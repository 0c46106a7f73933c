-- ===== src/Http/Handlers.antt =====
-- internal/transport/http/handler.go: the handlers of requests. The web framework reads a body into a
-- request or an error, and answers a panic of a handler by itself.
pub mod Replies
use agent_cortex.Prelude.{
  ℕ, Bool, true, false, Bytes, List, [], ◌∷◌, Option, none, some, length, ◌==◌, if◌then◌else◌,
}
use agent_cortex.Prelude.Int.{ℤ}
use agent_cortex.Strings.{trim_space}
use agent_cortex.RateLimit.Types.{Time}
use agent_cortex.Errors.{Error, Result, ok, err, ◌>>=◌, ◌>>◌}
use agent_cortex.TimeFormat.{TimeFormat}
use agent_cortex.Memory.{Float32, Backend, SearchResult}
use agent_cortex.Memory
use agent_cortex.Files.{Faults}
use agent_cortex.Http.Ids.{validate_memory_path_id}
use agent_cortex.Http.Markdown.Parser.{Parsed, done, failed, panicked}
use agent_cortex.Http.Request.{
  CreateMemoryRequest, to_memory, search_limit, QaMessage, QaStreamRequest, to_model_request,
  last_user_question,
}
use agent_cortex.Http.Save.{World, Saved, saved, crashed, save_memory}
use agent_cortex.Http.Search.{Place, replace_content}
use agent_cortex.Http.Status.{
  bad_request, internal, internal_message, status_from_error, public_message,
}
use agent_cortex.Http.Qa.{Frames, Input, qa_loop}

-- `searchMemoryRequest`
pub record SearchMemoryRequest : Type 0 where
  pub agent_id : Bytes
  pub user_id : Bytes
  pub question : Bytes
  pub limit : Option ℤ

-- What a client gets: an error with its status, a body, or the framework's answer to a panic.
pub data Reply : Type 0 where
  problem : ℕ → Bytes → Reply
  created : Bytes → Reply
  results : List SearchResult → Reply
  stream : Frames → Reply
  recovered : Reply

-- `writeHTTPError`
abbrev pub http_error : Error → Reply
http_error e = problem (status_from_error e) (public_message e)

-- The two checks at the start of `createMemory` and `searchMemory`.
abbrev pub check_path_ids : Bytes → Bytes → Result (Unit {0})
check_path_ids user_id agent_id =
    validate_memory_path_id user_id >> validate_memory_path_id agent_id

abbrev pub created_reply : Bytes → Saved → Reply
created_reply id (saved synced none) = created (trim_space id)
created_reply id (saved synced (some e)) = http_error e
created_reply id crashed = recovered

module _ (B : Backend) (f : TimeFormat) (base : Bytes) where
  abbrev pub create_checked :
      Faults
      → Time
      → World B f base
      → CreateMemoryRequest
      → Result (Unit {0})
      → World B f base × Reply
  create_checked x now w req (err e) = (w, http_error e)
  create_checked x now w req (ok _) =
      let r = save_memory B f base x now w (to_memory req) in (r.0, created_reply req.id r.1)

  -- `createMemory`
  unfoldable pub create_memory :
      Faults → Time → World B f base → Result CreateMemoryRequest → World B f base × Reply
  unfolding save_memory to_memory
  create_memory x now w (err e) = (w, problem bad_request e.text)
  create_memory x now w (ok req) =
      create_checked x now w req (check_path_ids req.user_id req.agent_id)

  module _ (embed : Bytes → Result (List Float32)) where
    abbrev pub shown : Parsed (List SearchResult) → Reply
    shown (done rs) = results rs
    shown (failed e) = problem internal internal_message
    shown panicked = recovered

    abbrev pub found :
        Faults
        → (List Place → List Place)
        → World B f base
        → SearchMemoryRequest
        → Result (List SearchResult)
        → Reply
    found x order w req (err e) = http_error e
    found x order w req (ok rs) =
        if length rs == 0
        then results rs
        else shown (replace_content f x w.0 base order req.user_id req.agent_id rs)

    -- `searchMemory`
    unfoldable pub search_memory :
        Faults → (List Place → List Place) → World B f base → Result SearchMemoryRequest → Reply
    unfolding replace_content
    search_memory x order w (err e) = problem bad_request e.text
    search_memory x order w (ok req) = found x order w req (
        check_path_ids req.user_id req.agent_id
        >> (embed req.question
            >>= (λ v. Memory.search B w.1 req.agent_id req.user_id v (search_limit req.limit))))

    -- The model's streamer: an error, or what the loop then gets to see.
    abbrev pub Streamer : Type 0
    Streamer = List QaMessage → Result (List Input)

    abbrev pub streamed :
        (ℕ → Bool)
        → Faults
        → World B f base
        → ℕ
        → QaStreamRequest
        → Bytes
        → Result (List Input)
        → World B f base × ℕ × Reply
    streamed gets_through x w seq req question (err e) = (w, seq, http_error e)
    streamed gets_through x w seq req question (ok inputs) =
        let r = qa_loop B f base embed gets_through x req question inputs w seq [] [] [] in
        (r.0, r.1, stream r.2)

    abbrev pub asked :
        Streamer
        → (ℕ → Bool)
        → Faults
        → World B f base
        → ℕ
        → QaStreamRequest
        → Result (Bytes × List QaMessage)
        → World B f base × ℕ × Reply
    asked streamer gets_through x w seq req (err e) = (w, seq, problem bad_request e.text)
    asked streamer gets_through x w seq req (ok (question, messages)) =
        streamed gets_through x w seq req question (streamer messages)

    -- `qaStream`
    unfoldable pub qa_stream :
        Option Streamer
        → (ℕ → Bool)
        → Faults
        → World B f base
        → ℕ
        → Result QaStreamRequest
        → World B f base × ℕ × Reply
    unfolding qa_loop to_model_request last_user_question
    qa_stream none gets_through x w seq body = (w, seq, problem internal internal_message)
    qa_stream (some streamer) gets_through x w seq (err e) = (w, seq, problem bad_request e.text)
    qa_stream (some streamer) gets_through x w seq (ok req) =
        asked streamer gets_through x w seq req (
          to_model_request req
          >>= (λ messages. last_user_question req >>= (λ question. ok (question, messages))))
