-- ===== src/Http/Handlers/Replies.antt =====
-- internal/transport/http/handler.go and errors.go: what clients learn of failures.
use agent_cortex.Prelude.{
  false, Bytes, List, none, some, length, ◌==◌, ◌≡◌, refl, Bool-cases, inl, inr, ◌⊎◌,
}
use agent_cortex.RateLimit.Types.{Time}
use agent_cortex.Errors.{Error, Result, ok, err, ◌>>=◌, ◌>>◌, memory_conflict, text_of}
use agent_cortex.TimeFormat.{TimeFormat}
use agent_cortex.Memory.{Memory, Float32, Backend, SearchResult, same_content}
use agent_cortex.Memory as M
use agent_cortex.Files.{Faults}
use agent_cortex.Http.Markdown.Parser.{Parsed, done, failed, panicked}
use agent_cortex.Http.Request.{CreateMemoryRequest, to_memory, search_limit}
use agent_cortex.Http.Save.{World, Saved, saved, crashed, normalize_memory, check_ids}
use agent_cortex.Http.Save.Outcomes.{save_memory-conflicts}
use agent_cortex.Http.Search.{Place, replace_content}
use agent_cortex.Http.Status.{
  conflict, internal, internal_message, status_from_error, public_message,
}
use agent_cortex.Http.Handlers.{
  SearchMemoryRequest, Reply, problem, created, results, stream, recovered, http_error,
  check_path_ids, created_reply, create_checked, create_memory, shown, found, search_memory,
}

-- Nothing but a fixed text is said of an error inside.
abbrev pub IsDiscreet : Reply → Type 0
IsDiscreet (problem status text) = ((status == internal) ≡ false) ⊎ (text ≡ internal_message)
IsDiscreet (created id) = Unit
IsDiscreet (results rs) = Unit
IsDiscreet (stream frames) = Unit
IsDiscreet recovered = Unit

http_error-IsDiscreet : (e : Error) → IsDiscreet (http_error e)
unfolding public_message
http_error-IsDiscreet e = elim (Bool-cases (status_from_error e == internal)) [
  | inl h ↦ inr (rw (h, public_message) refl)
  | inr h ↦ inl h
]

module _ (B : Backend) (f : TimeFormat) (base : Bytes) where
  created_reply-IsDiscreet : (id : Bytes) (r : Saved) → IsDiscreet (created_reply id r)
  created_reply-IsDiscreet id (saved synced none) = tt
  created_reply-IsDiscreet id (saved synced (some e)) = http_error-IsDiscreet e
  created_reply-IsDiscreet id crashed = tt

  create_checked-IsDiscreet :
      (x : Faults) (now : Time) (w : World B f base) (req : CreateMemoryRequest)
      (c : Result (Unit {0}))
      → IsDiscreet (create_checked B f base x now w req c).1
  create_checked-IsDiscreet x now w req (err e) = http_error-IsDiscreet e
  create_checked-IsDiscreet x now w req (ok a) = created_reply-IsDiscreet req.id _

  -- Whatever fails while a memory is created, a reply of status 500 says "internal server error" and
  -- nothing of the failure.
  pub create_memory-IsDiscreet :
      (x : Faults) (now : Time) (w : World B f base) (body : Result CreateMemoryRequest)
      → IsDiscreet (create_memory B f base x now w body).1
  unfolding create_memory
  create_memory-IsDiscreet x now w (err e) = inl refl
  create_memory-IsDiscreet x now w (ok req) = create_checked-IsDiscreet x now w req _

  -- A request to create a memory whose identifiers pass the checks, and whose identifier is stored for
  -- another user, agent, question or answer, gets status 409 with the text of the conflict, and neither the disk nor the storage changes.
  pub create_memory-conflicts :
      (x : Faults) (now : Time) (w : World B f base) (req : CreateMemoryRequest) (stored : Memory)
      → check_path_ids req.user_id req.agent_id ≡ ok tt
      → check_ids (normalize_memory (to_memory req)) ≡ ok tt
      → B.find_by_id w.1 (normalize_memory (to_memory req)).id ≡ ok (some stored)
      → same_content stored (normalize_memory (to_memory req)) ≡ false
      → create_memory B f base x now w (ok req) ≡ (w, problem conflict (text_of memory_conflict))
  unfolding create_memory public_message status_from_error
  create_memory-conflicts x now w req stored p c s d =
      rw (p, save_memory-conflicts B f base x now w (to_memory req) stored c s d) refl

  module _ (embed : Bytes → Result (List Float32)) where
    shown-IsDiscreet : (p : Parsed (List SearchResult)) → IsDiscreet (shown B f base embed p)
    shown-IsDiscreet (done rs) = tt
    shown-IsDiscreet (failed e) = inr refl
    shown-IsDiscreet panicked = tt

    found-IsDiscreet :
        (x : Faults) (order : List Place → List Place) (w : World B f base)
        (req : SearchMemoryRequest) (r : Result (List SearchResult))
        → IsDiscreet (found B f base embed x order w req r)
    found-IsDiscreet x order w req (err e) = http_error-IsDiscreet e
    found-IsDiscreet x order w req (ok rs) = elim (Bool-cases (length rs == 0)) [
      | inl h ↦ rw (h) tt
      | inr h ↦
          rw (h) (shown-IsDiscreet (replace_content f x w.0 base order req.user_id req.agent_id rs))
    ]

    -- Whatever fails in a search, a reply of status 500 says "internal server error" and nothing of the
    -- failure.
    pub search_memory-IsDiscreet :
        (x : Faults) (order : List Place → List Place) (w : World B f base)
        (body : Result SearchMemoryRequest)
        → IsDiscreet (search_memory B f base embed x order w body)
    unfolding search_memory
    search_memory-IsDiscreet x order w (err e) = inl refl
    search_memory-IsDiscreet x order w (ok req) = found-IsDiscreet x order w req (
        check_path_ids req.user_id req.agent_id
        >> (embed req.question
            >>= (λ v. M.search B w.1 req.agent_id req.user_id v (search_limit req.limit))))
