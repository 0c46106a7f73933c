-- ===== src/Http/Qa.antt =====
-- internal/transport/http/handler.go, `qaStream` and `persistQATurn`, with the events of response.go.
-- The loop runs on the things that its `select` gets to see, in their order; a write that fails leaves
-- the client without the whole event, which then does not count as sent.
pub mod Frames
pub mod Persisted
pub mod Broken
use agent_cortex.Prelude.{
  ℕ, suc, ◌+◌, ◌%◌, ◌^◌, Bool, true, false, Bytes, List, [], ◌∷◌, ◌++◌, Option, none, some, length,
  if◌then◌else◌,
}
use agent_cortex.Prelude.Int.{ℤ, pos, negsuc, wrap64}
use agent_cortex.Prelude.Text.{codes}
use agent_cortex.Strings.{trim_space, is_empty}
use agent_cortex.Decimal.{itoa}
use agent_cortex.RateLimit.Types.{Time, zero_time}
use agent_cortex.Errors.{Error, Result, ok, err}
use agent_cortex.TimeFormat.{TimeFormat}
use agent_cortex.Memory.{Memory, Float32, Backend}
use agent_cortex.Files.{Faults}
use agent_cortex.Http.Request.{QaStreamRequest}
use agent_cortex.Http.Save.{World, Saved, saved, crashed, save_memory}
use agent_cortex.Http.Status.{public_message}

-- `qaFinishedEvent`
pub record Finished : Type 0 where
  pub answer : Bytes
  pub memory_id : Bytes
  pub memory_saved : Bool
  pub markdown_synced : Bool
  pub finish_reason : Bytes

-- The events of a stream of server-sent events.
pub data Frame : Type 0 where
  heartbeat : Bytes → Frame
  text_delta : Bytes → Frame
  warning : Bytes → Frame
  stream_error : Bytes → Bytes → Frame
  finished : Finished → Frame

-- What `qaStream` reads of a `model.StreamEvent`.
pub record ModelEvent : Type 0 where
  pub err : Option Error
  pub text : Bytes
  pub finish_reason : Bytes

-- What the `select` sees; a tick with the text of its time, the closed channel with the two readings of
-- the clock that follow it.
pub data Input : Type 0 where
  context_done : Input
  tick : Bytes → Input
  event : ModelEvent → Input
  closed : Time → Time → Input

abbrev pub Frames : Type 0
Frames = List Frame

-- `writeSSE`: the events sent, and whether the write went through; `gets_through` says so of each.
abbrev pub write_sse : (ℕ → Bool) → Frames → Frame → Frames × Bool
write_sse gets_through sent frame =
    if gets_through (length sent) then (sent ++ frame ∷ [], true) else (sent, false)

-- `%d` of an int64
abbrev pub decimal : ℤ → Bytes
decimal (pos n) = itoa n
decimal (negsuc n) = b'-' ∷ itoa (suc n)

-- `nextMemoryID`, with the sequence number that it leaves
abbrev pub next_memory_id : Time → ℕ → Bytes × ℕ
next_memory_id now seq =
    let n = (seq + 1) % 2 ^ 64 in (codes "memory-" ++ (decimal (wrap64 now) ++ b'-' ∷ itoa n), n)

-- `Memory` of `persistQATurn`
abbrev pub turn_memory : QaStreamRequest → Bytes → Bytes → Bytes → List Float32 → Memory
turn_memory req id question answer vector = record {
  id = id;
  agent_id = trim_space req.agent_id;
  user_id = trim_space req.user_id;
  question = question;
  answer = trim_space answer;
  content = trim_space (question ++ b'\n' ∷ answer);
  embedding = vector;
  recorded_at = zero_time;
  storage_version = pos 0;
}

-- The finished event that a turn has come to, none when the stream has ended without it.
abbrev pub warned : Finished → Frames × Bool → Frames × Option Finished
warned fin (sent, true) = (sent, some fin)
warned fin (sent, false) = (sent, none)

module _ (B : Backend) (f : TimeFormat) (base : Bytes) (embed : Bytes → Result (List Float32))
    (gets_through : ℕ → Bool) (x : Faults) (req : QaStreamRequest) (question : Bytes) where
  -- What `persistQATurn` makes of `saveMemory`'s result.
  unfoldable pub after_save : Bytes → Finished → Frames → Saved → Frames × Option Finished
  after_save id fin sent (saved synced none) =
      (sent, some (record fin { memory_id = id; memory_saved = true; markdown_synced = synced }))
  after_save id fin sent (saved synced (some e)) =
      warned (record fin { markdown_synced = synced })
        (write_sse gets_through sent (warning (codes "memory save failed: " ++ public_message e)))
  after_save id fin sent crashed = (sent, none)

  abbrev pub save_turn :
      Time
      → Time
      → World B f base
      → ℕ
      → Bytes
      → Finished
      → Frames
      → List Float32
      → World B f base × ℕ × (Frames × Option Finished)
  save_turn now later w seq answer fin sent vector =
      let next = next_memory_id now seq in
      let r = save_memory B f base x later w (turn_memory req next.0 question answer vector) in
      (r.0, next.1, after_save next.0 fin sent r.1)

  abbrev pub embed_turn :
      Time
      → Time
      → World B f base
      → ℕ
      → Bytes
      → Finished
      → Frames
      → Result (List Float32)
      → World B f base × ℕ × (Frames × Option Finished)
  embed_turn now later w seq answer fin sent (ok vector) =
      save_turn now later w seq answer fin sent vector
  embed_turn now later w seq answer fin sent (err e) = (
    w,
    seq,
    warned fin
        (write_sse gets_through sent (warning (codes "embedding failed: " ++ public_message e))),
  )

  -- `persistQATurn`
  unfoldable pub persist_turn :
      Time
      → Time
      → World B f base
      → ℕ
      → Bytes
      → Finished
      → Frames
      → World B f base × ℕ × (Frames × Option Finished)
  unfolding after_save
  persist_turn now later w seq answer fin sent =
      if is_empty (trim_space answer)
      then (w, seq, (sent, some fin))
      else embed_turn now later w seq answer fin sent (embed question)

  abbrev pub unsaved : Bytes → Bytes → Finished
  unsaved answer reason = record {
    answer = answer;
    memory_id = [];
    memory_saved = false;
    markdown_synced = false;
    finish_reason = reason;
  }

  -- The last event of a stream.
  abbrev pub finish : Frames × Option Finished → Frames
  finish (sent, none) = sent
  finish (sent, some fin) = (write_sse gets_through sent (finished fin)).0

  abbrev pub close :
      Time → Time → World B f base → ℕ → Bytes → Bytes → Frames → World B f base × ℕ × Frames
  close now later w seq answer reason sent =
      let r = persist_turn now later w seq answer (unsaved answer reason) sent in
      (r.0, r.1, finish r.2)

  abbrev pub next_reason : Bytes → Bytes → Bytes
  next_reason reason said = if is_empty (trim_space said) then reason else said

  -- The loop of `qaStream`, with the answer and the finish reason so far.
  unfoldable pub qa_loop :
      List Input → World B f base → ℕ → Bytes → Bytes → Frames → World B f base × ℕ × Frames
  unfolding persist_turn
  qa_loop [] w seq answer reason sent = (w, seq, sent)
  qa_loop (context_done ∷ inputs) w seq answer reason sent = (w, seq, sent)
  qa_loop (tick text ∷ inputs) w seq answer reason sent =
      let (sent', through) = write_sse gets_through sent (heartbeat text) in
      elim through [ true ↦ qa_loop inputs w seq answer reason sent' | false ↦ (w, seq, sent') ]
  qa_loop (closed now later ∷ inputs) w seq answer reason sent =
      close now later w seq answer reason sent
  qa_loop (event e ∷ inputs) w seq answer reason sent = elim e.err [
    | some failure ↦ (
      w,
      seq,
      (write_sse gets_through sent
          (stream_error (codes "model_stream_failed") (public_message failure))).0,
    )
    | none ↦ elim (is_empty e.text) [
      | true ↦ qa_loop inputs w seq answer (next_reason reason e.finish_reason) sent
      | false ↦
          let (sent', through) = write_sse gets_through sent (text_delta e.text) in
          elim through [
            | true ↦
                qa_loop inputs w seq (answer ++ e.text) (next_reason reason e.finish_reason) sent'
            | false ↦ (w, seq, sent')
          ]
    ]
  ]
