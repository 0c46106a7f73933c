-- ===== src/Http/Qa/Frames.antt =====
-- internal/transport/http/handler.go, `qaStream`: the events that a client gets.
use agent_cortex.Prelude.{
  ℕ, Bool, true, false, Bytes, List, [], ◌∷◌, ◌++◌, Option, none, some, length, All, All-append,
  ◌≡◌, refl, sym, ap, ◌∙◌, ◌⊎◌, inl, inr, Bool-cases, Option-cases,
}
use mathlib.Core.List.{append_assoc, append-nil}
use agent_cortex.Strings.{is_empty, trim_space}
use agent_cortex.Errors.{Result, ok, err}
use agent_cortex.RateLimit.Types.{Time}
use agent_cortex.TimeFormat.{TimeFormat}
use agent_cortex.Memory.{Float32, Backend}
use agent_cortex.Files.{Faults}
use agent_cortex.Http.Request.{QaStreamRequest}
use agent_cortex.Http.Save.{World, Saved, saved, crashed}
use agent_cortex.Http.Qa.{
  Finished, Frame, heartbeat, text_delta, warning, stream_error, finished, Frames, Input,
  context_done, tick, event, closed, write_sse, warned, finish, after_save, persist_turn,
  embed_turn, unsaved, qa_loop,
}

-- An event behind which nothing comes.
abbrev pub is_last : Frame → Bool
is_last (heartbeat t) = false
is_last (text_delta t) = false
is_last (warning t) = false
is_last (stream_error c t) = true
is_last (finished fin) = true

-- The texts of the answer that a client has got.
unfoldable pub texts : Frames → Bytes
texts [] = []
texts (text_delta t ∷ fs) = t ++ texts fs
texts (heartbeat t ∷ fs) = texts fs
texts (warning t ∷ fs) = texts fs
texts (stream_error c t ∷ fs) = texts fs
texts (finished fin ∷ fs) = texts fs

abbrev pub AnswersWith : Bytes → Frame → Type 0
AnswersWith answer (finished fin) = fin.answer ≡ answer
AnswersWith answer (heartbeat t) = Unit
AnswersWith answer (text_delta t) = Unit
AnswersWith answer (warning t) = Unit
AnswersWith answer (stream_error c t) = Unit

-- Events on the way, or such events and a last one that says what they said.
abbrev pub IsTurn : Frames → Type 0
IsTurn frames =
    All (λ (e : Frame). is_last e ≡ false) frames
    ⊎ ((fs : Frames) × (e : Frame) × (frames ≡ fs ++ e ∷ [])
        × All (λ (k : Frame). is_last k ≡ false) fs
        × AnswersWith (texts fs) e)

pub texts-append : (fs gs : Frames) → texts (fs ++ gs) ≡ texts fs ++ texts gs
unfolding texts
texts-append [] gs = refl
texts-append (text_delta t ∷ fs) gs =
    ap (λ s. t ++ s) (texts-append fs gs) ∙ sym (append_assoc t (texts fs) (texts gs))
texts-append (heartbeat t ∷ fs) gs = texts-append fs gs
texts-append (warning t ∷ fs) gs = texts-append fs gs
texts-append (stream_error c t ∷ fs) gs = texts-append fs gs
texts-append (finished fin ∷ fs) gs = texts-append fs gs

texts_heartbeat : (fs : Frames) (t : Bytes) → texts (fs ++ heartbeat t ∷ []) ≡ texts fs
unfolding texts
texts_heartbeat fs t = texts-append fs (heartbeat t ∷ []) ∙ append-nil (texts fs)

texts_delta : (fs : Frames) (t : Bytes) → texts (fs ++ text_delta t ∷ []) ≡ texts fs ++ t
unfolding texts
texts_delta fs t = texts-append fs (text_delta t ∷ []) ∙ ap (λ s. texts fs ++ s) (append-nil t)

abbrev pub IsOpen : Frames → Type 0
IsOpen fs = All (λ (e : Frame). is_last e ≡ false) fs

IsOpen-append : (fs : Frames) (e : Frame) → IsOpen fs → is_last e ≡ false → IsOpen (fs ++ e ∷ [])
IsOpen-append fs e h l = All-append (λ (k : Frame). is_last k ≡ false) fs (e ∷ []) h (l, tt)

write_sse-IsOpen :
    (gets_through : ℕ → Bool) (sent : Frames) (e : Frame)
    → IsOpen sent
    → is_last e ≡ false
    → IsOpen (write_sse gets_through sent e).0
write_sse-IsOpen gets_through sent e h l = elim (Bool-cases (gets_through (length sent))) [
  | inl g ↦ rw (g) (IsOpen-append sent e h l)
  | inr g ↦ rw (g) h
]

texts-write_sse :
    (gets_through : ℕ → Bool) (sent : Frames) (e : Frame)
    → gets_through (length sent) ≡ true
    → texts (write_sse gets_through sent e).0 ≡ texts (sent ++ e ∷ [])
texts-write_sse gets_through sent e g = rw (g) refl

write_sse-IsTurn :
    (gets_through : ℕ → Bool) (sent : Frames) (e : Frame)
    → IsOpen sent
    → AnswersWith (texts sent) e
    → IsTurn (write_sse gets_through sent e).0
write_sse-IsTurn gets_through sent e h a = elim (Bool-cases (gets_through (length sent))) [
  | inl g ↦ rw (g) (inr (sent, e, refl, h, a))
  | inr g ↦ rw (g) (inl h)
]

abbrev AnswerIs : Bytes → Option Finished → Type 0
AnswerIs answer none = Unit
AnswerIs answer (some fin) = fin.answer ≡ answer

-- What persisting a turn does to the events: no text of the answer, no last event.
abbrev Persists : Bytes → Frames → Frames × Option Finished → Type 0
Persists answer sent r = IsOpen r.0 × (texts r.0 ≡ texts sent) × AnswerIs answer r.1

warned-Persists :
    (gets_through : ℕ → Bool) (answer : Bytes) (sent : Frames) (fin : Finished) (text : Bytes)
    → IsOpen sent
    → fin.answer ≡ answer
    → Persists answer sent (warned fin (write_sse gets_through sent (warning text)))
unfolding texts
warned-Persists gets_through answer sent fin text h a =
    elim (Bool-cases (gets_through (length sent))) [
      | inl g ↦ rw (g) (
        IsOpen-append sent (warning text) h refl,
        texts-append sent (warning text ∷ []) ∙ append-nil (texts sent),
        a,
      )
      | inr g ↦ rw (g) (h, refl, tt)
    ]

module _ (B : Backend) (f : TimeFormat) (base : Bytes) (embed : Bytes → Result (List Float32))
    (gets_through : ℕ → Bool) (x : Faults) (req : QaStreamRequest) (question : Bytes) where
  after_save-Persists :
      (id answer : Bytes) (fin : Finished) (sent : Frames) (r : Saved)
      → IsOpen sent
      → fin.answer ≡ answer
      → Persists answer sent (after_save B f base embed gets_through x req question id fin sent r)
  unfolding after_save
  after_save-Persists id answer fin sent (saved synced none) h a = (h, refl, a)
  after_save-Persists id answer fin sent (saved synced (some e)) h a =
      warned-Persists gets_through answer sent (record fin { markdown_synced = synced }) _ h a
  after_save-Persists id answer fin sent crashed h a = (h, refl, tt)

  embed_turn-Persists :
      (now later : Time) (w : World B f base) (seq : ℕ) (text answer : Bytes) (fin : Finished)
      (sent : Frames) (v : Result (List Float32))
      → IsOpen sent
      → fin.answer ≡ answer
      → Persists answer sent
          (embed_turn B f base embed gets_through x req question now later w seq text fin sent v).2
  embed_turn-Persists now later w seq text answer fin sent (ok v) h a =
      after_save-Persists _ answer fin sent _ h a
  embed_turn-Persists now later w seq text answer fin sent (err e) h a =
      warned-Persists gets_through answer sent fin _ h a

  persist_turn-Persists :
      (now later : Time) (w : World B f base) (seq : ℕ) (answer : Bytes) (fin : Finished)
      (sent : Frames)
      → IsOpen sent
      → fin.answer ≡ answer
      → Persists answer sent
          (persist_turn B f base embed gets_through x req question now later w seq answer fin
            sent).2
  unfolding persist_turn
  persist_turn-Persists now later w seq answer fin sent h a =
      elim (Bool-cases (is_empty (trim_space answer))) [
        | inl b ↦ rw (b, persist_turn) (h, refl, a)
        | inr b ↦
            rw (b, persist_turn)
              (embed_turn-Persists now later w seq answer answer fin sent (embed question) h a)
      ]

  finish-IsTurn :
      (answer : Bytes) (sent : Frames) (r : Frames × Option Finished)
      → texts sent ≡ answer
      → Persists answer sent r
      → IsTurn (finish B f base embed gets_through x req question r)
  finish-IsTurn answer sent (fs, none) t p = inl p.0
  finish-IsTurn answer sent (fs, some fin) t p =
      write_sse-IsTurn gets_through fs (finished fin) p.0 (p.2 ∙ sym t ∙ sym p.1)

  -- The events of a question's stream, when the loop goes on from events that are not last ones and whose
  -- texts make up the answer so far, and whatever the model, the embedder, the disk, the storage and the
  -- network do: at most one event says that the stream is over, nothing comes behind it, and a finished
  -- event carries as its answer exactly the texts that were sent before it, in their order.
  pub qa_loop-IsTurn :
      (inputs : List Input) (w : World B f base) (seq : ℕ) (answer reason : Bytes) (sent : Frames)
      → IsOpen sent
      → texts sent ≡ answer
      → IsTurn
          (qa_loop B f base embed gets_through x req question inputs w seq answer reason sent).2
  unfolding qa_loop
  qa_loop-IsTurn [] w seq answer reason sent h t = inl h
  qa_loop-IsTurn (context_done ∷ inputs) w seq answer reason sent h t = inl h
  qa_loop-IsTurn (closed now later ∷ inputs) w seq answer reason sent h t =
      finish-IsTurn answer sent _ t (
        persist_turn-Persists now later w seq answer
          (unsaved B f base embed gets_through x req question answer reason) sent h refl)
  qa_loop-IsTurn (tick text ∷ inputs) w seq answer reason sent h t =
      elim (Bool-cases (gets_through (length sent))) [
        | inl g ↦
            rw (g, qa_loop)
              (qa_loop-IsTurn inputs w seq answer reason _
                (write_sse-IsOpen gets_through sent (heartbeat text) h refl)
                (texts-write_sse gets_through sent (heartbeat text) g
                  ∙ texts_heartbeat sent text
                  ∙ t))
        | inr g ↦ rw (g, qa_loop) (inl (write_sse-IsOpen gets_through sent (heartbeat text) h refl))
      ]
  qa_loop-IsTurn (event e ∷ inputs) w seq answer reason sent h t = elim (Option-cases e.err) [
    | inr (failure, k) ↦
        rw (k, qa_loop) (write_sse-IsTurn gets_through sent (stream_error _ _) h tt)
    | inl k ↦ elim (Bool-cases (is_empty e.text)) [
      | inl b ↦ rw (k, b, qa_loop) (qa_loop-IsTurn inputs w seq answer _ sent h t)
      | inr b ↦ elim (Bool-cases (gets_through (length sent))) [
        | inl g ↦
            rw (k, b, g, qa_loop)
              (qa_loop-IsTurn inputs w seq (answer ++ e.text) _ _
                (write_sse-IsOpen gets_through sent (text_delta e.text) h refl)
                (texts-write_sse gets_through sent (text_delta e.text) g
                  ∙ texts_delta sent e.text
                  ∙ ap (λ s. s ++ e.text) t))
        | inr g ↦
            rw (k, b, g, qa_loop)
              (inl (write_sse-IsOpen gets_through sent (text_delta e.text) h refl))
      ]
    ]
  ]
