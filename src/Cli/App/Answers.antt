-- ===== src/Cli/App/Answers.antt =====
-- internal/cli/app.go, `answer`, against internal/transport/http/handler.go, `qaStream`: the answer that
-- the terminal session keeps of the events that the server has sent.
use agent_cortex.Prelude.{
  ℕ, Bytes, List, [], ◌∷◌, ◌++◌, Option, none, some, ◌≡◌, refl, sym, ap, ◌∙◌, inl, inr, Bool-cases,
}
use mathlib.Core.List.{append_assoc, append-nil}
use agent_cortex.Strings.{trim_space, is_empty}
use agent_cortex.Errors.{Error, Result, ok}
use agent_cortex.Http.Qa.{Frame, heartbeat, text_delta, warning, stream_error, finished, Frames}
use agent_cortex.Http.Qa.Frames.{texts, AnswersWith, IsTurn, IsOpen, texts-append}
use agent_cortex.Cli.Client.{QaEvent, got_text, got_warning, got_finished, got_failure}
use agent_cortex.Cli.Client.Decode.{event_of, heard}
use agent_cortex.Cli.App.{
  Terminal, write, write_line, warning_line, finished_answer, after_write, answer_loop,
}

pub heard-append : (fs gs : Frames) → heard (fs ++ gs) ≡ heard fs ++ heard gs
unfolding heard
heard-append [] gs = refl
heard-append (heartbeat t ∷ fs) gs = heard-append fs gs
heard-append (text_delta t ∷ fs) gs = ap (λ s. got_text t ∷ s) (heard-append fs gs)
heard-append (warning t ∷ fs) gs = ap (λ s. got_warning t ∷ s) (heard-append fs gs)
heard-append (stream_error c t ∷ fs) gs =
    ap (λ s. event_of (stream_error c t) ∷ s) (heard-append fs gs)
heard-append (finished fin ∷ fs) gs = ap (λ s. got_finished fin ∷ s) (heard-append fs gs)

module _ (faults : ℕ → Option Error) where
  after_write-eq-ok :
      (r : Terminal × Option Error) (next : Terminal → Terminal × Result Bytes) (a : Bytes)
      → (after_write faults r next).1 ≡ ok a
      → (next r.0).1 ≡ ok a
  after_write-eq-ok (t, none) next a e = e
  after_write-eq-ok (t, some f) next a e = cc

  -- A session's loop over events on the way that succeeds has gone on behind them with their texts.
  answer_loop-open :
      (fs : Frames) (es : List QaEvent) (built : Bytes) (t : Terminal) (a : Bytes)
      → IsOpen fs
      → (answer_loop faults (heard fs ++ es) built t).1 ≡ ok a
      → (t' : Terminal) × ((answer_loop faults es (built ++ texts fs) t').1 ≡ ok a)
  unfolding heard answer_loop texts
  answer_loop-open [] es built t a h e = (t, rw (append-nil built) e)
  answer_loop-open (heartbeat s ∷ fs) es built t a h e = answer_loop-open fs es built t a h.1 e
  answer_loop-open (stream_error c m ∷ fs) es built t a h e = cc
  answer_loop-open (finished fin ∷ fs) es built t a h e = cc
  answer_loop-open (text_delta s ∷ fs) es built t a h e =
      let next = answer_loop faults (heard fs ++ es) (built ++ s) in
      let (u, g) =
        answer_loop-open fs es (built ++ s) (write faults s t).0 a h.1
          (after_write-eq-ok (write faults s t) next a e) in
      (u, rw (sym (append_assoc built s (texts fs))) g)
  answer_loop-open (warning s ∷ fs) es built t a h e =
      let r = write_line faults (warning_line faults s) t in
      answer_loop-open fs es built r.0 a h.1
        (after_write-eq-ok r (answer_loop faults (heard fs ++ es) built) a e)

  -- An answer that is no white space
  pub finished_answer-same : (a : Bytes) → finished_answer faults a a ≡ a
  finished_answer-same a = elim (Bool-cases (is_empty (trim_space a))) [
    | inl e ↦ rw (e) refl
    | inr e ↦ rw (e) refl
  ]

  -- What the end of a body leaves.
  abbrev pub tail : Option Error → List QaEvent
  tail none = []
  tail (some e) = got_failure e ∷ []

  tail_fails :
      (end : Option Error) (built : Bytes) (t : Terminal) (a : Bytes)
      → ¬ ((answer_loop faults (tail end) built t).1 ≡ ok a)
  unfolding answer_loop
  tail_fails none built t a e = cc
  tail_fails (some f) built t a e = cc

  last_answer :
      (end : Option Error) (fs : Frames) (k : Frame) (t : Terminal) (a : Bytes)
      → AnswersWith (texts fs) k
      → (answer_loop faults (heard (k ∷ []) ++ tail end) (texts fs) t).1 ≡ ok a
      → a ≡ texts (fs ++ k ∷ [])
  unfolding answer_loop heard texts
  last_answer end fs (heartbeat s) t a h e = absurd (tail_fails end (texts fs) t a e)
  last_answer end fs (stream_error c m) t a h e = cc
  last_answer end fs (text_delta s) t a h e =
      let r = write faults s t in
      absurd (
        tail_fails end (texts fs ++ s) r.0 a
          (after_write-eq-ok r (answer_loop faults (tail end) (texts fs ++ s)) a e))
  last_answer end fs (warning s) t a h e =
      let r = write_line faults (warning_line faults s) t in
      absurd (
        tail_fails end (texts fs) r.0 a
          (after_write-eq-ok r (answer_loop faults (tail end) (texts fs)) a e))
  last_answer end fs (finished fin) t a h e =
      let r = write_line faults [] t in
      let g =
        after_write-eq-ok r (λ u. (u, ok (finished_answer faults fin.answer (texts fs)))) a e in
      let f : finished_answer faults fin.answer (texts fs) ≡ a = cc (g) in
      sym f
      ∙ ap (λ b. finished_answer faults b (texts fs)) h
      ∙ finished_answer-same (texts fs)
      ∙ sym (append-nil (texts fs))
      ∙ sym (texts-append fs (finished fin ∷ []))

  -- The events of a turn of the server, the heartbeats left out, behind which the body ends or breaks off:
  -- a text that the session takes for the answer is exactly the texts that were sent, in their order,
  -- whichever writes of the terminal fail.
  pub answer_loop-IsTurn :
      (sent : Frames) (end : Option Error) (t : Terminal) (a : Bytes)
      → IsTurn sent
      → (answer_loop faults (heard sent ++ tail end) [] t).1 ≡ ok a
      → a ≡ texts sent
  answer_loop-IsTurn sent end t a (inl h) e =
      let (u, g) = answer_loop-open sent (tail end) [] t a h e in
      absurd (tail_fails end (texts sent) u a g)
  answer_loop-IsTurn sent end t a (inr (fs, k, s, h, w)) e =
      let same : heard sent ++ tail end ≡ heard fs ++ (heard (k ∷ []) ++ tail end) =
        ap (λ (es : Frames). heard es ++ tail end) s
        ∙ ap (λ es. es ++ tail end) (heard-append fs (k ∷ []))
        ∙ append_assoc (heard fs) (heard (k ∷ [])) (tail end) in
      let (u, g) =
        answer_loop-open fs (heard (k ∷ []) ++ tail end) [] t a h
          (ap (λ (es : List QaEvent). (answer_loop faults es [] t).1) (sym same) ∙ e) in
      last_answer end fs k u a w g ∙ ap texts (sym s)
