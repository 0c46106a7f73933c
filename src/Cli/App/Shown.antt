-- ===== src/Cli/App/Shown.antt =====
-- internal/cli/app.go, `answer`: what a session shows of a turn on a terminal that takes every write.
use agent_cortex.Prelude.{
  ℕ, suc, ◌+◌, Bytes, List, [], ◌∷◌, ◌++◌, Option, none, ◌≡◌, length, refl, sym, ap, ◌∙◌, arith,
}
use mathlib.Core.List.{append_assoc, append-nil}
use agent_cortex.Prelude.Text.{codes}
use agent_cortex.Errors.{Error, ok}
use agent_cortex.Http.Qa.{Finished, heartbeat, text_delta, warning, stream_error, finished, Frames}
use agent_cortex.Http.Qa.Frames.{texts, IsOpen}
use agent_cortex.Cli.Client.{QaEvent, got_finished}
use agent_cortex.Cli.Client.Decode.{heard}
use agent_cortex.Cli.App.{Terminal, write, warning_line, finished_answer, after_write, answer_loop}
use agent_cortex.Cli.App.Answers.{heard-append, finished_answer-same, tail}

-- What a terminal session that has no trouble shows of events on the way.
unfoldable pub printed : Frames → List Bytes
printed [] = []
printed (text_delta t ∷ fs) = t ∷ printed fs
printed (warning t ∷ fs) = (b'\n' ∷ (codes "[warning] " ++ t) ++ b'\n' ∷ []) ∷ printed fs
printed (heartbeat t ∷ fs) = printed fs
printed (stream_error c t ∷ fs) = printed fs
printed (finished fin ∷ fs) = printed fs

module _ (faults : ℕ → Option Error) where
  abbrev pub showing : Terminal → List Bytes → Terminal
  showing t ls = record { shown = t.shown ++ ls; writes = t.writes + length ls }

  showing-nil : (t : Terminal) → t ≡ showing t []
  showing-nil t =
      let e : t.writes ≡ t.writes + 0 = omega arith in
      λ i. record { shown = sym (append-nil t.shown) i; writes = e i }

  showing-cons :
      (t : Terminal) (s : Bytes) (ls : List Bytes)
      → showing (showing t (s ∷ [])) ls ≡ showing t (s ∷ ls)
  showing-cons t s ls =
      let e : t.writes + 1 + length ls ≡ t.writes + suc (length ls) = omega arith in
      rw (append_assoc t.shown (s ∷ []) ls, e) refl

  write-clean :
      (s : Bytes) (t : Terminal)
      → faults t.writes ≡ none
      → write faults s t ≡ (showing t (s ∷ []), none)
  write-clean s t h = rw (h, write) refl

  answer_loop-shows :
      (fs : Frames) (es : List QaEvent) (built : Bytes) (t : Terminal)
      → ((n : ℕ) → faults n ≡ none)
      → IsOpen fs
      → answer_loop faults (heard fs ++ es) built t
        ≡ answer_loop faults es (built ++ texts fs) (showing t (printed fs))
  unfolding heard answer_loop texts printed
  answer_loop-shows [] es built t never h =
      ap (λ b. answer_loop faults es b t) (sym (append-nil built))
      ∙ ap (answer_loop faults es (built ++ [])) (showing-nil t)
  answer_loop-shows (heartbeat s ∷ fs) es built t never h =
      answer_loop-shows fs es built t never h.1
  answer_loop-shows (stream_error c m ∷ fs) es built t never h = cc
  answer_loop-shows (finished fin ∷ fs) es built t never h = cc
  answer_loop-shows (text_delta s ∷ fs) es built t never h =
      ap
        (λ (r : Terminal × Option Error).
          after_write faults r (answer_loop faults (heard fs ++ es) (built ++ s)))
        (write-clean s t (never t.writes))
      ∙ answer_loop-shows fs es (built ++ s) (showing t (s ∷ [])) never h.1
      ∙ ap (λ b. answer_loop faults es b (showing (showing t (s ∷ [])) (printed fs)))
          (append_assoc built s (texts fs))
      ∙ ap (answer_loop faults es (built ++ (s ++ texts fs))) (showing-cons t s (printed fs))
  answer_loop-shows (warning s ∷ fs) es built t never h =
      let l = warning_line faults s ++ b'\n' ∷ [] in
      ap
        (λ (r : Terminal × Option Error).
          after_write faults r (answer_loop faults (heard fs ++ es) built))
        (write-clean l t (never t.writes))
      ∙ answer_loop-shows fs es built (showing t (l ∷ [])) never h.1
      ∙ ap (answer_loop faults es (built ++ texts fs)) (showing-cons t l (printed fs))

  -- A turn that the server has finished, on a terminal that takes every write: the session shows the texts
  -- and the warnings in their order and a line feed behind them, and the answer is the finished event's.
  pub answer_loop_finished :
      (fs : Frames) (fin : Finished) (end : Option Error) (t : Terminal)
      → ((n : ℕ) → faults n ≡ none)
      → IsOpen fs
      → fin.answer ≡ texts fs
      → answer_loop faults (heard (fs ++ finished fin ∷ []) ++ tail faults end) [] t
        ≡ (showing (showing t (printed fs)) ((b'\n' ∷ []) ∷ []), ok fin.answer)
  unfolding heard answer_loop
  answer_loop_finished fs fin end t never h w =
      let k = got_finished fin ∷ [] in
      let u = showing t (printed fs) in
      ap (λ es. answer_loop faults (es ++ tail faults end) [] t)
        (heard-append fs (finished fin ∷ []))
      ∙ ap (λ es. answer_loop faults es [] t) (append_assoc (heard fs) k (tail faults end))
      ∙ answer_loop-shows fs (k ++ tail faults end) [] t never h
      ∙ ap (λ r. after_write faults r (λ v. (v, ok (finished_answer faults fin.answer (texts fs)))))
          (write-clean (b'\n' ∷ []) u (never u.writes))
      ∙ ap (λ b. (showing u ((b'\n' ∷ []) ∷ []), ok b))
          (ap (finished_answer faults fin.answer) (sym w) ∙ finished_answer-same faults fin.answer)
