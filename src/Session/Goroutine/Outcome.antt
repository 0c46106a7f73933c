-- ===== src/Session/Goroutine/Outcome.antt =====
-- internal/session/manager.go: how a session ends, and what stays when it has ended.
use agent_cortex.Prelude.{
  ◌≤◌, ◌≡◌, refl, sym, ap, ◌∙◌, true, Bytes, List, [], ◌∷◌, ◌++◌, none, length, arith,
}
use mathlib.Core.Path.{subst}
use mathlib.Core.List.{append_assoc}
use agent_cortex.RateLimit.Types.{Time}
use agent_cortex.Session.Types.{State, terminal, Event}
use agent_cortex.Session.Goroutine.{
  Pc, at_start, at_stream_call, at_receive, at_text, at_tool, at_check, at_terminal, at_finish,
  at_end, Session, Action, proceed, give_up, stream_opened, stream_refused, stream_event,
  stream_closed, consume, cancel, step, advance, abandon, answer, take_event,
}
use agent_cortex.Session.Goroutine.Protocol.{
  Phase, Inv, Agrees, Closes, IsStarted, started-Inv, run-Inv, run, after, phase, sent,
}
use agent_cortex.Session.Goroutine.Capacity.{capacity-run}

-- Only a goroutine that has come to its end has a final state.
at_end_of_terminal :
    (pc : Pc) (p : Phase) (st : State)
    → Agrees pc p st
    → terminal st ≡ true
    → (pc ≡ at_end) × Closes p st
at_end_of_terminal at_start p st h t = ground arith
at_end_of_terminal at_stream_call p st h t = ground arith
at_end_of_terminal at_receive p st h t = ground arith
at_end_of_terminal (at_text d) p st h t = ground arith
at_end_of_terminal (at_tool d) p st h t = ground arith
at_end_of_terminal at_check p st h t = ground arith
at_end_of_terminal (at_terminal k f e) p st h t = ground arith
at_end_of_terminal (at_finish f e) p st h t = ground arith
at_end_of_terminal at_end p st h t = (refl, h.0)

-- Whatever happens after its start, a session whose state is final has sent `started`, deltas and
-- then exactly the closing event of that state, or it was interrupted before it sent any closing
-- event.
pub session_outcome :
    (s : Session) (as' : List Action)
    → IsStarted s
    → terminal (run s as').state ≡ true
    → Closes (phase (run s as')) (run s as').state
session_outcome s as' h t =
    let v = run-Inv s as' (started-Inv s h) in
    (at_end_of_terminal (run s as').pc (phase (run s as')) (run s as').state v.agrees t).1

-- Whatever happens after its start, the channel of a session never holds more than its capacity.
pub buffer_bounded :
    (s : Session) (as' : List Action) → IsStarted s → length (run s as').buffer ≤ s.capacity
buffer_bounded s as' h =
    subst (λ c. length (run s as').buffer ≤ c) (capacity-run s as')
      (run-Inv s as' (started-Inv s h)).within

-- What a session whose goroutine has ended keeps.
abbrev pub IsSettled : State → Bytes → List Event → Session → Type 0
IsSettled st t es s = (s.pc ≡ at_end) × (s.state ≡ st) × (s.err_text ≡ t) × (sent s ≡ es)

take_event-IsSettled :
    (st : State) (t : Bytes) (es : List Event) (s : Session) (b : List Event)
    → s.buffer ≡ b
    → IsSettled st t es s
    → IsSettled st t es (after s (take_event b s))
unfolding take_event
take_event-IsSettled st t es s [] e h = h
take_event-IsSettled st t es s (d ∷ b) e h =
    (h.0, h.1, h.2, append_assoc s.received (d ∷ []) b ∙ ap (λ xs. s.received ++ xs) (sym e) ∙ h.3)

advance-end : (pc : Pc) (s : Session) (now : Time) → pc ≡ at_end → advance pc s now ≡ none
unfolding advance
advance-end pc s now e = rw e refl

abandon-end : (pc : Pc) (s : Session) → pc ≡ at_end → abandon pc s ≡ none
unfolding abandon
abandon-end pc s e = rw e refl

answer-end : (pc : Pc) (a : Action) (s : Session) → pc ≡ at_end → answer pc a s ≡ none
unfolding answer
answer-end pc a s e = rw e refl

step-IsSettled :
    (st : State) (t : Bytes) (es : List Event) (s : Session) (a : Action)
    → IsSettled st t es s
    → IsSettled st t es (after s (step s a))
unfolding step
step-IsSettled st t es s (proceed now) h =
    subst (λ o. IsSettled st t es (after s o)) (sym (advance-end s.pc s now h.0)) h
step-IsSettled st t es s give_up h =
    subst (λ o. IsSettled st t es (after s o)) (sym (abandon-end s.pc s h.0)) h
step-IsSettled st t es s consume h = take_event-IsSettled st t es s s.buffer refl h
step-IsSettled st t es s cancel h = h
step-IsSettled st t es s stream_opened h =
    subst (λ o. IsSettled st t es (after s o)) (sym (answer-end s.pc stream_opened s h.0)) h
step-IsSettled st t es s (stream_refused e) h =
    subst (λ o. IsSettled st t es (after s o)) (sym (answer-end s.pc (stream_refused e) s h.0)) h
step-IsSettled st t es s (stream_event e) h =
    subst (λ o. IsSettled st t es (after s o)) (sym (answer-end s.pc (stream_event e) s h.0)) h
step-IsSettled st t es s stream_closed h =
    subst (λ o. IsSettled st t es (after s o)) (sym (answer-end s.pc stream_closed s h.0)) h

pub step-terminal :
    (s : Session) (a : Action)
    → Inv s
    → terminal s.state ≡ true
    → (after s (step s a)).state ≡ s.state
step-terminal s a v t =
    let e = at_end_of_terminal s.pc (phase s) s.state v.agrees t in
    (step-IsSettled s.state s.err_text (sent s) s a (e.0, refl, refl, refl)).1

run-IsSettled :
    (st : State) (t : Bytes) (es : List Event) (s : Session) (as' : List Action)
    → IsSettled st t es s
    → IsSettled st t es (run s as')
unfolding run
run-IsSettled st t es s [] h = h
run-IsSettled st t es s (a ∷ as') h =
    run-IsSettled st t es (after s (step s a)) as' (step-IsSettled st t es s a h)

-- Once a started session has a final state, no later action changes its state or its error text, and
-- it sends no further event.
pub session-IsSettled :
    (s : Session) (first rest : List Action)
    → IsStarted s
    → terminal (run s first).state ≡ true
    → IsSettled
        (run s first).state
        (run s first).err_text
        (sent (run s first))
        (run (run s first) rest)
session-IsSettled s first rest h t =
    let r = run s first in
    let e =
      at_end_of_terminal r.pc (phase r) r.state (run-Inv s first (started-Inv s h)).agrees t in
    run-IsSettled r.state r.err_text (sent r) r rest (e.0, refl, refl, refl)
