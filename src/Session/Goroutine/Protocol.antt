-- ===== src/Session/Goroutine/Protocol.antt =====
-- The event protocol of one session of internal/session/manager.go, under every interleaving of its
-- goroutine, the model's stream, the consumer and cancellation.
use agent_cortex.Prelude.{
  ◌≤◌, ◌≡◌, refl, sym, ap, ◌∙◌, ◌⊎◌, inl, inr, Bool, true, false, Bytes, List, [], ◌∷◌, ◌++◌,
  Option, none, some, length, length-append, if◌then◌else◌, arith, Bool-cases,
}
use mathlib.Core.Path.{subst}
use mathlib.Core.List.{append_assoc}
use agent_cortex.Strings.{is_empty}
use agent_cortex.RateLimit.Types.{Time}
use agent_cortex.Session.Types.{
  State, running, interrupted, completed, failed, terminal, EventType, started, text_delta,
  tool_delta, finished, was_interrupted, has_failed, StreamEvent, Event, plain_event,
  event_from_stream,
}
use agent_cortex.Session.Goroutine.{
  Pc, at_start, at_stream_call, at_receive, at_text, at_tool, at_check, at_terminal, at_finish,
  at_end, Session, Action, proceed, give_up, stream_opened, stream_refused, stream_event,
  stream_closed, consume, cancel, step, advance, abandon, answer, take_event, enqueue, room,
  try_send, has_tool_call, finish, receive, refuse, after_text, after_receive,
}

-- How far the events that a session has sent have come: nothing, `started` and deltas, or one closing
-- event that goes with a final state.
pub data Phase : Type 0 where
  fresh flowing out_of_order : Phase
  closed : State → Phase

unfoldable pub push : Phase → EventType → Phase
push fresh started = flowing
push flowing text_delta = flowing
push flowing tool_delta = flowing
push flowing finished = closed completed
push flowing was_interrupted = closed interrupted
push flowing has_failed = closed failed
push _ _ = out_of_order

unfoldable pub phase_from : Phase → List Event → Phase
phase_from p [] = p
phase_from p (e ∷ es) = phase_from (push p e.kind) es

phase_from-append :
    (p : Phase) (es : List Event) (e : Event)
    → phase_from p (es ++ e ∷ []) ≡ push (phase_from p es) e.kind
unfolding phase_from
phase_from-append p [] e = refl
phase_from-append p (d ∷ es) e = phase_from-append (push p d.kind) es e

-- All that the session has put into its channel.
abbrev pub sent : Session → List Event
sent s = s.received ++ s.buffer

abbrev pub phase : Session → Phase
phase s = phase_from fresh (sent s)

-- A closing event that goes with the state, or an interruption before any.
abbrev pub Closes : Phase → State → Type 0
Closes p final = (p ≡ closed final) ⊎ ((final ≡ interrupted) × ((p ≡ fresh) ⊎ (p ≡ flowing)))

-- What the place of the goroutine says of the events sent and of the state.
abbrev pub Agrees : Pc → Phase → State → Type 0
Agrees at_start p st = (p ≡ fresh) × (st ≡ running)
Agrees (at_terminal kind final e) p st =
    (p ≡ flowing) × (st ≡ running) × (push flowing kind ≡ closed final) × (terminal final ≡ true)
Agrees (at_finish final e) p st = Closes p final × (st ≡ running) × (terminal final ≡ true)
Agrees at_end p st = Closes p st × (terminal st ≡ true)
Agrees _ p st = (p ≡ flowing) × (st ≡ running)

pub record Inv (s : Session) : Type 0 where
  pub agrees : Agrees s.pc (phase s) s.state
  pub within : length s.buffer ≤ s.capacity

-- A disabled action leaves the session as it is.
abbrev pub after : Session → Option Session → Session
after s none = s
after s (some t) = t

unfoldable pub run : Session → List Action → Session
run s [] = s
run s (a ∷ as') = run (after s (step s a)) as'

after_text-Agrees :
    (d : StreamEvent) (p : Phase) (st : State)
    → (p ≡ flowing) × (st ≡ running)
    → Agrees (after_text d) p st
after_text-Agrees d p st h = elim (Bool-cases (has_tool_call d.tool_call)) [
  | inl e ↦ rw e h
  | inr e ↦ rw e h
]

after_receive-Agrees :
    (d : StreamEvent) (p : Phase) (st : State)
    → (p ≡ flowing) × (st ≡ running)
    → Agrees (after_receive d) p st
after_receive-Agrees d p st h = elim (Bool-cases (is_empty d.text)) [
  | inl e ↦ rw e (after_text-Agrees d p st h)
  | inr e ↦ rw e h
]

phase-enqueue : (s : Session) (e : Event) (pc : Pc) → phase (enqueue s e pc) ≡ push (phase s) e.kind
phase-enqueue s e pc =
    ap (phase_from fresh) (sym (append_assoc s.received s.buffer (e ∷ [])))
    ∙ phase_from-append fresh (sent s) e

send-Inv :
    (s : Session) (e : Event) (next : Pc)
    → Inv s
    → Agrees next (push (phase s) e.kind) s.state
    → Inv (after s (try_send s e next))
send-Inv s e next v h = elim (Bool-cases (room s)) [
  | inl r ↦ rw r (record {
    agrees = rw (phase-enqueue s e next) h;
    within = ground (arith, length-append s.buffer (e ∷ []));
  })
  | inr r ↦ rw r v
]

advance-Inv :
    (pc : Pc) (s : Session) (now : Time)
    → Agrees pc (phase s) s.state
    → Inv s
    → Inv (after s (advance pc s now))
unfolding advance push finish
advance-Inv at_start s now h v =
    send-Inv s (plain_event s.id now started []) at_stream_call v (ground (arith, h))
advance-Inv at_stream_call s now h v = v
advance-Inv at_receive s now h v = v
advance-Inv (at_text d) s now h v =
    send-Inv s (event_from_stream s.id now text_delta d) (after_text d) v
      (after_text-Agrees d (push (phase s) text_delta) s.state (ground (arith, h)))
advance-Inv (at_tool d) s now h v =
    send-Inv s (event_from_stream s.id now tool_delta d) at_receive v (ground (arith, h))
advance-Inv at_check s now h v = elim (Bool-cases s.canceled) [
  | inl c ↦ rw c (record { agrees = (h.0, h.1, refl, refl); within = v.within })
  | inr c ↦ rw c (record { agrees = (h.0, h.1, refl, refl); within = v.within })
]
advance-Inv (at_terminal kind final t) s now h v =
    send-Inv s (plain_event s.id now kind t) (at_finish final t) v
      (inl (ap (λ p. push p kind) h.0 ∙ h.2), h.1, h.3)
advance-Inv (at_finish final t) s now h v =
    rw (h.1, finish) (record { agrees = (h.0, h.2); within = v.within })
advance-Inv at_end s now h v = v

gated-Inv : (b : Bool) (s t : Session) → Inv s → Inv t → Inv (after s (if b then some t else none))
gated-Inv true s t v w = w
gated-Inv false s t v w = v

interrupt-Inv :
    (s : Session)
    → Inv s
    → (phase s ≡ fresh) ⊎ (phase s ≡ flowing)
    → s.state ≡ running
    → Inv (after s (if s.canceled then some (record s { pc = at_finish interrupted [] }) else none))
interrupt-Inv s v p st =
    gated-Inv s.canceled s (record s { pc = at_finish interrupted [] }) v
      (record { agrees = (inr (refl, p), st, refl); within = v.within })

abandon-Inv :
    (pc : Pc) (s : Session) → Agrees pc (phase s) s.state → Inv s → Inv (after s (abandon pc s))
unfolding abandon
abandon-Inv at_start s h v = interrupt-Inv s v (inl h.0) h.1
abandon-Inv (at_text d) s h v = interrupt-Inv s v (inr h.0) h.1
abandon-Inv (at_tool d) s h v = interrupt-Inv s v (inr h.0) h.1
abandon-Inv _ s h v = v

refuse-Inv :
    (s : Session) (t : Bytes) → (phase s ≡ flowing) × (s.state ≡ running) → Inv s → Inv (refuse s t)
unfolding refuse push
refuse-Inv s t h v = elim (Bool-cases s.canceled) [
  | inl c ↦ rw c (record { agrees = (h.0, h.1, refl, refl); within = v.within })
  | inr c ↦ rw c (record { agrees = (h.0, h.1, refl, refl); within = v.within })
]

receive-Inv :
    (o : Option Bytes) (s : Session) (d : StreamEvent)
    → (phase s ≡ flowing) × (s.state ≡ running)
    → Inv s
    → Inv (receive o s d)
unfolding receive push
receive-Inv none s d h v = record {
  agrees = after_receive-Agrees d (phase s) s.state h;
  within = v.within;
}
receive-Inv (some t) s d h v = record { agrees = (h.0, h.1, refl, refl); within = v.within }

answer-Inv :
    (pc : Pc) (a : Action) (s : Session)
    → Agrees pc (phase s) s.state
    → Inv s
    → Inv (after s (answer pc a s))
unfolding answer
answer-Inv at_stream_call stream_opened s h v = record { agrees = h; within = v.within }
answer-Inv at_stream_call (stream_refused t) s h v = refuse-Inv s t h v
answer-Inv at_receive (stream_event d) s h v = receive-Inv d.err s d h v
answer-Inv at_receive stream_closed s h v = record { agrees = h; within = v.within }
answer-Inv _ _ s h v = v

take_event-Inv :
    (s : Session) (es : List Event) → s.buffer ≡ es → Inv s → Inv (after s (take_event es s))
unfolding take_event
take_event-Inv s [] e v = v
take_event-Inv s (d ∷ es) e v =
    let p =
      ap (phase_from fresh)
        (append_assoc s.received (d ∷ []) es ∙ ap (λ xs. s.received ++ xs) (sym e)) in
    record {
      agrees = subst (λ q. Agrees s.pc q s.state) (sym p) v.agrees;
      within = omega (arith, v.within, ap length e);
    }

-- Every action keeps the protocol.
pub step-Inv : (s : Session) (a : Action) → Inv s → Inv (after s (step s a))
unfolding step
step-Inv s (proceed now) v = advance-Inv s.pc s now v.agrees v
step-Inv s give_up v = abandon-Inv s.pc s v.agrees v
step-Inv s stream_opened v = answer-Inv s.pc stream_opened s v.agrees v
step-Inv s (stream_refused t) v = answer-Inv s.pc (stream_refused t) s v.agrees v
step-Inv s (stream_event d) v = answer-Inv s.pc (stream_event d) s v.agrees v
step-Inv s stream_closed v = answer-Inv s.pc stream_closed s v.agrees v
step-Inv s consume v = take_event-Inv s s.buffer refl v
step-Inv s cancel v = record { agrees = v.agrees; within = v.within }

-- A session that has just been started.
abbrev pub IsStarted : Session → Type 0
IsStarted s = (s.state ≡ running) × (s.pc ≡ at_start) × (s.buffer ≡ []) × (s.received ≡ [])

pub started-Inv : (s : Session) → IsStarted s → Inv s
unfolding phase_from
started-Inv s h = record {
  agrees = rw h.1 (rw (h.2, h.3) (refl, h.0));
  within = rw h.2 (omega arith);
}

pub run-Inv : (s : Session) (as' : List Action) → Inv s → Inv (run s as')
unfolding run
run-Inv s [] v = v
run-Inv s (a ∷ as') v = run-Inv (after s (step s a)) as' (step-Inv s a v)
