-- ===== src/Session/Goroutine/Capacity.antt =====
-- internal/session/manager.go: the capacity of a session's channel, fixed by `make`.
use agent_cortex.Prelude.{
  ◌≡◌, refl, ◌∙◌, inl, inr, Bool, true, false, Bytes, List, [], ◌∷◌, Option, none, some,
  if◌then◌else◌, Bool-cases,
}
use agent_cortex.RateLimit.Types.{Time}
use agent_cortex.Session.Types.{
  State, interrupted, terminal, started, text_delta, tool_delta, StreamEvent, Event, plain_event,
  event_from_stream,
}
use agent_cortex.Session.Goroutine.{
  Pc, at_start, at_stream_call, at_receive, at_text, at_tool, at_check, at_terminal, at_finish,
  at_end, Session, Action, proceed, give_up, stream_opened, stream_refused, stream_event,
  stream_closed, consume, cancel, step, advance, abandon, answer, take_event, finish, room, enqueue,
  refuse, receive, after_text,
}
use agent_cortex.Session.Goroutine.Protocol.{run, after}

gated-capacity :
    (b : Bool) (s t : Session)
    → t.capacity ≡ s.capacity
    → (after s (if b then some t else none)).capacity ≡ s.capacity
gated-capacity true s t e = e
gated-capacity false s t e = refl

finish-capacity :
    (b : Bool) (s : Session) (final : State) (now : Time) (t : Bytes)
    → (if b then s else record s { state = final; updated_at = now; err_text = t }).capacity
      ≡ s.capacity
finish-capacity true s final now t = refl
finish-capacity false s final now t = refl

capacity-advance :
    (pc : Pc) (s : Session) (now : Time) → (after s (advance pc s now)).capacity ≡ s.capacity
unfolding advance finish
capacity-advance at_start s now =
    gated-capacity (room s) s (enqueue s (plain_event s.id now started []) at_stream_call) refl
capacity-advance at_stream_call s now = refl
capacity-advance at_receive s now = refl
capacity-advance (at_text d) s now =
    gated-capacity (room s) s (enqueue s (event_from_stream s.id now text_delta d) (after_text d))
      refl
capacity-advance (at_tool d) s now =
    gated-capacity (room s) s (enqueue s (event_from_stream s.id now tool_delta d) at_receive) refl
capacity-advance at_check s now = elim (Bool-cases s.canceled) [
  | inl c ↦ rw c refl
  | inr c ↦ rw c refl
]
capacity-advance (at_terminal kind final t) s now =
    gated-capacity (room s) s (enqueue s (plain_event s.id now kind t) (at_finish final t)) refl
capacity-advance (at_finish final t) s now =
    finish-capacity (terminal s.state) (record s { pc = at_end }) final now t
capacity-advance at_end s now = refl

capacity-abandon : (pc : Pc) (s : Session) → (after s (abandon pc s)).capacity ≡ s.capacity
unfolding abandon
capacity-abandon at_start s =
    gated-capacity s.canceled s (record s { pc = at_finish interrupted [] }) refl
capacity-abandon (at_text d) s =
    gated-capacity s.canceled s (record s { pc = at_finish interrupted [] }) refl
capacity-abandon (at_tool d) s =
    gated-capacity s.canceled s (record s { pc = at_finish interrupted [] }) refl
capacity-abandon _ s = refl

capacity-refuse : (s : Session) (t : Bytes) → (refuse s t).capacity ≡ s.capacity
unfolding refuse
capacity-refuse s t = elim (Bool-cases s.canceled) [ inl c ↦ rw c refl | inr c ↦ rw c refl ]

capacity-receive :
    (o : Option Bytes) (s : Session) (d : StreamEvent) → (receive o s d).capacity ≡ s.capacity
unfolding receive
capacity-receive none s d = refl
capacity-receive (some t) s d = refl

capacity-answer :
    (pc : Pc) (a : Action) (s : Session) → (after s (answer pc a s)).capacity ≡ s.capacity
unfolding answer
capacity-answer at_stream_call stream_opened s = refl
capacity-answer at_stream_call (stream_refused t) s = capacity-refuse s t
capacity-answer at_receive (stream_event d) s = capacity-receive d.err s d
capacity-answer at_receive stream_closed s = refl
capacity-answer _ _ s = refl

capacity-take_event :
    (b : List Event) (s : Session) → (after s (take_event b s)).capacity ≡ s.capacity
unfolding take_event
capacity-take_event [] s = refl
capacity-take_event (d ∷ b) s = refl

pub capacity-step : (s : Session) (a : Action) → (after s (step s a)).capacity ≡ s.capacity
unfolding step
capacity-step s (proceed now) = capacity-advance s.pc s now
capacity-step s give_up = capacity-abandon s.pc s
capacity-step s stream_opened = capacity-answer s.pc stream_opened s
capacity-step s (stream_refused t) = capacity-answer s.pc (stream_refused t) s
capacity-step s (stream_event d) = capacity-answer s.pc (stream_event d) s
capacity-step s stream_closed = capacity-answer s.pc stream_closed s
capacity-step s consume = capacity-take_event s.buffer s
capacity-step s cancel = refl

pub capacity-run : (s : Session) (as' : List Action) → (run s as').capacity ≡ s.capacity
unfolding run
capacity-run s [] = refl
capacity-run s (a ∷ as') = capacity-run (after s (step s a)) as' ∙ capacity-step s a
