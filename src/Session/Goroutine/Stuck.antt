-- ===== src/Session/Goroutine/Stuck.antt =====
-- internal/session/manager.go, `sendTerminal`: a session whose consumer is gone.
use agent_cortex.Prelude.{◌≡◌, refl, sym, ◌≢◌, false, Bytes, List, [], ◌∷◌, All, Option, none}
use mathlib.Core.Path.{subst}
use agent_cortex.RateLimit.Types.{Time}
use agent_cortex.Session.Types.{State, running, EventType}
use agent_cortex.Session.Goroutine.{
  Pc, at_terminal, Session, Action, proceed, give_up, stream_opened, stream_refused, stream_event,
  stream_closed, consume, cancel, step, advance, abandon, answer, room,
}
use agent_cortex.Session.Goroutine.Protocol.{run, after}

-- Nobody receives.
abbrev pub IsUnread : List Action → Type 0
IsUnread = All (λ a. a ≢ consume)

-- The goroutine waits in `sendTerminal` for room that is not there.
abbrev pub IsStuck : EventType → State → Bytes → Session → Type 0
IsStuck kind final t s = (s.pc ≡ at_terminal kind final t) × (s.state ≡ running) × (room s ≡ false)

module _ (kind : EventType) (final : State) (t : Bytes) where
  advance-stuck :
      (pc : Pc) (s : Session) (now : Time)
      → pc ≡ at_terminal kind final t
      → room s ≡ false
      → advance pc s now ≡ none
  unfolding advance
  advance-stuck pc s now e r = rw (e, r) refl

  abandon-stuck : (pc : Pc) (s : Session) → pc ≡ at_terminal kind final t → abandon pc s ≡ none
  unfolding abandon
  abandon-stuck pc s e = rw e refl

  answer-stuck :
      (pc : Pc) (a : Action) (s : Session) → pc ≡ at_terminal kind final t → answer pc a s ≡ none
  unfolding answer
  answer-stuck pc a s e = rw e refl

  stay :
      (s : Session) (o : Option Session)
      → o ≡ none
      → IsStuck kind final t s
      → IsStuck kind final t (after s o)
  stay s o e h = subst (λ p. IsStuck kind final t (after s p)) (sym e) h

  step-IsStuck :
      (s : Session) (a : Action)
      → a ≢ consume
      → IsStuck kind final t s
      → IsStuck kind final t (after s (step s a))
  unfolding step
  step-IsStuck s (proceed now) u h =
      stay s (advance s.pc s now) (advance-stuck s.pc s now h.0 h.2) h
  step-IsStuck s give_up u h = stay s (abandon s.pc s) (abandon-stuck s.pc s h.0) h
  step-IsStuck s consume u h = absurd (u refl)
  step-IsStuck s cancel u h = h
  step-IsStuck s stream_opened u h =
      stay s (answer s.pc stream_opened s) (answer-stuck s.pc stream_opened s h.0) h
  step-IsStuck s (stream_refused e) u h =
      stay s (answer s.pc (stream_refused e) s) (answer-stuck s.pc (stream_refused e) s h.0) h
  step-IsStuck s (stream_event e) u h =
      stay s (answer s.pc (stream_event e) s) (answer-stuck s.pc (stream_event e) s h.0) h
  step-IsStuck s stream_closed u h =
      stay s (answer s.pc stream_closed s) (answer-stuck s.pc stream_closed s h.0) h

  -- A session that waits to send its closing event into a full channel stays running for as long as
  -- nobody receives, also when it is cancelled meanwhile.
  pub unread-IsStuck :
      (s : Session) (as' : List Action)
      → IsStuck kind final t s
      → IsUnread as'
      → IsStuck kind final t (run s as')
  unfolding run
  unread-IsStuck s [] h u = h
  unread-IsStuck s (a ∷ as') h u =
      unread-IsStuck (after s (step s a)) as' (step-IsStuck s a u.0 h) u.1
