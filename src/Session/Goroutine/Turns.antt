-- ===== src/Session/Goroutine/Turns.antt =====
-- internal/session/manager.go: how a cancelled session comes nearer to its end.
use agent_cortex.Prelude.{
  ℕ, zero, suc, ◌≤◌, ◌<◌, ◌≡◌, refl, ◌∙◌, ◌⊎◌, inl, inr, Bool, true, false, Bytes, List, [], ◌∷◌,
  length, arith, by_test,
}
use agent_cortex.RateLimit.Types.{Time}
use agent_cortex.Session.Types.{State, terminal, Event}
use agent_cortex.Session.Goroutine.{
  Pc, at_stream_call, at_receive, at_check, at_terminal, at_finish, at_end, Session, Action,
  proceed, give_up, stream_opened, stream_refused, stream_event, stream_closed, consume, cancel,
  step, advance, abandon, answer, refuse, take_event, finish, room,
}
use agent_cortex.Session.Goroutine.Protocol.{Inv, after, step-Inv}
use agent_cortex.Session.Goroutine.Capacity.{capacity-step}

-- How far the goroutine of a cancelled session is from its end.
unfoldable pub stage : Pc → ℕ
stage at_end = 0
stage (at_finish f t) = 1
stage (at_terminal k f t) = 2
stage at_check = 3
stage at_receive = 4
stage at_stream_call = 5
stage _ = 6

-- Every action but a further event of the stream.
abbrev pub is_quiet : Action → Bool
is_quiet (stream_event e) = false
is_quiet _ = true

pub finish-pc : (s : Session) (f : State) (t : Bytes) (now : Time) → (finish s f t now).pc ≡ s.pc
unfolding finish
finish-pc s f t now =
    by_test (λ r. r.pc ≡ s.pc) (terminal s.state) s
      (record s { state = f; updated_at = now; err_text = t }) (λ _. refl) (λ _. refl)

finish-canceled :
    (s : Session) (f : State) (t : Bytes) (now : Time) → (finish s f t now).canceled ≡ s.canceled
unfolding finish
finish-canceled s f t now =
    by_test (λ r. r.canceled ≡ s.canceled) (terminal s.state) s
      (record s { state = f; updated_at = now; err_text = t }) (λ _. refl) (λ _. refl)

-- A step does not go back, and the context stays cancelled.
abbrev Goes : Session → Session → Type 0
Goes s t = (stage t.pc ≤ stage s.pc) × (t.canceled ≡ true)

advance-Goes :
    (pc : Pc) (s : Session) (now : Time)
    → s.pc ≡ pc
    → s.canceled ≡ true
    → Goes s (after s (advance pc s now))
unfolding advance stage
advance-Goes (at_finish f t) s now e c =
    let u = record s { pc = at_end } in
    rw (finish-pc u f t now) (omega arith, finish-canceled u f t now ∙ c)
advance-Goes pc s now e c = ground (arith, e, c)

abandon-Goes :
    (pc : Pc) (s : Session) → s.pc ≡ pc → s.canceled ≡ true → Goes s (after s (abandon pc s))
unfolding abandon stage
abandon-Goes pc s e c = ground (arith, e, c)

answer-Goes :
    (pc : Pc) (a : Action) (s : Session)
    → s.pc ≡ pc
    → s.canceled ≡ true
    → is_quiet a ≡ true
    → Goes s (after s (answer pc a s))
unfolding answer refuse stage
answer-Goes pc a s e c q = ground (arith, e, c, q)

take_event-Goes :
    (b : List Event) (s : Session) → s.canceled ≡ true → Goes s (after s (take_event b s))
unfolding take_event
take_event-Goes b s c = ground (arith, c)

step-Goes :
    (s : Session) (a : Action) → s.canceled ≡ true → is_quiet a ≡ true → Goes s (after s (step s a))
unfolding step
step-Goes s (proceed now) c q = advance-Goes s.pc s now refl c
step-Goes s give_up c q = abandon-Goes s.pc s refl c
step-Goes s stream_opened c q = answer-Goes s.pc stream_opened s refl c refl
step-Goes s (stream_refused t) c q = answer-Goes s.pc (stream_refused t) s refl c refl
step-Goes s (stream_event d) c q = ground (arith, q)
step-Goes s stream_closed c q = answer-Goes s.pc stream_closed s refl c refl
step-Goes s consume c q = take_event-Goes s.buffer s c
step-Goes s cancel c q = (omega arith, refl)

-- The goroutine keeps to the protocol, its channel holds at least one event, and its context is cancelled.
pub record IsWinding (s : Session) : Type 0 where
  pub protocol : Inv s
  pub some_room : 0 < s.capacity
  pub canceled : s.canceled ≡ true

pub step-IsWinding :
    (s : Session) (a : Action) → is_quiet a ≡ true → IsWinding s → IsWinding (after s (step s a))
step-IsWinding s a q w = record {
  protocol = step-Inv s a w.protocol;
  some_room = omega (arith, w.some_room, capacity-step s a);
  canceled = (step-Goes s a w.canceled q).1;
}

-- Behind the last check, with room for the closing event if that is still to be sent.
abbrev Sends : Session → Type 0
Sends s = (stage s.pc ≤ 1) ⊎ ((stage s.pc ≤ 2) × (room s ≡ true))

-- The number of turns that the session may still need.
unfoldable pub Level : ℕ → Session → Type 0
Level zero s = stage s.pc ≤ 0
Level (suc zero) s = stage s.pc ≤ 1
Level (suc (suc zero)) s = Sends s
Level (suc (suc (suc n))) s = stage s.pc ≤ suc (suc n)

pub advance-Sends :
    (pc : Pc) (s : Session) (now : Time)
    → s.pc ≡ pc
    → stage s.pc ≤ 2
    → room s ≡ true
    → stage (after s (advance pc s now)).pc ≤ 1
unfolding advance stage
advance-Sends (at_finish f t) s now e h r =
    rw (finish-pc (record s { pc = at_end }) f t now) (omega arith)
advance-Sends pc s now e h r = ground (arith, e)

abandon-Sends :
    (pc : Pc) (s : Session)
    → s.pc ≡ pc
    → stage s.pc ≤ 2
    → room s ≡ true
    → Sends (after s (abandon pc s))
unfolding abandon stage
abandon-Sends pc s e h r = ground (arith, e)

answer-Sends :
    (pc : Pc) (a : Action) (s : Session)
    → s.pc ≡ pc
    → stage s.pc ≤ 2
    → room s ≡ true
    → Sends (after s (answer pc a s))
unfolding answer stage
answer-Sends pc a s e h r = ground (arith, e)

-- Receiving makes room and moves nothing else.
consumed :
    (b : List Event) (s : Session)
    → s.buffer ≡ b
    → 0 < s.capacity
    → length s.buffer ≤ s.capacity
    → ((after s (take_event b s)).pc ≡ s.pc) × (room (after s (take_event b s)) ≡ true)
unfolding take_event
consumed [] s e c l = ground (arith, e)
consumed (d ∷ b) s e c l = ground (arith, e)

pub consume-Sends : (s : Session) → IsWinding s → stage s.pc ≤ 2 → Sends (after s (step s consume))
unfolding step
consume-Sends s w h =
    let (e, r) = consumed s.buffer s refl w.some_room w.protocol.within in inr (rw e h, r)

room-Sends :
    (s : Session) (a : Action)
    → IsWinding s
    → stage s.pc ≤ 2
    → room s ≡ true
    → Sends (after s (step s a))
unfolding step
room-Sends s (proceed now) w h r = inl (advance-Sends s.pc s now refl h r)
room-Sends s give_up w h r = abandon-Sends s.pc s refl h r
room-Sends s stream_opened w h r = answer-Sends s.pc stream_opened s refl h r
room-Sends s (stream_refused t) w h r = answer-Sends s.pc (stream_refused t) s refl h r
room-Sends s (stream_event d) w h r = answer-Sends s.pc (stream_event d) s refl h r
room-Sends s stream_closed w h r = answer-Sends s.pc stream_closed s refl h r
room-Sends s consume w h r = consume-Sends s w h
room-Sends s cancel w h r = inr (h, r)

-- No quiet action takes a session back.
pub step-Level :
    (n : ℕ) (s : Session) (a : Action)
    → is_quiet a ≡ true
    → IsWinding s
    → Level n s
    → Level n (after s (step s a))
unfolding Level
step-Level zero s a q w h = omega (arith, h, (step-Goes s a w.canceled q).0)
step-Level (suc zero) s a q w h = omega (arith, h, (step-Goes s a w.canceled q).0)
step-Level (suc (suc zero)) s a q w (inl h) = inl (omega (arith, h, (step-Goes s a w.canceled q).0))
step-Level (suc (suc zero)) s a q w (inr h) = room-Sends s a w h.0 h.1
step-Level (suc (suc (suc n))) s a q w h = omega (arith, h, (step-Goes s a w.canceled q).0)
