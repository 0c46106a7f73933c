-- ===== src/Session/Goroutine.antt =====
-- internal/session/manager.go, `runSession`: the goroutine of one session, step by step. An action
-- is what happens next: the goroutine takes its next step, a `select` takes its `ctx.Done()` branch,
-- the model's stream answers, the consumer receives, or the context is cancelled.
pub mod Protocol
pub mod Capacity
pub mod Outcome
pub mod Stuck
pub mod Turns
pub mod Draining
use agent_cortex.Prelude.{
  ℕ, Bool, true, false, ◌&&◌, ◌||◌, not, Bytes, List, [], ◌∷◌, ◌++◌, Option, none, some, ltb,
  length, if◌then◌else◌,
}
use agent_cortex.Strings.{is_empty}
use agent_cortex.RateLimit.Types.{Time}
use agent_cortex.Session.Types.{
  State, running, interrupted, completed, failed, terminal, EventType, started, text_delta,
  tool_delta, finished, was_interrupted, has_failed, StreamEvent, Event, ToolCallDelta, plain_event,
  event_from_stream,
}

-- Where the goroutine stands. A stream event is sent in up to two parts.
pub data Pc : Type 0 where
  at_start : Pc
  at_stream_call : Pc
  at_receive : Pc
  at_text : StreamEvent → Pc
  at_tool : StreamEvent → Pc
  at_check : Pc
  at_terminal : EventType → State → Bytes → Pc
  at_finish : State → Bytes → Pc
  at_end : Pc

pub record Session : Type 0 where
  pub id : Bytes
  pub state : State
  pub started_at : Time
  pub updated_at : Time
  pub metadata : List (Bytes × Bytes)
  pub err_text : Bytes
  -- `ctx.Err() != nil` of the session's context
  pub canceled : Bool
  -- the channel: its capacity, what it holds, and what has been received from it
  pub capacity : ℕ
  pub buffer : List Event
  pub received : List Event
  pub pc : Pc

pub data Action : Type 0 where
  proceed : Time → Action
  give_up : Action
  stream_opened : Action
  stream_refused : Bytes → Action
  stream_event : StreamEvent → Action
  stream_closed : Action
  consume : Action
  cancel : Action

abbrev pub room : Session → Bool
room s = ltb (length s.buffer) s.capacity

abbrev pub enqueue : Session → Event → Pc → Session
enqueue s e next = record s { buffer = s.buffer ++ e ∷ []; pc = next }

abbrev pub has_tool_call : Option ToolCallDelta → Bool
has_tool_call none = false
has_tool_call (some c) = true

-- The part of the loop body behind the error check.
abbrev pub after_text : StreamEvent → Pc
after_text e = if has_tool_call e.tool_call then at_tool e else at_receive

abbrev pub after_receive : StreamEvent → Pc
after_receive e = if is_empty e.text then after_text e else at_text e

-- `finish`
unfoldable pub finish : Session → State → Bytes → Time → Session
finish s final err_text now =
    if terminal s.state
    then s
    else record s { state = final; updated_at = now; err_text = err_text }

-- A send waits for room in the channel.
abbrev pub try_send : Session → Event → Pc → Option Session
try_send s e next = if room s then some (enqueue s e next) else none

-- The goroutine's own step.
unfoldable pub advance : Pc → Session → Time → Option Session
unfolding finish
advance at_start s now = try_send s (plain_event s.id now started []) at_stream_call
advance at_stream_call s now = none
advance at_receive s now = none
advance (at_text e) s now = try_send s (event_from_stream s.id now text_delta e) (after_text e)
advance (at_tool e) s now = try_send s (event_from_stream s.id now tool_delta e) at_receive
advance at_check s now =
    if s.canceled
    then some (record s { pc = at_terminal was_interrupted interrupted [] })
    else some (record s { pc = at_terminal finished completed [] })
advance (at_terminal kind final err_text) s now =
    try_send s (plain_event s.id now kind err_text) (at_finish final err_text)
advance (at_finish final err_text) s now =
    some (finish (record s { pc = at_end }) final err_text now)
advance at_end s now = none

-- The `ctx.Done()` branch of `send`.
unfoldable pub abandon : Pc → Session → Option Session
abandon at_start s = if s.canceled then some (record s { pc = at_finish interrupted [] }) else none
abandon (at_text e) s =
    if s.canceled then some (record s { pc = at_finish interrupted [] }) else none
abandon (at_tool e) s =
    if s.canceled then some (record s { pc = at_finish interrupted [] }) else none
abandon _ s = none

-- An error of `m.client.Stream`.
unfoldable pub refuse : Session → Bytes → Session
refuse s err_text =
    if s.canceled
    then record s { pc = at_terminal was_interrupted interrupted [] }
    else record s { pc = at_terminal has_failed failed err_text }

-- An event of the stream, by its error.
unfoldable pub receive : Option Bytes → Session → StreamEvent → Session
receive (some err_text) s e = record s { pc = at_terminal has_failed failed err_text }
receive none s e = record s { pc = after_receive e }

-- What the stream does, where the goroutine waits for it.
unfoldable pub answer : Pc → Action → Session → Option Session
unfolding refuse receive
answer at_stream_call stream_opened s = some (record s { pc = at_receive })
answer at_stream_call (stream_refused err_text) s = some (refuse s err_text)
answer at_receive (stream_event e) s = some (receive e.err s e)
answer at_receive stream_closed s = some (record s { pc = at_check })
answer _ _ s = none

unfoldable pub take_event : List Event → Session → Option Session
take_event [] s = none
take_event (e ∷ es) s = some (record s { buffer = es; received = s.received ++ e ∷ [] })

-- One action, or `none` where it cannot happen.
unfoldable pub step : Session → Action → Option Session
unfolding advance abandon answer take_event
step s (proceed now) = advance s.pc s now
step s give_up = abandon s.pc s
step s stream_opened = answer s.pc stream_opened s
step s (stream_refused e) = answer s.pc (stream_refused e) s
step s (stream_event e) = answer s.pc (stream_event e) s
step s stream_closed = answer s.pc stream_closed s
step s consume = take_event s.buffer s
step s cancel = some (record s { canceled = true })
