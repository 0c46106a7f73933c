-- ===== src/Session/Examples.antt =====
-- internal/session: runs of single sessions and of a manager, and the theorems applied to them.
use agent_cortex.Prelude.{
  ℕ, true, ◌≡◌, refl, false, List, [], ◌∷◌, none, some, length, arith, ap, ◌+◌, if◌then◌else◌,
  bytes_eq,
}
use agent_cortex.Strings.{
  is_empty, trim_space, trim_left, trim_right, trim_from, space_width, space_width_back,
}
use agent_cortex.Prelude.Int.{pos}
use agent_cortex.Prelude.Text.{codes}
use agent_cortex.Session.Types.{
  interrupted, completed, terminal, was_interrupted, StreamEvent, no_usage, ok,
}
use agent_cortex.Session.Goroutine.{
  Session, Action, proceed, stream_opened, stream_event, stream_closed, stream_refused, give_up,
  consume, cancel, step, advance, abandon, answer, take_event, finish, receive,
}
use agent_cortex.Session.Goroutine.Protocol.{run, run-Inv, started-Inv, phase, sent, Closes}
use agent_cortex.Session.Goroutine.Outcome.{session_outcome, session-IsSettled, IsSettled}
use agent_cortex.Session.Goroutine.Draining.{IsRound, run_rounds, canceled_ends}
use agent_cortex.Session.Goroutine.Stuck.{unread-IsStuck, IsStuck}
use agent_cortex.Session.Manager.{
  Manager, StartRequest, start, find, cleanup_expired, new_session, is_stale, start_locked,
  active_sessions,
}
use agent_cortex.Session.Manager.History.{
  start_call, interrupt_call, close_call, session_call, replay, replay-IsSound, IsSound,
}
use agent_cortex.Session.Manager.Registration.{start_registers, IsRegistered, key}
use agent_cortex.Session.Manager.Cleanup.{cleanup_exact, UniqueIds}

abbrev empty_manager : Manager
empty_manager = record {
  session_ttl = pos 100;
  event_buffer_size = pos 2;
  max_active_sessions = pos 1;
  closed = false;
  sessions = [];
}

abbrev one_session : Session
one_session = new_session empty_manager (codes "s") [] (pos 5)

abbrev hello : StreamEvent
hello = record {
  text = codes "hello";
  tool_call = none;
  finish_reason = [];
  model = [];
  usage = no_usage;
  raw_id = [];
  err = none;
}

-- A stream of one text delta, read to its end.
abbrev full_run : List Action
full_run =
    proceed (pos 6)
    ∷ stream_opened
    ∷ stream_event hello
    ∷ proceed (pos 7)
    ∷ stream_closed
    ∷ proceed (pos 8)
    ∷ consume
    ∷ proceed (pos 8)
    ∷ proceed (pos 9)
    ∷ []

full_run_state : (run one_session full_run).state ≡ completed
unfolding run step advance abandon answer take_event finish receive
full_run_state = refl

-- A cancelled session whose two places in the channel are taken.
abbrev stuck_run : List Action
stuck_run =
    proceed (pos 6)
    ∷ stream_opened
    ∷ stream_event hello
    ∷ proceed (pos 7)
    ∷ cancel
    ∷ stream_closed
    ∷ proceed (pos 8)
    ∷ []

stuck_run-IsStuck : IsStuck was_interrupted interrupted [] (run one_session stuck_run)
unfolding run step advance abandon answer take_event finish receive
stuck_run-IsStuck = (refl, refl, refl)

session_outcome_example : Closes (phase (run one_session full_run)) (run one_session full_run).state
session_outcome_example =
    session_outcome one_session full_run (refl, refl, refl, refl) (ap terminal full_run_state)

session-IsSettled_example :
    IsSettled
      (run one_session full_run).state
      (run one_session full_run).err_text
      (sent (run one_session full_run))
      (run (run one_session full_run) (cancel ∷ consume ∷ []))
session-IsSettled_example =
    session-IsSettled one_session full_run (cancel ∷ consume ∷ []) (refl, refl, refl, refl)
      (ap terminal full_run_state)

unread-IsStuck_example :
    IsStuck was_interrupted interrupted []
      (run (run one_session stuck_run) (proceed (pos 9) ∷ cancel ∷ []))
unread-IsStuck_example =
    unread-IsStuck was_interrupted interrupted [] (run one_session stuck_run)
      (proceed (pos 9) ∷ cancel ∷ []) stuck_run-IsStuck ((λ e. cc), ((λ e. cc), tt))

abbrev a_request : StartRequest
a_request = record { session_id = codes " s "; metadata = [] }

abbrev b_request : StartRequest
b_request = record { session_id = codes "t"; metadata = [] }

empty_manager-IsSound : IsSound 0 empty_manager
unfolding active_sessions
empty_manager-IsSound = record { limit_set = refl; within = omega arith; each = tt }

replay-IsSound_example : IsSound 0 (
    replay empty_manager (
      start_call false (pos 5) a_request
      ∷ start_call false (pos 6) b_request
      ∷ session_call (codes "s") (proceed (pos 7))
      ∷ interrupt_call (codes "s")
      ∷ close_call
      ∷ []))
replay-IsSound_example =
    replay-IsSound 0 empty_manager
      (start_call false (pos 5) a_request
        ∷ start_call false (pos 6) b_request
        ∷ session_call (codes "s") (proceed (pos 7))
        ∷ interrupt_call (codes "s")
        ∷ close_call
        ∷ [])
      empty_manager-IsSound

a_started : (start empty_manager false (pos 5) a_request).1 ≡ ok (codes "s")
unfolding start start_locked trim_space trim_left trim_right trim_from space_width space_width_back
    find active_sessions
a_started = refl

start_registers_example :
    (codes "s" ≡ key a_request)
    × IsRegistered empty_manager (pos 5) a_request (start empty_manager false (pos 5) a_request).0
start_registers_example =
    start_registers empty_manager false (pos 5) a_request (codes "s") a_started

-- A manager with one session that is over and one that runs.
abbrev over : Session
over = record one_session { state = completed }

abbrev two_sessions : Manager
two_sessions = record empty_manager { sessions = (codes "s", over) ∷ (codes "t", one_session) ∷ [] }

s_found : find (codes "s") two_sessions.sessions ≡ some over
unfolding find bytes_eq
s_found = refl

t_found : find (codes "t") two_sessions.sessions ≡ some one_session
unfolding find bytes_eq
t_found = refl

two_sessions_unique : UniqueIds two_sessions.sessions
unfolding find bytes_eq
two_sessions_unique = (refl, (refl, tt))

cleanup_exact_example :
    (find (codes "s") (cleanup_expired two_sessions (pos 200)).0.sessions
      ≡ (if is_stale (pos 100) (pos 200) over then none else some over))
    × ((cleanup_expired two_sessions (pos 200)).1
          + length (cleanup_expired two_sessions (pos 200)).0.sessions
        ≡ 2)
cleanup_exact_example =
    cleanup_exact two_sessions (pos 200) (codes "s") over two_sessions_unique s_found

b_named : is_empty (key b_request) ≡ false
unfolding trim_space trim_left trim_right trim_from space_width space_width_back
b_named = refl

stuck_run_cancelled : (run one_session stuck_run).canceled ≡ true
unfolding run step advance abandon answer take_event finish receive
stuck_run_cancelled = refl

stuck_run_capacity : (run one_session stuck_run).capacity ≡ 2
unfolding run step advance abandon answer take_event finish receive
stuck_run_capacity = refl

-- The consumer comes first and the goroutine last, with the clock going on.
abbrev turns : ℕ → List Action
turns n = consume ∷ stream_closed ∷ cancel ∷ stream_refused [] ∷ give_up ∷ proceed (pos n) ∷ []

turns-IsRound : (n : ℕ) → IsRound (turns n)
turns-IsRound n = record {
  quiet = (refl, (refl, (refl, (refl, (refl, (refl, tt))))));
  proceeds = refl;
  gives_up = refl;
  refuses = refl;
  closes = refl;
  receives = refl;
}

abbrev seven_rounds : List (List Action)
seven_rounds = turns 9 ∷ turns 10 ∷ turns 11 ∷ turns 12 ∷ turns 13 ∷ turns 14 ∷ turns 15 ∷ []

canceled_ends_example : terminal (run_rounds (run one_session stuck_run) seven_rounds).state ≡ true
canceled_ends_example =
    canceled_ends (run one_session stuck_run) seven_rounds
      (run-Inv one_session stuck_run (started-Inv one_session (refl, refl, refl, refl)))
      (rw stuck_run_capacity (omega arith)) stuck_run_cancelled
      (
        turns-IsRound 9,
        (
          turns-IsRound 10,
          (
            turns-IsRound 11,
            (turns-IsRound 12, (turns-IsRound 13, (turns-IsRound 14, (turns-IsRound 15, tt)))),
          ),
        ),
      )
      (omega arith)
