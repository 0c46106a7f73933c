-- ===== src/Session/Manager.antt =====
-- internal/session/manager.go: the manager's operations on its map of sessions. Each one runs under
-- the manager's lock; the goroutines' steps are those of Session/Goroutine.antt.
pub mod Sessions
pub mod History
pub mod Registration
pub mod Cleanup
pub mod Closing
use agent_cortex.Prelude.{
  ℕ, suc, ◌+◌, Bool, true, false, ◌&&◌, ◌||◌, not, Bytes, bytes_eq, List, [], ◌∷◌, Option, none,
  some, leb, ltb, if◌then◌else◌,
}
use agent_cortex.Prelude.Int.{ℤ, pos, pos_part, ltb_ℤ, leb_ℤ}
use agent_cortex.Strings.{trim_space, is_empty}
use agent_cortex.RateLimit.Types.{Time, sub_time}
use agent_cortex.Session.Types.{
  State, running, expired, terminal, Metadata, Error, invalid_config, manager_closed,
  session_exists, session_not_found, too_many_sessions, invalid_session_id, context_done, Result,
  ok, err,
}
use agent_cortex.Session.Goroutine.{Session, at_start}

-- `Config`, without the clock, whose readings are arguments of the calls.
pub record Config : Type 0 where
  pub session_ttl : ℤ
  pub event_buffer_size : ℤ
  pub max_active_sessions : ℤ

-- `m.sessions`: a Go map from identifiers to sessions.
abbrev pub Sessions : Type 0
Sessions = List (Bytes × Session)

pub record Manager : Type 0 where
  pub session_ttl : ℤ
  pub event_buffer_size : ℤ
  pub max_active_sessions : ℤ
  pub closed : Bool
  pub sessions : Sessions

-- `StartRequest`, without the model's request, which goes to the stream as it is.
pub record StartRequest : Type 0 where
  pub session_id : Bytes
  pub metadata : Metadata

pub record Status : Type 0 where
  pub session_id : Bytes
  pub state : State
  pub started_at : Time
  pub updated_at : Time
  pub metadata : Metadata
  pub err_text : Bytes

abbrev pub default_session_ttl : ℤ
default_session_ttl = pos 600000000000

abbrev pub default_event_buffer_size : ℤ
default_event_buffer_size = pos 32

abbrev pub positive_or : ℤ → ℤ → ℤ
positive_or z default = if leb_ℤ z (pos 0) then default else z

-- `NewManager`, by whether there is a client.
unfoldable pub new_manager : Bool → Config → Result Manager
new_manager false config = err invalid_config
new_manager true config =
    if ltb_ℤ config.max_active_sessions (pos 0)
    then err invalid_config
    else ok (record {
      session_ttl = positive_or config.session_ttl default_session_ttl;
      event_buffer_size = positive_or config.event_buffer_size default_event_buffer_size;
      max_active_sessions = config.max_active_sessions;
      closed = false;
      sessions = [];
    })

unfoldable pub find : Bytes → Sessions → Option Session
find k [] = none
find k ((j, s) ∷ m) = if bytes_eq j k then some s else find k m

unfoldable pub put : Bytes → Session → Sessions → Sessions
put k s [] = (k, s) ∷ []
put k s ((j, t) ∷ m) = if bytes_eq j k then (j, s) ∷ m else (j, t) ∷ put k s m

abbrev pub is_expired : State → Bool
is_expired expired = true
is_expired _ = false

abbrev pub weight : Session → ℕ
weight s = if terminal s.state then 0 else 1

-- `activeSessionsLocked`
unfoldable pub active_sessions : Sessions → ℕ
active_sessions [] = 0
active_sessions ((k, s) ∷ m) = weight s + active_sessions m

-- The session that `Start` makes.
abbrev pub new_session : Manager → Bytes → Metadata → Time → Session
new_session m id metadata now = record {
  id = id;
  state = running;
  started_at = now;
  updated_at = now;
  metadata = metadata;
  err_text = [];
  canceled = false;
  capacity = pos_part m.event_buffer_size;
  buffer = [];
  received = [];
  pc = at_start;
}

-- `if existing, ok := m.sessions[id]; ok && existing.state != StateExpired`
abbrev pub is_taken : Option Session → Bool
is_taken none = false
is_taken (some s) = not (is_expired s.state)

abbrev pub is_crowded : Manager → Bool
is_crowded m =
    ltb_ℤ (pos 0) m.max_active_sessions
    && leb_ℤ m.max_active_sessions (pos (active_sessions m.sessions))

-- What `Start` does under the lock.
unfoldable pub start_locked : Manager → Bytes → Metadata → Time → Manager × Result Bytes
start_locked m id metadata now =
    if m.closed
    then (m, err manager_closed)
    else if is_taken (find id m.sessions)
    then (m, err session_exists)
    else if is_crowded m
    then (m, err too_many_sessions)
    else (record m { sessions = put id (new_session m id metadata now) m.sessions }, ok id)

-- `Start`, by whether the caller's context is done.
unfoldable pub start : Manager → Bool → Time → StartRequest → Manager × Result Bytes
unfolding start_locked
start m done now request =
    let id = trim_space request.session_id in
    if is_empty id
    then (m, err invalid_session_id)
    else if done
    then (m, err context_done)
    else start_locked m id request.metadata now

abbrev pub cancel_session : Session → Session
cancel_session s = record s { canceled = true }

unfoldable pub interrupt_found : Manager → Bytes → Option Session → Manager × Option Error
interrupt_found m id none = (m, some session_not_found)
interrupt_found m id (some s) =
    if terminal s.state
    then (m, none)
    else (record m { sessions = put id (cancel_session s) m.sessions }, none)

-- `Interrupt`
unfoldable pub interrupt : Manager → Bytes → Manager × Option Error
unfolding interrupt_found
interrupt m session_id =
    let id = trim_space session_id in
    if is_empty id then (m, some invalid_session_id) else interrupt_found m id (find id m.sessions)

-- `statusFromState`
abbrev pub status_from_state : Session → Status
status_from_state s = record {
  session_id = s.id;
  state = s.state;
  started_at = s.started_at;
  updated_at = s.updated_at;
  metadata = s.metadata;
  err_text = s.err_text;
}

abbrev pub status_found : Option Session → Result Status
status_found none = err session_not_found
status_found (some s) = ok (status_from_state s)

-- `Status`
unfoldable pub status : Manager → Bytes → Result Status
status m session_id =
    let id = trim_space session_id in
    if is_empty id then err invalid_session_id else status_found (find id m.sessions)

-- The tests of the loop in `CleanupExpired`.
abbrev pub is_stale : ℤ → Time → Session → Bool
is_stale ttl now s =
    terminal s.state && not (is_expired s.state) && ltb_ℤ ttl (sub_time now s.updated_at)

unfoldable pub keep_fresh : ℤ → Time → Sessions → Sessions
keep_fresh ttl now [] = []
keep_fresh ttl now ((k, s) ∷ m) =
    if is_stale ttl now s then keep_fresh ttl now m else (k, s) ∷ keep_fresh ttl now m

unfoldable pub count_stale : ℤ → Time → Sessions → ℕ
count_stale ttl now [] = 0
count_stale ttl now ((k, s) ∷ m) = (if is_stale ttl now s then 1 else 0) + count_stale ttl now m

-- `CleanupExpired`
unfoldable pub cleanup_expired : Manager → Time → Manager × ℕ
unfolding keep_fresh count_stale
cleanup_expired m now = (
  record m { sessions = keep_fresh m.session_ttl now m.sessions },
  count_stale m.session_ttl now m.sessions,
)

unfoldable pub cancel_active : Sessions → Sessions
cancel_active [] = []
cancel_active ((k, s) ∷ m) = (k, if terminal s.state then s else cancel_session s) ∷ cancel_active m

-- `Close`
unfoldable pub close : Manager → Manager
unfolding cancel_active
close m = if m.closed then m else record m { closed = true; sessions = cancel_active m.sessions }
