-- ===== src/Session/Manager/Registration.antt =====
-- internal/session/manager.go, `Start`: what a successful call leaves behind.
use agent_cortex.Prelude.{
  ◌≡◌, refl, sym, ap, ◌∙◌, Bool, false, Bytes, bytes_eq, bytes_eq_iff, [], some, if◌then◌else◌,
  arith,
}
use mathlib.Core.Path.{subst}
use agent_cortex.RateLimit.Types.{Time}
use agent_cortex.Strings.{trim_space, is_empty}
use agent_cortex.Session.Types.{running, ok, err, Metadata, session_exists}
use agent_cortex.Session.Goroutine.{Session}
use agent_cortex.Session.Manager.{
  Manager, StartRequest, Sessions, find, put, is_expired, start, start_locked, new_session, Status,
  status,
}
use agent_cortex.Session.Manager.Sessions.{find-put}

-- The identifier that a call reads.
abbrev pub key : StartRequest → Bytes
key r = trim_space r.session_id

start_locked-registers :
    (m : Manager) (id j : Bytes) (metadata : Metadata) (now : Time)
    → (start_locked m id metadata now).1 ≡ ok j
    → (start_locked m id metadata now).0
        ≡ record m { sessions = put id (new_session m id metadata now) m.sessions }
      × (m.closed ≡ false)
      × (j ≡ id)
unfolding start_locked
start_locked-registers m id j metadata now h = ground arith

find-put_self : (k : Bytes) (s : Session) (m : Sessions) → find k (put k s m) ≡ some s
find-put_self k s m = ground (arith, find-put k k s m, bytes_eq_iff k k)

-- The status of a session that has been started and has done nothing yet.
abbrev pub fresh_status : StartRequest → Time → Status
fresh_status r now = record {
  session_id = trim_space r.session_id;
  state = running;
  started_at = now;
  updated_at = now;
  metadata = r.metadata;
  err_text = [];
}

start_locked_again :
    (m : Manager) (s : Session) (id : Bytes) (metadata : Metadata) (now : Time)
    → m.closed ≡ false
    → find id m.sessions ≡ some s
    → is_expired s.state ≡ false
    → start_locked m id metadata now ≡ (m, err session_exists)
unfolding start_locked
start_locked_again m s id metadata now c f e = ground (arith, c, f, e)

start-registers_locked :
    (m : Manager) (done : Bool) (now : Time) (r : StartRequest) (j : Bytes)
    → (start m done now r).1 ≡ ok j
    → (is_empty (key r) ≡ false)
      × (done ≡ false)
      × (start m done now r ≡ start_locked m (key r) r.metadata now)
unfolding start
start-registers_locked m done now r j h = ground arith

-- The manager with the session that `Start` makes.
abbrev pub registered : Manager → Time → StartRequest → Manager
registered m now r = record m {
  sessions = put (key r) (new_session m (key r) r.metadata now) m.sessions;
}

status-registered :
    (m : Manager) (now : Time) (r : StartRequest)
    → is_empty (key r) ≡ false
    → status (registered m now r) r.session_id ≡ ok (fresh_status r now)
unfolding status
status-registered m now r e =
    ground (arith, e, find-put_self (key r) (new_session m (key r) r.metadata now) m.sessions)

start-registered :
    (m : Manager) (now later : Time) (r : StartRequest)
    → is_empty (key r) ≡ false
    → m.closed ≡ false
    → start (registered m now r) false later r ≡ (registered m now r, err session_exists)
unfolding start
start-registered m now later r e c =
    let s = new_session m (key r) r.metadata now in
    ground (
      arith,
      e,
      start_locked_again (registered m now r) s (key r) r.metadata later c
          (find-put_self (key r) s m.sessions) refl,
    )

-- What holds of a manager on which `Start` has begun the session of a request.
abbrev pub IsRegistered : Manager → Time → StartRequest → Manager → Type 0
IsRegistered m now r n =
    (status n r.session_id ≡ ok (fresh_status r now))
    × ((k : Bytes)
        → find k n.sessions ≡ (
            if bytes_eq (key r) k
            then some (new_session m (key r) r.metadata now)
            else find k m.sessions))
    × ((later : Time) → start n false later r ≡ (n, err session_exists))

registered-IsRegistered :
    (m : Manager) (now : Time) (r : StartRequest)
    → is_empty (key r) ≡ false
    → m.closed ≡ false
    → IsRegistered m now r (registered m now r)
registered-IsRegistered m now r e c = (
  status-registered m now r e,
  λ k. find-put (key r) k (new_session m (key r) r.metadata now) m.sessions,
  λ later. start-registered m now later r e c,
)

-- A `Start` that succeeds answers with the trimmed identifier; afterwards `Status` tells of a running
-- session begun at that moment, every other session stands as before, and a second `Start` with the
-- same identifier answers that the session exists and changes nothing.
pub start_registers :
    (m : Manager) (done : Bool) (now : Time) (r : StartRequest) (j : Bytes)
    → (start m done now r).1 ≡ ok j
    → (j ≡ key r) × IsRegistered m now r (start m done now r).0
start_registers m done now r j h =
    let p = start-registers_locked m done now r j h in
    let q = start_locked-registers m (key r) j r.metadata now (sym (ap (λ x. x.1) p.2) ∙ h) in
    (
      q.2,
      subst (IsRegistered m now r) (sym (ap (λ x. x.0) p.2 ∙ q.0))
          (registered-IsRegistered m now r p.0 q.1),
    )
