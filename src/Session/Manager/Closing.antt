-- ===== src/Session/Manager/Closing.antt =====
-- internal/session/manager.go, `Close`.
use agent_cortex.Prelude.{◌≡◌, true, false, Bytes, [], ◌∷◌, some, if◌then◌else◌, arith}
use agent_cortex.RateLimit.Types.{Time}
use agent_cortex.Strings.{is_empty}
use agent_cortex.Session.Types.{terminal, err, Metadata, manager_closed}
use agent_cortex.Session.Goroutine.{Session}
use agent_cortex.Session.Manager.{
  Manager, StartRequest, Sessions, find, cancel_active, cancel_session, start, start_locked, close,
}
use agent_cortex.Session.Manager.Registration.{key}

abbrev pub cancel_if_active : Session → Session
cancel_if_active s = if terminal s.state then s else cancel_session s

find-cancel_active :
    (k : Bytes) (s : Session) (m : Sessions)
    → find k m ≡ some s
    → find k (cancel_active m) ≡ some (cancel_if_active s)
unfolding find cancel_active
find-cancel_active k s [] h = cc
find-cancel_active k s ((j, t) ∷ m) h = ground (arith, find-cancel_active k s m)

-- `Close` on an open manager cancels each session that has no final state and leaves the others as
-- they are.
pub close_cancels :
    (m : Manager) (k : Bytes) (s : Session)
    → m.closed ≡ false
    → find k m.sessions ≡ some s
    → find k (close m).sessions ≡ some (cancel_if_active s)
unfolding close
close_cancels m k s c h = ground (arith, c, find-cancel_active k s m.sessions h)

close_closed : (m : Manager) → (close m).closed ≡ true
unfolding close
close_closed m = ground arith

closed_start_locked :
    (m : Manager) (id : Bytes) (metadata : Metadata) (now : Time)
    → m.closed ≡ true
    → start_locked m id metadata now ≡ (m, err manager_closed)
unfolding start_locked
closed_start_locked m id metadata now c = ground (arith, c)

closed_close : (m : Manager) → m.closed ≡ true → close m ≡ m
unfolding close
closed_close m c = ground (arith, c)

closed_start :
    (m : Manager) (now : Time) (r : StartRequest)
    → m.closed ≡ true
    → is_empty (key r) ≡ false
    → start m false now r ≡ (m, err manager_closed)
unfolding start
closed_start m now r c e = ground (arith, e, closed_start_locked m (key r) r.metadata now c)

-- After `Close`, a `Start` with an identifier that is not blank and a context that is not done answers
-- that the manager is closed and changes nothing, and a second `Close` does nothing.
pub close_refuses :
    (m : Manager) (now : Time) (r : StartRequest)
    → is_empty (key r) ≡ false
    → (start (close m) false now r ≡ (close m, err manager_closed)) × (close (close m) ≡ close m)
close_refuses m now r e =
    (closed_start (close m) now r (close_closed m) e, closed_close (close m) (close_closed m))
