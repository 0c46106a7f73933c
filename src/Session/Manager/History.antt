-- ===== src/Session/Manager/History.antt =====
-- internal/session/manager.go: any history of calls on a manager, mixed with steps of its sessions'
-- goroutines, streams and consumers.
use agent_cortex.Prelude.{
  ℕ, suc, ◌≤◌, ◌≡◌, refl, Bool, true, Bytes, List, [], ◌∷◌, Option, none, some, if◌then◌else◌,
  arith, Bool-cases, by_test, inl, inr,
}
use agent_cortex.Prelude.Int.{pos}
use agent_cortex.RateLimit.Types.{Time}
use agent_cortex.Strings.{trim_space}
use agent_cortex.Session.Types.{
  terminal, ok, err, Result, Metadata, manager_closed, session_exists, too_many_sessions,
}
use agent_cortex.Session.Goroutine.{Session, Action, step}
use agent_cortex.Session.Goroutine.Protocol.{Inv, after, step-Inv, started-Inv}
use agent_cortex.Session.Goroutine.Outcome.{step-terminal}
use agent_cortex.Session.Manager.{
  Manager, StartRequest, find, put, weight, active_sessions, cancel_active, cancel_session, start,
  start_locked, is_taken, is_crowded, interrupt, interrupt_found, cleanup_expired, close,
  new_session,
}
use agent_cortex.Session.Manager.Sessions.{
  active_sessions-put, active_sessions-put_old, active_sessions-keep_fresh,
  active_sessions-cancel_active, AllSessions, put-All, find-All, keep_fresh-All, cancel_active-All,
}

-- A call on the manager, or an action of one of its sessions.
pub data Call : Type 0 where
  start_call : Bool → Time → StartRequest → Call
  interrupt_call : Bytes → Call
  cleanup_call : Time → Call
  close_call : Call
  session_call : Bytes → Action → Call

unfoldable pub act_found : Manager → Bytes → Action → Option Session → Manager
act_found m id a none = m
act_found m id a (some s) = record m { sessions = put id (after s (step s a)) m.sessions }

unfoldable pub apply : Manager → Call → Manager
unfolding act_found
apply m (start_call done now request) = (start m done now request).0
apply m (interrupt_call id) = (interrupt m id).0
apply m (cleanup_call now) = (cleanup_expired m now).0
apply m close_call = close m
apply m (session_call id a) = act_found m id a (find id m.sessions)

unfoldable pub replay : Manager → List Call → Manager
replay m [] = m
replay m (c ∷ cs) = replay (apply m c) cs

-- The limit on active sessions is kept, and each session follows the event protocol under its own
-- identifier.
pub record IsSound (limit : ℕ) (m : Manager) : Type 0 where
  pub limit_set : m.max_active_sessions ≡ pos (suc limit)
  pub within : active_sessions m.sessions ≤ suc limit
  pub each : AllSessions (λ k s. Inv s) m.sessions

new_session-Inv :
    (m : Manager) (id : Bytes) (metadata : Metadata) (now : Time)
    → Inv (new_session m id metadata now)
new_session-Inv m id metadata now =
    started-Inv (new_session m id metadata now) (refl, refl, refl, refl)

put-IsSound :
    (limit : ℕ) (m : Manager) (id : Bytes) (s : Session)
    → IsSound limit m
    → active_sessions (put id s m.sessions) ≤ suc limit
    → Inv s
    → IsSound limit (record m { sessions = put id s m.sessions })
put-IsSound limit m id s h w v = record {
  limit_set = h.limit_set;
  within = w;
  each = put-All (λ k t. Inv t) id s m.sessions v h.each;
}

start_locked-IsSound :
    (limit : ℕ) (m : Manager) (id : Bytes) (metadata : Metadata) (now : Time)
    → IsSound limit m
    → IsSound limit (start_locked m id metadata now).0
unfolding start_locked
start_locked-IsSound limit m id metadata now h =
    let P : Manager × Result Bytes → Type 0 = λ p. IsSound limit p.0 in
    let made = new_session m id metadata now in
    let next : Manager = record m { sessions = put id made m.sessions } in
    let crowded : Manager × Result Bytes =
      if is_crowded m then (m, err too_many_sessions) else (next, ok id) in
    let taken : Manager × Result Bytes =
      if is_taken (find id m.sessions) then (m, err session_exists) else crowded in
    by_test P m.closed (m, err manager_closed) taken (λ _. h)
      (λ _.
        by_test P (is_taken (find id m.sessions)) (m, err session_exists) crowded (λ _. h)
          (λ _.
            by_test P (is_crowded m) (m, err too_many_sessions) (next, ok id) (λ _. h)
              (λ f.
                put-IsSound limit m id made h
                  (ground (arith, f, h.limit_set, active_sessions-put id made m.sessions))
                  (new_session-Inv m id metadata now))))

start-IsSound :
    (limit : ℕ) (m : Manager) (done : Bool) (now : Time) (r : StartRequest)
    → IsSound limit m
    → IsSound limit (start m done now r).0
unfolding start
start-IsSound limit m done now r h =
    ground (arith, h, start_locked-IsSound limit m (trim_space r.session_id) r.metadata now h)

cancel_session-Inv : (s : Session) → Inv s → Inv (cancel_session s)
cancel_session-Inv s v = record { agrees = v.agrees; within = v.within }

interrupt_found-IsSound :
    (limit : ℕ) (m : Manager) (id : Bytes) (o : Option Session)
    → find id m.sessions ≡ o
    → IsSound limit m
    → IsSound limit (interrupt_found m id o).0
unfolding interrupt_found
interrupt_found-IsSound limit m id none e h = h
interrupt_found-IsSound limit m id (some s) e h = elim (Bool-cases (terminal s.state)) [
  | inl t ↦ rw t h
  | inr t ↦ rw t (
      put-IsSound limit m id (cancel_session s) h
        (omega (
          arith,
          h.within,
          active_sessions-put_old id (cancel_session s) s m.sessions e (omega arith),
        ))
        (cancel_session-Inv s (find-All (λ k t. Inv t) id s m.sessions e h.each)))
]

interrupt-IsSound :
    (limit : ℕ) (m : Manager) (id : Bytes) → IsSound limit m → IsSound limit (interrupt m id).0
unfolding interrupt
interrupt-IsSound limit m id h = ground (
  arith,
  h,
  interrupt_found-IsSound limit m (trim_space id) (find (trim_space id) m.sessions) refl h,
)

step-weight : (s : Session) (a : Action) → Inv s → weight (after s (step s a)) ≤ weight s
step-weight s a v = elim (Bool-cases (terminal s.state)) [
  | inl t ↦ ground (arith, step-terminal s a v t)
  | inr t ↦ ground (arith, t)
]

act_found-IsSound :
    (limit : ℕ) (m : Manager) (id : Bytes) (a : Action) (o : Option Session)
    → find id m.sessions ≡ o
    → IsSound limit m
    → IsSound limit (act_found m id a o)
unfolding act_found
act_found-IsSound limit m id a none e h = h
act_found-IsSound limit m id a (some s) e h =
    let v = find-All (λ k t. Inv t) id s m.sessions e h.each in
    put-IsSound limit m id (after s (step s a)) h
      (omega (
        arith,
        h.within,
        active_sessions-put_old id (after s (step s a)) s m.sessions e (step-weight s a v),
      ))
      (step-Inv s a v)

cleanup_expired-IsSound :
    (limit : ℕ) (m : Manager) (now : Time)
    → IsSound limit m
    → IsSound limit (cleanup_expired m now).0
unfolding cleanup_expired
cleanup_expired-IsSound limit m now h = record {
  limit_set = h.limit_set;
  within = omega (arith, h.within, active_sessions-keep_fresh m.session_ttl now m.sessions);
  each = keep_fresh-All (λ k s. Inv s) m.session_ttl now m.sessions h.each;
}

close-IsSound : (limit : ℕ) (m : Manager) → IsSound limit m → IsSound limit (close m)
unfolding close
close-IsSound limit m h =
    by_test (IsSound limit) m.closed m
      (record m { closed = true; sessions = cancel_active m.sessions }) (λ _. h)
      (λ _. record {
        limit_set = h.limit_set;
        within = omega (arith, h.within, active_sessions-cancel_active m.sessions);
        each = cancel_active-All (λ k s. Inv s) m.sessions (λ k s v. cancel_session-Inv s v) h.each;
      })

apply-IsSound : (limit : ℕ) (m : Manager) (c : Call) → IsSound limit m → IsSound limit (apply m c)
unfolding apply
apply-IsSound limit m (start_call done now r) h = start-IsSound limit m done now r h
apply-IsSound limit m (interrupt_call id) h = interrupt-IsSound limit m id h
apply-IsSound limit m (cleanup_call now) h = cleanup_expired-IsSound limit m now h
apply-IsSound limit m close_call h = close-IsSound limit m h
apply-IsSound limit m (session_call id a) h =
    act_found-IsSound limit m id a (find id m.sessions) refl h

-- With a positive limit on active sessions, every history of calls on a manager, mixed with any steps
-- of its sessions, keeps the number of sessions without a final state within the limit, and keeps
-- every session in agreement with the event protocol.
pub replay-IsSound :
    (limit : ℕ) (m : Manager) (cs : List Call) → IsSound limit m → IsSound limit (replay m cs)
unfolding replay
replay-IsSound limit m [] h = h
replay-IsSound limit m (c ∷ cs) h = replay-IsSound limit (apply m c) cs (apply-IsSound limit m c h)
