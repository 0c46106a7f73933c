-- ===== src/Session/Manager/Sessions.antt =====
-- The map of sessions of internal/session/manager.go, seen through `find`, and the count of the
-- active ones.
use agent_cortex.Prelude.{
  suc, ◌≤◌, ◌≡◌, refl, Bytes, bytes_eq, bytes_eq_iff, [], ◌∷◌, some, if◌then◌else◌, arith,
}
use agent_cortex.Prelude.Int.{ℤ}
use agent_cortex.RateLimit.Types.{Time}
use agent_cortex.Session.Goroutine.{Session}
use agent_cortex.Session.Manager.{
  Sessions, find, put, weight, active_sessions, keep_fresh, cancel_active, cancel_session,
}

pub find-put :
    (k j : Bytes) (s : Session) (m : Sessions)
    → find j (put k s m) ≡ (if bytes_eq k j then some s else find j m)
unfolding find put
find-put k j s [] = refl
find-put k j s ((i, t) ∷ m) =
    ground (arith, bytes_eq_iff k j, bytes_eq_iff i k, bytes_eq_iff i j, find-put k j s m)

pub active_sessions-put :
    (k : Bytes) (s : Session) (m : Sessions) → active_sessions (put k s m) ≤ suc (active_sessions m)
unfolding put active_sessions
active_sessions-put k s [] = ground arith
active_sessions-put k s ((i, t) ∷ m) = ground (arith, active_sessions-put k s m)

pub active_sessions-put_old :
    (k : Bytes) (s d : Session) (m : Sessions)
    → find k m ≡ some d
    → weight s ≤ weight d
    → active_sessions (put k s m) ≤ active_sessions m
unfolding find put active_sessions
active_sessions-put_old k s d [] h w = cc
active_sessions-put_old k s d ((i, t) ∷ m) h w = ground (arith, active_sessions-put_old k s d m)

pub active_sessions-keep_fresh :
    (ttl : ℤ) (now : Time) (m : Sessions)
    → active_sessions (keep_fresh ttl now m) ≡ active_sessions m
unfolding keep_fresh active_sessions
active_sessions-keep_fresh ttl now [] = refl
active_sessions-keep_fresh ttl now ((i, t) ∷ m) =
    ground (arith, active_sessions-keep_fresh ttl now m)

pub active_sessions-cancel_active :
    (m : Sessions) → active_sessions (cancel_active m) ≡ active_sessions m
unfolding cancel_active active_sessions
active_sessions-cancel_active [] = refl
active_sessions-cancel_active ((i, t) ∷ m) = ground (arith, active_sessions-cancel_active m)

-- A predicate of every entry.
module _ (P : Bytes → Session → Type 0) where
  abbrev pub AllSessions : Sessions → Type 0
  AllSessions [] = Unit
  AllSessions ((k, s) ∷ m) = P k s × AllSessions m

  pub put-All :
      (k : Bytes) (s : Session) (m : Sessions) → P k s → AllSessions m → AllSessions (put k s m)
  unfolding put
  put-All k s [] p h = (p, tt)
  put-All k s ((i, t) ∷ m) p h = ground (arith, bytes_eq_iff i k, put-All k s m)

  pub find-All :
      (k : Bytes) (s : Session) (m : Sessions) → find k m ≡ some s → AllSessions m → P k s
  unfolding find
  find-All k s [] e h = cc
  find-All k s ((i, t) ∷ m) e h = ground (arith, bytes_eq_iff i k, find-All k s m)

  pub keep_fresh-All :
      (ttl : ℤ) (now : Time) (m : Sessions) → AllSessions m → AllSessions (keep_fresh ttl now m)
  unfolding keep_fresh
  keep_fresh-All ttl now [] h = tt
  keep_fresh-All ttl now ((i, t) ∷ m) h = ground (arith, keep_fresh-All ttl now m)

  pub cancel_active-All :
      (m : Sessions)
      → ((k : Bytes) (s : Session) → P k s → P k (cancel_session s))
      → AllSessions m
      → AllSessions (cancel_active m)
  unfolding cancel_active
  cancel_active-All [] f h = tt
  cancel_active-All ((i, t) ∷ m) f h = ground (arith, cancel_active-All m f h.1, f i t h.0)
