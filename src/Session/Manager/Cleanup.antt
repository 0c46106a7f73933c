-- ===== src/Session/Manager/Cleanup.antt =====
-- internal/session/manager.go, `CleanupExpired`.
use agent_cortex.Prelude.{
  ◌+◌, ◌≡◌, refl, ◌&&◌, not, Bytes, bytes_eq_iff, [], ◌∷◌, none, some, if◌then◌else◌, arith, length,
}
use agent_cortex.Prelude.Int.{ℤ, ltb_ℤ}
use agent_cortex.RateLimit.Types.{Time, sub_time}
use agent_cortex.Session.Types.{terminal}
use agent_cortex.Session.Goroutine.{Session}
use agent_cortex.Session.Manager.{
  Manager, Sessions, find, keep_fresh, count_stale, is_stale, cleanup_expired, is_expired,
}

keep_fresh_absent :
    (ttl : ℤ) (now : Time) (k : Bytes) (m : Sessions)
    → find k m ≡ none
    → find k (keep_fresh ttl now m) ≡ none
unfolding find keep_fresh
keep_fresh_absent ttl now k [] h = refl
keep_fresh_absent ttl now k ((j, s) ∷ m) h = ground (arith, keep_fresh_absent ttl now k m)

-- No identifier stands twice.
abbrev pub UniqueIds : Sessions → Type 0
UniqueIds [] = Unit
UniqueIds ((k, s) ∷ m) = (find k m ≡ none) × UniqueIds m

find-keep_fresh :
    (ttl : ℤ) (now : Time) (k : Bytes) (s : Session) (m : Sessions)
    → UniqueIds m
    → find k m ≡ some s
    → find k (keep_fresh ttl now m) ≡ (if is_stale ttl now s then none else some s)
unfolding find keep_fresh
find-keep_fresh ttl now k s [] u h = cc
find-keep_fresh ttl now k s ((j, t) ∷ m) u h =
    ground (
      arith,
      bytes_eq_iff j k,
      keep_fresh_absent ttl now j m u.0,
      find-keep_fresh ttl now k s m u.1,
    )

count_stale-keep_fresh :
    (ttl : ℤ) (now : Time) (m : Sessions)
    → count_stale ttl now m + length (keep_fresh ttl now m) ≡ length m
unfolding count_stale keep_fresh
count_stale-keep_fresh ttl now [] = refl
count_stale-keep_fresh ttl now ((j, t) ∷ m) = ground (arith, count_stale-keep_fresh ttl now m)

-- In a map with unique identifiers, `CleanupExpired` removes a session exactly when its state is final
-- and it was last updated longer ago than the time to live, leaves every other session as it is, and
-- answers with the number of sessions removed.
pub cleanup_exact :
    (m : Manager) (now : Time) (k : Bytes) (s : Session)
    → UniqueIds m.sessions
    → find k m.sessions ≡ some s
    → (find k (cleanup_expired m now).0.sessions ≡ (
        if terminal s.state
          && not (is_expired s.state)
          && ltb_ℤ m.session_ttl (sub_time now s.updated_at)
        then none
        else some s))
      × ((cleanup_expired m now).1 + length (cleanup_expired m now).0.sessions ≡ length m.sessions)
unfolding cleanup_expired
cleanup_exact m now k s u h = (
  find-keep_fresh m.session_ttl now k s m.sessions u h,
  count_stale-keep_fresh m.session_ttl now m.sessions,
)
