-- ===== src/Session/Goroutine/Draining.antt =====
-- internal/session/manager.go: a cancelled session whose goroutine, stream and consumer keep getting turns
-- comes to its end.
use agent_cortex.Prelude.{
  ℕ, zero, suc, ◌≤◌, ◌<◌, ◌≡◌, refl, inl, inr, Bool, true, false, ◌||◌, Bytes, List, [], ◌∷◌, All,
  length, arith, Bool-cases,
}
use agent_cortex.RateLimit.Types.{Time}
use agent_cortex.Session.Types.{terminal}
use agent_cortex.Session.Goroutine.{
  Pc, at_finish, at_end, Session, Action, proceed, give_up, stream_refused, stream_closed, consume,
  step, advance, abandon, answer, refuse,
}
use agent_cortex.Session.Goroutine.Protocol.{Inv, Agrees, after, run, phase}
use agent_cortex.Session.Goroutine.Turns.{
  stage, is_quiet, finish-pc, IsWinding, step-IsWinding, Level, step-Level, consume-Sends,
  advance-Sends,
}

abbrev pub is_proceed : Action → Bool
is_proceed (proceed now) = true
is_proceed _ = false

abbrev pub is_give_up : Action → Bool
is_give_up give_up = true
is_give_up _ = false

abbrev pub is_refusal : Action → Bool
is_refusal (stream_refused t) = true
is_refusal _ = false

abbrev pub is_closing : Action → Bool
is_closing stream_closed = true
is_closing _ = false

abbrev pub is_receipt : Action → Bool
is_receipt consume = true
is_receipt _ = false

-- The action that a session needs at each level.
unfoldable needed : ℕ → Action → Bool
needed zero = is_proceed
needed (suc zero) = is_proceed
needed (suc (suc zero)) = is_receipt
needed (suc (suc (suc zero))) = is_proceed
needed (suc (suc (suc (suc zero)))) = is_closing
needed (suc (suc (suc (suc (suc zero))))) = is_refusal
needed _ = is_give_up

abandon-stage :
    (pc : Pc) (s : Session) → s.pc ≡ pc → s.canceled ≡ true → stage (after s (abandon pc s)).pc ≤ 5
unfolding abandon stage
abandon-stage pc s e c = ground (arith, c, e)

refused-stage :
    (pc : Pc) (s : Session) (t : Bytes)
    → s.pc ≡ pc
    → s.canceled ≡ true
    → stage s.pc ≤ 5
    → stage (after s (answer pc (stream_refused t) s)).pc ≤ 4
unfolding answer refuse stage
refused-stage pc s t e c h = ground (arith, e, c)

closed-stage :
    (pc : Pc) (s : Session)
    → s.pc ≡ pc
    → stage s.pc ≤ 4
    → stage (after s (answer pc stream_closed s)).pc ≤ 3
unfolding answer stage
closed-stage pc s e h = ground (arith, e)

checked-stage :
    (pc : Pc) (s : Session) (now : Time)
    → s.pc ≡ pc
    → s.canceled ≡ true
    → stage s.pc ≤ 3
    → stage (after s (advance pc s now)).pc ≤ 2
unfolding advance stage
checked-stage (at_finish f t) s now e c h =
    rw (finish-pc (record s { pc = at_end }) f t now) (omega arith)
checked-stage pc s now e c h = ground (arith, e, c)

finished-stage :
    (pc : Pc) (s : Session) (now : Time)
    → s.pc ≡ pc
    → stage s.pc ≤ 1
    → stage (after s (advance pc s now)).pc ≤ 0
unfolding advance stage
finished-stage (at_finish f t) s now e h =
    rw (finish-pc (record s { pc = at_end }) f t now) (omega arith)
finished-stage pc s now e h = ground (arith, e)

-- The needed action takes a session a level on.
needed-Level :
    (n : ℕ) (s : Session) (a : Action)
    → needed n a ≡ true
    → IsWinding s
    → Level (suc n) s
    → Level n (after s (step s a))
unfolding Level needed step
needed-Level zero s (proceed now) k w h = finished-stage s.pc s now refl h
needed-Level (suc zero) s (proceed now) k w (inl h) =
    omega (arith, h, finished-stage s.pc s now refl h)
needed-Level (suc zero) s (proceed now) k w (inr h) = advance-Sends s.pc s now refl h.0 h.1
needed-Level (suc (suc zero)) s consume k w h = consume-Sends s w h
needed-Level (suc (suc (suc zero))) s (proceed now) k w h =
    checked-stage s.pc s now refl w.canceled h
needed-Level (suc (suc (suc (suc zero)))) s stream_closed k w h = closed-stage s.pc s refl h
needed-Level (suc (suc (suc (suc (suc zero))))) s (stream_refused t) k w h =
    refused-stage s.pc s t refl w.canceled h
needed-Level (suc (suc (suc (suc (suc (suc n)))))) s give_up k w h =
    omega (arith, abandon-stage s.pc s refl w.canceled)
needed-Level n s a k w h = ground (arith, k)

abbrev pub any_of : (Action → Bool) → List Action → Bool
any_of kind [] = false
any_of kind (a ∷ as') = kind a || any_of kind as'

abbrev pub AllQuiet : List Action → Type 0
AllQuiet as' = All (λ a. is_quiet a ≡ true) as'

run-Level :
    (n : ℕ) (s : Session) (as' : List Action)
    → AllQuiet as'
    → IsWinding s
    → Level n s
    → IsWinding (run s as') × Level n (run s as')
unfolding run
run-Level n s [] q w h = (w, h)
run-Level n s (a ∷ as') q w h =
    run-Level n (after s (step s a)) as' q.1 (step-IsWinding s a q.0 w) (step-Level n s a q.0 w h)

run-falls :
    (n : ℕ) (s : Session) (as' : List Action)
    → AllQuiet as'
    → any_of (needed n) as' ≡ true
    → IsWinding s
    → Level (suc n) s
    → IsWinding (run s as') × Level n (run s as')
unfolding run
run-falls n s [] q k w h = ground (arith, k)
run-falls n s (a ∷ as') q k w h =
    let t : Session = after s (step s a) in
    let v = step-IsWinding s a q.0 w in
    elim (Bool-cases (needed n a)) [
      | inl e ↦ run-Level n t as' q.1 v (needed-Level n s a e w h)
      | inr e ↦ run-falls n t as' q.1 (rw e at k) v (step-Level (suc n) s a q.0 w h)
    ]

-- A stretch of a run in which the stream delivers nothing more, and in which the goroutine, the
-- `ctx.Done()` branch of its `select`, an error of the stream, the end of the stream and the consumer all
-- get a turn, in any order and among any other actions. A turn that cannot be used changes nothing.
pub record IsRound (as' : List Action) : Type 0 where
  pub quiet : AllQuiet as'
  pub proceeds : any_of is_proceed as' ≡ true
  pub gives_up : any_of is_give_up as' ≡ true
  pub refuses : any_of is_refusal as' ≡ true
  pub closes : any_of is_closing as' ≡ true
  pub receives : any_of is_receipt as' ≡ true

has_needed : (n : ℕ) (as' : List Action) → IsRound as' → any_of (needed n) as' ≡ true
unfolding needed
has_needed zero as' r = r.proceeds
has_needed (suc zero) as' r = r.proceeds
has_needed (suc (suc zero)) as' r = r.receives
has_needed (suc (suc (suc zero))) as' r = r.proceeds
has_needed (suc (suc (suc (suc zero)))) as' r = r.closes
has_needed (suc (suc (suc (suc (suc zero))))) as' r = r.refuses
has_needed (suc (suc (suc (suc (suc (suc n)))))) as' r = r.gives_up

unfoldable pub run_rounds : Session → List (List Action) → Session
run_rounds s [] = s
run_rounds s (as' ∷ rounds) = run_rounds (run s as') rounds

rounds-Level :
    (n : ℕ) (s : Session) (rounds : List (List Action))
    → All IsRound rounds
    → n ≤ length rounds
    → IsWinding s
    → Level n s
    → IsWinding (run_rounds s rounds) × Level zero (run_rounds s rounds)
unfolding run_rounds
rounds-Level zero s [] r l w h = (w, h)
rounds-Level (suc n) s [] r l w h = ground (arith, l)
rounds-Level zero s (as' ∷ rounds) r l w h =
    let (v, k) = run-Level zero s as' r.0.quiet w h in
    rounds-Level zero (run s as') rounds r.1 (omega arith) v k
rounds-Level (suc n) s (as' ∷ rounds) r l w h =
    let (v, k) = run-falls n s as' r.0.quiet (has_needed n as' r.0) w h in
    rounds-Level n (run s as') rounds r.1 (omega (arith, l)) v k

stage_bound : (pc : Pc) → stage pc ≤ 6
unfolding stage
stage_bound pc = ground arith

ended :
    (pc : Pc) (s : Session)
    → s.pc ≡ pc
    → stage s.pc ≤ 0
    → Agrees pc (phase s) s.state
    → terminal s.state ≡ true
unfolding stage
ended at_end s e h a = a.1
ended pc s e h a = ground (arith, e)

-- A cancelled session that keeps to the protocol and whose channel holds at least one event, wherever it
-- stands, has a final state behind every run of at least seven rounds, in each of which the stream
-- delivers nothing more and the goroutine, its `ctx.Done()` branch, an error of the stream, the end of
-- the stream and the consumer all get a turn, in any order and among any other actions.
pub canceled_ends :
    (s : Session) (rounds : List (List Action))
    → Inv s
    → 0 < s.capacity
    → s.canceled ≡ true
    → All IsRound rounds
    → 7 ≤ length rounds
    → terminal (run_rounds s rounds).state ≡ true
unfolding Level
canceled_ends s rounds v p c r l =
    let (w, h) =
      rounds-Level 7 s rounds r l (record { protocol = v; some_room = p; canceled = c })
        (stage_bound s.pc) in
    ended (run_rounds s rounds).pc (run_rounds s rounds) refl h w.protocol.agrees
