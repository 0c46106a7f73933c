-- ===== src/Http/Request/Accepted.antt =====
-- internal/transport/http/request.go: what a question that passes the checks looks like.
use agent_cortex.Prelude.{
  ℕ, suc, ◌+◌, ◌≤◌, ◌≡◌, refl, ap, Bool, true, false, not, bytes_eq, bytes_eq_iff, List, [], ◌∷◌,
  Option, none, some, map, length, ltb, ◌==◌, All, arith,
}
use mathlib.Core.Path.{subst}
use agent_cortex.Strings.{trim_space, is_empty, rune_count}
use agent_cortex.Errors.{Result, ok, err, guard, invalid_request, ◌>>◌, >>=-eq-ok, guard-eq-ok}
use agent_cortex.Http.Ids.{is_path_id}
use agent_cortex.Http.Request.{
  QaMessage, QaStreamRequest, is_role, total_chars, last_message, is_from_user, validate,
  to_message, to_model_request, last_user_question, role_user, messages_max_count,
  messages_max_total_chars,
}

-- A message of a known role with a text.
abbrev pub IsMessage : QaMessage → Type 0
IsMessage m = (is_role m.role ≡ true) × (is_empty m.content ≡ false)

unfoldable pub chars : List QaMessage → ℕ
chars [] = 0
chars (m ∷ ms) = rune_count m.content + chars ms

total_chars-ok :
    (ms : List QaMessage) (n : ℕ)
    → total_chars ms ≡ ok n
    → All IsMessage (map to_message ms) × (chars (map to_message ms) ≡ n)
unfolding total_chars chars
total_chars-ok [] n h = (tt, cc (h))
total_chars-ok (m ∷ ms) n h =
    let (r, h1) = guard-eq-ok (is_role (trim_space m.role)) invalid_request _ h in
    let (t, h2) = guard-eq-ok (not (is_empty (trim_space m.content))) invalid_request _ h1 in
    let (k, e, h3) = >>=-eq-ok (total_chars ms) _ h2 in
    let ih = total_chars-ok ms k e in (((r, ground (arith, t)), ih.0), ground (arith, ih.1, h3))

last-map :
    (ms : List QaMessage) (m : QaMessage)
    → last_message ms ≡ some m
    → last_message (map to_message ms) ≡ some (to_message m)
unfolding last_message
last-map [] m h = cc
last-map (l ∷ []) m h = cc (h)
last-map (l ∷ k ∷ ms) m h = last-map (k ∷ ms) m h

-- What `validate` has checked.
record Checked (r : QaStreamRequest) : Type 0 where
  agent : is_path_id r.agent_id ≡ true
  user : is_path_id r.user_id ≡ true
  some_messages : 1 ≤ length r.messages
  few_messages : length r.messages ≤ messages_max_count
  size : ℕ
  counted : total_chars r.messages ≡ ok size
  short : size ≤ messages_max_total_chars
  last : QaMessage
  last_is : last_message r.messages ≡ some last
  asks : bytes_eq (trim_space last.role) role_user ≡ true

from_user :
    (o : Option QaMessage)
    → is_from_user o ≡ true
    → (m : QaMessage) × (o ≡ some m) × (bytes_eq (trim_space m.role) role_user ≡ true)
from_user none h = cc
from_user (some m) h = (m, refl, h)

guard-true : (t : Bool) → guard t invalid_request ≡ ok tt → t ≡ true
guard-true true h = refl
guard-true false h = cc

validate-Checked : (r : QaStreamRequest) → validate r ≡ ok tt → Checked r
unfolding validate
validate-Checked r h =
    let (a, h1) = guard-eq-ok (is_path_id r.agent_id) invalid_request _ h in
    let (u, h2) = guard-eq-ok (is_path_id r.user_id) invalid_request _ h1 in
    let (s, h3) = guard-eq-ok (not (length r.messages == 0)) invalid_request _ h2 in
    let (f, h4) =
      guard-eq-ok (not (ltb messages_max_count (length r.messages))) invalid_request _ h3 in
    let (n, e, h5) = >>=-eq-ok (total_chars r.messages) _ h4 in
    let (c, h6) = guard-eq-ok (not (ltb messages_max_total_chars n)) invalid_request _ h5 in
    let (m, l, q) =
      from_user (last_message r.messages)
        (guard-true (is_from_user (last_message r.messages)) h6) in
    record {
      agent = a;
      user = u;
      some_messages = ground (arith, s);
      few_messages = ground (arith, f);
      size = n;
      counted = e;
      short = ground (arith, c);
      last = m;
      last_is = l;
      asks = q;
    }

validated {ℓ} :
    {A : Type ℓ} (v : Result (Unit {0})) (a : A) {b : A}
    → (v >> ok a) ≡ ok b
    → (v ≡ ok tt) × (a ≡ b)
validated (ok tt) a h = (refl, cc (h))
validated (err e) a h = cc

length-map : (ms : List QaMessage) → length (map to_message ms) ≡ length ms
length-map [] = refl
length-map (m ∷ ms) = ap suc (length-map ms)

-- A question that `toModelRequest` accepts names a user and an agent by path identifiers and has between
-- 1 and 100 messages, each of a known role with a text that is not blank, of 24000 characters together;
-- the last one is the user's, and it is the question that `lastUserQuestion` answers.
pub to_model_request-accepts :
    (r : QaStreamRequest) (ms : List QaMessage)
    → to_model_request r ≡ ok ms
    → (is_path_id r.agent_id ≡ true)
      × (is_path_id r.user_id ≡ true)
      × (1 ≤ length ms)
      × (length ms ≤ messages_max_count)
      × All IsMessage ms
      × (chars ms ≤ messages_max_total_chars)
      × ((m : QaMessage) × (last_message ms ≡ some m)
          × (m.role ≡ role_user)
          × (last_user_question r ≡ ok m.content))
unfolding to_model_request last_user_question
to_model_request-accepts r ms h =
    let v = validated (validate r) (map to_message r.messages) h in
    let c = validate-Checked r v.0 in
    let t = total_chars-ok r.messages c.size c.counted in
    subst
      (λ xs.
        (is_path_id r.agent_id ≡ true)
        × (is_path_id r.user_id ≡ true)
        × (1 ≤ length xs)
        × (length xs ≤ messages_max_count)
        × All IsMessage xs
        × (chars xs ≤ messages_max_total_chars)
        × ((m : QaMessage) × (last_message xs ≡ some m)
            × (m.role ≡ role_user)
            × (last_user_question r ≡ ok m.content)))
      v.1
      (
        c.agent,
        c.user,
        omega (arith, length-map r.messages, c.some_messages),
        omega (arith, length-map r.messages, c.few_messages),
        t.0,
        omega (arith, t.1, c.short),
        (
          to_message c.last,
          last-map r.messages c.last c.last_is,
          (bytes_eq_iff (trim_space c.last.role) role_user).0 c.asks,
          rw (v.0, c.last_is, last_user_question) refl,
        ),
      )
