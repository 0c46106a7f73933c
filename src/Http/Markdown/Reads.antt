-- ===== src/Http/Markdown/Reads.antt =====
-- internal/transport/http/memory_markdown.go: one entry is read in the same way with any text behind.
use agent_cortex.Prelude.{
  ℕ, zero, suc, ◌+◌, ◌-◌, ◌^◌, ◌≤◌, ◌<◌, ◌≡◌, refl, Bytes, [], ◌∷◌, ◌++◌, Option, none, some,
  length, length-append, arith, Option-cases, inl, inr,
}
use agent_cortex.Prelude.Int.{pos, add64, add64_parts, one_sign}
use agent_cortex.Strings.{after_prefix, cut_line}
use agent_cortex.Strings.Search.{
  after_prefix-some_append, cut_line-some_append, length-cut_line, length-after_prefix,
}
use agent_cortex.Errors.{ok, err, Result, as_markdown_error}
use agent_cortex.TimeFormat.{TimeFormat}
use agent_cortex.Http.Markdown.{Entry, end_marker, parse_begin_line}
use agent_cortex.Http.Markdown.Parser.{
  Parsed, done, failed, panicked, ◌>>=◌, must, parsed, split_at, slice, Entries, entry_from,
  one_entry,
}

pub split_at-append : (s t : Bytes) → split_at (length s) (s ++ t) ≡ some (s, t)
unfolding split_at
split_at-append [] t = refl
split_at-append (b ∷ s) t = ground (arith, split_at-append s t)

split_at-some_append :
    (n : ℕ) (s t l r : Bytes) → split_at n s ≡ some (l, r) → split_at n (s ++ t) ≡ some (l, r ++ t)
unfolding split_at
split_at-some_append zero s t l r h = ground arith
split_at-some_append (suc n) [] t l r h = cc
split_at-some_append (suc n) (b ∷ s) t l r h = elim (Option-cases (split_at n s)) [
  | inl e ↦ ground (arith, e)
  | inr (q, e) ↦ ground (arith, e, split_at-some_append n s t q.0 q.1)
]

length-split_at :
    (n : ℕ) (s l r : Bytes)
    → split_at n s ≡ some (l, r)
    → (n + length r ≡ length s) × (length l ≡ n)
unfolding split_at
length-split_at zero s l r h = ground arith
length-split_at (suc n) [] l r h = cc
length-split_at (suc n) (b ∷ s) l r h = elim (Option-cases (split_at n s)) [
  | inl e ↦ ground (arith, e)
  | inr (q, e) ↦ ground (arith, e, length-split_at n s q.0 q.1)
]

-- Within a file of fewer than 2^63 bytes a slice that lies in the file is cut out.
pub slice-split_at :
    (total n : ℕ) (rest l r : Bytes)
    → total < 2 ^ 63
    → length rest ≤ total
    → split_at n rest ≡ some (l, r)
    → slice total n rest ≡ done (l, r)
unfolding slice
slice-split_at total n rest l r small fits h = ground (
  arith,
  add64_parts (pos (total - length rest)) (pos n),
  one_sign (add64 (pos (total - length rest)) (pos n)),
  length-split_at n rest l r h,
  h,
)

split_at-slice :
    (total n : ℕ) (rest l r : Bytes)
    → slice total n rest ≡ done (l, r)
    → split_at n rest ≡ some (l, r)
unfolding slice
split_at-slice total n rest l r h = ground arith

-- A parse that ends in a value has had one at every step.
pub >>=-eq-done {ℓ κ} :
    {V : Type ℓ} {W : Type κ} (first : Parsed V) (next : V → Parsed W) {w : W}
    → (first >>= next) ≡ done w
    → (v : V) × (first ≡ done v) × (next v ≡ done w)
>>=-eq-done panicked next ends = cc
>>=-eq-done (failed e) next ends = cc
>>=-eq-done (done v) next ends = (v, refl, ends)

must-eq-done {ℓ} : {A : Type ℓ} (o : Option A) {a : A} → must o ≡ done a → o ≡ some a
must-eq-done none h = cc
must-eq-done (some a) h = cc

parsed-eq-done {ℓ} :
    {A : Type ℓ} (r : Result A) {a : A} → parsed (as_markdown_error r) ≡ done a → r ≡ ok a
parsed-eq-done (ok a) h = cc
parsed-eq-done (err e) h = cc

-- What the body of the loop has found where it succeeds.
pub record Reads (f : TimeFormat) (total : ℕ) (found : Entries) (s : Bytes) (e : Entry)
    (behind : Bytes) : Type 0 where
  pub head : Bytes
  pub rest : Bytes
  pub id : Bytes
  pub size : ℕ
  pub text : Bytes
  pub body : Bytes
  pub cut : cut_line s ≡ some (head, rest)
  pub begins : parse_begin_line head ≡ ok (id, size)
  pub sliced : slice total size rest ≡ done (text, body)
  pub ends : after_prefix (end_marker id) body ≡ some behind
  pub checked : entry_from f found id text ≡ done e

pub Reads-one_entry :
    (f : TimeFormat) (total : ℕ) (found : Entries) (s : Bytes) (e : Entry) (behind : Bytes)
    → one_entry f total found s ≡ done (e, behind)
    → Reads f total found s e behind
unfolding one_entry
Reads-one_entry f total found s e behind h =
    let (c, ce, h1) = >>=-eq-done (must (cut_line s)) _ h in
    let (d, de, h2) = >>=-eq-done (parsed (as_markdown_error (parse_begin_line c.0))) _ h1 in
    let (b, be, h3) = >>=-eq-done (slice total d.1 c.1) _ h2 in
    let (a, ae, h4) = >>=-eq-done (must (after_prefix (end_marker d.0) b.1)) _ h3 in
    let (x, xe, h5) = >>=-eq-done (entry_from f found d.0 b.0) _ h4 in
    record {
      head = c.0;
      rest = c.1;
      id = d.0;
      size = d.1;
      text = b.0;
      body = b.1;
      cut = must-eq-done (cut_line s) ce;
      begins = parsed-eq-done (parse_begin_line c.0) de;
      sliced = be;
      ends = cc (must-eq-done (after_prefix (end_marker d.0) b.1) ae, h5);
      checked = cc (xe, h5);
    }

pub one_entry-Reads :
    (f : TimeFormat) (total : ℕ) (found : Entries) (s : Bytes) (e : Entry) (behind : Bytes)
    → Reads f total found s e behind
    → one_entry f total found s ≡ done (e, behind)
unfolding one_entry
one_entry-Reads f total found s e behind r = rw (r.cut, r.begins, r.sliced, r.ends, r.checked) refl

pub length-Reads :
    (f : TimeFormat) (total : ℕ) (found : Entries) (s : Bytes) (e : Entry) (behind : Bytes)
    → Reads f total found s e behind
    → length behind < length s
length-Reads f total found s e behind r = omega (
  arith,
  length-cut_line s r.head r.rest r.cut,
  length-split_at r.size r.rest r.text r.body
      (split_at-slice total r.size r.rest r.text r.body r.sliced),
  length-after_prefix (end_marker r.id) r.body behind r.ends,
)

pub Reads-append :
    (f : TimeFormat) (total total' : ℕ) (found : Entries) (s t : Bytes) (e : Entry) (behind : Bytes)
    → Reads f total found s e behind
    → total' < 2 ^ 63
    → length (s ++ t) ≤ total'
    → Reads f total' found (s ++ t) e (behind ++ t)
Reads-append f total total' found s t e behind r small fits = record {
  head = r.head;
  rest = r.rest ++ t;
  id = r.id;
  size = r.size;
  text = r.text;
  body = r.body ++ t;
  cut = cut_line-some_append s t r.head r.rest r.cut;
  begins = r.begins;
  sliced =
      slice-split_at total' r.size (r.rest ++ t) r.text (r.body ++ t) small
        (omega (
          arith,
          length-cut_line s r.head r.rest r.cut,
          length-append s t,
          length-append r.rest t,
          fits,
        ))
        (split_at-some_append r.size r.rest t r.text r.body
          (split_at-slice total r.size r.rest r.text r.body r.sliced));
  ends = after_prefix-some_append (end_marker r.id) r.body t behind r.ends;
  checked = r.checked;
}
