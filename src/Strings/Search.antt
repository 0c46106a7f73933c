-- ===== src/Strings/Search.antt =====
-- What the searches find in a text that is put together.
use agent_cortex.Prelude.{
  ℕ, ◌+◌, ◌≤◌, ◌<◌, ◌≡◌, ◌≢◌, refl, ap, true, Bytes, bytes_eq_iff, [], ◌∷◌, ◌++◌, none, some,
  length, length-append, All, All-append, arith, Option-cases, inl, inr, Bool-cases,
}
use agent_cortex.Strings.{
  after_prefix, seek, before_suffix, cut_last, cut_line, split_lines, is_empty,
}

-- A text that a byte does not occur in.
abbrev pub Free : ℕ → Bytes → Type 0
Free c = All (λ b. b ≢ c)

pub after_prefix-append : (p s : Bytes) → after_prefix p (p ++ s) ≡ some s
unfolding after_prefix
after_prefix-append [] s = refl
after_prefix-append (b ∷ p) s = ground (arith, after_prefix-append p s)

pub after_prefix_eq : (p s r : Bytes) → after_prefix p s ≡ some r → s ≡ p ++ r
unfolding after_prefix
after_prefix_eq [] s r h = ground arith
after_prefix_eq (c ∷ p) [] r h = cc
after_prefix_eq (c ∷ p) (b ∷ s) r h = ground (arith, after_prefix_eq p s r)

pub after_prefix-some_append :
    (p s t r : Bytes) → after_prefix p s ≡ some r → after_prefix p (s ++ t) ≡ some (r ++ t)
unfolding after_prefix
after_prefix-some_append [] s t r h = ground arith
after_prefix-some_append (c ∷ p) [] t r h = cc
after_prefix-some_append (c ∷ p) (b ∷ s) t r h = ground (arith, after_prefix-some_append p s t r)

-- A prefix that a byte does not occur in does not reach across that byte.
pub after_prefix-none_append :
    (c : ℕ) (p s t : Bytes)
    → Free c p
    → after_prefix p s ≡ none
    → after_prefix p (s ++ c ∷ t) ≡ none
unfolding after_prefix
after_prefix-none_append c [] s t f h = cc
after_prefix-none_append c (d ∷ p) [] t f h = ground (arith, f.0)
after_prefix-none_append c (d ∷ p) (b ∷ s) t f h =
    ground (arith, after_prefix-none_append c p s t f.1)

seek-empty : (p s : Bytes) → is_empty p ≡ true → seek p s ≡ some s
unfolding seek after_prefix
seek-empty [] [] h = refl
seek-empty [] (b ∷ s) h = refl
seek-empty (c ∷ p) s h = cc

pub length-seek : (p s r : Bytes) → seek p s ≡ some r → length r ≤ length s
unfolding seek
length-seek p [] r h = ground arith
length-seek p (b ∷ s) r h = ground (arith, length-seek p s r)

after_prefix-none_short :
    (p s t : Bytes) → length p ≤ length s → after_prefix p s ≡ none → after_prefix p (s ++ t) ≡ none
unfolding after_prefix
after_prefix-none_short [] s t l h = cc
after_prefix-none_short (c ∷ p) [] t l h = absurd (omega (arith, l))
after_prefix-none_short (c ∷ p) (b ∷ s) t l h = ground (arith, after_prefix-none_short p s t)

pub length-after_prefix :
    (p s r : Bytes) → after_prefix p s ≡ some r → length s ≡ length p + length r
unfolding after_prefix
length-after_prefix [] s r h = ground arith
length-after_prefix (c ∷ p) [] r h = cc
length-after_prefix (c ∷ p) (b ∷ s) r h = ground (arith, length-after_prefix p s r)

length-seek_found : (p s r : Bytes) → seek p s ≡ some r → length p ≤ length r
unfolding seek
length-seek_found [] [] r h = omega arith
length-seek_found (c ∷ p) [] r h = cc
length-seek_found p (b ∷ s) r h = elim (Option-cases (after_prefix p (b ∷ s))) [
  | inl e ↦ ground (arith, e, length-seek_found p s r)
  | inr (q, e) ↦ ground (arith, e, length-after_prefix p (b ∷ s) q)
]

pub seek-some_append : (p s t r : Bytes) → seek p s ≡ some r → seek p (s ++ t) ≡ some (r ++ t)
unfolding seek
seek-some_append p [] t r h = elim (Bool-cases (is_empty p)) [
  | inl e ↦ ground (arith, e, seek-empty p t)
  | inr e ↦ ground (arith, e)
]
seek-some_append p (b ∷ s) t r h = elim (Option-cases (after_prefix p (b ∷ s))) [
  | inl e ↦ ground (
    arith,
    e,
    after_prefix-none_short p (b ∷ s) t,
    seek-some_append p s t r,
    length-seek_found p s r,
    length-seek p s r,
  )
  | inr (q, e) ↦ ground (arith, e, after_prefix-some_append p (b ∷ s) t q)
]

pub seek-none_append :
    (c : ℕ) (p s t : Bytes) → Free c p → p ≢ [] → seek p s ≡ none → seek p (s ++ c ∷ t) ≡ seek p t
unfolding seek after_prefix
seek-none_append c p [] t f n h = ground (arith, after_prefix-none_append c p [] t f)
seek-none_append c p (b ∷ s) t f n h =
    ground (arith, after_prefix-none_append c p (b ∷ s) t f, seek-none_append c p s t f n)

pub cut_line-append : (l r : Bytes) → Free b'\n' l → cut_line (l ++ b'\n' ∷ r) ≡ some (l, r)
unfolding cut_line
cut_line-append [] r f = refl
cut_line-append (b ∷ l) r f = ground (arith, f.0, cut_line-append l r f.1)

pub cut_line-some_append :
    (s t l r : Bytes) → cut_line s ≡ some (l, r) → cut_line (s ++ t) ≡ some (l, r ++ t)
unfolding cut_line
cut_line-some_append [] t l r h = cc
cut_line-some_append (b ∷ s) t l r h = elim (Option-cases (cut_line s)) [
  | inl e ↦ ground (arith, e)
  | inr (q, e) ↦ ground (arith, e, cut_line-some_append s t q.0 q.1)
]

pub length-cut_line : (s l r : Bytes) → cut_line s ≡ some (l, r) → length r < length s
unfolding cut_line
length-cut_line [] l r h = cc
length-cut_line (b ∷ s) l r h = elim (Option-cases (cut_line s)) [
  | inl e ↦ ground (arith, e)
  | inr (q, e) ↦ ground (arith, e, length-cut_line s q.0 q.1)
]

pub split_lines-append :
    (l r : Bytes) → Free b'\n' l → split_lines (l ++ b'\n' ∷ r) ≡ l ∷ split_lines r
unfolding split_lines
split_lines-append [] r f = refl
split_lines-append (b ∷ l) r f = ground (arith, f.0, split_lines-append l r f.1)

pub before_suffix-append : (l p : Bytes) → before_suffix p (l ++ p) ≡ some l
unfolding before_suffix
before_suffix-append [] [] = refl
before_suffix-append [] (c ∷ p) = ground (arith, bytes_eq_iff (c ∷ p) (c ∷ p))
before_suffix-append (b ∷ l) p = ground (
  arith,
  before_suffix-append l p,
  bytes_eq_iff (b ∷ l ++ p) p,
  ap {A = Bytes} length,
  length-append l p,
)

cut_last_absent : (c : ℕ) (p s : Bytes) → Free c s → cut_last (c ∷ p) s ≡ none
unfolding cut_last after_prefix
cut_last_absent c p [] f = refl
cut_last_absent c p (b ∷ s) f = ground (arith, f.0, cut_last_absent c p s f.1)

-- The last place of a text that begins with a byte is found where the byte does not occur again.
pub cut_last-append :
    (c : ℕ) (l p r : Bytes)
    → Free c p
    → Free c r
    → cut_last (c ∷ p) (l ++ c ∷ (p ++ r)) ≡ some (l, r)
unfolding cut_last
cut_last-append c [] p r f g = ground (
  arith,
  cut_last_absent c p (p ++ r) (All-append (λ b. b ≢ c) p r f g),
  after_prefix-append (c ∷ p) r,
)
cut_last-append c (b ∷ l) p r f g = ground (arith, cut_last-append c l p r f g)
