-- ===== src/Strings/Trim.antt =====
-- What `TrimSpace` leaves alone.
use agent_cortex.Prelude.{
  ℕ, zero, suc, ◌≤◌, ◌≡◌, ◌≢◌, refl, sym, ap, ◌∙◌, Bytes, [], ◌∷◌, ◌++◌, length, length-reverse,
  arith,
}
use mathlib.Core.List.{reverse, reverse-append, reverse-reverse, reverse-cons, append_assoc}
use agent_cortex.Strings.{
  trim_space, trim_left, trim_right, trim_from, space_width, space_width_back,
}

-- A text that is not empty and neither begins nor ends with white space.
pub record IsTrimmed (s : Bytes) : Type 0 where
  pub filled : s ≢ []
  pub head : space_width s ≡ 0
  pub last : space_width_back (reverse s) ≡ 0

trim_from-kept : (width : Bytes → ℕ) (s : Bytes) → width s ≡ 0 → trim_from width 0 s ≡ s
unfolding trim_from
trim_from-kept width [] h = refl
trim_from-kept width (b ∷ s) h = rw (h, trim_from) refl

pub trim_space-IsTrimmed : (s : Bytes) → IsTrimmed s → trim_space s ≡ s
unfolding trim_space trim_left trim_right
trim_space-IsTrimmed s t =
    rw (trim_from-kept space_width s t.head, trim_from-kept space_width_back (reverse s) t.last)
      (reverse-reverse s)

trim_from-skip :
    (width : Bytes → ℕ) (b : ℕ) (s : Bytes) (k : ℕ)
    → width (b ∷ s) ≡ suc k
    → trim_from width 0 (b ∷ s) ≡ trim_from width k s
unfolding trim_from
trim_from-skip width b s k e = rw (e, trim_from) refl

length-trim_from :
    (width : Bytes → ℕ) (skip : ℕ) (s : Bytes) → length (trim_from width skip s) ≤ length s
unfolding trim_from
length-trim_from width zero [] = omega arith
length-trim_from width (suc skip) [] = omega arith
length-trim_from width zero (b ∷ s) =
    elim (width (b ∷ s))
      as (λ k. length (elim k [ zero ↦ b ∷ s | suc j ↦ trim_from width j s ]) ≤ suc (length s)) [
        | zero ↦ omega arith
        | suc j ↦ omega (arith, length-trim_from width j s)
      ]
length-trim_from width (suc skip) (b ∷ s) = omega (arith, length-trim_from width skip s)

-- A text that gets no shorter has nothing to trim.
trim_from_full :
    (width : Bytes → ℕ) (s : Bytes) (k : ℕ)
    → width s ≡ k
    → s ≢ []
    → length s ≤ length (trim_from width 0 s)
    → k ≡ 0
unfolding trim_from
trim_from_full width [] k e n h = absurd (n refl)
trim_from_full width (b ∷ s) zero e n h = refl
trim_from_full width (b ∷ s) (suc k) e n h =
    absurd (omega (arith, length-trim_from width k s, ap length (trim_from-skip width b s k e), h))

reverse-nil : (s : Bytes) → reverse s ≡ [] → s ≡ []
reverse-nil s e = sym (reverse-reverse s) ∙ ap reverse e

length-trim_right : (s : Bytes) → length (trim_right s) ≤ length s
unfolding trim_right
length-trim_right s = omega (
  arith,
  length-reverse (trim_from space_width_back 0 (reverse s)),
  length-reverse s,
  length-trim_from space_width_back 0 (reverse s),
)

full_right :
    (s : Bytes)
    → trim_right s ≡ s
    → length (reverse s) ≤ length (trim_from space_width_back 0 (reverse s))
unfolding trim_right
full_right s e = omega (
  arith,
  ap length e,
  length-reverse s,
  length-reverse (trim_from space_width_back 0 (reverse s)),
)

-- A text that `TrimSpace` returns as it is, and that is not empty, is trimmed.
pub trim_space_fixed : (s : Bytes) → s ≢ [] → trim_space s ≡ s → IsTrimmed s
unfolding trim_space trim_left
trim_space_fixed s n e =
    let whole : length s ≤ length (trim_left s) =
      omega (arith, ap length e, length-trim_right (trim_left s)) in
    let h = trim_from_full space_width s (space_width s) refl n whole in
    let same : trim_right s ≡ s = ap trim_right (sym (trim_from-kept space_width s h)) ∙ e in
    record {
      filled = n;
      head = h;
      last =
          trim_from_full space_width_back (reverse s) (space_width_back (reverse s)) refl
            (λ r. n (reverse-nil s r)) (full_right s same);
    }

space_width-blank : (s : Bytes) → space_width (b' ' ∷ s) ≡ 1
unfolding space_width
space_width-blank [] = refl
space_width-blank (a ∷ []) = refl
space_width-blank (a ∷ b ∷ s) = refl

-- A blank in front of a trimmed text is trimmed away.
pub trim_space-blank : (s : Bytes) → IsTrimmed s → trim_space (b' ' ∷ s) ≡ s
unfolding trim_space trim_left
trim_space-blank s t =
    ap trim_right (
      trim_from-skip space_width b' ' s 0 (space_width-blank s)
      ∙ trim_from-kept space_width s t.head)
    ∙ ap trim_right (sym (trim_from-kept space_width s t.head))
    ∙ trim_space-IsTrimmed s t

back-blank : (s q : Bytes) → s ≢ [] → space_width_back s ≡ 0 → space_width_back (s ++ b' ' ∷ q) ≡ 0
unfolding space_width_back
back-blank [] q n h = absurd (n refl)
back-blank (a ∷ []) [] n h = ground arith
back-blank (a ∷ []) (c ∷ q) n h = ground arith
back-blank (a ∷ b ∷ []) q n h = ground arith
back-blank (a ∷ b ∷ c ∷ s) q n h = h

pub cons_middle : (p : Bytes) (c : ℕ) (s : Bytes) → p ++ c ∷ s ≢ []
cons_middle [] c s e = cc
cons_middle (b ∷ p) c s e = cc

-- A trimmed text behind a label and a blank.
pub label-IsTrimmed :
    (p s : Bytes) → IsTrimmed s → space_width (p ++ b' ' ∷ s) ≡ 0 → IsTrimmed (p ++ b' ' ∷ s)
label-IsTrimmed p s t h = record {
  filled = λ e. cons_middle p b' ' s e;
  head = h;
  last =
      ap space_width_back (reverse-append p (b' ' ∷ s))
      ∙ ap (λ r. space_width_back (r ++ reverse p)) (reverse-cons b' ' s)
      ∙ ap space_width_back (append_assoc (reverse s) (b' ' ∷ []) (reverse p))
      ∙ back-blank (reverse s) (reverse p) (λ e. t.filled (reverse-nil s e)) t.last;
}
