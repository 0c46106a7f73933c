-- ===== src/Strings/Trimmed.antt =====
-- `TrimSpace` leaves nothing to trim.
use agent_cortex.Prelude.{
  ℕ, zero, suc, ◌≡◌, ◌≢◌, refl, sym, ap, ◌∙◌, ◌⊎◌, inl, inr, Bytes, [], ◌∷◌, ◌++◌, arith,
}
use mathlib.Core.Path.{subst}
use mathlib.Core.List.{reverse, reverse-append, reverse-reverse}
use agent_cortex.Strings.{
  trim_space, trim_left, trim_right, trim_from, space_width, space_width_back,
}
use agent_cortex.Strings.Trim.{IsTrimmed, trim_space-IsTrimmed}

abbrev IsClean : (Bytes → ℕ) → Bytes → Type 0
IsClean width r = (r ≡ []) ⊎ (width r ≡ 0)

abbrev trim_step : (Bytes → ℕ) → ℕ → Bytes → ℕ → Bytes
trim_step width b r zero = b ∷ r
trim_step width b r (suc k) = trim_from width k r

trim_from-trim_step :
    (width : Bytes → ℕ) (b : ℕ) (r : Bytes) (k : ℕ)
    → width (b ∷ r) ≡ k
    → trim_from width 0 (b ∷ r) ≡ trim_step width b r k
unfolding trim_from
trim_from-trim_step width b r zero e = rw (e, trim_from) refl
trim_from-trim_step width b r (suc k) e = rw (e, trim_from) refl

trim_step-IsClean :
    (width : Bytes → ℕ) (b : ℕ) (r : Bytes) (k : ℕ)
    → width (b ∷ r) ≡ k
    → ((n : ℕ) → IsClean width (trim_from width n r))
    → IsClean width (trim_step width b r k)
trim_step-IsClean width b r zero e h = inr e
trim_step-IsClean width b r (suc k) e h = h k

trim_from-IsClean :
    (width : Bytes → ℕ) (skip : ℕ) (s : Bytes) → IsClean width (trim_from width skip s)
unfolding trim_from
trim_from-IsClean width zero [] = inl refl
trim_from-IsClean width (suc skip) [] = inl refl
trim_from-IsClean width (suc skip) (b ∷ r) = trim_from-IsClean width skip r
trim_from-IsClean width zero (b ∷ r) =
    let k = width (b ∷ r) in
    subst (IsClean width) (sym (trim_from-trim_step width b r k refl))
      (trim_step-IsClean width b r k refl (λ n. trim_from-IsClean width n r))

trim_step_end :
    (width : Bytes → ℕ) (b : ℕ) (r : Bytes) (k : ℕ)
    → ((n : ℕ) → (p : Bytes) × (r ≡ p ++ trim_from width n r))
    → (p : Bytes) × (b ∷ r ≡ p ++ trim_step width b r k)
trim_step_end width b r zero h = ([], refl)
trim_step_end width b r (suc k) h = let (p, e) = h k in (b ∷ p, ap (λ q. b ∷ q) e)

-- What is left is an end of the text.
trim_from_end :
    (width : Bytes → ℕ) (skip : ℕ) (s : Bytes) → (p : Bytes) × (s ≡ p ++ trim_from width skip s)
unfolding trim_from
trim_from_end width zero [] = ([], refl)
trim_from_end width (suc skip) [] = ([], refl)
trim_from_end width (suc skip) (b ∷ r) =
    let (p, e) = trim_from_end width skip r in (b ∷ p, ap (λ q. b ∷ q) e)
trim_from_end width zero (b ∷ r) =
    let k = width (b ∷ r) in
    let rest = λ (n : ℕ). trim_from_end width n r in
    subst (λ q. (p : Bytes) × (b ∷ r ≡ p ++ q)) (sym (trim_from-trim_step width b r k refl))
      (trim_step_end width b r k rest)

nil_cases : (s : Bytes) → (s ≡ []) ⊎ (s ≢ [])
nil_cases [] = inl refl
nil_cases (b ∷ s) = inr (λ e. cc)

trim_right_prefix : (s : Bytes) → (q : Bytes) × (s ≡ trim_right s ++ q)
unfolding trim_right
trim_right_prefix s =
    let (p, e) = trim_from_end space_width_back 0 (reverse s) in
    (
      reverse p,
      sym (reverse-reverse s)
          ∙ ap reverse e
          ∙ reverse-append p (trim_from space_width_back 0 (reverse s)),
    )

space_width_prefix : (s q : Bytes) → s ≢ [] → space_width (s ++ q) ≡ 0 → space_width s ≡ 0
unfolding space_width
space_width_prefix [] q n h = absurd (n refl)
space_width_prefix (a ∷ []) [] n h = h
space_width_prefix (a ∷ []) (b ∷ []) n h = ground (arith, h)
space_width_prefix (a ∷ []) (b ∷ c ∷ q) n h = ground (arith, h)
space_width_prefix (a ∷ b ∷ []) [] n h = h
space_width_prefix (a ∷ b ∷ []) (c ∷ q) n h = ground (arith, h)
space_width_prefix (a ∷ b ∷ c ∷ s) q n h = h

right-IsTrimmed : (l : Bytes) → space_width l ≡ 0 → trim_right l ≢ [] → IsTrimmed (trim_right l)
unfolding trim_right
right-IsTrimmed l h n =
    let r = trim_from space_width_back 0 (reverse l) in
    let (q, e) = trim_right_prefix l in
    record {
      filled = n;
      head = space_width_prefix (trim_right l) q n (ap space_width (sym e) ∙ h);
      last = elim (trim_from-IsClean space_width_back 0 (reverse l)) [
        | inl z ↦ absurd (n (ap reverse z))
        | inr w ↦ ap space_width_back (reverse-reverse r) ∙ w
      ];
    }

trim_nil : trim_space [] ≡ []
unfolding trim_space trim_left trim_right trim_from
trim_nil = refl

-- A text that is trimmed is blank or begins and ends with no white space.
pub trim_space_filled : (s : Bytes) → trim_space s ≢ [] → IsTrimmed (trim_space s)
unfolding trim_space trim_left trim_right trim_from
trim_space_filled s n = elim (trim_from-IsClean space_width 0 s) [
  | inl z ↦ absurd (n (ap trim_right z))
  | inr w ↦ right-IsTrimmed (trim_left s) w n
]

pub trim_space_again : (s : Bytes) → trim_space (trim_space s) ≡ trim_space s
trim_space_again s = elim (nil_cases (trim_space s)) [
  | inl e ↦ ap trim_space e ∙ trim_nil ∙ sym e
  | inr n ↦ trim_space-IsTrimmed (trim_space s) (trim_space_filled s n)
]
