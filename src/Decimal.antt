-- ===== src/Decimal.antt =====
-- What the program uses of Go's package strconv: decimal numbers as texts.
use agent_cortex.Prelude.{
  ℕ, zero, suc, ◌+◌, ◌-◌, ◌*◌, ◌/◌, ◌%◌, ◌^◌, ◌<◌, ◌≡◌, ◌≢◌, refl, Bool, true, false, ◌&&◌, Bytes,
  [], ◌∷◌, ◌++◌, Option, none, some, All, All-append, All-map, arith, ltb, leb, ◌==◌, Bool-cases,
  inl, inr, if◌then◌else◌,
}
use mathlib.Core.Option
use agent_cortex.Prelude.Int.{ℤ, pos, negsuc}
use agent_cortex.Strings.Search.{Free}
use agent_cortex.Strings.Trim.{cons_middle}

abbrev pub digit : ℕ → ℕ
digit n = b'0' + n % 10

abbrev pub is_digit : ℕ → Bool
is_digit c = leb b'0' c && leb c b'9'

-- The digits of a number, on fuel; a number needs no more fuel than itself and one.
unfoldable pub digits : ℕ → ℕ → Bytes
digits zero n = []
digits (suc f) n =
    let rest = digits f (n / 10) in if ltb n 10 then digit n ∷ [] else rest ++ digit n ∷ []

-- `Itoa` of a number that is not negative, and `%d`
unfoldable pub itoa : ℕ → Bytes
unfolding digits
itoa n = digits (suc n) n

unfoldable pub read_digits : ℕ → Bytes → Option ℕ
read_digits acc [] = some acc
read_digits acc (c ∷ s) = if is_digit c then read_digits (acc * 10 + (c - b'0')) s else none

-- At least one digit, and a number below a bound.
abbrev pub read_below : ℕ → Bytes → Option ℕ
read_below bound [] = none
read_below bound (c ∷ s) = elim (read_digits 0 (c ∷ s)) [
  | none ↦ none
  | some n ↦ if ltb n bound then some n else none
]

abbrev pub negated : ℕ → ℤ
negated zero = pos 0
negated (suc n) = negsuc n

-- `Atoi`, which takes a sign and fails outside of 64 bits.
unfoldable pub atoi : Bytes → Option ℤ
unfolding read_digits
atoi [] = none
atoi (c ∷ s) =
    if c == b'-'
    then Option.map negated (read_below (2 ^ 63 + 1) s)
    else if c == b'+'
    then Option.map pos (read_below (2 ^ 63) s)
    else Option.map pos (read_below (2 ^ 63) (c ∷ s))

read_digits-append :
    (acc : ℕ) (s t : Bytes) (n : ℕ)
    → read_digits acc s ≡ some n
    → read_digits acc (s ++ t) ≡ read_digits n t
unfolding read_digits
read_digits-append acc [] t n h = ground arith
read_digits-append acc (c ∷ s) t n h =
    ground (arith, read_digits-append (acc * 10 + (c - b'0')) s t n)

read_digits-digits : (f n : ℕ) → n < f → read_digits 0 (digits f n) ≡ some n
unfolding digits read_digits
read_digits-digits zero n h = absurd (omega (arith, h))
read_digits-digits (suc f) n h = ground (
  arith,
  read_digits-digits f (n / 10),
  read_digits-append 0 (digits f (n / 10)) (digit n ∷ []) (n / 10),
)

-- Only digits are written.
abbrev pub AllDigits : Bytes → Type 0
AllDigits = All (λ c. is_digit c ≡ true)

digits-AllDigits : (f n : ℕ) → AllDigits (digits f n)
unfolding digits
digits-AllDigits zero n = tt
digits-AllDigits (suc f) n = elim (Bool-cases (ltb n 10)) [
  | inl e ↦ rw e (ground arith, tt)
  | inr e ↦ rw e (
      All-append (λ c. is_digit c ≡ true) (digits f (n / 10)) (digit n ∷ [])
        (digits-AllDigits f (n / 10)) (ground arith, tt))
]

pub itoa-AllDigits : (n : ℕ) → AllDigits (itoa n)
unfolding itoa
itoa-AllDigits n = digits-AllDigits (suc n) n

pub itoa-Free : (c n : ℕ) → is_digit c ≡ false → Free c (itoa n)
itoa-Free c n h =
    All-map (λ b. is_digit b ≡ true) (λ b. b ≢ c) (itoa n) (λ b d e. ground (arith, d, e, h))
      (itoa-AllDigits n)

atoi_digits :
    (s : Bytes) (n : ℕ)
    → AllDigits s
    → s ≢ []
    → read_digits 0 s ≡ some n
    → n < 2 ^ 63
    → atoi s ≡ some (pos n)
unfolding atoi
atoi_digits [] n d e r h = absurd (e refl)
atoi_digits (c ∷ s) n d e r h = ground (arith, d.0, r)

digits-ne-nil : (f n : ℕ) → digits (suc f) n ≢ []
unfolding digits
digits-ne-nil f n = elim (Bool-cases (ltb n 10)) [
  | inl e ↦ rw e (λ h. cc)
  | inr e ↦ rw e (cons_middle (digits f (n / 10)) (digit n) [])
]

itoa-ne-nil : (n : ℕ) → itoa n ≢ []
unfolding itoa
itoa-ne-nil n = digits-ne-nil n n

-- A number below 2^63 is read back from its digits.
pub atoi-itoa : (n : ℕ) → n < 2 ^ 63 → atoi (itoa n) ≡ some (pos n)
atoi-itoa n h =
    atoi_digits (itoa n) n (itoa-AllDigits n) (itoa-ne-nil n)
      (unfold itoa in read_digits-digits (suc n) n (omega arith)) h
