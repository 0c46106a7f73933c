-- ===== src/Prelude/Int.antt =====
-- Signed integers over the native numbers, under the library's names, and Go's int64 arithmetic.
use agent_cortex.Prelude.Tests.{ltb, leb, if◌then◌else◌}
use Prim.Native.Nat.{ℕ, suc, ◌+◌, ◌-◌, ◌*◌, ◌/◌, ◌%◌, ◌^◌, ◌≤◌, ◌<◌}
use mathlib.Core.Path.{◌≡◌, refl}
use mathlib.Core.Logic.{◌⊎◌, inl, inr}
use mathlib.Core.Bool.{Bool, ◌&&◌}
use native.Mathlib.Omega.{arith}

-- `negsuc n` is -(n + 1).
pub data ℤ : Type 0 where
  pos : ℕ → ℤ
  negsuc : ℕ → ℤ

abbrev pub pos_part : ℤ → ℕ
pos_part (pos n) = n
pos_part (negsuc n) = 0

abbrev pub neg_part : ℤ → ℕ
neg_part (pos n) = 0
neg_part (negsuc n) = suc n

-- a - b, as an integer.
abbrev pub sub_ℕ : ℕ → ℕ → ℤ
sub_ℕ a b = if leb b a then pos (a - b) else negsuc (b - a - 1)

infixl 65 ◌+ℤ◌ ◌-ℤ◌
infixl 70 ◌*ℤ◌
infix 50 ◌≤ℤ◌ ◌<ℤ◌
unfoldable pub ◌+ℤ◌ : ℤ → ℤ → ℤ
a +ℤ b = sub_ℕ (pos_part a + pos_part b) (neg_part a + neg_part b)

unfoldable pub ◌-ℤ◌ : ℤ → ℤ → ℤ
a -ℤ b = sub_ℕ (pos_part a + neg_part b) (neg_part a + pos_part b)

unfoldable pub ◌*ℤ◌ : ℤ → ℤ → ℤ
a *ℤ b =
    sub_ℕ (pos_part a * pos_part b + neg_part a * neg_part b)
      (pos_part a * neg_part b + neg_part a * pos_part b)

abbrev pub ◌≤ℤ◌ : ℤ → ℤ → Type 0
a ≤ℤ b = pos_part a + neg_part b ≤ pos_part b + neg_part a

abbrev pub ◌<ℤ◌ : ℤ → ℤ → Type 0
a <ℤ b = pos_part a + neg_part b < pos_part b + neg_part a

abbrev pub ltb_ℤ : ℤ → ℤ → Bool
ltb_ℤ a b = ltb (pos_part a + neg_part b) (pos_part b + neg_part a)

abbrev pub leb_ℤ : ℤ → ℤ → Bool
leb_ℤ a b = leb (pos_part a + neg_part b) (pos_part b + neg_part a)

abbrev pub eqb_ℤ : ℤ → ℤ → Bool
eqb_ℤ a b = leb_ℤ a b && leb_ℤ b a

abbrev pub min_ℤ : ℤ → ℤ → ℤ
min_ℤ a b = if ltb_ℤ b a then b else a

abbrev pub max_ℤ : ℤ → ℤ → ℤ
max_ℤ a b = if ltb_ℤ a b then b else a

-- Go's integer division, which truncates toward 0. (A zero divisor panics in Go: callers exclude it.)
unfoldable pub quot_ℤ : ℤ → ℤ → ℤ
quot_ℤ (pos a) (pos b) = pos (a / b)
quot_ℤ (pos a) (negsuc b) = sub_ℕ 0 (a / suc b)
quot_ℤ (negsuc a) (pos b) = sub_ℕ 0 (suc a / b)
quot_ℤ (negsuc a) (negsuc b) = pos (suc a / suc b)

-- Division that rounds down, by a positive divisor: `math.Floor` of a quotient.
unfoldable pub floor_ℤ : ℤ → ℤ → ℤ
floor_ℤ (pos a) b = pos (a / pos_part b)
floor_ℤ (negsuc a) b = negsuc (a / pos_part b)

-- One lemma for each operation lets `omega` work with the operations shut.
pub +ℤ_parts :
    (a b : ℤ)
    → pos_part (a +ℤ b) + neg_part a + neg_part b ≡ neg_part (a +ℤ b) + pos_part a + pos_part b
unfolding ◌+ℤ◌
+ℤ_parts a b = ground arith

pub -ℤ_parts :
    (a b : ℤ)
    → pos_part (a -ℤ b) + neg_part a + pos_part b ≡ neg_part (a -ℤ b) + pos_part a + neg_part b
unfolding ◌-ℤ◌
-ℤ_parts a b = ground arith

pub one_sign : (a : ℤ) → (pos_part a ≡ 0) ⊎ (neg_part a ≡ 0)
one_sign (pos n) = inr refl
one_sign (negsuc n) = inl refl

pub eq_of_parts : (a b : ℤ) → pos_part a + neg_part b ≡ pos_part b + neg_part a → a ≡ b
eq_of_parts a b h = ground arith

pub ruleset int_laws = (arith, +ℤ_parts, -ℤ_parts, eq_of_parts)

-- The bounds of an int64.
abbrev pub IsInt64 : ℤ → Type 0
IsInt64 a = (pos_part a < 2 ^ 63) × (neg_part a ≤ 2 ^ 63)

-- The int64 with the bit pattern of an integer modulo 2^64.
unfoldable pub wrap64 : ℤ → ℤ
wrap64 a =
    let u = (pos_part a % 2 ^ 64 + 2 ^ 64 - neg_part a % 2 ^ 64) % 2 ^ 64 in
    if ltb u (2 ^ 63) then pos u else negsuc (2 ^ 64 - 1 - u)

pub wrap64_of_IsInt64 : (a : ℤ) → IsInt64 a → wrap64 a ≡ a
unfolding wrap64
wrap64_of_IsInt64 (pos n) h = ground arith
wrap64_of_IsInt64 (negsuc n) h = ground arith

pub wrap64-IsInt64 : (a : ℤ) → IsInt64 (wrap64 a)
unfolding wrap64
wrap64-IsInt64 a = ground arith

-- int64 arithmetic, which wraps.
unfoldable pub add64 : ℤ → ℤ → ℤ
add64 a b = wrap64 (a +ℤ b)

unfoldable pub sub64 : ℤ → ℤ → ℤ
sub64 a b = wrap64 (a -ℤ b)

unfoldable pub mul64 : ℤ → ℤ → ℤ
mul64 a b = wrap64 (a *ℤ b)

-- Where the exact result is an int64, the wrapped one is exact.
pub add64_exact :
    (a b : ℤ)
    → pos_part a + pos_part b < 2 ^ 63 + neg_part a + neg_part b
    → neg_part a + neg_part b ≤ 2 ^ 63 + pos_part a + pos_part b
    → add64 a b ≡ a +ℤ b
unfolding add64
add64_exact a b h k = wrap64_of_IsInt64 (a +ℤ b) (omega (arith, +ℤ_parts a b, one_sign (a +ℤ b)))

pub sub64_exact :
    (a b : ℤ)
    → pos_part a + neg_part b < 2 ^ 63 + neg_part a + pos_part b
    → neg_part a + pos_part b ≤ 2 ^ 63 + pos_part a + neg_part b
    → sub64 a b ≡ a -ℤ b
unfolding sub64
sub64_exact a b h k = wrap64_of_IsInt64 (a -ℤ b) (omega (arith, -ℤ_parts a b, one_sign (a -ℤ b)))

-- The same, in the form that `omega` reads.
pub add64_parts :
    (a b : ℤ)
    → pos_part a + pos_part b < 2 ^ 63 + neg_part a + neg_part b
    → neg_part a + neg_part b ≤ 2 ^ 63 + pos_part a + pos_part b
    → pos_part (add64 a b) + neg_part a + neg_part b
      ≡ neg_part (add64 a b) + pos_part a + pos_part b
add64_parts a b h k = rw (add64_exact a b h k) (+ℤ_parts a b)

pub sub64_parts :
    (a b : ℤ)
    → pos_part a + neg_part b < 2 ^ 63 + neg_part a + pos_part b
    → neg_part a + pos_part b ≤ 2 ^ 63 + pos_part a + neg_part b
    → pos_part (sub64 a b) + neg_part a + pos_part b
      ≡ neg_part (sub64 a b) + pos_part a + neg_part b
sub64_parts a b h k = rw (sub64_exact a b h k) (-ℤ_parts a b)

-- A product of non-negative numbers below the bound.
pub mul64_pos : (a b : ℕ) → a * b < 2 ^ 63 → mul64 (pos a) (pos b) ≡ pos (a * b)
unfolding mul64 ◌*ℤ◌ wrap64
mul64_pos a b h = ground arith
