-- ===== src/Strings.antt =====
-- What the program uses of Go's package strings, on the bytes of a text.
pub mod Trim
pub mod Trimmed
pub mod Search
use agent_cortex.Prelude.{
  ℕ, zero, suc, Bool, true, false, ◌&&◌, ◌||◌, Bytes, List, [], ◌∷◌, Option, none, some, leb, ◌==◌,
  if◌then◌else◌, is_some, bytes_eq,
}
use mathlib.Core.List.{reverse}
use mathlib.Core.Option

-- The white space of package unicode, by its UTF-8 encodings of one, two and three bytes.
abbrev pub is_space1 : ℕ → Bool
is_space1 a = (leb 9 a && leb a 13) || a == 32

abbrev pub is_space2 : ℕ → ℕ → Bool
is_space2 a b = a == 0xc2 && (b == 0x85 || b == 0xa0)

abbrev pub is_space3 : ℕ → ℕ → ℕ → Bool
is_space3 a b c =
    (a == 0xe1 && b == 0x9a && c == 0x80)
    || (a == 0xe2
        && b == 0x80
        && ((leb 0x80 c && leb c 0x8a) || c == 0xa8 || c == 0xa9 || c == 0xaf))
    || (a == 0xe2 && b == 0x81 && c == 0x9f)
    || (a == 0xe3 && b == 0x80 && c == 0x80)

-- The length of the white space character that a text begins with, or 0.
unfoldable pub space_width : Bytes → ℕ
space_width [] = 0
space_width (a ∷ []) = if is_space1 a then 1 else 0
space_width (a ∷ b ∷ []) = if is_space1 a then 1 else if is_space2 a b then 2 else 0
space_width (a ∷ b ∷ c ∷ r) =
    if is_space1 a then 1 else if is_space2 a b then 2 else if is_space3 a b c then 3 else 0

-- The same for the end of a text, on its bytes from the last one.
unfoldable pub space_width_back : Bytes → ℕ
space_width_back [] = 0
space_width_back (a ∷ []) = if is_space1 a then 1 else 0
space_width_back (a ∷ b ∷ []) = if is_space1 a then 1 else if is_space2 b a then 2 else 0
space_width_back (a ∷ b ∷ c ∷ r) =
    if is_space1 a then 1 else if is_space2 b a then 2 else if is_space3 c b a then 3 else 0

-- Drops `skip` bytes, and then every white space character.
unfoldable pub trim_from : (Bytes → ℕ) → ℕ → Bytes → Bytes
trim_from width skip [] = []
trim_from width (suc skip) (b ∷ r) = trim_from width skip r
trim_from width zero (b ∷ r) = elim (width (b ∷ r)) [ zero ↦ b ∷ r | suc k ↦ trim_from width k r ]

unfoldable pub trim_left : Bytes → Bytes
trim_left s = trim_from space_width 0 s

unfoldable pub trim_right : Bytes → Bytes
trim_right s = reverse (trim_from space_width_back 0 (reverse s))

-- `strings.TrimSpace`
unfoldable pub trim_space : Bytes → Bytes
trim_space s = trim_right (trim_left s)

-- `s == ""`
abbrev pub is_empty : Bytes → Bool
is_empty [] = true
is_empty (b ∷ r) = false

-- What follows a prefix, if the text has it: `HasPrefix` with `TrimPrefix`.
unfoldable pub after_prefix : Bytes → Bytes → Option Bytes
after_prefix [] s = some s
after_prefix (p ∷ ps) [] = none
after_prefix (p ∷ ps) (b ∷ s) = if p == b then after_prefix ps s else none

-- `HasPrefix`
abbrev pub has_prefix : Bytes → Bytes → Bool
has_prefix p s = is_some (after_prefix p s)

-- The text from the first place on where `p` stands: `Index`.
unfoldable pub seek : Bytes → Bytes → Option Bytes
seek p [] = if is_empty p then some [] else none
seek p (b ∷ s) = if has_prefix p (b ∷ s) then some (b ∷ s) else seek p s

-- `Contains`
abbrev pub contains : Bytes → Bytes → Bool
contains p s = is_some (seek p s)

unfoldable pub has_byte : ℕ → Bytes → Bool
has_byte c [] = false
has_byte c (b ∷ s) = (b == c) || has_byte c s

-- `ContainsAny`
unfoldable pub contains_any : Bytes → Bytes → Bool
contains_any chars [] = false
contains_any chars (b ∷ s) = has_byte b chars || contains_any chars s

-- What stands before a suffix, if the text has it: `HasSuffix` with `TrimSuffix`.
unfoldable pub before_suffix : Bytes → Bytes → Option Bytes
before_suffix p [] = if is_empty p then some [] else none
before_suffix p (b ∷ s) =
    if bytes_eq (b ∷ s) p then some [] else Option.map (λ r. b ∷ r) (before_suffix p s)

-- What stands before and behind the last place of `p`: `LastIndex`.
unfoldable pub cut_last : Bytes → Bytes → Option (Bytes × Bytes)
cut_last p [] = Option.map (λ r. ([], r)) (after_prefix p [])
cut_last p (b ∷ s) = elim (cut_last p s) [
  | some (l, r) ↦ some (b ∷ l, r)
  | none ↦ Option.map (λ r. ([], r)) (after_prefix p (b ∷ s))
]

-- What stands before and behind the first line feed: `IndexByte`.
unfoldable pub cut_line : Bytes → Option (Bytes × Bytes)
cut_line [] = none
cut_line (b ∷ s) =
    if b == b'\n' then some ([], s) else Option.map (λ p. (b ∷ p.0, p.1)) (cut_line s)

abbrev pub push_head : ℕ → List Bytes → List Bytes
push_head b [] = (b ∷ []) ∷ []
push_head b (l ∷ ls) = (b ∷ l) ∷ ls

-- `Split(s, "\n")`
unfoldable pub split_lines : Bytes → List Bytes
split_lines [] = [] ∷ []
split_lines (b ∷ s) = let rest = split_lines s in if b == b'\n' then [] ∷ rest else push_head b rest

-- The first bytes of a text.
unfoldable pub take : ℕ → Bytes → Bytes
take zero s = []
take (suc n) [] = []
take (suc n) (b ∷ s) = b ∷ take n s

abbrev between : ℕ → ℕ → ℕ → Bool
between low b high = leb low b && leb b high

-- A continuation byte of UTF-8, and a second byte behind a given first one.
abbrev continues : ℕ → Bool
continues b = between 0x80 b 0xbf

abbrev second_of_three : ℕ → ℕ → Bool
second_of_three a b =
    (a == 0xe0 && between 0xa0 b 0xbf)
    || (a == 0xed && between 0x80 b 0x9f)
    || ((between 0xe1 a 0xec || between 0xee a 0xef) && continues b)

abbrev second_of_four : ℕ → ℕ → Bool
second_of_four a b =
    (a == 0xf0 && between 0x90 b 0xbf)
    || (between 0xf1 a 0xf3 && continues b)
    || (a == 0xf4 && between 0x80 b 0x8f)

-- The number of bytes of the first code point; a byte of no code point counts as one.
unfoldable pub rune_width : Bytes → ℕ
rune_width (a ∷ b ∷ c ∷ d ∷ s) =
    if between 0xc2 a 0xdf && continues b
    then 2
    else if second_of_three a b && continues c
    then 3
    else if second_of_four a b && continues c && continues d
    then 4
    else 1
rune_width (a ∷ b ∷ c ∷ []) =
    if between 0xc2 a 0xdf && continues b
    then 2
    else if second_of_three a b && continues c
    then 3
    else 1
rune_width (a ∷ b ∷ []) = if between 0xc2 a 0xdf && continues b then 2 else 1
rune_width _ = 1

unfoldable pub count_runes : ℕ → Bytes → ℕ
count_runes skip [] = 0
count_runes (suc skip) (b ∷ s) = count_runes skip s
count_runes zero (b ∷ s) = elim (rune_width (b ∷ s)) [
  | zero ↦ suc (count_runes 0 s)
  | suc k ↦ suc (count_runes k s)
]

-- `len([]rune(s))`
abbrev pub rune_count : Bytes → ℕ
rune_count s = count_runes 0 s

-- The first bytes but those of a kind: `TrimLeft` of one byte.
unfoldable pub drop_byte : ℕ → Bytes → Bytes
drop_byte c [] = []
drop_byte c (b ∷ s) = let rest = drop_byte c s in if b == c then rest else b ∷ s

-- `TrimRight` of one byte
abbrev pub trim_right_byte : ℕ → Bytes → Bytes
trim_right_byte c s = reverse (drop_byte c (reverse s))
