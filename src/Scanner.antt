-- ===== src/Scanner.antt =====
-- What the program uses of Go's package bufio: a `Scanner` of lines, on the bytes that a reader gives and
-- the error behind them. A line that does not fit the buffer ends the scan.
use agent_cortex.Prelude.{
  ℕ, false, Bytes, List, [], ◌∷◌, ◌++◌, Option, none, some, length, leb, ◌==◌, Bool-cases, inl, inr,
  ◌∙◌, ap, if◌then◌else◌, ◌≡◌, ◌≢◌, refl, arith,
}
use agent_cortex.Prelude.Text.{codes}
use agent_cortex.Strings.{push_head, is_empty, before_suffix, split_lines}
use agent_cortex.Strings.Search.{Free, split_lines-append}
use agent_cortex.Errors.{Error, foreign}

-- `ErrTooLong`
abbrev pub too_long : Error
too_long = foreign (codes "bufio.Scanner: token too long")

-- A line without the carriage return at its end.
unfoldable pub drop_cr : Bytes → Bytes
unfolding before_suffix
drop_cr l = elim (before_suffix (b'\r' ∷ []) l) [ some r ↦ r | none ↦ l ]

-- The lines of a text split at its line feeds, and the error that ends the scan.
unfoldable pub scan_lines : ℕ → List Bytes → Option Error → List Bytes × Option Error
unfolding drop_cr
scan_lines size [] end = ([], end)
scan_lines size (l ∷ []) end =
    if is_empty l
    then ([], end)
    else if leb size (length l)
    then ([], some too_long)
    else (drop_cr l ∷ [], end)
scan_lines size (l ∷ m ∷ ls) end =
    let rest = scan_lines size (m ∷ ls) end in
    if leb size (length l) then ([], some too_long) else (drop_cr l ∷ rest.0, rest.1)

-- A reader: its bytes, and the error behind them if it does not just end.
abbrev pub Reader : Type 0
Reader = Bytes × Option Error

abbrev pub scan : ℕ → Reader → List Bytes × Option Error
scan size (s, end) = scan_lines size (split_lines s) end

split_lines_filled : (s : Bytes) → split_lines s ≢ []
unfolding split_lines
split_lines_filled [] e = cc (e)
split_lines_filled (b ∷ s) e = ground (arith, e, split_lines_filled s)

scan_lines_more :
    (size : ℕ) (l : Bytes) (ls : List Bytes) (end : Option Error)
    → ls ≢ []
    → leb size (length l) ≡ false
    → scan_lines size (l ∷ ls) end
      ≡ (drop_cr l ∷ (scan_lines size ls end).0, (scan_lines size ls end).1)
unfolding scan_lines
scan_lines_more size l [] end n h = absurd (n refl)
scan_lines_more size l (m ∷ ls) end n h = rw (h) refl

-- A line that fits is scanned, and the scan goes on behind its line feed.
pub scan-append :
    (size : ℕ) (l s : Bytes) (end : Option Error)
    → Free b'\n' l
    → leb size (length l) ≡ false
    → scan size (l ++ b'\n' ∷ s, end) ≡ (drop_cr l ∷ (scan size (s, end)).0, (scan size (s, end)).1)
scan-append size l s end f h =
    rw (split_lines-append l s f)
      (scan_lines_more size l (split_lines s) end (split_lines_filled s) h)

-- The lines do not depend on the error behind the bytes.
pub scan_lines_end :
    (size : ℕ) (ls : List Bytes) (end stop : Option Error)
    → (scan_lines size ls end).0 ≡ (scan_lines size ls stop).0
unfolding scan_lines
scan_lines_end size [] end stop = refl
scan_lines_end size (l ∷ []) end stop = ground (arith)
scan_lines_end size (l ∷ m ∷ ls) end stop = ground (arith, scan_lines_end size (m ∷ ls) end stop)

-- The lines in front of a line feed are the first ones of the whole text.
scan_lines_cut :
    (size : ℕ) (ls : List Bytes) (n : Bytes) (ns : List Bytes) (end stop : Option Error)
    → (rest : List Bytes) × ((scan_lines size (ls ++ n ∷ ns) end).0
        ≡ (scan_lines size (ls ++ [] ∷ []) stop).0 ++ rest)
unfolding scan_lines
scan_lines_cut size [] n ns end stop = ((scan_lines size (n ∷ ns) end).0, refl)
scan_lines_cut size (l ∷ []) n ns end stop = elim (Bool-cases (leb size (length l))) [
  | inl e ↦ ([], rw (e) refl)
  | inr e ↦ ((scan_lines size (n ∷ ns) end).0, rw (e) refl)
]
scan_lines_cut size (l ∷ m ∷ ls) n ns end stop = elim (Bool-cases (leb size (length l))) [
  | inl e ↦ ([], rw (e) refl)
  | inr e ↦
      let (rest, h) = scan_lines_cut size (m ∷ ls) n ns end stop in
      (rest, rw (e) (ap (λ k. drop_cr l ∷ k) h))
]

pushed : (b : ℕ) (ls ms : List Bytes) → ls ≢ [] → push_head b (ls ++ ms) ≡ push_head b ls ++ ms
pushed b [] ms n = absurd (n refl)
pushed b (l ∷ ls) ms n = refl

filled_cases : (ls : List Bytes) → ls ≢ [] → (n : Bytes) × (ns : List Bytes) × (ls ≡ n ∷ ns)
filled_cases [] h = absurd (h refl)
filled_cases (n ∷ ns) h = (n, ns, refl)

split_lines_feed : (s t : Bytes) → split_lines (s ++ b'\n' ∷ t) ≡ split_lines s ++ split_lines t
unfolding split_lines
split_lines_feed [] t = refl
split_lines_feed (b ∷ s) t = elim (Bool-cases (b == b'\n')) [
  | inl e ↦ rw (e) (ap (λ k. [] ∷ k) (split_lines_feed s t))
  | inr e ↦ rw (e) (
      ap (push_head b) (split_lines_feed s t)
      ∙ pushed b (split_lines s) (split_lines t) (split_lines_filled s))
]

-- A text that is cut behind a line feed has the first lines of the whole text.
pub scan_cut :
    (size : ℕ) (s t : Bytes) (end stop : Option Error)
    → (rest : List Bytes) × ((scan size (s ++ b'\n' ∷ t, end)).0
        ≡ (scan size (s ++ b'\n' ∷ [], stop)).0 ++ rest)
unfolding split_lines
scan_cut size s t end stop =
    let (n, ns, e) = filled_cases (split_lines t) (split_lines_filled t) in
    let (rest, h) = scan_lines_cut size (split_lines s) n ns end stop in
    (rest, rw (split_lines_feed s t, split_lines_feed s [], e) h)
