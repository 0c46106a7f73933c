-- ===== src/Http/Markdown/Parser.antt =====
-- internal/transport/http/memory_markdown.go, `memoryMarkdownEntriesByID`. A Go slice expression out of
-- range panics, so a parse ends in a value, an error or a panic.
use agent_cortex.Prelude.{
  ℕ, zero, suc, ◌-◌, Bool, true, false, not, Bytes, bytes_eq, List, [], ◌∷◌, ◌++◌, Option, none,
  some, length, if◌then◌else◌, is_some,
}
use mathlib.Core.Option
use agent_cortex.Prelude.Int.{pos, ltb_ℤ, add64}
use agent_cortex.Strings.{trim_space, after_prefix, seek, cut_line}
use agent_cortex.Errors.{Error, Result, ok, err, sentinel, memory_markdown, as_markdown_error}
use agent_cortex.TimeFormat.{TimeFormat}
use agent_cortex.Http.Markdown.{
  Entry, begin_prefix, end_marker, parse_begin_line, memory_id_from, recorded_at_from,
}

pub data Parsed {ℓ} (A : Type ℓ) : Type ℓ where
  done : A → Parsed A
  failed : Error → Parsed A
  panicked : Parsed A

module _ {ℓ κ} {V : Type ℓ} {W : Type κ} where
  infixl 5 ◌>>=◌
  abbrev pub ◌>>=◌ : Parsed V → (V → Parsed W) → Parsed W
  panicked >>= next = panicked
  failed e >>= next = failed e
  done v >>= next = next v

module _ {ℓ} {W : Type ℓ} where
  infixl 5 ◌>>◌
  abbrev pub ◌>>◌ : Parsed (Unit {0}) → Parsed W → Parsed W
  panicked >> next = panicked
  failed e >> next = failed e
  done _ >> next = next

abbrev pub parsed {ℓ} : {A : Type ℓ} → Result A → Parsed A
parsed (ok a) = done a
parsed (err e) = failed e

abbrev pub must {ℓ} : {A : Type ℓ} → Option A → Parsed A
must none = failed (sentinel memory_markdown)
must (some a) = done a

abbrev pub check : Bool → Parsed (Unit {0})
check true = done tt
check false = failed (sentinel memory_markdown)

unfoldable pub split_at : ℕ → Bytes → Option (Bytes × Bytes)
split_at zero s = some ([], s)
split_at (suc n) [] = none
split_at (suc n) (b ∷ s) = Option.map (λ p. (b ∷ p.0, p.1)) (split_at n s)

-- `data[payloadStart:payloadEnd]` with the test before it, for `payloadEnd` a 64-bit sum.
unfoldable pub slice : ℕ → ℕ → Bytes → Parsed (Bytes × Bytes)
unfolding split_at
slice total n rest =
    let start = pos (total - length rest) in
    let end = add64 start (pos n) in
    if ltb_ℤ (pos total) end
    then failed (sentinel memory_markdown)
    else if ltb_ℤ end start
    then panicked
    else must (split_at n rest)

-- The map of entries, in the order of the file.
abbrev pub Entries : Type 0
Entries = List (Bytes × Entry)

unfoldable pub entry_of : Bytes → Entries → Option Entry
entry_of id [] = none
entry_of id ((j, e) ∷ es) = if bytes_eq j id then some e else entry_of id es

-- The checks of a payload behind its markers.
unfoldable pub entry_from : TimeFormat → Entries → Bytes → Bytes → Parsed Entry
unfolding entry_of
entry_from f found id text = do
  check (not (is_some (entry_of id found)))
  named ← must (memory_id_from text)
  check (bytes_eq named id)
  t ← must (recorded_at_from f text)
  done (record { id = id; recorded_at = t; payload = text; content = trim_space text })

-- The body of the loop, from a begin marker on, with what stands behind the end marker.
unfoldable pub one_entry : TimeFormat → ℕ → Entries → Bytes → Parsed (Entry × Bytes)
unfolding slice entry_from
one_entry f total found s = do
  cut ← must (cut_line s)
  head ← parsed (as_markdown_error (parse_begin_line cut.0))
  body ← slice total head.1 cut.1
  behind ← must (after_prefix (end_marker head.0) body.1)
  e ← entry_from f found head.0 body.0
  done (e, behind)

-- The loop, on fuel: `none` says that the fuel ran out.
unfoldable pub scan : TimeFormat → ℕ → ℕ → Bytes → Entries → Option (Parsed Entries)
scan f zero total s found = none
scan f (suc fuel) total s found = elim (seek begin_prefix s) [
  | none ↦ some (done found)
  | some r ↦ elim (one_entry f total found r) [
    | failed e ↦ some (failed e)
    | panicked ↦ some panicked
    | done p ↦ scan f fuel total p.1 (found ++ (p.0.id, p.0) ∷ [])
  ]
]

-- A file with no marker is an error.
abbrev pub if_marked : Option (Parsed Entries) → Parsed Entries
if_marked none = failed (sentinel memory_markdown)
if_marked (some (failed e)) = failed e
if_marked (some panicked) = panicked
if_marked (some (done [])) = failed (sentinel memory_markdown)
if_marked (some (done (e ∷ es))) = done (e ∷ es)

-- `memoryMarkdownEntriesByID`
unfoldable pub entries_by_id : TimeFormat → Bytes → Parsed Entries
unfolding scan one_entry
entries_by_id f content = if_marked (scan f (suc (length content)) (length content) content [])
