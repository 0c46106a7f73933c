-- ===== src/Http/MemoryFiles/Writes.antt =====
-- internal/transport/http/memory_markdown.go, `writeMemoryMarkdown`: what the file then reads back as.
use agent_cortex.Prelude.{
  ℕ, true, false, Bytes, [], ◌∷◌, ◌++◌, Option, none, some, length, ◌≡◌, refl, sym, ap, ◌∙◌, ◌<◌,
  ◌^◌, arith, Option-cases, Bool-cases, inl, inr, ◌⊎◌,
}
use mathlib.Core.Path.{subst}
use agent_cortex.RateLimit.Types.{is_zero}
use agent_cortex.Errors.{Error, Result, ok, err, file_exists, is_error}
use agent_cortex.TimeFormat.{TimeFormat, IsLawful}
use agent_cortex.Memory.{Memory}
use agent_cortex.Files.{
  Node, file, folder, Disk, Faults, node, put_node, contents, markdown_file_path,
  markdown_file_exists, create_markdown_file, append_markdown_file, append_to, create_in, make_dir,
  or_fault, is_file,
}
use agent_cortex.Files.Laws.{node-put_node, append_to-ok, create_in-ok, create_in-err}
use agent_cortex.Http.Ids.{is_path_id}
use agent_cortex.Http.Markdown.{framed, payload, preamble, new_content, append_content}
use agent_cortex.Http.Markdown.Parser.{
  Parsed, done, failed, panicked, Entries, entry_of, entries_by_id,
}
use agent_cortex.Http.Markdown.Frame.{IsMarkerId}
use agent_cortex.Http.Markdown.Append.{entry_for}
use agent_cortex.Http.Markdown.RoundTrip.{
  entries_by_id-append, entries_by_id-new, append_content_ok, new_content_ok,
}
use agent_cortex.Http.MemoryFiles.{
  read_entries, parse_file, joined, write_on, write_by, create_checked, created, wrapped,
}

wrapped_done : (r : Disk × Result (Unit {0})) (d : Disk) → wrapped r ≡ (d, done tt) → r ≡ (d, ok tt)
wrapped_done (d', ok a) d h = cc (h)
wrapped_done (d', err e) d h = cc (h)

-- The entries of a file before it is written; a file that is not there has none.
abbrev pub entries_held : TimeFormat → Option Node → Parsed Entries
entries_held f none = done []
entries_held f (some n) = parse_file f (contents (some n))

joined_done : (p : Parsed Entries) (es : Entries) → joined p ≡ done es → p ≡ done es
joined_done (done a) es h = h
joined_done (failed e) es h = cc (h)
joined_done panicked es h = cc (h)

read_entries-node :
    (f : TimeFormat) (x : Faults) (d : Disk) (dir name text : Bytes) (es : Entries)
    → x.read name ≡ none
    → node dir name d ≡ some (file text)
    → entries_by_id f text ≡ done es
    → read_entries f x d dir name ≡ done es
unfolding read_entries
read_entries-node f x d dir name text es r n e = rw (r, n, e) refl

module _ (f : TimeFormat) (lawful : IsLawful f) (x : Faults) (d : Disk) (m : Memory)
    (dir name : Bytes) (years : f.in_years m.recorded_at ≡ true)
    (set : is_zero m.recorded_at ≡ false) (marker : IsMarkerId m.id)
    (user : is_path_id m.user_id ≡ true) (agent : is_path_id m.agent_id ≡ true)
    (path : markdown_file_path dir name ≡ ok (dir, name)) (reads : x.read name ≡ none) where
  -- The file that is written stays below 2^63 bytes.
  abbrev pub IsSmall : Disk → Type 0
  IsSmall d' = (t : Bytes) → node dir name d' ≡ some (file t) → length t < 2 ^ 63

  appended_reads :
      (d' : Disk) (old text : Bytes) (es : Entries)
      → entries_by_id f old ≡ done es
      → entry_of m.id es ≡ none
      → append_content f m ≡ ok text
      → IsSmall d'
      → node dir name d ≡ some (file old)
      → wrapped (append_markdown_file x d dir name text) ≡ (d', done tt)
      → read_entries f x d' dir name ≡ done (es ++ (m.id, entry_for f m m.recorded_at) ∷ [])
  unfolding append_markdown_file append_content
  appended_reads d' old text es e new a small n h =
      let ran : append_markdown_file x d dir name text
          ≡ append_to x d dir name text (some (file old)) =
        rw (path, n) refl in
      let stands : d' ≡ put_node dir name (file (old ++ text)) d =
        append_to-ok x d d' dir name old text
          (sym ran ∙ wrapped_done (append_markdown_file x d dir name text) d' h) in
      let holds : node dir name d' ≡ some (file (old ++ text)) =
        subst (λ y. node dir name y ≡ some (file (old ++ text))) (sym stands)
          (node-put_node dir name (file (old ++ text)) d) in
      read_entries-node f x d' dir name (old ++ text) _ reads holds (
        entries_by_id-append f lawful m years set marker old es text e new a
          (small (old ++ text) holds))

  created_reads :
      (d' : Disk) (text : Bytes)
      → new_content f m ≡ ok text
      → IsSmall d'
      → node dir name d ≡ none
      → create_markdown_file x d dir name text ≡ (d', ok tt)
      → read_entries f x d' dir name ≡ done ((m.id, entry_for f m m.recorded_at) ∷ [])
  unfolding create_markdown_file new_content
  created_reads d' text c small n h =
      let ran : create_markdown_file x d dir name text ≡ create_in x d text (dir, name) =
        rw (path) refl in
      let stands : d' ≡ put_node dir name (file text) (make_dir dir d) =
        create_in-ok x d d' dir name text n (sym ran ∙ h) in
      let holds : node dir name d' ≡ some (file text) =
        subst (λ y. node dir name y ≡ some (file text)) (sym stands)
          (node-put_node dir name (file text) (make_dir dir d)) in
      read_entries-node f x d' dir name text _ reads holds
        (entries_by_id-new f lawful m years set marker text user agent c (small text holds))

  -- A file that is not there is made, or the write fails.
  created_done :
      (d' : Disk) (r : Disk × Result (Unit {0}))
      → ((d2 : Disk) (e : Error)
          → r ≡ (d2, err e)
          → (is_error e file_exists ≡ false) ⊎ (node dir name d2 ≡ none))
      → created f x dir name m r ≡ (d', done tt)
      → r ≡ (d', ok tt)
  unfolding read_entries
  created_done d' (d2, ok a) n h = cc (h)
  created_done d' (d2, err e) n h = elim (n d2 e refl) [
    | inl p ↦ ground (arith, p, h)
    | inr p ↦ elim (Bool-cases (is_error e file_exists)) [
      | inl q ↦ ground (arith, p, q, reads, h)
      | inr q ↦ ground (arith, p, q, reads, h)
    ]
  ]

  write_by_appends :
      (d' : Disk) (old : Bytes) (es : Entries)
      → entries_by_id f old ≡ done es
      → node dir name d ≡ some (file old)
      → write_by f x d dir name m (ok true) ≡ (d', done tt)
      → (text : Bytes) × (append_content f m ≡ ok text)
        × (wrapped (append_markdown_file x d dir name text) ≡ (d', done tt))
  write_by_appends d' old es e n h =
      let c = append_content_ok f lawful m years set marker in
      let ran : write_by f x d dir name m (ok true) ≡ _ =
        rw (read_entries-node f x d dir name old es reads n e, c) refl in
      (_, c, sym ran ∙ h)

  write_by_creates :
      (d' : Disk)
      → node dir name d ≡ none
      → ((k : ℕ) (w : Error) → x.write_new ≡ some (k, w) → is_error w file_exists ≡ false)
      → write_by f x d dir name m (ok false) ≡ (d', done tt)
      → (text : Bytes) × (new_content f m ≡ ok text)
        × (create_markdown_file x d dir name text ≡ (d', ok tt))
  unfolding create_markdown_file
  write_by_creates d' n plain h =
      let text : Bytes = preamble m (framed m.id (payload f m m.recorded_at)) in
      let c : new_content f m ≡ ok text = new_content_ok f lawful m years set marker in
      let ran : write_by f x d dir name m (ok false)
          ≡ created f x dir name m (create_markdown_file x d dir name text) =
        ap (create_checked f x d dir name m) c in
      let made : create_markdown_file x d dir name text ≡ create_in x d text (dir, name) =
        rw (path) refl in
      (
        text,
        c,
        created_done d' (create_markdown_file x d dir name text)
            (λ d2 e q. create_in-err x d d2 dir name text e plain n (sym made ∙ q)) (sym ran ∙ h),
      )

  write_by-read_entries :
      (d' : Disk) (es : Entries) (n : Option Node)
      → node dir name d ≡ n
      → entries_held f n ≡ done es
      → entry_of m.id es ≡ none
      → IsSmall d'
      → ((k : ℕ) (w : Error) → x.write_new ≡ some (k, w) → is_error w file_exists ≡ false)
      → write_by f x d dir name m (ok (is_file n)) ≡ (d', done tt)
      → read_entries f x d' dir name ≡ done (es ++ (m.id, entry_for f m m.recorded_at) ∷ [])
  write_by-read_entries d' [] none n e new small plain h =
      let (text, c, r) = write_by_creates d' n plain h in created_reads d' text c small n r
  write_by-read_entries d' (y ∷ es) none n e new small plain h = cc (e)
  write_by-read_entries d' es (some folder) n e new small plain h = cc (e)
  write_by-read_entries d' es (some (file old)) n e new small plain h =
      let parsed = joined_done (entries_by_id f old) es e in
      let (text, c, r) = write_by_appends d' old es parsed n h in
      appended_reads d' old text es parsed new c small n r

  -- What a write of a memory leaves in its file: the entries that stood there and, behind them, the one
  -- entry of the memory with the time kept to the second.
  pub write_on-read_entries :
      (d' : Disk) (es : Entries)
      → entries_held f (node dir name d) ≡ done es
      → entry_of m.id es ≡ none
      → IsSmall d'
      → ((k : ℕ) (w : Error) → x.write_new ≡ some (k, w) → is_error w file_exists ≡ false)
      → write_on f x d m (ok (dir, name)) ≡ (d', done tt)
      → read_entries f x d' dir name ≡ done (es ++ (m.id, entry_for f m m.recorded_at) ∷ [])
  unfolding write_on markdown_file_exists
  write_on-read_entries d' es e new small plain h =
      let unfaulted : (o : Option Error)
          → o ≡ none
          → or_fault o (ok (is_file (node dir name d))) ≡ ok (is_file (node dir name d)) =
        λ o a. rw (a) refl in
      let faulted : (o : Option Error) (b : Error)
          → o ≡ some b
          → or_fault o (ok (is_file (node dir name d))) ≡ err b =
        λ o b a. rw (a) refl in
      let ran : markdown_file_exists x d dir name
          ≡ or_fault x.stat (ok (is_file (node dir name d))) =
        rw (path) refl in
      elim (Option-cases x.stat) [
        | inl a ↦
            write_by-read_entries d' es (node dir name d) refl e new small plain
              (sym (ap (write_by f x d dir name m) (ran ∙ unfaulted x.stat a)) ∙ h)
        | inr (b, a) ↦ cc (ap (write_by f x d dir name m) (ran ∙ faulted x.stat b a), h)
      ]
