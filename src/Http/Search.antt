-- ===== src/Http/Search.antt =====
-- internal/transport/http/handler.go, `replaceSearchContentFromMarkdown`: the contents of results are
-- those of the daily files. Go visits a map of paths in any order, an argument here.
pub mod Fresh
use agent_cortex.Prelude.{
  Bool, true, false, ◌&&◌, ◌||◌, Bytes, bytes_eq, List, [], ◌∷◌, map, if◌then◌else◌,
}
use agent_cortex.RateLimit.Types.{is_zero}
use agent_cortex.Errors.{Result, ok, err, sentinel, memory_markdown}
use agent_cortex.Errors as E
use agent_cortex.TimeFormat.{TimeFormat}
use agent_cortex.Memory.{SearchResult}
use agent_cortex.Files.{Disk, Faults}
use agent_cortex.Http.Ids.{daily_path}
use agent_cortex.Http.Markdown.Parser.{
  Parsed, done, failed, panicked, ◌>>=◌, must, parsed, Entries, entry_of,
}
use agent_cortex.Http.MemoryFiles.{read_entries}

-- A folder and a name.
abbrev pub Place : Type 0
Place = Bytes × Bytes

abbrev pub Located : Type 0
Located = Place × SearchResult

abbrev pub same_place : Place → Place → Bool
same_place p q = bytes_eq p.0 q.0 && bytes_eq p.1 q.1

abbrev pub locate : TimeFormat → Bytes → Bytes → Bytes → SearchResult → Result Located
locate f base user_id agent_id r =
    if is_zero r.recorded_at
    then err (sentinel memory_markdown)
    else E.◌>>=◌ (daily_path f base user_id agent_id r.recorded_at) (λ p. ok (p, r))

-- The first loop: the file of each result.
unfoldable pub locate_all :
    TimeFormat → Bytes → Bytes → Bytes → List SearchResult → Result (List Located)
locate_all f base user_id agent_id [] = ok []
locate_all f base user_id agent_id (r ∷ rs) =
    E.◌>>=◌ (locate f base user_id agent_id r)
      (λ l. E.◌>>=◌ (locate_all f base user_id agent_id rs) (λ ls. ok (l ∷ ls)))

abbrev pub replace_one : Place → Entries → Located → Parsed Located
replace_one p entries (q, r) =
    if same_place q p
    then must (entry_of r.id entries) >>= (λ e. done (q, record r { content = e.content }))
    else done (q, r)

-- The results of one file.
unfoldable pub replace_on : Place → Entries → List Located → Parsed (List Located)
replace_on p entries [] = done []
replace_on p entries (l ∷ ls) =
    replace_one p entries l >>= (λ l'. replace_on p entries ls >>= (λ ls'. done (l' ∷ ls')))

-- The second loop, over the files.
unfoldable pub replace_places :
    TimeFormat → Faults → Disk → List Place → List Located → Parsed (List Located)
unfolding read_entries replace_on
replace_places f x d [] ls = done ls
replace_places f x d (p ∷ ps) ls =
    read_entries f x d p.0 p.1 >>= (λ entries. replace_on p entries ls >>= replace_places f x d ps)

-- `replaceSearchContentFromMarkdown`
unfoldable pub replace_content :
    TimeFormat
    → Faults
    → Disk
    → Bytes
    → (List Place → List Place)
    → Bytes
    → Bytes
    → List SearchResult
    → Parsed (List SearchResult)
unfolding locate_all replace_places
replace_content f x d base order user_id agent_id rs =
    parsed (locate_all f base user_id agent_id rs) >>= (λ ls.
      replace_places f x d (order (map (λ l. l.0) ls)) ls >>= (λ ls'. done (map (λ l. l.1) ls')))
