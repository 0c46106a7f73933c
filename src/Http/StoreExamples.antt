-- ===== src/Http/StoreExamples.antt =====
-- Runs of saves and searches on a file that holds a memory.
use agent_cortex.Prelude.{
  ◌≡◌, ◌<◌, ◌^◌, refl, ap, true, Bytes, bytes_eq, bytes_eq_self, List, [], ◌∷◌, ◌++◌, none, some,
  length, arith, All, All-map, map,
}
use mathlib.Core.Path.{subst}
use agent_cortex.Prelude.Text.{codes}
use agent_cortex.Prelude.Int.{pos, eqb_ℤ}
use agent_cortex.Strings.{
  trim_space, trim_right, trim_from, trim_left, space_width, space_width_back, contains_any,
  has_byte, seek, after_prefix, cut_last,
}
use agent_cortex.Decimal.{itoa, digits}
use agent_cortex.Errors.{ok}
use agent_cortex.Memory.{Memory, SearchResult, Backend, same_content}
use agent_cortex.Memory as M
use agent_cortex.Files.{
  Disk, file, put_node, markdown_file_path, markdown_file_exists, append_markdown_file, get, put,
  node,
}
use agent_cortex.Http.Ids.{
  is_marker_id, is_path_id, all_path_bytes, daily_path, daily_filename, memory_markdown_dir,
}
use agent_cortex.Http.Markdown.{Entry, payload}
use agent_cortex.Http.Markdown.Parser.{done, entry_of}
use agent_cortex.Http.Markdown.Append.{entry_for}
use agent_cortex.Http.MemoryFiles.{
  read_entries, read_entry_on, entry_matches, write_on, write_memory, joined,
}
use agent_cortex.Http.MemoryFiles.Writes.{entries_held}
use agent_cortex.Http.Markdown.RoundTrip.{append_content_ok}
use agent_cortex.Http.Save.{
  World, saved, save_memory, save_locked, save_stored, save_new, normalize_memory,
}
use agent_cortex.Http.Save.Outcomes.{save_memory-stored}
use agent_cortex.Http.Save.ReadBack.{save_new-read_entries}
use agent_cortex.Http.Search.{
  Place, Located, locate_all, replace_content, replace_places, replace_on,
}
use agent_cortex.Http.Search.Fresh.{key, is_among, IsFresh, replace_content-IsFresh}
use agent_cortex.Http.Samples.{
  noon, format, format-IsLawful, backend, no_faults, base, folder_name, file_name, hit, first,
  second, held_text, added_text, held_entries, marker, holds, disk,
}

is_among_self : (q : Place) (ps : List Place) → is_among q (q ∷ ps) ≡ true
unfolding is_among
is_among_self (a, b) ps = rw (bytes_eq_self a, bytes_eq_self b) refl

is_among_more : (q p : Place) (ps : List Place) → is_among q ps ≡ true → is_among q (p ∷ ps) ≡ true
unfolding is_among
is_among_more q p ps h = ground (arith, h)

visits : (ls : List Located) → All (λ (l : Located). is_among l.0 (map (λ k. k.0) ls) ≡ true) ls
visits [] = tt
visits (l ∷ ls) = (
  is_among_self l.0 (map (λ k. k.0) ls),
  All-map (λ (k : Located). is_among k.0 (map (λ j. j.0) ls) ≡ true) _ ls
      (λ k h. is_among_more k.0 l.0 (map (λ j. j.0) ls) h) (visits ls),
)

reads_held : read_entries format no_faults disk folder_name file_name ≡ done held_entries
unfolding read_entries get bytes_eq
reads_held = ap joined holds

abbrev shown : List SearchResult
shown = record (hit first) { content = (entry_for format first noon).content } ∷ []

replaced :
    replace_content format no_faults disk base (λ ps. ps) (codes "u1") (codes "a1") (hit first ∷ [])
    ≡ done shown
unfolding replace_content replace_places replace_on locate_all daily_path daily_filename
    memory_markdown_dir is_path_id all_path_bytes trim_space trim_right trim_from trim_left
    space_width space_width_back bytes_eq entry_of
replaced = rw (reads_held) refl

replace_content-IsFresh_example :
    (ls : List Located) × (ls' : List Located) × (locate_all format base
        (codes "u1")
        (codes "a1")
        (hit first ∷ [])
      ≡ ok ls)
    × (map key ls' ≡ map key ls)
    × (map (λ l. l.1) ls' ≡ shown)
    × All (IsFresh format no_faults disk) ls'
replace_content-IsFresh_example =
    replace_content-IsFresh format no_faults disk base (λ ps. ps) (codes "u1") (codes "a1")
      (hit first ∷ []) shown visits replaced

abbrev grown : Disk
grown = put_node folder_name file_name (file (held_text ++ added_text)) disk

written : write_memory format no_faults disk base second ≡ (grown, done tt)
unfolding write_on markdown_file_exists append_markdown_file markdown_file_path daily_path
    daily_filename memory_markdown_dir is_path_id all_path_bytes trim_space trim_right trim_from
    trim_left space_width space_width_back bytes_eq seek after_prefix cut_last get put
written =
    rw
      (
        reads_held,
        append_content_ok format format-IsLawful second refl refl (marker (codes "m1") refl),
      )
      refl

saves :
    save_new backend format base no_faults (disk, first ∷ []) second (done none)
    ≡ ((grown, second ∷ first ∷ []), saved true none)
unfolding save_new M.save
saves = rw (written) refl

holds_first : entries_held format (node folder_name file_name disk) ≡ done held_entries
unfolding get bytes_eq
holds_first = ap joined holds

small : length (held_text ++ added_text) < 2 ^ 63
unfolding payload itoa digits
small = omega arith

grown_small : (t : Bytes) → node folder_name file_name grown ≡ some (file t) → length t < 2 ^ 63
unfolding get put bytes_eq
grown_small t h =
    let is : held_text ++ added_text ≡ t = ground (arith, h) in
    subst (λ s. length s < 2 ^ 63) is small

save_new-read_entries_example :
    (read_entries format no_faults grown folder_name file_name
      ≡ done (held_entries ++ (codes "m1", entry_for format second noon) ∷ []))
    × (M.save backend (first ∷ []) second ≡ (second ∷ first ∷ [], ok tt))
unfolding daily_path daily_filename memory_markdown_dir is_path_id all_path_bytes trim_space
    trim_right trim_from trim_left space_width space_width_back bytes_eq markdown_file_path seek
    after_prefix cut_last entry_of
save_new-read_entries_example =
    save_new-read_entries backend format base format-IsLawful no_faults (disk, first ∷ []) second
      folder_name file_name refl refl (marker (codes "m1") refl) refl refl refl refl refl
      held_entries holds_first refl (λ k e h. cc (h)) grown (second ∷ first ∷ []) grown_small saves

stored_reads :
    read_entry_on format no_faults disk base
      (codes "m0")
      (daily_path format base (codes "u1") (codes "a1") noon)
    ≡ done (some (entry_for format first noon))
unfolding read_entry_on daily_path daily_filename memory_markdown_dir is_path_id all_path_bytes
    trim_space trim_right trim_from trim_left space_width space_width_back bytes_eq entry_of
stored_reads = rw (reads_held) refl

first_saved :
    save_memory backend format base no_faults noon (disk, first ∷ []) first
    ≡ ((disk, first ∷ []), saved true none)
unfolding save_memory save_locked save_stored normalize_memory is_marker_id is_path_id
    all_path_bytes trim_space trim_right trim_from trim_left space_width space_width_back bytes_eq
    contains_any has_byte seek after_prefix same_content payload
first_saved = rw (stored_reads) refl

save_memory-stored_example :
    (◌≡◌ {A = World backend format base} (disk, first ∷ []) (disk, first ∷ []))
    × (same_content first (normalize_memory first) ≡ true)
    × (eqb_ℤ first.storage_version (pos 1) ≡ true)
    × ((e : Entry) × (read_entry_on format no_faults disk base first.id
            (daily_path format base first.user_id first.agent_id first.recorded_at)
          ≡ done (some e))
        × (entry_matches format e (normalize_memory first) ≡ true))
unfolding normalize_memory is_marker_id is_path_id all_path_bytes trim_space trim_right trim_from
    trim_left space_width space_width_back bytes_eq contains_any has_byte seek after_prefix
save_memory-stored_example =
    save_memory-stored backend format base no_faults noon (disk, first ∷ []) (disk, first ∷ [])
      first first refl refl first_saved
